-- ===== src/Room/Subtree.antt =====
-- packages/fleet-worker/src/room-tasks.mjs, cancel: the tasks that it selects, and the whole of it.
use fleet_for_agent.Base.{
  ℕ, zero, suc, ◌≤◌, ◌≡◌, refl, sym, subst, ◌∙◌, inl, inr, String, Bool, true, false, Option, none,
  some, if◌then◌else◌, arith, Bool-cases, ok, ok-injective, List, [], ◌∷◌, In, here, there, In-cons,
  In-filter, filter-In, any, filter, or_else,
}
use fleet_for_agent.Base.Eq.{◌==◌, ==_iff, string_eq, pair_eq}
use fleet_for_agent.Base.Assoc.{lookup, Distinct, lookup-In}
use fleet_for_agent.Room.Types.{Principal, Room, Task, Code}
use fleet_for_agent.Room.Ledger.{Ledger, Pair, key_of, room_tasks}
use fleet_for_agent.Room.Execution.{
  is_settled, select_children, select_passes, subtree, may_cancel, cancel_task, cancel_each,
}
use fleet_for_agent.Room.Lifecycle.{Tasks, Moves, stay, Sound}
use fleet_for_agent.Room.Cancellation.{Apart, SettledAt, Ready, Cancels, cancel_each_total}

-- Each entry stands under its own key.
abbrev Labelled : Tasks → Type 0
Labelled m = (k : Pair) (t : Task) → In (k, t) m → key_of t ≡ k

Sound-Labelled : (m : Tasks) → Sound m → Labelled m
Sound-Labelled m v k t i = v.keyed k t (lookup-In k t m v.distinct i)

room_tasks-In :
    (room : String) (m : Tasks) (x : Task) → In x (room_tasks room m) → (k : Pair) × In (k, x) m
unfolding room_tasks
room_tasks-In room [] x i = elim i [ ]
room_tasks-In room ((k, t) ∷ m) x i = elim (Bool-cases (k.0 == room)) [
  | inl kept ↦
      In-cons (λ y. (j : Pair) × In (j, y) ((k, t) ∷ m)) t (room_tasks room m) (k, here)
        (λ y r. let (j, at_j) = room_tasks-In room m y r in (j, there at_j)) x (rw kept at i)
  | inr gone ↦ let (j, at_j) = room_tasks-In room m x (rw gone at i) in (j, there at_j)
]

Apart-room_tasks : (room : String) (m : Tasks) → Distinct m → Labelled m → Apart (room_tasks room m)
unfolding room_tasks
Apart-room_tasks room [] d named = tt
Apart-room_tasks room ((k, t) ∷ m) d named =
    let rest = Apart-room_tasks room m d.1 (λ j x i. named j x (there i)) in
    elim (Bool-cases (k.0 == room)) [
      | inl kept ↦ rw kept (
        (λ x i e.
            let (j, at_j) = room_tasks-In room m x i in
            let same : k ≡ j = sym (named k t here) ∙ e ∙ named j x (there at_j) in
            let found : lookup k m ≡ some x = rw same (lookup-In j x m d.1 at_j) in
            cc (found, d.0)),
        rest,
      )
      | inr gone ↦ rw gone rest
    ]

Apart-filter : (p : Task → Bool) (ts : List Task) → Apart ts → Apart (filter p ts)
Apart-filter p [] a = tt
Apart-filter p (t ∷ ts) a = elim (Bool-cases (p t)) [
  | inl kept ↦ rw kept ((λ x i. a.0 x (In-filter p x ts i)), Apart-filter p ts a.1)
  | inr gone ↦ rw gone (Apart-filter p ts a.1)
]

-- An id that is reached from the root by `n` steps from a task to a child of it.
pub data Descends (ts : List Task) (root : String) : ℕ → String → Type 0 where
  self : Descends ts root 0 root
  child :
      {n : ℕ} {above id : String}
      → Descends ts root n above
      → (x : Task) → In x ts
      → x.parent_task_id ≡ some above
      → x.id ≡ id
      → Descends ts root (suc n) id

abbrev Has : List String → String → Type 0
Has ids i = any (λ j. j == i) ids ≡ true

select_keeps :
    (ts : List Task) (ids : List String) (i : String) → Has ids i → Has (select_children ts ids) i
unfolding select_children
select_keeps [] ids i h = h
select_keeps (t ∷ ts) ids i h =
    elim t.parent_task_id
      as (λ p.
        Has
          (select_children ts
            (elim p [ none ↦ ids | some q ↦ if any (λ j. j == q) ids then t.id ∷ ids else ids ]))
          i) [
            | none ↦ select_keeps ts ids i h
            | some q ↦ elim (Bool-cases (any (λ j. j == q) ids)) [
              | inl hit ↦ rw hit (select_keeps ts (t.id ∷ ids) i (ground (arith, h)))
              | inr miss ↦ rw miss (select_keeps ts ids i h)
            ]
          ]

-- One round of the selection, for the task at the head.
abbrev with_child : Task → List String → List String
with_child t ids = elim t.parent_task_id [
  | none ↦ ids
  | some q ↦ if any (λ j. j == q) ids then t.id ∷ ids else ids
]

with_child_keeps :
    (t : Task) (ids : List String) (i : String) → Has ids i → Has (with_child t ids) i
with_child_keeps t ids i h = ground (arith, h)

with_child_picks :
    (t : Task) (ids : List String) (above : String)
    → t.parent_task_id ≡ some above
    → Has ids above
    → Has (with_child t ids) t.id
with_child_picks t ids above p h = rw p (rw h (ground (arith, ==_iff t.id t.id)))

select_picks :
    (ts : List Task) (ids : List String) (x : Task) (above : String)
    → In x ts
    → x.parent_task_id ≡ some above
    → Has ids above
    → Has (select_children ts ids) x.id
unfolding select_children
select_picks (t ∷ ts) ids x above here p h =
    select_keeps ts (with_child t ids) t.id (with_child_picks t ids above p h)
select_picks (t ∷ ts) ids x above (there i) p h =
    select_picks ts (with_child t ids) x above i p (with_child_keeps t ids above h)
select_picks [] ids x above i p h = elim i [ ]

passes_keep :
    (n : ℕ) (ts : List Task) (ids : List String) (i : String)
    → Has ids i
    → Has (select_passes n ts ids) i
unfolding select_passes
passes_keep zero ts ids i h = h
passes_keep (suc n) ts ids i h =
    passes_keep n ts (select_children ts ids) i (select_keeps ts ids i h)

passes_suc :
    (n : ℕ) (ts : List Task) (ids : List String)
    → select_passes (suc n) ts ids ≡ select_children ts (select_passes n ts ids)
unfolding select_passes
passes_suc zero ts ids = refl
passes_suc (suc n) ts ids = passes_suc n ts (select_children ts ids)

Descends-selected :
    (ts : List Task) (root i : String) (n k : ℕ)
    → Descends ts root n i
    → n ≤ k
    → Has (select_passes k ts (root ∷ [])) i
Descends-selected ts root i n k self h =
    passes_keep k ts (root ∷ []) root (ground (arith, ==_iff root root))
Descends-selected ts root i n zero (child d x at_x p e) h = absurd (omega arith)
Descends-selected ts root i n (suc k) (child {n = m} {above} d x at_x p e) h =
    rw (passes_suc k ts (root ∷ [])) (
      subst (Has (select_children ts (select_passes k ts (root ∷ [])))) e (
        select_picks ts (select_passes k ts (root ∷ [])) x above at_x p
          (Descends-selected ts root above m k d (omega arith))))

module _ (l : Ledger) (principal : Principal) (room : Room) (task : Task) (now : ℕ)
    (v : Sound l.tasks) where
  entry-Ready : (t : Task) → In t (subtree l room task) → Ready l.tasks t now
  entry-Ready t i =
      let all = room_tasks room.id l.tasks in
      let ids = select_passes 9 all (task.id ∷ []) in
      let (k, at_k) =
        room_tasks-In room.id l.tasks t (In-filter (λ x. any (λ j. j == x.id) ids) t all i) in
      let found = lookup-In k t l.tasks v.distinct at_k in
      (v.budget k t found, (t, rw (v.keyed k t found) found, inl refl))

  entries-Apart : Apart (subtree l room task)
  entries-Apart =
      Apart-filter _ (room_tasks room.id l.tasks)
        (Apart-room_tasks room.id l.tasks v.distinct (Sound-Labelled l.tasks v))

  cancel_each_done :
      (done : Option Task × Ledger) × (cancel_each l principal now task.id none
          (subtree l room task)
        ≡ ok done)
      × Cancels l.tasks done.1.tasks (subtree l room task)
  cancel_each_done =
      cancel_each_total (subtree l room task) l principal now task.id none v entries-Apart
        entry-Ready

  -- In a sound store, the cancellation of a task that has not ended and is not asked to end, by
  -- a caller who may cancel it, succeeds by legal changes, and every stored task of the Room
  -- that is at most nine delegations below the cancelled one, or that one, has then ended or is
  -- asked to end.
  pub cancel_task_total :
      may_cancel principal room task ≡ true
      → is_settled task.status ≡ false
      → (done : Task × Ledger) × (cancel_task l principal room task now ≡ ok done)
        × Moves l.tasks done.1.tasks
        × ((t : Task) (n : ℕ)
            → In t (room_tasks room.id l.tasks)
            → Descends (room_tasks room.id l.tasks) task.id n t.id
            → n ≤ 9
            → SettledAt done.1.tasks (key_of t))
  unfolding cancel_task
  cancel_task_total allowed unsettled =
      let (done, ends, cancels) = cancel_each_done in
      let all = room_tasks room.id l.tasks in
      (
        (or_else done.0 task, done.1),
        rw allowed (rw unsettled (rw ends)),
        cancels.moves,
        λ t n at_t below few. cancels.settled t (
            filter-In (λ x. any (λ j. j == x.id) (select_passes 9 all (task.id ∷ []))) at_t
              (Descends-selected all task.id t.id n 9 below few)),
      )

  pub cancel_task_ok :
      (r : Task × Ledger) → cancel_task l principal room task now ≡ ok r → Moves l.tasks r.1.tasks
  unfolding cancel_task
  cancel_task_ok r h =
      let (done, ends, cancels) = cancel_each_done in
      elim (Bool-cases (may_cancel principal room task)) [
        | inr refused ↦ absurd (ground (arith, refused))
        | inl allowed ↦ elim (Bool-cases (is_settled task.status)) [
          | inl settled ↦
              subst (λ x. Moves l.tasks x.1.tasks)
                (ok-injective {E = Code} (task, l) r (ground (arith, allowed, settled))) stay
          | inr unsettled ↦
              subst (λ x. Moves l.tasks x.1.tasks)
                (ok-injective {E = Code} (or_else done.0 task, done.1) r
                  (ground (arith, allowed, unsettled, ends)))
                cancels.moves
        ]
      ]
