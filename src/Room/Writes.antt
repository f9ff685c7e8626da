-- ===== src/Room/Writes.antt =====
-- packages/fleet-worker/src/room-tasks.mjs, saveTask and resumeParent: what a save does to the stored tasks.
use mathlib.Core.Option.{some-injective}
use fleet_for_agent.Base.{
  ℕ, ◌≤◌, ◌<◌, ◌≡◌, refl, sym, ap, subst, ◌∙◌, inl, inr, ◌⊎◌, ◌≢◌, String, true, false, Option,
  none, some, arith, Bool-cases, ok, err, ok-injective, leb,
}
use fleet_for_agent.Base.Eq.{◌==◌, ==_iff, ne_of_==_false, string_eq, pair_eq}
use fleet_for_agent.Base.Assoc.{lookup, lookup-put_self, lookup-put_ne}
use fleet_for_agent.Room.Types.{Principal, Task, EventType, Status, queued, waiting, event_limit}
use fleet_for_agent.Base.Keys.{pair_before}
use fleet_for_agent.Room.Ledger.{Ledger, Pair, key_of, put_task, put_event}
use fleet_for_agent.Room.Tasks.{
  event_of, event_room, next_task, write_task, child_tasks, all_terminal, resume_found,
  resume_after, save_task, is_waiting, is_terminal,
}
use fleet_for_agent.Room.Lifecycle.{
  Tasks, event_budget, Admissible, Moves, stay, store, Sound, store-Sound, Moves-trans,
}

-- A waiting task as `resumeParent` queues it again.
abbrev pub resumed : Task → ℕ → Task
resumed t now = next_task (record t { status = queued; resume = some true }) now

-- What a resumption leaves of a stored task.
abbrev pub Kept : Task → Task → ℕ → Type 0
Kept u w now = (w ≡ u) ⊎ ((u.status ≡ waiting) × (w ≡ resumed u now))

-- A legal change in which other tasks are kept or resumed.
pub record Resumes (m n : Tasks) (now : ℕ) : Type 0 where
  pub moves : Moves m n
  pub frame :
      (k : Pair) (u : Task)
      → lookup k m ≡ some u
      → (w : Task) × (lookup k n ≡ some w) × Kept u w now

Resumes-refl : (m : Tasks) (now : ℕ) → Resumes m m now
Resumes-refl m now = record { moves = stay; frame = λ k u h. (u, h, inl refl) }

abbrev written : Ledger → Task → EventType → Principal → ℕ → Ledger
written l t type principal now =
    put_task (next_task t now) (put_event (event_of (next_task t now) type principal now) l)

tasks-written :
    (l : Ledger) (t : Task) (type : EventType) (principal : Principal) (now : ℕ)
    → (written l t type principal now).tasks ≡ store (next_task t now) l.tasks
unfolding put_task put_event
tasks-written l t type principal now = refl

write_task_total :
    (l : Ledger) (t : Task) (type : EventType) (principal : Principal) (now : ℕ)
    → t.event_count < event_room type
    → write_task l t type principal now ≡ ok (next_task t now, written l t type principal now)
unfolding write_task
write_task_total l t type principal now room =
    let open_events : leb (event_room type) t.event_count ≡ false = ground arith in rw open_events

resumed-Admissible :
    (m : Tasks) (u : Task) (k : Pair) (now : ℕ)
    → Sound m
    → lookup k m ≡ some u
    → u.status ≡ waiting
    → Admissible m (resumed u now)
resumed-Admissible m u k now v h w =
    let here : key_of u ≡ k = v.keyed k u h in
    let fits = v.budget k u h in
    let few : u.event_count ≤ 60 = subst (λ s. u.event_count ≤ event_budget s) w fits.events in
    record {
      budget = record { stored = refl; events = omega (arith, few) };
      before = inr (
        u,
        rw here h,
        record {
          legal = rw w;
          id = refl;
          room_id = refl;
          requester_id = refl;
          assignee_id = refl;
          session_id = refl;
          parent_task_id = refl;
          device = refl;
          epoch = rw w;
          events = omega arith;
        },
      );
      sole = λ live. cc;
    }

resumed-frame :
    (m : Tasks) (u : Task) (now : ℕ)
    → lookup (key_of u) m ≡ some u
    → u.status ≡ waiting
    → (k : Pair) (x : Task) → lookup k m ≡ some x
    → (w : Task) × (lookup k (store (resumed u now) m) ≡ some w) × Kept x w now
resumed-frame m u now h waits k x at_k = elim (Bool-cases (key_of u == k)) [
  | inl same ↦
      let here : key_of u ≡ k = (==_iff (key_of u) k).0 same in
      let is_u : u ≡ x = some-injective u x (sym h ∙ ap (λ j. lookup j m) here ∙ at_k) in
      (
        resumed u now,
        subst (λ j. lookup j (store (resumed u now) m) ≡ some (resumed u now)) here
            (lookup-put_self pair_before (key_of u) (resumed u now) m),
        inr (ap (λ y. y.status) (sym is_u) ∙ waits, ap (λ y. resumed y now) is_u),
      )
  | inr differs ↦ (
    x,
    lookup-put_ne pair_before (key_of u) k (resumed u now) m (ne_of_==_false (key_of u) k differs)
        ∙ at_k,
    inl refl,
  )
]

is_waiting_iff : (s : Status) → is_waiting s ≡ true → s ≡ waiting
is_waiting_iff s h = ground arith

module _ (l : Ledger) (principal : Principal) (now : ℕ) (v : Sound l.tasks) where
  resume_write :
      (k : Pair) (u : Task)
      → lookup k l.tasks ≡ some u
      → u.status ≡ waiting
      → (r : Task × Ledger) × (write_task l
            (record u { status = queued; resume = some true })
            EventType.resumed
            principal
            now
          ≡ ok r)
        × Resumes l.tasks r.1.tasks now
  resume_write k u h w =
      let next : Task = record u { status = queued; resume = some true } in
      let here : lookup (key_of u) l.tasks ≡ some u = rw (v.keyed k u h) h in
      let few : u.event_count ≤ 60 =
        subst (λ s. u.event_count ≤ event_budget s) w (v.budget k u h).events in
      (
        (next_task next now, written l next EventType.resumed principal now),
        write_task_total l next EventType.resumed principal now (omega (arith, few)),
        rw (tasks-written l next EventType.resumed principal now) (record {
          moves = Moves.next stay (resumed u now) (resumed-Admissible l.tasks u k now v h w);
          frame = resumed-frame l.tasks u now here w;
        }),
      )

  pub resume_found_total :
      (k : Pair) (o : Option Task)
      → lookup k l.tasks ≡ o
      → (after : Ledger) × (resume_found l o principal now ≡ ok after)
        × Resumes l.tasks after.tasks now
  unfolding resume_found
  resume_found_total k none h = (l, refl, Resumes-refl l.tasks now)
  resume_found_total k (some u) h = elim (Bool-cases (is_waiting u.status)) [
    | inr other ↦ (l, rw other, Resumes-refl l.tasks now)
    | inl waits ↦ elim (Bool-cases (all_terminal (child_tasks l u))) [
      | inr unfinished ↦ (l, rw waits (rw unfinished), Resumes-refl l.tasks now)
      | inl done ↦
          let (r, ends, resumes) = resume_write k u h (is_waiting_iff u.status waits) in
          (r.1, rw waits (rw done (rw ends)), resumes)
    ]
  ]

save_task_full :
    (l : Ledger) (t : Task) (type : EventType) (principal : Principal) (now : ℕ)
    → leb (event_room type) t.event_count ≡ true
    → save_task l t type principal now ≡ err event_limit
unfolding save_task write_task
save_task_full l t type principal now full = rw full

-- A save that succeeds had room for its event.
pub save_task_limit :
    (l : Ledger) (t : Task) (type : EventType) (principal : Principal) (now : ℕ) (r : Task × Ledger)
    → save_task l t type principal now ≡ ok r
    → t.event_count < event_room type
unfolding save_task write_task
save_task_limit l t type principal now r h =
    elim (Bool-cases (leb (event_room type) t.event_count)) [
      | inr open_events ↦ ground arith
      | inl full ↦ absurd (cc (save_task_full l t type principal now full))
    ]

-- A save that is done: the task stands at its key, and the other tasks are kept or resumed.
pub record Saves (m : Tasks) (t : Task) (now : ℕ) (r : Task × Ledger) : Type 0 where
  pub reply : r.0 ≡ next_task t now
  pub moves : Moves m r.1.tasks
  pub stored : lookup (key_of t) r.1.tasks ≡ some (next_task t now)
  pub frame :
      (k : Pair) (u : Task)
      → key_of t ≢ k
      → lookup k m ≡ some u
      → (w : Task) × (lookup k r.1.tasks ≡ some w) × Kept u w now

terminal_not_waiting : (s : Status) → is_terminal s ≡ true → s ≢ waiting
terminal_not_waiting s h e = ground arith

module _ (l : Ledger) (t : Task) (principal : Principal) (now : ℕ) (v : Sound l.tasks) where
  -- The resumption after a save: of a terminal task only, so the task itself stays.
  pub resume_after_total :
      lookup (key_of t) l.tasks ≡ some t
      → (above : Option String)
      → (after : Ledger) × (resume_after l t above principal now ≡ ok after)
        × Resumes l.tasks after.tasks now
        × (lookup (key_of t) after.tasks ≡ some t)
  unfolding resume_after
  resume_after_total here none = (l, refl, Resumes-refl l.tasks now, here)
  resume_after_total here (some p) = elim (Bool-cases (is_terminal t.status)) [
    | inr goes_on ↦ (l, rw goes_on, Resumes-refl l.tasks now, here)
    | inl ended ↦
        let (after, ends, resumes) =
          resume_found_total l principal now v (t.room_id, p) (lookup (t.room_id, p) l.tasks)
            refl in
        let (w, at_key, kept) = resumes.frame (key_of t) t here in
        let same : w ≡ t = elim kept [
          | inl same ↦ same
          | inr (waits, _) ↦ absurd (terminal_not_waiting t.status ended waits)
        ] in
        (after, rw ended ends, resumes, at_key ∙ ap some same)
  ]

module _ (l : Ledger) (t : Task) (type : EventType) (principal : Principal) (now : ℕ)
    (v : Sound l.tasks) (a : Admissible l.tasks (next_task t now)) where
  abbrev after_write : Ledger
  after_write = written l t type principal now

  after_write-Sound : Sound after_write.tasks
  after_write-Sound =
      rw (tasks-written l t type principal now) (store-Sound l.tasks (next_task t now) v a)

  after_write_stored : lookup (key_of t) after_write.tasks ≡ some (next_task t now)
  after_write_stored =
      rw (tasks-written l t type principal now)
        (lookup-put_self pair_before (key_of t) (next_task t now) l.tasks)

  after_write_frame :
      (k : Pair) (u : Task)
      → key_of t ≢ k
      → lookup k l.tasks ≡ some u
      → lookup k after_write.tasks ≡ some u
  after_write_frame k u away h =
      rw (tasks-written l t type principal now)
        (lookup-put_ne pair_before (key_of t) k (next_task t now) l.tasks away ∙ h)

  after_write_moves : Moves l.tasks after_write.tasks
  after_write_moves =
      rw (tasks-written l t type principal now) (Moves.next stay (next_task t now) a)

  -- With room for its event a legal save is done.
  pub save_task_total :
      t.event_count < event_room type
      → (r : Task × Ledger) × (save_task l t type principal now ≡ ok r) × Saves l.tasks t now r
  unfolding save_task
  save_task_total room =
      let done = write_task_total l t type principal now room in
      let (after, ends, resumes, at_key) =
        resume_after_total after_write (next_task t now) principal now after_write-Sound
          after_write_stored t.parent_task_id in
      (
        (next_task t now, after),
        rw done (rw ends),
        record {
          reply = refl;
          moves = Moves-trans after_write_moves resumes.moves;
          stored = at_key;
          frame = λ k u away h. resumes.frame k u (after_write_frame k u away h);
        },
      )

  -- Whatever a save returns, it was this one.
  pub save_task_ok :
      (r : Task × Ledger) → save_task l t type principal now ≡ ok r → Saves l.tasks t now r
  save_task_ok r h = elim (Bool-cases (leb (event_room type) t.event_count)) [
    | inl full ↦ cc (save_task_full l t type principal now full)
    | inr open_events ↦
        let (r', ends, saves) = save_task_total (ground arith) in
        let same : r' ≡ r = ok-injective r' r (sym ends ∙ h) in
        subst (Saves l.tasks t now) same saves
  ]
