-- ===== src/Room/Cancellation.antt =====
-- packages/fleet-worker/src/room-tasks.mjs, cancel: the loop over the selected tasks.
use fleet_for_agent.Base.{
  ℕ, ◌≡◌, refl, sym, inl, inr, ◌⊎◌, ◌≢◌, String, true, false, Option, none, some, arith, Bool-cases,
  ok, List, [], ◌∷◌, In, here, there, In-cons, In-nil,
}
use fleet_for_agent.Base.Eq.{string_eq, pair_eq}
use fleet_for_agent.Base.Assoc.{lookup}
use fleet_for_agent.Room.Types.{
  Principal, Task, EventType, Status, queued, running, waiting, unknown, cancelled,
  cancel_requested,
}
use fleet_for_agent.Room.Ledger.{Ledger, Pair, key_of}
use fleet_for_agent.Room.Tasks.{is_active, task_view, next_task, save_task}
use fleet_for_agent.Room.Execution.{
  is_settled, cancelled_status, cancelled_task, cancel_one, cancel_each, picked,
}
use fleet_for_agent.Room.Lifecycle.{
  Tasks, InBudget, Follows, Moves, stay, Moves-trans, Moves-Sound, Sound,
}
use fleet_for_agent.Room.Writes.{Kept, Saves, save_task_total}
use fleet_for_agent.Room.Claims.{view_cases}
use fleet_for_agent.Room.Progress.{follow-Admissible}

-- What `cancel` makes of a task that has not been settled.
record Ending (t : Task) (now : ℕ) : Type 0 where
  status : Status
  task : cancelled_task t now ≡ record t { status = status }
  kind :
      ((status ≡ cancelled) × ((t.status ≡ queued) ⊎ (t.status ≡ waiting)))
      ⊎ ((status ≡ cancel_requested) × (t.status ≡ running))

open_status :
    (s : Status)
    → is_settled s ≡ false
    → s ≢ unknown
    → ((cancelled_status s ≡ cancelled) × ((s ≡ queued) ⊎ (s ≡ waiting)))
      ⊎ ((cancelled_status s ≡ cancel_requested) × (s ≡ running))
open_status s h k = ground arith

ending :
    (t : Task) (now : ℕ)
    → t.status ≢ unknown
    → is_settled (task_view t now).status ≡ false
    → Ending t now
ending t now known h = elim (view_cases t now) [
  | inl same ↦ record {
    status = cancelled_status t.status;
    task = rw same refl;
    kind = open_status t.status (rw same at h) known;
  }
  | inr (runs, _, late) ↦ record {
    status = cancel_requested;
    task = rw late refl;
    kind = inr (refl, runs);
  }
]

-- A stored task that the loop will come to, unchanged since it was read or resumed meanwhile.
abbrev pub Ready : Tasks → Task → ℕ → Type 0
Ready m t now = InBudget t × ((u : Task) × (lookup (key_of t) m ≡ some u) × Kept t u now)

abbrev pub SettledAt : Tasks → Pair → Type 0
SettledAt m k = (w : Task) × (lookup k m ≡ some w) × (is_settled w.status ≡ true)

-- One round of the loop.
record Round (m n : Tasks) (t : Task) (now : ℕ) : Type 0 where
  pub moves : Moves m n
  settled : SettledAt n (key_of t)
  frame :
      (k : Pair) (u : Task)
      → key_of t ≢ k
      → lookup k m ≡ some u
      → (w : Task) × (lookup k n ≡ some w) × Kept u w now

module _ (t u : Task) (now : ℕ) (e : Ending t now) (fits : InBudget t) (kept : Kept t u now) where
  abbrev next : Task
  next = next_task (record t { status = e.status }) now

  next-Follows : Follows u next
  next-Follows = ground (arith, kept, e.kind)

  next-InBudget : InBudget next
  next-InBudget = ground (arith, fits, e.kind)

  next_still : is_active e.status ≡ true → is_active u.status ≡ true
  next_still live = ground (arith, kept, e.kind, live)

module _ (l : Ledger) (principal : Principal) (now : ℕ) (v : Sound l.tasks) where
  end_task :
      (t u : Task) (e : Ending t now)
      → InBudget t
      → lookup (key_of t) l.tasks ≡ some u
      → Kept t u now
      → (r : Task × Ledger) × (save_task l
            (record t { status = e.status })
            EventType.cancel_requested
            principal
            now
          ≡ ok r)
        × Saves l.tasks (record t { status = e.status }) now r
  end_task t u e fits stored kept =
      save_task_total l (record t { status = e.status }) EventType.cancel_requested principal now v
        (follow-Admissible l.tasks (key_of t) u (next t u now e fits kept) v stored
          (next-Follows t u now e fits kept) (next-InBudget t u now e fits kept)
          (next_still t u now e fits kept))
        (ground (arith, fits, e.kind))

  cancel_one_total :
      (t : Task)
      → Ready l.tasks t now
      → (step : Option Task × Ledger) × (cancel_one l principal now t ≡ ok step)
        × Round l.tasks step.1.tasks t now
  unfolding cancel_one
  cancel_one_total t (fits, (u, stored, kept)) =
      elim (Bool-cases (is_settled (task_view t now).status)) [
        | inl settled ↦ (
          (none, l),
          rw settled,
          record {
            moves = stay;
            settled = (u, stored, settled_view t u now settled kept);
            frame = λ k w away h. (w, h, inl refl);
          },
        )
        | inr unsettled ↦
            let e = ending t now (λ q. ground (arith, q, fits.stored)) unsettled in
            let (r, saved, saves) = end_task t u e fits stored kept in
            (
              (some r.0, r.1),
              rw unsettled (rw e.task (rw saved)),
              record {
                moves = saves.moves;
                settled = (next t u now e fits kept, saves.stored, ground (arith, e.kind));
                frame = saves.frame;
              },
            )
      ]
    where
      settled_view :
          (t u : Task) (now : ℕ)
          → is_settled (task_view t now).status ≡ true
          → Kept t u now
          → is_settled u.status ≡ true
      settled_view t u now settled kept = elim (view_cases t now) [
        | inl same ↦
            let h : is_settled t.status ≡ true = rw same at settled in ground (arith, h, kept)
        | inr (_, _, late) ↦ cc (rw late at settled)
      ]

-- No two entries of the loop have one key.
abbrev pub Apart : List Task → Type 0
Apart [] = Unit {0}
Apart (t ∷ ts) = ((x : Task) → In x ts → key_of t ≢ key_of x) × Apart ts

settled_stays :
    (m n : Tasks) (t : Task) (now : ℕ) (k : Pair)
    → key_of t ≢ k
    → Round m n t now
    → SettledAt m k
    → SettledAt n k
settled_stays m n t now k away round (w, h, settled) =
    let (x, h', kept) = round.frame k w away h in (x, h', ground (arith, kept, settled))

Ready-stays :
    (m n : Tasks) (t x : Task) (now : ℕ)
    → key_of t ≢ key_of x
    → Round m n t now
    → Ready m x now
    → Ready n x now
Ready-stays m n t x now away round (fits, (u, h, kept)) =
    let (w, h', again) = round.frame (key_of x) u away h in
    (fits, (w, h', ground (arith, kept, again)))

pub record Cancels (m n : Tasks) (ts : List Task) : Type 0 where
  pub moves : Moves m n
  pub settled : (t : Task) → In t ts → SettledAt n (key_of t)
  -- What is settled and is not among the entries stays settled.
  pub kept : (k : Pair) → ((t : Task) → In t ts → key_of t ≢ k) → SettledAt m k → SettledAt n k

pub cancel_each_total :
    (ts : List Task) (l : Ledger) (principal : Principal) (now : ℕ) (id : String)
    (result : Option Task)
    → Sound l.tasks
    → Apart ts
    → ((t : Task) → In t ts → Ready l.tasks t now)
    → (done : Option Task × Ledger) × (cancel_each l principal now id result ts ≡ ok done)
      × Cancels l.tasks done.1.tasks ts
unfolding cancel_each
cancel_each_total [] l principal now id result v apart ready = (
  (result, l),
  refl,
  record {
    moves = stay;
    settled = In-nil (λ t. SettledAt l.tasks (key_of t));
    kept = λ k away s. s;
  },
)
cancel_each_total (t ∷ ts) l principal now id result v apart ready =
    let (step, one, round) = cancel_one_total l principal now v t (ready t here) in
    let (done, rest, cancels) =
      cancel_each_total ts step.1 principal now id (picked id t step.0 result)
        (Moves-Sound v round.moves) apart.1
        (λ x m. Ready-stays l.tasks step.1.tasks t x now (apart.0 x m) round (ready x (there m))) in
    let first = cancels.kept (key_of t) (λ x m e. apart.0 x m (sym e)) round.settled in
    (
      done,
      rw one rest,
      record {
        moves = Moves-trans round.moves cancels.moves;
        settled = In-cons (λ x. SettledAt done.1.tasks (key_of x)) t ts first cancels.settled;
        kept = λ k away s.
            cancels.kept k (λ x m. away x (there m))
              (settled_stays l.tasks step.1.tasks t now k (away t here) round s);
      },
    )
