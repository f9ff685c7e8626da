-- ===== src/Room/Progress.antt =====
-- packages/fleet-worker/src/room-tasks.mjs, changeTask: the changes by the holder of an execution.
use fleet_for_agent.Base.{
  ℕ, ◌≤◌, ◌<◌, ◌≡◌, refl, subst, ◌∙◌, inl, inr, String, true, false, not, ◌&&◌, none, some,
  if◌then◌else◌, arith, ok,
}
use fleet_for_agent.Base.Eq.{string_eq, pair_eq}
use fleet_for_agent.Base.Assoc.{lookup}
use fleet_for_agent.Room.Types.{
  Principal, Task, EventType, Status, Outcome, queued, running, waiting, cancelled, failed,
}
use fleet_for_agent.Room.Ledger.{Ledger, Pair, key_of}
use fleet_for_agent.Room.Tasks.{
  is_active, is_queued, is_terminal, is_running, is_unknown, task_view, next_task, save_task,
  child_tasks, all_terminal,
}
use fleet_for_agent.Room.Execution.{fail_task, wait_task, stop_task, is_requeue}
use fleet_for_agent.Room.Lifecycle.{
  Tasks, is_legal, event_budget, InBudget, Follows, Admissible, Moves, Sound, Sole-Follows,
}
use fleet_for_agent.Room.Writes.{save_task_ok}
use fleet_for_agent.Room.Claims.{view_cases}

-- A later state of a stored task may be stored if it starts no execution.
pub follow-Admissible :
    (m : Tasks) (k : Pair) (s t : Task)
    → Sound m
    → lookup k m ≡ some s
    → Follows s t
    → InBudget t
    → (is_active t.status ≡ true → is_active s.status ≡ true)
    → Admissible m t
follow-Admissible m k s t v h f fits still =
    let here : key_of t ≡ k = pair_path f.room_id f.id ∙ v.keyed k s h in
    record {
      budget = fits;
      before = inr (s, rw here h, f);
      sole = λ live. Sole-Follows m s t v (rw here h) (still live) f;
    }
  where
    pair_path : {a b c d : String} → a ≡ b → c ≡ d → Path Pair (a, c) (b, d)
    pair_path p q = cc

pub running_view :
    (s : Task) (now : ℕ)
    → is_running (task_view s now).status ≡ true
    → (task_view s now ≡ s) × (s.status ≡ running)
running_view s now h = elim (view_cases s now) [
  | inl same ↦ (same, ground (arith, rw same at h))
  | inr (_, _, late) ↦ cc (rw late at h)
]

module _ (l : Ledger) (principal : Principal) (k : Pair) (s : Task) (now : ℕ) (v : Sound l.tasks)
    (stored : lookup k l.tasks ≡ some s) where
  pub running_budget : s.status ≡ running → s.event_count ≤ 62
  running_budget e = subst (λ x. s.event_count ≤ event_budget x) e (v.budget k s stored).events

  fail_inv :
      (t : Task) (error : String) (r : Task × Ledger)
      → fail_task l principal t error now ≡ ok r
      → (is_running t.status ≡ true)
        × (save_task l
              (record t { status = failed; lease_expires_at = none; error = some error })
              EventType.failed
              principal
              now
            ≡ ok r)
  unfolding fail_task
  fail_inv t error r h = ground arith

  pub fail_task_ok :
      (error : String) (r : Task × Ledger)
      → fail_task l principal (task_view s now) error now ≡ ok r
      → Moves l.tasks r.1.tasks
  fail_task_ok error r h =
      let (runs, saved) = fail_inv (task_view s now) error r h in
      let (same, e) = running_view s now runs in
      let few = running_budget e in
      let next : Task = record s { status = failed; lease_expires_at = none; error = some error } in
      let follows : Follows s (next_task next now) = ground (arith, e) in
      (save_task_ok l next EventType.failed principal now v
        (follow-Admissible l.tasks k s (next_task next now) v stored follows
          (record { stored = refl; events = omega arith }) (λ live. cc live))
        r (rw same at saved)).moves

  wait_inv :
      (t : Task) (checkpoint : String) (r : Task × Ledger)
      → wait_task l principal t checkpoint now ≡ ok r
      → (is_running t.status ≡ true)
        × (t.event_count < 59)
        × (save_task l
              (record t {
                status = if all_terminal (child_tasks l t) then queued else waiting;
                lease_expires_at = none;
                resume = some (all_terminal (child_tasks l t));
                checkpoint = some checkpoint;
              })
              EventType.waiting
              principal
              now
            ≡ ok r)
  unfolding wait_task
  wait_inv t checkpoint r h = ground arith

  pub wait_task_ok :
      (checkpoint : String) (r : Task × Ledger)
      → wait_task l principal (task_view s now) checkpoint now ≡ ok r
      → Moves l.tasks r.1.tasks
  wait_task_ok checkpoint r h =
      let (runs, few, saved) = wait_inv (task_view s now) checkpoint r h in
      let (same, e) = running_view s now runs in
      let few_s : s.event_count < 59 = subst (λ x. x.event_count < 59) same few in
      let ready = all_terminal (child_tasks l s) in
      let next : Task = record s {
        status = if ready then queued else waiting;
        lease_expires_at = none;
        resume = some ready;
        checkpoint = some checkpoint;
      } in
      let follows : Follows s (next_task next now) = ground (arith, e) in
      let fits : InBudget (next_task next now) = ground (arith, few_s) in
      (save_task_ok l next EventType.waiting principal now v
        (follow-Admissible l.tasks k s (next_task next now) v stored follows fits
          (λ live. ground (arith, live)))
        r (rw same at saved)).moves

  stop_inv :
      (t : Task) (outcome : Outcome) (r : Task × Ledger)
      → stop_task l principal t outcome now ≡ ok r
      → (is_active t.status ≡ true)
        × ((is_requeue outcome && not (is_unknown t.status)) ≡ false)
        × (save_task l
              (record t {
                status = if is_requeue outcome then queued else cancelled;
                lease_expires_at = none;
              })
              EventType.stopped
              principal
              now
            ≡ ok r)
  unfolding stop_task
  stop_inv t outcome r h = ground arith

  stop_saved :
      (status : Status) (r : Task × Ledger)
      → is_legal s.status status ≡ true
      → is_queued status ≡ not (is_terminal status)
      → s.event_count ≤ 63
      → (is_queued status ≡ true → s.event_count ≤ 62)
      → save_task l
          (record s { status = status; lease_expires_at = none })
          EventType.stopped
          principal
          now
        ≡ ok r
      → Moves l.tasks r.1.tasks
  stop_saved status r legal kind fits queue_fits saved =
      let next : Task = record s { status = status; lease_expires_at = none } in
      let follows : Follows s (next_task next now) = ground (arith, legal, kind) in
      let budget : InBudget (next_task next now) = ground (arith, kind, fits, queue_fits) in
      (save_task_ok l next EventType.stopped principal now v
        (follow-Admissible l.tasks k s (next_task next now) v stored follows budget
          (λ live. ground (arith, live, kind)))
        r saved).moves

  pub stop_task_ok :
      (outcome : Outcome) (r : Task × Ledger)
      → stop_task l principal (task_view s now) outcome now ≡ ok r
      → Moves l.tasks r.1.tasks
  stop_task_ok outcome r h =
      let (active, allowed, saved) = stop_inv (task_view s now) outcome r h in
      let target : Status = if is_requeue outcome then queued else cancelled in
      let fits = v.budget k s stored in
      elim (view_cases s now) [
        | inr (e, _, late) ↦
            let few = running_budget e in
            stop_saved target r (ground (arith, e)) (ground arith) (omega (arith, few)) (λ _. few)
              (rw late at saved)
        | inl same ↦
            let live : is_active s.status ≡ true = rw same at active in
            let held : (is_requeue outcome && not (is_unknown s.status)) ≡ false =
              rw same at allowed in
            stop_saved target r (ground (arith, live, held, fits.stored)) (ground arith)
              (ground (arith, live, fits)) (λ q. absurd (ground (arith, q, held, fits.stored)))
              (rw same at saved)
      ]
