-- ===== src/Room/Execution.antt =====
-- packages/fleet-worker/src/room-tasks.mjs: the life of a task after it is delegated.
use fleet_for_agent.Base.{
  ℕ, zero, suc, ◌+◌, ◌-◌, String, Bool, true, false, not, ◌&&◌, ◌||◌, Option, none, some, List, [],
  ◌∷◌, ok, err, ◌>>=◌, ◌>>◌, reject_if, leb, eqb, or_else, is_some, any, filter, length,
  if◌then◌else◌,
}
use fleet_for_agent.Base.Eq.{◌==◌, string_eq, pair_eq}
use fleet_for_agent.Base.Assoc.{lookup}
use fleet_for_agent.Room.Types.{
  Principal, Room, Task, Usage, SendInput, EventType, Status, queued, running, waiting, cancelled,
  cancel_requested, completed, failed, Outcome, RenewInput, Renewal, Reply, TaskKind, task_kind,
  message_kind, Try, forbidden, invalid_input, room_paused, task_state_conflict, agent_not_callable,
  session_busy, capacity_exceeded, idempotency_conflict, renewal_conflict, event_limit,
}
use fleet_for_agent.Room.Ledger.{Ledger, put_task, put_renewal, room_tasks, all_tasks}
use fleet_for_agent.Room.Registry.{agent_record, agent_view, is_user, same_kind}
use fleet_for_agent.Room.Tasks.{
  is_active, is_terminal, is_queued, is_running, is_unknown, is_cancel_requested, task_view,
  get_task, executor_only, epoch_matches, child_tasks, all_terminal, save_task, max_events,
}
use fleet_for_agent.Room.Messages.{Sent, send_message}

abbrev pub default_lease : ℕ
default_lease = 30_000

abbrev pub task_reply : Task → Reply
task_reply t = record { task = some t; message = none; context_rev = none }

-- The executions of an Agent that have not ended, in all Rooms.
unfoldable pub active_tasks : Ledger → String → List Task
active_tasks l agent_id =
    filter (λ t. t.assignee_id == agent_id && is_active t.status) (all_tasks l.tasks)

unfoldable pub claimed_task : Room → Task → Option ℕ → ℕ → Task
claimed_task room task lease now = record task {
  status = running;
  execution_epoch = task.execution_epoch + 1;
  renewal_seq = 0;
  lease_expires_at = some (now + or_else lease default_lease);
  control_epoch = room.control_epoch;
}

unfoldable pub claim_task : Ledger → Principal → Room → Task → Option ℕ → ℕ → Try (Task × Ledger)
unfolding executor_only agent_record active_tasks claimed_task
claim_task l principal room task lease now = do
  executor_only principal task
  reject_if room.paused room_paused
  reject_if (not (is_queued task.status)) task_state_conflict
  agent ← agent_record l principal.id
  reject_if (not (agent_view agent now).callable) agent_not_callable
  reject_if (any (λ t. t.session_id == task.session_id) (active_tasks l principal.id)) session_busy
  reject_if (leb agent.capacity (length (active_tasks l principal.id))) capacity_exceeded
  save_task l (claimed_task room task lease now) EventType.claimed principal now

abbrev pub renewed_task : Room → Task → RenewInput → ℕ → Task
renewed_task room task input now = record task {
  renewal_seq = input.renewal_seq;
  lease_expires_at = some (now + or_else input.lease_ms default_lease);
  control_epoch = room.control_epoch;
  updated_at = now;
}

unfoldable pub same_lease : Option ℕ → Option ℕ → Bool
same_lease none none = true
same_lease (some a) (some b) = eqb a b
same_lease _ _ = false

-- `JSON.stringify([principal.id, input])` compared.
unfoldable pub same_renewal : Renewal → String → RenewInput → Bool
unfolding same_lease
same_renewal r caller input =
    r.caller == caller
    && r.input.room_id == input.room_id
    && r.input.task_id == input.task_id
    && r.input.request_id == input.request_id
    && eqb r.input.execution_epoch input.execution_epoch
    && eqb r.input.renewal_seq input.renewal_seq
    && same_lease r.input.lease_ms input.lease_ms

unfoldable pub extend_lease :
    Ledger → Principal → Room → Task → RenewInput → ℕ → Try (Task × Ledger)
extend_lease l principal room task input now = do
  reject_if (not (eqb input.renewal_seq (task.renewal_seq + 1))) renewal_conflict
  reject_if (is_some (lookup (room.id, input.request_id) l.requests)) idempotency_conflict
  let next = renewed_task room task input now
  let renewal : Renewal = record {
    request_id = input.request_id;
    caller = principal.id;
    input = input;
    result = next;
  }
  ok (next, put_renewal (room.id, task.id) renewal (put_task next l))

unfoldable pub renew_after :
    Ledger → Principal → Room → Task → RenewInput → ℕ → Option Renewal → Try (Task × Ledger)
unfolding extend_lease same_renewal
renew_after l principal room task input now none = extend_lease l principal room task input now
renew_after l principal room task input now (some previous) =
    if previous.request_id == input.request_id
    then (if same_renewal previous principal.id input
        then ok (previous.result, l)
        else err idempotency_conflict)
    else extend_lease l principal room task input now

unfoldable pub renew_task : Ledger → Principal → Room → RenewInput → ℕ → Try (Task × Ledger)
unfolding get_task executor_only epoch_matches renew_after
renew_task l principal room input now = do
  task ← get_task l room.id input.task_id now
  executor_only principal task
  epoch_matches task input.execution_epoch
  reject_if room.paused room_paused
  reject_if (not (is_running task.status)) task_state_conflict
  renew_after l principal room task input now (lookup (room.id, task.id) l.renewals)

-- One pass of `cancel` over the tasks: a child of a selected task is selected.
unfoldable pub select_children : List Task → List String → List String
select_children [] ids = ids
select_children (t ∷ ts) ids = select_children ts (elim t.parent_task_id [
  | none ↦ ids
  | some p ↦ if any (λ i. i == p) ids then t.id ∷ ids else ids
])

unfoldable pub select_passes : ℕ → List Task → List String → List String
unfolding select_children
select_passes zero ts ids = ids
select_passes (suc n) ts ids = select_passes n ts (select_children ts ids)

abbrev pub cancelled_status : Status → Status
cancelled_status queued = cancelled
cancelled_status waiting = cancelled
cancelled_status _ = cancel_requested

abbrev pub cancelled_task : Task → ℕ → Task
cancelled_task t now =
    let current = task_view t now in record current { status = cancelled_status current.status }

abbrev pub is_settled : Status → Bool
is_settled s = is_terminal s || is_cancel_requested s

-- One entry of the loop of `cancel`: what it saved, if anything.
unfoldable pub cancel_one : Ledger → Principal → ℕ → Task → Try (Option Task × Ledger)
cancel_one l principal now t = if is_settled (task_view t now).status then ok (none, l) else do
  saved ← save_task l (cancelled_task t now) EventType.cancel_requested principal now
  ok (some saved.0, saved.1)

-- `if (entry.id === task.id) result = saved`
abbrev pub picked : String → Task → Option Task → Option Task → Option Task
picked id t none result = result
picked id t (some saved) result = if t.id == id then some saved else result

-- The loop of `cancel`, over the entries read before its first write.
unfoldable pub cancel_each :
    Ledger → Principal → ℕ → String → Option Task → List Task → Try (Option Task × Ledger)
cancel_each l principal now id result [] = ok (result, l)
cancel_each l principal now id result (t ∷ ts) = do
  step ← cancel_one l principal now t
  cancel_each step.1 principal now id (picked id t step.0 result) ts

unfoldable pub may_cancel : Principal → Room → Task → Bool
may_cancel principal room task =
    is_user principal.kind
    || principal.id == room.leader_id
    || (same_kind principal.kind task.requester_kind && principal.id == task.requester_id)

abbrev pub subtree : Ledger → Room → Task → List Task
subtree l room task =
    let all = room_tasks room.id l.tasks in
    let ids = select_passes 9 all (task.id ∷ []) in filter (λ t. any (λ i. i == t.id) ids) all

unfoldable pub cancel_task : Ledger → Principal → Room → Task → ℕ → Try (Task × Ledger)
unfolding may_cancel
cancel_task l principal room task now = do
  reject_if (not (may_cancel principal room task)) forbidden
  if is_settled task.status then ok (task, l) else do
    done ← cancel_each l principal now task.id none (subtree l room task)
    ok (or_else done.0 task, done.1)

-- `tasks.stopped`: the holder confirms that its execution has stopped.
abbrev pub is_requeue : Outcome → Bool
is_requeue Outcome.requeue = true
is_requeue Outcome.cancelled = false

unfoldable pub stop_task : Ledger → Principal → Task → Outcome → ℕ → Try (Task × Ledger)
stop_task l principal task outcome now = do
  reject_if (not (is_active task.status)) task_state_conflict
  reject_if (is_requeue outcome && not (is_unknown task.status)) task_state_conflict
  let status = if is_requeue outcome then queued else cancelled
  save_task l (record task { status = status; lease_expires_at = none }) EventType.stopped principal
      now

unfoldable pub fail_task : Ledger → Principal → Task → String → ℕ → Try (Task × Ledger)
fail_task l principal task error now = do
  reject_if (not (is_running task.status)) task_state_conflict
  save_task l (record task { status = failed; lease_expires_at = none; error = some error })
      EventType.failed principal now

unfoldable pub wait_task : Ledger → Principal → Task → String → ℕ → Try (Task × Ledger)
wait_task l principal task checkpoint now = do
  reject_if (not (is_running task.status)) task_state_conflict
  reject_if (leb (max_events - 5) task.event_count) event_limit
  let children = child_tasks l task
  reject_if (eqb (length children) 0) task_state_conflict
  let ready = all_terminal children
  save_task l
      (record task {
        status = if ready then queued else waiting;
        lease_expires_at = none;
        resume = some ready;
        checkpoint = some checkpoint;
      })
      EventType.waiting principal now

-- The answer to a message goes into its discussion.
unfoldable pub answer :
    Ledger
    → Principal
    → Room
    → String
    → Task
    → String
    → Option ℕ
    → ℕ
    → Usage
    → TaskKind
    → Try (Option Sent)
answer l principal room request_id task text rev now usage task_kind = ok none
answer l principal room request_id task text none now usage message_kind = err invalid_input
answer l principal room request_id task text (some rev) now usage message_kind = do
  let input : SendInput = record {
    discussion_id = or_else task.discussion_id "";
    expected_context_rev = rev;
    text = text;
    to_agent_id = none;
  }
  sent ← send_message l principal room.id request_id input now usage
  ok (some sent)

unfoldable pub complete_task :
    Ledger
    → Principal
    → Room
    → String
    → Task
    → String
    → Option ℕ
    → ℕ
    → Usage
    → Try (Reply × Usage × Ledger)
unfolding answer
complete_task l principal room request_id task text rev now usage = do
  reject_if (not (is_running task.status)) task_state_conflict
  sent ← answer l principal room request_id task text rev now usage task.kind
  let before : Ledger = elim sent [ none ↦ l | some s ↦ s.ledger ]
  let counted : Usage = elim sent [ none ↦ usage | some s ↦ s.usage ]
  saved ←
      save_task before
        (record task { status = completed; lease_expires_at = none; result = some text })
        EventType.completed principal now
  let reply : Reply = record {
    task = some saved.0;
    message = elim sent [ none ↦ none | some s ↦ some s.message ];
    context_rev = elim sent [ none ↦ none | some s ↦ some s.message.seq ];
  }
  ok (reply, counted, saved.1)
