-- ===== src/Room/Control.antt =====
-- room-tasks.mjs, localRoomControl, and room-control.mjs, roomControl: how a request is served.
use Prim.Native.String.{◌++◌ as append}
use native.Mathlib.Decide.{ℕ_discrete}
use fleet_for_agent.Base.{
  ℕ, ◌+◌, ◌*◌, String, Bool, true, false, not, ◌&&◌, ◌||◌, Option, none, some, ok, err, ◌>>=◌, ◌>>◌,
  ◌≡◌, refl, reject_if, leb, or_else, if◌then◌else◌,
}
use fleet_for_agent.Base.Eq.{string_discrete, string_eq, pair_eq}
use fleet_for_agent.Base.Assoc.{lookup}
use fleet_for_agent.Room.Types.{
  Principal, Room, Task, Message, Usage, Change, send, delegate, claim, complete, wait, fail,
  cancel, stopped, Request, RenewInput, Reply, Fingerprint, Receipt, SendInput, DelegateInput, Try,
  room_not_found, idempotency_conflict, request_limit,
}
use fleet_for_agent.Room.Ledger.{Ledger, put_usage, put_request}
use fleet_for_agent.Room.Registry.{found, id, is_user}
use fleet_for_agent.Room.Rooms.{readable_room, in_scope}
use fleet_for_agent.Room.Tasks.{
  get_task, executor_only, epoch_matches, is_terminal, is_cancel_requested,
}
use fleet_for_agent.Room.Messages.{send_message, delegate_task, max_tasks}
use fleet_for_agent.Room.Execution.{
  task_reply, claim_task, renew_task, cancel_task, stop_task, fail_task, wait_task, complete_task,
}

abbrev pub max_requests : ℕ
max_requests = 2048

abbrev pub no_usage : Usage
no_usage = record { message_count = 0; discussion_count = 0; task_count = 0; request_count = 0 }

pub record Served : Type 0 where
  pub reply : Reply
  pub usage : Usage
  pub ledger : Ledger

-- The reply and the store of a change that touches no counter but the number of requests.
abbrev pub served : Usage → Task × Ledger → Served
served usage (t, l) = record { reply = task_reply t; usage = usage; ledger = l }

-- The two tests of every change by the holder of an execution.
unfoldable pub held_task : Ledger → Principal → Room → String → ℕ → ℕ → Try Task
unfolding get_task executor_only epoch_matches
held_task l principal room task_id epoch now = do
  task ← get_task l room.id task_id now
  executor_only principal task
  epoch_matches task epoch
  ok task

abbrev pub mention : Room → SendInput → String → DelegateInput
mention room input assignee = record {
  assignee_id = assignee;
  session_id = room.id;
  description = input.text;
  completion_criteria = "回复此消息";
  device_id = none;
  parent_task_id = none;
}

-- A message that names an Agent also gives it a task.
unfoldable pub send_to :
    Ledger
    → Principal
    → Room
    → String
    → SendInput
    → ℕ
    → Usage
    → Message
    → Option String
    → Try Served
send_to l principal room request_id input now usage message none = ok (record {
  reply = record { task = none; message = some message; context_rev = some message.seq };
  usage = usage;
  ledger = l;
})
send_to l principal room request_id input now usage message (some assignee) = do
  task_id ← id (append "msg_" request_id)
  made ←
      delegate_task l principal room task_id (mention room input assignee) now usage (some message)
  ok (record {
    reply = record { task = some made.0; message = some message; context_rev = some message.seq };
    usage = made.1;
    ledger = made.2;
  })

unfoldable pub serve_change : Ledger → Principal → Room → String → ℕ → Usage → Change → Try Served
unfolding send_message send_to delegate_task held_task complete_task
serve_change l principal room request_id now usage (send input) = do
  sent ← send_message l principal room.id request_id input now usage
  send_to sent.ledger principal room request_id input now sent.usage sent.message input.to_agent_id
serve_change l principal room request_id now usage (delegate input) = do
  made ← delegate_task l principal room request_id input now usage none
  ok (served made.1 (made.0, made.2))
serve_change l principal room request_id now usage (claim task_id lease) = do
  task ← get_task l room.id task_id now
  done ← claim_task l principal room task lease now
  ok (served usage done)
serve_change l principal room request_id now usage (cancel task_id) = do
  task ← get_task l room.id task_id now
  done ← cancel_task l principal room task now
  ok (served usage done)
serve_change l principal room request_id now usage (stopped task_id epoch outcome) = do
  task ← held_task l principal room task_id epoch now
  done ← stop_task l principal task outcome now
  ok (served usage done)
serve_change l principal room request_id now usage (fail task_id epoch error) = do
  task ← held_task l principal room task_id epoch now
  done ← fail_task l principal task error now
  ok (served usage done)
serve_change l principal room request_id now usage (wait task_id epoch checkpoint) = do
  task ← held_task l principal room task_id epoch now
  done ← wait_task l principal task checkpoint now
  ok (served usage done)
serve_change l principal room request_id now usage (complete task_id epoch text rev) = do
  task ← held_task l principal room task_id epoch now
  done ← complete_task l principal room request_id task text rev now usage
  ok (record { reply = done.0; usage = done.1; ledger = done.2 })

-- The ledger is read and written for the request that changes something.
unfoldable pub critical : Ledger → Room → Change → ℕ → Try (Option Task)
unfolding get_task
critical l room (cancel task_id) now = do task ← get_task l room.id task_id now; ok (some task)
critical l room (stopped task_id epoch outcome) now = do
  task ← get_task l room.id task_id now
  ok (some task)
critical l room (complete task_id epoch text rev) now = do
  task ← get_task l room.id task_id now
  ok (some task)
critical l room (fail task_id epoch error) now = do
  task ← get_task l room.id task_id now
  ok (some task)
critical l room _ now = ok none

abbrev pub is_cancel : Change → Bool
is_cancel (cancel task_id) = true
is_cancel _ = false

unfoldable pub changes_state : Change → Option Task → Bool
changes_state change none = false
changes_state change (some task) =
    not (is_terminal task.status) && not (is_cancel change && is_cancel_requested task.status)

-- The room for one more receipt: some is kept for ending what runs.
unfoldable pub admit : Ledger → Room → Change → ℕ → Usage → Try (Unit {0})
unfolding critical changes_state
admit l room change now usage = if not (leb max_requests usage.request_count) then ok tt else do
  task ← critical l room change now
  reject_if
      (not (changes_state change task) || leb (max_requests + max_tasks * 2) usage.request_count)
      request_limit

unfoldable pub serve_fresh : Ledger → Principal → Room → Request → ℕ → Try (Reply × Ledger)
unfolding admit serve_change
serve_fresh l principal room request now = do
  let usage = or_else (lookup room.id l.usages) no_usage
  admit l room request.change now usage
  done ← serve_change l principal room request.request_id now usage request.change
  let counted : Usage = record done.usage { request_count = done.usage.request_count + 1 }
  let receipt : Receipt = record {
    fingerprint = record { kind = principal.kind; id = principal.id; request = request };
    result = done.reply;
  }
  ok (
    done.reply,
    put_request (room.id, request.request_id) receipt (put_usage room.id counted done.ledger),
  )

pub Fingerprint-discrete : Discrete Fingerprint
Fingerprint-discrete = hlevel (ℕ_discrete, string_discrete)

unfoldable pub same_fingerprint : Fingerprint → Fingerprint → Bool
same_fingerprint f g = elim (Fingerprint-discrete f g) [ yes _ ↦ true | no _ ↦ false ]

pub same_fingerprint_refl : (f : Fingerprint) → same_fingerprint f f ≡ true
unfolding same_fingerprint
same_fingerprint_refl f =
    elim (Fingerprint-discrete f f) as (λ d. elim d [ yes _ ↦ true | no _ ↦ false ] ≡ true) [
      | yes _ ↦ refl
      | no differ ↦ absurd (differ refl)
    ]

abbrev pub fingerprint_of : Principal → Request → Fingerprint
fingerprint_of principal request = record {
  kind = principal.kind;
  id = principal.id;
  request = request;
}

-- A request id that was served answers again, and only to the same request of the same caller.
unfoldable pub serve_after :
    Ledger → Principal → Room → Request → ℕ → Option Receipt → Try (Reply × Ledger)
unfolding serve_fresh same_fingerprint
serve_after l principal room request now none = serve_fresh l principal room request now
serve_after l principal room request now (some existing) =
    if same_fingerprint existing.fingerprint (fingerprint_of principal request)
    then ok (existing.result, l)
    else err idempotency_conflict

unfoldable pub is_stop : Change → Bool
is_stop (stopped task_id epoch outcome) = true
is_stop _ = false

-- The confirmation of a stop is taken from a member who was removed, too.
unfoldable pub room_for : Ledger → Principal → String → Bool → Try Room
unfolding readable_room found
room_for l principal room_id stop_receipt = do
  room ←
      (if stop_receipt
        then found room_not_found (lookup room_id l.rooms)
        else readable_room l principal room_id)
  reject_if (not (in_scope principal.room_id room.id)) room_not_found
  ok room

unfoldable pub local_control : Ledger → Principal → Request → ℕ → Try (Reply × Ledger)
unfolding room_for is_stop serve_after
local_control l principal request now = do
  room ←
      room_for l principal request.room_id (is_stop request.change && not (is_user principal.kind))
  serve_after l principal room request now (lookup (room.id, request.request_id) l.requests)

unfoldable pub local_renew : Ledger → Principal → RenewInput → ℕ → Try (Task × Ledger)
unfolding room_for renew_task
local_renew l principal input now = do
  room ← room_for l principal input.room_id false
  renew_task l principal room input now
