-- ===== src/Room/Messages.antt =====
-- packages/fleet-worker/src/room-tasks.mjs: messages of a discussion, and new tasks.
use fleet_for_agent.Base.{
  ℕ, ◌+◌, String, not, ◌&&◌, ◌||◌, Option, none, some, ok, ◌>>=◌, ◌>>◌, reject_if, ltb, leb, eqb,
  or_else, is_some, if◌then◌else◌,
}
use fleet_for_agent.Base.Eq.{◌==◌, string_eq, pair_eq}
use fleet_for_agent.Base.Assoc.{lookup}
use fleet_for_agent.Room.Types.{
  Principal, Room, Task, Message, Usage, SendInput, DelegateInput, EventType, queued, task_kind,
  message_kind, explicit, parent, room_default, Try, context_conflict, message_limit,
  discussion_limit, room_paused, forbidden, agent_not_callable, agent_offline, task_conflict,
  task_limit, task_state_conflict, depth_limit,
}
use fleet_for_agent.Room.Ledger.{Ledger, put_message, put_discussion}
use fleet_for_agent.Room.Registry.{agent_record, agent_view, is_user, is_runtime}
use fleet_for_agent.Room.Rooms.{includes}
use fleet_for_agent.Room.Tasks.{get_task, save_task, is_terminal, is_cancel_requested, is_unknown}

abbrev pub max_messages : ℕ
max_messages = 512

abbrev pub max_discussions : ℕ
max_discussions = 32

abbrev pub max_tasks : ℕ
max_tasks = 128

abbrev pub max_depth : ℕ
max_depth = 8

-- A message that was written, with the counters and the store after it.
pub record Sent : Type 0 where
  pub message : Message
  pub usage : Usage
  pub ledger : Ledger

abbrev pub new_message : Principal → String → String → SendInput → ℕ → ℕ → Message
new_message principal room_id request_id input seq now = record {
  id = request_id;
  room_id = room_id;
  discussion_id = input.discussion_id;
  author_id = principal.id;
  author_kind = principal.kind;
  to_agent_id = input.to_agent_id;
  seq = seq;
  text = input.text;
  created_at = now;
}

unfoldable pub send_message :
    Ledger → Principal → String → String → SendInput → ℕ → Usage → Try Sent
send_message l principal room_id request_id input now usage = do
  let existing = lookup (room_id, input.discussion_id) l.discussions
  let context_rev = or_else existing 0
  reject_if (not (eqb context_rev input.expected_context_rev)) context_conflict
  reject_if (leb max_messages usage.message_count) message_limit
  reject_if (not (is_some existing) && leb max_discussions usage.discussion_count) discussion_limit
  let message = new_message principal room_id request_id input (context_rev + 1) now
  ok (record {
    message = message;
    usage = record usage {
      message_count = usage.message_count + 1;
      discussion_count =
          if is_some existing then usage.discussion_count else usage.discussion_count + 1;
    };
    ledger =
        put_discussion (room_id, input.discussion_id) (context_rev + 1) (put_message message l);
  })

-- The parent that a request names.
unfoldable pub parent_task : Ledger → Principal → Room → Option String → ℕ → Try (Option Task)
unfolding get_task
parent_task l principal room none now = ok none
parent_task l principal room (some parent_id) now = do
  found ← get_task l room.id parent_id now
  reject_if (not (is_user principal.kind) && not (principal.id == found.assignee_id)) forbidden
  reject_if
      (is_terminal found.status || is_cancel_requested found.status || is_unknown found.status)
      task_state_conflict
  ok (some found)

abbrev pub depth_under : Option Task → ℕ
depth_under none = 0
depth_under (some p) = p.depth + 1

-- `input.deviceId ?? parent?.resolvedDeviceId ?? room.defaultDeviceId`, and where it comes from.
abbrev pub device_of : Option String → Option Task → Room → String
device_of (some d) p room = d
device_of none (some p) room = p.resolved_device_id
device_of none none room = room.default_device_id

abbrev pub new_task :
    Principal → Room → String → DelegateInput → ℕ → Option Message → Option Task → Task
new_task principal room request_id input now message above = record {
  id = request_id;
  room_id = room.id;
  requester_id = principal.id;
  requester_kind = principal.kind;
  kind = elim message [ none ↦ task_kind | some _ ↦ message_kind ];
  message_id = elim message [ none ↦ none | some m ↦ some m.id ];
  discussion_id = elim message [ none ↦ none | some m ↦ some m.discussion_id ];
  assignee_id = input.assignee_id;
  session_id = input.session_id;
  description = input.description;
  completion_criteria = input.completion_criteria;
  parent_task_id = elim above [ none ↦ none | some p ↦ some p.id ];
  depth = depth_under above;
  resolved_device_id = device_of input.device_id above room;
  device_source = elim input.device_id [
    | some _ ↦ explicit
    | none ↦ elim above [ none ↦ room_default | some _ ↦ parent ]
  ];
  config_version = elim input.device_id [
    | some _ ↦ room.config_version
    | none ↦ elim above [ none ↦ room.config_version | some p ↦ p.config_version ]
  ];
  status = queued;
  execution_epoch = 0;
  renewal_seq = 0;
  lease_expires_at = none;
  control_epoch = room.control_epoch;
  event_count = 0;
  created_at = now;
  updated_at = now;
  resume = none;
  checkpoint = none;
  result = none;
  error = none;
}

unfoldable pub delegate_task :
    Ledger
    → Principal
    → Room
    → String
    → DelegateInput
    → ℕ
    → Usage
    → Option Message
    → Try (Task × Usage × Ledger)
unfolding agent_record parent_task
delegate_task l principal room request_id input now usage message = do
  reject_if room.paused room_paused
  reject_if (not (includes room.member_ids input.assignee_id)) forbidden
  assignee ← agent_record l input.assignee_id
  reject_if (not (is_runtime assignee.mode)) agent_not_callable
  reject_if (not (agent_view assignee now).callable) agent_offline
  reject_if (is_some (lookup (room.id, request_id) l.tasks)) task_conflict
  reject_if (leb max_tasks usage.task_count) task_limit
  above ← parent_task l principal room input.parent_task_id now
  reject_if (ltb max_depth (depth_under above)) depth_limit
  saved ←
      save_task l (new_task principal room request_id input now message above) EventType.delegated
        principal now
  ok (saved.0, record usage { task_count = usage.task_count + 1 }, saved.1)
