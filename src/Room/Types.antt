-- ===== src/Room/Types.antt =====
-- The records that the Room authority stores and the requests that it serves.
use fleet_for_agent.Base.{ℕ, String, Bool, Option, List, Result}

pub data Kind : Type 0 where
  user agent : Kind

-- The authenticated caller; an Agent may be confined to one Room.
pub record Principal : Type 0 where
  pub kind : Kind
  pub id : String
  pub room_id : Option String

pub data Mode : Type 0 where
  mcp runtime : Mode

pub record Agent : Type 0 where
  pub id : String
  pub name : String
  pub mode : Mode
  pub capacity : ℕ
  pub can_create_rooms : Bool
  pub created_at : ℕ
  pub updated_at : ℕ
  pub last_seen : Option ℕ

pub record AgentView : Type 0 where
  pub agent : Agent
  pub online : Bool
  pub callable : Bool

pub record Room : Type 0 where
  pub id : String
  pub name : String
  pub leader_id : String
  pub member_ids : List String
  pub default_device_id : String
  pub membership_version : ℕ
  pub config_version : ℕ
  pub control_epoch : ℕ
  pub paused : Bool
  pub created_at : ℕ
  pub updated_at : ℕ

pub data Status : Type 0 where
  queued running waiting unknown cancel_requested completed cancelled failed : Status

pub data TaskKind : Type 0 where
  task_kind message_kind : TaskKind

pub data DeviceSource : Type 0 where
  explicit parent room_default : DeviceSource

-- `lease_expires_at`, `message_id`, `discussion_id` and `parent_task_id` may be null; `resume`,
-- `checkpoint`, `result` and `error` may be undefined.
pub record Task : Type 0 where
  pub id : String
  pub room_id : String
  pub requester_id : String
  pub requester_kind : Kind
  pub kind : TaskKind
  pub message_id : Option String
  pub discussion_id : Option String
  pub assignee_id : String
  pub session_id : String
  pub description : String
  pub completion_criteria : String
  pub parent_task_id : Option String
  pub depth : ℕ
  pub resolved_device_id : String
  pub device_source : DeviceSource
  pub config_version : ℕ
  pub status : Status
  pub execution_epoch : ℕ
  pub renewal_seq : ℕ
  pub lease_expires_at : Option ℕ
  pub control_epoch : ℕ
  pub event_count : ℕ
  pub created_at : ℕ
  pub updated_at : ℕ
  pub resume : Option Bool
  pub checkpoint : Option String
  pub result : Option String
  pub error : Option String

pub data EventType : Type 0 where
  delegated claimed stopped failed waiting completed cancel_requested resumed : EventType

pub record Event : Type 0 where
  pub task_id : String
  pub room_id : String
  pub seq : ℕ
  pub type : EventType
  pub actor_id : String
  pub actor_kind : Kind
  pub execution_epoch : ℕ
  pub status : Status
  pub created_at : ℕ

pub record Message : Type 0 where
  pub id : String
  pub room_id : String
  pub discussion_id : String
  pub author_id : String
  pub author_kind : Kind
  pub to_agent_id : Option String
  pub seq : ℕ
  pub text : String
  pub created_at : ℕ

pub record Usage : Type 0 where
  pub message_count : ℕ
  pub discussion_count : ℕ
  pub task_count : ℕ
  pub request_count : ℕ

pub data Outcome : Type 0 where
  cancelled requeue : Outcome

pub record SendInput : Type 0 where
  pub discussion_id : String
  pub expected_context_rev : ℕ
  pub text : String
  pub to_agent_id : Option String

pub record DelegateInput : Type 0 where
  pub assignee_id : String
  pub session_id : String
  pub description : String
  pub completion_criteria : String
  pub device_id : Option String
  pub parent_task_id : Option String

-- What a request asks to change, in the words of `SCHEMAS`, without the two ids that all have.
-- The first argument of a change to a task is its id, and a further number its execution epoch.
pub data Change : Type 0 where
  send : SendInput → Change
  delegate : DelegateInput → Change
  claim : String → Option ℕ → Change
  complete : String → ℕ → String → Option ℕ → Change
  wait : String → ℕ → String → Change
  fail : String → ℕ → String → Change
  cancel : String → Change
  stopped : String → ℕ → Outcome → Change

pub record Request : Type 0 where
  pub room_id : String
  pub request_id : String
  pub change : Change

pub record RenewInput : Type 0 where
  pub room_id : String
  pub task_id : String
  pub request_id : String
  pub execution_epoch : ℕ
  pub renewal_seq : ℕ
  pub lease_ms : Option ℕ

pub record Reply : Type 0 where
  pub task : Option Task
  pub message : Option Message
  pub context_rev : Option ℕ

-- What the code writes as the JSON text of the action, the caller and the input.
pub record Fingerprint : Type 0 where
  pub kind : Kind
  pub id : String
  pub request : Request

pub record Receipt : Type 0 where
  pub fingerprint : Fingerprint
  pub result : Reply

pub record Renewal : Type 0 where
  pub request_id : String
  pub caller : String
  pub input : RenewInput
  pub result : Task

-- The codes of RoomControlError.
pub data Code : Type 0 where
  unauthorized invalid_input unknown_action forbidden : Code
  agent_not_found agent_conflict agent_limit : Code
  room_not_found room_conflict room_limit room_paused : Code
  member_limit leader_required config_conflict : Code
  task_not_found task_conflict task_limit task_state_conflict depth_limit : Code
  execution_conflict renewal_conflict event_limit : Code
  context_conflict message_limit discussion_limit : Code
  agent_not_callable agent_offline session_busy capacity_exceeded : Code
  idempotency_conflict request_limit : Code

abbrev pub Try : Type 0 → Type 0
Try A = Result Code A
