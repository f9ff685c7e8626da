-- ===== src/Room/Authority.antt =====
-- room-control.mjs, roomControl: one call of the Room authority, in a transaction of the store.
use fleet_for_agent.Base.{
  ℕ, String, Bool, true, false, Option, none, some, List, ok, err, ◌>>=◌, ◌>>◌, reject_if, ltb,
  if◌then◌else◌, filter, map,
}
use fleet_for_agent.Base.Eq.{string_eq}
use fleet_for_agent.Room.Types.{
  Kind, user, agent, Principal, Agent, AgentView, Room, Task, Request, RenewInput, Reply, Try, Code,
  unauthorized, invalid_input, forbidden,
}
use fleet_for_agent.Room.Types
use fleet_for_agent.Room.Ledger.{Ledger, put_agent}
use fleet_for_agent.Room.Registry.{
  id, is_user, agent_record, agent_view, register, configure, RegisterInput, ConfigureInput,
}
use fleet_for_agent.Room.Rooms.{
  readable_room, can_read_room, includes, create_room, update_room, CreateInput, RoomChange,
}
use fleet_for_agent.Room.Control.{local_control, local_renew}

pub data Action : Type 0 where
  agents_register : RegisterInput → Action
  agents_configure : ConfigureInput → Action
  agents_heartbeat agents_list rooms_list : Action
  rooms_create : CreateInput → Action
  rooms_update : String → RoomChange → Action
  change : Request → Action
  renew : RenewInput → Action

pub data Answer : Type 0 where
  agent_answer : AgentView → Answer
  agents_answer : List AgentView → Answer
  room_answer : Room → Answer
  rooms_answer : List Room → Answer
  change_answer : Reply → Answer
  renew_answer : Task → Answer

abbrev pub max_safe_integer : ℕ
max_safe_integer = 9_007_199_254_740_991

unfoldable pub check_scope : Principal → Option String → Try (Unit {0})
unfolding id
check_scope principal none = ok tt
check_scope principal (some scope) = do id scope; reject_if (is_user principal.kind) unauthorized

unfoldable pub check_caller : Principal → ℕ → Try (Unit {0})
unfolding id check_scope
check_caller principal now = do
  id principal.id
  check_scope principal principal.room_id
  reject_if (ltb max_safe_integer now) invalid_input

unfoldable pub caller_of : Ledger → Principal → Kind → Try (Option Agent)
unfolding agent_record
caller_of l principal user = ok none
caller_of l principal agent = do a ← agent_record l principal.id; ok (some a)

abbrev pub is_stop_action : Action → Bool
is_stop_action (change r) = elim r.change [
  | Types.Change.stopped task_id epoch outcome ↦ true
  | _ ↦ false
]
is_stop_action _ = false

unfoldable pub enter_scope : Ledger → Principal → Option String → Action → Try (Unit {0})
unfolding readable_room
enter_scope l principal none action = ok tt
enter_scope l principal (some scope) action =
    if is_stop_action action then ok tt else do readable_room l principal scope; ok tt

unfoldable pub heartbeat : Ledger → Option Agent → ℕ → Try (AgentView × Ledger)
heartbeat l none now = err forbidden
heartbeat l (some caller) now =
    let seen : Agent = record caller { last_seen = some now; updated_at = now } in
    ok (agent_view seen now, put_agent seen l)

-- The Agents that a caller sees: all, or the members of the Room it is confined to.
unfoldable pub list_agents : Ledger → Principal → Option String → ℕ → Try (List AgentView)
unfolding readable_room
list_agents l principal none now = ok (map (λ e. agent_view e.1 now) l.agents)
list_agents l principal (some scope) now = do
  room ← readable_room l principal scope
  ok (
      map (λ a. agent_view a now)
        (filter (λ a. includes room.member_ids a.id) (map (λ e. e.1) l.agents)))

unfoldable pub dispatch : Ledger → Principal → Option Agent → Action → ℕ → Try (Answer × Ledger)
unfolding register configure heartbeat list_agents create_room update_room local_control local_renew
dispatch l principal caller (agents_register input) now = do
  done ← register l principal input now
  ok (agent_answer done.0, done.1)
dispatch l principal caller (agents_configure input) now = do
  done ← configure l principal input now
  ok (agent_answer done.0, done.1)
dispatch l principal caller agents_heartbeat now = do
  done ← heartbeat l caller now
  ok (agent_answer done.0, done.1)
dispatch l principal caller agents_list now = do
  seen ← list_agents l principal principal.room_id now
  ok (agents_answer seen, l)
dispatch l principal caller rooms_list now =
    ok (rooms_answer (filter (can_read_room principal) (map (λ e. e.1) l.rooms)), l)
dispatch l principal caller (rooms_create input) now = do
  done ← create_room l principal caller input now
  ok (room_answer done.0, done.1)
dispatch l principal caller (rooms_update room_id c) now = do
  done ← update_room l principal room_id c now
  ok (room_answer done.0, done.1)
dispatch l principal caller (change request) now = do
  done ← local_control l principal request now
  ok (change_answer done.0, done.1)
dispatch l principal caller (renew input) now = do
  done ← local_renew l principal input now
  ok (renew_answer done.0, done.1)

unfoldable pub perform : Ledger → Principal → Action → ℕ → Try (Answer × Ledger)
unfolding check_caller caller_of enter_scope dispatch
perform l principal action now = do
  check_caller principal now
  caller ← caller_of l principal principal.kind
  enter_scope l principal principal.room_id action
  dispatch l principal caller action now

-- The store after a transaction. An error carries no store: that ROLLBACK undoes what was written
-- before it is SQLite's part, and is assumed here as it is documented.
unfoldable pub commit : {A : Type 0} → Ledger → Try (A × Ledger) → Try A × Ledger
commit l (ok (a, after)) = (ok a, after)
commit l (err code) = (err code, l)

unfoldable pub room_control : Ledger → Principal → Action → ℕ → Try Answer × Ledger
unfolding perform commit
room_control l principal action now = commit l (perform l principal action now)
