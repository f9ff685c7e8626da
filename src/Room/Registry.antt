-- ===== src/Room/Registry.antt =====
-- packages/fleet-worker/src/room-control.mjs: the Agents that are registered, and the checks of fields.
use fleet_for_agent.Base.{
  ℕ, ◌-◌, String, Bool, true, false, not, ◌&&◌, ◌||◌, Option, none, some, ok, err, ◌>>=◌, ◌>>◌,
  reject_if, ltb, leb, eqb, or_else, length, if◌then◌else◌,
}
use fleet_for_agent.Base.Eq.{◌==◌, string_eq}
use fleet_for_agent.Base.Assoc.{lookup}
use fleet_for_agent.Base.Text.{trim, is_empty, is_id, has_control, utf16_length}
use fleet_for_agent.Room.Types.{
  Kind, user, agent, Principal, Mode, mcp, runtime, Agent, AgentView, Code, Try, invalid_input,
  forbidden, agent_not_found, agent_conflict, agent_limit,
}
use fleet_for_agent.Room.Ledger.{Ledger, put_agent}

abbrev pub heartbeat_ttl : ℕ
heartbeat_ttl = 60_000

abbrev pub max_agents : ℕ
max_agents = 256

unfoldable pub id : String → Try String
id value = if is_id value then ok value else err invalid_input

unfoldable pub name : String → Try String
name value =
    if is_empty (trim value) || ltb 120 (utf16_length value) || has_control value
    then err invalid_input
    else ok (trim value)

unfoldable pub capacity : ℕ → Try ℕ
capacity value = if ltb value 1 || ltb 8 value then err invalid_input else ok value

unfoldable pub version : ℕ → Try ℕ
version value =
    if ltb value 1 || ltb 9_007_199_254_740_991 value then err invalid_input else ok value

abbrev pub is_user : Kind → Bool
is_user user = true
is_user agent = false

abbrev pub same_kind : Kind → Kind → Bool
same_kind user k = is_user k
same_kind agent k = not (is_user k)

abbrev pub is_runtime : Mode → Bool
is_runtime runtime = true
is_runtime mcp = false

abbrev pub same_mode : Mode → Mode → Bool
same_mode runtime m = is_runtime m
same_mode mcp m = not (is_runtime m)

unfoldable pub user_only : Principal → Try (Unit {0})
user_only principal = reject_if (not (is_user principal.kind)) forbidden

unfoldable pub found : {A : Type 0} → Code → Option A → Try A
found code none = err code
found code (some a) = ok a

unfoldable pub agent_record : Ledger → String → Try Agent
agent_record l agent_id = do key ← id agent_id; found agent_not_found (lookup key l.agents)

unfoldable pub is_online : Option ℕ → ℕ → Bool
is_online none now = false
is_online (some seen) now = leb seen now && ltb (now - seen) heartbeat_ttl

unfoldable pub agent_view : Agent → ℕ → AgentView
unfolding is_online
agent_view a now = record {
  agent = a;
  online = is_online a.last_seen now;
  callable = is_runtime a.mode && is_online a.last_seen now;
}

pub record RegisterInput : Type 0 where
  pub id : String
  pub name : Option String
  pub mode : Option Mode
  pub capacity : Option ℕ

pub record ConfigureInput : Type 0 where
  pub agent_id : String
  pub name : Option String
  pub mode : Option Mode
  pub capacity : Option ℕ
  pub can_create_rooms : Option Bool

-- `Object.hasOwn(input, key) && input[key] !== existing[key]`
abbrev pub changed {ℓ} : {A : Type ℓ} → (A → A → Bool) → Option A → A → Bool
changed same none old = false
changed same (some new) old = not (same new old)

abbrev pub conflicts : RegisterInput → Agent → Bool
conflicts input existing =
    changed ◌==◌ input.name existing.name
    || changed same_mode input.mode existing.mode
    || changed eqb input.capacity existing.capacity

abbrev pub new_agent : String → RegisterInput → ℕ → Agent
new_agent key input now = record {
  id = key;
  name = or_else input.name key;
  mode = or_else input.mode mcp;
  capacity = or_else input.capacity 2;
  can_create_rooms = false;
  created_at = now;
  updated_at = now;
  last_seen = none;
}

unfoldable pub register_found :
    Ledger → RegisterInput → String → ℕ → Option Agent → Try (AgentView × Ledger)
register_found l input key now (some existing) = do
  reject_if (conflicts input existing) agent_conflict
  ok (agent_view existing now, l)
register_found l input key now none = do
  reject_if (leb max_agents (length l.agents)) agent_limit
  ok (agent_view (new_agent key input now) now, put_agent (new_agent key input now) l)

unfoldable pub register : Ledger → Principal → RegisterInput → ℕ → Try (AgentView × Ledger)
unfolding user_only id register_found
register l principal input now = do
  user_only principal
  key ← id input.id
  register_found l input key now (lookup key l.agents)

abbrev pub configured : Agent → ConfigureInput → ℕ → Agent
configured a input now =
    let mode = or_else input.mode a.mode in
    record a {
      name = or_else input.name a.name;
      mode = mode;
      capacity = or_else input.capacity a.capacity;
      can_create_rooms = or_else input.can_create_rooms a.can_create_rooms;
      updated_at = now;
      last_seen = if same_mode mode a.mode then a.last_seen else none;
    }

unfoldable pub configure : Ledger → Principal → ConfigureInput → ℕ → Try (AgentView × Ledger)
unfolding user_only agent_record
configure l principal input now = do
  user_only principal
  a ← agent_record l input.agent_id
  ok (agent_view (configured a input now) now, put_agent (configured a input now) l)
