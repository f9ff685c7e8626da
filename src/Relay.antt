-- ===== src/Relay.antt =====
-- packages/fleet-room/relay.mjs: the live routing of Room commands to the leader's connection.
-- A connection is named by a number that no other has, as an object is by its identity. Each
-- stretch of code between two awaits is one function. A loop over the connections reads the clock
-- for each of them: a `Clock` says what it reads for the connection of a number.
pub mod Frames
pub mod Steps
pub mod Soundness
pub mod Joining
pub mod Runs
pub mod Kept
pub mod Answers
use fleet_for_agent.Base.{
  ℕ, ◌+◌, ◌≤◌, String, Bool, true, false, not, ◌&&◌, ◌||◌, Option, none, some, List, [], ◌∷◌, ◌++◌,
  map, any, filter, length, ltb, leb, eqb, is_some, or_else, if◌then◌else◌, Result, ok, err, ◌>>=◌,
  ◌>>◌, reject_if,
}
use fleet_for_agent.Base.Eq.{◌==◌, nat_eq, string_eq}
use fleet_for_agent.Base.Assoc.{Assoc, lookup, remove, set}
use fleet_for_agent.Base.Text.{is_id, utf16_length, is_empty}

-- `send_failed` stands for what the socket throws.
pub data RelayCode : Type 0 where
  invalid_registration capacity already_connected leader_offline frame_too_large invalid_frame :
      RelayCode
  invalid_scope invalid_request leader_timeout leader_error send_failed : RelayCode

abbrev pub frame_limit : ℕ
frame_limit = 131072

abbrev pub max_connections : ℕ
max_connections = 128

abbrev pub max_pending : ℕ
max_pending = 128

abbrev pub heartbeat_ms : ℕ
heartbeat_ms = 45_000

pub record Meta : Type 0 where
  pub id : String
  pub name : String
  pub runtime : Bool
  pub capacity : ℕ
  pub scope_room_id : Option String
  pub leader : Bool

-- `live` is `ws.readyState === 1`.
pub record Connection : Type 0 where
  pub info : Meta
  pub live : Bool
  pub seen : ℕ
  pub running : ℕ

-- `next` names the next connection; a pending request is kept with the connection it went to.
pub record Relay : Type 0 where
  pub next : ℕ
  pub connections : Assoc ℕ Connection
  pub pending : Assoc String ℕ

pub data Effect : Type 0 where
  rejected : String → RelayCode → Effect
  resolved : String → Effect
  closed ready pong : ℕ → Effect
  requested : ℕ → String → Effect

abbrev pub Done : Type 0
Done = Relay × List Effect

abbrev pub Clock : Type 0
Clock = ℕ → ℕ

-- What went before, and what this adds.
abbrev pub also : List Effect → Done → Done
also effects (r, more) = (r, effects ++ more)

-- The headers of a registration. `capacity` is the number that its header stands for: 2 where it
-- is missing or empty, and 0 where it is no natural number.
pub record Registration : Type 0 where
  pub id : Option String
  pub name : Option String
  pub mode : Option String
  pub scope : Option String
  pub capacity : ℕ
  pub leader : Option String

-- `value || d`
unfoldable pub text_or : Option String → String → String
text_or none d = d
text_or (some s) d = if is_empty s then d else s

unfoldable pub scope_of : Option String → Option String
scope_of none = none
scope_of (some s) = if is_empty s then none else some s

abbrev pub scope_invalid : Option String → Bool
scope_invalid none = false
scope_invalid (some s) = not (is_id s)

abbrev pub decoded : Option String → Result RelayCode String
decoded none = err invalid_registration
decoded (some name) = ok name

-- `decode` is `decodeURIComponent`, `none` where that throws.
unfoldable pub relay_registration : (String → Option String) → Registration → Result RelayCode Meta
unfolding text_or scope_of
relay_registration decode h = do
  let id = or_else h.id ""
  name ← decoded (decode (text_or h.name id))
  let mode = text_or h.mode "mcp"
  let scope = scope_of h.scope
  reject_if
      (not (is_id id)
        || is_empty name
        || ltb 128 (utf16_length name)
        || not (mode == "mcp" || mode == "runtime")
        || scope_invalid scope
        || ltb h.capacity 1
        || ltb 8 h.capacity)
      invalid_registration
  ok (record {
    id = id;
    name = name;
    runtime = mode == "runtime";
    capacity = h.capacity;
    scope_room_id = scope;
    leader = mode == "runtime" && not (is_some scope) && text_or h.leader "" == "1";
  })

-- The requests that went to a connection, each rejected.
unfoldable pub lost : ℕ → Assoc String ℕ → List Effect
lost key [] = []
lost key ((id, k) ∷ rest) =
    let more = lost key rest in if k == key then rejected id leader_offline ∷ more else more

unfoldable pub keep_pending : ℕ → Assoc String ℕ → Assoc String ℕ
keep_pending key [] = []
keep_pending key ((id, k) ∷ rest) =
    let more = keep_pending key rest in if k == key then more else (id, k) ∷ more

unfoldable pub detach : ℕ → Relay → Done
unfolding lost keep_pending
detach key r = (
  record r { connections = remove key r.connections; pending = keep_pending key r.pending },
  lost key r.pending,
)

unfoldable pub is_fresh : ℕ → Connection → Bool
is_fresh now c = c.live && leb now (c.seen + heartbeat_ms)

-- Ownership is removed before the socket is closed.
unfoldable pub prune_each : Clock → Assoc ℕ Connection → Relay → Done
unfolding detach is_fresh
prune_each now [] r = (r, [])
prune_each now ((key, c) ∷ rest) r =
    let here : Done =
      if is_fresh (now key) c
      then (r, [])
      else ((detach key r).0, (detach key r).1 ++ closed key ∷ []) in
    let (after, effects) = prune_each now rest here.0 in (after, here.1 ++ effects)

unfoldable pub prune : Clock → Relay → Done
unfolding prune_each
prune now r = prune_each now r.connections r

unfoldable pub same_runtime : Meta → Connection → Bool
same_runtime m c = m.runtime && c.info.runtime && c.info.id == m.id && c.live

unfoldable pub attach_pruned : Meta → ℕ → Relay → Result RelayCode (Relay × ℕ)
unfolding same_runtime
attach_pruned m now r = do
  reject_if (leb max_connections (length r.connections)) capacity
  reject_if (any (λ e. same_runtime m e.1) r.connections) already_connected
  let c : Connection = record { info = m; live = true; seen = now; running = 0 }
  ok (record r { next = r.next + 1; connections = set r.next c r.connections }, r.next)
