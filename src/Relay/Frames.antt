-- ===== src/Relay/Frames.antt =====
-- packages/fleet-room/relay.mjs, list, receive and call: the frames of a connection, and commands.
use fleet_for_agent.Base.{
  ℕ, String, Bool, true, false, not, ◌&&◌, ◌||◌, Option, none, some, List, [], ◌∷◌, map, length,
  ltb, leb, is_some, if◌then◌else◌, Result, ok, err, ◌>>◌, reject_if,
}
use fleet_for_agent.Base.Eq.{◌==◌, nat_eq, string_eq}
use fleet_for_agent.Base.Assoc.{Assoc, lookup, remove, set}
use fleet_for_agent.Base.Text.{is_id, utf16_length}
use fleet_for_agent.Relay.{
  Meta, Connection, Relay, Effect, rejected, resolved, closed, pong, requested, Done, Clock, also,
  prune, RelayCode, invalid_request, capacity, leader_offline, leader_error, frame_too_large,
  invalid_scope, is_fresh, frame_limit, max_pending, send_failed,
}

pub record Listed : Type 0 where
  pub info : Meta
  pub running : ℕ

-- The Agents that are listed, by id, before they are sorted by name.
unfoldable pub list_from : Clock → Assoc ℕ Connection → Assoc String Listed → Assoc String Listed
unfolding is_fresh
list_from now [] known = known
list_from now ((key, c) ∷ rest) known =
    let row : Listed = record { info = c.info; running = c.running } in
    list_from now rest (
      if is_fresh (now key) c
        && not (is_some c.info.scope_room_id)
        && (not (is_some (lookup c.info.id known)) || c.info.runtime)
      then set c.info.id row known
      else known)

-- `before` is the order of `localeCompare`, in which the rows of the same name keep their order.
unfoldable pub sort_in : (String → String → Bool) → Listed → List Listed → List Listed
sort_in before row [] = row ∷ []
sort_in before row (other ∷ rows) =
    if before other.info.name row.info.name
    then other ∷ sort_in before row rows
    else row ∷ other ∷ rows

unfoldable pub sort_rows : (String → String → Bool) → List Listed → List Listed
unfolding sort_in
sort_rows before [] = []
sort_rows before (row ∷ rows) = sort_in before row (sort_rows before rows)

unfoldable pub list_agents_of : (String → String → Bool) → Clock → Relay → List Listed
unfolding list_from sort_rows
list_agents_of before now r = sort_rows before (map (λ e. e.1) (list_from now r.connections []))

-- A call frame; `input_room` is `input?.roomId`.
pub record CallFrame : Type 0 where
  pub id : String
  pub leader_id : String
  pub action : String
  pub scope_room_id : Option String
  pub input_room : Option String

pub data Frame : Type 0 where
  ping : Option ℕ → Frame
  result_ok result_error : String → Frame
  call : CallFrame → Frame
  other unparsed : Frame

-- Whom the leader is told that a command comes from.
pub record Caller : Type 0 where
  pub id : String
  pub room_id : Option String

abbrev pub is_directory : String → Bool
is_directory action = action == "directory" || action == "agents.list" || action == "rooms.list"

abbrev pub same_room : Option String → Option String → Bool
same_room none none = true
same_room (some a) (some b) = a == b
same_room _ _ = false

-- `m.scopeRoomId !== undefined && (…)`
unfoldable pub widens : Option String → Option String → Bool
widens own none = false
widens none (some asked) = not (is_id asked)
widens (some own) (some asked) = not (is_id asked) || not (own == asked)

unfoldable pub scope_with : Option String → Option String → Option String
scope_with none asked = asked
scope_with (some own) asked = some own

-- The scope of a call: a connection's own cannot be widened or changed.
unfoldable pub scoped_caller : Meta → CallFrame → Result RelayCode Caller
unfolding widens scope_with
scoped_caller m f = do
  reject_if (widens m.scope_room_id f.scope_room_id) invalid_scope
  let scope = scope_with m.scope_room_id f.scope_room_id
  reject_if (is_some scope && not (is_directory f.action) && not (same_room f.input_room scope))
      invalid_scope
  ok (record { id = m.id; room_id = scope })

-- The first connection that may serve the command.
unfoldable pub find_leader : Clock → String → Assoc ℕ Connection → Option ℕ
unfolding is_fresh
find_leader now leader_id [] = none
find_leader now leader_id ((key, c) ∷ rest) =
    let later = find_leader now leader_id rest in
    if c.info.id == leader_id && c.info.leader && is_fresh (now key) c then some key else later

unfoldable pub found_leader : Option ℕ → Result RelayCode ℕ
found_leader none = err leader_offline
found_leader (some key) = ok key

-- `call` up to its first await, after the pruning.
unfoldable pub call_begin : Clock → String → String → Relay → Result RelayCode ℕ
unfolding find_leader found_leader
call_begin now leader_id action r = do
  reject_if (not (is_id leader_id) || ltb 80 (utf16_length action)) invalid_request
  reject_if (leb max_pending (length r.pending)) capacity
  found_leader (find_leader now leader_id r.connections)

abbrev pub is_live : Option Connection → Bool
is_live none = false
is_live (some c) = c.live

-- The request is pending before it is sent, and no more where the socket throws.
unfoldable pub send_request : ℕ → String → ℕ → Bool → Relay → Done
send_request key id bytes sends r =
    if ltb frame_limit bytes
    then (r, rejected id frame_too_large ∷ [])
    else if sends
    then (record r { pending = set id key r.pending }, requested key id ∷ [])
    else (record r { pending = remove id (set id key r.pending) }, rejected id send_failed ∷ [])

-- `call` after its awaits and the pruning. The frame holds the list of the Agents, and to list them
-- prunes the connections again.
unfoldable pub call_dispatch : ℕ → String → ℕ → Bool → Clock → Relay → Done
unfolding send_request prune
call_dispatch key id bytes sends again r =
    if not (is_live (lookup key r.connections))
    then (r, rejected id leader_offline ∷ [])
    else if leb max_pending (length r.pending)
    then (r, rejected id capacity ∷ [])
    else also (prune again r).1 (send_request key id bytes sends (prune again r).0)

unfoldable pub running_after : Connection → Option ℕ → ℕ
running_after c none = c.running
running_after c (some n) = if leb n c.info.capacity then n else c.running

-- A result settles a request that is pending on the connection that sends it, and no other.
unfoldable pub settle : ℕ → String → Effect → Option ℕ → Relay → Done
settle key id effect none r = (r, [])
settle key id effect (some owner) r =
    if owner == key then (record r { pending = remove id r.pending }, effect ∷ []) else (r, [])

unfoldable pub touch : ℕ → ℕ → Connection → Relay → Relay
touch key now c r = record r { connections = set key (record c { seen = now }) r.connections }

-- What throws in `receive` closes the socket of the connection.
unfoldable pub close_socket : ℕ → Connection → Relay → Done
close_socket key c r =
    (record r { connections = set key (record c { live = false }) r.connections }, closed key ∷ [])

-- `receive` after its await, of a connection that is still there: what the frame does at once. A
-- call goes on by `call_begin`, with the caller that `scoped_caller` names.
unfoldable pub serve_frame : ℕ → ℕ → Connection → Frame → Relay → Done
unfolding running_after settle touch close_socket
serve_frame key now c (ping running) r = (
  record r {
    connections =
        set key (record c { seen = now; running = running_after c running }) r.connections;
  },
  pong key ∷ [],
)
serve_frame key now c (result_ok id) r =
    settle key id (resolved id) (lookup id r.pending) (touch key now c r)
serve_frame key now c (result_error id) r =
    settle key id (rejected id leader_error) (lookup id r.pending) (touch key now c r)
serve_frame key now c (call f) r =
    if ltb 100 (utf16_length f.id)
    then close_socket key (record c { seen = now }) r
    else (touch key now c r, [])
serve_frame key now c other r = close_socket key (record c { seen = now }) r
serve_frame key now c unparsed r = close_socket key c r
