-- ===== src/Relay/Steps.antt =====
-- packages/fleet-room/relay.mjs: the stretches of code that run at an event, in any order.
use fleet_for_agent.Base.{
  ℕ, String, Bool, Option, none, some, [], ◌∷◌, ◌++◌, ltb, if◌then◌else◌, Result, ok, err,
}
use fleet_for_agent.Base.Eq.{nat_eq, string_eq}
use fleet_for_agent.Base.Assoc.{Assoc, lookup, remove}
use fleet_for_agent.Relay.{
  Meta, Connection, Relay, rejected, closed, ready, Done, Clock, also, RelayCode, leader_timeout,
  frame_limit, detach, prune, attach_pruned,
}
use fleet_for_agent.Relay.Frames.{Frame, serve_frame, close_socket, call_dispatch}

-- `attach`, the two parts of `receive`, the three parts of `call`, and what happens to sockets and
-- timers. A number is the connection that is named first, the time or a size; `call_sent` has the
-- clocks of its two prunings, and whether the socket takes the frame. Another socket that is open
-- takes what is sent to it.
pub data Event : Type 0 where
  attached : Meta → Clock → ℕ → Event
  went_down went_away : ℕ → Event
  received : ℕ → ℕ → Clock → Event
  authorized : ℕ → Bool → ℕ → Frame → Event
  call_asked : Clock → String → String → Event
  call_refused : ℕ → Event
  call_sent : Clock → Clock → ℕ → String → ℕ → Bool → Event
  timed_out : String → Event
  shut_down : Event

abbrev pub attach_result : Done → Result RelayCode (Relay × ℕ) → Done
attach_result pruned (err code) = pruned
attach_result pruned (ok (r, key)) = (r, pruned.1 ++ ready key ∷ [])

unfoldable pub down_found : ℕ → Option Connection → Relay → Done
unfolding close_socket
down_found key none r = (r, [])
down_found key (some c) r = ((close_socket key c r).0, [])

-- `receive` up to its await: a frame that is too large closes the socket.
unfoldable pub received_found : ℕ → ℕ → Option Connection → Relay → Done
unfolding close_socket
received_found key bytes none r = (r, [])
received_found key bytes (some c) r =
    if ltb frame_limit bytes then close_socket key c r else (r, [])

unfoldable pub serve_found : ℕ → ℕ → Frame → Option Connection → Relay → Done
unfolding serve_frame
serve_found key now frame none r = (r, [])
serve_found key now frame (some c) r = if c.live then serve_frame key now c frame r else (r, [])

unfoldable pub drop_connection : ℕ → Relay → Done
unfolding detach
drop_connection key r = ((detach key r).0, closed key ∷ (detach key r).1)

unfoldable pub close_each : Assoc ℕ Connection → Relay → Done
unfolding drop_connection
close_each [] r = (r, [])
close_each ((key, c) ∷ rest) r =
    also (drop_connection key r).1 (close_each rest (drop_connection key r).0)

unfoldable pub time_out : String → Option ℕ → Relay → Done
time_out id none r = (r, [])
time_out id (some key) r =
    (record r { pending = remove id r.pending }, rejected id leader_timeout ∷ [])

unfoldable pub step : Event → Relay → Done
unfolding prune attach_pruned down_found detach received_found serve_found drop_connection
    call_dispatch time_out close_each
step (attached m now seen) r = attach_result (prune now r) (attach_pruned m seen (prune now r).0)
step (went_down key) r = down_found key (lookup key r.connections) r
step (went_away key) r = detach key r
step (received key bytes now) r =
    also (prune now r).1
      (received_found key bytes (lookup key (prune now r).0.connections) (prune now r).0)
step (authorized key granted now frame) r =
    if granted
    then serve_found key now frame (lookup key r.connections) r
    else drop_connection key r
step (call_asked now leader_id action) r = prune now r
step (call_refused key) r = drop_connection key r
step (call_sent now again key id bytes sends) r =
    also (prune now r).1 (call_dispatch key id bytes sends again (prune now r).0)
step (timed_out id) r = time_out id (lookup id r.pending) r
step shut_down r = close_each r.connections r
