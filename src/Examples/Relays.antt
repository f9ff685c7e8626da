-- ===== src/Examples/Relays.antt =====
-- packages/fleet-room/relay.mjs on a leader that is attached and asked.
use fleet_for_agent.Base.{
  ℕ, Bool, ◌≡◌, refl, ◌||◌, none, some, true, false, List, [], ◌∷◌, arith, ok,
}
use fleet_for_agent.Base.Eq.{string_eq}
use fleet_for_agent.Base.Assoc.{lookup, set, remove}
use fleet_for_agent.Relay.{Meta, Relay, Clock, prune}
use fleet_for_agent.Relay.Frames.{CallFrame, scoped_caller, is_directory}
use fleet_for_agent.Relay.Steps.{Event, attached, call_sent, step}
use fleet_for_agent.Relay.Soundness.{IsRelay}
use fleet_for_agent.Relay.Runs.{run, run-IsRelay, AreSteady, run-IsRelay_steady}
use fleet_for_agent.Relay.Kept.{Kept}
use fleet_for_agent.Relay.Answers.{stays_in, scoped_caller_lem}

abbrev leader : Meta
leader = record {
  id = "lead";
  name = "Lead";
  runtime = true;
  capacity = 2;
  scope_room_id = none;
  leader = true;
}

abbrev empty_relay : Relay
empty_relay = record { next = 0; connections = []; pending = [] }

empty_relay-IsRelay : {strict : Bool} → IsRelay strict empty_relay
unfolding lookup
empty_relay-IsRelay {strict} = record {
  named = λ k c h. cc h;
  owned = λ id k h. cc h;
  sole = λ j k a b p q l r i. cc p;
  distinct = tt;
  distinct_pending = tt;
  connections = omega arith;
  pending = omega arith;
}

-- Every read of a loop is the same.
abbrev at : ℕ → Clock
at t key = t

abbrev asking : List Event
asking = attached leader (at 10) 10 ∷ call_sent (at 11) (at 12) 0 "r1" 100 true ∷ []

abbrev asked : Relay
asked = run asking empty_relay

-- The heartbeat expires between the two prunings of the dispatch, and the socket still takes the
-- frame: the request is pending on a connection that is gone.
abbrev expiring : List Event
expiring = attached leader (at 10) 10 ∷ call_sent (at 45010) (at 45011) 0 "r1" 100 true ∷ []

abbrev expired : Relay
expired = run expiring empty_relay

pending_on_detached : expired ≡ record { next = 1; connections = []; pending = ("r1", 0) ∷ [] }
unfolding run set remove
pending_on_detached = refl

run-IsRelay_example : IsRelay false expired
run-IsRelay_example = run-IsRelay expiring empty_relay empty_relay-IsRelay

asking-AreSteady : AreSteady asking empty_relay
unfolding step prune set lookup
asking-AreSteady = (tt, (refl, tt))

run-IsRelay_steady_example : IsRelay true asked
run-IsRelay_steady_example =
    run-IsRelay_steady asking empty_relay asking-AreSteady empty_relay-IsRelay

abbrev in_room : Meta
in_room = record {
  id = "ann";
  name = "Ann";
  runtime = false;
  capacity = 2;
  scope_room_id = some "room-1";
  leader = false;
}

abbrev read_frame : CallFrame
read_frame = record {
  id = "1";
  leader_id = "lead";
  action = "messages.read";
  scope_room_id = none;
  input_room = some "room-1";
}

ann_in_room : scoped_caller in_room read_frame ≡ ok (record { id = "ann"; room_id = some "room-1" })
unfolding scoped_caller
ann_in_room = refl

scoped_caller_lem_example :
    (in_room.id ≡ "ann")
    × (stays_in (some "room-1") (some "room-1") ≡ true)
    × ((is_directory "messages.read" || stays_in (some "room-1") (some "room-1")) ≡ true)
scoped_caller_lem_example =
    scoped_caller_lem in_room read_frame (record { id = "ann"; room_id = some "room-1" })
      ann_in_room
