-- ===== src/Relay/Answers.antt =====
-- packages/fleet-room/relay.mjs: what becomes of a pending request, and who may ask for what.
use fleet_for_agent.Base.{
  ap, refl, ◌∙◌, Option-cases, ◌≡◌, String, Bool, true, false, not, ◌&&◌, ◌||◌, Option, none, some,
  is_some, ok, arith,
}
use fleet_for_agent.Base.Eq.{==_iff, nat_eq, string_eq}
use fleet_for_agent.Base.Assoc.{lookup}
use fleet_for_agent.Relay.{Meta, Relay}
use fleet_for_agent.Relay.Steps.{Event, call_sent}
use fleet_for_agent.Relay.Frames.{
  CallFrame, Caller, scoped_caller, widens, scope_with, is_directory, same_room,
}
use fleet_for_agent.Relay.Kept.{Kept}

-- The id of a request that is sent is new.
abbrev pub IsNew : Event → Relay → Type 0
IsNew (call_sent now again key id bytes sends) r = lookup id r.pending ≡ none
IsNew _ r = Unit {0}

same_room_iff : (a : Option String) (s : String) → same_room a (some s) ≡ true → a ≡ some s
same_room_iff none s h = cc h
same_room_iff (some t) s h = ground (arith, h, ==_iff t s)

scoped_inv :
    (m : Meta) (f : CallFrame) (p : Caller)
    → scoped_caller m f ≡ ok p
    → (is_some p.room_id && not (is_directory f.action) && not (same_room f.input_room p.room_id))
      ≡ false
unfolding scoped_caller widens scope_with
scoped_inv m f p h = ground (arith, h)

-- A room within a scope, where there is one.
abbrev pub stays_in : Option String → Option String → Bool
stays_in none room = true
stays_in (some scope) room = same_room room (some scope)

stays_in_own : (own asked : Option String) → stays_in own (scope_with own asked) ≡ true
unfolding scope_with
stays_in_own none asked = refl
stays_in_own (some s) asked = ground (arith, ==_iff s s)

scoped_room :
    (m : Meta) (f : CallFrame) (p : Caller)
    → scoped_caller m f ≡ ok p
    → (p.id ≡ m.id) × (p.room_id ≡ scope_with m.scope_room_id f.scope_room_id)
unfolding scoped_caller widens scope_with
scoped_room m f p h = (ground (arith, h), ground (arith, h))

-- A call that the relay passes on comes, for the leader, from the connection's own Agent, in the
-- connection's own scope where it has one, and it targets the Room of its scope unless it asks
-- for a directory.
pub scoped_caller_lem :
    (m : Meta) (f : CallFrame) (p : Caller)
    → scoped_caller m f ≡ ok p
    → (p.id ≡ m.id)
      × (stays_in m.scope_room_id p.room_id ≡ true)
      × ((is_directory f.action || stays_in p.room_id f.input_room) ≡ true)
scoped_caller_lem m f p h =
    let (same, room) = scoped_room m f p h in
    (
      same,
      ap (stays_in m.scope_room_id) room ∙ stays_in_own m.scope_room_id f.scope_room_id,
      ground (arith, scoped_inv m f p h, Option-cases p.room_id),
    )
