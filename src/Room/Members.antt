-- ===== src/Room/Members.antt =====
-- packages/fleet-worker/src/room-control.mjs: who is in a Room, and who is refused it.
use fleet_for_agent.Base.{
  ℕ, ◌+◌, ◌≤◌, ◌≡◌, refl, String, Bool, true, false, not, Option, none, some, List, [], ◌∷◌, ◌++◌,
  filter, length, if◌then◌else◌, arith, ok, err, ok-injective,
}
use fleet_for_agent.Base.Eq.{◌==◌, ==_iff, string_eq}
use fleet_for_agent.Base.Assoc.{lookup}
use fleet_for_agent.Base.Text.{is_id}
use fleet_for_agent.Room.Types.{Principal, Room, Request, Code, room_not_found, invalid_input}
use fleet_for_agent.Room.Ledger.{Ledger}
use fleet_for_agent.Room.Registry.{id, is_user}
use fleet_for_agent.Room.Rooms.{
  includes, invite_member, next_leader, remove_member, choose_device, set_paused, change_room,
  RoomChange, get, invite, remove, device, pause, resume, readable_room, readable, can_read_room,
}
use fleet_for_agent.Room.Control.{local_control, is_stop, room_for}

pub record IsStaffed (room : Room) : Type 0 where
  pub leads : includes room.member_ids room.leader_id ≡ true
  pub few : length room.member_ids ≤ 5

includes-append :
    (xs ys : List String) (a : String) → includes xs a ≡ true → includes (xs ++ ys) a ≡ true
includes-append [] ys a h = cc h
includes-append (x ∷ xs) ys a h = ground (arith, includes-append xs ys a, h)

includes-filter :
    (xs : List String) (gone a : String)
    → (a == gone) ≡ false
    → includes xs a ≡ true
    → includes (filter (λ m. not (m == gone)) xs) a ≡ true
includes-filter [] gone a kept h = cc h
includes-filter (x ∷ xs) gone a kept h =
    ground (arith, includes-filter xs gone a kept, ==_iff x a, ==_iff a gone, ==_iff x gone)

length-filter : (p : String → Bool) (xs : List String) → length (filter p xs) ≤ length xs
length-filter p [] = omega arith
length-filter p (x ∷ xs) = ground (arith, length-filter p xs)

length-append_one : (xs : List String) (a : String) → length (xs ++ a ∷ []) ≡ length xs + 1
length-append_one [] a = refl
length-append_one (x ∷ xs) a = omega (arith, length-append_one xs a)

module _ (l : Ledger) (room next : Room) (now : ℕ) (v : IsStaffed room) where
  invite_member_ok :
      (agent_id : String) → invite_member l room agent_id now ≡ ok (some next) → IsStaffed next
  unfolding invite_member id
  invite_member_ok agent_id h = record {
    leads = ground (arith, v.leads, includes-append room.member_ids (agent_id ∷ []) room.leader_id);
    few = ground (arith, v.few, length-append_one room.member_ids agent_id);
  }

  remove_inv :
      (agent_id : String) (new_leader : Option String)
      → remove_member room agent_id new_leader now ≡ ok (some next)
      → (next_leader room agent_id new_leader ≡ ok next.leader_id)
        × (next.member_ids ≡ filter (λ m. not (m == agent_id)) room.member_ids)
  unfolding remove_member id
  remove_inv agent_id new_leader h = ground arith

  next_leader_ok :
      (key : String) (new_leader : Option String) (leader : String)
      → next_leader room key new_leader ≡ ok leader
      → ((leader == key) ≡ false) × (includes room.member_ids leader ≡ true)
  unfolding next_leader
  next_leader_ok key none leader h =
      ground (arith, v.leads, ==_iff key room.leader_id, ==_iff leader key)
  next_leader_ok key (some new_leader) leader h = ground (arith, h)

  remove_member_ok :
      (agent_id : String) (new_leader : Option String)
      → remove_member room agent_id new_leader now ≡ ok (some next)
      → IsStaffed next
  remove_member_ok agent_id new_leader h =
      let (leader, members) = remove_inv agent_id new_leader h in
      let (stays, member) = next_leader_ok agent_id new_leader next.leader_id leader in
      let shrinks = length-filter (λ m. not (m == agent_id)) room.member_ids in
      record {
        leads = rw members (includes-filter room.member_ids agent_id next.leader_id stays member);
        few = rw members (omega (arith, shrinks, v.few));
      }

  choose_device_ok :
      (device_id : String) (expected : ℕ)
      → choose_device room device_id expected now ≡ ok (some next)
      → IsStaffed next
  unfolding choose_device id
  choose_device_ok device_id expected h = record {
    leads = ground (arith, v.leads);
    few = ground (arith, v.few);
  }

  set_paused_ok : (paused : Bool) → set_paused room paused now ≡ some next → IsStaffed next
  unfolding set_paused
  set_paused_ok paused h = record { leads = ground (arith, v.leads); few = ground (arith, v.few) }

  -- Whatever a Room's manager changes, the leader is a member of the Room that is stored, and it
  -- has at most five members, where that held before.
  pub change_room-IsStaffed :
      (c : RoomChange) → change_room l room c now ≡ ok (some next) → IsStaffed next
  unfolding change_room
  change_room-IsStaffed get h = cc h
  change_room-IsStaffed (invite agent_id) h = invite_member_ok agent_id h
  change_room-IsStaffed (remove agent_id new_leader) h = remove_member_ok agent_id new_leader h
  change_room-IsStaffed (device device_id expected) h = choose_device_ok device_id expected h
  change_room-IsStaffed pause h = set_paused_ok true (ok-injective {E = Code} _ _ h)
  change_room-IsStaffed resume h = set_paused_ok false (ok-injective {E = Code} _ _ h)

module _ (principal : Principal) (room_id : String) where
  -- The refusal, which is the same for a private Room and for a missing one.
  abbrev pub refusal : Code
  refusal = if is_id room_id then room_not_found else invalid_input

  pub refused_private :
      (l : Ledger) (room : Room)
      → is_user principal.kind ≡ false
      → includes room.member_ids principal.id ≡ false
      → lookup room_id l.rooms ≡ some room
      → room_for l principal room_id false ≡ err refusal
  unfolding room_for readable_room readable can_read_room id
  refused_private l room not_user outside stored = ground (arith, not_user, outside, stored)

  pub refused_missing :
      (l : Ledger)
      → lookup room_id l.rooms ≡ none
      → room_for l principal room_id false ≡ err refusal
  unfolding room_for readable_room readable id
  refused_missing l missing = ground (arith, missing)

pub refused_request :
    (l : Ledger) (principal : Principal) (request : Request) (now : ℕ) (code : Code)
    → is_stop request.change ≡ false
    → room_for l principal request.room_id false ≡ err code
    → local_control l principal request now ≡ err code
unfolding local_control
refused_request l principal request now code other refused = rw (other, refused) refl
