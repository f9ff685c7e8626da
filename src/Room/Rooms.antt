-- ===== src/Room/Rooms.antt =====
-- packages/fleet-worker/src/room-control.mjs: Rooms and their members.
use fleet_for_agent.Base.{
  ℕ, ◌+◌, String, Bool, true, false, not, ◌&&◌, ◌||◌, Option, none, some, List, [], ◌∷◌, ◌++◌, ok,
  err, ◌>>=◌, ◌>>◌, reject_if, leb, eqb, or_else, any, filter, length, if◌then◌else◌,
}
use fleet_for_agent.Base.Eq.{◌==◌, string_eq}
use fleet_for_agent.Base.Assoc.{lookup}
use fleet_for_agent.Room.Types.{
  Principal, Agent, Room, Try, invalid_input, forbidden, room_not_found, room_conflict, room_limit,
  member_limit, leader_required, config_conflict,
}
use fleet_for_agent.Room.Ledger.{Ledger, put_room}
use fleet_for_agent.Room.Registry.{id, version, is_user, agent_record}

abbrev pub max_rooms : ℕ
max_rooms = 32

abbrev pub max_members : ℕ
max_members = 5

pub record CreateInput : Type 0 where
  pub id : String
  pub name : Option String
  pub leader_id : String
  pub default_device_id : String

pub data RoomChange : Type 0 where
  get pause resume : RoomChange
  invite : String → RoomChange
  remove : String → Option String → RoomChange
  device : String → ℕ → RoomChange

-- `principal.roomId ? principal.roomId === room : true`
abbrev pub in_scope : Option String → String → Bool
in_scope none room = true
in_scope (some scope) room = scope == room

abbrev pub includes : List String → String → Bool
includes xs a = any (λ x. x == a) xs

unfoldable pub can_read_room : Principal → Room → Bool
can_read_room principal room =
    is_user principal.kind
    || (in_scope principal.room_id room.id && includes room.member_ids principal.id)

unfoldable pub readable : Principal → Option Room → Try Room
readable principal none = err room_not_found
readable principal (some room) =
    if can_read_room principal room then ok room else err room_not_found

-- Whether the Room is missing or private, the answer is the same.
unfoldable pub readable_room : Ledger → Principal → String → Try Room
unfolding id readable can_read_room
readable_room l principal room_id = do key ← id room_id; readable principal (lookup key l.rooms)

unfoldable pub manager_only : Principal → Room → Try (Unit {0})
manager_only principal room =
    reject_if (not (is_user principal.kind) && not (principal.id == room.leader_id)) forbidden

-- The Agent behind an Agent principal; none for the account owner.
abbrev pub may_create : Option Agent → Bool
may_create none = false
may_create (some caller) = caller.can_create_rooms

abbrev pub is_none : Option String → Bool
is_none none = true
is_none (some s) = false

unfoldable pub create_room :
    Ledger → Principal → Option Agent → CreateInput → ℕ → Try (Room × Ledger)
unfolding id agent_record
create_room l principal caller input now = do
  room_id ← id input.id
  leader_id ← id input.leader_id
  default_device_id ← id input.default_device_id
  reject_if
      (not (is_user principal.kind)
        && (not (is_none principal.room_id)
            || not (may_create caller)
            || not (leader_id == principal.id)))
      forbidden
  agent_record l leader_id
  reject_if (elim (lookup room_id l.rooms) [ none ↦ false | some _ ↦ true ]) room_conflict
  reject_if (leb max_rooms (length l.rooms)) room_limit
  let room : Room = record {
    id = room_id;
    name = or_else input.name room_id;
    leader_id = leader_id;
    member_ids = leader_id ∷ [];
    default_device_id = default_device_id;
    membership_version = 1;
    config_version = 1;
    control_epoch = 1;
    paused = false;
    created_at = now;
    updated_at = now;
  }
  ok (room, put_room room l)

-- What a change makes of a Room: `none` where the code returns the Room without a write.
unfoldable pub invite_member : Ledger → Room → String → ℕ → Try (Option Room)
unfolding id agent_record
invite_member l room agent_id now = do
  key ← id agent_id
  agent_record l key
  if includes room.member_ids key then ok none else do
    reject_if (leb max_members (length room.member_ids)) member_limit
    ok (
        some (record room {
          member_ids = room.member_ids ++ key ∷ [];
          membership_version = room.membership_version + 1;
          updated_at = now;
        }))

-- The leader after a member leaves.
unfoldable pub next_leader : Room → String → Option String → Try String
next_leader room key none = if key == room.leader_id then err leader_required else ok room.leader_id
next_leader room key (some new_leader) =
    if key == room.leader_id
    then (if new_leader == key || not (includes room.member_ids new_leader)
        then err leader_required
        else ok new_leader)
    else err invalid_input

unfoldable pub remove_member : Room → String → Option String → ℕ → Try (Option Room)
unfolding id next_leader
remove_member room agent_id new_leader now = do
  key ← id agent_id
  if not (includes room.member_ids key) then ok none else do
    leader_id ← next_leader room key new_leader
    ok (
        some (record room {
          leader_id = leader_id;
          member_ids = filter (λ m. not (m == key)) room.member_ids;
          membership_version = room.membership_version + 1;
          control_epoch = room.control_epoch + 1;
          updated_at = now;
        }))

unfoldable pub choose_device : Room → String → ℕ → ℕ → Try (Option Room)
unfolding id version
choose_device room device_id expected now = do
  version expected
  reject_if (not (eqb expected room.config_version)) config_conflict
  key ← id device_id
  let next : Room = record room {
    default_device_id = key;
    config_version = room.config_version + 1;
    updated_at = now;
  }
  ok (if key == room.default_device_id then none else some next)

unfoldable pub set_paused : Room → Bool → ℕ → Option Room
set_paused room paused now =
    let next : Room = record room {
      paused = paused;
      control_epoch = room.control_epoch + 1;
      updated_at = now;
    } in
    if (paused && room.paused) || (not paused && not room.paused) then none else some next

unfoldable pub change_room : Ledger → Room → RoomChange → ℕ → Try (Option Room)
unfolding invite_member remove_member choose_device set_paused
change_room l room get now = ok none
change_room l room (invite agent_id) now = invite_member l room agent_id now
change_room l room (remove agent_id new_leader) now = remove_member room agent_id new_leader now
change_room l room (device device_id expected) now = choose_device room device_id expected now
change_room l room pause now = ok (set_paused room true now)
change_room l room resume now = ok (set_paused room false now)

abbrev pub is_get : RoomChange → Bool
is_get get = true
is_get _ = false

unfoldable pub write_room : Ledger → Room → Option Room → Room × Ledger
write_room l room none = (room, l)
write_room l room (some next) = (next, put_room next l)

unfoldable pub update_room : Ledger → Principal → String → RoomChange → ℕ → Try (Room × Ledger)
unfolding readable_room manager_only change_room write_room
update_room l principal room_id change now = do
  room ← readable_room l principal room_id
  if is_get change then ok (room, l) else do
    manager_only principal room
    next ← change_room l room change now
    ok (write_room l room next)
