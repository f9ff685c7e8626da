-- ===== src/Room/Hidden.antt =====
-- packages/fleet-worker/src/room-control.mjs: what roomControl shows of a private Room.
use fleet_for_agent.Base.{
  ℕ, ◌≡◌, refl, sym, subst, ◌∙◌, String, Bool, true, false, not, ◌&&◌, Option, none, some, inl, inr,
  arith, ok, err, ◌>>◌, Bool-cases, Result-cases,
}
use fleet_for_agent.Base.Eq.{◌==◌, ==_iff, string_eq}
use fleet_for_agent.Base.Assoc.{lookup, remove, lookup-remove}
use fleet_for_agent.Room.Types.{Principal, Kind, user, agent, Room, Agent, Code, Try}
use fleet_for_agent.Room.Ledger.{Ledger}
use fleet_for_agent.Room.Registry.{id, is_user, agent_record}
use fleet_for_agent.Room.Rooms.{includes, readable_room, readable, can_read_room, update_room}
use fleet_for_agent.Room.Control.{is_stop, room_for, local_renew}
use fleet_for_agent.Room.Authority.{
  Action, agents_register, agents_configure, agents_heartbeat, agents_list, rooms_list,
  rooms_create, rooms_update, change, renew, Answer, check_caller, caller_of, enter_scope, dispatch,
  perform, commit, room_control,
}
use fleet_for_agent.Room.Members.{refusal, refused_private, refused_missing, refused_request}

-- The call names the Room, and it is no confirmation of a stop.
abbrev pub aims_at : String → Action → Bool
aims_at room_id (change request) = request.room_id == room_id && not (is_stop request.change)
aims_at room_id (renew input) = input.room_id == room_id
aims_at room_id (rooms_update key c) = key == room_id
aims_at room_id _ = false

-- The tests before a call that is then refused.
abbrev gate : Try (Unit {0}) → Try (Option Agent) → Try (Unit {0}) → Code → Try (Answer × Ledger)
gate check caller enter code = do check; caller; enter; err code

gate_only :
    (l m : Ledger) (check : Try (Unit {0})) (caller : Try (Option Agent)) (enter : Try (Unit {0}))
    (code : Code)
    → (commit l (gate check caller enter code)).0 ≡ (commit m (gate check caller enter code)).0
unfolding commit
gate_only l m (err e) caller enter code = refl
gate_only l m (ok checked) (err e) enter code = refl
gate_only l m (ok checked) (ok caller) (err e) code = refl
gate_only l m (ok checked) (ok caller) (ok entered) code = refl

module _ (l : Ledger) (principal : Principal) (room_id : String) (now : ℕ) (code : Code)
    (refused : room_for l principal room_id false ≡ err code)
    (unread : readable_room l principal room_id ≡ err code) where
  dispatch_refused :
      (caller : Option Agent) (action : Action)
      → aims_at room_id action ≡ true
      → dispatch l principal caller action now ≡ err code
  unfolding dispatch local_renew update_room
  dispatch_refused caller (change request) aims =
      let at : room_id ≡ request.room_id = ground (arith, aims, ==_iff request.room_id room_id) in
      let other : is_stop request.change ≡ false = ground (arith, aims) in
      rw
        (refused_request l principal request now code other
          (subst (λ x. room_for l principal x false ≡ err code) at refused))
        refl
  dispatch_refused caller (renew input) aims =
      let at : room_id ≡ input.room_id = ground (arith, aims, ==_iff input.room_id room_id) in
      rw (subst (λ x. room_for l principal x false ≡ err code) at refused) refl
  dispatch_refused caller (rooms_update key c) aims =
      let at : room_id ≡ key = ground (arith, aims, ==_iff key room_id) in
      rw (subst (λ x. readable_room l principal x ≡ err code) at unread) refl
  dispatch_refused caller (agents_register input) aims = cc aims
  dispatch_refused caller (agents_configure input) aims = cc aims
  dispatch_refused caller agents_heartbeat aims = cc aims
  dispatch_refused caller agents_list aims = cc aims
  dispatch_refused caller rooms_list aims = cc aims
  dispatch_refused caller (rooms_create input) aims = cc aims

  perform_refused :
      (action : Action)
      → aims_at room_id action ≡ true
      → perform l principal action now
        ≡ gate
            (check_caller principal now)
            (caller_of l principal principal.kind)
            (enter_scope l principal principal.room_id action)
            code
  unfolding perform
  perform_refused action aims = elim (Result-cases (caller_of l principal principal.kind)) [
    | inr (e, failed) ↦ rw failed refl
    | inl (caller, found) ↦ rw (found, dispatch_refused caller action aims) refl
  ]

module _ (l : Ledger) (principal : Principal) (room_id : String) (room : Room)
    (not_user : is_user principal.kind ≡ false)
    (outside : includes room.member_ids principal.id ≡ false)
    (stored : lookup room_id l.rooms ≡ some room) where
  abbrev without : Ledger
  without = record l { rooms = remove room_id l.rooms }

  missing : lookup room_id without.rooms ≡ none
  missing = ground (arith, lookup-remove room_id room_id l.rooms, ==_iff room_id room_id)

  readable_same : (s : String) → readable_room l principal s ≡ readable_room without principal s
  unfolding readable_room readable can_read_room id
  readable_same s = elim (Bool-cases (room_id == s)) [
    | inl here ↦
        let at : room_id ≡ s = (==_iff room_id s).0 here in
        let there : lookup s l.rooms ≡ some room =
          subst (λ x. lookup x l.rooms ≡ some room) at stored in
        ground (arith, lookup-remove room_id s l.rooms, here, there, not_user, outside)
    | inr away ↦ ground (arith, lookup-remove room_id s l.rooms, away)
  ]

  caller_same : (kind : Kind) → caller_of l principal kind ≡ caller_of without principal kind
  unfolding caller_of agent_record
  caller_same user = refl
  caller_same agent = refl

  enter_same :
      (scope : Option String) (action : Action)
      → enter_scope l principal scope action ≡ enter_scope without principal scope action
  unfolding enter_scope
  enter_same none action = refl
  enter_same (some scope) action = rw (readable_same scope) refl

  unreadable : readable_room l principal room_id ≡ err (refusal principal room_id)
  unfolding readable_room readable can_read_room id
  unreadable = ground (arith, stored, not_user, outside)

  -- An Agent that is not a member of a stored Room gets from `roomControl` the answer that it
  -- gets from the same store without that Room, where the call is rooms.get or a change of that
  -- Room, a request in it (to send, delegate, claim, complete, wait, fail or cancel) or the
  -- renewal of a lease in it (`aims_at`).
  pub hidden_room :
      (action : Action) (now : ℕ)
      → aims_at room_id action ≡ true
      → (room_control l principal action now).0 ≡ (room_control without principal action now).0
  unfolding room_control
  hidden_room action now aims =
      let code = refusal principal room_id in
      let private =
        perform_refused l principal room_id now code
          (refused_private principal room_id l room not_user outside stored) unreadable action
          aims in
      let gone =
        perform_refused without principal room_id now code
          (refused_missing principal room_id without missing)
          (sym (readable_same room_id) ∙ unreadable) action aims in
      let kept =
        gate_only l without (check_caller principal now) (caller_of l principal principal.kind)
          (enter_scope l principal principal.room_id action) code in
      rw
        (private, gone, sym (caller_same principal.kind), sym (enter_same principal.room_id action))
        kept
