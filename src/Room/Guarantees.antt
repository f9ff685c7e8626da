-- ===== src/Room/Guarantees.antt =====
-- A call of the authority: what it does to the stored tasks, and what it keeps of them.
use fleet_for_agent.Room.Registry.{register, configure, RegisterInput, ConfigureInput}
use fleet_for_agent.Room.Rooms.{create_room, update_room, CreateInput, RoomChange}
use fleet_for_agent.Base.{
  List, [], ◌∷◌, ℕ, ◌≡◌, refl, subst, String, Option, some, arith, ok, err, ◌>>=◌, >>=-eq-ok,
  ok-injective,
}
use fleet_for_agent.Base.Eq.{string_eq, pair_eq}
use fleet_for_agent.Base.Assoc.{lookup}
use fleet_for_agent.Room.Types.{Principal, Agent, AgentView, Room, Task, Code, Try}
use fleet_for_agent.Room.Ledger.{Ledger, Pair, put_agent, put_room}
use fleet_for_agent.Room.Control.{local_control, local_renew}
use fleet_for_agent.Room.Authority.{
  Action, agents_register, agents_configure, agents_heartbeat, agents_list, rooms_list,
  rooms_create, rooms_update, change, renew, Answer, agent_answer, agents_answer, room_answer,
  change_answer, renew_answer, check_caller, caller_of, enter_scope, heartbeat, list_agents,
  dispatch, perform, commit, room_control,
}
use fleet_for_agent.Room.Lifecycle.{
  Moves, stay, Moves-trans, Sound, Moves-Sound, IsLater, Moves-IsLater,
}
use fleet_for_agent.Room.Safety.{local_control-Moves, local_renew-Moves}

register_keeps :
    (l : Ledger) (principal : Principal) (input : RegisterInput) (now : ℕ) (r : AgentView × Ledger)
    → register l principal input now ≡ ok r
    → r.1.tasks ≡ l.tasks
unfolding register put_agent
register_keeps l principal input now r h = ground arith

configure_keeps :
    (l : Ledger) (principal : Principal) (input : ConfigureInput) (now : ℕ) (r : AgentView × Ledger)
    → configure l principal input now ≡ ok r
    → r.1.tasks ≡ l.tasks
unfolding configure put_agent
configure_keeps l principal input now r h = ground arith

heartbeat_keeps :
    (l : Ledger) (caller : Option Agent) (now : ℕ) (r : AgentView × Ledger)
    → heartbeat l caller now ≡ ok r
    → r.1.tasks ≡ l.tasks
unfolding heartbeat put_agent
heartbeat_keeps l caller now r h = ground arith

create_keeps :
    (l : Ledger) (principal : Principal) (caller : Option Agent) (input : CreateInput) (now : ℕ)
    (r : Room × Ledger)
    → create_room l principal caller input now ≡ ok r
    → r.1.tasks ≡ l.tasks
unfolding create_room put_room
create_keeps l principal caller input now r h = ground arith

update_keeps :
    (l : Ledger) (principal : Principal) (room_id : String) (c : RoomChange) (now : ℕ)
    (r : Room × Ledger)
    → update_room l principal room_id c now ≡ ok r
    → r.1.tasks ≡ l.tasks
unfolding update_room put_room
update_keeps l principal room_id c now r h = ground arith

module _ (l : Ledger) (principal : Principal) (now : ℕ) where
  answered :
      {A : Type 0} (answer : A → Answer) (m : Try (A × Ledger)) (r : Answer × Ledger)
      → (do done ← m; ok (answer done.0, done.1)) ≡ ok r
      → (done : A × Ledger) × (m ≡ ok done) × (r.1 ≡ done.1)
  answered answer m r h =
      let (done, e, h1) = >>=-eq-ok m (λ d. ok (answer d.0, d.1)) h in (done, e, ground (arith, h1))

  -- An answer whose operation leaves the tasks as they were.
  kept :
      {A : Type 0} (answer : A → Answer) (m : Try (A × Ledger)) (r : Answer × Ledger)
      → ((done : A × Ledger) → m ≡ ok done → done.1.tasks ≡ l.tasks)
      → (do done ← m; ok (answer done.0, done.1)) ≡ ok r
      → Moves l.tasks r.1.tasks
  kept answer m r keeps h =
      let (done, e, same) = answered answer m r h in rw same (rw (keeps done e) stay)

  unchanged :
      (answer : Answer) (r : Answer × Ledger)
      → Path (Try (Answer × Ledger)) (ok (answer, l)) (ok r)
      → Moves l.tasks r.1.tasks
  unchanged answer r h =
      subst (λ x. Moves l.tasks x.1.tasks) (ok-injective {E = Code} (answer, l) r h) stay

  dispatch-Moves :
      (caller : Option Agent)
      → Sound l.tasks
      → (action : Action) (r : Answer × Ledger) → dispatch l principal caller action now ≡ ok r
      → Moves l.tasks r.1.tasks
  unfolding dispatch
  dispatch-Moves caller v (agents_register input) r h =
      kept agent_answer (register l principal input now) r (register_keeps l principal input now) h
  dispatch-Moves caller v (agents_configure input) r h =
      kept agent_answer (configure l principal input now) r (configure_keeps l principal input now)
        h
  dispatch-Moves caller v agents_heartbeat r h =
      kept agent_answer (heartbeat l caller now) r (heartbeat_keeps l caller now) h
  dispatch-Moves caller v agents_list r h =
      let (seen, _, h1) = >>=-eq-ok (list_agents l principal principal.room_id now) _ h in
      unchanged (agents_answer seen) r h1
  dispatch-Moves caller v rooms_list r h = unchanged _ r h
  dispatch-Moves caller v (rooms_create input) r h =
      kept room_answer (create_room l principal caller input now) r
        (create_keeps l principal caller input now) h
  dispatch-Moves caller v (rooms_update room_id c) r h =
      kept room_answer (update_room l principal room_id c now) r
        (update_keeps l principal room_id c now) h
  dispatch-Moves caller v (change request) r h =
      let (done, e, same) = answered change_answer (local_control l principal request now) r h in
      rw same (local_control-Moves l principal request now v done e)
  dispatch-Moves caller v (renew input) r h =
      let (done, e, same) = answered renew_answer (local_renew l principal input now) r h in
      rw same (local_renew-Moves l principal input now v done e)

  perform-Moves :
      Sound l.tasks
      → (action : Action) (r : Answer × Ledger) → perform l principal action now ≡ ok r
      → Moves l.tasks r.1.tasks
  unfolding perform
  perform-Moves v action r h =
      let (_, _, h1) = >>=-eq-ok (check_caller principal now) _ h in
      let (caller, _, h2) = >>=-eq-ok (caller_of l principal principal.kind) _ h1 in
      let (_, _, h3) = >>=-eq-ok (enter_scope l principal principal.room_id action) _ h2 in
      dispatch-Moves caller v action r h3

  commit-Moves :
      (m : Try (Answer × Ledger))
      → ((r : Answer × Ledger) → m ≡ ok r → Moves l.tasks r.1.tasks)
      → Moves l.tasks (commit l m).1.tasks
  unfolding commit
  commit-Moves (ok (a, after)) moves = moves (a, after) refl
  commit-Moves (err code) moves = stay

  -- Every call of the Room authority, whatever it asks and whoever asks it, changes the stored
  -- tasks by a sequence of legal changes only, where the tasks were sound before it.
  pub room_control-Moves :
      (action : Action)
      → Sound l.tasks
      → Moves l.tasks (room_control l principal action now).1.tasks
  unfolding room_control
  room_control-Moves action v =
      commit-Moves (perform l principal action now) (perform-Moves v action)

-- A run of the authority: calls, one after another, each at its time.
pub record Call : Type 0 where
  pub caller : Principal
  pub action : Action
  pub now : ℕ

unfoldable pub run : Ledger → List Call → Ledger
unfolding room_control
run l [] = l
run l (call ∷ calls) = run (room_control l call.caller call.action call.now).1 calls

run-Moves : (l : Ledger) (calls : List Call) → Sound l.tasks → Moves l.tasks (run l calls).tasks
unfolding run
run-Moves l [] v = stay
run-Moves l (call ∷ calls) v =
    let first = room_control-Moves l call.caller call.now call.action v in
    Moves-trans first
      (run-Moves (room_control l call.caller call.action call.now).1 calls (Moves-Sound v first))

-- From any sound store, after any calls, of the stored tasks no two that are active have the
-- same assignee and session, each is stored under its own Room and id, none is stored as
-- unknown, and each has room for the events that end it (`Sound`).
pub run-Sound : (l : Ledger) (calls : List Call) → Sound l.tasks → Sound (run l calls).tasks
run-Sound l calls v = Moves-Sound v (run-Moves l calls v)

-- From any sound store, a task that is stored is stored after any further calls, with the same
-- requester, assignee, session, parent and device, an execution epoch and a number of events
-- that are not less, and, if it had ended, with nothing of it changed (`IsLater`).
pub run-IsLater :
    (l : Ledger) (calls : List Call) (k : Pair) (s : Task)
    → Sound l.tasks
    → lookup k l.tasks ≡ some s
    → (t : Task) × (lookup k (run l calls).tasks ≡ some t) × IsLater s t
run-IsLater l calls k s v h = Moves-IsLater k s v h (run-Moves l calls v)
