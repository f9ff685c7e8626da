-- ===== src/Room/Safety.antt =====
-- packages/fleet-worker/src/room-tasks.mjs, localRoomControl: what a request does to the stored tasks.
use Prim.Native.String.{◌++◌ as append}
use fleet_for_agent.Room.Registry.{id}
use fleet_for_agent.Base.{
  ℕ, ◌≡◌, subst, inl, inr, String, false, Option, none, some, arith, Bool-cases, ok, ◌>>=◌,
  >>=-eq-ok, or_else, ok-injective,
}
use fleet_for_agent.Base.Eq.{string_eq, pair_eq}
use fleet_for_agent.Base.Assoc.{lookup}
use fleet_for_agent.Room.Types.{
  Principal, Room, Task, Message, Usage, Change, send, delegate, claim, complete, wait, fail,
  cancel, stopped, Request, Receipt, RenewInput, Reply, Code, Try, SendInput,
}
use fleet_for_agent.Room.Ledger.{Ledger, Pair, put_usage, put_request}
use fleet_for_agent.Room.Tasks.{task_view, get_task}
use fleet_for_agent.Room.Messages.{send_message, delegate_task}
use fleet_for_agent.Room.Execution.{
  claim_task, cancel_task, stop_task, fail_task, wait_task, complete_task,
}
use fleet_for_agent.Room.Control.{
  mention, no_usage, same_fingerprint, fingerprint_of, Served, served, serve_change, send_to,
  held_task, serve_fresh, serve_after, local_control, local_renew, room_for, admit,
}
use fleet_for_agent.Room.Lifecycle.{Moves, stay, Sound}
use fleet_for_agent.Room.Claims.{claim_task_ok}
use fleet_for_agent.Room.Progress.{fail_task_ok, wait_task_ok, stop_task_ok}
use fleet_for_agent.Room.Completion.{complete_task_ok, send_keeps_tasks}
use fleet_for_agent.Room.Subtree.{cancel_task_ok}
use fleet_for_agent.Room.Delegation.{delegate_task_ok, renew_task_ok, get_task_inv}

send_to-Moves :
    (l : Ledger) (principal : Principal) (room : Room) (request_id : String) (input : SendInput)
    (now : ℕ) (usage : Usage) (message : Message)
    → Sound l.tasks
    → (to : Option String) (r : Served)
    → send_to l principal room request_id input now usage message to ≡ ok r
    → Moves l.tasks r.ledger.tasks
unfolding send_to
send_to-Moves l principal room request_id input now usage message v none r h =
    subst (λ x. Moves l.tasks x.ledger.tasks) (ok-injective {E = Code} _ r h) stay
send_to-Moves l principal room request_id input now usage message v (some assignee) r h =
    let (task_id, _, h1) = >>=-eq-ok (id (append "msg_" request_id)) _ h in
    let (made, e, h2) =
      >>=-eq-ok
        (delegate_task l principal room task_id (mention room input assignee) now usage
          (some message))
        _ h1 in
    subst (λ x. Moves l.tasks x.ledger.tasks) (ok-injective {E = Code} _ r h2)
      (delegate_task_ok l principal room task_id (mention room input assignee) now usage
        (some message) v made e)

module _ (l : Ledger) (principal : Principal) (room : Room) (request_id : String) (now : ℕ)
    (usage : Usage) (v : Sound l.tasks) where
  held_inv :
      (task_id : String) (epoch : ℕ) (t : Task)
      → held_task l principal room task_id epoch now ≡ ok t
      → get_task l room.id task_id now ≡ ok t
  unfolding held_task
  held_inv task_id epoch t h = ground arith

  -- A change of one task: the task is found, changed, and the new store is served.
  task_step :
      (get : Try Task) (change : Task → Try (Task × Ledger)) (r : Served)
      → (do t ← get; done ← change t; ok (served usage done)) ≡ ok r
      → (t : Task) × (get ≡ ok t)
        × ((done : Task × Ledger) × (change t ≡ ok done) × (r.ledger ≡ done.1))
  task_step get change r h =
      let (t, found, h1) = >>=-eq-ok get (λ x. do done ← change x; ok (served usage done)) h in
      let (done, changed, h2) = >>=-eq-ok (change t) (λ d. ok (served usage d)) h1 in
      (t, found, (done, changed, ground (arith, h2)))

  -- A legal change of the task that is stored, where the operation is legal of it as it is seen.
  changed-Moves :
      (task_id : String) (t : Task) (change : Task → Try (Task × Ledger)) (done : Task × Ledger)
      (r : Served)
      → ((k : Pair) (s : Task)
          → lookup k l.tasks ≡ some s
          → (d : Task × Ledger) → change (task_view s now) ≡ ok d
          → Moves l.tasks d.1.tasks)
      → get_task l room.id task_id now ≡ ok t
      → change t ≡ ok done
      → r.ledger ≡ done.1
      → Moves l.tasks r.ledger.tasks
  changed-Moves task_id t change done r legal found changed same =
      let (s, stored, view) = get_task_inv l room.id task_id now t found in
      rw same
        (legal (room.id, task_id) s stored done (subst (λ x. change x ≡ ok done) view changed))

  got-Moves :
      (task_id : String) (change : Task → Try (Task × Ledger)) (r : Served)
      → ((k : Pair) (s : Task)
          → lookup k l.tasks ≡ some s
          → (d : Task × Ledger) → change (task_view s now) ≡ ok d
          → Moves l.tasks d.1.tasks)
      → (do t ← get_task l room.id task_id now; done ← change t; ok (served usage done)) ≡ ok r
      → Moves l.tasks r.ledger.tasks
  got-Moves task_id change r legal h =
      let (t, found, (done, changed, same)) =
        task_step (get_task l room.id task_id now) change r h in
      changed-Moves task_id t change done r legal found changed same

  held-Moves :
      (task_id : String) (epoch : ℕ) (change : Task → Try (Task × Ledger)) (r : Served)
      → ((k : Pair) (s : Task)
          → lookup k l.tasks ≡ some s
          → (d : Task × Ledger) → change (task_view s now) ≡ ok d
          → Moves l.tasks d.1.tasks)
      → (do
        t ← held_task l principal room task_id epoch now
        done ← change t
        ok (served usage done))
        ≡ ok r
      → Moves l.tasks r.ledger.tasks
  held-Moves task_id epoch change r legal h =
      let (t, held, (done, changed, same)) =
        task_step (held_task l principal room task_id epoch now) change r h in
      changed-Moves task_id t change done r legal (held_inv task_id epoch t held) changed same

  ended :
      (r : Served) (after : Ledger) {reply : Reply} {counted : Usage}
      → Path (Try Served) (ok (record { reply = reply; usage = counted; ledger = after })) (ok r)
      → Moves l.tasks after.tasks
      → Moves l.tasks r.ledger.tasks
  ended r after {reply} {counted} h moves =
      subst (λ x. Moves l.tasks x.ledger.tasks)
        (ok-injective {E = Code} (record { reply = reply; usage = counted; ledger = after }) r h)
        moves

  serve_change-Moves :
      (c : Change) (r : Served)
      → serve_change l principal room request_id now usage c ≡ ok r
      → Moves l.tasks r.ledger.tasks
  unfolding serve_change
  serve_change-Moves (claim task_id lease) r h =
      got-Moves task_id (λ t. claim_task l principal room t lease now) r
        (λ k s stored d e. (claim_task_ok l principal room k s lease now v stored d e).saves.moves)
        h
  serve_change-Moves (cancel task_id) r h =
      got-Moves task_id (λ t. cancel_task l principal room t now) r
        (λ k s stored d e. cancel_task_ok l principal room (task_view s now) now v d e) h
  serve_change-Moves (stopped task_id epoch outcome) r h =
      held-Moves task_id epoch (λ t. stop_task l principal t outcome now) r
        (λ k s stored d e. stop_task_ok l principal k s now v stored outcome d e) h
  serve_change-Moves (fail task_id epoch error) r h =
      held-Moves task_id epoch (λ t. fail_task l principal t error now) r
        (λ k s stored d e. fail_task_ok l principal k s now v stored error d e) h
  serve_change-Moves (wait task_id epoch checkpoint) r h =
      held-Moves task_id epoch (λ t. wait_task l principal t checkpoint now) r
        (λ k s stored d e. wait_task_ok l principal k s now v stored checkpoint d e) h
  serve_change-Moves (complete task_id epoch text rev) r h =
      let (t, held, h1) = >>=-eq-ok (held_task l principal room task_id epoch now) _ h in
      let (done, changed, h2) =
        >>=-eq-ok (complete_task l principal room request_id t text rev now usage) _ h1 in
      let (s, stored, view) =
        get_task_inv l room.id task_id now t (held_inv task_id epoch t held) in
      ended r done.2 h2 (
        complete_task_ok l principal (room.id, task_id) s now v stored room request_id text rev
          usage done
          (subst (λ x. complete_task l principal room request_id x text rev now usage ≡ ok done)
            view changed))
  serve_change-Moves (delegate input) r h =
      let (made, e, h1) =
        >>=-eq-ok (delegate_task l principal room request_id input now usage none) _ h in
      let moves = delegate_task_ok l principal room request_id input now usage none v made e in
      ended r made.2 h1 moves
  serve_change-Moves (send input) r h =
      let (sent, e, h1) =
        >>=-eq-ok (send_message l principal room.id request_id input now usage) _ h in
      let kept = send_keeps_tasks l principal now room.id request_id input usage sent e in
      subst (λ m. Moves m r.ledger.tasks) kept
        (send_to-Moves sent.ledger principal room request_id input now sent.usage sent.message
          (rw kept v) input.to_agent_id r h1)

serve_fresh-Moves :
    (l : Ledger) (principal : Principal) (room : Room) (request : Request) (now : ℕ)
    → Sound l.tasks
    → (r : Reply × Ledger) → serve_fresh l principal room request now ≡ ok r
    → Moves l.tasks r.1.tasks
unfolding serve_fresh put_request put_usage
serve_fresh-Moves l principal room request now v r h =
    let usage = or_else (lookup room.id l.usages) no_usage in
    let (_, _, h1) = >>=-eq-ok (admit l room request.change now usage) _ h in
    let (done, e, h2) =
      >>=-eq-ok (serve_change l principal room request.request_id now usage request.change) _ h1 in
    subst (λ x. Moves l.tasks x.1.tasks) (ok-injective {E = Code} _ r h2)
      (serve_change-Moves l principal room request.request_id now usage v request.change done e)

pub serve_after-Moves :
    (l : Ledger) (principal : Principal) (room : Room) (request : Request) (now : ℕ)
    → Sound l.tasks
    → (o : Option Receipt) (r : Reply × Ledger) → serve_after l principal room request now o ≡ ok r
    → Moves l.tasks r.1.tasks
unfolding serve_after
serve_after-Moves l principal room request now v none r h =
    serve_fresh-Moves l principal room request now v r h
serve_after-Moves l principal room request now v (some existing) r h =
    elim (Bool-cases (same_fingerprint existing.fingerprint (fingerprint_of principal request))) [
      | inl same ↦
          subst (λ x. Moves l.tasks x.1.tasks)
            (ok-injective {E = Code} (existing.result, l) r (rw same at h)) stay
      | inr differs ↦ cc (rw differs at h)
    ]

pub local_control-Moves :
    (l : Ledger) (principal : Principal) (request : Request) (now : ℕ)
    → Sound l.tasks
    → (r : Reply × Ledger) → local_control l principal request now ≡ ok r
    → Moves l.tasks r.1.tasks
unfolding local_control
local_control-Moves l principal request now v r h =
    let (room, _, h1) = >>=-eq-ok (room_for l principal request.room_id _) _ h in
    serve_after-Moves l principal room request now v
      (lookup (room.id, request.request_id) l.requests) r h1

pub local_renew-Moves :
    (l : Ledger) (principal : Principal) (input : RenewInput) (now : ℕ)
    → Sound l.tasks
    → (r : Task × Ledger) → local_renew l principal input now ≡ ok r
    → Moves l.tasks r.1.tasks
unfolding local_renew
local_renew-Moves l principal input now v r h =
    let (room, _, h1) = >>=-eq-ok (room_for l principal input.room_id false) _ h in
    renew_task_ok l principal room input now v r h1
