-- ===== src/Room/Completion.antt =====
-- packages/fleet-worker/src/room-tasks.mjs: the completion of a task, and the message that answers it.
use fleet_for_agent.Base.{
  ℕ, ◌≡◌, refl, subst, inl, inr, String, true, Option, none, some, arith, ok, Result-cases, or_else,
}
use fleet_for_agent.Base.Eq.{string_eq, pair_eq}
use fleet_for_agent.Base.Assoc.{lookup}
use fleet_for_agent.Room.Types.{
  Principal, Room, Task, EventType, Usage, Reply, SendInput, TaskKind, task_kind, message_kind,
  completed,
}
use fleet_for_agent.Room.Ledger.{Ledger, Pair, put_message, put_discussion}
use fleet_for_agent.Room.Tasks.{is_running, task_view, next_task, save_task}
use fleet_for_agent.Room.Messages.{Sent, send_message}
use fleet_for_agent.Room.Execution.{complete_task, answer}
use fleet_for_agent.Room.Lifecycle.{Follows, Moves, Sound}
use fleet_for_agent.Room.Writes.{save_task_ok}
use fleet_for_agent.Room.Progress.{follow-Admissible, running_view, running_budget}

pub send_keeps_tasks :
    (l : Ledger) (principal : Principal) (now : ℕ) (room_id request_id : String) (input : SendInput)
    (usage : Usage) (sent : Sent)
    → send_message l principal room_id request_id input now usage ≡ ok sent
    → sent.ledger.tasks ≡ l.tasks
unfolding send_message put_message put_discussion
send_keeps_tasks l principal now room_id request_id input usage sent h = ground arith

module _ (l : Ledger) (principal : Principal) (k : Pair) (s : Task) (now : ℕ) (v : Sound l.tasks)
    (stored : lookup k l.tasks ≡ some s) where
  abbrev after_answer : Option Sent → Ledger
  after_answer none = l
  after_answer (some sent) = sent.ledger

  answer_keeps_tasks :
      (room : Room) (request_id : String) (t : Task) (text : String) (rev : Option ℕ)
      (usage : Usage) (kind : TaskKind) (sent : Option Sent)
      → answer l principal room request_id t text rev now usage kind ≡ ok sent
      → (after_answer sent).tasks ≡ l.tasks
  unfolding answer
  answer_keeps_tasks room request_id t text rev usage task_kind sent h = ground arith
  answer_keeps_tasks room request_id t text none usage message_kind sent h = cc
  answer_keeps_tasks room request_id t text (some rev) usage message_kind none h = refl
  answer_keeps_tasks room request_id t text (some rev) usage message_kind (some sent) h = ground (
    arith,
    send_keeps_tasks l principal now room.id request_id
        (record {
          discussion_id = or_else t.discussion_id "";
          expected_context_rev = rev;
          text = text;
          to_agent_id = none;
        })
        usage sent,
  )

  complete_runs :
      (room : Room) (request_id : String) (t : Task) (text : String) (rev : Option ℕ)
      (usage : Usage) (r : Reply × Usage × Ledger)
      → complete_task l principal room request_id t text rev now usage ≡ ok r
      → is_running t.status ≡ true
  unfolding complete_task
  complete_runs room request_id t text rev usage r h = ground arith

  abbrev completed_task : Task → String → Task
  completed_task t text = record t {
    status = completed;
    lease_expires_at = none;
    result = some text;
  }

  complete_saved :
      (room : Room) (request_id : String) (t : Task) (text : String) (rev : Option ℕ)
      (usage : Usage) (r : Reply × Usage × Ledger) (sent : Option Sent)
      → complete_task l principal room request_id t text rev now usage ≡ ok r
      → answer l principal room request_id t text rev now usage t.kind ≡ ok sent
      → (saved : Task × Ledger) × (save_task
            (after_answer sent)
            (completed_task t text)
            EventType.completed
            principal
            now
          ≡ ok saved)
        × (r.2 ≡ saved.1)
  unfolding complete_task
  complete_saved room request_id t text rev usage r sent h e =
      elim (Result-cases
        (save_task (after_answer sent) (completed_task t text) EventType.completed principal now)) [
          | inl (saved, q) ↦ (saved, q, ground (arith, q, e))
          | inr (code, q) ↦ absurd (ground (arith, q, e))
        ]

  complete_answered :
      (room : Room) (request_id : String) (t : Task) (text : String) (rev : Option ℕ)
      (usage : Usage) (r : Reply × Usage × Ledger)
      → complete_task l principal room request_id t text rev now usage ≡ ok r
      → (sent : Option Sent) × (answer l principal room request_id t text rev now usage t.kind
          ≡ ok sent)
  unfolding complete_task
  complete_answered room request_id t text rev usage r h = ground arith

  pub complete_task_ok :
      (room : Room) (request_id text : String) (rev : Option ℕ) (usage : Usage)
      (r : Reply × Usage × Ledger)
      → complete_task l principal room request_id (task_view s now) text rev now usage ≡ ok r
      → Moves l.tasks r.2.tasks
  complete_task_ok room request_id text rev usage r h0 =
      let (same, e) =
        running_view s now (complete_runs room request_id (task_view s now) text rev usage r h0) in
      let h : complete_task l principal room request_id s text rev now usage ≡ ok r =
        rw same at h0 in
      let (sent, answered) = complete_answered room request_id s text rev usage r h in
      let (saved, q, final) = complete_saved room request_id s text rev usage r sent h answered in
      let kept = answer_keeps_tasks room request_id s text rev usage s.kind sent answered in
      let next = next_task (completed_task s text) now in
      let few = running_budget l principal k s now v stored e in
      let follows : Follows s next = ground (arith, e) in
      let sound : Sound (after_answer sent).tasks = rw kept v in
      let found : lookup k (after_answer sent).tasks ≡ some s = rw kept stored in
      let moves =
        (save_task_ok (after_answer sent) (completed_task s text) EventType.completed principal now
          sound
          (follow-Admissible (after_answer sent).tasks k s next sound found follows
            (record { stored = refl; events = omega (arith, few) }) (λ live. cc live))
          saved q).moves in
      subst (λ m. Moves m r.2.tasks) kept (rw final moves)
