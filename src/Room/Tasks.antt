-- ===== src/Room/Tasks.antt =====
-- packages/fleet-worker/src/room-tasks.mjs: how a task is seen and how a change of it is written.
use fleet_for_agent.Base.{
  ℕ, ◌+◌, ◌-◌, String, Bool, true, false, not, ◌&&◌, ◌||◌, Option, none, some, List, ok, err, ◌>>=◌,
  ◌>>◌, reject_if, ltb, leb, all, filter, if◌then◌else◌,
}
use fleet_for_agent.Base.Eq.{◌==◌, string_eq, pair_eq}
use fleet_for_agent.Base.Assoc.{lookup}
use fleet_for_agent.Room.Types.{
  Principal, Status, queued, running, waiting, unknown, cancel_requested, completed, cancelled,
  failed, Task, Event, EventType, Try, forbidden, task_not_found, execution_conflict, event_limit,
}
use fleet_for_agent.Room.Ledger.{Ledger, put_task, put_event, room_tasks}
use fleet_for_agent.Room.Registry.{is_user}

abbrev pub max_events : ℕ
max_events = 64

-- `ACTIVE.has(status)`
abbrev pub is_active : Status → Bool
is_active running = true
is_active cancel_requested = true
is_active unknown = true
is_active _ = false

-- `TERMINAL.has(status)`
abbrev pub is_terminal : Status → Bool
is_terminal completed = true
is_terminal cancelled = true
is_terminal failed = true
is_terminal _ = false

abbrev pub is_queued : Status → Bool
is_queued queued = true
is_queued _ = false

abbrev pub is_running : Status → Bool
is_running running = true
is_running _ = false

abbrev pub is_waiting : Status → Bool
is_waiting waiting = true
is_waiting _ = false

abbrev pub is_unknown : Status → Bool
is_unknown unknown = true
is_unknown _ = false

abbrev pub is_cancel_requested : Status → Bool
is_cancel_requested cancel_requested = true
is_cancel_requested _ = false

-- `leaseExpiresAt <= now`, where null counts as 0.
unfoldable pub is_expired : Option ℕ → ℕ → Bool
is_expired none now = true
is_expired (some t) now = leb t now

unfoldable pub task_view : Task → ℕ → Task
unfolding is_expired
task_view task now =
    if is_running task.status && is_expired task.lease_expires_at now
    then record task { status = unknown }
    else task

unfoldable pub view_found : Option Task → ℕ → Try Task
unfolding task_view
view_found none now = err task_not_found
view_found (some task) now = ok (task_view task now)

unfoldable pub get_task : Ledger → String → String → ℕ → Try Task
unfolding view_found
get_task l room_id task_id now = view_found (lookup (room_id, task_id) l.tasks) now

unfoldable pub executor_only : Principal → Task → Try (Unit {0})
executor_only principal task =
    reject_if (is_user principal.kind || not (principal.id == task.assignee_id)) forbidden

unfoldable pub epoch_matches : Task → ℕ → Try (Unit {0})
epoch_matches task epoch =
    reject_if (ltb task.execution_epoch epoch || ltb epoch task.execution_epoch) execution_conflict

abbrev pub event_room : EventType → ℕ
event_room EventType.claimed = max_events - 2
event_room _ = max_events

abbrev pub next_task : Task → ℕ → Task
next_task task now = record task { event_count = task.event_count + 1; updated_at = now }

abbrev pub event_of : Task → EventType → Principal → ℕ → Event
event_of next type principal now = record {
  task_id = next.id;
  room_id = next.room_id;
  seq = next.event_count;
  type = type;
  actor_id = principal.id;
  actor_kind = principal.kind;
  execution_epoch = next.execution_epoch;
  status = next.status;
  created_at = now;
}

-- The part of `saveTask` above its last test: the event and the task are written.
unfoldable pub write_task : Ledger → Task → EventType → Principal → ℕ → Try (Task × Ledger)
write_task l task type principal now = do
  reject_if (leb (event_room type) task.event_count) event_limit
  let next = next_task task now
  ok (next, put_task next (put_event (event_of next type principal now) l))

abbrev pub is_child_of : String → Task → Bool
is_child_of parent_id t = elim t.parent_task_id [ none ↦ false | some p ↦ p == parent_id ]

unfoldable pub child_tasks : Ledger → Task → List Task
child_tasks l task = filter (is_child_of task.id) (room_tasks task.room_id l.tasks)

abbrev pub all_terminal : List Task → Bool
all_terminal ts = all (λ t. is_terminal t.status) ts

-- A queued task is not terminal, so `saveTask` of the parent resumes nobody else.
unfoldable pub resume_found : Ledger → Option Task → Principal → ℕ → Try Ledger
unfolding write_task child_tasks
resume_found l none principal now = ok l
resume_found l (some parent) principal now =
    if not (is_waiting parent.status)
    then ok l
    else if not (all_terminal (child_tasks l parent))
    then ok l
    else do
      saved ←
          write_task l (record parent { status = queued; resume = some true }) EventType.resumed
            principal now
      ok saved.1

unfoldable pub resume_parent : Ledger → Task → String → Principal → ℕ → Try Ledger
unfolding resume_found
resume_parent l child parent_id principal now =
    resume_found l (lookup (child.room_id, parent_id) l.tasks) principal now

unfoldable pub resume_after : Ledger → Task → Option String → Principal → ℕ → Try Ledger
unfolding resume_parent
resume_after l next none principal now = ok l
resume_after l next (some parent_id) principal now =
    if is_terminal next.status then resume_parent l next parent_id principal now else ok l

unfoldable pub save_task : Ledger → Task → EventType → Principal → ℕ → Try (Task × Ledger)
unfolding write_task resume_after
save_task l task type principal now = do
  saved ← write_task l task type principal now
  resumed ← resume_after saved.1 saved.0 saved.0.parent_task_id principal now
  ok (saved.0, resumed)
