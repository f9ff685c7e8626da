-- ===== src/Examples/Rooms.antt =====
-- packages/fleet-worker/src/room-control.mjs and room-tasks.mjs on a Room of two Agents.
use fleet_for_agent.Base.{
  ℕ, ◌≤◌, ◌≡◌, ◌≢◌, refl, inl, Bool, true, false, none, some, [], ◌∷◌, arith, ok, err, In,
}
use fleet_for_agent.Base.Eq.{string_eq, pair_eq}
use fleet_for_agent.Base.Assoc.{lookup, put}
use fleet_for_agent.Base.Text.{is_id}
use fleet_for_agent.Room.Types.{
  user, agent, Principal, runtime, Agent, Room, Task, queued, task_kind, room_default, Change,
  claim, cancel, Request, Reply, Code, Try,
}
use fleet_for_agent.Room.Ledger.{Ledger, Pair, key_of, room_tasks, all_tasks}
use fleet_for_agent.Room.Registry.{id, found, agent_view}
use fleet_for_agent.Room.Rooms.{includes, change_room, remove}
use fleet_for_agent.Room.Tasks.{task_view, save_task}
use fleet_for_agent.Room.Execution.{claim_task, cancel_task, may_cancel, is_settled}
use fleet_for_agent.Room.Control.{serve_after, fingerprint_of, is_stop}
use fleet_for_agent.Room.Authority.{change, room_control}
use fleet_for_agent.Room.Lifecycle.{Tasks, Moves, Sound, store-Sound, IsLater}
use fleet_for_agent.Room.Claims.{Claimed, claim_task_ok}
use fleet_for_agent.Room.Cancellation.{SettledAt}
use fleet_for_agent.Room.Subtree.{Descends, cancel_task_total}
use fleet_for_agent.Room.Receipts.{serve, serve_again, serve_other}
use fleet_for_agent.Room.Members.{IsStaffed, change_room-IsStaffed}
use fleet_for_agent.Room.Hidden.{aims_at, hidden_room}
use fleet_for_agent.Room.Guarantees.{Call, run, room_control-Moves, run-Sound, run-IsLater}

abbrev ann : Agent
ann = record {
  id = "ann";
  name = "Ann";
  mode = runtime;
  capacity = 2;
  can_create_rooms = false;
  created_at = 0;
  updated_at = 0;
  last_seen = some 100;
}

abbrev lab : Room
lab = record {
  id = "lab";
  name = "Lab";
  leader_id = "ann";
  member_ids = "ann" ∷ "bob" ∷ [];
  default_device_id = "pc";
  membership_version = 1;
  config_version = 1;
  control_epoch = 1;
  paused = false;
  created_at = 0;
  updated_at = 0;
}

abbrev job : Task
job = record {
  id = "job";
  room_id = "lab";
  requester_id = "owner";
  requester_kind = user;
  kind = task_kind;
  message_id = none;
  discussion_id = none;
  assignee_id = "ann";
  session_id = "s1";
  description = "build";
  completion_criteria = "green";
  parent_task_id = none;
  depth = 0;
  resolved_device_id = "pc";
  device_source = room_default;
  config_version = 1;
  status = queued;
  execution_epoch = 0;
  renewal_seq = 0;
  lease_expires_at = none;
  control_epoch = 1;
  event_count = 1;
  created_at = 50;
  updated_at = 50;
  resume = none;
  checkpoint = none;
  result = none;
  error = none;
}

abbrev job_tasks : Tasks
job_tasks = (("lab", "job"), job) ∷ []

abbrev start : Ledger
start = record {
  agents = ("ann", ann) ∷ [];
  rooms = ("lab", lab) ∷ [];
  tasks = job_tasks;
  events = [];
  messages = [];
  discussions = [];
  usages = [];
  requests = [];
  renewals = [];
}

abbrev as_ann : Principal
as_ann = record { kind = agent; id = "ann"; room_id = none }

abbrev as_owner : Principal
as_owner = record { kind = user; id = "owner"; room_id = none }

abbrev claim_job : Request
claim_job = record { room_id = "lab"; request_id = "r1"; change = claim "job" none }

abbrev cancel_job : Request
cancel_job = record { room_id = "lab"; request_id = "r2"; change = cancel "job" }

nothing_stored : (k : Pair) (t : Task) → lookup k [] ≡ some t → ⊥
unfolding lookup
nothing_stored k t h = cc

empty-Sound : Sound []
empty-Sound = record {
  distinct = tt;
  keyed = λ k t h. absurd (nothing_stored k t h);
  budget = λ k t h. absurd (nothing_stored k t h);
  exclusive = λ j k s t h _ _ _ _ _. absurd (nothing_stored j s h);
}

job-Sound : Sound start.tasks
unfolding lookup put
job-Sound = store-Sound [] job empty-Sound (record {
  budget = record { stored = refl; events = omega arith };
  before = inl (record { absent = refl; status = refl; epoch = refl });
  sole = λ live. cc live;
})

job_stored : lookup ("lab", "job") start.tasks ≡ some job
unfolding lookup
job_stored = refl

abbrev claim_call : Call
claim_call = record { caller = as_ann; action = change claim_job; now = 120 }

abbrev cancel_call : Call
cancel_call = record { caller = as_owner; action = change cancel_job; now = 130 }

room_control-Moves_example :
    Moves start.tasks (room_control start as_ann (change claim_job) 120).1.tasks
room_control-Moves_example = room_control-Moves start as_ann 120 (change claim_job) job-Sound

run-Sound_example : Sound (run start (claim_call ∷ cancel_call ∷ [])).tasks
run-Sound_example = run-Sound start (claim_call ∷ cancel_call ∷ []) job-Sound

run-IsLater_example :
    (t : Task) × (lookup ("lab", "job") (run start (claim_call ∷ cancel_call ∷ [])).tasks ≡ some t)
    × IsLater job t
run-IsLater_example =
    run-IsLater start (claim_call ∷ cancel_call ∷ []) ("lab", "job") job job-Sound job_stored

-- What an operation returns here.
abbrev value : {A : Type 0} → A → Try A → A
value other (ok a) = a
value other (err code) = other

abbrev job_claimed : Task × Ledger
unfolding claim_task
job_claimed = value (job, start) (claim_task start as_ann lab (task_view job 120) none 120)

claim_runs : claim_task start as_ann lab (task_view job 120) none 120 ≡ ok job_claimed
unfolding claim_task task_view job_claimed lookup put id is_id found agent_view all_tasks save_task
claim_runs = refl

claim_task_ok_example : Claimed start as_ann lab job none 120 job_claimed
claim_task_ok_example =
    claim_task_ok start as_ann lab ("lab", "job") job none 120 job-Sound job_stored job_claimed
      claim_runs

owner_may_cancel : may_cancel as_owner lab job ≡ true
unfolding may_cancel
owner_may_cancel = refl

job_unsettled : is_settled job.status ≡ false
job_unsettled = refl

cancel_task_total_example :
    (done : Task × Ledger) × (cancel_task start as_owner lab job 130 ≡ ok done)
    × Moves start.tasks done.1.tasks
    × ((t : Task) (n : ℕ)
        → In t (room_tasks "lab" start.tasks)
        → Descends (room_tasks "lab" start.tasks) "job" n t.id
        → n ≤ 9
        → SettledAt done.1.tasks (key_of t))
cancel_task_total_example =
    cancel_task_total start as_owner lab job 130 job-Sound owner_may_cancel job_unsettled

abbrev none_served : Reply
none_served = record { task = none; message = none; context_rev = none }

abbrev claim_served : Reply × Ledger
unfolding serve_after
claim_served = value (none_served, start) (serve start as_ann lab claim_job 120)

serve_runs : serve start as_ann lab claim_job 120 ≡ ok claim_served
unfolding serve_after claim_served lookup put claim_task id is_id found agent_view all_tasks
    save_task
serve_runs = refl

serve_again_example : serve claim_served.1 as_ann lab claim_job 999 ≡ ok claim_served
serve_again_example = serve_again start as_ann lab claim_job 120 999 claim_served serve_runs

abbrev cancel_again : Request
cancel_again = record { room_id = "lab"; request_id = "r1"; change = cancel "job" }

is_claim : Change → Bool
is_claim (claim task_id lease) = true
is_claim _ = false

not_the_same : fingerprint_of as_ann claim_job ≢ fingerprint_of as_owner cancel_again
unfolding is_claim
not_the_same same = cc same

serve_other_example :
    serve claim_served.1 as_owner lab cancel_again 999 ≡ err Code.idempotency_conflict
serve_other_example =
    serve_other start as_ann lab claim_job 120 999 claim_served as_owner cancel_again serve_runs
      refl not_the_same

lab-IsStaffed : IsStaffed lab
lab-IsStaffed = record { leads = refl; few = omega arith }

abbrev lab_of_bob : Room
lab_of_bob = record lab {
  leader_id = "bob";
  member_ids = "bob" ∷ [];
  membership_version = 2;
  control_epoch = 2;
  updated_at = 200;
}

ann_leaves : change_room start lab (remove "ann" (some "bob")) 200 ≡ ok (some lab_of_bob)
unfolding change_room is_id
ann_leaves = refl

change_room-IsStaffed_example : IsStaffed lab_of_bob
change_room-IsStaffed_example =
    change_room-IsStaffed start lab lab_of_bob 200 lab-IsStaffed (remove "ann" (some "bob"))
      ann_leaves

abbrev as_eve : Principal
as_eve = record { kind = agent; id = "eve"; room_id = none }

-- Eve is an Agent of the account, and no member of the lab.
abbrev with_eve : Ledger
with_eve = record start {
  agents = ("ann", ann) ∷ ("eve", record ann { id = "eve"; name = "Eve" }) ∷ [];
}

lab_stored : lookup "lab" with_eve.rooms ≡ some lab
unfolding lookup
lab_stored = refl

eve_outside : includes lab.member_ids as_eve.id ≡ false
eve_outside = refl

eve_claims : aims_at "lab" (change claim_job) ≡ true
unfolding is_stop
eve_claims = refl

eve_refused : (room_control with_eve as_eve (change claim_job) 120).0 ≡ err Code.room_not_found
unfolding room_control lookup is_id
eve_refused = refl

hidden_room_example :
    (room_control with_eve as_eve (change claim_job) 120).0
    ≡ (room_control (record with_eve { rooms = [] }) as_eve (change claim_job) 120).0
unfolding fleet_for_agent.Base.Assoc.remove
hidden_room_example =
    hidden_room with_eve as_eve "lab" lab refl eve_outside lab_stored (change claim_job) 120
      eve_claims
