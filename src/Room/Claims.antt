-- ===== src/Room/Claims.antt =====
-- packages/fleet-worker/src/room-tasks.mjs, claim: what a claim needs of the store, and what it does to it.
use fleet_for_agent.Base.{
  ℕ, ◌+◌, ◌<◌, ◌≡◌, refl, sym, ap, ◌∙◌, inl, inr, ◌⊎◌, ◌≢◌, String, true, false, ◌&&◌, Option, some,
  arith, Bool-cases, ok, any, length, map-In, filter-In, any-In, or_else,
}
use fleet_for_agent.Base.Eq.{◌==◌, ==_iff, string_eq, pair_eq}
use fleet_for_agent.Base.Assoc.{lookup, In-lookup}
use fleet_for_agent.Room.Types.{
  Principal, Agent, Room, Task, EventType, Status, Kind, agent, queued, running, unknown,
}
use fleet_for_agent.Room.Ledger.{Ledger, Pair, all_tasks}
use fleet_for_agent.Room.Registry.{agent_record, agent_view, is_user}
use fleet_for_agent.Room.Tasks.{
  is_active, is_queued, is_running, task_view, is_expired, next_task, save_task, executor_only,
}
use fleet_for_agent.Room.Execution.{active_tasks, claimed_task, claim_task, default_lease}
use fleet_for_agent.Room.Lifecycle.{Tasks, Admissible, Sole, Sound}
use fleet_for_agent.Room.Writes.{Saves, save_task_ok, save_task_limit}

-- How a stored task is seen: its status is `unknown` once its lease has run out.
pub view_cases :
    (s : Task) (now : ℕ)
    → (task_view s now ≡ s)
      ⊎ ((s.status ≡ running)
          × (is_expired s.lease_expires_at now ≡ true)
          × (task_view s now ≡ record s { status = unknown }))
unfolding task_view
view_cases s now = elim (Bool-cases (is_running s.status && is_expired s.lease_expires_at now)) [
  | inl late ↦ inr (ground (arith, late), ground (arith, late), rw late)
  | inr fine ↦ inl (rw fine)
]

module _ (l : Ledger) (t : Task) (agent_id : String) where
  busy_session :
      (k : Pair) (s : Task)
      → lookup k l.tasks ≡ some s
      → is_active s.status ≡ true
      → s.assignee_id ≡ agent_id
      → s.session_id ≡ t.session_id
      → any (λ x. x.session_id == t.session_id) (active_tasks l agent_id) ≡ true
  unfolding active_tasks all_tasks
  busy_session k s h live mine session =
      any-In (λ x. x.session_id == t.session_id)
        (filter-In (λ x. x.assignee_id == agent_id && is_active x.status)
          (map-In (λ e. e.1) (In-lookup k s l.tasks h))
          (ground (arith, ==_iff s.assignee_id agent_id)))
        ((==_iff s.session_id t.session_id).1 session)

-- What is true of a claim that succeeded, of the stored task `s`.
pub record Claimed (l : Ledger) (principal : Principal) (room : Room) (s : Task) (lease : Option ℕ)
    (now : ℕ) (r : Task × Ledger) : Type 0 where
  pub waiting_in_queue : s.status ≡ queued
  pub by_assignee : (principal.kind ≡ agent) × (principal.id ≡ s.assignee_id)
  pub open_room : room.paused ≡ false
  pub free_session :
      (k : Pair) (x : Task)
      → lookup k l.tasks ≡ some x
      → is_active x.status ≡ true
      → x.assignee_id ≡ s.assignee_id
      → x.session_id ≢ s.session_id
  pub has_capacity :
      (a : Agent) × (agent_record l principal.id ≡ ok a)
      × ((agent_view a now).callable ≡ true)
      × (length (active_tasks l principal.id) < a.capacity)
  pub epoch : r.0.execution_epoch ≡ s.execution_epoch + 1
  pub leased : r.0.lease_expires_at ≡ some (now + or_else lease default_lease)
  pub saves : Saves l.tasks (claimed_task room s lease now) now r

is_queued_iff : (s : Status) → is_queued s ≡ true → s ≡ queued
is_queued_iff s h = ground arith

claimed-Admissible :
    (m : Tasks) (k : Pair) (room : Room) (s : Task) (lease : Option ℕ) (now : ℕ)
    → Sound m
    → lookup k m ≡ some s
    → s.status ≡ queued
    → s.event_count < 62
    → Sole m s
    → Admissible m (next_task (claimed_task room s lease now) now)
unfolding claimed_task
claimed-Admissible m k room s lease now v h is_free few sole = record {
  budget = record { stored = refl; events = omega arith };
  before = inr (
    s,
    rw (v.keyed k s h) h,
    record {
      legal = rw is_free;
      id = refl;
      room_id = refl;
      requester_id = refl;
      assignee_id = refl;
      session_id = refl;
      parent_task_id = refl;
      device = refl;
      epoch = rw is_free;
      events = omega arith;
    },
  );
  sole = λ _ q x at_q live agent session. sole q x at_q live agent session;
}

module _ (l : Ledger) (principal : Principal) (room : Room) (s : Task) (lease : Option ℕ)
    (now : ℕ) where
  claim_inv :
      (r : Task × Ledger)
      → claim_task l principal room s lease now ≡ ok r
      → (is_user principal.kind ≡ false)
        × ((principal.id == s.assignee_id) ≡ true)
        × (room.paused ≡ false)
        × (is_queued s.status ≡ true)
        × (any (λ t. t.session_id == s.session_id) (active_tasks l principal.id) ≡ false)
        × (save_task l (claimed_task room s lease now) EventType.claimed principal now ≡ ok r)
  unfolding claim_task executor_only
  claim_inv r h = ground arith

  claim_agent :
      (r : Task × Ledger)
      → claim_task l principal room s lease now ≡ ok r
      → (a : Agent) × (agent_record l principal.id ≡ ok a)
        × ((agent_view a now).callable ≡ true)
        × (length (active_tasks l principal.id) < a.capacity)
  unfolding claim_task executor_only
  claim_agent r h = ground arith

is_agent_iff : (kind : Kind) → is_user kind ≡ false → kind ≡ agent
is_agent_iff kind h = ground arith

module _ (l : Ledger) (principal : Principal) (room : Room) (k : Pair) (s : Task) (lease : Option ℕ)
    (now : ℕ) (v : Sound l.tasks) (stored : lookup k l.tasks ≡ some s) where
  -- A claim succeeds only for the assigned Agent, with a live runtime and capacity left, on a
  -- queued task of a Room that is not paused, whose session has no unfinished execution in any
  -- Room; it starts the next execution epoch with a new lease.
  claim_stored :
      (r : Task × Ledger)
      → claim_task l principal room s lease now ≡ ok r
      → Claimed l principal room s lease now r
  unfolding claimed_task
  claim_stored r h =
      let (not_user, mine, unpaused, in_queue, free, saved) =
        claim_inv l principal room s lease now r h in
      let waits = is_queued_iff s.status in_queue in
      let by_me = (==_iff principal.id s.assignee_id).0 mine in
      let limit =
        save_task_limit l (claimed_task room s lease now) EventType.claimed principal now r saved in
      let alone =
        λ (q : Pair) (x : Task) (at_q : lookup q l.tasks ≡ some x)
            (live : is_active x.status ≡ true) (holder : x.assignee_id ≡ s.assignee_id)
            (session : x.session_id ≡ s.session_id).
          absurd {A = ⊥}
            (cc (busy_session l s principal.id q x at_q live (holder ∙ sym by_me) session, free)) in
      let admissible =
        claimed-Admissible l.tasks k room s lease now v stored waits limit
          (λ q x at_q live holder session. absurd (alone q x at_q live holder session)) in
      let saves =
        save_task_ok l (claimed_task room s lease now) EventType.claimed principal now v admissible
          r saved in
      record {
        waiting_in_queue = waits;
        by_assignee = (is_agent_iff principal.kind not_user, by_me);
        open_room = unpaused;
        free_session = λ q x at_q live holder session. alone q x at_q live holder session;
        has_capacity = claim_agent l principal room s lease now r h;
        epoch = ap (λ t. t.execution_epoch) saves.reply;
        leased = ap (λ t. t.lease_expires_at) saves.reply;
        saves = saves;
      }

  -- A claim that succeeds, of a stored task as it is seen, was of a queued task, by its
  -- assignee, in a Room that is not paused, with no active task of that assignee in the same
  -- session and with capacity left; it starts the next execution epoch with a new lease
  -- (`Claimed`). The store was sound.
  pub claim_task_ok :
      (r : Task × Ledger)
      → claim_task l principal room (task_view s now) lease now ≡ ok r
      → Claimed l principal room s lease now r
  claim_task_ok r h = elim (view_cases s now) [
    | inl same ↦ claim_stored r (rw same at h)
    | inr (_, _, late) ↦
        let (_, _, _, in_queue, _, _) =
          claim_inv l principal room (record s { status = unknown }) lease now r (rw late at h) in
        cc in_queue
  ]
