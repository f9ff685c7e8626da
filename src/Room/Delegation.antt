-- ===== src/Room/Delegation.antt =====
-- packages/fleet-worker/src/room-tasks.mjs: what a new task and a renewed lease do to the stored tasks.
use fleet_for_agent.Base.{
  ℕ, ◌≡◌, refl, sym, subst, ◌∙◌, inl, inr, ◌⊎◌, String, true, false, Option, some, arith,
  Option-cases, ok, ok-injective, is_some,
}
use fleet_for_agent.Base.Eq.{string_eq, pair_eq}
use fleet_for_agent.Base.Assoc.{lookup}
use fleet_for_agent.Room.Types.{
  Principal, Room, Task, Message, Usage, DelegateInput, EventType, RenewInput, Code, running,
}
use fleet_for_agent.Room.Ledger.{Ledger, Pair, put_task, put_renewal}
use fleet_for_agent.Room.Tasks.{is_running, get_task, task_view, next_task, save_task}
use fleet_for_agent.Room.Messages.{new_task, delegate_task, parent_task}
use fleet_for_agent.Room.Execution.{renew_task, renewed_task}
use fleet_for_agent.Room.Lifecycle.{InBudget, Follows, Admissible, Moves, stay, store, Sound}
use fleet_for_agent.Room.Writes.{save_task_ok}
use fleet_for_agent.Room.Progress.{follow-Admissible, running_view}

module _ (l : Ledger) (principal : Principal) (room : Room) (request_id : String)
    (input : DelegateInput) (now : ℕ) (usage : Usage) (message : Option Message)
    (v : Sound l.tasks) where
  delegate_fresh :
      (r : Task × Usage × Ledger)
      → delegate_task l principal room request_id input now usage message ≡ ok r
      → (is_some (lookup (room.id, request_id) l.tasks) ≡ false)
        × ((above : Option Task) × (parent_task l principal room input.parent_task_id now
              ≡ ok above))
  unfolding delegate_task
  delegate_fresh r h = ground arith

  delegate_saved :
      (r : Task × Usage × Ledger) (above : Option Task)
      → delegate_task l principal room request_id input now usage message ≡ ok r
      → parent_task l principal room input.parent_task_id now ≡ ok above
      → save_task l
          (new_task principal room request_id input now message above)
          EventType.delegated
          principal
          now
        ≡ ok (r.0, r.2)
  unfolding delegate_task
  delegate_saved r above h e = ground (arith, e)

  new-Admissible :
      (above : Option Task)
      → is_some (lookup (room.id, request_id) l.tasks) ≡ false
      → Admissible l.tasks
          (next_task (new_task principal room request_id input now message above) now)
  new-Admissible above fresh = record {
    budget = record { stored = refl; events = omega arith };
    before = inl (record { absent = ground (arith, fresh); status = refl; epoch = refl });
    sole = λ live. cc live;
  }

  pub delegate_task_ok :
      (r : Task × Usage × Ledger)
      → delegate_task l principal room request_id input now usage message ≡ ok r
      → Moves l.tasks r.2.tasks
  delegate_task_ok r h =
      let (fresh, (above, e)) = delegate_fresh r h in
      (save_task_ok l (new_task principal room request_id input now message above)
        EventType.delegated principal now v (new-Admissible above fresh) (r.0, r.2)
        (delegate_saved r above h e)).moves

pub get_task_inv :
    (l : Ledger) (room_id task_id : String) (now : ℕ) (t : Task)
    → get_task l room_id task_id now ≡ ok t
    → (s : Task) × (lookup (room_id, task_id) l.tasks ≡ some s) × (t ≡ task_view s now)
unfolding get_task
get_task_inv l room_id task_id now t h = elim (Option-cases (lookup (room_id, task_id) l.tasks)) [
  | inl missing ↦ cc (rw (missing, get_task) at h)
  | inr (s, found) ↦ (s, found, sym (ok-injective {E = Code} _ _ (rw (found, get_task) at h)))
]

module _ (l : Ledger) (principal : Principal) (room : Room) (input : RenewInput) (now : ℕ)
    (v : Sound l.tasks) where
  renew_inv :
      (r : Task × Ledger)
      → renew_task l principal room input now ≡ ok r
      → (t : Task) × (get_task l room.id input.task_id now ≡ ok t)
  unfolding renew_task
  renew_inv r h = ground arith

  renew_writes :
      (r : Task × Ledger) (t : Task)
      → renew_task l principal room input now ≡ ok r
      → get_task l room.id input.task_id now ≡ ok t
      → (r.1.tasks ≡ l.tasks)
        ⊎ ((is_running t.status ≡ true)
            × (r.1.tasks ≡ store (renewed_task room t input now) l.tasks))
  unfolding renew_task put_task put_renewal
  renew_writes r t h e = ground (arith, e)

  renewed-Admissible :
      (k : Pair) (s : Task)
      → lookup k l.tasks ≡ some s
      → s.status ≡ running
      → Admissible l.tasks (renewed_task room s input now)
  renewed-Admissible k s stored runs =
      let follows : Follows s (renewed_task room s input now) = ground (arith, runs) in
      let old = v.budget k s stored in
      let fits : InBudget (renewed_task room s input now) = record {
        stored = old.stored;
        events = old.events;
      } in
      follow-Admissible l.tasks k s (renewed_task room s input now) v stored follows fits
        (λ live. live)

  pub renew_task_ok :
      (r : Task × Ledger) → renew_task l principal room input now ≡ ok r → Moves l.tasks r.1.tasks
  renew_task_ok r h =
      let (t, e) = renew_inv r h in
      let (s, stored, view) = get_task_inv l room.id input.task_id now t e in
      elim (renew_writes r t h e) [
        | inl same ↦ rw same stay
        | inr (runs, writes) ↦
            let (seen, going) =
              running_view s now (subst (λ x. is_running x.status ≡ true) view runs) in
            let same : t ≡ s = view ∙ seen in
            rw writes (
              rw same (
                Moves.next stay (renewed_task room s input now)
                  (renewed-Admissible (room.id, input.task_id) s stored going)))
      ]
