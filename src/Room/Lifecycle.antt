-- ===== src/Room/Lifecycle.antt =====
-- packages/fleet-worker/src/room-tasks.mjs: the life of a task as a relation of legal changes of the stored tasks.
use fleet_for_agent.Base.{
  ℕ, ◌+◌, ◌≤◌, ◌≡◌, refl, sym, ap, subst, ◌∙◌, inl, inr, ◌⊎◌, ◌≢◌, Bool, true, false, ◌&&◌, none,
  some, if◌then◌else◌, arith, Bool-cases,
}
use fleet_for_agent.Base.Eq.{◌==◌, ==_iff, ne_of_==_false, string_eq, pair_eq}
use fleet_for_agent.Base.Assoc.{
  Assoc, Distinct, lookup, put, lookup-put_cases, lookup-put_self, lookup-put_ne, put-Distinct,
}
use fleet_for_agent.Room.Types.{
  Task, Status, queued, running, waiting, unknown, cancel_requested, completed, cancelled, failed,
}
use fleet_for_agent.Base.Keys.{pair_before}
use fleet_for_agent.Room.Ledger.{Pair, key_of}
use fleet_for_agent.Room.Tasks.{is_active, is_terminal, is_queued, is_running, is_unknown}

abbrev pub Tasks : Type 0
Tasks = Assoc Pair Task

-- The legal changes of a stored status.
abbrev pub is_legal : Status → Status → Bool
is_legal queued running = true
is_legal queued cancelled = true
is_legal running unknown = false
is_legal running _ = true
is_legal waiting queued = true
is_legal waiting cancelled = true
is_legal cancel_requested cancelled = true
is_legal _ _ = false

-- How many of its 64 events a task may have used, so that it can still be ended.
abbrev pub event_budget : Status → ℕ
event_budget queued = 63
event_budget running = 62
event_budget waiting = 60
event_budget cancel_requested = 63
event_budget _ = 64

pub record InBudget (t : Task) : Type 0 where
  pub stored : is_unknown t.status ≡ false
  pub events : t.event_count ≤ event_budget t.status

-- `t` is a later state of the task `s`.
pub record Follows (s t : Task) : Type 0 where
  pub legal : is_legal s.status t.status ≡ true
  pub id : t.id ≡ s.id
  pub room_id : t.room_id ≡ s.room_id
  pub requester_id : t.requester_id ≡ s.requester_id
  pub assignee_id : t.assignee_id ≡ s.assignee_id
  pub session_id : t.session_id ≡ s.session_id
  pub parent_task_id : t.parent_task_id ≡ s.parent_task_id
  pub device : t.resolved_device_id ≡ s.resolved_device_id
  pub epoch : t.execution_epoch ≡ (
      if is_queued s.status && is_running t.status
      then s.execution_epoch + 1
      else s.execution_epoch)
  pub events : s.event_count ≤ t.event_count

-- No other unfinished execution has the session of `t`.
abbrev pub Sole : Tasks → Task → Type 0
Sole m t =
    (k : Pair) (s : Task)
    → lookup k m ≡ some s
    → is_active s.status ≡ true
    → s.assignee_id ≡ t.assignee_id
    → s.session_id ≡ t.session_id
    → k ≡ key_of t

pub record Begins (m : Tasks) (t : Task) : Type 0 where
  pub absent : lookup (key_of t) m ≡ none
  pub status : t.status ≡ queued
  pub epoch : t.execution_epoch ≡ 0

pub record Admissible (m : Tasks) (t : Task) : Type 0 where
  pub budget : InBudget t
  pub before : Begins m t ⊎ ((s : Task) × (lookup (key_of t) m ≡ some s) × Follows s t)
  pub sole : is_active t.status ≡ true → Sole m t

abbrev pub store : Task → Tasks → Tasks
store t m = put pair_before (key_of t) t m

-- Legal changes, one after another.
pub data Moves (m : Tasks) : Tasks → Type 0 where
  stay : Moves m m
  next : {n : Tasks} → Moves m n → (t : Task) → Admissible n t → Moves m (store t n)

pub Moves-trans : {m n o : Tasks} → Moves m n → Moves n o → Moves m o
Moves-trans p stay = p
Moves-trans p (next q t a) = next (Moves-trans p q) t a

pub record Sound (m : Tasks) : Type 0 where
  pub distinct : Distinct m
  pub keyed : (k : Pair) (t : Task) → lookup k m ≡ some t → key_of t ≡ k
  pub budget : (k : Pair) (t : Task) → lookup k m ≡ some t → InBudget t
  pub exclusive :
      (j k : Pair) (s t : Task)
      → lookup j m ≡ some s
      → lookup k m ≡ some t
      → is_active s.status ≡ true
      → is_active t.status ≡ true
      → s.assignee_id ≡ t.assignee_id
      → s.session_id ≡ t.session_id
      → j ≡ k

-- What is stored at a key after a write: the new task at its own, and the old one elsewhere.
pub store_cases :
    (k : Pair) (s t : Task) (m : Tasks)
    → lookup k (store t m) ≡ some s
    → ((key_of t ≡ k) × (t ≡ s)) ⊎ ((key_of t ≢ k) × (lookup k m ≡ some s))
store_cases k s t m h = lookup-put_cases pair_before (key_of t) k t s m h

-- An execution that goes on has its session for itself, as it had before.
pub Sole-Follows :
    (m : Tasks) (s t : Task)
    → Sound m
    → lookup (key_of t) m ≡ some s
    → is_active s.status ≡ true
    → Follows s t
    → Sole m t
Sole-Follows m s t v found active f k r there live agent session =
    v.exclusive k (key_of t) r s there found live active (agent ∙ f.assignee_id)
      (session ∙ f.session_id)

module _ (m : Tasks) (t : Task) (v : Sound m) (a : Admissible m t) where
  keyed-store : (k : Pair) (s : Task) → lookup k (store t m) ≡ some s → key_of s ≡ k
  keyed-store k s h = elim (store_cases k s t m h) [
    | inl (here, same) ↦ ap key_of (sym same) ∙ here
    | inr (away, old) ↦ v.keyed k s old
  ]

  budget-store : (k : Pair) (s : Task) → lookup k (store t m) ≡ some s → InBudget s
  budget-store k s h = elim (store_cases k s t m h) [
    | inl (here, same) ↦ subst InBudget same a.budget
    | inr (away, old) ↦ v.budget k s old
  ]

  exclusive-store :
      (j k : Pair) (r s : Task)
      → lookup j (store t m) ≡ some r
      → lookup k (store t m) ≡ some s
      → is_active r.status ≡ true
      → is_active s.status ≡ true
      → r.assignee_id ≡ s.assignee_id
      → r.session_id ≡ s.session_id
      → j ≡ k
  exclusive-store j k r s hj hk live_r live_s agent session = elim (store_cases j r t m hj) [
    | inl (here_j, same_j) ↦ elim (store_cases k s t m hk) [
      | inl (here_k, same_k) ↦ sym here_j ∙ here_k
      | inr (away_k, old_k) ↦ sym here_j ∙ sym (a.sole (cc) k s old_k live_s (cc) (cc))
    ]
    | inr (away_j, old_j) ↦ elim (store_cases k s t m hk) [
      | inl (here_k, same_k) ↦ a.sole (cc) j r old_j live_r (cc) (cc) ∙ here_k
      | inr (away_k, old_k) ↦ v.exclusive j k r s old_j old_k live_r live_s agent session
    ]
  ]

  pub store-Sound : Sound (store t m)
  store-Sound = record {
    distinct = put-Distinct pair_before (key_of t) t m v.distinct;
    keyed = keyed-store;
    budget = budget-store;
    exclusive = exclusive-store;
  }

pub Moves-Sound : {m n : Tasks} → Sound m → Moves m n → Sound n
Moves-Sound v stay = v
Moves-Sound v (next {n} p t a) = store-Sound n t (Moves-Sound v p) a

-- `t` is `s` after some time: nothing that identifies it has changed, its execution epoch has
-- not gone back, and if it had ended it is the same.
pub record IsLater (s t : Task) : Type 0 where
  pub id : t.id ≡ s.id
  pub assignee_id : t.assignee_id ≡ s.assignee_id
  pub session_id : t.session_id ≡ s.session_id
  pub requester_id : t.requester_id ≡ s.requester_id
  pub parent_task_id : t.parent_task_id ≡ s.parent_task_id
  pub device : t.resolved_device_id ≡ s.resolved_device_id
  pub epoch : s.execution_epoch ≤ t.execution_epoch
  pub events : s.event_count ≤ t.event_count
  pub final : is_terminal s.status ≡ true → t ≡ s

pub IsLater-refl : (s : Task) → IsLater s s
IsLater-refl s = record {
  id = refl;
  assignee_id = refl;
  session_id = refl;
  requester_id = refl;
  parent_task_id = refl;
  device = refl;
  epoch = omega arith;
  events = omega arith;
  final = λ _. refl;
}

not_final : (s t : Status) → is_legal s t ≡ true → is_terminal s ≡ false
not_final completed t h = cc
not_final cancelled t h = cc
not_final failed t h = cc
not_final _ t h = refl

epoch_grows : (b : Bool) (n : ℕ) → n ≤ (if b then n + 1 else n)
epoch_grows b n = ground arith

pub IsLater-Follows : (s u t : Task) → IsLater s u → Follows u t → IsLater s t
IsLater-Follows s u t l f =
    let goes_on = not_final u.status t.status f.legal in
    let grows = epoch_grows (is_queued u.status && is_running t.status) u.execution_epoch in
    record {
      id = f.id ∙ l.id;
      assignee_id = f.assignee_id ∙ l.assignee_id;
      session_id = f.session_id ∙ l.session_id;
      requester_id = f.requester_id ∙ l.requester_id;
      parent_task_id = f.parent_task_id ∙ l.parent_task_id;
      device = f.device ∙ l.device;
      epoch = omega (arith, l.epoch, f.epoch, grows);
      events = omega (arith, l.events, f.events);
      final = λ ended. cc (l.final ended);
    }

follow_on :
    (s u t : Task) (n : Tasks)
    → IsLater s u
    → lookup (key_of t) n ≡ some u
    → Begins n t ⊎ ((r : Task) × (lookup (key_of t) n ≡ some r) × Follows r t)
    → IsLater s t
follow_on s u t n later found (inl begins) = cc (begins.absent)
follow_on s u t n later found (inr (r, at_t, f)) =
    let same : r ≡ u = cc in IsLater-Follows s u t later (subst (λ x. Follows x t) same f)

pub Moves-IsLater :
    {m n : Tasks} (k : Pair) (s : Task)
    → Sound m
    → lookup k m ≡ some s
    → Moves m n
    → (t : Task) × (lookup k n ≡ some t) × IsLater s t
Moves-IsLater k s v h stay = (s, h, IsLater-refl s)
Moves-IsLater k s v h (next {n} p t a) =
    let (u, at_k, later) = Moves-IsLater k s v h p in
    elim (Bool-cases (key_of t == k)) [
      | inl same ↦
          let here : key_of t ≡ k = (==_iff (key_of t) k).0 same in
          let at_t : lookup (key_of t) n ≡ some u = rw here at_k in
          (
            t,
            subst (λ x. lookup x (store t n) ≡ some t) here
                (lookup-put_self pair_before (key_of t) t n),
            follow_on s u t n later at_t a.before,
          )
      | inr differs ↦ (
        u,
        lookup-put_ne pair_before (key_of t) k t n (ne_of_==_false (key_of t) k differs) ∙ at_k,
        later,
      )
    ]
