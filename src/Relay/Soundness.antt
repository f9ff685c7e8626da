-- ===== src/Relay/Soundness.antt =====
-- packages/fleet-room/relay.mjs: what holds of the relay between two events.
use fleet_for_agent.Base.{
  ℕ, ◌≤◌, ◌<◌, ◌≡◌, refl, sym, ap, subst, ◌∙◌, inl, inr, String, Bool, true, false, ◌&&◌, none,
  some, [], ◌∷◌, length, if◌then◌else◌, arith, Bool-cases, Option-cases,
}
use fleet_for_agent.Base.Eq.{◌==◌, ==_iff, nat_eq, string_eq}
use fleet_for_agent.Base.Assoc.{
  Assoc, Distinct, lookup, set, lookup-remove, lookup-set, remove-Distinct, set-Distinct,
  length-remove-le, length-set_present,
}
use fleet_for_agent.Relay.{
  Connection, Relay, Clock, keep_pending, detach, is_fresh, prune_each, prune,
}

-- Two connections of one runtime that are both live are the same.
abbrev pub Sole : Assoc ℕ Connection → Type 0
Sole m =
    (j k : ℕ) (a b : Connection)
    → lookup j m ≡ some a
    → lookup k m ≡ some b
    → (a.live && b.live) ≡ true
    → (a.info.runtime && b.info.runtime) ≡ true
    → a.info.id ≡ b.info.id
    → j ≡ k

-- Where a pending request went: to a connection that was attached once, or, where `strict`, to one
-- that is attached.
abbrev pub Home : Bool → ℕ → Relay → Type 0
Home true k r = (c : Connection) × (lookup k r.connections ≡ some c)
Home false k r = k < r.next

pub record IsRelay (strict : Bool) (r : Relay) : Type 0 where
  pub named : (k : ℕ) (c : Connection) → lookup k r.connections ≡ some c → k < r.next
  pub owned : (id : String) (k : ℕ) → lookup id r.pending ≡ some k → Home strict k r
  pub sole : Sole r.connections
  pub distinct : Distinct r.connections
  pub distinct_pending : Distinct r.pending
  pub connections : length r.connections ≤ 128
  pub pending : length r.pending ≤ 128

keep_absent :
    (key : ℕ) (id : String) (m : Assoc String ℕ)
    → lookup id m ≡ none
    → lookup id (keep_pending key m) ≡ none
unfolding keep_pending lookup
keep_absent key id [] h = refl
keep_absent key id ((i, k) ∷ m) h = ground (arith, keep_absent key id m, h)

keep_pending-Distinct : (key : ℕ) (m : Assoc String ℕ) → Distinct m → Distinct (keep_pending key m)
unfolding keep_pending
keep_pending-Distinct key [] d = tt
keep_pending-Distinct key ((i, k) ∷ m) d = elim (Bool-cases (k == key)) [
  | inl gone ↦ rw gone (keep_pending-Distinct key m d.1)
  | inr kept ↦ rw kept (keep_absent key i m d.0, keep_pending-Distinct key m d.1)
]

pub lookup-keep_pending :
    (key : ℕ) (id : String) (m : Assoc String ℕ)
    → Distinct m
    → lookup id (keep_pending key m)
      ≡ (elim (lookup id m) [ none ↦ none | some k ↦ if k == key then none else some k ])
unfolding keep_pending lookup
lookup-keep_pending key id [] d = refl
lookup-keep_pending key id ((i, k) ∷ m) d =
    let rest = lookup-keep_pending key id m d.1 in
    elim (Bool-cases (i == id)) [
      | inl here ↦
          let same : i ≡ id = (==_iff i id).0 here in
          let gone : lookup id (keep_pending key m) ≡ none =
            subst (λ x. lookup x (keep_pending key m) ≡ none) same (keep_absent key i m d.0) in
          ground (arith, here, gone)
      | inr away ↦ ground (arith, away, rest)
    ]

length-keep_pending : (key : ℕ) (m : Assoc String ℕ) → length (keep_pending key m) ≤ length m
unfolding keep_pending
length-keep_pending key [] = omega arith
length-keep_pending key ((i, k) ∷ m) = ground (arith, length-keep_pending key m)

detach-Home :
    (strict : Bool) (key k : ℕ) (r : Relay)
    → (k == key) ≡ false
    → Home strict k r
    → Home strict k (detach key r).0
unfolding detach
detach-Home true key k r away (c, there) =
    (c, ground (arith, lookup-remove key k r.connections, there, away, ==_iff key k, ==_iff k key))
detach-Home false key k r away h = h

module _ {strict : Bool} (r : Relay) (v : IsRelay strict r) where
  detach_owned :
      (key : ℕ) (id : String) (k : ℕ)
      → lookup id (detach key r).0.pending ≡ some k
      → Home strict k (detach key r).0
  unfolding detach
  detach_owned key id k h = elim (Option-cases (lookup id r.pending)) [
    | inl absent ↦ cc (keep_absent key id r.pending absent)
    | inr (j, present) ↦
        let kept = lookup-keep_pending key id r.pending v.distinct_pending in
        let same : j ≡ k = ground (arith, kept, present, h) in
        let away : (k == key) ≡ false = ground (arith, kept, present, h, same) in
        detach-Home strict key k r away (v.owned id k (present ∙ ap some same))
  ]

  pub detach-IsRelay : (key : ℕ) → IsRelay strict (detach key r).0
  unfolding detach
  detach-IsRelay key = record {
    named = λ k c h. v.named k c (ground (arith, lookup-remove key k r.connections, h));
    owned = detach_owned key;
    sole = λ j k a b p q.
        v.sole j k a b (ground (arith, lookup-remove key j r.connections, p))
          (ground (arith, lookup-remove key k r.connections, q));
    distinct = remove-Distinct key r.connections v.distinct;
    distinct_pending = keep_pending-Distinct key r.pending v.distinct_pending;
    connections = omega (arith, length-remove-le key r.connections, v.connections);
    pending = omega (arith, length-keep_pending key r.pending, v.pending);
  }

pub prune_each-IsRelay :
    {strict : Bool} (now : Clock) (m : Assoc ℕ Connection) (r : Relay)
    → IsRelay strict r
    → IsRelay strict (prune_each now m r).0
unfolding prune_each
prune_each-IsRelay now [] r v = v
prune_each-IsRelay now ((key, c) ∷ m) r v = elim (Bool-cases (is_fresh (now key) c)) [
  | inl kept ↦ rw kept (prune_each-IsRelay now m r v)
  | inr gone ↦ rw gone (prune_each-IsRelay now m (detach key r).0 (detach-IsRelay r v key))
]

pub prune-IsRelay :
    {strict : Bool} (now : Clock) (r : Relay) → IsRelay strict r → IsRelay strict (prune now r).0
unfolding prune
prune-IsRelay now r v = prune_each-IsRelay now r.connections r v

prune_each_lem :
    (now : Clock) (m : Assoc ℕ Connection) (r : Relay)
    → ((prune_each now m r).0.next ≡ r.next)
      × (length (prune_each now m r).0.pending ≤ length r.pending)
unfolding prune_each detach
prune_each_lem now [] r = (refl, omega arith)
prune_each_lem now ((key, c) ∷ m) r = elim (Bool-cases (is_fresh (now key) c)) [
  | inl kept ↦ rw kept (prune_each_lem now m r)
  | inr gone ↦
      let (same, fewer) = prune_each_lem now m (detach key r).0 in
      rw gone (same, omega (arith, fewer, length-keep_pending key r.pending))
]

-- A pruning names no connection, and no more is pending after it.
pub prune_lem :
    (now : Clock) (r : Relay)
    → ((prune now r).0.next ≡ r.next) × (length (prune now r).0.pending ≤ length r.pending)
unfolding prune
prune_lem now r = prune_each_lem now r.connections r

-- A connection that is there changes neither what it is nor, unless it goes down, its socket.
module _ {strict : Bool} (r : Relay) (v : IsRelay strict r) (key : ℕ) (c d : Connection)
    (there : lookup key r.connections ≡ some c) (same : d.info ≡ c.info)
    (live : d.live ≡ true → c.live ≡ true) where
  abbrev updated : Relay
  updated = record r { connections = set key d r.connections }

  before_update :
      (k : ℕ) (a : Connection)
      → lookup k updated.connections ≡ some a
      → (b : Connection) × (lookup k r.connections ≡ some b)
        × (a.info ≡ b.info)
        × (a.live ≡ true → b.live ≡ true)
  before_update k a h = elim (Bool-cases (key == k)) [
    | inl here ↦
        let e : d ≡ a = ground (arith, lookup-set key k d r.connections, here, h) in
        let at : key ≡ k = (==_iff key k).0 here in
        (
          c,
          subst (λ x. lookup x r.connections ≡ some c) at there,
          ap (λ x. x.info) (sym e) ∙ same,
          λ l. live (ap (λ x. x.live) e ∙ l),
        )
    | inr away ↦ (a, ground (arith, lookup-set key k d r.connections, away, h), refl, λ l. l)
  ]

  update-Home : (s : Bool) (k : ℕ) → Home s k r → Home s k updated
  update-Home true k (a, old) = elim (Bool-cases (key == k)) [
    | inl here ↦ (d, ground (arith, lookup-set key k d r.connections, here))
    | inr away ↦ (a, ground (arith, lookup-set key k d r.connections, away, old))
  ]
  update-Home false k h = h

  update-Sole : Sole updated.connections
  update-Sole j k a b p q both runtime ids =
      let (a0, p0, ia, la) = before_update j a p in
      let (b0, q0, ib, lb) = before_update k b q in
      v.sole j k a0 b0 p0 q0 (ground (arith, both, la, lb))
        (subst (λ x. (x.runtime && b0.info.runtime) ≡ true) ia
          (subst (λ x. (a.info.runtime && x.runtime) ≡ true) ib runtime))
        (ap (λ x. x.id) (sym ia) ∙ ids ∙ ap (λ x. x.id) ib)

  pub update-IsRelay : IsRelay strict updated
  update-IsRelay = record {
    named = λ k a h. let (b, old, _, _) = before_update k a h in v.named k b old;
    owned = λ id k h. update-Home strict k (v.owned id k h);
    sole = update-Sole;
    distinct = set-Distinct key d r.connections v.distinct;
    distinct_pending = v.distinct_pending;
    connections = omega (arith, length-set_present key d c r.connections there, v.connections);
    pending = v.pending;
  }
