-- ===== src/Relay/Joining.antt =====
-- packages/fleet-room/relay.mjs: requests that are sent and settled, and connections that join.
use fleet_for_agent.Base.{
  ℕ, ◌+◌, ◌<◌, ◌≡◌, ◌≢◌, sym, ap, subst, ◌∙◌, inl, inr, ◌⊎◌, String, Bool, true, false, ◌&&◌, some,
  any, length, arith, Bool-cases, any-In,
}
use fleet_for_agent.Base.Eq.{◌==◌, ==_iff, nat_eq, string_eq}
use fleet_for_agent.Base.Assoc.{
  Assoc, lookup, remove, set, lookup-remove, lookup-set, remove-Distinct, set-Distinct,
  length-remove-le, length-set-le, In-lookup,
}
use fleet_for_agent.Relay.{Meta, Connection, Relay, same_runtime}
use fleet_for_agent.Relay.Soundness.{Home, IsRelay, Sole}

pending-Home :
    (strict : Bool) (k : ℕ) (r : Relay) (pending : Assoc String ℕ)
    → Home strict k r
    → Home strict k (record r { pending = pending })
pending-Home true k r pending h = h
pending-Home false k r pending h = h

module _ {strict : Bool} (r : Relay) (v : IsRelay strict r) where
  pub settled-IsRelay : (id : String) → IsRelay strict (record r { pending = remove id r.pending })
  settled-IsRelay id = record {
    named = v.named;
    owned = λ i k h.
        pending-Home strict k r (remove id r.pending)
          (v.owned i k (ground (arith, lookup-remove id i r.pending, h)));
    sole = v.sole;
    distinct = v.distinct;
    distinct_pending = remove-Distinct id r.pending v.distinct_pending;
    connections = v.connections;
    pending = omega (arith, length-remove-le id r.pending, v.pending);
  }

  sent_owned :
      (id : String) (key : ℕ)
      → Home strict key r
      → (i : String) (k : ℕ) → lookup i (set id key r.pending) ≡ some k
      → Home strict k r
  sent_owned id key home i k h = elim (Bool-cases (id == i)) [
    | inl here ↦
        let e : key ≡ k = ground (arith, lookup-set id i key r.pending, here, h) in
        subst (λ x. Home strict x r) e home
    | inr away ↦ v.owned i k (ground (arith, lookup-set id i key r.pending, away, h))
  ]

  pub sent-IsRelay :
      (id : String) (key : ℕ)
      → Home strict key r
      → length r.pending < 128
      → IsRelay strict (record r { pending = set id key r.pending })
  sent-IsRelay id key home few = record {
    named = v.named;
    owned = λ i k h. pending-Home strict k r (set id key r.pending) (sent_owned id key home i k h);
    sole = v.sole;
    distinct = v.distinct;
    distinct_pending = set-Distinct id key r.pending v.distinct_pending;
    connections = v.connections;
    pending = omega (arith, length-set-le id key r.pending, few);
  }

  pub unsent-IsRelay :
      (id : String) (key : ℕ)
      → length r.pending < 128
      → IsRelay strict (record r { pending = remove id (set id key r.pending) })
  unsent-IsRelay id key few = record {
    named = v.named;
    owned = λ i k h. pending-Home strict k r (remove id (set id key r.pending)) (
        v.owned i k (
          ground
            (arith, lookup-remove id i (set id key r.pending), lookup-set id i key r.pending, h)));
    sole = v.sole;
    distinct = v.distinct;
    distinct_pending = remove-Distinct id _ (set-Distinct id key r.pending v.distinct_pending);
    connections = v.connections;
    pending =
        omega
          (arith, length-remove-le id (set id key r.pending), length-set-le id key r.pending, few);
  }

-- A new connection, under a name that none has, of a runtime that has no other.
module _ {strict : Bool} (r : Relay) (v : IsRelay strict r) (m : Meta) (now : ℕ)
    (few : length r.connections < 128)
    (alone : any (λ e. same_runtime m e.1) r.connections ≡ false) where
  abbrev newcomer : Connection
  newcomer = record { info = m; live = true; seen = now; running = 0 }

  abbrev joined : Relay
  joined = record r { next = r.next + 1; connections = set r.next newcomer r.connections }

  join_cases :
      (k : ℕ) (a : Connection)
      → lookup k joined.connections ≡ some a
      → ((k ≡ r.next) × (a ≡ newcomer)) ⊎ (lookup k r.connections ≡ some a)
  join_cases k a h = elim (Bool-cases (r.next == k)) [
    | inl here ↦ inl (
      sym ((==_iff r.next k).0 here),
      ground (arith, lookup-set r.next k newcomer r.connections, here, h),
    )
    | inr away ↦ inr (ground (arith, lookup-set r.next k newcomer r.connections, away, h))
  ]

  join-Home : (s : Bool) (k : ℕ) → Home s k r → Home s k joined
  join-Home true k (a, old) =
      let below = v.named k a old in
      (a, ground (arith, lookup-set r.next k newcomer r.connections, old, below, ==_iff r.next k))
  join-Home false k h = omega (arith, h)

  other_runtime :
      (k : ℕ) (a : Connection)
      → lookup k r.connections ≡ some a
      → a.live ≡ true
      → (m.runtime && a.info.runtime) ≡ true
      → a.info.id ≢ m.id
  other_runtime k a there up both same =
      let found : same_runtime m a ≡ true =
        unfold same_runtime in (ground (arith, up, both, same, ==_iff a.info.id m.id)) in
      cc (any-In (λ e. same_runtime m e.1) (In-lookup k a r.connections there) found, alone)

  join-Sole : Sole joined.connections
  join-Sole j k a b p q both runtime ids = elim (join_cases j a p) [
    | inl (at_j, is_j) ↦ elim (join_cases k b q) [
      | inl (at_k, is_k) ↦ at_j ∙ sym at_k
      | inr old ↦ absurd (
          other_runtime k b old (ground (arith, both))
            (cc (ap (λ x. x.info.runtime && b.info.runtime) is_j)) (cc (ap (λ x. x.info.id) is_j)))
    ]
    | inr old_j ↦ elim (join_cases k b q) [
      | inl (at_k, is_k) ↦ absurd (
          other_runtime j a old_j (ground (arith, both)) (ground (arith, runtime, is_k))
            (cc (ap (λ x. x.info.id) is_k)))
      | inr old ↦ v.sole j k a b old_j old both runtime ids
    ]
  ]

  pub joined-IsRelay : IsRelay strict joined
  joined-IsRelay = record {
    named = λ k a h. elim (join_cases k a h) [
      | inl (at, is) ↦ omega (arith, at)
      | inr old ↦ omega (arith, v.named k a old)
    ];
    owned = λ id k h. join-Home strict k (v.owned id k h);
    sole = join-Sole;
    distinct = set-Distinct r.next newcomer r.connections v.distinct;
    distinct_pending = v.distinct_pending;
    connections = omega (arith, length-set-le r.next newcomer r.connections, few);
    pending = v.pending;
  }
