-- ===== src/PayloadCache/Writes.antt =====
-- packages/fleet-hub/payload-cache.mjs: what a sweep, an eviction and a write leave of a cache.
use fleet_for_agent.Base.{
  ℕ, zero, suc, ◌≤◌, ◌<◌, ◌≡◌, refl, sym, ap, ◌∙◌, ◌≢◌, inl, inr, false, none, some, [], ◌∷◌, ◌++◌,
  arith, ltb, length, length-append, Bool-cases,
}
use fleet_for_agent.Base.Eq.{Eq}
use fleet_for_agent.Base.Assoc.{Assoc, lookup, set_absent, Distinct-concat}
use fleet_for_agent.PayloadCache.{
  Row, Cache, delete, sweep_from, sweep, delete_oldest, is_full, evict, add_row,
}
use fleet_for_agent.PayloadCache.Accounts.{
  IsValid, SameLimits, total, total-append, delete-IsValid, delete_first, delete-SameLimits,
  lookup-delete,
}

module _ {K V : Type 0} ⦃e : Eq K⦄ where
  -- `d` is `c` without its oldest rows.
  pub record Trims (c d : Cache K V) : Type 0 where
    pub valid : IsValid d
    pub limits : SameLimits c d
    pub gone : Assoc K (Row V)
    pub split : c.rows ≡ gone ++ d.rows

  pub Trims-refl : (c : Cache K V) → IsValid c → Trims c c
  Trims-refl c v = record {
    valid = v;
    limits = record { max_bytes = refl; max_entries = refl; ttl_ms = refl };
    gone = [];
    split = refl;
  }

  -- One more row at the old end.
  pub Trims-delete :
      (key : K) (row : Row V) (rest : Assoc K (Row V)) (c d : Cache K V)
      → IsValid c
      → c.rows ≡ (key, row) ∷ rest
      → Trims (delete key c) d
      → Trims c d
  Trims-delete key row rest c d v e t = record {
    valid = t.valid;
    limits = ground (arith, t.limits, delete-SameLimits key c);
    gone = (key, row) ∷ t.gone;
    split = e ∙ ap (◌∷◌ (key, row)) (sym (delete_first key row rest c v e) ∙ t.split);
  }

  sweep_from-Trims :
      (now : ℕ) (xs : Assoc K (Row V)) (c : Cache K V)
      → IsValid c
      → c.rows ≡ xs
      → Trims c (sweep_from now xs c)
  unfolding sweep_from
  sweep_from-Trims now [] c v e = Trims-refl c v
  sweep_from-Trims now ((key, row) ∷ rest) c v e = elim (Bool-cases (ltb now row.expires_at)) [
    | inl fresh ↦ rw fresh (Trims-refl c v)
    | inr stale ↦ rw stale (
        Trims-delete key row rest c (sweep_from now rest (delete key c)) v e (
          sweep_from-Trims now rest (delete key c) (delete-IsValid key c v)
            (delete_first key row rest c v e)))
  ]

  pub sweep-Trims : (now : ℕ) (c : Cache K V) → IsValid c → Trims c (sweep now c)
  unfolding sweep
  sweep-Trims now c v = sweep_from-Trims now c.rows c v refl

  survivor :
      (rest : Assoc K (Row V)) (c : Cache K V) (key j : K) (first row : Row V)
      → IsValid c
      → c.rows ≡ (key, first) ∷ rest
      → lookup j c.rows ≡ some row
      → first.expires_at ≢ row.expires_at
      → lookup j (delete key c).rows ≡ some row
  unfolding lookup
  survivor rest c key j first row v e h differ =
      let h' : lookup j ((key, first) ∷ rest) ≡ some row = rw e at h in
      ground (arith, lookup-delete key j c)

  sweep_from_keeps :
      (now : ℕ) (xs : Assoc K (Row V)) (c : Cache K V) (j : K) (row : Row V)
      → IsValid c
      → c.rows ≡ xs
      → lookup j c.rows ≡ some row
      → now < row.expires_at
      → lookup j (sweep_from now xs c).rows ≡ some row
  unfolding sweep_from lookup
  sweep_from_keeps now [] c j row v e h fresh = h
  sweep_from_keeps now ((key, first) ∷ rest) c j row v e h fresh =
      elim (Bool-cases (ltb now first.expires_at)) [
        | inl kept ↦ rw kept h
        | inr stale ↦ rw stale (
            sweep_from_keeps now rest (delete key c) j row (delete-IsValid key c v)
              (delete_first key first rest c v e)
              (survivor rest c key j first row v e h (ground arith)) fresh)
      ]

  -- A sweep drops no row that has not expired.
  pub sweep_keeps :
      (now : ℕ) (c : Cache K V) (j : K) (row : Row V)
      → IsValid c
      → lookup j c.rows ≡ some row
      → now < row.expires_at
      → lookup j (sweep now c).rows ≡ some row
  unfolding sweep
  sweep_keeps now c j row v h fresh = sweep_from_keeps now c.rows c j row v refl h fresh

  empty_roomy :
      (bytes : ℕ) (c : Cache K V)
      → IsValid c
      → c.rows ≡ []
      → bytes ≤ c.max_bytes
      → 0 < c.max_entries
      → is_full bytes c ≡ false
  unfolding is_full
  empty_roomy bytes c v e fits some_room = ground (arith, ap length e, ap total e, v.counted)

  pub evict-Trims :
      (fuel bytes : ℕ) (xs : Assoc K (Row V)) (c : Cache K V)
      → IsValid c
      → c.rows ≡ xs
      → length xs < fuel
      → bytes ≤ c.max_bytes
      → 0 < c.max_entries
      → (d : Cache K V) × (evict fuel bytes c ≡ some d) × Trims c d × (is_full bytes d ≡ false)
  unfolding evict
  evict-Trims zero bytes xs c v e room fits some_room = absurd (omega arith)
  evict-Trims (suc fuel) bytes [] c v e room fits some_room =
      let roomy = empty_roomy bytes c v e fits some_room in (c, rw roomy, Trims-refl c v, roomy)
  evict-Trims (suc fuel) bytes ((key, row) ∷ rest) c v e room fits some_room =
      let limits = delete-SameLimits key c in
      let (d, ends, trims, roomy) =
        evict-Trims fuel bytes rest (delete key c) (delete-IsValid key c v)
          (delete_first key row rest c v e) (omega arith) (omega (arith, limits))
          (omega (arith, limits)) in
      elim (Bool-cases (is_full bytes c)) [
        | inl full ↦ (
          d,
          rw full (rw (ap (λ xs. delete_oldest xs c) e) ends),
          Trims-delete key row rest c d v e trims,
          roomy,
        )
        | inr roomy_now ↦ (c, rw roomy_now, Trims-refl c v, roomy_now)
      ]

  pub add_row-IsValid :
      (key : K) (row : Row V) (c : Cache K V)
      → IsValid c
      → lookup key c.rows ≡ none
      → is_full row.bytes c ≡ false
      → IsValid (add_row key row c)
  unfolding add_row is_full
  add_row-IsValid key row c v absent roomy =
      let added = set_absent key row c.rows absent in
      record {
        distinct = rw added (Distinct-concat c.rows key row v.distinct absent);
        counted = rw added (omega (arith, total-append c.rows ((key, row) ∷ []), v.counted));
        entries = rw added (ground (arith, length-append c.rows ((key, row) ∷ []), v.entries));
        fits = ground arith;
      }
