-- ===== src/PayloadCache/Accounts.antt =====
-- packages/fleet-hub/payload-cache.mjs: the byte count and the limits of a cache.
use fleet_for_agent.Base.{
  ℕ, ◌+◌, ◌≤◌, ◌≡◌, sym, ap, subst, ◌∙◌, inl, inr, none, some, [], ◌∷◌, ◌++◌, arith, length,
  Option-cases, if◌then◌else◌,
}
use fleet_for_agent.Base.Eq.{Eq, ◌==◌, ==_iff}
use fleet_for_agent.Base.Assoc.{
  Assoc, Distinct, lookup, remove, remove_absent, remove_first, lookup-remove, remove-Distinct,
  length-remove,
}
use fleet_for_agent.PayloadCache.{Row, Cache, delete}

module _ {K V : Type 0} where
  abbrev pub total : Assoc K (Row V) → ℕ
  total [] = 0
  total ((k, row) ∷ m) = row.bytes + total m

  pub total-append : (m n : Assoc K (Row V)) → total (m ++ n) ≡ total m + total n
  total-append [] n = omega arith
  total-append ((k, row) ∷ m) n = omega (arith, total-append m n)

module _ {K V : Type 0} ⦃e : Eq K⦄ where
  pub record IsValid (c : Cache K V) : Type 0 where
    pub distinct : Distinct c.rows
    pub counted : c.bytes ≡ total c.rows
    pub entries : length c.rows ≤ c.max_entries
    pub fits : c.bytes ≤ c.max_bytes

  pub total-remove :
      (k : K) (m : Assoc K (Row V)) (row : Row V)
      → Distinct m
      → lookup k m ≡ some row
      → total (remove k m) + row.bytes ≡ total m
  unfolding lookup remove
  total-remove k [] row d h = cc
  total-remove k ((j, w) ∷ m) row d h =
      ground (arith, total-remove k m row d.1, remove_absent k m, ==_iff j k)

  pub delete-IsValid : (k : K) (c : Cache K V) → IsValid c → IsValid (delete k c)
  unfolding delete
  delete-IsValid k c v = elim (Option-cases (lookup k c.rows)) [
    | inl e ↦ rw (e, delete) v
    | inr (row, e) ↦
        rw (e, delete)
          (record {
            distinct = remove-Distinct k c.rows v.distinct;
            counted = omega (arith, total-remove k c.rows row v.distinct e, v.counted);
            entries = omega (arith, length-remove k c.rows row v.distinct e, v.entries);
            fits = omega (arith, v.fits);
          })
  ]

  pub rows-delete : (k : K) (c : Cache K V) → (delete k c).rows ≡ remove k c.rows
  unfolding delete
  rows-delete k c = elim (Option-cases (lookup k c.rows)) [
    | inl e ↦ rw (e, delete) (sym (remove_absent k c.rows e))
    | inr (row, e) ↦ rw (e, delete)
  ]

  -- Deleting the key of the first row leaves the others.
  pub delete_first :
      (k : K) (row : Row V) (rest : Assoc K (Row V)) (c : Cache K V)
      → IsValid c
      → c.rows ≡ (k, row) ∷ rest
      → (delete k c).rows ≡ rest
  delete_first k row rest c v e =
      rows-delete k c ∙ ap (remove k) e ∙ remove_first k row rest (subst Distinct e v.distinct)

  pub record SameLimits (c d : Cache K V) : Type 0 where
    pub max_bytes : d.max_bytes ≡ c.max_bytes
    pub max_entries : d.max_entries ≡ c.max_entries
    pub ttl_ms : d.ttl_ms ≡ c.ttl_ms

  pub delete-SameLimits : (k : K) (c : Cache K V) → SameLimits c (delete k c)
  unfolding delete
  delete-SameLimits k c = ground arith

  pub lookup-delete :
      (k j : K) (c : Cache K V)
      → lookup j (delete k c).rows ≡ (if k == j then none else lookup j c.rows)
  lookup-delete k j c = rw (rows-delete k c) (lookup-remove k j c.rows)
