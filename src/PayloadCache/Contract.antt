-- ===== src/PayloadCache/Contract.antt =====
-- packages/fleet-hub/payload-cache.mjs: the outcomes of a write, seen as a queue of rows.
use fleet_for_agent.Base.{
  ℕ, suc, ◌+◌, ◌≤◌, ◌<◌, ◌≡◌, refl, sym, subst, ◌∙◌, inl, inr, true, false, ◌||◌, none, some, [],
  ◌∷◌, ◌++◌, arith, ltb, leb, length, Bool-cases, if◌then◌else◌, ◌⊎◌,
}
use fleet_for_agent.Base.Eq.{Eq, ==_iff}
use fleet_for_agent.Base.Assoc.{Assoc, lookup, remove, set_absent, lookup-set, absent_suffix}
use fleet_for_agent.PayloadCache.{Row, Cache, delete, sweep, evict, add_row, store_row, put}
use fleet_for_agent.PayloadCache.Accounts.{
  IsValid, SameLimits, rows-delete, delete-IsValid, delete-SameLimits, lookup-delete,
}
use fleet_for_agent.PayloadCache.Writes.{sweep-Trims, evict-Trims, add_row-IsValid}

module _ {K V : Type 0} ⦃e : Eq K⦄ (key_bytes : K → ℕ) (value_bytes : V → ℕ) where
  abbrev pub size_of : K → V → ℕ
  size_of key value = key_bytes key + value_bytes value

  abbrev pub new_row : K → V → ℕ → Cache K V → Row V
  new_row key value later c = record {
    value = value;
    bytes = size_of key value;
    expires_at = later + c.ttl_ms;
  }

  -- The rows that a write starts from: those left by the sweep, without the key's old row.
  abbrev pub remaining : K → ℕ → Cache K V → Assoc K (Row V)
  remaining key now c = remove key (sweep now c).rows

  abbrev pub Fits : K → V → Cache K V → Type 0
  Fits key value c = (size_of key value ≤ c.max_bytes) × (0 < c.max_entries)

  -- The write of a row that fits: the oldest of the remaining rows go, and the row comes last.
  pub record Queued (key : K) (value : V) (now later : ℕ) (c d : Cache K V) : Type 0 where
    pub fits : Fits key value c
    pub evicted : Assoc K (Row V)
    pub kept : Assoc K (Row V)
    pub split : remaining key now c ≡ evicted ++ kept
    pub queued : d.rows ≡ kept ++ (key, new_row key value later c) ∷ []
    pub found : lookup key d.rows ≡ some (new_row key value later c)

  pub record Refused (key : K) (value : V) (now : ℕ) (c d : Cache K V) : Type 0 where
    pub too_big : ¬ (Fits key value c)
    pub others : d.rows ≡ remaining key now c

  module _ (key : K) (value : V) (now later : ℕ) (c : Cache K V) where
    cleared : Cache K V
    cleared = delete key (sweep now c)

    cleared-IsValid : IsValid c → IsValid cleared
    unfolding cleared
    cleared-IsValid v = delete-IsValid key (sweep now c) (sweep-Trims now c v).valid

    cleared-SameLimits : IsValid c → SameLimits c cleared
    unfolding cleared
    cleared-SameLimits v =
        ground (arith, (sweep-Trims now c v).limits, delete-SameLimits key (sweep now c))

    cleared_absent : lookup key cleared.rows ≡ none
    unfolding cleared
    cleared_absent = ground (arith, lookup-delete key key (sweep now c), ==_iff key key)

    unfolding_put : put key_bytes value_bytes key value now later c ≡ (
        if ltb cleared.max_bytes (size_of key value) || leb cleared.max_entries 0
        then some cleared
        else store_row key
            (new_row key value later c)
            (evict (suc (length cleared.rows)) (size_of key value) cleared))
    unfolding put cleared
    unfolding_put = refl

    put-Refused :
        IsValid c
        → (ltb cleared.max_bytes (size_of key value) || leb cleared.max_entries 0) ≡ true
        → (d : Cache K V) × (put key_bytes value_bytes key value now later c ≡ some d)
          × IsValid d
          × Refused key value now c d
    put-Refused v big = (
      cleared,
      rw unfolding_put (rw big),
      cleared-IsValid v,
      record {
        too_big = λ fits. ground (arith, cleared-SameLimits v, fits);
        others = unfold cleared in rows-delete key (sweep now c);
      },
    )

    put-Queued :
        IsValid c
        → (ltb cleared.max_bytes (size_of key value) || leb cleared.max_entries 0) ≡ false
        → (d : Cache K V) × (put key_bytes value_bytes key value now later c ≡ some d)
          × IsValid d
          × Queued key value now later c d
    unfolding store_row
    put-Queued v small =
        let limits = cleared-SameLimits v in
        let (kept, ends, trims, roomy) =
          evict-Trims (suc (length cleared.rows)) (size_of key value) cleared.rows cleared
            (cleared-IsValid v) refl (omega arith) (ground arith) (ground arith) in
        let absent : lookup key kept.rows ≡ none =
          absent_suffix key trims.gone kept.rows
            (subst (λ m. lookup key m ≡ none) trims.split cleared_absent) in
        let row = new_row key value later c in
        (
          add_row key row kept,
          rw unfolding_put (rw small (rw ends refl)),
          add_row-IsValid key row kept trims.valid absent roomy,
          record {
            fits = (ground arith, ground arith);
            evicted = trims.gone;
            kept = kept.rows;
            split = unfold cleared in (sym (rows-delete key (sweep now c)) ∙ trims.split);
            queued = unfold add_row in set_absent key row kept.rows absent;
            found =
                unfold add_row in ground (arith, lookup-set key key row kept.rows, ==_iff key key);
          },
        )

  -- A write to a valid cache ends, leaves it valid, and either queues the row behind what is
  -- left of the rows, in order, or drops the key's old row where the new one cannot fit.
  pub put_total :
      (key : K) (value : V) (now later : ℕ) (c : Cache K V)
      → IsValid c
      → (d : Cache K V) × (put key_bytes value_bytes key value now later c ≡ some d)
        × IsValid d
        × (Queued key value now later c d ⊎ Refused key value now c d)
  put_total key value now later c v =
      let start = cleared key value now later c in
      elim (Bool-cases (ltb start.max_bytes (size_of key value) || leb start.max_entries 0)) [
        | inl big ↦
            let (d, ends, valid, refused) = put-Refused key value now later c v big in
            (d, ends, valid, inr refused)
        | inr small ↦
            let (d, ends, valid, queued) = put-Queued key value now later c v small in
            (d, ends, valid, inl queued)
      ]
