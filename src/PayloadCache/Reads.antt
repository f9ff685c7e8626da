-- ===== src/PayloadCache/Reads.antt =====
-- packages/fleet-hub/payload-cache.mjs: reads, and reads after a write.
use mathlib.Core.Option.{some-injective}
use fleet_for_agent.Base.{
  ℕ, ◌+◌, ◌<◌, ◌≡◌, refl, sym, ap, subst, ◌∙◌, inl, inr, Option, none, some, arith, leb, Bool-cases,
  Option-cases,
}
use fleet_for_agent.Base.Eq.{Eq, ==_iff}
use fleet_for_agent.Base.Assoc.{Assoc, Distinct, lookup, remove, lookup-remove, lookup_suffix}
use fleet_for_agent.PayloadCache.{Row, Cache, sweep, read, put, get}
use fleet_for_agent.PayloadCache.Accounts.{IsValid, delete-IsValid}
use fleet_for_agent.PayloadCache.Writes.{sweep-Trims, sweep_keeps}
use fleet_for_agent.PayloadCache.Contract.{Fits, put_total}

module _ {K V : Type 0} ⦃e : Eq K⦄ where
  read-IsValid :
      (key : K) (found : Option (Row V)) (later : ℕ) (c : Cache K V)
      → IsValid c
      → IsValid (read key found later c).0
  unfolding read
  read-IsValid key none later c v = v
  read-IsValid key (some row) later c v = elim (Bool-cases (leb row.expires_at later)) [
    | inl late ↦ rw late (delete-IsValid key c v)
    | inr fresh ↦ rw fresh v
  ]

  -- A read leaves a valid cache valid.
  pub get-IsValid :
      (key : K) (now later : ℕ) (c : Cache K V) → IsValid c → IsValid (get key now later c).0
  unfolding get
  get-IsValid key now later c v =
      let swept = sweep now c in
      read-IsValid key (lookup key swept.rows) later swept (sweep-Trims now c v).valid

  read_fresh :
      (key : K) (found : Option (Row V)) (later : ℕ) (c : Cache K V) (value : V)
      → (read key found later c).1 ≡ some value
      → (row : Row V) × (found ≡ some row) × (row.value ≡ value) × (later < row.expires_at)
  unfolding read
  read_fresh key none later c value h = cc
  read_fresh key (some row) later c value h = (row, refl, ground arith, ground arith)

  -- A read returns what the cache holds for the key, and nothing that has expired.
  pub get_fresh :
      (key : K) (now later : ℕ) (c : Cache K V) (value : V)
      → IsValid c
      → (get key now later c).1 ≡ some value
      → (row : Row V) × (lookup key c.rows ≡ some row)
        × (row.value ≡ value)
        × (later < row.expires_at)
  unfolding get
  get_fresh key now later c value v h =
      let swept = sweep now c in
      let trims = sweep-Trims now c v in
      let (row, found, holds, fresh) = read_fresh key (lookup key swept.rows) later swept value h in
      let whole =
        lookup_suffix key row trims.gone swept.rows (subst Distinct trims.split v.distinct) found in
      (row, subst (λ m. lookup key m ≡ some row) (sym trims.split) whole, holds, fresh)

  -- A row that has not expired is found, whatever rows a sweep drops first.
  pub get_present :
      (key : K) (now later : ℕ) (c : Cache K V) (row : Row V)
      → IsValid c
      → lookup key c.rows ≡ some row
      → now < row.expires_at
      → later < row.expires_at
      → (get key now later c).1 ≡ some row.value
  unfolding get
  get_present key now later c row v h t u = rw (sweep_keeps now c key row v h t) (ground arith)

  remove_gone : (key : K) (m : Assoc K (Row V)) → lookup key (remove key m) ≡ none
  remove_gone key m = ground (arith, lookup-remove key key m, ==_iff key key)

  pub get_absent :
      (key : K) (now later : ℕ) (c : Cache K V)
      → IsValid c
      → lookup key c.rows ≡ none
      → (get key now later c).1 ≡ none
  get_absent key now later c v h = elim (Option-cases (get key now later c).1) [
    | inl missing ↦ missing
    | inr (value, read_back) ↦
        let (row, found, _, _) = get_fresh key now later c value v read_back in cc
  ]

module _ {K V : Type 0} ⦃e : Eq K⦄ (key_bytes : K → ℕ) (value_bytes : V → ℕ) where
  -- What was written to a valid cache and fits is read back by a read right after the write,
  -- until its time is up.
  pub get-put :
      (key : K) (value : V) (now later t u : ℕ) (c d : Cache K V)
      → IsValid c
      → Fits key_bytes value_bytes key value c
      → put key_bytes value_bytes key value now later c ≡ some d
      → t < later + c.ttl_ms
      → u < later + c.ttl_ms
      → (get key t u d).1 ≡ some value
  get-put key value now later t u c d v fits ends before_t before_u =
      let (d', ends', valid, outcome) = put_total key_bytes value_bytes key value now later c v in
      let same : d' ≡ d = some-injective d' d (sym ends' ∙ ends) in
      elim outcome [
        | inl queued ↦
            subst (λ x. (get key t u x).1 ≡ some value) same
              (get_present key t u d' _ valid queued.found before_t before_u)
        | inr refused ↦ absurd (refused.too_big fits)
      ]

  -- A value that cannot fit is not stored in a valid cache, and the key's old value is not
  -- served in its place.
  pub get-put_oversized :
      (key : K) (value : V) (now later t u : ℕ) (c d : Cache K V)
      → IsValid c
      → ¬ (Fits key_bytes value_bytes key value c)
      → put key_bytes value_bytes key value now later c ≡ some d
      → (get key t u d).1 ≡ none
  get-put_oversized key value now later t u c d v too_big ends =
      let (d', ends', valid, outcome) = put_total key_bytes value_bytes key value now later c v in
      let same : d' ≡ d = some-injective d' d (sym ends' ∙ ends) in
      elim outcome [
        | inl queued ↦ absurd (too_big queued.fits)
        | inr refused ↦
            subst (λ x. (get key t u x).1 ≡ none) same
              (get_absent key t u d' valid
                (ap (lookup key) refused.others ∙ remove_gone key (sweep now c).rows))
      ]

  pub put-IsValid :
      (key : K) (value : V) (now later : ℕ) (c d : Cache K V)
      → IsValid c
      → put key_bytes value_bytes key value now later c ≡ some d
      → IsValid d
  put-IsValid key value now later c d v ends =
      let (d', ends', valid, _) = put_total key_bytes value_bytes key value now later c v in
      subst IsValid (some-injective d' d (sym ends' ∙ ends)) valid

  -- A read of a written key returns the value written, or nothing.
  pub get-put_only :
      (key : K) (value other : V) (now later t u : ℕ) (c d : Cache K V)
      → IsValid c
      → put key_bytes value_bytes key value now later c ≡ some d
      → (get key t u d).1 ≡ some other
      → other ≡ value
  get-put_only key value other now later t u c d v ends read_back =
      let (d', ends', valid, outcome) = put_total key_bytes value_bytes key value now later c v in
      let same : d ≡ d' = some-injective d d' (sym ends ∙ ends') in
      let (row, found, holds, _) =
        get_fresh key t u d' other valid
          (subst (λ x. (get key t u x).1 ≡ some other) same read_back) in
      elim outcome [
        | inl queued ↦ cc (queued.found)
        | inr refused ↦ cc (ap (lookup key) refused.others ∙ remove_gone key (sweep now c).rows)
      ]
