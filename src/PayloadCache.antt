-- ===== src/PayloadCache.antt =====
-- packages/fleet-hub/payload-cache.mjs, class PayloadCache: a cache bounded in entries and bytes,
-- first in, first out by write. Every read of the clock is an argument, and nothing says that the
-- clock goes forwards. The encoded sizes of keys and values are parameters.
pub mod Accounts
pub mod Writes
pub mod Contract
pub mod Reads
use fleet_for_agent.Base.{
  ℕ, zero, suc, ◌+◌, ◌-◌, Bool, ◌||◌, Option, none, some, [], ◌∷◌, ltb, leb, length, if◌then◌else◌,
}
use fleet_for_agent.Base.Eq.{Eq}
use fleet_for_agent.Base.Assoc.{Assoc, lookup, remove, set}

pub record Row (V : Type 0) : Type 0 where
  pub value : V
  pub bytes : ℕ
  pub expires_at : ℕ

pub record Cache (K V : Type 0) : Type 0 where
  pub max_bytes : ℕ
  pub max_entries : ℕ
  pub ttl_ms : ℕ
  pub rows : Assoc K (Row V)
  pub bytes : ℕ

module _ {K V : Type 0} where
  unfoldable pub make : ℕ → ℕ → ℕ → Cache K V
  make max_bytes max_entries ttl_ms = record {
    max_bytes = max_bytes;
    max_entries = max_entries;
    ttl_ms = ttl_ms;
    rows = [];
    bytes = 0;
  }

  unfoldable pub clear : Cache K V → Cache K V
  clear c = record c { rows = []; bytes = 0 }

module _ {K V : Type 0} ⦃e : Eq K⦄ where
  delete_row : K → Option (Row V) → Cache K V → Cache K V
  delete_row key none c = c
  delete_row key (some row) c = record c { bytes = c.bytes - row.bytes; rows = remove key c.rows }

  unfoldable pub delete : K → Cache K V → Cache K V
  unfolding delete_row
  delete key c = delete_row key (lookup key c.rows) c

  -- The loop over the entries, the oldest write first, up to the first that has not expired.
  sweep_from : ℕ → Assoc K (Row V) → Cache K V → Cache K V
  sweep_from now [] c = c
  sweep_from now ((key, row) ∷ rest) c =
      let next = sweep_from now rest (delete key c) in if ltb now row.expires_at then c else next

  unfoldable pub sweep : ℕ → Cache K V → Cache K V
  unfolding sweep_from
  sweep now c = sweep_from now c.rows c

  delete_oldest : Assoc K (Row V) → Cache K V → Cache K V
  delete_oldest [] c = c
  delete_oldest ((key, row) ∷ rest) c = delete key c

  -- Whether one more row of this size is too much.
  unfoldable pub is_full : ℕ → Cache K V → Bool
  is_full bytes c = leb c.max_entries (length c.rows) || ltb c.max_bytes (c.bytes + bytes)

  -- The eviction loop; `none` means that the fuel ran out.
  pub evict : ℕ → ℕ → Cache K V → Option (Cache K V)
  unfolding delete_oldest is_full
  evict zero bytes c = none
  evict (suc fuel) bytes c =
      let next = evict fuel bytes (delete_oldest c.rows c) in
      if is_full bytes c then next else some c

  pub add_row : K → Row V → Cache K V → Cache K V
  add_row key row c = record c { rows = set key row c.rows; bytes = c.bytes + row.bytes }

  pub store_row : K → Row V → Option (Cache K V) → Option (Cache K V)
  unfolding add_row
  store_row key row none = none
  store_row key row (some c) = some (add_row key row c)

  -- What `get` reads once the sweep is done.
  pub read : K → Option (Row V) → ℕ → Cache K V → Cache K V × Option V
  read key none now c = (c, none)
  read key (some row) now c =
      if leb row.expires_at now then (delete key c, none) else (c, some row.value)

  unfoldable pub get : K → ℕ → ℕ → Cache K V → Cache K V × Option V
  unfolding read sweep
  get key now later c = let swept = sweep now c in read key (lookup key swept.rows) later swept

module _ {K V : Type 0} ⦃e : Eq K⦄ (key_bytes : K → ℕ) (value_bytes : V → ℕ) where
  -- One round for each row there is, and one for the test that ends the loop.
  unfoldable pub put : K → V → ℕ → ℕ → Cache K V → Option (Cache K V)
  unfolding sweep delete evict store_row
  put key value now later c =
      let cleared = delete key (sweep now c) in
      let bytes = key_bytes key + value_bytes value in
      let row : Row V = record { value = value; bytes = bytes; expires_at = later + c.ttl_ms } in
      if ltb cleared.max_bytes bytes || leb cleared.max_entries 0
      then some cleared
      else store_row key row (evict (suc (length cleared.rows)) bytes cleared)
