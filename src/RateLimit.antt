-- ===== src/RateLimit.antt =====
-- scripts/self-hosted/rate-limit.mjs: calls of a key are counted in windows of a minute. A read of
-- the clock is an argument.
pub mod Windows
use fleet_for_agent.Base.{
  ℕ, ◌+◌, ◌/◌, String, Bool, true, false, not, ◌&&◌, ◌||◌, Option, none, some, List, [], ◌∷◌, ltb,
  leb, eqb, length, is_some, if◌then◌else◌,
}
use fleet_for_agent.Base.Eq.{string_eq}
use fleet_for_agent.Base.Assoc.{Assoc, lookup, set}

pub record Bucket : Type 0 where
  pub window : ℕ
  pub count : ℕ

pub record Limiter : Type 0 where
  pub limit : ℕ
  pub max_keys : ℕ
  pub counters : Assoc String Bucket

unfoldable pub window_of : ℕ → ℕ
window_of now = now / 60_000

-- The loop that deletes the counters of other windows.
unfoldable pub keep_window : ℕ → Assoc String Bucket → Assoc String Bucket
keep_window window [] = []
keep_window window ((key, bucket) ∷ rest) =
    let kept = keep_window window rest in
    if eqb bucket.window window then (key, bucket) ∷ kept else kept

unfoldable pub make_room : ℕ → Limiter → Limiter
unfolding keep_window
make_room window c =
    if leb c.max_keys (length c.counters)
    then record c { counters = keep_window window c.counters }
    else c

abbrev pub put_bucket : String → Bucket → Limiter → Limiter
put_bucket key bucket c = record c { counters = set key bucket c.counters }

-- One call more in a bucket that is stored.
unfoldable pub spend : String → Bucket → Limiter → Limiter × Bool
spend key bucket c =
    if leb c.limit bucket.count
    then (c, false)
    else (put_bucket key (record bucket { count = bucket.count + 1 }) c, true)

-- A call of a key that has no bucket for this window, once old counters are gone.
unfoldable pub open_bucket : String → ℕ → Limiter → Limiter × Bool
unfolding spend
open_bucket key window c =
    let fresh : Bucket = record { window = window; count = 0 } in
    if not (is_some (lookup key c.counters)) && leb c.max_keys (length c.counters)
    then (c, false)
    else spend key fresh (put_bucket key fresh c)

unfoldable pub serve_call : String → ℕ → Option Bucket → Limiter → Limiter × Bool
unfolding make_room open_bucket
serve_call key window none c = open_bucket key window (make_room window c)
serve_call key window (some bucket) c =
    if eqb bucket.window window
    then spend key bucket c
    else open_bucket key window (make_room window c)

unfoldable pub limit_call : String → ℕ → Limiter → Limiter × Bool
unfolding window_of serve_call
limit_call key now c = serve_call key (window_of now) (lookup key c.counters) c
