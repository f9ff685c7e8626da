-- ===== src/Examples/Limits.antt =====
-- scripts/self-hosted/rate-limit.mjs on a limiter of two calls and two keys.
use fleet_for_agent.Base.{ℕ, ◌+◌, ◌≤◌, ◌≡◌, refl, List, [], ◌∷◌, String, arith}
use fleet_for_agent.Base.Assoc.{lookup, set}
use fleet_for_agent.RateLimit.{Limiter, limit_call, window_of}
use fleet_for_agent.RateLimit.Windows.{
  Counts, used, AllIn, admitted, admitted_bound, limit_call-Counts,
}

abbrev two_calls : Limiter
two_calls = record { limit = 2; max_keys = 2; counters = [] }

abbrev calls : List (String × ℕ)
calls = ("a", 60_001) ∷ ("b", 60_002) ∷ ("a", 60_003) ∷ ("a", 61_000) ∷ ("c", 62_000) ∷ []

calls-AllIn : AllIn 1 calls
unfolding window_of
calls-AllIn = (refl, (refl, (refl, (refl, (refl, tt)))))

two_admitted : admitted "a" calls two_calls ≡ 2
unfolding admitted lookup set
two_admitted = refl

limit_call-Counts_example :
    Counts "a" (window_of 60_001) two_calls (limit_call "a" 60_001 two_calls)
limit_call-Counts_example = limit_call-Counts "a" 60_001 two_calls tt

unused : used "a" 1 two_calls ≤ 2
unfolding lookup
unused = omega arith

admitted_bound_example : used "a" 1 two_calls + admitted "a" calls two_calls ≤ 2
admitted_bound_example = admitted_bound "a" 1 calls two_calls tt calls-AllIn unused
