-- ===== src/Examples/Caches.antt =====
-- packages/fleet-hub/payload-cache.mjs on small caches.
use fleet_for_agent.Base.{ℕ, ◌≡◌, refl, ◌⊎◌, String, true, false, none, some, [], ◌∷◌, arith}
use fleet_for_agent.Base.Eq.{string_eq, pair_eq}
use fleet_for_agent.Base.Assoc.{lookup, remove, set}
use fleet_for_agent.PayloadCache.{Cache, get, put}
use fleet_for_agent.PayloadCache.Accounts.{IsValid}
use fleet_for_agent.PayloadCache.Contract.{Queued, Refused, put_total}
use fleet_for_agent.PayloadCache.Reads.{get-put, get-put_oversized, get-IsValid}
use fleet_for_agent.HubPayloads
use fleet_for_agent.HubPayloads.{
  Key, ResultRow, Payloads, expired_result, is_terminal_result, put_result, get_result,
}
use fleet_for_agent.HubPayloads.Summaries.{AreValid, put_result_total, result_known, finished_stays}

abbrev key_size : String → ℕ
key_size k = 1

abbrev value_size : ℕ → ℕ
value_size v = v

-- One row of four bytes in a cache of one entry and ten bytes.
abbrev one : Cache String ℕ
one = record {
  max_bytes = 10;
  max_entries = 1;
  ttl_ms = 100;
  rows = ("a", record { value = 3; bytes = 4; expires_at = 150 }) ∷ [];
  bytes = 4;
}

-- After "b" was written at time 60, in place of "a".
abbrev two : Cache String ℕ
two = record {
  max_bytes = 10;
  max_entries = 1;
  ttl_ms = 100;
  rows = ("b", record { value = 5; bytes = 6; expires_at = 160 }) ∷ [];
  bytes = 6;
}

one-IsValid : IsValid one
unfolding lookup
one-IsValid = record {
  distinct = (refl, tt);
  counted = refl;
  entries = omega arith;
  fits = omega arith;
}

two_written : put key_size value_size "b" 5 60 60 one ≡ some two
unfolding put lookup remove set
two_written = refl

put_total_example :
    (d : Cache String ℕ) × (put key_size value_size "b" 5 60 60 one ≡ some d)
    × IsValid d
    × (Queued key_size value_size "b" 5 60 60 one d ⊎ Refused key_size value_size "b" 5 60 one d)
put_total_example = put_total key_size value_size "b" 5 60 60 one one-IsValid

get-put_example : (get "b" 159 159 two).1 ≡ some 5
get-put_example =
    get-put key_size value_size "b" 5 60 60 159 159 one two one-IsValid (omega arith, omega arith)
      two_written (omega arith) (omega arith)

-- Eleven bytes do not fit.
abbrev none_left : Cache String ℕ
none_left = record { max_bytes = 10; max_entries = 1; ttl_ms = 100; rows = []; bytes = 0 }

nothing_written : put key_size value_size "a" 10 60 60 one ≡ some none_left
unfolding put lookup remove
nothing_written = refl

get-put_oversized_example : (get "a" 61 61 none_left).1 ≡ none
get-put_oversized_example =
    get-put_oversized key_size value_size "a" 10 60 60 61 61 one none_left one-IsValid
      (λ fits. absurd (omega (arith, fits.0))) nothing_written

get-IsValid_example : IsValid (get "a" 149 151 one).0
get-IsValid_example = get-IsValid "a" 149 151 one one-IsValid

abbrev no_options : HubPayloads.Options
no_options = record {
  max_bytes = none;
  max_entries = none;
  ttl_ms = none;
  summary_max_bytes = none;
  summary_max_entries = none;
  summary_ttl_ms = none;
}

abbrev pair_size : Key → ℕ
pair_size k = 20

abbrev row_size : ResultRow → ℕ
row_size r = 200

abbrev fresh : Payloads String
fresh = record {
  results = record {
    max_bytes = 33554432;
    max_entries = 4096;
    ttl_ms = 900_000;
    rows = [];
    bytes = 0;
  };
  screens = record {
    max_bytes = 33554432;
    max_entries = 4096;
    ttl_ms = 300_000;
    rows = [];
    bytes = 0;
  };
  completed = record {
    max_bytes = 4194304;
    max_entries = 16384;
    ttl_ms = 86_400_000;
    rows = [];
    bytes = 0;
  };
}

fresh_made : HubPayloads.make no_options ≡ fresh
unfolding HubPayloads.make
fresh_made = refl

fresh-AreValid : AreValid fresh
fresh-AreValid = record {
  results = record { distinct = tt; counted = refl; entries = omega arith; fits = omega arith };
  completed = record { distinct = tt; counted = refl; entries = omega arith; fits = omega arith };
}

abbrev finished : ResultRow
finished = record {
  status = some "done";
  ok = some true;
  exit_code = some 0;
  code = none;
  output_available = none;
  rest = "";
}

abbrev still_running : ResultRow
still_running = record finished { status = some "running"; ok = none; exit_code = none }

abbrev seconds : ℕ → ℕ
seconds n = 1000

abbrev stored : Payloads String
unfolding expired_result
stored = record fresh {
  results = record fresh.results {
    rows = (("dev", "c1"), record { value = finished; bytes = 220; expires_at = 901_000 }) ∷ [];
    bytes = 220;
  };
  completed = record fresh.completed {
    rows =
        (("dev", "c1"), record { value = expired_result; bytes = 220; expires_at = 86_401_000 })
        ∷ [];
    bytes = 220;
  };
}

finished_ends : is_terminal_result (some finished) ≡ true
unfolding is_terminal_result
finished_ends = refl

running_goes_on : is_terminal_result (some still_running) ≡ false
unfolding is_terminal_result
running_goes_on = refl

result_written : put_result pair_size row_size "dev" "c1" finished seconds fresh ≡ some stored
unfolding put_result put is_terminal_result lookup stored set
result_written = refl

late_report : put_result pair_size row_size "dev" "c1" still_running seconds stored ≡ some stored
unfolding put_result put get is_terminal_result lookup stored
late_report = refl

put_result_total_example :
    (q : Payloads String) × (put_result pair_size row_size "dev" "c1" finished seconds fresh
      ≡ some q)
    × AreValid q
put_result_total_example =
    put_result_total pair_size row_size "dev" "c1" finished seconds fresh fresh-AreValid

abbrev a_day_later : ℕ → ℕ
a_day_later n = 86_400_999

result_known_example :
    ((get_result "dev" "c1" a_day_later stored).1 ≡ some finished)
    ⊎ ((get_result "dev" "c1" a_day_later stored).1 ≡ some expired_result)
result_known_example =
    result_known pair_size row_size "dev" "c1" finished seconds fresh stored fresh-AreValid
      finished_ends (omega arith, omega arith) result_written a_day_later (omega arith)
      (omega arith)

finished_stays_example : stored.results ≡ stored.results
finished_stays_example =
    finished_stays pair_size row_size "dev" "c1" finished seconds fresh stored fresh-AreValid
      finished_ends (omega arith, omega arith) result_written still_running seconds stored
      running_goes_on (omega arith) (omega arith) late_report
