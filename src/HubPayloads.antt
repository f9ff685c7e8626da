-- ===== src/HubPayloads.antt =====
-- packages/fleet-hub/payload-cache.mjs, class HubPayloads with expiredResult and isTerminalResult:
-- the Hub's three caches of results, screens and completion summaries. A key is the pair whose
-- JSON text the code uses. `clock` gives the reads of the clock in their order in the code.
pub mod Summaries
use fleet_for_agent.Base.{
  ℕ, ◌*◌, String, Bool, true, false, not, ◌&&◌, ◌||◌, Option, none, some, or_else, is_some,
  if◌then◌else◌,
}
use fleet_for_agent.Base.Eq.{◌==◌, string_eq, pair_eq}
use fleet_for_agent.PayloadCache
use fleet_for_agent.PayloadCache.{Cache}

-- A result as the Hub reads it: of an exit code only its presence matters, and `rest` is the text
-- of all other members.
pub record ResultRow : Type 0 where
  pub status : Option String
  pub ok : Option Bool
  pub exit_code : Option ℕ
  pub code : Option String
  pub output_available : Option Bool
  pub rest : String

unfoldable pub expired_result : ResultRow
expired_result = record {
  status = some "unknown";
  ok = none;
  exit_code = none;
  code = some "RESULT_NOT_RETAINED";
  output_available = some false;
  rest =
      "Hub result payload expired or exceeded its cache budget; query the Agent with the original handle, never replay the operation.";
}

unfoldable pub has_status : String → Option String → Bool
has_status s none = false
has_status s (some t) = t == s

unfoldable pub is_terminal_result : Option ResultRow → Bool
unfolding has_status
is_terminal_result none = false
is_terminal_result (some row) =
    if has_status "pending" row.status
      || has_status "running" row.status
      || has_status "conflict" row.status
    then false
    else is_some row.ok
      || is_some row.exit_code
      || has_status "done" row.status
      || has_status "unknown" row.status

pub record Options : Type 0 where
  pub max_bytes : Option ℕ
  pub max_entries : Option ℕ
  pub ttl_ms : Option ℕ
  pub summary_max_bytes : Option ℕ
  pub summary_max_entries : Option ℕ
  pub summary_ttl_ms : Option ℕ

abbrev pub Key : Type 0
Key = String × String

pub record Payloads (B : Type 0) : Type 0 where
  pub results : Cache Key ResultRow
  pub screens : Cache Key B
  pub completed : Cache Key ResultRow

unfoldable pub make : {B : Type 0} → Options → Payloads B
unfolding PayloadCache.make
make o = record {
  results =
      PayloadCache.make (or_else o.max_bytes (32 * 1048576)) (or_else o.max_entries 4096)
        (or_else o.ttl_ms (15 * 60_000));
  screens =
      PayloadCache.make (or_else o.max_bytes (32 * 1048576)) (or_else o.max_entries 4096)
        (or_else o.ttl_ms (5 * 60_000));
  completed =
      PayloadCache.make (or_else o.summary_max_bytes (4 * 1048576))
        (or_else o.summary_max_entries 16384) (or_else o.summary_ttl_ms (24 * 60 * 60_000));
}

unfoldable pub clear : {B : Type 0} → Payloads B → Payloads B
unfolding PayloadCache.clear
clear p = record {
  results = PayloadCache.clear p.results;
  screens = PayloadCache.clear p.screens;
  completed = PayloadCache.clear p.completed;
}

infixl 5 ◌>>=◌
abbrev ◌>>=◌ : {A B : Type 0} → Option A → (A → Option B) → Option B
none >>= f = none
some a >>= f = f a

unfoldable pub get_screen :
    {B : Type 0} → String → String → (ℕ → ℕ) → Payloads B → Payloads B × Option B
get_screen device corr clock p =
    let (screens, found) = PayloadCache.get (device, corr) (clock 0) (clock 1) p.screens in
    (record p { screens = screens }, found)

unfoldable pub get_result :
    {B : Type 0} → String → String → (ℕ → ℕ) → Payloads B → Payloads B × Option ResultRow
get_result device corr clock p =
    let (results, found) = PayloadCache.get (device, corr) (clock 0) (clock 1) p.results in
    let (completed, summary) = PayloadCache.get (device, corr) (clock 2) (clock 3) p.completed in
    elim found [
      | some row ↦ (record p { results = results }, some row)
      | none ↦ (record p { results = results; completed = completed }, summary)
    ]

module _ {B : Type 0} (key_bytes : Key → ℕ) (screen_bytes : B → ℕ) where
  -- A call without a correlation id has the empty one.
  unfoldable pub put_screen : String → String → B → (ℕ → ℕ) → Payloads B → Option (Payloads B)
  put_screen device corr body clock p = do
    screens ←
        PayloadCache.put key_bytes screen_bytes (device, corr) body (clock 0) (clock 1) p.screens
    let latest =
        PayloadCache.put key_bytes screen_bytes (device, "") body (clock 2) (clock 3) screens
    if corr == ""
        then some (record p { screens = screens })
        else do newest ← latest; some (record p { screens = newest })

module _ {B : Type 0} (key_bytes : Key → ℕ) (row_bytes : ResultRow → ℕ) where
  store_result : Key → ResultRow → ℕ → ℕ → Payloads B → Option (Payloads B)
  store_result key row now later p = do
    results ← PayloadCache.put key_bytes row_bytes key row now later p.results
    some (record p { results = results })

  -- A result that is not terminal is dropped where a summary says that the operation has ended.
  put_unfinished : Key → ResultRow → (ℕ → ℕ) → Option ResultRow → Payloads B → Option (Payloads B)
  unfolding store_result
  put_unfinished key row clock (some summary) p = some p
  put_unfinished key row clock none p = store_result key row (clock 2) (clock 3) p

  put_finished : Key → ResultRow → (ℕ → ℕ) → Payloads B → Option (Payloads B)
  unfolding store_result
  put_finished key row clock p = do
    completed ←
        PayloadCache.put key_bytes row_bytes key expired_result (clock 0) (clock 1) p.completed
    store_result key row (clock 2) (clock 3) (record p { completed = completed })

  unfoldable pub put_result :
      String → String → ResultRow → (ℕ → ℕ) → Payloads B → Option (Payloads B)
  unfolding put_unfinished put_finished
  put_result device corr row clock p =
      let key : Key = (device, corr) in
      let (completed, summary) = PayloadCache.get key (clock 0) (clock 1) p.completed in
      if is_terminal_result (some row)
      then put_finished key row clock p
      else put_unfinished key row clock summary (record p { completed = completed })
