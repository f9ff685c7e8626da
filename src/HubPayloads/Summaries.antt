-- ===== src/HubPayloads/Summaries.antt =====
-- packages/fleet-hub/payload-cache.mjs, HubPayloads: results and their completion summaries.
use fleet_for_agent.Base.{
  ℕ, ◌+◌, ◌<◌, String, ◌≡◌, ap, inl, inr, ◌⊎◌, true, false, some, Bool-cases, Option-cases, arith,
}
use fleet_for_agent.Base.Eq.{string_eq, pair_eq}
use fleet_for_agent.PayloadCache
use fleet_for_agent.PayloadCache.{Cache}
use fleet_for_agent.PayloadCache.Accounts.{IsValid}
use fleet_for_agent.PayloadCache.Contract.{Fits, put_total}
use fleet_for_agent.PayloadCache.Reads.{get-IsValid, get-put, get-put_only}
use fleet_for_agent.HubPayloads.{
  ResultRow, Key, Payloads, expired_result, is_terminal_result, get_result, put_result,
  put_finished, put_unfinished, store_result,
}

pub record AreValid {B : Type 0} (p : Payloads B) : Type 0 where
  pub results : IsValid p.results
  pub completed : IsValid p.completed

module _ {B : Type 0} (key_bytes : Key → ℕ) (row_bytes : ResultRow → ℕ) where
  -- What a stored terminal result did to the caches.
  pub record Finished (key : Key) (row : ResultRow) (clock : ℕ → ℕ) (p q : Payloads B)
      : Type 0 where
    pub summary :
        PayloadCache.put key_bytes row_bytes key expired_result (clock 0) (clock 1) p.completed
        ≡ some q.completed
    pub result :
        PayloadCache.put key_bytes row_bytes key row (clock 2) (clock 3) p.results ≡ some q.results

  put_finished_lem :
      (key : Key) (row : ResultRow) (clock : ℕ → ℕ) (p q : Payloads B)
      → AreValid p
      → put_finished key_bytes row_bytes key row clock p ≡ some q
      → Finished key row clock p q
  unfolding put_finished store_result
  put_finished_lem key row clock p q v ends =
      let (c, ends_c, _, _) =
        put_total key_bytes row_bytes key expired_result (clock 0) (clock 1) p.completed
          v.completed in
      let (r, ends_r, _, _) =
        put_total key_bytes row_bytes key row (clock 2) (clock 3) p.results v.results in
      ground arith

  put_result-Finished :
      (device corr : String) (row : ResultRow) (clock : ℕ → ℕ) (p q : Payloads B)
      → AreValid p
      → is_terminal_result (some row) ≡ true
      → put_result key_bytes row_bytes device corr row clock p ≡ some q
      → Finished (device, corr) row clock p q
  unfolding put_result
  put_result-Finished device corr row clock p q v ended ends =
      put_finished_lem (device, corr) row clock p q v (ground (arith, ended))

  -- Storing a result in valid caches never fails, and leaves the result and summary caches
  -- valid.
  pub put_result_total :
      (device corr : String) (row : ResultRow) (clock : ℕ → ℕ) (p : Payloads B)
      → AreValid p
      → (q : Payloads B) × (put_result key_bytes row_bytes device corr row clock p ≡ some q)
        × AreValid q
  unfolding put_result
  put_result_total device corr row clock p v =
      let key : Key = (device, corr) in
      let (completed, ends_c, valid_c, _) =
        put_total key_bytes row_bytes key expired_result (clock 0) (clock 1) p.completed
          v.completed in
      let (results, ends_r, valid_r, _) =
        put_total key_bytes row_bytes key row (clock 2) (clock 3) p.results v.results in
      let swept = (PayloadCache.get key (clock 0) (clock 1) p.completed).0 in
      let valid_s = get-IsValid key (clock 0) (clock 1) p.completed v.completed in
      elim (Bool-cases (is_terminal_result (some row))) [
        | inl ended ↦ (
          record p { results = results; completed = completed },
          rw ended (ground arith),
          record { results = valid_r; completed = valid_c },
        )
        | inr running ↦
            elim (Option-cases (PayloadCache.get key (clock 0) (clock 1) p.completed).1) [
              | inl unknown ↦ (
                record p { results = results; completed = swept },
                rw running (rw (unknown, put_unfinished) (ground arith)),
                record { results = valid_r; completed = valid_s },
              )
              | inr (summary, known) ↦ (
                record p { completed = swept },
                rw running (rw (known, put_unfinished)),
                record { results = v.results; completed = valid_s },
              )
            ]
      ]

  module _ (device corr : String) (row : ResultRow) (clock : ℕ → ℕ) (p q : Payloads B)
      (v : AreValid p) (ended : is_terminal_result (some row) ≡ true)
      (fits : Fits key_bytes row_bytes (device, corr) expired_result p.completed)
      (stored : put_result key_bytes row_bytes device corr row clock p ≡ some q) where
    -- A query that follows directly on the storing of a terminal result, in valid caches whose
    -- summary cache takes a notice, returns the result itself or the notice that it is no longer
    -- retained, where it reads the summary before the summary's time is up.
    pub result_known :
        (later : ℕ → ℕ)
        → later 2 < clock 1 + p.completed.ttl_ms
        → later 3 < clock 1 + p.completed.ttl_ms
        → ((get_result device corr later q).1 ≡ some row)
          ⊎ ((get_result device corr later q).1 ≡ some expired_result)
    unfolding get_result
    result_known later t u =
        let finished = put_result-Finished device corr row clock p q v ended stored in
        let summary =
          get-put key_bytes row_bytes (device, corr) expired_result (clock 0) (clock 1) (later 2)
            (later 3) p.completed q.completed v.completed fits finished.summary t u in
        elim (Option-cases (PayloadCache.get (device, corr) (later 0) (later 1) q.results).1) [
          | inl missing ↦ inr (rw (missing, get_result) summary)
          | inr (other, found) ↦
              let same : other ≡ row =
                get-put_only key_bytes row_bytes (device, corr) row other (clock 2) (clock 3)
                  (later 0) (later 1) p.results q.results v.results finished.result found in
              inl (rw (found, get_result) (ap some same))
        ]

    -- A report that is not terminal and follows directly on the storing of a terminal result of
    -- the same command, in valid caches whose summary cache takes a notice, changes no result,
    -- where it reads the summary before the summary's time is up.
    pub finished_stays :
        (late : ResultRow) (later : ℕ → ℕ) (r : Payloads B)
        → is_terminal_result (some late) ≡ false
        → later 0 < clock 1 + p.completed.ttl_ms
        → later 1 < clock 1 + p.completed.ttl_ms
        → put_result key_bytes row_bytes device corr late later q ≡ some r
        → r.results ≡ q.results
    unfolding put_result
    finished_stays late later r running t u ends =
        let finished = put_result-Finished device corr row clock p q v ended stored in
        let summary =
          get-put key_bytes row_bytes (device, corr) expired_result (clock 0) (clock 1) (later 0)
            (later 1) p.completed q.completed v.completed fits finished.summary t u in
        ground (arith, summary, running)
