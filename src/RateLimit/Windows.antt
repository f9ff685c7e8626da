-- ===== src/RateLimit/Windows.antt =====
-- scripts/self-hosted/rate-limit.mjs: the counts of one window, over calls.
use fleet_for_agent.Base.{
  ℕ, ◌+◌, ◌≤◌, ◌≡◌, ◌≢◌, refl, sym, ap, ◌∙◌, inl, inr, ◌⊎◌, String, Bool, true, false, not, ◌&&◌,
  Option, none, some, List, [], ◌∷◌, leb, eqb, length, is_some, if◌then◌else◌, arith, Bool-cases,
  subst,
}
use fleet_for_agent.Base.Eq.{string_eq, ◌==◌, ==_iff, ne_of_==_false}
use fleet_for_agent.Base.Assoc.{Assoc, Distinct, lookup, lookup-set, set-Distinct}
use fleet_for_agent.RateLimit.{
  Bucket, Limiter, keep_window, make_room, put_bucket, spend, open_bucket, serve_call, limit_call,
  window_of,
}

-- How many calls a bucket counts for a window.
abbrev pub counted : ℕ → Option Bucket → ℕ
counted window none = 0
counted window (some b) = if eqb b.window window then b.count else 0

abbrev pub used : String → ℕ → Limiter → ℕ
used key window c = counted window (lookup key c.counters)

keep_absent :
    (window : ℕ) (key : String) (m : Assoc String Bucket)
    → lookup key m ≡ none
    → lookup key (keep_window window m) ≡ none
unfolding keep_window lookup
keep_absent window key [] h = refl
keep_absent window key ((k, b) ∷ m) h = ground (arith, keep_absent window key m, h)

keep_window-Distinct :
    (window : ℕ) (m : Assoc String Bucket) → Distinct m → Distinct (keep_window window m)
unfolding keep_window
keep_window-Distinct window [] d = tt
keep_window-Distinct window ((k, b) ∷ m) d = elim (Bool-cases (eqb b.window window)) [
  | inl kept ↦ rw kept (keep_absent window k m d.0, keep_window-Distinct window m d.1)
  | inr gone ↦ rw gone (keep_window-Distinct window m d.1)
]

counted-keep :
    (window : ℕ) (key : String) (m : Assoc String Bucket)
    → Distinct m
    → counted window (lookup key (keep_window window m)) ≡ counted window (lookup key m)
unfolding keep_window lookup
counted-keep window key [] d = refl
counted-keep window key ((k, b) ∷ m) d =
    let rest = counted-keep window key m d.1 in
    let absent = keep_absent window k m d.0 in
    elim (Bool-cases (k == key)) [
      | inl here ↦
          let same : k ≡ key = (==_iff k key).0 here in
          let gone : lookup key (keep_window window m) ≡ none =
            subst (λ x. lookup x (keep_window window m) ≡ none) same absent in
          ground (arith, here, gone)
      | inr away ↦ ground (arith, away, rest)
    ]

abbrev pub one_if : Bool → ℕ
one_if b = if b then 1 else 0

-- What one call in a window does to the counters of that window.
pub record Counts (key : String) (window : ℕ) (c : Limiter) (r : Limiter × Bool) : Type 0 where
  pub limit : r.0.limit ≡ c.limit
  pub distinct : Distinct r.0.counters
  pub own : used key window r.0 ≡ used key window c + one_if r.1
  pub fits : r.1 ≡ true → used key window r.0 ≤ c.limit
  pub refused : r.1 ≡ false → (c.limit ≤ used key window c) ⊎ (c.max_keys ≤ length r.0.counters)
  pub others : (j : String) → key ≢ j → used j window r.0 ≡ used j window c

used-put_bucket :
    (j key : String) (window : ℕ) (b : Bucket) (c : Limiter)
    → used j window (put_bucket key b c)
      ≡ (if key == j then counted window (some b) else used j window c)
used-put_bucket j key window b c = ground (arith, lookup-set key j b c.counters)

used-other :
    (j key : String) (window : ℕ) (b : Bucket) (c : Limiter)
    → key ≢ j
    → used j window (put_bucket key b c) ≡ used j window c
used-other j key window b c differ =
    ground (arith, used-put_bucket j key window b c, ==_iff key j, differ)

used-own :
    (key : String) (window : ℕ) (b : Bucket) (c : Limiter)
    → b.window ≡ window
    → used key window (put_bucket key b c) ≡ b.count
used-own key window b c now =
    ground (arith, used-put_bucket key key window b c, ==_iff key key, now)

spend-Counts :
    (key : String) (window : ℕ) (b : Bucket) (c : Limiter)
    → Distinct c.counters
    → b.window ≡ window
    → used key window c ≡ b.count
    → Counts key window c (spend key b c)
unfolding spend
spend-Counts key window b c d now stored = elim (Bool-cases (leb c.limit b.count)) [
  | inl full ↦ rw full (record {
    limit = refl;
    distinct = d;
    own = omega arith;
    fits = λ h. cc h;
    refused = λ _. inl (ground (arith, full, stored));
    others = λ j differ. refl;
  })
  | inr open_count ↦
      let more : Bucket = record b { count = b.count + 1 } in
      let own = used-own key window more c now in
      rw open_count (record {
        limit = refl;
        distinct = set-Distinct key more c.counters d;
        own = ground (arith, own, stored);
        fits = λ _. ground (arith, own, open_count);
        refused = λ h. cc h;
        others = λ j differ. used-other j key window more c differ;
      })
]

open_bucket-Counts :
    (key : String) (window : ℕ) (c : Limiter)
    → Distinct c.counters
    → used key window c ≡ 0
    → Counts key window c (open_bucket key window c)
unfolding open_bucket
open_bucket-Counts key window c d unused =
    elim (Bool-cases
      (not (is_some (lookup key c.counters)) && leb c.max_keys (length c.counters))) [
        | inl full ↦ rw full (record {
          limit = refl;
          distinct = d;
          own = omega arith;
          fits = λ h. cc h;
          refused = λ _. inr (ground (arith, full));
          others = λ j differ. refl;
        })
        | inr roomy ↦
            let fresh : Bucket = record { window = window; count = 0 } in
            let begun = put_bucket key fresh c in
            let own = used-own key window fresh c refl in
            let spent =
              spend-Counts key window fresh begun (set-Distinct key fresh c.counters d) refl own in
            rw roomy (record {
              limit = spent.limit;
              distinct = spent.distinct;
              own = omega (arith, spent.own, own, unused);
              fits = spent.fits;
              refused = λ h. ground (arith, spent.refused h, own, unused);
              others = λ j differ. spent.others j differ ∙ used-other j key window fresh c differ;
            })
      ]

-- Making room changes no count of this window.
module _ (window : ℕ) (c : Limiter) (d : Distinct c.counters) where
  used-make_room : (j : String) → used j window (make_room window c) ≡ used j window c
  unfolding make_room
  used-make_room j = ground (arith, counted-keep window j c.counters d)

  make_room-Distinct : Distinct (make_room window c).counters
  unfolding make_room
  make_room-Distinct = elim (Bool-cases (leb c.max_keys (length c.counters))) [
    | inl full ↦ rw full (keep_window-Distinct window c.counters d)
    | inr roomy ↦ rw roomy d
  ]

  make_room_limits :
      ((make_room window c).limit ≡ c.limit) × ((make_room window c).max_keys ≡ c.max_keys)
  unfolding make_room
  make_room_limits = ground arith

  reopened :
      (key : String)
      → used key window c ≡ 0
      → Counts key window c (open_bucket key window (make_room window c))
  reopened key unused =
      let room = make_room window c in
      let same = used-make_room key in
      let (limit, keys) = make_room_limits in
      let opened = open_bucket-Counts key window room make_room-Distinct (same ∙ unused) in
      record {
        limit = opened.limit ∙ limit;
        distinct = opened.distinct;
        own = omega (arith, opened.own, same);
        fits = λ h.
            subst (λ x. used key window (open_bucket key window room).0 ≤ x) limit (opened.fits h);
        refused = λ h. ground (arith, opened.refused h, same, limit, keys);
        others = λ j differ. opened.others j differ ∙ used-make_room j;
      }

serve_call-Counts :
    (key : String) (window : ℕ) (c : Limiter)
    → Distinct c.counters
    → (found : Option Bucket) → lookup key c.counters ≡ found
    → Counts key window c (serve_call key window found c)
unfolding serve_call
serve_call-Counts key window c d none at_key = reopened window c d key (ap (counted window) at_key)
serve_call-Counts key window c d (some b) at_key = elim (Bool-cases (eqb b.window window)) [
  | inl now ↦
      rw now (spend-Counts key window b c d (ground (arith, now)) (ground (arith, now, at_key)))
  | inr before ↦ rw before (reopened window c d key (ground (arith, before, at_key)))
]

-- A call adds one to its key's count in the window if it is admitted and nothing if not, leaves
-- the counts of other keys in that window, is admitted within the limit, and is refused only at
-- the limit or with the counters full (`Counts`), where no key has two counters.
pub limit_call-Counts :
    (key : String) (now : ℕ) (c : Limiter)
    → Distinct c.counters
    → Counts key (window_of now) c (limit_call key now c)
unfolding limit_call
limit_call-Counts key now c d =
    serve_call-Counts key (window_of now) c d (lookup key c.counters) refl

-- Calls, one after another, each of a key at a time; how many of one key were admitted.
unfoldable pub admitted : String → List (String × ℕ) → Limiter → ℕ
unfolding limit_call
admitted key [] c = 0
admitted key ((k, now) ∷ calls) c =
    let (after, success) = limit_call k now c in
    (if k == key then one_if success else 0) + admitted key calls after

abbrev pub AllIn : ℕ → List (String × ℕ) → Type 0
AllIn window [] = Unit {0}
AllIn window ((k, now) ∷ calls) = (window_of now ≡ window) × AllIn window calls

-- Of calls in one window, whatever their keys, the limiter admits a key at most so often that,
-- with the calls already counted for it in that window, its limit is not passed, where it had
-- not been passed and no key has two counters.
pub admitted_bound :
    (key : String) (window : ℕ) (calls : List (String × ℕ)) (c : Limiter)
    → Distinct c.counters
    → AllIn window calls
    → used key window c ≤ c.limit
    → used key window c + admitted key calls c ≤ c.limit
unfolding admitted
admitted_bound key window [] c d all h = omega (arith, h)
admitted_bound key window ((k, now) ∷ calls) c d all h =
    let counts =
      subst (λ w. Counts k w c (limit_call k now c)) all.0 (limit_call-Counts k now c d) in
    let after = (limit_call k now c).0 in
    let success = (limit_call k now c).1 in
    let go = admitted_bound key window calls after counts.distinct all.1 in
    elim (Bool-cases (k == key)) [
      | inl mine ↦
          let same : k ≡ key = (==_iff k key).0 mine in
          let own : used key window after ≡ used key window c + one_if success =
            subst (λ x. used x window after ≡ used x window c + one_if success) same counts.own in
          let fits : success ≡ true → used key window after ≤ c.limit =
            subst (λ x. success ≡ true → used x window after ≤ c.limit) same counts.fits in
          elim (Bool-cases success) [
            | inl granted ↦ rw mine (
                omega (
                  arith,
                  own,
                  counts.limit,
                  go (subst (λ x. used key window after ≤ x) (sym counts.limit) (fits granted)),
                ))
            | inr denied ↦ rw mine (ground (arith, denied, own, counts.limit, go, h))
          ]
      | inr other ↦
          let kept = counts.others key (ne_of_==_false k key other) in
          rw other (ground (arith, kept, counts.limit, go, h))
    ]
