-- ===== src/Challenges/Survival.antt =====
-- packages/fleet-worker/src/tokenv1.mjs, nextChallengeList: which nonces a new one displaces.
use fleet_for_agent.Base.{
  ℕ, ◌+◌, ◌≤◌, ◌<◌, ◌≡◌, refl, sym, ap, subst, ◌∙◌, inl, inr, String, Bool, true, false, not, ◌&&◌,
  ◌||◌, none, some, List, [], ◌∷◌, ◌++◌, filter, length, length-append, length-filter-le, arith,
  if◌then◌else◌, Bool-cases, Option-cases,
}
use fleet_for_agent.Base.Eq.{◌==◌, ==_iff, string_eq}
use fleet_for_agent.Base.Assoc.{lookup, lookup-set, lookup-remove}
use fleet_for_agent.Base.Text.{is_empty}
use fleet_for_agent.Challenges.{
  drop_challenge_nonce, shift_to, other_than, Challenge, ChallengeBook, put_challenge,
  take_challenge, clear_kid, delete_nonces, next_challenge_list, nonces_of,
}
use fleet_for_agent.Challenges.Agreement.{
  Agrees, lookup-delete_nonces, nonces_of_set, nonces_of_left, unnamed, put_challenge-Agrees,
}
use fleet_for_agent.Challenges.Lists.{has, has-append, has-filter, shift_to-append}
use fleet_for_agent.Challenges.Runs.{
  BookCall, put_call, take_call, clear_call, run_call, run_calls, AreFresh, run_call-Agrees,
  take_challenge_gone,
}

-- How many nonces of a list are newer than this one.
abbrev pub newer : String → List String → ℕ
newer nonce [] = 0
newer nonce (n ∷ ns) = if n == nonce then length ns else newer nonce ns

newer_last :
    (nonce n : String) (ns : List String)
    → has nonce ns ≡ true
    → newer nonce (ns ++ n ∷ []) ≡ newer nonce ns + 1
newer_last nonce n [] h = cc h
newer_last nonce n (x ∷ ns) h = ground (arith, newer_last nonce n ns, length-append ns (n ∷ []), h)

newer_new :
    (nonce : String) (ns : List String) → has nonce ns ≡ false → newer nonce (ns ++ nonce ∷ []) ≡ 0
newer_new nonce [] h = ground arith
newer_new nonce (x ∷ ns) h = ground (arith, newer_new nonce ns, h)

newer-filter-le :
    (n nonce : String) (ns : List String)
    → other_than n nonce ≡ true
    → newer nonce (filter (other_than n) ns) ≤ newer nonce ns
newer-filter-le n nonce [] h = omega arith
newer-filter-le n nonce (x ∷ ns) h = elim (Bool-cases (x == nonce)) [
  | inl same ↦
      let kept : other_than n x ≡ true =
        subst (λ y. other_than n y ≡ true) (sym ((==_iff x nonce).0 same)) h in
      ground (arith, kept, same, length-filter-le (other_than n) ns)
  | inr differ ↦ ground (arith, newer-filter-le n nonce ns, h, differ)
]

-- What the loop shifts away is at least `max` from the end.
shift_to_keeps :
    (max : ℕ) (nonce : String) (ns : List String)
    → has nonce ns ≡ true
    → newer nonce ns < max
    → (has nonce (shift_to max ns).1 ≡ false) × (newer nonce (shift_to max ns).0 ≡ newer nonce ns)
unfolding shift_to
shift_to_keeps max nonce [] h near = cc h
shift_to_keeps max nonce (n ∷ ns) h near = ground (arith, shift_to_keeps max nonce ns, h, near)

module _ {E : Type 0} where
  -- A challenge that is held for a key, with at most so many newer ones.
  abbrev pub Waits : String → Challenge E → ℕ → ChallengeBook E → Type 0
  Waits nonce row j b =
      (lookup nonce b.by_nonce ≡ some row) × (newer nonce (nonces_of row.kid b) ≤ j)

  -- The calls that take the nonce, or clear its key, or put it again.
  abbrev pub ends : String → String → BookCall E → Bool
  ends nonce kid (put_call k n extra) = n == nonce
  ends nonce kid (take_call n) = n == nonce
  ends nonce kid (clear_call k) = k == kid

  abbrev pub none_ends : String → String → List (BookCall E) → Bool
  none_ends nonce kid [] = true
  none_ends nonce kid (call ∷ calls) = not (ends nonce kid call) && none_ends nonce kid calls

  abbrev pub puts_for : String → List (BookCall E) → ℕ
  puts_for kid [] = 0
  puts_for kid (put_call k n extra ∷ calls) =
      if k == kid then 1 + puts_for kid calls else puts_for kid calls
  puts_for kid (take_call n ∷ calls) = puts_for kid calls
  puts_for kid (clear_call k ∷ calls) = puts_for kid calls

  moved_newer :
      (nonce kid k : String) (b : ChallengeBook E)
      → (kid == k) ≡ true
      → newer nonce (nonces_of kid b) ≡ newer nonce (nonces_of k b)
  moved_newer nonce kid k b same = ap (λ j. newer nonce (nonces_of j b)) ((==_iff kid k).0 same)

  put-Waits :
      (max j : ℕ) (nonce : String) (row : Challenge E) (kid n : String) (extra : E)
      (b : ChallengeBook E)
      → Agrees max b
      → (n == nonce) ≡ false
      → (if kid == row.kid then 1 else 0) + j < max
      → Waits nonce row j b
      → Waits nonce row ((if kid == row.kid then 1 else 0) + j) (put_challenge max kid n extra b)
  unfolding put_challenge next_challenge_list
  put-Waits max j nonce row kid n extra b a other near w =
      let old = filter (other_than n) (nonces_of kid b) in
      let list = old ++ n ∷ [] in
      let next : Challenge E = record { kid = kid; extra = extra } in
      let dropped = (shift_to max list).1 in
      let apart : is_empty nonce ≡ false =
        ground (arith, unnamed b nonce row.kid a.named, w.0, ==_iff row.kid row.kid) in
      let here = has-filter n nonce (nonces_of kid b) in
      let listed = has-append nonce old (n ∷ []) in
      let parted : (has nonce dropped || has nonce (shift_to max list).0) ≡ has nonce list =
        sym (has-append nonce dropped (shift_to max list).0)
        ∙ ap (has nonce) (shift_to-append max list) in
      let stored = lookup-set n nonce next (delete_nonces dropped b.by_nonce) in
      let left = lookup-delete_nonces nonce dropped b.by_nonce in
      let lists = nonces_of_set kid row.kid (shift_to max list).0 b.by_kid in
      elim (Bool-cases (kid == row.kid)) [
        | inl same ↦
            let moved = moved_newer nonce kid row.kid b same in
            let found : has nonce old ≡ true = ground (
              arith,
              here,
              a.same nonce kid,
              w.0,
              same,
              ==_iff kid row.kid,
              ==_iff row.kid kid,
              apart,
              other,
              ==_iff n nonce,
              ==_iff nonce n,
            ) in
            let older : newer nonce old ≤ newer nonce (nonces_of kid b) =
              newer-filter-le n nonce (nonces_of kid b) (ground (arith, here, found)) in
            let added = newer_last nonce n old found in
            let stays =
              shift_to_keeps max nonce list (ground (arith, listed, found))
                (ground (arith, added, older, moved, w.1, near, same)) in
            (
              ground (arith, stored, left, stays.0, w.0, other),
              ground (arith, lists, same, stays.1, added, older, moved, w.1),
            )
        | inr differ ↦
            let absent : has nonce dropped ≡ false = ground (
              arith,
              parted,
              listed,
              here,
              a.same nonce kid,
              w.0,
              differ,
              ==_iff kid row.kid,
              ==_iff row.kid kid,
              other,
            ) in
            (ground (arith, stored, left, absent, w.0, other), ground (arith, lists, differ, w.1))
      ]

  take_newer :
      (n nonce kid : String) (b : ChallengeBook E)
      → other_than n nonce ≡ true
      → newer nonce (nonces_of kid (take_challenge n b).0) ≤ newer nonce (nonces_of kid b)
  unfolding take_challenge drop_challenge_nonce
  take_newer n nonce kid b differ = elim (Option-cases (lookup n b.by_nonce)) [
    | inl absent ↦ rw (absent, take_challenge) (omega arith)
    | inr (row, present) ↦
        let less = newer-filter-le n nonce (nonces_of row.kid b) differ in
        let lists =
          nonces_of_left row.kid kid (filter (other_than n) (nonces_of row.kid b)) b.by_kid in
        let moved = moved_newer nonce row.kid kid b in
        rw (present, take_challenge) (ground (arith, lists, less, moved))
  ]

  call-Waits :
      (max j : ℕ) (nonce : String) (row : Challenge E) (call : BookCall E) (b : ChallengeBook E)
      → Agrees max b
      → ends nonce row.kid call ≡ false
      → puts_for row.kid (call ∷ []) + j < max
      → Waits nonce row j b
      → Waits nonce row (puts_for row.kid (call ∷ []) + j) (run_call max call b)
  unfolding run_call clear_kid
  call-Waits max j nonce row (put_call kid n extra) b a other near w =
      put-Waits max j nonce row kid n extra b a other near w
  call-Waits max j nonce row (take_call n) b a other near w =
      let apart : is_empty nonce ≡ false =
        ground (arith, unnamed b nonce row.kid a.named, w.0, ==_iff row.kid row.kid) in
      let differ : other_than n nonce ≡ true =
        ground (arith, apart, other, ==_iff n nonce, ==_iff nonce n) in
      let less = take_newer n nonce row.kid b differ in
      (ground (arith, take_challenge_gone n nonce b, w.0, other), omega (arith, less, w.1))
  call-Waits max j nonce row (clear_call kid) b a other near w = (
    ground (
      arith,
      lookup-delete_nonces nonce (nonces_of kid b) b.by_nonce,
      a.same nonce kid,
      w.0,
      other,
      ==_iff kid row.kid,
      ==_iff row.kid kid,
    ),
    ground (arith, lookup-remove kid row.kid b.by_kid, w.1, other),
  )

  puts_for-cons :
      (kid : String) (call : BookCall E) (calls : List (BookCall E))
      → puts_for kid (call ∷ calls) ≡ puts_for kid (call ∷ []) + puts_for kid calls
  puts_for-cons kid (put_call k n extra) calls = ground arith
  puts_for-cons kid (take_call n) calls = omega arith
  puts_for-cons kid (clear_call k) calls = omega arith

  calls_wait :
      (max j : ℕ) (nonce : String) (row : Challenge E) (calls : List (BookCall E))
      (b : ChallengeBook E)
      → 1 ≤ max
      → Agrees max b
      → AreFresh max calls b
      → none_ends nonce row.kid calls ≡ true
      → puts_for row.kid calls + j < max
      → Waits nonce row j b
      → lookup nonce (run_calls max calls b).by_nonce ≡ some row
  unfolding run_calls
  calls_wait max j nonce row [] b room a fresh stay near w = w.0
  calls_wait max j nonce row (call ∷ calls) b room a fresh stay near w =
      let counted = puts_for-cons row.kid call calls in
      calls_wait max (puts_for row.kid (call ∷ []) + j) nonce row calls (run_call max call b) room
        (run_call-Agrees max call b room fresh.0 a) fresh.1 (ground (arith, stay))
        (omega (arith, near, counted))
        (call-Waits max j nonce row call b a (ground (arith, stay)) (omega (arith, near, counted))
          w)

  put_starts :
      (max : ℕ) (kid nonce : String) (extra : E) (b : ChallengeBook E)
      → Agrees max b
      → is_empty nonce ≡ false
      → lookup nonce b.by_nonce ≡ none
      → 1 ≤ max
      → Waits nonce (record { kid = kid; extra = extra }) 0 (put_challenge max kid nonce extra b)
  unfolding put_challenge next_challenge_list
  put_starts max kid nonce extra b a full new room =
      let row : Challenge E = record { kid = kid; extra = extra } in
      let old = filter (other_than nonce) (nonces_of kid b) in
      let list = old ++ nonce ∷ [] in
      let absent : has nonce old ≡ false =
        ground (arith, has-filter nonce nonce (nonces_of kid b), a.same nonce kid, new) in
      let first = newer_new nonce old absent in
      let stays =
        shift_to_keeps max nonce list
          (ground (arith, has-append nonce old (nonce ∷ []), ==_iff nonce nonce))
          (omega (arith, first, room)) in
      (
        ground (
          arith,
          lookup-set nonce nonce row (delete_nonces (shift_to max list).1 b.by_nonce),
          ==_iff nonce nonce,
        ),
        ground (
          arith,
          nonces_of_set kid kid (shift_to max list).0 b.by_kid,
          ==_iff kid kid,
          stays.1,
          first,
        ),
      )

  -- A nonce that was put fresh into a book whose maps agree can be taken, with its key and data,
  -- after any calls with fresh nonces that put fewer than `max` for its key, and do not take it,
  -- put it or clear its key.
  pub challenge_survives :
      (max : ℕ) (kid nonce : String) (extra : E) (calls : List (BookCall E)) (b : ChallengeBook E)
      → Agrees max b
      → is_empty nonce ≡ false
      → lookup nonce b.by_nonce ≡ none
      → AreFresh max calls (put_challenge max kid nonce extra b)
      → none_ends nonce kid calls ≡ true
      → puts_for kid calls < max
      → (take_challenge nonce (run_calls max calls (put_challenge max kid nonce extra b))).1
        ≡ some (record { kid = kid; extra = extra })
  unfolding take_challenge
  challenge_survives max kid nonce extra calls b a full new fresh stay near =
      let row : Challenge E = record { kid = kid; extra = extra } in
      let held =
        calls_wait max 0 nonce row calls (put_challenge max kid nonce extra b) (omega (arith, near))
          (put_challenge-Agrees max kid nonce extra b (omega (arith, near)) full new a) fresh stay
          (omega (arith, near))
          (put_starts max kid nonce extra b a full new (omega (arith, near))) in
      rw (held, take_challenge) refl
