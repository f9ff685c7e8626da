-- ===== src/Challenges/Runs.antt =====
-- packages/fleet-worker/src/tokenv1.mjs, createChallengeBook: a book through its calls, in any order.
use fleet_for_agent.Base.{
  ℕ, ◌≤◌, ◌≡◌, refl, sym, ap, inl, inr, String, Bool, true, false, not, ◌&&◌, none, List, [], ◌∷◌,
  arith, if◌then◌else◌, Option-cases,
}
use fleet_for_agent.Base.Eq.{◌==◌, ==_iff, string_eq}
use fleet_for_agent.Base.Assoc.{lookup, lookup-set, lookup-remove}
use fleet_for_agent.Base.Text.{is_empty}
use fleet_for_agent.Challenges.{
  ChallengeBook, put_challenge, take_challenge, clear_kid, empty_challenge_book, delete_nonces,
  next_challenge_list, nonces_of,
}
use fleet_for_agent.Challenges.Agreement.{
  Agrees, empty-Agrees, put_challenge-Agrees, take_challenge-Agrees, clear_kid-Agrees,
  lookup-delete_nonces,
}

pub data BookCall (E : Type 0) : Type 0 where
  put_call : String → String → E → BookCall E
  take_call : String → BookCall E
  clear_call : String → BookCall E

module _ {E : Type 0} where
  unfoldable pub run_call : ℕ → BookCall E → ChallengeBook E → ChallengeBook E
  unfolding put_challenge take_challenge clear_kid
  run_call max (put_call kid nonce extra) b = put_challenge max kid nonce extra b
  run_call max (take_call nonce) b = (take_challenge nonce b).0
  run_call max (clear_call kid) b = clear_kid kid b

  unfoldable pub run_calls : ℕ → List (BookCall E) → ChallengeBook E → ChallengeBook E
  unfolding run_call
  run_calls max [] b = b
  run_calls max (call ∷ calls) b = run_calls max calls (run_call max call b)

  -- A nonce is put that is not empty and that the book does not hold: it is 32 random bytes.
  abbrev pub IsFresh : BookCall E → ChallengeBook E → Type 0
  IsFresh (put_call kid nonce extra) b = (is_empty nonce ≡ false) × (lookup nonce b.by_nonce ≡ none)
  IsFresh (take_call nonce) b = Unit {0}
  IsFresh (clear_call kid) b = Unit {0}

  abbrev pub AreFresh : ℕ → List (BookCall E) → ChallengeBook E → Type 0
  AreFresh max [] b = Unit {0}
  AreFresh max (call ∷ calls) b = IsFresh call b × AreFresh max calls (run_call max call b)

  pub run_call-Agrees :
      (max : ℕ) (call : BookCall E) (b : ChallengeBook E)
      → 1 ≤ max
      → IsFresh call b
      → Agrees max b
      → Agrees max (run_call max call b)
  unfolding run_call
  run_call-Agrees max (put_call kid nonce extra) b room fresh a =
      put_challenge-Agrees max kid nonce extra b room fresh.0 fresh.1 a
  run_call-Agrees max (take_call nonce) b room fresh a = take_challenge-Agrees max nonce b a
  run_call-Agrees max (clear_call kid) b room fresh a = clear_kid-Agrees max kid b a

  run_calls-Agrees :
      (max : ℕ) (calls : List (BookCall E)) (b : ChallengeBook E)
      → 1 ≤ max
      → AreFresh max calls b
      → Agrees max b
      → Agrees max (run_calls max calls b)
  unfolding run_calls
  run_calls-Agrees max [] b room fresh a = a
  run_calls-Agrees max (call ∷ calls) b room fresh a =
      run_calls-Agrees max calls (run_call max call b) room fresh.1
        (run_call-Agrees max call b room fresh.0 a)

  -- From an empty book of challenges, after any calls with fresh nonces, the list of a key has
  -- just the nonces that are held for that key, each once, and at most `max` of them (`Agrees`),
  -- where `max` is not zero.
  pub run_calls_agree :
      (max : ℕ) (calls : List (BookCall E))
      → 1 ≤ max
      → AreFresh max calls empty_challenge_book
      → Agrees max (run_calls max calls empty_challenge_book)
  run_calls_agree max calls room fresh =
      run_calls-Agrees max calls empty_challenge_book room fresh (empty-Agrees max)

  abbrev pub puts : String → BookCall E → Bool
  puts nonce (put_call kid n extra) = n == nonce
  puts nonce (take_call n) = false
  puts nonce (clear_call kid) = false

  abbrev pub none_puts : String → List (BookCall E) → Bool
  none_puts nonce [] = true
  none_puts nonce (call ∷ calls) = not (puts nonce call) && none_puts nonce calls

  same_lookup :
      (b : ChallengeBook E) (nonce n : String)
      → (nonce == n) ≡ true
      → lookup n b.by_nonce ≡ lookup nonce b.by_nonce
  same_lookup b nonce n e = ap (λ m. lookup m b.by_nonce) (sym ((==_iff nonce n).0 e))

  pub take_challenge_gone :
      (nonce n : String) (b : ChallengeBook E)
      → lookup n (take_challenge nonce b).0.by_nonce
        ≡ (if nonce == n then none else lookup n b.by_nonce)
  unfolding take_challenge
  take_challenge_gone nonce n b = elim (Option-cases (lookup nonce b.by_nonce)) [
    | inl absent ↦ rw (absent, take_challenge) (ground (arith, same_lookup b nonce n, absent))
    | inr (row, present) ↦ rw (present, take_challenge) (lookup-remove nonce n b.by_nonce)
  ]

  stays_gone :
      (max : ℕ) (nonce : String) (call : BookCall E) (b : ChallengeBook E)
      → puts nonce call ≡ false
      → lookup nonce b.by_nonce ≡ none
      → lookup nonce (run_call max call b).by_nonce ≡ none
  unfolding run_call put_challenge clear_kid
  stays_gone max nonce (put_call kid n extra) b other gone =
      let dropped = (next_challenge_list (nonces_of kid b) n max).1 in
      ground (
        arith,
        lookup-set n nonce (record { kid = kid; extra = extra }) (delete_nonces dropped b.by_nonce),
        lookup-delete_nonces nonce dropped b.by_nonce,
        other,
        gone,
      )
  stays_gone max nonce (take_call n) b other gone =
      ground (arith, take_challenge_gone n nonce b, gone)
  stays_gone max nonce (clear_call kid) b other gone =
      ground (arith, lookup-delete_nonces nonce (nonces_of kid b) b.by_nonce, gone)

  all_gone :
      (max : ℕ) (nonce : String) (calls : List (BookCall E)) (b : ChallengeBook E)
      → none_puts nonce calls ≡ true
      → lookup nonce b.by_nonce ≡ none
      → lookup nonce (run_calls max calls b).by_nonce ≡ none
  unfolding run_calls
  all_gone max nonce [] b others gone = gone
  all_gone max nonce (call ∷ calls) b others gone =
      all_gone max nonce calls (run_call max call b) (ground (arith, others))
        (stays_gone max nonce call b (ground (arith, others)) gone)

  -- A nonce that was taken cannot be taken again, after any calls that do not put it again.
  pub taken_once :
      (max : ℕ) (nonce : String) (calls : List (BookCall E)) (b : ChallengeBook E)
      → none_puts nonce calls ≡ true
      → (take_challenge nonce (run_calls max calls (take_challenge nonce b).0)).1 ≡ none
  unfolding take_challenge
  taken_once max nonce calls b others =
      let gone =
        all_gone max nonce calls (take_challenge nonce b).0 others
          (ground (arith, take_challenge_gone nonce nonce b, ==_iff nonce nonce)) in
      rw (gone, take_challenge) refl
