-- ===== src/Examples/Challenges.antt =====
-- packages/fleet-worker/src/tokenv1.mjs on a book that keeps two nonces for a key.
use fleet_for_agent.Base.{◌≡◌, refl, ℕ, none, some, List, [], ◌∷◌, arith}
use fleet_for_agent.Base.Assoc.{lookup, set, remove}
use fleet_for_agent.Base.Text.{is_empty, is_space}
use fleet_for_agent.Challenges.{ChallengeBook, put_challenge, take_challenge, empty_challenge_book}
use fleet_for_agent.Challenges.Agreement.{Agrees, empty-Agrees}
use fleet_for_agent.Challenges.Runs.{
  BookCall, put_call, run_calls, AreFresh, run_calls_agree, taken_once,
}
use fleet_for_agent.Challenges.Survival.{challenge_survives}
use fleet_for_agent.Tokens.{oaep, parse_authorization, fleet_oaep_value}
use fleet_for_agent.Tokens.Headers.{parse-fleet_oaep_value}

-- The third nonce displaces the first.
abbrev three_puts : List (BookCall ℕ)
three_puts = put_call "k" "n1" 1 ∷ put_call "k" "n2" 2 ∷ put_call "k" "n3" 3 ∷ []

three_puts-AreFresh : AreFresh 2 three_puts empty_challenge_book
unfolding run_calls put_challenge lookup is_empty set
three_puts-AreFresh = ((refl, refl), ((refl, refl), ((refl, refl), tt)))

first_displaced : (take_challenge "n1" (run_calls 2 three_puts empty_challenge_book)).1 ≡ none
unfolding run_calls take_challenge lookup set is_empty remove
first_displaced = refl

run_calls_agree_example : Agrees 2 (run_calls 2 three_puts empty_challenge_book)
run_calls_agree_example = run_calls_agree 2 three_puts (omega arith) three_puts-AreFresh

abbrev one_challenge : ChallengeBook ℕ
one_challenge = put_challenge 2 "k" "n1" 1 empty_challenge_book

abbrev one_more : List (BookCall ℕ)
one_more = put_call "k" "n2" 2 ∷ []

one_more-AreFresh : AreFresh 2 one_more one_challenge
unfolding put_challenge lookup is_empty set
one_more-AreFresh = ((refl, refl), tt)

taken_once_example :
    (take_challenge "n1" (run_calls 2 one_more (take_challenge "n1" one_challenge).0)).1 ≡ none
taken_once_example = taken_once 2 "n1" one_more one_challenge refl

challenge_survives_example :
    (take_challenge "n1" (run_calls 2 one_more one_challenge)).1
    ≡ some (record { kid = "k"; extra = 1 })
unfolding lookup is_empty
challenge_survives_example =
    challenge_survives 2 "k" "n1" 1 one_more empty_challenge_book (empty-Agrees 2) refl refl
      one_more-AreFresh refl (omega arith)

parse-fleet_oaep_value_example :
    parse_authorization (some (fleet_oaep_value "kid-1" "d3JhcA")) ≡ oaep "kid-1" "d3JhcA"
unfolding is_space is_empty
parse-fleet_oaep_value_example = parse-fleet_oaep_value "kid-1" "d3JhcA" refl refl refl refl refl
