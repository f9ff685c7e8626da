-- ===== src/Challenges.antt =====
-- packages/fleet-worker/src/tokenv1.mjs, createChallengeBook: the nonces of the high-security
-- handshake that are issued and not yet used. `E` is what is kept with a nonce beside its key.
pub mod Lists
pub mod Agreement
pub mod Runs
pub mod Survival
use fleet_for_agent.Base.{
  ℕ, String, Bool, not, ◌&&◌, Option, none, some, List, [], ◌∷◌, ◌++◌, filter, ltb, length, or_else,
  if◌then◌else◌,
}
use fleet_for_agent.Base.Eq.{◌==◌, string_eq}
use fleet_for_agent.Base.Assoc.{Assoc, lookup, remove, set}
use fleet_for_agent.Base.Text.{is_empty}

abbrev pub challenge_max_live : ℕ
challenge_max_live = 64

-- `list.shift()` while the list is too long: what stays, and what was dropped.
unfoldable pub shift_to : ℕ → List String → List String × List String
shift_to max [] = ([], [])
shift_to max (n ∷ list) =
    let (kept, dropped) = shift_to max list in
    if ltb max (length (n ∷ list)) then (kept, n ∷ dropped) else (n ∷ list, [])

abbrev pub other_than : String → String → Bool
other_than nonce n = not (is_empty n) && not (n == nonce)

unfoldable pub drop_challenge_nonce : List String → String → List String
drop_challenge_nonce prev nonce = filter (other_than nonce) prev

unfoldable pub next_challenge_list : List String → String → ℕ → List String × List String
unfolding shift_to
next_challenge_list prev nonce max = shift_to max (filter (other_than nonce) prev ++ nonce ∷ [])

-- A key without a nonce has no list.
abbrev pub set_left : String → List String → Assoc String (List String) → Assoc String (List String)
set_left kid [] lists = remove kid lists
set_left kid (n ∷ left) lists = set kid (n ∷ left) lists

pub record Challenge (E : Type 0) : Type 0 where
  pub kid : String
  pub extra : E

pub record ChallengeBook (E : Type 0) : Type 0 where
  pub by_nonce : Assoc String (Challenge E)
  pub by_kid : Assoc String (List String)

module _ {E : Type 0} where
  unfoldable pub delete_nonces :
      List String → Assoc String (Challenge E) → Assoc String (Challenge E)
  delete_nonces [] rows = rows
  delete_nonces (n ∷ ns) rows = delete_nonces ns (remove n rows)

  abbrev pub nonces_of : String → ChallengeBook E → List String
  nonces_of kid b = or_else (lookup kid b.by_kid) []

  unfoldable pub put_challenge : ℕ → String → String → E → ChallengeBook E → ChallengeBook E
  unfolding next_challenge_list delete_nonces
  put_challenge max kid nonce extra b =
      let (list, dropped) = next_challenge_list (nonces_of kid b) nonce max in
      record {
        by_nonce =
            set nonce (record { kid = kid; extra = extra }) (delete_nonces dropped b.by_nonce);
        by_kid = set kid list b.by_kid;
      }

  unfoldable pub take_challenge : String → ChallengeBook E → ChallengeBook E × Option (Challenge E)
  unfolding drop_challenge_nonce
  take_challenge nonce b = elim (lookup nonce b.by_nonce) [
    | none ↦ (b, none)
    | some row ↦ (
      record {
        by_nonce = remove nonce b.by_nonce;
        by_kid = set_left row.kid (drop_challenge_nonce (nonces_of row.kid b) nonce) b.by_kid;
      },
      some row,
    )
  ]

  unfoldable pub clear_kid : String → ChallengeBook E → ChallengeBook E
  unfolding delete_nonces
  clear_kid kid b = record {
    by_nonce = delete_nonces (nonces_of kid b) b.by_nonce;
    by_kid = remove kid b.by_kid;
  }

abbrev pub empty_challenge_book : {E : Type 0} → ChallengeBook E
empty_challenge_book = record { by_nonce = []; by_kid = [] }
