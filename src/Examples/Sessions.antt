-- ===== src/Examples/Sessions.antt =====
-- packages/fleet-worker/src/session.mjs on a book of one claim, and of that claim made again.
use fleet_for_agent.Base.{inl, inr, ◌≡◌, ◌≢◌, refl, none, some, true, false}
use fleet_for_agent.Base.Eq.{string_eq}
use fleet_for_agent.Base.Assoc.{lookup, set}
use fleet_for_agent.Base.Text.{is_empty, trim}
use text.Mathlib.TextLemmas.{cons≢nil}
use fleet_for_agent.SessionBook.{
  Book, create_session_book, claim, finish, is_finished, resolve, ticket_text,
  normalize_fingerprint,
}
use fleet_for_agent.SessionBook.Owners.{
  Reached, start, claimed, IsOwned, Allowed, Reached-IsOwned, resolve-Allowed, is_finished-finish,
}

abbrev one_claim : Book
one_claim = claim (some "ann") (some "t1") create_session_book

one_claim-Reached : Reached one_claim
unfolding lookup create_session_book
one_claim-Reached = claimed start (some "ann") (some "t1") (inl refl)

-- The retry of an operation claims its ticket again.
abbrev two_claims : Book
two_claims = claim (some "ann") (some "t1") one_claim

two_claims-Reached : Reached two_claims
unfolding lookup create_session_book claim set is_empty trim ticket_text normalize_fingerprint
two_claims-Reached = claimed one_claim-Reached (some "ann") (some "t1") (inr refl)

Reached-IsOwned_example : IsOwned two_claims
Reached-IsOwned_example = Reached-IsOwned two_claims-Reached

shown : (resolve (some "ann") none one_claim).corr ≢ ""
unfolding resolve claim lookup is_empty trim set create_session_book
shown h = cons≢nil h

resolve-Allowed_example :
    ((resolve (some "ann") none one_claim).drop ≡ false) × Allowed "ann" "t1" one_claim
unfolding resolve claim lookup is_empty trim set create_session_book
resolve-Allowed_example =
    resolve-Allowed one_claim (Reached-IsOwned one_claim-Reached) (some "ann") none shown

is_finished-finish_example : is_finished (some "t1") (finish (some "t1") one_claim) ≡ true
unfolding claim lookup ticket_text is_empty trim set create_session_book
is_finished-finish_example = is_finished-finish (some "t1") (some "t1") one_claim "ann" refl
