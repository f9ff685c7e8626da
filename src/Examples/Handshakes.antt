-- ===== src/Examples/Handshakes.antt =====
-- src/lib/fleet/v1.server.ts on one account, with a wrapping that hides nothing, and the
-- Worker's resolveWrap on the same.
use fleet_for_agent.Base.{◌≡◌, refl, String, false, Option, none, some, List, [], ◌∷◌, ok, arith}
use fleet_for_agent.Base.Eq.{string_eq}
use fleet_for_agent.Base.Assoc.{lookup}
use fleet_for_agent.Base.Text.{is_empty, is_space, trim}
use fleet_for_agent.Challenges.{ChallengeBook, empty_challenge_book, challenge_max_live}
use fleet_for_agent.Challenges.Agreement.{empty-Agrees}
use fleet_for_agent.Challenges.Runs.{run_calls}
use fleet_for_agent.Tokens.{oaep, parse_authorization, fleet_oaep_value}
use fleet_for_agent.Tokens.Headers.{parse-fleet_oaep_value}
use fleet_for_agent.Handshake.{
  TokenRow, Issued, actor, refused, handshake, lookup_hub_actor, issue_challenge, unwrap_auth,
  hash_hub_token,
}
use fleet_for_agent.WorkerHandshake.{WorkerUser, WorkerStore, resolve_wrap}
use fleet_for_agent.WorkerHandshake.Wraps.{WrapKnown, resolve_wrap-WrapKnown}
use fleet_for_agent.Handshake.Callers.{Known, lookup_hub_actor-Known}
use fleet_for_agent.Handshake.Replay.{replay_refused, handshake_accepted}

-- A wrapped text is its nonce.
abbrev opens : String → String → Option (Option String × Option String)
opens priv wrap = some (some "sec", some wrap)

abbrev as_is : String → String
as_is s = s

abbrev signed : String → String → String
signed priv message = message

abbrev account : TokenRow
account = record { user_id = "u"; token_hash = "sec"; kid = "k"; priv = "p" }

abbrev accounts : List TokenRow
accounts = account ∷ []

abbrev header : Option String
header = some (fleet_oaep_value "k" "n1")

header-oaep : parse_authorization header ≡ oaep "k" "n1"
unfolding is_space is_empty
header-oaep = parse-fleet_oaep_value "k" "n1" refl refl refl refl refl

abbrev asked : ChallengeBook Issued
asked = (issue_challenge signed accounts "k" "https://hub" "n1" 1000 empty_challenge_book).0

named : is_empty "k" ≡ false
unfolding is_empty
named = refl

keyed : is_empty account.priv ≡ false
unfolding is_empty
keyed = refl

opened : unwrap_auth opens account.priv "n1" ≡ some ("sec", "n1")
unfolding unwrap_auth is_empty
opened = refl

proved : hash_hub_token as_is "sec" ≡ account.token_hash
unfolding hash_hub_token trim
proved = refl

some_nonce : is_empty "n1" ≡ false
unfolding is_empty
some_nonce = refl

unused : lookup "n1" (empty_challenge_book {E = Issued}).by_nonce ≡ none
unfolding lookup
unused = refl

accepted :
    (lookup_hub_actor opens as_is accounts header 2000 (run_calls challenge_max_live [] asked)).1
    ≡ actor "u" "k" "sec"
accepted =
    handshake_accepted opens as_is signed accounts account "k" "n1" "https://hub" "sec" "n1" header
      1000 2000 [] empty_challenge_book header-oaep refl named keyed opened proved
      (empty-Agrees challenge_max_live) some_nonce unused tt refl (omega arith) (omega arith)

handshake_accepted_example :
    (lookup_hub_actor opens as_is accounts header 2000 (run_calls challenge_max_live [] asked)).1
    ≡ actor "u" "k" "sec"
handshake_accepted_example =
    handshake_accepted opens as_is signed accounts account "k" "n1" "https://hub" "sec" "n1" header
      1000 2000 [] empty_challenge_book header-oaep refl named keyed opened proved
      (empty-Agrees challenge_max_live) some_nonce unused tt refl (omega arith) (omega arith)

lookup_hub_actor-Known_example :
    Known opens as_is accounts 2000
      (run_calls challenge_max_live [] asked)
      (lookup_hub_actor opens as_is accounts header 2000 (run_calls challenge_max_live [] asked)).0
      "u"
      "k"
      "sec"
lookup_hub_actor-Known_example =
    lookup_hub_actor-Known opens as_is accounts header 2000 (run_calls challenge_max_live [] asked)
      "u" "k" "sec" accepted

replay_refused_example :
    (lookup_hub_actor opens as_is accounts header 3000 (
      run_calls challenge_max_live []
        (lookup_hub_actor opens as_is accounts header 2000 asked).0)).1
    ≡ refused handshake
replay_refused_example =
    replay_refused opens as_is accounts account header "k" "n1" "sec" "n1" 2000 3000
      challenge_max_live [] asked header-oaep refl keyed opened refl

abbrev worker_user : WorkerUser
worker_user = record {
  id = "u";
  email = "u@x";
  banned = false;
  priv = "p";
  kid = "k";
  token_hash = "sec";
}

abbrev worker_store : WorkerStore
worker_store = record {
  chal = ("n1", record { kid = "k"; user_id = "u"; exp = 5000 }) ∷ [];
  chals = ("k", "n1" ∷ []) ∷ [];
  revoked = [];
  kids = ("k", "u") ∷ [];
  users = ("u", worker_user) ∷ [];
}

worker_accepts : (resolve_wrap opens as_is "k" "n1" 2000 false worker_store).1 ≡ ok worker_user
unfolding resolve_wrap lookup is_empty trim
worker_accepts = refl

resolve_wrap-WrapKnown_example :
    WrapKnown opens as_is "k" "n1" 2000 worker_store
      (resolve_wrap opens as_is "k" "n1" 2000 false worker_store).0
      worker_user
resolve_wrap-WrapKnown_example =
    resolve_wrap-WrapKnown opens as_is "k" "n1" 2000 false worker_store worker_user worker_accepts
