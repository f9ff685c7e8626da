-- ===== src/WorkerHandshake.antt =====
-- packages/fleet-worker/src/index.ts, challenge and resolveWrap: the same handshake over the Worker's
-- store, one map for each key prefix. The random nonce, the clock, the origin that the audience
-- names (empty where it names none), the cryptography, and the last read of `revoked:` of each
-- method, which comes after an await, are arguments.
pub mod Wraps
use fleet_for_agent.Base.{
  ℕ, ◌+◌, ◌≡◌, refl, sym, ap, subst, ◌∙◌, inl, inr, String, Bool, true, false, not, ◌&&◌, ◌||◌,
  Option, none, some, List, [], ◌∷◌, ltb, or_else, Result, ok, err, arith, if◌then◌else◌,
  Bool-cases, Option-cases,
}
use fleet_for_agent.Base.Eq.{◌==◌, ==_iff, string_eq}
use fleet_for_agent.Base.Assoc.{Assoc, lookup, remove, put, lookup-remove}
use fleet_for_agent.Base.Keys.{text_before}
use fleet_for_agent.Base.Text.{is_empty}
use fleet_for_agent.Challenges.{drop_challenge_nonce, next_challenge_list, challenge_max_live}
use fleet_for_agent.Handshake.{challenge_ttl_ms, unwrap_auth, hash_hub_token}
use fleet_for_agent.Tokens.{challenge_message}

pub record WorkerUser : Type 0 where
  pub id : String
  pub email : String
  pub banned : Bool
  pub priv : String
  pub kid : String
  pub token_hash : String

pub record WorkerChallenge : Type 0 where
  pub kid : String
  pub user_id : String
  pub exp : ℕ

pub record WorkerStore : Type 0 where
  pub chal : Assoc String WorkerChallenge
  pub chals : Assoc String (List String)
  pub revoked : Assoc String Bool
  pub kids : Assoc String String
  pub users : Assoc String WorkerUser

pub data WorkerError : Type 0 where
  key_mismatch handshake_over banned_account : WorkerError

abbrev pub is_revoked : String → WorkerStore → Bool
is_revoked kid s = or_else (lookup kid s.revoked) false

abbrev pub user_of : Option String → WorkerStore → Option WorkerUser
user_of none s = none
user_of (some id) s = if is_empty id then none else lookup id s.users

-- The checks that both methods begin with.
abbrev pub serving : String → Option WorkerUser → Result WorkerError WorkerUser
serving kid none = err key_mismatch
serving kid (some user) =
    if user.banned
    then err banned_account
    else if is_empty user.priv || not (user.kid == kid)
    then err key_mismatch
    else ok user

unfoldable pub key_user : String → WorkerStore → Result WorkerError WorkerUser
key_user kid s =
    if is_revoked kid s then err key_mismatch else serving kid (user_of (lookup kid s.kids) s)

unfoldable pub delete_chals :
    List String → Assoc String WorkerChallenge → Assoc String WorkerChallenge
delete_chals [] rows = rows
delete_chals (n ∷ ns) rows = delete_chals ns (remove n rows)

-- The nonce, the time at which it is over, and the signature.
abbrev pub Challenged : Type 0
Challenged = String × ℕ × String

unfoldable pub issue_for :
    (String → String → String)
    → String
    → String
    → WorkerUser
    → String
    → ℕ
    → Bool
    → WorkerStore
    → WorkerStore × Result WorkerError Challenged
unfolding next_challenge_list delete_chals challenge_message
issue_for sign kid origin user nonce now revoked_later s =
    let (list, dropped) =
      next_challenge_list (or_else (lookup kid s.chals) []) nonce challenge_max_live in
    let row : WorkerChallenge = record {
      kid = kid;
      user_id = user.id;
      exp = now + challenge_ttl_ms;
    } in
    (
      record s {
        chal = put text_before nonce row (delete_chals dropped s.chal);
        chals = put text_before kid list s.chals;
      },
      if revoked_later
          then err key_mismatch
          else ok
              (nonce, now + challenge_ttl_ms, sign user.priv (challenge_message origin kid nonce)),
    )

unfoldable pub worker_challenge :
    (String → String → String)
    → String
    → String
    → String
    → ℕ
    → Bool
    → WorkerStore
    → WorkerStore × Result WorkerError Challenged
unfolding key_user issue_for
worker_challenge sign kid origin nonce now revoked_later s =
    if is_empty kid || is_empty origin then (s, err key_mismatch) else elim (key_user kid s) [
      | err e ↦ (s, err e)
      | ok user ↦ issue_for sign kid origin user nonce now revoked_later s
    ]

abbrev pub passes : Option WorkerChallenge → String → String → ℕ → Bool
passes none kid user now = false
passes (some chal) kid user now = chal.kid == kid && chal.user_id == user && not (ltb chal.exp now)

module _ (decrypt : String → String → Option (Option String × Option String))
    (digest : String → String) where
  -- Once the wrapped text is open: its nonce is used, whatever comes of it.
  unfoldable pub use_nonce :
      String
      → WorkerUser
      → String
      → String
      → ℕ
      → Bool
      → WorkerStore
      → WorkerStore × Result WorkerError WorkerUser
  unfolding drop_challenge_nonce hash_hub_token
  use_nonce kid user sec nonce now revoked_later s = (
    record s {
      chal = remove nonce s.chal;
      chals =
          put text_before kid (drop_challenge_nonce (or_else (lookup kid s.chals) []) nonce)
            s.chals;
    },
    if not (passes (lookup nonce s.chal) kid user.id now)
        then err handshake_over
        else if revoked_later || not (hash_hub_token digest sec == user.token_hash)
        then err key_mismatch
        else ok user,
  )

  unfoldable pub open_for :
      String
      → String
      → WorkerUser
      → ℕ
      → Bool
      → WorkerStore
      → WorkerStore × Result WorkerError WorkerUser
  unfolding unwrap_auth use_nonce
  open_for kid wrap user now revoked_later s = elim (unwrap_auth decrypt user.priv wrap) [
    | none ↦ (s, err key_mismatch)
    | some opened ↦ use_nonce kid user opened.0 opened.1 now revoked_later s
  ]

  unfoldable pub resolve_wrap :
      String → String → ℕ → Bool → WorkerStore → WorkerStore × Result WorkerError WorkerUser
  unfolding key_user open_for
  resolve_wrap kid wrap now revoked_later s =
      if is_empty kid || is_empty wrap then (s, err key_mismatch) else elim (key_user kid s) [
        | err e ↦ (s, err e)
        | ok user ↦ open_for kid wrap user now revoked_later s
      ]
