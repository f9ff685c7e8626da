-- ===== src/Handshake.antt =====
-- src/lib/fleet/v1.server.ts, lookupHubActor and issueChallenge, with unwrapAuth and hashHubToken of
-- packages/fleet-worker/src/tokenv1.mjs: how the app's hub knows a caller by a wrapped token.
-- The table of tokens is read and not written here. The cryptography is a parameter: `decrypt` gives
-- the members `sec` and `nonce` that a wrapped text opens to, `digest` is SHA-256 in hexadecimal, and
-- `sign` signs with a private key; so are the random nonce and the clock's reads.
pub mod Callers
pub mod Replay
use fleet_for_agent.Base.{
  ℕ, ◌+◌, String, Bool, true, false, not, ◌&&◌, ◌||◌, Option, none, some, List, [], ◌∷◌, ltb,
  Result, ok, err, if◌then◌else◌,
}
use fleet_for_agent.Base.Eq.{◌==◌, string_eq}
use fleet_for_agent.Base.Text.{trim, is_empty}
use fleet_for_agent.Challenges.{
  Challenge, ChallengeBook, put_challenge, take_challenge, challenge_max_live,
}
use fleet_for_agent.Tokens.{
  Authorization, no_credential, oaep, bearer, parse_authorization, is_legacy_flt, starts_with,
  token_v1_prefix, text_of, challenge_message,
}

abbrev pub challenge_ttl_ms : ℕ
challenge_ttl_ms = 120000

pub record TokenRow : Type 0 where
  pub user_id : String
  pub token_hash : String
  pub kid : String
  pub priv : String

-- What a challenge is kept with.
pub record Issued : Type 0 where
  pub user_id : String
  pub exp : ℕ

pub data HandshakeError : Type 0 where
  key_mismatch upgrade handshake : HandshakeError

-- An actor, an error, or neither.
pub data Actor : Type 0 where
  unknown : Actor
  refused : HandshakeError → Actor
  actor : String → String → String → Actor

abbrev pub token_row : String → List TokenRow → Option TokenRow
token_row kid [] = none
token_row kid (row ∷ rows) = if row.kid == kid then some row else token_row kid rows

unfoldable pub unwrap_auth :
    (String → String → Option (Option String × Option String))
    → String
    → String
    → Option (String × String)
unwrap_auth decrypt priv wrap = elim (decrypt priv wrap) [
  | none ↦ none
  | some (sec, nonce) ↦
      if is_empty (text_of sec) || is_empty (text_of nonce)
      then none
      else some (text_of sec, text_of nonce)
]

unfoldable pub hash_hub_token : (String → String) → String → String
hash_hub_token digest sec = digest (trim sec)

-- `!chal || chal.kid !== auth.kid || chal.userId !== row.user_id || chal.exp < Date.now()`
unfoldable pub is_refused : Option (Challenge Issued) → String → String → ℕ → Bool
is_refused none kid user now = true
is_refused (some chal) kid user now =
    not (chal.kid == kid) || not (chal.extra.user_id == user) || ltb chal.extra.exp now

module _ (decrypt : String → String → Option (Option String × Option String))
    (digest : String → String) where
  -- From the row whose key the header names.
  unfoldable pub open_wrap :
      TokenRow → String → String → ℕ → ChallengeBook Issued → ChallengeBook Issued × Actor
  unfolding unwrap_auth hash_hub_token is_refused take_challenge
  open_wrap row kid wrap now b = elim (unwrap_auth decrypt row.priv wrap) [
    | none ↦ (b, refused key_mismatch)
    | some opened ↦
        let (left, chal) = take_challenge opened.1 b in
        (
          left,
          if is_refused chal kid row.user_id now
              then refused handshake
              else if hash_hub_token digest opened.0 == row.token_hash
              then actor row.user_id row.kid row.token_hash
              else refused key_mismatch,
        )
  ]

  abbrev pub lookup_row :
      Option TokenRow → String → String → ℕ → ChallengeBook Issued → ChallengeBook Issued × Actor
  lookup_row none kid wrap now b = (b, refused key_mismatch)
  lookup_row (some row) kid wrap now b =
      if is_empty row.priv || not (row.kid == kid)
      then (b, refused key_mismatch)
      else open_wrap row kid wrap now b

  abbrev pub lookup_actor :
      List TokenRow → Authorization → ℕ → ChallengeBook Issued → ChallengeBook Issued × Actor
  lookup_actor rows no_credential now b = (b, unknown)
  lookup_actor rows (oaep kid wrap) now b = lookup_row (token_row kid rows) kid wrap now b
  lookup_actor rows (bearer token) now b = (
    b,
    if is_legacy_flt (some token) || starts_with "flt_1." token then refused upgrade else unknown,
  )

  unfoldable pub lookup_hub_actor :
      List TokenRow → Option String → ℕ → ChallengeBook Issued → ChallengeBook Issued × Actor
  unfolding open_wrap is_legacy_flt starts_with parse_authorization
  lookup_hub_actor rows authorization now b =
      lookup_actor rows (parse_authorization authorization) now b

-- The answer to a request for a challenge.
pub record Answer : Type 0 where
  pub nonce : String
  pub kid : String
  pub aud : String
  pub exp : ℕ
  pub sig : String

module _ (sign : String → String → String) where
  unfoldable pub issue_row :
      Option TokenRow
      → String
      → String
      → String
      → ℕ
      → ChallengeBook Issued
      → ChallengeBook Issued × Result HandshakeError Answer
  unfolding put_challenge challenge_message
  issue_row none kid origin nonce now b = (b, err key_mismatch)
  issue_row (some row) kid origin nonce now b =
      if is_empty row.priv || not (row.kid == kid) then (b, err key_mismatch) else (
        put_challenge challenge_max_live kid nonce
            (record { user_id = row.user_id; exp = now + challenge_ttl_ms }) b,
        ok (record {
          nonce = nonce;
          kid = kid;
          aud = origin;
          exp = now + challenge_ttl_ms;
          sig = sign row.priv (challenge_message origin kid nonce);
        }),
      )

  unfoldable pub issue_challenge :
      List TokenRow
      → String
      → String
      → String
      → ℕ
      → ChallengeBook Issued
      → ChallengeBook Issued × Result HandshakeError Answer
  unfolding issue_row
  issue_challenge rows kid origin nonce now b =
      if is_empty kid
      then (b, err key_mismatch)
      else issue_row (token_row kid rows) kid origin nonce now b
