-- ===== src/Handshake/Callers.antt =====
-- src/lib/fleet/v1.server.ts, lookupHubActor and issueChallenge: what a wrapped token is accepted for.
use mathlib.Core.Option.{some-injective}
use fleet_for_agent.Base.{
  ℕ, ◌≤◌, ◌≡◌, refl, sym, ap, subst, ◌∙◌, inl, inr, String, true, false, not, ◌||◌, Option, none,
  some, List, [], ◌∷◌, arith, Bool-cases, Option-cases,
}
use fleet_for_agent.Base.Eq.{◌==◌, ==_iff, string_eq}
use fleet_for_agent.Base.Assoc.{lookup}
use fleet_for_agent.Base.Text.{is_empty}
use fleet_for_agent.Challenges.{Challenge, ChallengeBook, take_challenge}
use fleet_for_agent.Challenges.Runs.{take_challenge_gone}
use fleet_for_agent.Tokens.{Authorization, no_credential, oaep, bearer, parse_authorization}
use fleet_for_agent.Handshake.{
  TokenRow, Issued, actor, token_row, unwrap_auth, hash_hub_token, is_refused, open_wrap,
  lookup_row, lookup_actor, lookup_hub_actor,
}

-- A challenge that was issued to the key, and its account, and is not over.
pub record Accepts (b : ChallengeBook Issued) (now : ℕ) (user kid nonce : String) : Type 0 where
  pub chal : Challenge Issued
  pub held : lookup nonce b.by_nonce ≡ some chal
  pub own_key : chal.kid ≡ kid
  pub own_user : chal.extra.user_id ≡ user
  pub in_time : now ≤ chal.extra.exp

take_challenge_held :
    (nonce : String) (b : ChallengeBook Issued) (chal : Challenge Issued)
    → (take_challenge nonce b).1 ≡ some chal
    → lookup nonce b.by_nonce ≡ some chal
unfolding take_challenge
take_challenge_held nonce b chal h = elim (Option-cases (lookup nonce b.by_nonce)) [
  | inl absent ↦ cc (rw (absent, take_challenge) at h)
  | inr (row, present) ↦ present ∙ (rw (present, take_challenge) at h)
]

accepts :
    (b : ChallengeBook Issued) (now : ℕ) (user kid nonce : String)
    → is_refused (take_challenge nonce b).1 kid user now ≡ false
    → Accepts b now user kid nonce
unfolding is_refused
accepts b now user kid nonce h = elim (Option-cases (take_challenge nonce b).1) [
  | inl nothing ↦ cc (rw nothing at h)
  | inr (chal, taken) ↦
      let passed : is_refused (some chal) kid user now ≡ false = (rw taken at h) in
      record {
        chal = chal;
        held = take_challenge_held nonce b chal taken;
        own_key = (==_iff chal.kid kid).0 (ground (arith, passed));
        own_user = (==_iff chal.extra.user_id user).0 (ground (arith, passed));
        in_time = ground (arith, passed);
      }
]

pub token_row_key :
    (kid : String) (rows : List TokenRow) (row : TokenRow)
    → token_row kid rows ≡ some row
    → row.kid ≡ kid
token_row_key kid [] row h = cc h
token_row_key kid (r ∷ rows) row h = elim (Bool-cases (r.kid == kid)) [
  | inl same ↦
      subst (λ t. t.kid ≡ kid) (some-injective r row (rw same at h)) ((==_iff r.kid kid).0 same)
  | inr differ ↦ token_row_key kid rows row (rw differ at h)
]

pub row_serves :
    (kid : String) (rows : List TokenRow) (row : TokenRow)
    → token_row kid rows ≡ some row
    → is_empty row.priv ≡ false
    → (is_empty row.priv || not (row.kid == kid)) ≡ false
row_serves kid rows row stored keyed =
    ground (arith, keyed, token_row_key kid rows row stored, ==_iff row.kid kid)

module _ (decrypt : String → String → Option (Option String × Option String))
    (digest : String → String) where
  -- A caller is known.
  pub record Known (rows : List TokenRow) (now : ℕ) (b after : ChallengeBook Issued)
      (user kid hash : String) : Type 0 where
    pub row : TokenRow
    pub nonce : String
    pub sec : String
    pub wrap : String
    pub stored : token_row kid rows ≡ some row
    pub owner : row.user_id ≡ user
    pub hashed : row.token_hash ≡ hash
    pub opened : unwrap_auth decrypt row.priv wrap ≡ some (sec, nonce)
    pub proved : hash_hub_token digest sec ≡ hash
    pub accepted : Accepts b now user kid nonce
    pub used : lookup nonce after.by_nonce ≡ none

  known :
      (rows : List TokenRow) (row : TokenRow) (wrap sec nonce : String) (now : ℕ)
      (b : ChallengeBook Issued) (user kid hash : String)
      → token_row row.kid rows ≡ some row
      → actor row.user_id row.kid row.token_hash ≡ actor user kid hash
      → unwrap_auth decrypt row.priv wrap ≡ some (sec, nonce)
      → is_refused (take_challenge nonce b).1 row.kid row.user_id now ≡ false
      → (hash_hub_token digest sec == row.token_hash) ≡ true
      → Known rows now b (take_challenge nonce b).0 user kid hash
  known rows row wrap sec nonce now b user kid hash stored same opened live proved =
      let owner : row.user_id ≡ user = cc same in
      let key : row.kid ≡ kid = cc same in
      let hashed : row.token_hash ≡ hash = cc same in
      record {
        row = row;
        nonce = nonce;
        sec = sec;
        wrap = wrap;
        stored = subst (λ k. token_row k rows ≡ some row) key stored;
        owner = owner;
        hashed = hashed;
        opened = opened;
        proved = (==_iff (hash_hub_token digest sec) row.token_hash).0 proved ∙ hashed;
        accepted =
            subst (λ k. Accepts b now user k nonce) key
              (subst (λ u. Accepts b now u row.kid nonce) owner
                (accepts b now row.user_id row.kid nonce live));
        used = ground (arith, take_challenge_gone nonce nonce b, ==_iff nonce nonce);
      }

  open_wrap-Known :
      (rows : List TokenRow) (row : TokenRow) (wrap : String) (now : ℕ) (b : ChallengeBook Issued)
      (user kid hash : String)
      → token_row row.kid rows ≡ some row
      → (open_wrap decrypt digest row row.kid wrap now b).1 ≡ actor user kid hash
      → Known rows now b (open_wrap decrypt digest row row.kid wrap now b).0 user kid hash
  unfolding open_wrap
  open_wrap-Known rows row wrap now b user kid hash stored h =
      elim (Option-cases (unwrap_auth decrypt row.priv wrap)) [
        | inl shut ↦ cc (rw (shut, open_wrap) at h)
        | inr ((sec, nonce), opened) ↦
            elim (Bool-cases (is_refused (take_challenge nonce b).1 row.kid row.user_id now)) [
              | inl late ↦ cc (rw (opened, late, open_wrap) at h)
              | inr live ↦ elim (Bool-cases (hash_hub_token digest sec == row.token_hash)) [
                | inr other ↦ cc (rw (opened, live, other, open_wrap) at h)
                | inl same ↦
                    let here : open_wrap decrypt digest row row.kid wrap now b
                        ≡ ((take_challenge nonce b).0, actor row.user_id row.kid row.token_hash) =
                      rw (opened, live, same, open_wrap) refl in
                    subst (λ r. (r.1 ≡ actor user kid hash) → Known rows now b r.0 user kid hash)
                      (sym here)
                      (λ e.
                        known rows row wrap sec nonce now b user kid hash stored e opened live same)
                      h
              ]
            ]
      ]

  lookup_row-Known :
      (rows : List TokenRow) (k wrap : String) (now : ℕ) (b : ChallengeBook Issued)
      (user kid hash : String)
      → (lookup_row decrypt digest (token_row k rows) k wrap now b).1 ≡ actor user kid hash
      → Known rows now b (lookup_row decrypt digest (token_row k rows) k wrap now b).0 user kid hash
  lookup_row-Known rows k wrap now b user kid hash h = elim (Option-cases (token_row k rows)) [
    | inl absent ↦ cc (rw absent at h)
    | inr (row, stored) ↦ elim (Bool-cases (is_empty row.priv || not (row.kid == k))) [
      | inl bad ↦ cc (rw (stored, bad) at h)
      | inr good ↦
          let key = token_row_key k rows row stored in
          let here : lookup_row decrypt digest (token_row k rows) k wrap now b
              ≡ open_wrap decrypt digest row row.kid wrap now b =
            rw (stored, good) (ap (λ j. open_wrap decrypt digest row j wrap now b) (sym key)) in
          subst (λ r. (r.1 ≡ actor user kid hash) → Known rows now b r.0 user kid hash) (sym here)
            (open_wrap-Known rows row wrap now b user kid hash
              (subst (λ j. token_row j rows ≡ some row) (sym key) stored))
            h
    ]
  ]

  lookup_actor-Known :
      (rows : List TokenRow) (auth : Authorization) (now : ℕ) (b : ChallengeBook Issued)
      (user kid hash : String)
      → (lookup_actor decrypt digest rows auth now b).1 ≡ actor user kid hash
      → Known rows now b (lookup_actor decrypt digest rows auth now b).0 user kid hash
  lookup_actor-Known rows no_credential now b user kid hash h = cc h
  lookup_actor-Known rows (oaep k wrap) now b user kid hash h =
      lookup_row-Known rows k wrap now b user kid hash h
  lookup_actor-Known rows (bearer token) now b user kid hash h = ground (arith, h)

  -- Whatever header the app's hub reads, if it names an actor then the token's row is stored, a
  -- wrapped text opens with that row's private key to a secret with the stored hash and to a
  -- nonce, and the book held a challenge of that nonce for the same key and account, not yet
  -- over, which it holds no longer (`Known`).
  pub lookup_hub_actor-Known :
      (rows : List TokenRow) (header : Option String) (now : ℕ) (b : ChallengeBook Issued)
      (user kid hash : String)
      → (lookup_hub_actor decrypt digest rows header now b).1 ≡ actor user kid hash
      → Known rows now b (lookup_hub_actor decrypt digest rows header now b).0 user kid hash
  unfolding lookup_hub_actor
  lookup_hub_actor-Known rows header now b user kid hash h =
      lookup_actor-Known rows (parse_authorization header) now b user kid hash h
