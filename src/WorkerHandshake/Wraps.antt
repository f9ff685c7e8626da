-- ===== src/WorkerHandshake/Wraps.antt =====
-- packages/fleet-worker/src/index.ts, resolveWrap: what a wrapped token is accepted for.
use fleet_for_agent.Base.{
  ℕ, ◌≡◌, refl, sym, ap, subst, ◌∙◌, inl, inr, String, Bool, true, false, not, ◌||◌, Option, none,
  some, ok, arith, Bool-cases, Option-cases, Result-cases,
}
use fleet_for_agent.Base.Eq.{◌==◌, ==_iff, string_eq}
use fleet_for_agent.Base.Assoc.{lookup, lookup-remove}
use fleet_for_agent.Base.Text.{is_empty}
use fleet_for_agent.Handshake.{unwrap_auth, hash_hub_token}
use fleet_for_agent.WorkerHandshake.{
  WorkerUser, WorkerStore, is_revoked, user_of, serving, key_user, passes, use_nonce, open_for,
  resolve_wrap,
}

-- A user that a key serves.
abbrev pub IsServed : String → WorkerStore → WorkerUser → Type 0
IsServed kid s user = (is_revoked kid s ≡ false) × (user.banned ≡ false) × (user.kid ≡ kid)

serving-IsServed :
    (kid : String) (o : Option WorkerUser) (user : WorkerUser)
    → serving kid o ≡ ok user
    → (user.banned ≡ false) × (user.kid ≡ kid)
serving-IsServed kid none user h = cc h
serving-IsServed kid (some u) user h = elim (Bool-cases u.banned) [
  | inl banned ↦ cc (rw banned at h)
  | inr free ↦ elim (Bool-cases (is_empty u.priv || not (u.kid == kid))) [
    | inl other ↦ cc (rw (free, other) at h)
    | inr own ↦
        let same : u ≡ user = cc (rw (free, own) at h) in
        (
          ap (λ x. x.banned) (sym same) ∙ free,
          ap (λ x. x.kid) (sym same) ∙ (==_iff u.kid kid).0 (ground (arith, own)),
        )
  ]
]

key_user-IsServed :
    (kid : String) (s : WorkerStore) (user : WorkerUser)
    → key_user kid s ≡ ok user
    → IsServed kid s user
unfolding key_user
key_user-IsServed kid s user h = elim (Bool-cases (is_revoked kid s)) [
  | inl revoked ↦ cc (rw (revoked, key_user) at h)
  | inr fine ↦
      let (free, own) =
        serving-IsServed kid (user_of (lookup kid s.kids) s) user (rw (fine, key_user) at h) in
      (fine, free, own)
]

module _ (decrypt : String → String → Option (Option String × Option String))
    (digest : String → String) where
  pub record WrapKnown (kid wrap : String) (now : ℕ) (s after : WorkerStore) (user : WorkerUser)
      : Type 0 where
    pub sec : String
    pub nonce : String
    pub served : IsServed kid s user
    pub opened : unwrap_auth decrypt user.priv wrap ≡ some (sec, nonce)
    pub proved : hash_hub_token digest sec ≡ user.token_hash
    pub passed : passes (lookup nonce s.chal) kid user.id now ≡ true
    pub used : lookup nonce after.chal ≡ none

  use_nonce-WrapKnown :
      (kid wrap sec nonce : String) (u user : WorkerUser) (now : ℕ) (revoked_later : Bool)
      (s : WorkerStore)
      → IsServed kid s u
      → unwrap_auth decrypt u.priv wrap ≡ some (sec, nonce)
      → (use_nonce decrypt digest kid u sec nonce now revoked_later s).1 ≡ ok user
      → WrapKnown kid wrap now s
          (use_nonce decrypt digest kid u sec nonce now revoked_later s).0
          user
  unfolding use_nonce
  use_nonce-WrapKnown kid wrap sec nonce u user now revoked_later s served opened h =
      elim (Bool-cases (passes (lookup nonce s.chal) kid u.id now)) [
        | inr over ↦ cc (rw (over, use_nonce) at h)
        | inl passed ↦
            elim (Bool-cases (revoked_later || not (hash_hub_token digest sec == u.token_hash))) [
              | inl other ↦ cc (rw (passed, other, use_nonce) at h)
              | inr proved ↦
                  let same : u ≡ user = cc (rw (passed, proved, use_nonce) at h) in
                  subst
                    (λ x.
                      WrapKnown kid wrap now s
                        (use_nonce decrypt digest kid u sec nonce now revoked_later s).0 x)
                    same
                    (record {
                      sec = sec;
                      nonce = nonce;
                      served = served;
                      opened = opened;
                      proved =
                          (==_iff (hash_hub_token digest sec) u.token_hash).0
                            (ground (arith, proved));
                      passed = passed;
                      used = ground (arith, lookup-remove nonce nonce s.chal, ==_iff nonce nonce);
                    })
            ]
      ]

  open_for-WrapKnown :
      (kid wrap : String) (u user : WorkerUser) (now : ℕ) (revoked_later : Bool) (s : WorkerStore)
      → IsServed kid s u
      → (open_for decrypt digest kid wrap u now revoked_later s).1 ≡ ok user
      → WrapKnown kid wrap now s (open_for decrypt digest kid wrap u now revoked_later s).0 user
  unfolding open_for
  open_for-WrapKnown kid wrap u user now revoked_later s served h =
      elim (Option-cases (unwrap_auth decrypt u.priv wrap)) [
        | inl shut ↦ cc (rw (shut, open_for) at h)
        | inr ((sec, nonce), opened) ↦
            let here : open_for decrypt digest kid wrap u now revoked_later s
                ≡ use_nonce decrypt digest kid u sec nonce now revoked_later s =
              rw (opened, open_for) refl in
            subst (λ r. (r.1 ≡ ok user) → WrapKnown kid wrap now s r.0 user) (sym here)
              (use_nonce-WrapKnown kid wrap sec nonce u user now revoked_later s served opened) h
      ]

  -- Where the Worker resolves a wrapped text to a user, the key is that user's and not revoked,
  -- the user is not banned, the text opens with the user's private key to a secret with the
  -- stored hash and to a nonce, and a challenge of that nonce was stored for the key and the
  -- user, not yet over, and is stored no longer (`WrapKnown`).
  pub resolve_wrap-WrapKnown :
      (kid wrap : String) (now : ℕ) (revoked_later : Bool) (s : WorkerStore) (user : WorkerUser)
      → (resolve_wrap decrypt digest kid wrap now revoked_later s).1 ≡ ok user
      → WrapKnown kid wrap now s (resolve_wrap decrypt digest kid wrap now revoked_later s).0 user
  unfolding resolve_wrap
  resolve_wrap-WrapKnown kid wrap now revoked_later s user h =
      elim (Bool-cases (is_empty kid || is_empty wrap)) [
        | inl absent ↦ cc (rw (absent, resolve_wrap) at h)
        | inr given ↦ elim (Result-cases (key_user kid s)) [
          | inr (e, refused) ↦ cc (rw (given, refused, resolve_wrap) at h)
          | inl (u, served) ↦
              let here : resolve_wrap decrypt digest kid wrap now revoked_later s
                  ≡ open_for decrypt digest kid wrap u now revoked_later s =
                rw (given, served, resolve_wrap) refl in
              subst (λ r. (r.1 ≡ ok user) → WrapKnown kid wrap now s r.0 user) (sym here)
                (open_for-WrapKnown kid wrap u user now revoked_later s
                  (key_user-IsServed kid s u served))
                h
        ]
      ]
