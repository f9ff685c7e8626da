-- ===== src/Handshake/Replay.antt =====
-- src/lib/fleet/v1.server.ts, lookupHubActor and issueChallenge: a wrapped token that is used again, and one that is new.
use fleet_for_agent.Base.{
  ℕ, ◌+◌, ◌≤◌, ◌<◌, ◌≡◌, refl, sym, ap, subst, ◌∙◌, String, true, false, Option, none, some, List,
  arith,
}
use fleet_for_agent.Base.Eq.{==_iff, string_eq}
use fleet_for_agent.Base.Assoc.{lookup}
use fleet_for_agent.Base.Text.{is_empty}
use fleet_for_agent.Challenges.{ChallengeBook, put_challenge, take_challenge, challenge_max_live}
use fleet_for_agent.Challenges.Agreement.{Agrees}
use fleet_for_agent.Challenges.Runs.{BookCall, run_calls, none_puts, AreFresh, taken_once}
use fleet_for_agent.Challenges.Survival.{none_ends, puts_for, challenge_survives}
use fleet_for_agent.Tokens.{oaep, parse_authorization}
use fleet_for_agent.Handshake.Callers.{row_serves, token_row_key}
use fleet_for_agent.Handshake.{
  TokenRow, Issued, handshake, refused, actor, token_row, unwrap_auth, hash_hub_token, is_refused,
  open_wrap, lookup_row, lookup_actor, lookup_hub_actor, issue_row, issue_challenge,
  challenge_ttl_ms,
}

module _ (decrypt : String → String → Option (Option String × Option String))
    (digest : String → String) where
  open_accepts :
      (row : TokenRow) (kid wrap sec nonce : String) (now : ℕ) (b : ChallengeBook Issued)
      (extra : Issued)
      → unwrap_auth decrypt row.priv wrap ≡ some (sec, nonce)
      → (take_challenge nonce b).1 ≡ some (record { kid = kid; extra = extra })
      → extra.user_id ≡ row.user_id
      → now ≤ extra.exp
      → hash_hub_token digest sec ≡ row.token_hash
      → row.kid ≡ kid
      → (open_wrap decrypt digest row kid wrap now b).1 ≡ actor row.user_id row.kid row.token_hash
  unfolding open_wrap is_refused
  open_accepts row kid wrap sec nonce now b extra opened taken user in_time proved key =
      let fine : is_refused (some (record { kid = kid; extra = extra })) kid row.user_id now
          ≡ false =
        ground (arith, ==_iff kid kid, ==_iff extra.user_id row.user_id, user, in_time) in
      let same = (==_iff (hash_hub_token digest sec) row.token_hash).1 proved in
      rw (opened, taken, fine, same, open_wrap) refl

  issue_stores :
      (sign : String → String → String) (rows : List TokenRow) (row : TokenRow)
      (kid origin nonce : String) (now : ℕ) (b : ChallengeBook Issued)
      → token_row kid rows ≡ some row
      → is_empty kid ≡ false
      → is_empty row.priv ≡ false
      → (issue_challenge sign rows kid origin nonce now b).0
        ≡ put_challenge challenge_max_live kid nonce
            (record { user_id = row.user_id; exp = now + challenge_ttl_ms })
            b
  unfolding issue_challenge
  issue_stores sign rows row kid origin nonce now b stored full keyed =
      rw (full, stored, row_serves kid rows row stored keyed, issue_challenge, issue_row) refl

  replay_open :
      (row : TokenRow) (kid wrap sec nonce : String) (now later max : ℕ)
      (calls : List (BookCall Issued)) (b : ChallengeBook Issued)
      → unwrap_auth decrypt row.priv wrap ≡ some (sec, nonce)
      → none_puts nonce calls ≡ true
      → (open_wrap decrypt digest row kid wrap later
          (run_calls max calls (open_wrap decrypt digest row kid wrap now b).0)).1
        ≡ refused handshake
  unfolding open_wrap is_refused
  replay_open row kid wrap sec nonce now later max calls b opened others =
      let left : (open_wrap decrypt digest row kid wrap now b).0 ≡ (take_challenge nonce b).0 =
        rw (opened, open_wrap) refl in
      let gone = taken_once max nonce calls b others in
      subst
        (λ a.
          (open_wrap decrypt digest row kid wrap later (run_calls max calls a)).1
          ≡ refused handshake)
        (sym left) (rw (opened, gone, open_wrap) refl)

  lookup_reaches :
      (rows : List TokenRow) (row : TokenRow) (header : Option String) (kid wrap : String)
      → parse_authorization header ≡ oaep kid wrap
      → token_row kid rows ≡ some row
      → is_empty row.priv ≡ false
      → (now : ℕ) (b : ChallengeBook Issued)
      → lookup_hub_actor decrypt digest rows header now b
        ≡ open_wrap decrypt digest row kid wrap now b
  unfolding lookup_hub_actor
  lookup_reaches rows row header kid wrap named stored keyed now b =
      ap (λ a. lookup_actor decrypt digest rows a now b) named
      ∙ ap (λ o. lookup_row decrypt digest o kid wrap now b) stored
      ∙ rw (row_serves kid rows row stored keyed) refl

  -- A header of the wrapped form whose row is stored and whose text opens is refused with the
  -- handshake's error the second time that it is read, whatever was put, taken or cleared in
  -- between, where the nonce was not put again.
  pub replay_refused :
      (rows : List TokenRow) (row : TokenRow) (header : Option String) (kid wrap sec nonce : String)
      (now later max : ℕ) (calls : List (BookCall Issued)) (b : ChallengeBook Issued)
      → parse_authorization header ≡ oaep kid wrap
      → token_row kid rows ≡ some row
      → is_empty row.priv ≡ false
      → unwrap_auth decrypt row.priv wrap ≡ some (sec, nonce)
      → none_puts nonce calls ≡ true
      → (lookup_hub_actor decrypt digest rows header later
          (run_calls max calls (lookup_hub_actor decrypt digest rows header now b).0)).1
        ≡ refused handshake
  replay_refused rows row header kid wrap sec nonce now later max calls b named stored keyed opened
        others =
      let reach = lookup_reaches rows row header kid wrap named stored keyed in
      ap (λ r. r.1)
        (reach later (run_calls max calls (lookup_hub_actor decrypt digest rows header now b).0))
      ∙ subst
          (λ r.
            (open_wrap decrypt digest row kid wrap later (run_calls max calls r.0)).1
            ≡ refused handshake)
          (sym (reach now b))
          (replay_open row kid wrap sec nonce now later max calls b opened others)

  -- A challenge that the hub issued is accepted: a header with the wrapped secret of the token
  -- and the challenge's nonce names the token's account until the challenge is over, where the
  -- nonce was fresh, fewer than 64 challenges were issued for the key since, and none of the
  -- calls since took the nonce, put it again or cleared the key.
  pub handshake_accepted :
      (sign : String → String → String) (rows : List TokenRow) (row : TokenRow)
      (kid wrap origin sec nonce : String) (header : Option String) (now later : ℕ)
      (calls : List (BookCall Issued)) (b : ChallengeBook Issued)
      → parse_authorization header ≡ oaep kid wrap
      → token_row kid rows ≡ some row
      → is_empty kid ≡ false
      → is_empty row.priv ≡ false
      → unwrap_auth decrypt row.priv wrap ≡ some (sec, nonce)
      → hash_hub_token digest sec ≡ row.token_hash
      → Agrees challenge_max_live b
      → is_empty nonce ≡ false
      → lookup nonce b.by_nonce ≡ none
      → AreFresh challenge_max_live calls (issue_challenge sign rows kid origin nonce now b).0
      → none_ends nonce kid calls ≡ true
      → puts_for kid calls < challenge_max_live
      → later ≤ now + challenge_ttl_ms
      → (lookup_hub_actor decrypt digest rows header later (
          run_calls challenge_max_live calls
            (issue_challenge sign rows kid origin nonce now b).0)).1
        ≡ actor row.user_id row.kid row.token_hash
  handshake_accepted sign rows row kid wrap origin sec nonce header now later calls b named stored
        keyed_by keyed opened proved agrees full new fresh stay near in_time =
      let extra : Issued = record { user_id = row.user_id; exp = now + challenge_ttl_ms } in
      let issued : (issue_challenge sign rows kid origin nonce now b).0
          ≡ put_challenge challenge_max_live kid nonce extra b =
        issue_stores sign rows row kid origin nonce now b stored keyed_by keyed in
      let fresh_after = subst (AreFresh challenge_max_live calls) issued fresh in
      let taken =
        challenge_survives challenge_max_live kid nonce extra calls b agrees full new fresh_after
          stay near in
      ap (λ r. r.1)
        (lookup_reaches rows row header kid wrap named stored keyed later
          (run_calls challenge_max_live calls (issue_challenge sign rows kid origin nonce now b).0))
      ∙ subst
          (λ a.
            (open_wrap decrypt digest row kid wrap later (run_calls challenge_max_live calls a)).1
            ≡ actor row.user_id row.kid row.token_hash)
          (sym issued)
          (open_accepts row kid wrap sec nonce later
            (run_calls challenge_max_live calls
              (put_challenge challenge_max_live kid nonce extra b))
            extra opened taken refl in_time proved (token_row_key kid rows row stored))
