-- ===== src/Accounts.antt =====
-- packages/fleet-worker/src/bind.mjs, ban.mjs and oauth-account.mjs: who may use a device, the ban of
-- an account, and the address that a sign-in gives. Lower case is a parameter.
use Prim.Native.String.{◌++◌ as append}
use fleet_for_agent.Base.{
  ℕ, ◌≡◌, String, Bool, true, false, not, ◌&&◌, ◌||◌, Option, none, some, or_else, Result, ok, err,
  arith, if◌then◌else◌,
}
use fleet_for_agent.Base.Eq.{◌==◌, string_eq}
use fleet_for_agent.Base.Text.{trim, is_empty}

abbrev pub trimmed : Option String → String
trimmed none = ""
trimmed (some s) = trim s

unfoldable pub can_claim_device : Option String → Option String → Bool
can_claim_device prev_user actor =
    if is_empty (trimmed actor)
    then false
    else if is_empty (trimmed prev_user)
    then true
    else trimmed prev_user == trimmed actor

unfoldable pub device_owner_conflict : Option String → Option String → Bool
device_owner_conflict prev_user next_user =
    if is_empty (trimmed prev_user) || is_empty (trimmed next_user)
    then false
    else not (trimmed prev_user == trimmed next_user)

-- The flag and the time of an account's row.
pub record BanRow : Type 0 where
  pub banned : Bool
  pub banned_at : Option ℕ

unfoldable pub is_banned : Option BanRow → Bool
is_banned none = false
is_banned (some user) = user.banned

-- The status of the refusal.
unfoldable pub reject_if_banned : Option BanRow → Option ℕ
unfolding is_banned
reject_if_banned user = if is_banned user then some 403 else none

unfoldable pub apply_ban_fields : BanRow → ℕ → BanRow
apply_ban_fields user now = record {
  banned = true;
  banned_at = elim user.banned_at [ none ↦ some now | some t ↦ some t ];
}

unfoldable pub apply_banned_state : BanRow → Bool → ℕ → BanRow
unfolding apply_ban_fields
apply_banned_state user banned now =
    if banned then apply_ban_fields user now else record user { banned = false }

-- The message and the status of a sign-in that failed.
unfoldable pub oauth_callback_fail : Option String → String × ℕ
oauth_callback_fail error =
    let e = or_else error "" in
    if e == "banned" then ("账号已停用", 403) else (if is_empty e then "oauth failed" else e, 400)

-- The account key of an X account is its number, which no other account gets.
unfoldable pub x_account_email : Option String → String
x_account_email xid = if is_empty (trimmed xid) then "" else append (trimmed xid) "@x.oauth.fleet"

pub data EmailError : Type 0 where
  no_email unverified : EmailError

unfoldable pub google_profile_email :
    (String → String) → Option String → Bool → Result EmailError String
google_profile_email lower email verified =
    let e = lower (trimmed email) in
    if is_empty e then err no_email else if verified then ok e else err unverified

-- A caller may claim a device just where it has an id and its id does not conflict with the device's
-- owner.
can_claim_device-device_owner_conflict :
    (prev_user actor : Option String)
    → can_claim_device prev_user actor
      ≡ (not (is_empty (trimmed actor)) && not (device_owner_conflict prev_user actor))
unfolding can_claim_device device_owner_conflict
can_claim_device-device_owner_conflict prev_user actor = ground arith
