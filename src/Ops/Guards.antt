-- ===== src/Ops/Guards.antt =====
-- packages/fleet-worker/src/ops.mjs, handleOpsRoute: whom the console serves, and whom it bans.
use fleet_for_agent.Base.{
  ℕ, ◌≡◌, ◌≢◌, refl, subst, inl, inr, String, Bool, true, false, ◌&&◌, Option, none, some, List,
  Bool-cases, Option-cases,
}
use fleet_for_agent.Base.Eq.{◌==◌, string_eq, ne_of_==_false}
use fleet_for_agent.Base.Text.{trim, is_empty, trim_idem}
use fleet_for_agent.Ops.{
  OpsActor, UserRow, BanError, is_admin_email, is_ops_admin, actor_id, email_of, ban_target_error,
  OpsInput, strip_slashes, ops_path, or_get, ban_route, ban_with, handle_ops_route,
}

-- The account that a call names is not the caller's own, and is no admin's where it is banned.
abbrev pub MayBan : (String → String) → OpsInput → Bool → Type 0
MayBan lower input banned =
    (trim input.body_id ≢ actor_id input.actor)
    × ((banned
          && is_admin_email lower (email_of lower (trim input.body_id) input.users)
              input.admin_emails)
        ≡ false)

allowed :
    (lower : String → String) (a : Option OpsActor) (target : String) (banned : Bool)
    (admins : Option String) (users : List UserRow)
    → ban_target_error lower a target (some banned) admins users ≡ none
    → (trim target ≢ actor_id a)
      × ((banned && is_admin_email lower (email_of lower (trim target) users) admins) ≡ false)
unfolding ban_target_error
allowed lower a target banned admins users h = elim (Bool-cases (is_empty (trim target))) [
  | inl nameless ↦ cc (rw (nameless, ban_target_error) at h)
  | inr named ↦ elim (Bool-cases (trim target == actor_id a)) [
    | inl own ↦ cc (rw (named, own, ban_target_error) at h)
    | inr other ↦
        elim (Bool-cases
          (banned && is_admin_email lower (email_of lower (trim target) users) admins)) [
            | inl admin ↦ cc (rw (named, other, admin, ban_target_error) at h)
            | inr free ↦ (ne_of_==_false (trim target) (actor_id a) other, free)
          ]
  ]
]

may_ban :
    (lower : String → String) (input : OpsInput) (banned : Bool)
    → ban_target_error lower input.actor
        (trim input.body_id)
        (some banned)
        input.admin_emails
        input.users
      ≡ none
    → MayBan lower input banned
may_ban lower input banned h =
    subst
      (λ t.
        (t ≢ actor_id input.actor)
        × ((banned && is_admin_email lower (email_of lower t input.users) input.admin_emails)
            ≡ false))
      (trim_idem input.body_id)
      (allowed lower input.actor (trim input.body_id) banned input.admin_emails input.users h)

module _ {S : Type 0} (lower upper : String → String)
    (set_banned : Option (String → Bool → S → S × Option UserRow)) where
  -- What a call may do to the accounts: nothing, or one call of `setBanned` for an admin.
  pub data Bans (input : OpsInput) (state : S) : S → Type 0 where
    unchanged : Bans input state state
    ban_called :
        (ban : String → Bool → S → S × Option UserRow) (banned : Bool)
        → set_banned ≡ some ban
        → is_ops_admin lower input.actor input.admin_emails ≡ true
        → MayBan lower input banned
        → Bans input state (ban (trim input.body_id) banned state).0

  with_Bans :
      (input : OpsInput) (state : S) (banned : Bool)
      (setter : Option (String → Bool → S → S × Option UserRow))
      → set_banned ≡ setter
      → is_ops_admin lower input.actor input.admin_emails ≡ true
      → MayBan lower input banned
      → Bans input state
          (ban_with lower upper set_banned (trim input.body_id) banned state setter).0
  with_Bans input state banned none e admin may = unchanged
  with_Bans input state banned (some ban) e admin may =
      elim (Option-cases (ban (trim input.body_id) banned state).1) [
        | inl none_such ↦ rw none_such (ban_called ban banned e admin may)
        | inr (row, stored) ↦ rw stored (ban_called ban banned e admin may)
      ]

  route_Bans :
      (input : OpsInput) (state : S)
      → is_ops_admin lower input.actor input.admin_emails ≡ true
      → (banned : Option Bool) (error : Option BanError)
      → ban_target_error lower input.actor
          (trim input.body_id)
          banned
          input.admin_emails
          input.users
        ≡ error
      → Bans input state (ban_route lower upper set_banned input state error banned).0
  route_Bans input state admin banned (some error) h = unchanged
  route_Bans input state admin none none h = unchanged
  route_Bans input state admin (some banned) none h =
      with_Bans input state banned set_banned refl admin (may_ban lower input banned h)

  ban_route-Bans :
      (input : OpsInput) (state : S)
      → is_ops_admin lower input.actor input.admin_emails ≡ true
      → Bans input state
          (ban_route lower upper set_banned input state
            (ban_target_error lower input.actor
              (trim input.body_id)
              input.body_banned
              input.admin_emails
              input.users)
            input.body_banned).0
  ban_route-Bans input state admin =
      route_Bans input state admin input.body_banned
        (ban_target_error lower input.actor (trim input.body_id) input.body_banned
          input.admin_emails input.users)
        refl

  -- A call of the console leaves the accounts as they are, or it calls `setBanned` once, for a
  -- caller that is an admin, on an account that is not the caller's own and, where it is to be
  -- banned, has no admin's address (`Bans`).
  pub handle_ops_route-Bans :
      (inherited : String → Option String) (input : OpsInput) (now : ℕ) (state : S)
      → Bans input state (handle_ops_route lower upper set_banned inherited input now state).0
  unfolding handle_ops_route
  handle_ops_route-Bans inherited input now state =
      let path = ops_path (strip_slashes input.path) in
      let method = upper (or_get input.method) in
      elim (Bool-cases (is_ops_admin lower input.actor input.admin_emails)) [
        | inr outsider ↦ rw (outsider, handle_ops_route) unchanged
        | inl admin ↦ elim (Bool-cases (path == "/ops" && method == "GET")) [
          | inl page ↦ rw (admin, page, handle_ops_route) unchanged
          | inr no_page ↦ elim (Bool-cases (path == "/v1/ops/overview" && method == "GET")) [
            | inl asked ↦ rw (admin, no_page, asked, handle_ops_route) unchanged
            | inr no_view ↦ elim (Bool-cases (path == "/v1/ops/banned" && method == "POST")) [
              | inl ban ↦
                  rw (admin, no_page, no_view, ban, handle_ops_route)
                    (ban_route-Bans input state admin)
              | inr nothing_else ↦
                  rw (admin, no_page, no_view, nothing_else, handle_ops_route) unchanged
            ]
          ]
        ]
      ]
