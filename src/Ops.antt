-- ===== src/Ops.antt =====
-- packages/fleet-worker/src/ops.mjs: the console of the operators: who may use it, and the ban of an
-- account. Lower and upper case are parameters, and so are `setBanned`, on a state of its caller's,
-- and what a plain object inherits; the console's page is a value of its own.
pub mod Guards
pub mod Counts
use Prim.Native.Char.{code}
use Prim.Native.String.{[] as nothing, ◌∷◌ as put_char, ◌++◌ as append}
use fleet_for_agent.Base.{
  ℕ, ◌+◌, ◌-◌, String, Bool, true, false, not, ◌&&◌, ◌||◌, Option, none, some, List, [], ◌∷◌, map,
  any, filter, leb, eqb, or_else, if◌then◌else◌,
}
use fleet_for_agent.Base.Eq.{◌==◌, string_eq}
use fleet_for_agent.Base.Assoc.{Assoc, lookup, set}
use fleet_for_agent.Base.Text.{trim, is_empty, is_space}
use fleet_for_agent.DeviceCounts.{DeviceRow, Overview, build_overview}
use fleet_for_agent.Tokens.{starts_with}

pub record OpsActor : Type 0 where
  pub id : String
  pub email : String
  pub banned : Bool

pub record UserRow : Type 0 where
  pub id : String
  pub email : String
  pub banned : Bool
  pub has_token : Bool

pub data BanError : Type 0 where
  id_and_banned_required cannot_ban_yourself cannot_ban_an_admin : BanError

-- `split(/[\s,]+/)`, with an empty text also between two separators: the empty ones are dropped.
unfoldable pub split_emails : String → List String
split_emails nothing = nothing ∷ []
split_emails (put_char c s) =
    let rest = split_emails s in
    if is_space (code c) || eqb (code c) 44
    then nothing ∷ rest
    else elim rest [ [] ↦ put_char c nothing ∷ [] | word ∷ words ↦ put_char c word ∷ words ]

abbrev pub actor_id : Option OpsActor → String
actor_id none = ""
actor_id (some a) = trim a.id

module _ (lower : String → String) where
  unfoldable pub parse_admin_emails : Option String → List String
  unfolding split_emails
  parse_admin_emails none = []
  parse_admin_emails (some raw) =
      filter (λ s. not (is_empty s))
        (map (λ s. lower (trim s)) (filter (λ s. not (is_empty s)) (split_emails raw)))

  abbrev pub is_admin_email : String → Option String → Bool
  is_admin_email email admins =
      not (is_empty email) && any (λ a. a == email) (parse_admin_emails admins)

  unfoldable pub is_ops_admin : Option OpsActor → Option String → Bool
  unfolding parse_admin_emails
  is_ops_admin none admins = false
  is_ops_admin (some a) admins = not a.banned && is_admin_email (lower (trim a.email)) admins

  abbrev pub email_of : String → List UserRow → String
  email_of id [] = lower (trim "")
  email_of id (u ∷ users) = if u.id == id then lower (trim u.email) else email_of id users

  -- `none` where the account may be banned or let back in; a `banned` that is no Boolean is `none`.
  unfoldable pub ban_target_error :
      Option OpsActor → String → Option Bool → Option String → List UserRow → Option BanError
  unfolding parse_admin_emails
  ban_target_error a target none admins users = some id_and_banned_required
  ban_target_error a target (some banned) admins users =
      let id = trim target in
      if is_empty id
      then some id_and_banned_required
      else if id == actor_id a
      then some cannot_ban_yourself
      else if banned && is_admin_email (email_of id users) admins
      then some cannot_ban_an_admin
      else none

-- What `handleOpsRoute` answers: of the overview the counts and the actor's id.
pub data OpsResponse : Type 0 where
  ops_page : OpsResponse
  overview : Overview → String → OpsResponse
  ban_done : String → Bool → OpsResponse
  bad_request : BanError → OpsResponse
  not_found : Bool → OpsResponse

pub record OpsInput : Type 0 where
  pub path : String
  pub method : String
  pub actor : Option OpsActor
  pub admin_emails : Option String
  pub users : List UserRow
  pub devices : List DeviceRow
  pub body_id : String
  pub body_banned : Option Bool

-- `replace(/\/+$/, "")`
unfoldable pub strip_slashes : String → String
strip_slashes nothing = nothing
strip_slashes (put_char c s) =
    let rest = strip_slashes s in
    if is_empty rest && eqb (code c) 47 then nothing else put_char c rest

abbrev pub ops_path : String → String
ops_path stripped = if is_empty stripped then "/" else stripped

abbrev pub or_get : String → String
or_get method = if is_empty method then "GET" else method

module _ {S : Type 0} (lower upper : String → String)
    (set_banned : Option (String → Bool → S → S × Option UserRow)) where
  abbrev pub ban_result : S × Option UserRow → S × OpsResponse
  ban_result (state, none) = (state, not_found false)
  ban_result (state, some row) = (state, ban_done row.id row.banned)

  -- What is left of the route after the test of the target.
  abbrev pub ban_with :
      String → Bool → S → Option (String → Bool → S → S × Option UserRow) → S × OpsResponse
  ban_with id banned state none = (state, not_found false)
  ban_with id banned state (some ban) = ban_result (ban id banned state)

  abbrev pub ban_route : OpsInput → S → Option BanError → Option Bool → S × OpsResponse
  ban_route input state (some error) banned = (state, bad_request error)
  ban_route input state none none = (state, bad_request id_and_banned_required)
  ban_route input state none (some banned) = ban_with (trim input.body_id) banned state set_banned

  unfoldable pub handle_ops_route : (String → Option String) → OpsInput → ℕ → S → S × OpsResponse
  unfolding is_ops_admin ban_target_error build_overview strip_slashes
  handle_ops_route inherited input now state =
      let path = ops_path (strip_slashes input.path) in
      let method = upper (or_get input.method) in
      let html = path == "/ops" in
      if not (is_ops_admin lower input.actor input.admin_emails)
      then (state, not_found html)
      else if html && method == "GET"
      then (state, ops_page)
      else if path == "/v1/ops/overview" && method == "GET"
      then (
        state,
        overview (build_overview lower inherited now input.devices)
            (elim input.actor [ none ↦ "" | some a ↦ a.id ]),
      )
      else if path == "/v1/ops/banned" && method == "POST"
      then ban_route input state
          (ban_target_error lower input.actor (trim input.body_id) input.body_banned
            input.admin_emails input.users)
          input.body_banned
      else (state, not_found html)
