-- ===== src/Presence.antt =====
-- packages/fleet-worker/src/presence.mjs: the fields of a device's row. A field of a JSON body is
-- missing, null, or a value with a text (`String(value)`).
use fleet_for_agent.Base.{
  ℕ, ◌≤◌, String, Bool, not, ◌||◌, Option, none, some, List, [], ◌∷◌, map, any, filter, ltb, eqb,
  arith, if◌then◌else◌,
}
use fleet_for_agent.Base.Eq.{◌==◌, string_eq}
use fleet_for_agent.Base.Text.{trim, is_empty, has_control, utf8_length}
use Prim.Native.Char.{code}
use Prim.Native.String.{◌++◌ as append, [] as nothing, ◌∷◌ as put_char}

abbrev pub heartbeat_wait_default_ms : ℕ
heartbeat_wait_default_ms = 3000

abbrev pub heartbeat_wait_max_ms : ℕ
heartbeat_wait_max_ms = 10000

abbrev pub computer_use_cap : String
computer_use_cap = "computer_use"

pub data Field : Type 0 where
  missing null : Field
  text : String → Field

-- `none` keeps the stored version.
unfoldable pub agent_ver_from_body : Field → Option String
agent_ver_from_body missing = none
agent_ver_from_body null = none
agent_ver_from_body (text value) =
    let s = trim value in
    if is_empty s || ltb 64 (utf8_length s) || has_control s then none else some s

unfoldable pub arch_from_body : Field → Option String
arch_from_body missing = none
arch_from_body null = none
arch_from_body (text value) = if is_empty (trim value) then none else some (trim value)

pub data RawCaps : Type 0 where
  caps_list : List String → RawCaps
  caps_text : String → RawCaps
  no_caps : RawCaps

unfoldable pub split_commas : String → List String
split_commas nothing = nothing ∷ []
split_commas (put_char c s) =
    let rest = split_commas s in
    if eqb (code c) 44
    then nothing ∷ rest
    else elim rest [ [] ↦ put_char c nothing ∷ [] | word ∷ words ↦ put_char c word ∷ words ]

abbrev pub trimmed_caps : List String → List String
trimmed_caps caps = filter (λ s. not (is_empty s)) (map trim caps)

unfoldable pub normalize_caps : RawCaps → List String
unfolding split_commas
normalize_caps (caps_list caps) = trimmed_caps caps
normalize_caps (caps_text raw) = if is_empty (trim raw) then [] else trimmed_caps (split_commas raw)
normalize_caps no_caps = []

pub data Permit : Type 0 where
  off ask allow : Permit

unfoldable pub normalize_permit : Option String → Option Permit
normalize_permit none = none
normalize_permit (some raw) =
    let s = trim raw in
    if s == "off"
    then some off
    else if s == "ask"
    then some ask
    else if s == "allow"
    then some allow
    else none

abbrev pub joined_with : List String → String
joined_with [] = ""
joined_with (s ∷ []) = s
joined_with (s ∷ t ∷ rest) = append s (append "," (joined_with (t ∷ rest)))

unfoldable pub join_caps : RawCaps → String
unfolding normalize_caps
join_caps caps = joined_with (normalize_caps caps)

unfoldable pub has_computer_use : RawCaps → Bool
unfolding normalize_caps
has_computer_use caps = any (λ c. c == computer_use_cap) (normalize_caps caps)

pub record ComputerRow : Type 0 where
  pub id : String
  pub alias : Option String
  pub name : String
  pub os : String
  pub online : Bool
  pub last_seen : ℕ
  pub agent_ver : String
  pub caps : RawCaps
  pub permit : Option String
  pub user_id : Option String

-- What a list of computers shows of a row.
pub record ComputerPublic : Type 0 where
  pub id : String
  pub alias : String
  pub name : String
  pub os : String
  pub online : Bool
  pub last_seen : ℕ
  pub agent_ver : String
  pub caps : List String
  pub permit : Option Permit

unfoldable pub computer_public : ComputerRow → Option ComputerPublic
unfolding normalize_caps normalize_permit
computer_public row =
    if is_empty row.id
    then none
    else some (record {
      id = row.id;
      alias = elim row.alias [ none ↦ "" | some a ↦ a ];
      name = row.name;
      os = row.os;
      online = row.online;
      last_seen = row.last_seen;
      agent_ver = row.agent_ver;
      caps = normalize_caps row.caps;
      permit = normalize_permit row.permit;
    })

-- Of whole milliseconds; `none` stands for a value that is missing, empty or not a finite number.
unfoldable pub clamp_heartbeat_wait_ms : Option ℕ → ℕ
clamp_heartbeat_wait_ms none = heartbeat_wait_default_ms
clamp_heartbeat_wait_ms (some n) =
    if eqb n 0
    then heartbeat_wait_default_ms
    else if ltb heartbeat_wait_max_ms n
    then heartbeat_wait_max_ms
    else n

-- A wait is at least one and at most ten thousand milliseconds.
clamp_heartbeat_wait_ms_bounds :
    (value : Option ℕ)
    → (1 ≤ clamp_heartbeat_wait_ms value) × (clamp_heartbeat_wait_ms value ≤ heartbeat_wait_max_ms)
unfolding clamp_heartbeat_wait_ms
clamp_heartbeat_wait_ms_bounds none = (omega arith, omega arith)
clamp_heartbeat_wait_ms_bounds (some n) = (ground arith, ground arith)
