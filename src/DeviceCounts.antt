-- ===== src/DeviceCounts.antt =====
-- packages/fleet-worker/src/ops.mjs, buildOverview: the counts of an overview. Lower case is a
-- parameter, and so is what a plain object inherits under a name.
use Prim.Native.String.{◌++◌ as append}
use fleet_for_agent.Base.{
  ℕ, ◌+◌, ◌-◌, String, Bool, ◌||◌, Option, none, some, List, [], ◌∷◌, leb, eqb, if◌then◌else◌,
}
use fleet_for_agent.Base.Eq.{◌==◌, string_eq}
use fleet_for_agent.Base.Assoc.{Assoc, lookup, set}
use fleet_for_agent.Base.Text.{trim, is_empty}
use fleet_for_agent.Tokens.{starts_with}

pub record DeviceRow : Type 0 where
  pub id : String
  pub os : String
  pub arch : String
  pub agent_ver : String
  pub online : Bool
  pub last_seen : ℕ
  pub user_id : String

module _ (lower : String → String) where
  unfoldable pub classify_os : String → String
  unfolding starts_with
  classify_os os =
      let s = lower (trim os) in
      if starts_with "darwin" s || starts_with "mac" s
      then "mac"
      else if starts_with "win" s
      then "windows"
      else if starts_with "linux" s
      then "linux"
      else "unknown"

  unfoldable pub classify_arch : String → String
  classify_arch arch =
      let s = lower (trim arch) in
      if s == "arm64" || s == "aarch64"
      then "arm64"
      else if s == "amd64"
          || s == "x86_64"
          || s == "x64"
          || s == "x86"
          || s == "386"
          || s == "i386"
          || s == "i686"
      then "amd64"
      else "unknown"

-- A time after `now` is recent, as its age is negative there.
unfoldable pub freshness_bucket : ℕ → ℕ → String
freshness_bucket last_seen now =
    if eqb last_seen 0
    then "unknown"
    else if leb (now - last_seen) 120000
    then "recent"
    else if leb (now - last_seen) 3600000
    then "hour"
    else if leb (now - last_seen) 86400000
    then "day"
    else "stale"

abbrev pub version_of : String → String
version_of v = if is_empty (trim v) then "unknown" else trim v

-- What is kept under a name: a number, or the text that JavaScript makes of an inherited member
-- and the number 1.
pub data Count : Type 0 where
  number : ℕ → Count
  text : String → Count

-- `(map[key] || 0) + 1`
unfoldable pub plus_one : Option Count → Option String → Count
plus_one none none = number 1
plus_one none (some member) = text (append member "1")
plus_one (some (number n)) member = number (n + 1)
plus_one (some (text s)) member = text (append s "1")

-- `inherited` is the text of what a plain object inherits under a name, as it does under
-- `constructor`. To assign a text to `__proto__` has no effect.
unfoldable pub bump : (String → Option String) → String → Assoc String Count → Assoc String Count
unfolding plus_one
bump inherited key counts =
    if key == "__proto__"
    then counts
    else set key (plus_one (lookup key counts) (inherited key)) counts

-- SENSITIVE_KEYS
unfoldable pub is_sensitive : String → Bool
is_sensitive key = key == "name" || key == "hostname" || key == "ip"

-- `stripSensitive`, of an object of counts.
unfoldable pub strip_sensitive : Assoc String Count → Assoc String Count
unfolding is_sensitive
strip_sensitive [] = []
strip_sensitive ((key, n) ∷ counts) =
    let rest = strip_sensitive counts in if is_sensitive key then rest else (key, n) ∷ rest

pub record Overview : Type 0 where
  pub total : ℕ
  pub online : ℕ
  pub offline : ℕ
  pub os : Assoc String Count
  pub arch : Assoc String Count
  pub agent_ver : Assoc String Count
  pub freshness : Assoc String Count

abbrev pub no_devices : Overview
no_devices = record {
  total = 0;
  online = 0;
  offline = 0;
  os = ("mac", number 0) ∷ ("windows", number 0) ∷ ("linux", number 0) ∷ ("unknown", number 0) ∷ [];
  arch = ("arm64", number 0) ∷ ("amd64", number 0) ∷ ("unknown", number 0) ∷ [];
  agent_ver = [];
  freshness =
      ("recent", number 0)
      ∷ ("hour", number 0)
      ∷ ("day", number 0)
      ∷ ("stale", number 0)
      ∷ ("unknown", number 0)
      ∷ [];
}

module _ (lower : String → String) (inherited : String → Option String) where
  -- One round of the loop over the devices; a row without an id is passed over.
  unfoldable pub count_device : ℕ → Overview → DeviceRow → Overview
  unfolding classify_os classify_arch freshness_bucket bump
  count_device now o d = if is_empty d.id then o else record {
    total = o.total + 1;
    online = if d.online then o.online + 1 else o.online;
    offline = if d.online then o.offline else o.offline + 1;
    os = bump inherited (classify_os lower d.os) o.os;
    arch = bump inherited (classify_arch lower d.arch) o.arch;
    agent_ver = bump inherited (version_of d.agent_ver) o.agent_ver;
    freshness = bump inherited (freshness_bucket d.last_seen now) o.freshness;
  }

  unfoldable pub count_devices : ℕ → Overview → List DeviceRow → Overview
  unfolding count_device
  count_devices now o [] = o
  count_devices now o (d ∷ rows) = count_devices now (count_device now o d) rows

  -- The counts that are answered, without the sensitive names.
  unfoldable pub build_overview : ℕ → List DeviceRow → Overview
  unfolding count_devices strip_sensitive
  build_overview now rows =
      let o = count_devices now no_devices rows in
      record o {
        os = strip_sensitive o.os;
        arch = strip_sensitive o.arch;
        agent_ver = strip_sensitive o.agent_ver;
        freshness = strip_sensitive o.freshness;
      }
