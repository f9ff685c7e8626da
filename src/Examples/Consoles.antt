-- ===== src/Examples/Consoles.antt =====
-- packages/fleet-worker/src/ops.mjs for one admin and two devices, and edge-guard.mjs on a short body.
use fleet_for_agent.Base.{
  ◌≡◌, refl, String, Bool, true, false, not, ◌||◌, ltb, err, ok, if◌then◌else◌, Option, none, some,
  List, [], ◌∷◌, filter, length,
}
use fleet_for_agent.Base.Assoc.{set}
use fleet_for_agent.Base.Eq.{◌==◌, string_eq}
use fleet_for_agent.Base.Text.{is_empty, trim}
use fleet_for_agent.EdgeGuard.{
  read_bounded_bytes, declares_more, joined, body_too_large, read_bounded_bytes_lem,
}
use fleet_for_agent.DeviceCounts.{DeviceRow, build_overview, bump, strip_sensitive, number, text}
use fleet_for_agent.Ops.{UserRow, OpsInput, ban_done, handle_ops_route}
use fleet_for_agent.Ops.Counts.{AddsUp, overview-AddsUp}
use fleet_for_agent.Ops.Guards.{Bans, handle_ops_route-Bans}

abbrev lower_case : String → String
lower_case s = s

-- What a plain object inherits, of two of its members.
abbrev inherits : String → Option String
inherits key =
    if key == "constructor"
    then some "function Object() { [native code] }"
    else if key == "__proto__"
    then some "[object Object]"
    else none

-- The accounts that are banned.
abbrev ban_one : String → Bool → List String → List String × Option UserRow
ban_one id banned list =
    (id ∷ list, some (record { id = id; email = "eve@x"; banned = banned; has_token = false }))

abbrev ban_eve : OpsInput
ban_eve = record {
  path = "/v1/ops/banned/";
  method = "POST";
  actor = some (record { id = "a"; email = "ann@x"; banned = false });
  admin_emails = some "ann@x, bob@x";
  users = record { id = "e"; email = "eve@x"; banned = false; has_token = false } ∷ [];
  devices = [];
  body_id = " e ";
  body_banned = some true;
}

eve_banned :
    handle_ops_route lower_case lower_case (some ban_one) inherits ban_eve 0 []
    ≡ ("e" ∷ [], ban_done "e" true)
unfolding handle_ops_route is_empty trim
eve_banned = refl

handle_ops_route-Bans_example :
    Bans lower_case lower_case
      (some ban_one)
      ban_eve
      []
      (handle_ops_route lower_case lower_case (some ban_one) inherits ban_eve 0 []).0
handle_ops_route-Bans_example =
    handle_ops_route-Bans lower_case lower_case (some ban_one) inherits ban_eve 0 []

abbrev two_devices : List DeviceRow
two_devices =
    record {
      id = "d1";
      os = "darwin";
      arch = "arm64";
      agent_ver = "constructor";
      online = true;
      last_seen = 500;
      user_id = "e";
    }
    ∷ record {
      id = "d2";
      os = "plan9";
      arch = "";
      agent_ver = "";
      online = false;
      last_seen = 0;
      user_id = "e";
    }
    ∷ []

overview-AddsUp_example :
    AddsUp (build_overview lower_case inherits 1000 two_devices)
    × ((build_overview lower_case inherits 1000 two_devices).total
        ≡ length (filter (λ d. not (is_empty d.id)) two_devices))
overview-AddsUp_example = overview-AddsUp lower_case inherits 1000 two_devices

-- A version may bear the name of an inherited member, or of one that is stripped.
odd_versions :
    strip_sensitive (bump inherits "constructor" (bump inherits "ip" (bump inherits "1.2" [])))
    ≡ ("1.2", number 1) ∷ ("constructor", text "function Object() { [native code] }1") ∷ []
unfolding strip_sensitive set bump
odd_versions = refl

read_bounded_bytes_lem_example :
    read_bounded_bytes (some "9") (some ((1 ∷ 2 ∷ []) ∷ (3 ∷ []) ∷ [])) 16 ≡ (
      if declares_more (some "9") 16 || ltb 16 (length (joined ((1 ∷ 2 ∷ []) ∷ (3 ∷ []) ∷ [])))
      then err body_too_large
      else ok (joined ((1 ∷ 2 ∷ []) ∷ (3 ∷ []) ∷ [])))
read_bounded_bytes_lem_example = read_bounded_bytes_lem (some "9") ((1 ∷ 2 ∷ []) ∷ (3 ∷ []) ∷ []) 16
