-- ===== src/Ops/Counts.antt =====
-- packages/fleet-worker/src/ops.mjs, buildOverview: the counts of the devices.
use fleet_for_agent.Base.{
  ℕ, ◌+◌, ◌-◌, leb, eqb, ◌≡◌, refl, String, Bool, true, false, not, ◌&&◌, ◌||◌, List, [], ◌∷◌, map,
  any, filter, length, if◌then◌else◌, some, Option, arith, Bool-cases, inl, inr,
}
use fleet_for_agent.Base.Eq.{◌==◌, ==_iff, string_eq}
use fleet_for_agent.Base.Assoc.{Assoc, lookup, set, put, replace}
use fleet_for_agent.Base.Text.{is_empty, trim}
use fleet_for_agent.Tokens.{starts_with}
use fleet_for_agent.DeviceCounts.{
  DeviceRow, Count, number, text, Overview, no_devices, plus_one, bump, is_sensitive,
  strip_sensitive, count_device, count_devices, build_overview, classify_os, classify_arch,
  freshness_bucket,
}

abbrev pub names : Assoc String Count → List String
names m = map (λ e. e.0) m

abbrev pub is_number : Count → Bool
is_number (number n) = true
is_number (text s) = false

abbrev pub all_numbers : Assoc String Count → Bool
all_numbers [] = true
all_numbers ((k, n) ∷ m) = is_number n && all_numbers m

abbrev pub size : Count → ℕ
size (number n) = n
size (text s) = 0

abbrev pub sum : Assoc String Count → ℕ
sum [] = 0
sum ((k, n) ∷ m) = size n + sum m

-- Just these names have counts, each count is a number, and together they are the total.
pub record Tallies (keys : List String) (total : ℕ) (m : Assoc String Count) : Type 0 where
  pub named : names m ≡ keys
  pub numbers : all_numbers m ≡ true
  pub adds_up : sum m ≡ total

-- A name of the list that is not `__proto__`.
abbrev is_name : List String → String → Bool
is_name keys k = any (λ j. j == k) keys && not (k == "__proto__")

lookup_number :
    (k : String) (m : Assoc String Count)
    → any (λ j. j == k) (names m) ≡ true
    → all_numbers m ≡ true
    → (n : ℕ) × (lookup k m ≡ some (number n))
unfolding lookup
lookup_number k [] h v = cc h
lookup_number k ((j, number n) ∷ m) h v = elim (Bool-cases (j == k)) [
  | inl here ↦ (n, rw here refl)
  | inr away ↦ let (w, e) = lookup_number k m (ground (arith, h, away)) v in (w, rw away e)
]
lookup_number k ((j, text s) ∷ m) h v = cc v

replace_number :
    (k : String) (n w : ℕ) (m : Assoc String Count)
    → lookup k m ≡ some (number w)
    → all_numbers m ≡ true
    → (names (replace k (number n) m) ≡ names m)
      × (all_numbers (replace k (number n) m) ≡ true)
      × (sum (replace k (number n) m) + w ≡ sum m + n)
unfolding lookup replace
replace_number k n w [] h v = cc h
replace_number k n w ((j, c) ∷ m) h v = ground (arith, replace_number k n w m, h, v, ==_iff j k)

bump_known :
    (inherited : String → Option String) (k : String) (n : ℕ) (m : Assoc String Count)
    → (k == "__proto__") ≡ false
    → lookup k m ≡ some (number n)
    → bump inherited k m ≡ replace k (number (n + 1)) m
unfolding bump plus_one set put
bump_known inherited k n m own present = ground (arith, own, present)

bump-Tallies :
    (inherited : String → Option String) (k : String) (keys : List String) (total : ℕ)
    (m : Assoc String Count)
    → is_name keys k ≡ true
    → Tallies keys total m
    → Tallies keys (total + 1) (bump inherited k m)
bump-Tallies inherited k keys total m known t =
    let (n, present) = lookup_number k m (ground (arith, known, t.named)) t.numbers in
    let (same, numbers, adds_up) = replace_number k (n + 1) n m present t.numbers in
    rw (bump_known inherited k n m (ground (arith, known)) present) (record {
      named = cc (same, t.named);
      numbers = numbers;
      adds_up = omega (arith, adds_up, t.adds_up);
    })

strip_plain : (m : Assoc String Count) → any is_sensitive (names m) ≡ false → strip_sensitive m ≡ m
unfolding strip_sensitive
strip_plain [] h = refl
strip_plain ((k, n) ∷ m) h = ground (arith, strip_plain m, h)

strip-Tallies :
    (keys : List String) (total : ℕ) (m : Assoc String Count)
    → any is_sensitive keys ≡ false
    → Tallies keys total m
    → Tallies keys total (strip_sensitive m)
strip-Tallies keys total m plain t = rw (strip_plain m (rw t.named plain)) t

abbrev pub systems : List String
systems = "mac" ∷ "windows" ∷ "linux" ∷ "unknown" ∷ []

abbrev pub architectures : List String
architectures = "arm64" ∷ "amd64" ∷ "unknown" ∷ []

abbrev pub ages : List String
ages = "recent" ∷ "hour" ∷ "day" ∷ "stale" ∷ "unknown" ∷ []

if-is_name :
    (keys : List String) (b : Bool) (x y : String)
    → is_name keys x ≡ true
    → is_name keys y ≡ true
    → is_name keys (if b then x else y) ≡ true
if-is_name keys true x y p q = p
if-is_name keys false x y p q = q

classify_os_name :
    (lower : String → String) (os : String) → is_name systems (classify_os lower os) ≡ true
unfolding classify_os
classify_os_name lower os =
    let s = lower (trim os) in
    let linux = if starts_with "linux" s then "linux" else "unknown" in
    let windows = if starts_with "win" s then "windows" else linux in
    if-is_name systems (starts_with "darwin" s || starts_with "mac" s) "mac" windows refl (
      if-is_name systems (starts_with "win" s) "windows" linux refl
        (if-is_name systems (starts_with "linux" s) "linux" "unknown" refl refl))

is_amd : String → Bool
is_amd s =
    s == "amd64"
    || s == "x86_64"
    || s == "x64"
    || s == "x86"
    || s == "386"
    || s == "i386"
    || s == "i686"

classify_arch_name :
    (lower : String → String) (arch : String)
    → is_name architectures (classify_arch lower arch) ≡ true
unfolding classify_arch is_amd
classify_arch_name lower arch =
    let s = lower (trim arch) in
    let amd = if is_amd s then "amd64" else "unknown" in
    if-is_name architectures (s == "arm64" || s == "aarch64") "arm64" amd refl
      (if-is_name architectures (is_amd s) "amd64" "unknown" refl refl)

freshness_bucket_name : (seen now : ℕ) → is_name ages (freshness_bucket seen now) ≡ true
unfolding freshness_bucket
freshness_bucket_name seen now =
    let within : ℕ → Bool = λ t. leb (now - seen) t in
    let day = if within 86400000 then "day" else "stale" in
    let hour = if within 3600000 then "hour" else day in
    let recent = if within 120000 then "recent" else hour in
    if-is_name ages (eqb seen 0) "unknown" recent refl (
      if-is_name ages (within 120000) "recent" hour refl (
        if-is_name ages (within 3600000) "hour" day refl
          (if-is_name ages (within 86400000) "day" "stale" refl refl)))

-- The counts by presence, system, architecture and freshness each add up to the devices.
pub record AddsUp (o : Overview) : Type 0 where
  pub presence : o.online + o.offline ≡ o.total
  pub os : Tallies systems o.total o.os
  pub arch : Tallies architectures o.total o.arch
  pub freshness : Tallies ages o.total o.freshness

no_devices-AddsUp : AddsUp no_devices
no_devices-AddsUp = record {
  presence = refl;
  os = record { named = refl; numbers = refl; adds_up = refl };
  arch = record { named = refl; numbers = refl; adds_up = refl };
  freshness = record { named = refl; numbers = refl; adds_up = refl };
}

module _ (lower : String → String) (inherited : String → Option String) (now : ℕ) where
  count_device-AddsUp :
      (o : Overview) (d : DeviceRow) → AddsUp o → AddsUp (count_device lower inherited now o d)
  unfolding count_device
  count_device-AddsUp o d a = elim (Bool-cases (is_empty d.id)) [
    | inl nameless ↦ rw (nameless, count_device) a
    | inr named ↦
        let age = freshness_bucket_name d.last_seen now in
        rw (named, count_device)
          (record {
            presence = ground (arith, a.presence);
            os = bump-Tallies inherited _ systems o.total o.os (classify_os_name lower d.os) a.os;
            arch =
                bump-Tallies inherited _ architectures o.total o.arch
                  (classify_arch_name lower d.arch) a.arch;
            freshness = bump-Tallies inherited _ ages o.total o.freshness age a.freshness;
          })
  ]

  count_devices-AddsUp :
      (o : Overview) (rows : List DeviceRow)
      → AddsUp o
      → AddsUp (count_devices lower inherited now o rows)
  unfolding count_devices
  count_devices-AddsUp o [] a = a
  count_devices-AddsUp o (d ∷ rows) a =
      count_devices-AddsUp (count_device lower inherited now o d) rows (count_device-AddsUp o d a)

  count_devices_total :
      (o : Overview) (rows : List DeviceRow)
      → (count_devices lower inherited now o rows).total
        ≡ o.total + length (filter (λ d. not (is_empty d.id)) rows)
  unfolding count_devices count_device
  count_devices_total o [] = omega arith
  count_devices_total o (d ∷ rows) =
      ground (arith, count_devices_total (count_device lower inherited now o d) rows)

  -- The overview's counts by presence, system, architecture and freshness, as they are answered,
  -- are numbers under just the names of the code's classes, and each kind adds up to the total,
  -- which is the number of the devices that have an id (`AddsUp`). The versions are not among
  -- them.
  pub overview-AddsUp :
      (rows : List DeviceRow)
      → AddsUp (build_overview lower inherited now rows)
        × ((build_overview lower inherited now rows).total
            ≡ length (filter (λ d. not (is_empty d.id)) rows))
  unfolding build_overview is_sensitive
  overview-AddsUp rows =
      let a = count_devices-AddsUp no_devices rows no_devices-AddsUp in
      let o = count_devices lower inherited now no_devices rows in
      (
        record {
          presence = a.presence;
          os = strip-Tallies systems o.total o.os refl a.os;
          arch = strip-Tallies architectures o.total o.arch refl a.arch;
          freshness = strip-Tallies ages o.total o.freshness refl a.freshness;
        },
        omega (arith, count_devices_total no_devices rows),
      )
