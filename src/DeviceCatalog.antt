-- ===== src/DeviceCatalog.antt =====
-- packages/fleet-worker/src/device-catalog.mjs: the devices of all accounts, with an index of each
-- account's devices and of its aliases. The store holds one map for each key prefix; the parts of
-- a key are ids and encoded texts, which hold no colon, so different parts are different keys.
-- Unicode normalisation is a parameter: `nfc`, and `fold` for NFKC with lower case.
pub mod Batches
pub mod Aliases
use fleet_for_agent.Base.{
  ℕ, String, Bool, true, false, not, ◌&&◌, ◌||◌, Option, none, some, List, [], ◌∷◌, map, any,
  filter, ltb, is_some, or_else, Result, ok, err, if◌then◌else◌,
}
use fleet_for_agent.Base.Eq.{◌==◌, string_eq, pair_eq}
use fleet_for_agent.Base.Assoc.{Assoc, lookup, remove, put, set}
use fleet_for_agent.Base.Keys.{text_before, pair_before}
use fleet_for_agent.Base.Text.{trim, is_empty, has_control, code_points, utf8_length}

pub record Alias : Type 0 where
  pub alias : String
  pub key : String

abbrev pub no_alias : Alias
no_alias = record { alias = ""; key = "" }

abbrev pub text_of : Option String → String
text_of none = ""
text_of (some s) = s

-- `none` for a text that is no alias.
unfoldable pub normalize_device_alias :
    (String → String) → (String → String) → Option String → Option Alias
normalize_device_alias nfc fold value =
    let alias = nfc (trim (text_of value)) in
    if is_empty alias
    then some no_alias
    else if ltb 64 (code_points alias) || ltb 256 (utf8_length alias) || has_control alias
    then none
    else some (record { alias = alias; key = fold alias })

-- The key of a text, where it is an alias and not empty: `normalizeDeviceAlias(value)?.key`.
unfoldable pub key_in : Option Alias → Option String
key_in none = none
key_in (some a) = if is_empty a.key then none else some a.key

pub record Device : Type 0 where
  pub id : String
  pub user_id : Option String
  pub alias : Option String
  pub rest : String

-- A value of `index` is the id of the catalog row that its text names.
pub record Catalog : Type 0 where
  pub devices : Assoc String Device
  pub index : Assoc (String × String) String
  pub ready : Assoc String Bool
  pub aliases : Assoc (String × String) String
  pub alias_ready : Assoc String Bool

abbrev pub owned_by : String → Device → Bool
owned_by user d = elim d.user_id [ none ↦ false | some u ↦ u == user ]

abbrev pub is_marked : String → Assoc String Bool → Bool
is_marked user marks = or_else (lookup user marks) false

unfoldable pub mark_user_device_index_ready : String → Catalog → Catalog
mark_user_device_index_ready user c =
    if is_empty user then c else record c { ready = put text_before user true c.ready }

module _ (nfc fold : String → String) where
  abbrev pub alias_key : Device → Option String
  alias_key d = key_in (normalize_device_alias nfc fold d.alias)

  abbrev pub has_key : String → Option Device → String → Bool
  has_key user none key = false
  has_key user (some d) key =
      owned_by user d && elim (alias_key d) [ none ↦ false | some k ↦ k == key ]

  -- A heartbeat does not take an alias from a device that has it.
  abbrev pub alias_indexed : Catalog → String → String → Option String → Option String → Bool
  alias_indexed c user id none holder = true
  alias_indexed c user id (some key) none = false
  alias_indexed c user id (some key) (some holder) =
      holder == id || has_key user (lookup holder c.devices) key

  abbrev pub alias_holder : Catalog → String → Option String → Option String
  alias_holder c user none = none
  alias_holder c user (some key) = lookup (user, key) c.aliases

  abbrev pub with_alias :
      String
      → String
      → Option String
      → Bool
      → Assoc (String × String) String
      → Assoc (String × String) String
  with_alias user id none indexed aliases = aliases
  with_alias user id (some key) indexed aliases =
      if indexed then aliases else put pair_before (user, key) id aliases

  -- The row with its account's index, where that misses it.
  unfoldable pub store_owned : Catalog → String → Device → Catalog
  unfolding normalize_device_alias key_in
  store_owned c user next =
      let key = alias_key next in
      let indexed = alias_indexed c user next.id key (alias_holder c user key) in
      record c {
        devices = put text_before next.id next c.devices;
        index = put pair_before (user, next.id) next.id c.index;
        aliases = with_alias user next.id key indexed c.aliases;
      }

  unfoldable pub store_catalog_device : Catalog → Device → Catalog
  unfolding store_owned
  store_catalog_device c next = if is_empty next.id then c else elim next.user_id [
    | none ↦ record c { devices = put text_before next.id next c.devices }
    | some user ↦
        if is_empty user
        then record c { devices = put text_before next.id next c.devices }
        else store_owned c user next
  ]

abbrev pub of_user : String → Device → Bool
of_user user d = not (is_empty d.id) && owned_by user d

unfoldable pub user_rows : String → Catalog → List Device
user_rows user c = filter (of_user user) (map (λ e. e.1) c.devices)

unfoldable pub index_rows :
    String → List Device → Assoc (String × String) String → Assoc (String × String) String
index_rows user [] index = index
index_rows user (d ∷ rows) index = index_rows user rows (put pair_before (user, d.id) d.id index)

-- The ready mark is written after every entry of the index.
unfoldable pub backfill_user_device_index : String → Catalog → Catalog × List Device
unfolding user_rows index_rows
backfill_user_device_index user c =
    let rows = user_rows user c in
    (
      record c { index = index_rows user rows c.index; ready = put text_before user true c.ready },
      rows,
    )

-- The rows that the account's index names, in its order.
unfoldable pub indexed_rows :
    String → Assoc (String × String) String → Assoc String Device → List Device
indexed_rows user [] devices = []
indexed_rows user ((k, id) ∷ rest) devices =
    let rows = indexed_rows user rest devices in
    elim (lookup id devices) [
      | none ↦ rows
      | some d ↦ if k.0 == user && of_user user d then d ∷ rows else rows
    ]

unfoldable pub list_catalog_devices : String → Catalog → Catalog × List Device
unfolding backfill_user_device_index indexed_rows
list_catalog_devices user c =
    if is_empty user
    then (c, [])
    else if is_marked user c.ready
    then (c, indexed_rows user c.index c.devices)
    else backfill_user_device_index user c

-- `putEntries`, whose batches `Batches` is about.
unfoldable pub put_all :
    Assoc (String × String) String → Assoc (String × String) String → Assoc (String × String) String
put_all [] stored = stored
put_all ((k, id) ∷ entries) stored = put_all entries (put pair_before k id stored)

module _ (nfc fold : String → String) where
  -- The first row of each alias.
  unfoldable pub first_aliases :
      String → List Device → Assoc (String × String) String → Assoc (String × String) String
  first_aliases user [] aliases = aliases
  first_aliases user (d ∷ rows) aliases = first_aliases user rows (elim (alias_key nfc fold d) [
    | none ↦ aliases
    | some key ↦
        if is_some (lookup (user, key) aliases) then aliases else set (user, key) d.id aliases
  ])

  abbrev pub row_of : String → List Device → Option Device
  row_of id [] = none
  row_of id (d ∷ rows) = elim (row_of id rows) [
    | some e ↦ some e
    | none ↦ if d.id == id then some d else none
  ]

  abbrev pub still_holds : Option Device → String → Bool
  still_holds none key = false
  still_holds (some d) key = elim (alias_key nfc fold d) [ none ↦ false | some k ↦ k == key ]

  -- An alias that is indexed already keeps its device, where that still has it.
  unfoldable pub keep_indexed :
      List Device
      → Assoc (String × String) String
      → Assoc (String × String) String
      → Assoc (String × String) String
  keep_indexed rows stored [] = []
  keep_indexed rows stored ((k, id) ∷ aliases) =
      let rest = keep_indexed rows stored aliases in
      elim (lookup k stored) [
        | none ↦ (k, id) ∷ rest
        | some holder ↦ (k, if still_holds (row_of holder rows) k.1 then holder else id) ∷ rest
      ]

  unfoldable pub ensure_alias_index : String → Catalog → Catalog
  unfolding list_catalog_devices first_aliases keep_indexed put_all
  ensure_alias_index user c =
      let (listed, rows) = list_catalog_devices user c in
      if is_marked user c.alias_ready then c else record listed {
        aliases = put_all (keep_indexed rows c.aliases (first_aliases user rows [])) c.aliases;
        alias_ready = put text_before user true c.alias_ready;
      }

  abbrev pub exact_row : String → Option Device → Option Device
  exact_row user none = none
  exact_row user (some d) = if of_user user d then some d else none

  abbrev pub alias_row : String → String → Option Device → Option Device
  alias_row user key none = none
  alias_row user key (some d) =
      if of_user user d && has_key nfc fold user (some d) key then some d else none

  -- A dead entry of the alias index is deleted where it is met.
  unfoldable pub resolve_alias : String → String → Catalog → Catalog × Option Device
  resolve_alias user key c = elim (lookup (user, key) c.aliases) [
    | none ↦ (c, none)
    | some id ↦ if is_empty id then (c, none) else elim (alias_row user key (lookup id c.devices)) [
      | some d ↦ (c, some d)
      | none ↦ (record c { aliases = remove (user, key) c.aliases }, none)
    ]
  ]

  unfoldable pub resolve_catalog_device : String → Option String → Catalog → Catalog × Option Device
  unfolding ensure_alias_index resolve_alias normalize_device_alias key_in
  resolve_catalog_device user reference c =
      let ref = trim (text_of reference) in
      if is_empty user || is_empty ref
      then (c, none)
      else elim (exact_row user (lookup ref c.devices)) [
        | some d ↦ (c, some d)
        | none ↦ elim (key_in (normalize_device_alias nfc fold (some ref))) [
          | none ↦ (c, none)
          | some key ↦ resolve_alias user key (ensure_alias_index user c)
        ]
      ]

pub data AliasError : Type 0 where
  device_id_required invalid_alias not_found already_in_use : AliasError

abbrev pub find_device : (Device → Bool) → List Device → Option Device
find_device p [] = none
find_device p (d ∷ rows) = if p d then some d else find_device p rows

module _ (nfc fold : String → String) where
  abbrev pub key_is : String → Option String → Bool
  key_is key value = elim (key_in (normalize_device_alias nfc fold value)) [
    | none ↦ false
    | some k ↦ k == key
  ]

  -- Another device that goes by the key, as its id or as its alias.
  abbrev pub collides : String → String → Device → Bool
  collides id key d = not (d.id == id) && (key_is key (some d.id) || key_is key d.alias)

  abbrev pub collision : String → Option String → List Device → Bool
  collision id none rows = false
  collision id (some key) rows = any (collides id key) rows

  -- The alias that the device had goes to another device that has it, or is deleted.
  unfoldable pub release_alias :
      String
      → String
      → Option String
      → Option String
      → List Device
      → Assoc (String × String) String
      → Assoc (String × String) String
  release_alias user id none key rows aliases = aliases
  release_alias user id (some old) key rows aliases =
      if elim key [ none ↦ false | some k ↦ k == old ]
      then aliases
      else elim (find_device (λ d. not (d.id == id) && key_is old d.alias) rows) [
        | some d ↦ put pair_before (user, old) d.id aliases
        | none ↦ remove (user, old) aliases
      ]

  abbrev pub hold_alias :
      String
      → String
      → Option String
      → Assoc (String × String) String
      → Assoc (String × String) String
  hold_alias user id none aliases = aliases
  hold_alias user id (some key) aliases = put pair_before (user, key) id aliases

  abbrev pub renamed : Device → Alias → Device
  renamed d a = record d { alias = if is_empty a.alias then none else some a.alias }

  unfoldable pub write_alias :
      String → Device → Alias → Catalog → List Device → Catalog × Result AliasError Device
  unfolding release_alias key_in
  write_alias user current a c rows =
      let key = key_in (some a) in
      let next = renamed current a in
      if collision current.id key rows then (c, err already_in_use) else (
        record c {
          devices = put text_before current.id next c.devices;
          aliases =
              hold_alias user current.id key
                (release_alias user current.id (alias_key nfc fold current) key rows c.aliases);
        },
        ok next,
      )

  abbrev pub alias_for :
      String → Alias → Catalog × List Device → Option Device → Catalog × Result AliasError Device
  alias_for user a (c, rows) none = (c, err not_found)
  alias_for user a (c, rows) (some current) = write_alias user current a c rows

  unfoldable pub set_catalog_device_alias :
      String → Option String → Option String → Catalog → Catalog × Result AliasError Device
  unfolding normalize_device_alias list_catalog_devices write_alias
  set_catalog_device_alias user device_id value c =
      let id = trim (text_of device_id) in
      if is_empty user || is_empty id
      then (c, err device_id_required)
      else elim (normalize_device_alias nfc fold value) [
        | none ↦ (c, err invalid_alias)
        | some a ↦
            let listed = list_catalog_devices user c in
            alias_for user a listed (find_device (λ d. d.id == id) listed.1)
      ]
