-- ===== src/Examples/Catalogs.antt =====
-- packages/fleet-worker/src/device-catalog.mjs on a catalog of one device.
use fleet_for_agent.Base.{
  ◌≡◌, refl, ap, sym, inl, inr, length-append, Option-cases, In, In-cons, In-nil, ℕ, ◌++◌, Option,
  none, some, false, [], ◌∷◌, String, length, arith, take,
}
use fleet_for_agent.Base.Assoc.{Assoc, lookup, put, Distinct}
use fleet_for_agent.Base.Eq.{string_eq}
use fleet_for_agent.Base.Text.{trim, is_empty}
use fleet_for_agent.DeviceCatalog.{Device, Catalog, store_catalog_device, resolve_catalog_device}
use fleet_for_agent.DeviceCatalog.Aliases.{Found, resolve_catalog_device-Found}
use fleet_for_agent.DeviceCatalog.Batches.{
  list_by_prefix, list_by_prefix_complete, IsListing, last_key, storage_batch_size,
}

same_text : String → String
same_text s = s

abbrev desk : Device
desk = record { id = "d1"; user_id = some "u"; alias = none; rest = "" }

abbrev no_devices : Catalog
no_devices = record { devices = []; index = []; ready = []; aliases = []; alias_ready = [] }

abbrev one_device : Catalog
one_device = store_catalog_device same_text same_text no_devices desk

desk_found : (resolve_catalog_device same_text same_text "u" (some " d1 ") one_device).1 ≡ some desk
unfolding resolve_catalog_device store_catalog_device is_empty trim lookup put
desk_found = refl

resolve_catalog_device-Found_example :
    Found "u" (resolve_catalog_device same_text same_text "u" (some " d1 ") one_device).0 desk
resolve_catalog_device-Found_example =
    resolve_catalog_device-Found same_text same_text "u" (some " d1 ") one_device desk desk_found

-- A store with one row of the prefix.
abbrev one_row : Assoc String ℕ
one_row = ("d:1", 7) ∷ []

abbrev one_page : Option String → Assoc String ℕ
one_page none = one_row
one_page (some k) = []

nothing_after :
    (x : String × ℕ) (before after : Assoc String ℕ)
    → x ∷ before ++ after ≡ one_row
    → [] ≡ take storage_batch_size after
unfolding take
nothing_after x before [] split = refl
nothing_after x before (y ∷ after) split =
    ground (arith, ap length split, length-append before (y ∷ after))

one_page-IsListing : IsListing one_page one_row
unfolding take
one_page-IsListing [] after split = ap (take storage_batch_size) (sym split)
one_page-IsListing (x ∷ before) after split = elim (Option-cases (last_key before)) [
  | inl none_more ↦ rw none_more (nothing_after x before after split)
  | inr (k, more) ↦ rw more (nothing_after x before after split)
]

one_row-named : (k : String) (v : ℕ) → In (k, v) one_row → is_empty k ≡ false
unfolding is_empty
one_row-named k v i =
    In-cons (λ e. is_empty e.0 ≡ false) ("d:1", 7) [] refl (In-nil (λ e. is_empty e.0 ≡ false))
      (k, v) i

one_row-Distinct : Distinct one_row
unfolding lookup
one_row-Distinct = (refl, tt)

list_by_prefix_complete_example : list_by_prefix one_page 2 ≡ some one_row
list_by_prefix_complete_example =
    list_by_prefix_complete one_page one_row 2 one_page-IsListing one_row-Distinct one_row-named
      (omega arith)
