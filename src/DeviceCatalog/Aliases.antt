-- ===== src/DeviceCatalog/Aliases.antt =====
-- packages/fleet-worker/src/device-catalog.mjs: which device an alias leads to.
use fleet_for_agent.Base.{
  ◌≡◌, sym, ap, subst, ◌∙◌, inl, inr, String, true, ◌||◌, Option, some, arith, Bool-cases,
  Option-cases,
}
use fleet_for_agent.Base.Eq.{string_eq, pair_eq}
use fleet_for_agent.Base.Assoc.{lookup}
use fleet_for_agent.Base.Text.{trim, is_empty}
use fleet_for_agent.DeviceCatalog.{
  text_of, normalize_device_alias, key_in, Device, Catalog, of_user, list_catalog_devices,
  ensure_alias_index, exact_row, alias_row, resolve_alias, resolve_catalog_device,
  backfill_user_device_index,
}

list_keeps_devices :
    (user : String) (c : Catalog) → (list_catalog_devices user c).0.devices ≡ c.devices
unfolding list_catalog_devices backfill_user_device_index
list_keeps_devices user c = ground arith

-- What is found is stored, and is the account's.
abbrev pub Found : String → Catalog → Device → Type 0
Found user c d = (of_user user d ≡ true) × (id : String) × (lookup id c.devices ≡ some d)

module _ (nfc fold : String → String) (user : String) where
  ensure_keeps_devices : (c : Catalog) → (ensure_alias_index nfc fold user c).devices ≡ c.devices
  unfolding ensure_alias_index
  ensure_keeps_devices c = ground (arith, list_keeps_devices user c)

  exact_row-Found :
      (id : String) (c : Catalog) (d : Device)
      → exact_row nfc fold user (lookup id c.devices) ≡ some d
      → Found user c d
  exact_row-Found id c d h = elim (Option-cases (lookup id c.devices)) [
    | inl missing ↦ cc (rw missing at h)
    | inr (e, stored) ↦
        let inverse : (of_user user e ≡ true) × (e ≡ d) = ground (arith, rw stored at h) in
        (subst (λ x. of_user user x ≡ true) inverse.1 inverse.0, id, stored ∙ ap some inverse.1)
  ]

  alias_row-Found :
      (key id : String) (c : Catalog) (d : Device)
      → alias_row nfc fold user key (lookup id c.devices) ≡ some d
      → Found user c d
  alias_row-Found key id c d h = elim (Option-cases (lookup id c.devices)) [
    | inl missing ↦ cc (rw missing at h)
    | inr (e, stored) ↦
        let inverse : (of_user user e ≡ true) × (e ≡ d) = ground (arith, rw stored at h) in
        (subst (λ x. of_user user x ≡ true) inverse.1 inverse.0, id, stored ∙ ap some inverse.1)
  ]

  resolve_alias-Found :
      (key : String) (c : Catalog) (d : Device)
      → (resolve_alias nfc fold user key c).1 ≡ some d
      → Found user (resolve_alias nfc fold user key c).0 d
  unfolding resolve_alias
  resolve_alias-Found key c d h = elim (Option-cases (lookup (user, key) c.aliases)) [
    | inl nothing ↦ cc (rw (nothing, resolve_alias) at h)
    | inr (id, held) ↦ elim (Bool-cases (is_empty id)) [
      | inl empty ↦ cc (rw (held, empty, resolve_alias) at h)
      | inr full ↦ elim (Option-cases (alias_row nfc fold user key (lookup id c.devices))) [
        | inl dead ↦ cc (rw (held, full, dead, resolve_alias) at h)
        | inr (e, live) ↦
            let here : resolve_alias nfc fold user key c ≡ (c, some e) =
              rw (held, full, live, resolve_alias) in
            subst (λ r. (r.1 ≡ some d) → Found user r.0 d) (sym here)
              (λ same. alias_row-Found key id c d (live ∙ same)) h
      ]
    ]
  ]

  -- A device that a reference resolves to, by its id or by an alias, is a stored device of the
  -- account that asked.
  pub resolve_catalog_device-Found :
      (reference : Option String) (c : Catalog) (d : Device)
      → (resolve_catalog_device nfc fold user reference c).1 ≡ some d
      → Found user (resolve_catalog_device nfc fold user reference c).0 d
  unfolding resolve_catalog_device
  resolve_catalog_device-Found reference c d h =
      elim (Bool-cases (is_empty user || is_empty (trim (text_of reference)))) [
        | inl absent ↦ cc (rw (absent, resolve_catalog_device) at h)
        | inr given ↦
            elim (Option-cases
              (exact_row nfc fold user (lookup (trim (text_of reference)) c.devices))) [
                | inr (e, exact) ↦
                    let here : resolve_catalog_device nfc fold user reference c ≡ (c, some e) =
                      rw (given, exact, resolve_catalog_device) in
                    subst (λ r. (r.1 ≡ some d) → Found user r.0 d) (sym here)
                      (λ same. exact_row-Found (trim (text_of reference)) c d (exact ∙ same)) h
                | inl other ↦
                    elim (Option-cases (
                      key_in (normalize_device_alias nfc fold (some (trim (text_of reference)))))) [
                        | inl none_such ↦
                            cc (rw (given, other, none_such, resolve_catalog_device) at h)
                        | inr (key, named) ↦
                            let here : resolve_catalog_device nfc fold user reference c
                                ≡ resolve_alias nfc fold user key
                                    (ensure_alias_index nfc fold user c) =
                              rw (given, other, named, resolve_catalog_device) in
                            subst (λ r. (r.1 ≡ some d) → Found user r.0 d) (sym here)
                              (resolve_alias-Found key (ensure_alias_index nfc fold user c) d) h
                      ]
              ]
      ]
