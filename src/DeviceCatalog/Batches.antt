-- ===== src/DeviceCatalog/Batches.antt =====
-- packages/fleet-worker/src/device-catalog.mjs, listByPrefix, putEntries and getEntries: the
-- store is read and written in batches of 128 entries. The store's own `list` of one prefix is a
-- parameter.
use mathlib.Core.Option.{some-injective}
use mathlib.Core.List.{append-nil, append_assoc}
use fleet_for_agent.Base.{
  ℕ, zero, suc, ◌≤◌, ◌<◌, ◌≡◌, ◌≢◌, refl, sym, ap, subst, ◌∙◌, inl, inr, String, Bool, true, false,
  ◌||◌, Option, none, some, [], ◌∷◌, ◌++◌, ltb, length, if◌then◌else◌, arith, Bool-cases,
  Option-cases, length-append, In, here, there, take, drop, take-drop, length-drop, In-left,
  In-right,
}
use fleet_for_agent.Base.Eq.{◌==◌, ==_iff, string_eq, pair_eq}
use fleet_for_agent.DeviceCatalog.{put_all}
use fleet_for_agent.Base.Keys.{pair_before}
use fleet_for_agent.Base.Assoc.{
  put, Assoc, lookup, set, set_absent, Distinct, lookup-append, absent_suffix,
}
use fleet_for_agent.Base.Text.{is_empty}

abbrev pub storage_batch_size : ℕ
storage_batch_size = 128

abbrev pub is_last : Option String → Option String → Bool
is_last none start = true
is_last (some last) none = is_empty last
is_last (some last) (some start) = is_empty last || last == start

module _ {V : Type 0} where
  -- `rows.set(...entry)` for each entry of a page
  unfoldable pub set_page : Assoc String V → Assoc String V → Assoc String V
  set_page [] rows = rows
  set_page ((k, v) ∷ page) rows = set_page page (set k v rows)

  abbrev pub last_key : Assoc String V → Option String
  last_key [] = none
  last_key ((k, v) ∷ page) = elim (last_key page) [ none ↦ some k | some j ↦ some j ]

  -- The loop, with one unit of fuel for a page.
  unfoldable pub list_pages :
      (Option String → Assoc String V)
      → ℕ
      → Option String
      → Assoc String V
      → Option (Assoc String V)
  unfolding set_page
  list_pages list zero start rows = none
  list_pages list (suc fuel) start rows =
      let page = list start in
      let more = list_pages list fuel (last_key page) (set_page page rows) in
      if ltb (length page) storage_batch_size
      then some (set_page page rows)
      else if is_last (last_key page) start
      then some (set_page page rows)
      else more

  unfoldable pub list_by_prefix : (Option String → Assoc String V) → ℕ → Option (Assoc String V)
  unfolding list_pages
  list_by_prefix list fuel = list_pages list fuel none []

  In-present : (k : String) (v : V) (m : Assoc String V) → In (k, v) m → lookup k m ≢ none
  unfolding lookup
  In-present k v [] i h = elim i [ ]
  In-present k v ((j, w) ∷ m) here h = ground (arith, ==_iff k k)
  In-present k v ((j, w) ∷ m) (there i) h = ground (arith, In-present k v m i)

  apart :
      (k : String) (v : V) (m n : Assoc String V)
      → Distinct (m ++ n)
      → In (k, v) n
      → lookup k m ≡ none
  unfolding lookup
  apart k v [] n d i = refl
  apart k v ((j, w) ∷ m) n d i =
      let absent = absent_suffix k m n in
      ground (arith, apart k v m n d.1 i, absent, In-present k v n i, d.0, ==_iff j k)

  set_page-append :
      (page rows : Assoc String V) → Distinct (rows ++ page) → set_page page rows ≡ rows ++ page
  unfolding set_page
  set_page-append [] rows d = sym (append-nil rows)
  set_page-append ((k, v) ∷ page) rows d =
      let joined : (rows ++ (k, v) ∷ []) ++ page ≡ rows ++ (k, v) ∷ page =
        append_assoc rows ((k, v) ∷ []) page in
      ap (set_page page) (set_absent k v rows (apart k v rows ((k, v) ∷ page) d here))
      ∙ set_page-append page (rows ++ (k, v) ∷ []) (subst Distinct (sym joined) d)
      ∙ joined

  last_key-none : (m : Assoc String V) → last_key m ≡ none → length m ≡ 0
  last_key-none [] h = refl
  last_key-none ((j, w) ∷ m) h = elim (Option-cases (last_key m)) [
    | inl nothing ↦ cc (rw nothing at h)
    | inr (i, deeper) ↦ cc (rw deeper at h)
  ]

  last_key-append :
      (k : String) (m n : Assoc String V) → last_key n ≡ some k → last_key (m ++ n) ≡ some k
  last_key-append k [] n h = h
  last_key-append k ((j, w) ∷ m) n h = rw (last_key-append k m n h) refl

  Distinct-left : (m n : Assoc String V) → Distinct (m ++ n) → Distinct m
  unfolding lookup
  Distinct-left [] n d = tt
  Distinct-left ((j, w) ∷ m) n d = ground (arith, lookup-append j m n, Distinct-left m n d.1, d.0)

  append_none : (m n : Assoc String V) → length n ≡ 0 → m ++ n ≡ m
  append_none m [] h = append-nil m
  append_none m (x ∷ n) h = ground arith

  last_key-In : (k : String) (m : Assoc String V) → last_key m ≡ some k → (v : V) × In (k, v) m
  last_key-In k [] h = cc h
  last_key-In k ((j, w) ∷ m) h = elim (Option-cases (last_key m)) [
    | inl nothing ↦
        (w, subst (λ i. In (i, w) ((j, w) ∷ m)) (some-injective j k (rw nothing at h)) here)
    | inr (i, deeper) ↦ let (v, i) = last_key-In k m (deeper ∙ (rw deeper at h)) in (v, there i)
  ]

-- One page of the store's `list`: the rows after a key of it, or all, in order, at most a batch.
abbrev pub IsListing : {V : Type 0} → (Option String → Assoc String V) → Assoc String V → Type 0
IsListing {V} list all =
    (before after : Assoc String V)
    → before ++ after ≡ all
    → list (last_key before) ≡ take storage_batch_size after

module _ {V : Type 0} (list : Option String → Assoc String V) (all : Assoc String V) where
  module _ (listing : IsListing list all) (distinct : Distinct all)
      (named : (k : String) (v : V) → In (k, v) all → is_empty k ≡ false) where
    -- A full page's last key is none of the keys before the page.
    goes_on :
        (before after : Assoc String V)
        → before ++ after ≡ all
        → ltb (length (take storage_batch_size after)) storage_batch_size ≡ false
        → is_last (last_key (take storage_batch_size after)) (last_key before) ≡ false
    goes_on before after split full =
        elim (Option-cases (last_key (take storage_batch_size after))) [
          | inl nothing ↦
              let none_left = last_key-none (take storage_batch_size after) nothing in
              ground (arith, none_left, full)
          | inr (k, ends) ↦
              let (v, i) = last_key-In k (take storage_batch_size after) ends in
              let later : In (k, v) after =
                subst (In (k, v)) (take-drop storage_batch_size after)
                  (In-left (drop storage_batch_size after) i) in
              let fresh : lookup k before ≡ none =
                apart k v before after (subst Distinct (sym split) distinct) later in
              let full_name : is_empty k ≡ false =
                named k v (subst (In (k, v)) split (In-right before later)) in
              elim (Option-cases (last_key before)) [
                | inl start ↦ rw (ends, start) full_name
                | inr (j, begins) ↦
                    let (w, i') = last_key-In j before begins in
                    rw (ends, begins)
                      (ground (arith, full_name, ==_iff k j, In-present k w before, fresh, i'))
              ]
        ]

    pages_complete :
        (fuel : ℕ) (before after : Assoc String V)
        → before ++ after ≡ all
        → length after < fuel
        → list_pages list fuel (last_key before) before ≡ some all
    unfolding list_pages
    pages_complete zero before after split enough = ground arith
    pages_complete (suc fuel) before after split enough =
        let page = take storage_batch_size after in
        let rest = drop storage_batch_size after in
        let cut : page ++ rest ≡ after = take-drop storage_batch_size after in
        let whole : (before ++ page) ++ rest ≡ all =
          append_assoc before page rest ∙ ap (λ r. before ++ r) cut ∙ split in
        let gathered : set_page page before ≡ before ++ page =
          set_page-append page before
            (Distinct-left (before ++ page) rest (subst Distinct (sym whole) distinct)) in
        let counted = length-append page rest in
        let dropped = length-drop storage_batch_size after in
        let total : length (page ++ rest) ≡ length after = ap length cut in
        elim (Bool-cases (ltb (length page) storage_batch_size)) [
          | inl short ↦
              let done : length rest ≡ 0 = ground (arith, short, counted, dropped, total) in
              rw (listing before after split, short)
                (ap some (gathered ∙ sym (append_none (before ++ page) rest done) ∙ whole))
          | inr full ↦ elim (Option-cases (last_key page)) [
            | inl nothing ↦ ground (arith, last_key-none page nothing, full)
            | inr (k, ends) ↦
                let fewer : length rest < fuel =
                  ground (arith, full, counted, dropped, total, enough) in
                let next = pages_complete fuel (before ++ page) rest whole fewer in
                rw (listing before after split, full, goes_on before after split full)
                  (subst (λ start. list_pages list fuel start (set_page page before) ≡ some all)
                    (last_key-append k before page ends ∙ sym ends)
                    (subst
                      (λ rows. list_pages list fuel (last_key (before ++ page)) rows ≡ some all)
                      (sym gathered) next))
          ]
        ]

  -- The loop over the pages of a prefix ends with all rows of the prefix, in order, on fuel of
  -- more than their number, where the store lists after a key what comes after it, at most a
  -- batch, no two keys are equal and none is empty.
  pub list_by_prefix_complete :
      (fuel : ℕ)
      → IsListing list all
      → Distinct all
      → ((k : String) (v : V) → In (k, v) all → is_empty k ≡ false)
      → length all < fuel
      → list_by_prefix list fuel ≡ some all
  unfolding list_by_prefix
  list_by_prefix_complete fuel listing distinct named enough =
      pages_complete listing distinct named fuel [] all refl enough

-- `putEntries`: a batch is put in one step of the store.
unfoldable pub put_entries :
    ℕ
    → Assoc (String × String) String
    → Assoc (String × String) String
    → Assoc (String × String) String
unfolding take drop put_all
put_entries zero entries stored = stored
put_entries (suc fuel) [] stored = stored
put_entries (suc fuel) (e ∷ entries) stored =
    put_entries fuel (drop storage_batch_size (e ∷ entries))
      (put_all (take storage_batch_size (e ∷ entries)) stored)

put_all-append :
    (xs ys stored : Assoc (String × String) String)
    → put_all (xs ++ ys) stored ≡ put_all ys (put_all xs stored)
unfolding put_all
put_all-append [] ys stored = refl
put_all-append ((k, id) ∷ xs) ys stored = put_all-append xs ys (put pair_before k id stored)

-- Entries that are put in batches leave the store as entries that are put one after another, on
-- fuel of at least their number.
put_entries_all :
    (fuel : ℕ) (entries stored : Assoc (String × String) String)
    → length entries ≤ fuel
    → put_entries fuel entries stored ≡ put_all entries stored
unfolding put_entries put_all
put_entries_all zero [] stored enough = refl
put_entries_all zero (e ∷ entries) stored enough = ground arith
put_entries_all (suc fuel) [] stored enough = refl
put_entries_all (suc fuel) (e ∷ entries) stored enough =
    let first = take storage_batch_size (e ∷ entries) in
    let rest = drop storage_batch_size (e ∷ entries) in
    put_entries_all fuel rest (put_all first stored)
      (omega (arith, enough, length-drop storage_batch_size (e ∷ entries)))
    ∙ sym (put_all-append first rest stored)
    ∙ ap (λ r. put_all r stored) (take-drop storage_batch_size (e ∷ entries))
