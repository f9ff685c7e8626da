-- ===== src/Base/Assoc.antt =====
-- Maps as association lists. `set` is JavaScript's `Map.prototype.set`: a present key keeps its
-- place, a new one goes to the end. `put` is the same for a store that is kept in the order of
-- its keys, `before`. The laws do not need the list to be in order.
use Prim.Native.Nat.{◌+◌, ◌≤◌}
use mathlib.Core.Path.{◌≡◌, refl, subst, ap}
use mathlib.Core.Logic.{◌≢◌, ◌⊎◌, inl, inr}
use mathlib.Core.Bool.{Bool, false}
use mathlib.Core.Option.{Option, none, some}
use mathlib.Core.List.{List, [], ◌∷◌, ◌++◌}
use native.Mathlib.Omega.{arith}
use fleet_for_agent.Base.Tests.{if◌then◌else◌, Bool-cases, Option-cases}
use fleet_for_agent.Base.Lists.{length, In, here, there}
use fleet_for_agent.Base.Eq.{Eq, ◌==◌, ==_iff}

abbrev pub Assoc {ℓ} : Type 0 → Type ℓ → Type ℓ
Assoc K V = List (K × V)

module _ {K V : Type 0} ⦃e : Eq K⦄ where
  unfoldable pub lookup : K → Assoc K V → Option V
  lookup k [] = none
  lookup k ((j, v) ∷ m) = if j == k then some v else lookup k m

  -- Drops every entry of the key.
  unfoldable pub remove : K → Assoc K V → Assoc K V
  remove k [] = []
  remove k ((j, v) ∷ m) = let rest = remove k m in if j == k then rest else (j, v) ∷ rest

  -- The value of a key that is there.
  unfoldable pub replace : K → V → Assoc K V → Assoc K V
  replace k v [] = []
  replace k v ((j, w) ∷ m) = if j == k then (k, v) ∷ m else (j, w) ∷ replace k v m

  unfoldable pub insert : (K → K → Bool) → K → V → Assoc K V → Assoc K V
  insert before k v [] = (k, v) ∷ []
  insert before k v ((j, w) ∷ m) =
      if before k j then (k, v) ∷ (j, w) ∷ m else (j, w) ∷ insert before k v m

  unfoldable pub put : (K → K → Bool) → K → V → Assoc K V → Assoc K V
  unfolding replace insert lookup
  put before k v m = elim (lookup k m) [ none ↦ insert before k v m | some _ ↦ replace k v m ]

  unfoldable pub set : K → V → Assoc K V → Assoc K V
  unfolding put
  set = put (λ _ _. false)

  pub lookup-remove :
      (k j : K) (m : Assoc K V) → lookup j (remove k m) ≡ (if k == j then none else lookup j m)
  unfolding lookup remove
  lookup-remove k j [] = ground arith
  lookup-remove k j ((i, v) ∷ m) =
      ground (arith, lookup-remove k j m, ==_iff i k, ==_iff i j, ==_iff k j)

  lookup-replace :
      (k j : K) (v w : V) (m : Assoc K V)
      → lookup k m ≡ some w
      → lookup j (replace k v m) ≡ (if k == j then some v else lookup j m)
  unfolding lookup replace
  lookup-replace k j v w [] h = cc
  lookup-replace k j v w ((i, x) ∷ m) h =
      ground (arith, lookup-replace k j v w m, ==_iff i k, ==_iff i j, ==_iff k j)

  lookup-insert :
      (before : K → K → Bool) (k j : K) (v : V) (m : Assoc K V)
      → lookup k m ≡ none
      → lookup j (insert before k v m) ≡ (if k == j then some v else lookup j m)
  unfolding lookup insert
  lookup-insert before k j v [] h = refl
  lookup-insert before k j v ((i, w) ∷ m) h =
      ground (arith, lookup-insert before k j v m, ==_iff i k, ==_iff i j, ==_iff k j)

  pub lookup-put :
      (before : K → K → Bool) (k j : K) (v : V) (m : Assoc K V)
      → lookup j (put before k v m) ≡ (if k == j then some v else lookup j m)
  unfolding put
  lookup-put before k j v m = elim (Option-cases (lookup k m)) [
    | inl absent ↦ rw (absent, put) (lookup-insert before k j v m absent)
    | inr (w, present) ↦ rw (present, put) (lookup-replace k j v w m present)
  ]

  -- What stands at a key after a write: the new value at its own, the old one elsewhere.
  pub lookup-put_cases :
      (before : K → K → Bool) (k j : K) (v w : V) (m : Assoc K V)
      → lookup j (put before k v m) ≡ some w
      → ((k ≡ j) × (v ≡ w)) ⊎ ((k ≢ j) × (lookup j m ≡ some w))
  lookup-put_cases before k j v w m h = elim (Bool-cases (k == j)) [
    | inl same ↦ inl (ground (arith, ==_iff k j), ground (arith, lookup-put before k j v m))
    | inr differs ↦
        inr ((λ e. ground (arith, ==_iff k j)), ground (arith, lookup-put before k j v m))
  ]

  pub lookup-put_self :
      (before : K → K → Bool) (k : K) (v : V) (m : Assoc K V) → lookup k (put before k v m) ≡ some v
  lookup-put_self before k v m = ground (arith, lookup-put before k k v m, ==_iff k k)

  pub lookup-put_ne :
      (before : K → K → Bool) (k j : K) (v : V) (m : Assoc K V)
      → k ≢ j
      → lookup j (put before k v m) ≡ lookup j m
  lookup-put_ne before k j v m h = ground (arith, lookup-put before k j v m, ==_iff k j)

  pub lookup-set :
      (k j : K) (v : V) (m : Assoc K V)
      → lookup j (set k v m) ≡ (if k == j then some v else lookup j m)
  unfolding set
  lookup-set k j v m = lookup-put (λ _ _. false) k j v m

  -- What a map holds is among its entries.
  pub In-lookup : (k : K) (v : V) (m : Assoc K V) → lookup k m ≡ some v → In (k, v) m
  unfolding lookup
  In-lookup k v [] h = cc
  In-lookup k v ((j, w) ∷ m) h = elim (Bool-cases (j == k)) [
    | inl same ↦
        let e : (j, w) ≡ (k, v) = ground (arith, ==_iff j k) in
        subst (λ q. In q ((j, w) ∷ m)) e here
    | inr differs ↦ there (In-lookup k v m (ground arith))
  ]

  pub length-remove-le : (k : K) (m : Assoc K V) → length (remove k m) ≤ length m
  unfolding remove
  length-remove-le k [] = omega arith
  length-remove-le k ((j, v) ∷ m) = ground (arith, length-remove-le k m)

module _ {K V : Type 0} ⦃e : Eq K⦄ where
  -- Each key has one entry.
  abbrev pub Distinct : Assoc K V → Type 0
  Distinct [] = Unit {0}
  Distinct ((k, v) ∷ m) = (lookup k m ≡ none) × Distinct m

  pub remove_absent : (k : K) (m : Assoc K V) → lookup k m ≡ none → remove k m ≡ m
  unfolding lookup remove
  remove_absent k [] h = refl
  remove_absent k ((j, v) ∷ m) h = ground (arith, remove_absent k m)

  insert_last : (k : K) (v : V) (m : Assoc K V) → insert (λ _ _. false) k v m ≡ m ++ (k, v) ∷ []
  unfolding insert
  insert_last k v [] = refl
  insert_last k v ((j, w) ∷ m) = ap (◌∷◌ (j, w)) (insert_last k v m)

  pub set_absent :
      (k : K) (v : V) (m : Assoc K V) → lookup k m ≡ none → set k v m ≡ m ++ (k, v) ∷ []
  unfolding set
  set_absent k v m h = rw (h, put) (insert_last k v m)

  replace-Distinct :
      (k : K) (v w : V) (m : Assoc K V)
      → lookup k m ≡ some w
      → Distinct m
      → Distinct (replace k v m)
  unfolding lookup replace
  replace-Distinct k v w [] h d = tt
  replace-Distinct k v w ((j, x) ∷ m) h d =
      ground (arith, replace-Distinct k v w m, lookup-replace k j v w m, ==_iff j k, ==_iff k j)

  insert-Distinct :
      (before : K → K → Bool) (k : K) (v : V) (m : Assoc K V)
      → lookup k m ≡ none
      → Distinct m
      → Distinct (insert before k v m)
  unfolding lookup insert
  insert-Distinct before k v [] h d = (refl, tt)
  insert-Distinct before k v ((j, w) ∷ m) h d =
      ground
        (arith, insert-Distinct before k v m, lookup-insert before k j v m, ==_iff j k, ==_iff k j)

  pub put-Distinct :
      (before : K → K → Bool) (k : K) (v : V) (m : Assoc K V)
      → Distinct m
      → Distinct (put before k v m)
  unfolding put
  put-Distinct before k v m d = elim (Option-cases (lookup k m)) [
    | inl absent ↦ rw (absent, put) (insert-Distinct before k v m absent d)
    | inr (w, present) ↦ rw (present, put) (replace-Distinct k v w m present d)
  ]

  pub remove-Distinct : (k : K) (m : Assoc K V) → Distinct m → Distinct (remove k m)
  unfolding remove
  remove-Distinct k [] d = tt
  remove-Distinct k ((j, v) ∷ m) d =
      ground (arith, remove-Distinct k m d.1, lookup-remove k j m, ==_iff k j)

  pub length-remove :
      (k : K) (m : Assoc K V) (v : V)
      → Distinct m
      → lookup k m ≡ some v
      → length (remove k m) + 1 ≡ length m
  unfolding lookup remove
  length-remove k [] v d h = cc
  length-remove k ((j, w) ∷ m) v d h =
      ground (arith, length-remove k m v d.1, remove_absent k m, ==_iff j k)

  pub remove_first :
      (k : K) (v : V) (m : Assoc K V) → Distinct ((k, v) ∷ m) → remove k ((k, v) ∷ m) ≡ m
  unfolding remove
  remove_first k v m d = ground (arith, remove_absent k m d.0, ==_iff k k)

  -- A key that is in neither part is not in the whole.
  pub lookup-append :
      (k : K) (m n : Assoc K V)
      → lookup k (m ++ n) ≡ (elim (lookup k m) [ none ↦ lookup k n | some v ↦ some v ])
  unfolding lookup
  lookup-append k [] n = refl
  lookup-append k ((j, w) ∷ m) n = ground (arith, lookup-append k m n)

  pub absent_suffix : (k : K) (m n : Assoc K V) → lookup k (m ++ n) ≡ none → lookup k n ≡ none
  absent_suffix k m n h = ground (arith, lookup-append k m n)

  pub Distinct-concat :
      (m : Assoc K V) (k : K) (v : V) → Distinct m → lookup k m ≡ none → Distinct (m ++ (k, v) ∷ [])
  unfolding lookup
  Distinct-concat [] k v d h = (refl, tt)
  Distinct-concat ((j, w) ∷ m) k v d h =
      ground
        (arith, Distinct-concat m k v d.1, lookup-append j m ((k, v) ∷ []), ==_iff j k, ==_iff k j)

  -- In a map with distinct keys, an entry of the later part is the map's entry.
  pub lookup_suffix :
      (k : K) (v : V) (m n : Assoc K V)
      → Distinct (m ++ n)
      → lookup k n ≡ some v
      → lookup k (m ++ n) ≡ some v
  unfolding lookup
  lookup_suffix k v [] n d h = h
  lookup_suffix k v ((j, w) ∷ m) n d h = ground (arith, lookup_suffix k v m n d.1 h, ==_iff j k)

  pub lookup-In : (k : K) (v : V) (m : Assoc K V) → Distinct m → In (k, v) m → lookup k m ≡ some v
  unfolding lookup
  lookup-In k v [] d i = elim i [ ]
  lookup-In k v ((j, w) ∷ m) d here = ground (arith, ==_iff k k)
  lookup-In k v ((j, w) ∷ m) d (there i) = ground (arith, lookup-In k v m d.1 i, d.0, ==_iff j k)

module _ {K V : Type 0} ⦃e : Eq K⦄ where
  pub set-Distinct : (k : K) (v : V) (m : Assoc K V) → Distinct m → Distinct (set k v m)
  unfolding set
  set-Distinct k v m d = put-Distinct (λ _ _. false) k v m d

  length-replace : (k : K) (v : V) (m : Assoc K V) → length (replace k v m) ≡ length m
  unfolding replace
  length-replace k v [] = refl
  length-replace k v ((j, w) ∷ m) = ground (arith, length-replace k v m)

  pub length-set_present :
      (k : K) (v w : V) (m : Assoc K V) → lookup k m ≡ some w → length (set k v m) ≡ length m
  unfolding set put
  length-set_present k v w m h = rw (h, put) (length-replace k v m)

  length-insert :
      (before : K → K → Bool) (k : K) (v : V) (m : Assoc K V)
      → length (insert before k v m) ≡ length m + 1
  unfolding insert
  length-insert before k v [] = omega arith
  length-insert before k v ((j, w) ∷ m) = ground (arith, length-insert before k v m)

  pub length-set-le : (k : K) (v : V) (m : Assoc K V) → length (set k v m) ≤ length m + 1
  unfolding set put
  length-set-le k v m = elim (Option-cases (lookup k m)) [
    | inl absent ↦ rw (absent, put) (omega (arith, length-insert (λ _ _. false) k v m))
    | inr (w, present) ↦ rw (present, put) (omega (arith, length-replace k v m))
  ]
