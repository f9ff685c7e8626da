-- ===== src/Base/Lists.antt =====
-- Lists measured by the native numbers, and Boolean searches over them.
use Prim.Native.Nat.{ℕ, suc, ◌+◌, ◌-◌, ◌≤◌, zero}
use mathlib.Core.Path.{◌≡◌, refl, ap}
use mathlib.Core.Bool.{Bool, true, false, ◌&&◌, ◌||◌}
use mathlib.Core.List.{List, [], ◌∷◌, ◌++◌, map}
use native.Mathlib.Omega.{arith}
use mathlib.Core.Logic.{inl, inr}
use fleet_for_agent.Base.Tests.{if◌then◌else◌, Bool-cases}

module _ {ℓ} {A : Type ℓ} where
  abbrev pub length : List A → ℕ
  length [] = 0
  length (x ∷ xs) = suc (length xs)

  pub length-append : (xs ys : List A) → length (xs ++ ys) ≡ length xs + length ys
  length-append [] ys = omega arith
  length-append (x ∷ xs) ys = omega (arith, length-append xs ys)

  -- `Array.prototype.some`, `every` and `filter`
  abbrev pub any : (A → Bool) → List A → Bool
  any p [] = false
  any p (x ∷ xs) = p x || any p xs

  abbrev pub all : (A → Bool) → List A → Bool
  all p [] = true
  all p (x ∷ xs) = p x && all p xs

  abbrev pub filter : (A → Bool) → List A → List A
  filter p [] = []
  filter p (x ∷ xs) = let rest = filter p xs in if p x then x ∷ rest else rest

  pub length-filter-le : (p : A → Bool) (xs : List A) → length (filter p xs) ≤ length xs
  length-filter-le p [] = omega arith
  length-filter-le p (x ∷ xs) = ground (arith, length-filter-le p xs)

  -- Membership with the place kept.
  pub data In (a : A) : List A → Type ℓ where
    here : {xs : List A} → In a (a ∷ xs)
    there : {x : A} {xs : List A} → In a xs → In a (x ∷ xs)

  pub any-In : (p : A → Bool) {a : A} {xs : List A} → In a xs → p a ≡ true → any p xs ≡ true
  any-In p (here) h = ground arith
  any-In p (there m) h = ground (arith, any-In p m h)

  pub filter-In : (p : A → Bool) {a : A} {xs : List A} → In a xs → p a ≡ true → In a (filter p xs)
  filter-In p here h = rw h here
  filter-In p (there {x} m) h = elim (Bool-cases (p x)) [
    | inl kept ↦ rw kept (there (filter-In p m h))
    | inr gone ↦ rw gone (filter-In p m h)
  ]

pub map-In {ℓ κ} :
    {A : Type ℓ} {B : Type κ} (f : A → B) {a : A} {xs : List A} → In a xs → In (f a) (map f xs)
map-In f here = here
map-In f (there m) = there (map-In f m)

pub In-cons {ℓ κ} :
    {A : Type ℓ} (P : A → Type κ) (x : A) (xs : List A)
    → P x
    → ((a : A) → In a xs → P a)
    → (a : A) → In a (x ∷ xs)
    → P a
In-cons P x xs p q a here = p
In-cons P x xs p q a (there m) = q a m

pub In-nil {ℓ κ} : {A : Type ℓ} (P : A → Type κ) (a : A) → In a [] → P a
In-nil P a m = elim m [ ]

pub In-filter {ℓ} : {A : Type ℓ} (p : A → Bool) (a : A) (xs : List A) → In a (filter p xs) → In a xs
In-filter p a [] m = m
In-filter p a (x ∷ xs) m = elim (Bool-cases (p x)) [
  | inl kept ↦
      In-cons (λ b. In b (x ∷ xs)) x (filter p xs) here (λ b r. there (In-filter p b xs r)) a
        (rw kept at m)
  | inr gone ↦ there (In-filter p a xs (rw gone at m))
]

module _ {ℓ} {A : Type ℓ} {a : A} where
  pub In-left : {xs : List A} (ys : List A) → In a xs → In a (xs ++ ys)
  In-left ys here = here
  In-left ys (there i) = there (In-left ys i)

  pub In-right : (xs : List A) {ys : List A} → In a ys → In a (xs ++ ys)
  In-right [] i = i
  In-right (x ∷ xs) i = there (In-right xs i)

module _ {ℓ} {A : Type ℓ} where
  unfoldable pub take : ℕ → List A → List A
  take zero xs = []
  take (suc n) [] = []
  take (suc n) (x ∷ xs) = x ∷ take n xs

  unfoldable pub drop : ℕ → List A → List A
  drop zero xs = xs
  drop (suc n) [] = []
  drop (suc n) (x ∷ xs) = drop n xs

  pub take-drop : (n : ℕ) (xs : List A) → take n xs ++ drop n xs ≡ xs
  unfolding take drop
  take-drop zero xs = refl
  take-drop (suc n) [] = refl
  take-drop (suc n) (x ∷ xs) = ap (λ r. x ∷ r) (take-drop n xs)

  pub length-drop : (n : ℕ) (xs : List A) → length (drop n xs) ≡ length xs - n
  unfolding drop
  length-drop zero xs = omega arith
  length-drop (suc n) [] = omega arith
  length-drop (suc n) (x ∷ xs) = omega (arith, length-drop n xs)
