-- ===== src/Base/Throws.antt =====
-- A JavaScript function that may throw returns a `Result`, with the error as a value.
use mathlib.Core.Path.{◌≡◌, refl}
use mathlib.Core.Logic.{◌⊎◌, inl, inr}
use mathlib.Core.Bool.{Bool, true, false}

pub data Result {ℓ} (E : Type ℓ) (A : Type ℓ) : Type ℓ where
  ok : A → Result E A
  err : E → Result E A

-- `if (bad) fail(code)`
abbrev pub reject_if {ℓ} : {E : Type ℓ} → Bool → E → Result E (Unit {ℓ})
reject_if true code = err code
reject_if false code = ok tt

module _ {ℓ} {E A B : Type ℓ} where
  -- The statements after one that may throw.
  infixl 5 ◌>>=◌
  abbrev pub ◌>>=◌ : Result E A → (A → Result E B) → Result E B
  ok a >>= next = next a
  err code >>= next = err code

  infixl 5 ◌>>◌
  abbrev pub ◌>>◌ : Result E A → Result E B → Result E B
  m >> after = m >>= λ _. after

  -- What returned, and what came after it.
  pub >>=-eq-ok :
      (m : Result E A) (next : A → Result E B) {r : B}
      → (m >>= next) ≡ ok r
      → (a : A) × (m ≡ ok a) × (next a ≡ ok r)
  >>=-eq-ok (err code) next h = cc
  >>=-eq-ok (ok a) next h = (a, refl, h)

pub ok-injective {ℓ} : {E A : Type ℓ} (a b : A) → Path (Result E A) (ok a) (ok b) → a ≡ b
ok-injective a b h = cc

pub Result-cases {ℓ} :
    {E A : Type ℓ} (m : Result E A) → ((a : A) × (m ≡ ok a)) ⊎ ((e : E) × (m ≡ err e))
Result-cases (ok a) = inl (a, refl)
Result-cases (err e) = inr (e, refl)
