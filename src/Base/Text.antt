-- ===== src/Base/Text.antt =====
-- JavaScript's `String.prototype.trim`, over code points.
use Prim.Native.Nat.{ℕ, ◌+◌}
use Prim.Native.Char.{Char, code}
use Prim.Native.String.{String, [], ◌∷◌}
use mathlib.Core.Path.{◌≡◌, refl, ap, ◌∙◌}
use mathlib.Core.Logic.{inl, inr}
use mathlib.Core.Bool.{Bool, true, false, not, ◌&&◌, ◌||◌}
use native.Mathlib.Omega.{arith}
use fleet_for_agent.Base.Tests.{leb, eqb, if◌then◌else◌, Bool-cases}

-- WhiteSpace and LineTerminator of ECMA-262.
unfoldable pub is_space : ℕ → Bool
is_space c =
    (leb 9 c && leb c 13)
    || eqb c 32
    || eqb c 0xA0
    || eqb c 0x1680
    || (leb 0x2000 c && leb c 0x200A)
    || eqb c 0x2028
    || eqb c 0x2029
    || eqb c 0x202F
    || eqb c 0x205F
    || eqb c 0x3000
    || eqb c 0xFEFF

unfoldable pub is_empty : String → Bool
is_empty [] = true
is_empty (c ∷ s) = false

pub is_empty_text : (s : String) → is_empty s ≡ true → s ≡ ""
unfolding is_empty
is_empty_text [] h = refl
is_empty_text (c ∷ s) h = cc h

trim_start : String → String
trim_start [] = []
trim_start (c ∷ s) = let rest = trim_start s in if is_space (code c) then rest else c ∷ s

-- Puts `c` back in front of a text trimmed at its end.
keep_end : Char → String → String
keep_end c [] = if is_space (code c) then [] else c ∷ []
keep_end c (d ∷ s) = c ∷ d ∷ s

trim_end : String → String
unfolding keep_end
trim_end [] = []
trim_end (c ∷ s) = keep_end c (trim_end s)

unfoldable pub trim : String → String
unfolding is_space trim_start trim_end
trim s = trim_end (trim_start s)

-- The general categories Cc and Cf of Unicode 15; Cs has no code point of its own.
pub is_control : ℕ → Bool
is_control c =
    leb c 0x1F
    || (leb 0x7F c && leb c 0x9F)
    || eqb c 0xAD
    || (leb 0x600 c && leb c 0x605)
    || eqb c 0x61C
    || eqb c 0x6DD
    || eqb c 0x70F
    || (leb 0x890 c && leb c 0x891)
    || eqb c 0x8E2
    || eqb c 0x180E
    || (leb 0x200B c && leb c 0x200F)
    || (leb 0x202A c && leb c 0x202E)
    || (leb 0x2060 c && leb c 0x2064)
    || (leb 0x2066 c && leb c 0x206F)
    || eqb c 0xFEFF
    || (leb 0xFFF9 c && leb c 0xFFFB)
    || eqb c 0x110BD
    || eqb c 0x110CD
    || (leb 0x13430 c && leb c 0x1343F)
    || (leb 0x1BCA0 c && leb c 0x1BCA3)
    || (leb 0x1D173 c && leb c 0x1D17A)
    || eqb c 0xE0001
    || (leb 0xE0020 c && leb c 0xE007F)

-- `/[\p{Cc}\p{Cf}\p{Cs}]/u.test(s)`
unfoldable pub has_control : String → Bool
unfolding is_control
has_control [] = false
has_control (c ∷ s) = is_control (code c) || has_control s

-- `s.length`, in UTF-16 code units.
unfoldable pub utf16_length : String → ℕ
utf16_length [] = 0
utf16_length (c ∷ s) = (if leb (code c) 0xFFFF then 1 else 2) + utf16_length s

-- `/^[A-Za-z0-9_-]*$/`
is_id_code : ℕ → Bool
is_id_code c =
    (leb b'A' c && leb c b'Z')
    || (leb b'a' c && leb c b'z')
    || (leb b'0' c && leb c b'9')
    || eqb c b'_'
    || eqb c b'-'

all_id_codes : String → Bool
unfolding is_id_code
all_id_codes [] = true
all_id_codes (c ∷ s) = is_id_code (code c) && all_id_codes s

-- `/^[A-Za-z0-9_-]{1,96}$/`
unfoldable pub is_id : String → Bool
unfolding all_id_codes utf16_length
is_id s = all_id_codes s && leb 1 (utf16_length s) && leb (utf16_length s) 96

trim_spaces : trim "  a b " ≡ "a b"
unfolding trim
trim_spaces = refl

trim_end_keep : (c : Char) (s : String) → trim_end s ≡ s → trim_end (keep_end c s) ≡ keep_end c s
unfolding trim_end
trim_end_keep c [] h = elim (Bool-cases (is_space (code c))) [
  | inl space ↦ rw space refl
  | inr other ↦ rw other (rw other refl)
]
trim_end_keep c (d ∷ s) h = rw h

trim_end_idem : (s : String) → trim_end (trim_end s) ≡ trim_end s
unfolding trim_end
trim_end_idem [] = refl
trim_end_idem (c ∷ s) = trim_end_keep c (trim_end s) (trim_end_idem s)

trim_start_keep :
    (c : Char) (s : String) → is_space (code c) ≡ false → trim_start (keep_end c s) ≡ keep_end c s
unfolding trim_start keep_end
trim_start_keep c [] h = ground arith
trim_start_keep c (d ∷ s) h = ground arith

trim_start_trimmed : (s : String) → trim_start (trim_end (trim_start s)) ≡ trim_end (trim_start s)
unfolding trim_start trim_end
trim_start_trimmed [] = refl
trim_start_trimmed (c ∷ s) = elim (Bool-cases (is_space (code c))) [
  | inl space ↦ rw space (trim_start_trimmed s)
  | inr other ↦ rw other (trim_start_keep c (trim_end s) other)
]

-- Trimming twice is trimming once.
pub trim_idem : (s : String) → trim (trim s) ≡ trim s
unfolding trim
trim_idem s = rw (trim_start_trimmed s) (trim_end_idem (trim_start s))

-- A text that is not empty and neither begins nor ends with white space is its own trimming.
abbrev pub ends_tight : String → Bool
ends_tight [] = false
ends_tight (c ∷ []) = not (is_space (code c))
ends_tight (c ∷ d ∷ s) = ends_tight (d ∷ s)

abbrev pub is_tight : String → Bool
is_tight [] = false
is_tight (c ∷ s) = not (is_space (code c)) && ends_tight (c ∷ s)

trim_end_tight : (s : String) → ends_tight s ≡ true → trim_end s ≡ s
unfolding trim_end keep_end
trim_end_tight [] h = refl
trim_end_tight (c ∷ []) h = ground (arith, h)
trim_end_tight (c ∷ d ∷ s) h = rw (trim_end_tight (d ∷ s) h, trim_end) refl

trim_start_tight : (c : Char) (s : String) → is_space (code c) ≡ false → trim_start (c ∷ s) ≡ c ∷ s
unfolding trim_start
trim_start_tight c s h = rw h refl

trim_parts : (s : String) → trim s ≡ trim_end (trim_start s)
unfolding trim
trim_parts s = refl

pub trim_tight : (s : String) → is_tight s ≡ true → trim s ≡ s
trim_tight [] h = cc h
trim_tight (c ∷ s) h =
    trim_parts (c ∷ s)
    ∙ ap trim_end (trim_start_tight c s (ground (arith, h)))
    ∙ trim_end_tight (c ∷ s) (ground (arith, h))

abbrev pub no_spaces : String → Bool
no_spaces [] = true
no_spaces (c ∷ s) = not (is_space (code c)) && no_spaces s

-- `Array.from(s).length`
unfoldable pub code_points : String → ℕ
code_points [] = 0
code_points (c ∷ s) = 1 + code_points s

abbrev utf8_bytes : ℕ → ℕ
utf8_bytes c = if leb c 0x7F then 1 else if leb c 0x7FF then 2 else if leb c 0xFFFF then 3 else 4

-- `new TextEncoder().encode(s).byteLength`
unfoldable pub utf8_length : String → ℕ
utf8_length [] = 0
utf8_length (c ∷ s) = utf8_bytes (code c) + utf8_length s
