-- ===== src/Tokens.antt =====
-- packages/fleet-worker/src/tokenv1.mjs: the texts of the high-security channel, and which kind of
-- credential a header holds. A text that may be missing is an option.
pub mod Headers
use Prim.Native.Char.{Char, code}
use Prim.Native.String.{◌++◌ as append, [], ◌∷◌}
use fleet_for_agent.Base.{
  ℕ, ◌+◌, String, Bool, true, false, not, ◌&&◌, ◌||◌, Option, none, some, leb, eqb, if◌then◌else◌,
}
use fleet_for_agent.Base.Eq.{◌==◌, string_eq}
use fleet_for_agent.Base.Text.{trim, is_empty}

-- `s.startsWith(prefix)`
unfoldable pub starts_with : String → String → Bool
starts_with [] s = true
starts_with (c ∷ prefix) [] = false
starts_with (c ∷ prefix) (d ∷ s) = eqb (code c) (code d) && starts_with prefix s

-- The texts before and after the first place of a code point.
unfoldable pub cut : ℕ → String → Option (String × String)
cut c [] = none
cut c (d ∷ s) =
    let later = cut c s in
    if eqb (code d) c
    then some ([], s)
    else elim later [ none ↦ none | some (before, after) ↦ some (d ∷ before, after) ]

abbrev pub token_v1_prefix : String
token_v1_prefix = "flt_1."

abbrev pub text_of : Option String → String
text_of none = ""
text_of (some s) = s

abbrev pub after_prefix : String → String → String
after_prefix [] s = s
after_prefix (c ∷ prefix) [] = []
after_prefix (c ∷ prefix) (d ∷ s) = after_prefix prefix s

abbrev pub is_dotted : Option (String × String) → Bool
is_dotted none = false
is_dotted (some (before, after)) = not (is_empty before) && not (is_empty after)

unfoldable pub is_token_v1 : Option String → Bool
unfolding starts_with cut
is_token_v1 raw =
    let t = trim (text_of raw) in
    starts_with token_v1_prefix t && is_dotted (cut b'.' (after_prefix token_v1_prefix t))

unfoldable pub is_legacy_flt : Option String → Bool
unfolding starts_with
is_legacy_flt raw =
    let t = trim (text_of raw) in starts_with "flt_" t && not (starts_with token_v1_prefix t)

pub data Authorization : Type 0 where
  no_credential : Authorization
  oaep : String → String → Authorization
  bearer : String → Authorization

-- `toLowerCase` as far as it serves to meet a scheme's name, which is ASCII without `k`: no other
-- code point becomes one of its letters.
unfoldable pub is_scheme : String → String → Bool
is_scheme [] [] = true
is_scheme [] (d ∷ s) = false
is_scheme (c ∷ name) [] = false
is_scheme (c ∷ name) (d ∷ s) =
    (eqb (code c) (code d)
      || (leb b'A' (code d) && leb (code d) b'Z' && eqb (code c) (code d + 32)))
    && is_scheme name s

abbrev pub dotted_value : Option (String × String) → Authorization
dotted_value none = no_credential
dotted_value (some (kid, wrap)) =
    if is_empty kid || is_empty wrap then no_credential else oaep kid wrap

-- The scheme and the value of a header, at its first space.
abbrev pub scheme_value : String → Option (String × String) → String × String
scheme_value h none = (h, "")
scheme_value h (some (scheme, value)) = (scheme, trim value)

unfoldable pub parse_authorization : Option String → Authorization
unfolding cut is_scheme
parse_authorization header =
    let h = trim (text_of header) in
    let (scheme, value) = scheme_value h (cut b' ' h) in
    if is_empty h
    then no_credential
    else if is_scheme "fleet-oaep" scheme
    then dotted_value (cut b'.' value)
    else if is_scheme "bearer" scheme
    then bearer value
    else no_credential

unfoldable pub fleet_oaep_value : String → String → String
fleet_oaep_value kid wrap = append "Fleet-OAEP " (append kid (append "." wrap))

unfoldable pub challenge_message : String → String → String → String
challenge_message aud kid nonce =
    append "v1|" (append aud (append "|" (append kid (append "|" nonce))))
