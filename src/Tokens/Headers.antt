-- ===== src/Tokens/Headers.antt =====
-- packages/fleet-worker/src/tokenv1.mjs, fleetOaepValue and parseAuthorization: the header that a
-- client writes and the hub reads.
use Prim.Native.Char.{Char, char, code}
use Prim.Native.String.{◌++◌ as append, [], ◌∷◌}
use text.Mathlib.TextLemmas.{nil-append, cons-append, append_assoc}
use fleet_for_agent.Base.{
  ℕ, ◌≡◌, refl, sym, ap, subst, ◌∙◌, String, Bool, true, false, not, ◌&&◌, some, eqb, arith,
}
use fleet_for_agent.Base.Text.{
  trim, is_empty, is_space, no_spaces, trim_tight, is_tight, ends_tight,
}
use fleet_for_agent.Tokens.{cut, oaep, is_scheme, parse_authorization, fleet_oaep_value}

abbrev pub has_no : ℕ → String → Bool
has_no c [] = true
has_no c (d ∷ s) = not (eqb (code d) c) && has_no c s

cut-append :
    (c : Char) (s t : String)
    → has_no (code c) s ≡ true
    → cut (code c) (append s (c ∷ t)) ≡ some (s, t)
unfolding cut
cut-append c [] t h =
    subst (λ r. cut (code c) r ≡ some ([], t)) (sym (nil-append (c ∷ t))) (ground arith)
cut-append c (d ∷ s) t h =
    subst (λ r. cut (code c) r ≡ some (d ∷ s, t)) (sym (cons-append d s (c ∷ t)))
      (ground (arith, h, cut-append c s t))

ends_tight_cons : (c : Char) (s : String) → ends_tight s ≡ true → ends_tight (c ∷ s) ≡ true
ends_tight_cons c [] h = cc h
ends_tight_cons c (d ∷ s) h = h

ends_tight-append : (s t : String) → ends_tight t ≡ true → ends_tight (append s t) ≡ true
ends_tight-append [] t h = subst (λ r. ends_tight r ≡ true) (sym (nil-append t)) h
ends_tight-append (c ∷ s) t h =
    subst (λ r. ends_tight r ≡ true) (sym (cons-append c s t))
      (ends_tight_cons c (append s t) (ends_tight-append s t h))

no_spaces_end : (s : String) → no_spaces s ≡ true → is_empty s ≡ false → ends_tight s ≡ true
unfolding is_empty
no_spaces_end [] h e = cc e
no_spaces_end (c ∷ []) h e = ground (arith, h)
no_spaces_end (c ∷ d ∷ s) h e = no_spaces_end (d ∷ s) (ground (arith, h)) refl

is_tight-append :
    (s t : String) → is_tight s ≡ true → ends_tight t ≡ true → is_tight (append s t) ≡ true
is_tight-append [] t h e = cc h
is_tight-append (c ∷ s) t h e =
    let whole : ends_tight (c ∷ append s t) ≡ true =
      ends_tight_cons c (append s t) (ends_tight-append s t e) in
    subst (λ r. is_tight r ≡ true) (sym (cons-append c s t)) (ground (arith, h, whole))

no_spaces-is_tight : (s : String) → no_spaces s ≡ true → is_empty s ≡ false → is_tight s ≡ true
unfolding is_empty
no_spaces-is_tight [] h e = cc e
no_spaces-is_tight (c ∷ s) h e = ground (arith, h, no_spaces_end (c ∷ s) h refl)

abbrev dot : Char
dot = char 46 tt

abbrev space : Char
space = char 32 tt

abbrev dotted : String → String → String
dotted kid wrap = append kid (dot ∷ wrap)

in_parts :
    (kid wrap : String) → fleet_oaep_value kid wrap ≡ append "Fleet-OAEP" (space ∷ dotted kid wrap)
unfolding fleet_oaep_value
in_parts kid wrap =
    append_assoc "Fleet-OAEP" " " (append kid (append "." wrap))
    ∙ ap (append "Fleet-OAEP") (
        cons-append space [] (append kid (append "." wrap))
        ∙ ap (λ r. space ∷ r)
            (nil-append (append kid (append "." wrap))
              ∙ ap (append kid) (cons-append dot [] wrap ∙ ap (λ r. dot ∷ r) (nil-append wrap))))

scheme_tight : is_tight "Fleet-OAEP" ≡ true
unfolding is_space
scheme_tight = refl

is_tight_full : (s : String) → is_tight s ≡ true → is_empty s ≡ false
unfolding is_empty
is_tight_full [] h = cc h
is_tight_full (c ∷ s) h = refl

parse_parts :
    (h value kid wrap : String)
    → trim h ≡ h
    → is_empty h ≡ false
    → cut 32 h ≡ some ("Fleet-OAEP", value)
    → trim value ≡ value
    → cut 46 value ≡ some (kid, wrap)
    → is_empty kid ≡ false
    → is_empty wrap ≡ false
    → parse_authorization (some h) ≡ oaep kid wrap
unfolding parse_authorization is_scheme
parse_parts h value kid wrap trimmed full first tight second some_kid some_wrap =
    rw (trimmed, full, first, tight, second, some_kid, some_wrap, parse_authorization) refl

-- The header that a client writes for a key and a wrapped text is read as that key and that
-- text, where neither is empty or has white space and the key has no dot.
pub parse-fleet_oaep_value :
    (kid wrap : String)
    → no_spaces kid ≡ true
    → no_spaces wrap ≡ true
    → is_empty kid ≡ false
    → is_empty wrap ≡ false
    → has_no b'.' kid ≡ true
    → parse_authorization (some (fleet_oaep_value kid wrap)) ≡ oaep kid wrap
parse-fleet_oaep_value kid wrap k w some_kid some_wrap dotless =
    let value = dotted kid wrap in
    let value_ends : ends_tight value ≡ true =
      ends_tight-append kid (dot ∷ wrap)
        (ends_tight_cons dot wrap (no_spaces_end wrap w some_wrap)) in
    let value_tight : is_tight value ≡ true =
      is_tight-append kid (dot ∷ wrap) (no_spaces-is_tight kid k some_kid)
        (ends_tight_cons dot wrap (no_spaces_end wrap w some_wrap)) in
    let text = append "Fleet-OAEP" (space ∷ value) in
    let text_tight : trim text ≡ text = trim_tight text (
      is_tight-append "Fleet-OAEP" (space ∷ value) scheme_tight
        (ends_tight_cons space value value_ends)) in
    let first : cut 32 text ≡ some ("Fleet-OAEP", value) =
      cut-append space "Fleet-OAEP" value refl in
    let second : cut 46 value ≡ some (kid, wrap) = cut-append dot kid wrap dotless in
    ap (λ r. parse_authorization (some r)) (in_parts kid wrap)
    ∙ parse_parts text value kid wrap text_tight
        (is_tight_full text (
          is_tight-append "Fleet-OAEP" (space ∷ value) scheme_tight
            (ends_tight_cons space value value_ends)))
        first (trim_tight value value_tight) second some_kid some_wrap
