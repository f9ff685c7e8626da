-- ===== src/EdgeGuard.antt =====
-- packages/fleet-worker/src/edge-guard.mjs: the bound on a request's body, and the limit on calls
-- without a credential. A body is the list of the chunks that its reader gives; the binding's
-- `limit`, which may throw, and the digest of an address are parameters.
use Prim.Native.Char.{code}
use Prim.Native.String.{◌++◌ as append, [] as nothing, ◌∷◌ as put_char}
use fleet_for_agent.Base.{
  ℕ, ◌+◌, ◌-◌, ◌*◌, ◌≤◌, ◌≡◌, String, Bool, true, false, not, ◌&&◌, ◌||◌, Option, none, some, List,
  [], ◌∷◌, ◌++◌, length, length-append, ltb, leb, eqb, Result, ok, err, arith, if◌then◌else◌,
}
use fleet_for_agent.Base.Eq.{◌==◌, string_eq}
use fleet_for_agent.Base.Text.{trim, is_empty, is_space, utf16_length}

abbrev pub control_body_max_bytes : ℕ
control_body_max_bytes = 16777216

pub data BodyError : Type 0 where
  body_too_large : BodyError

abbrev pub is_digit : ℕ → Bool
is_digit c = leb 48 c && leb c 57

abbrev pub all_digits : String → Bool
all_digits nothing = true
all_digits (put_char c s) = is_digit (code c) && all_digits s

-- `Number(declared)` of digits, from the number that was read.
unfoldable pub decimal_from : ℕ → String → ℕ
decimal_from n nothing = n
decimal_from n (put_char c s) = decimal_from (n * 10 + (code c - 48)) s

-- `declared !== null && /^\d+$/.test(declared) && Number(declared) > maxBytes`
unfoldable pub declares_more : Option String → ℕ → Bool
unfolding decimal_from
declares_more none max = false
declares_more (some declared) max =
    not (is_empty declared) && all_digits declared && ltb max (decimal_from 0 declared)

abbrev pub with_part : List ℕ → Result BodyError (List ℕ) → Result BodyError (List ℕ)
with_part part (err e) = err e
with_part part (ok rest) = ok (part ++ rest)

-- The reader's loop: what is read after `bytes` bytes, whose chunks the result joins.
unfoldable pub read_parts : ℕ → ℕ → List (List ℕ) → Result BodyError (List ℕ)
read_parts max bytes [] = ok []
read_parts max bytes (part ∷ parts) =
    let rest = read_parts max (bytes + length part) parts in
    if ltb max (bytes + length part) then err body_too_large else with_part part rest

-- A request without a body has no chunks to read.
unfoldable pub read_bounded_bytes :
    Option String → Option (List (List ℕ)) → ℕ → Result BodyError (List ℕ)
unfolding declares_more read_parts
read_bounded_bytes declared body max =
    if declares_more declared max
    then err body_too_large
    else elim body [ none ↦ ok [] | some parts ↦ read_parts max 0 parts ]

pub data Category : Type 0 where
  oauth challenge : Category

abbrev pub category_text : Category → String
category_text oauth = "oauth"
category_text challenge = "challenge"

-- Which calls are limited, by their method and their path.
unfoldable pub guarded : String → String → Option Category
guarded method path =
    if method == "OPTIONS"
    then none
    else if path == "/v1/auth/google"
        || path == "/v1/auth/x"
        || path == "/v1/auth/callback/google"
        || path == "/v1/auth/callback/x"
    then some oauth
    else if path == "/v1/challenge" && method == "GET"
    then some challenge
    else none

abbrev pub plain_text : String → Bool
plain_text nothing = true
plain_text (put_char c s) =
    not (is_space (code c) || leb (code c) 31 || eqb (code c) 127) && plain_text s

-- The address that a call counts for, where the platform names one.
unfoldable pub limit_source : Option (Option String) → String
limit_source none = "local"
limit_source (some none) = "local"
limit_source (some (some header)) =
    let ip = trim header in
    if not (is_empty ip) && leb (utf16_length ip) 128 && plain_text ip then ip else "local"

-- The status of a refusal. The outer option of `address` says that the platform made the request;
-- `limit` answers for a key, and is none where it throws.
unfoldable pub rate_limit :
    (String → String) → Option (Option String) → Option (String → Option Bool) → Category → Option ℕ
unfolding limit_source
rate_limit digest address none category = elim address [ none ↦ none | some _ ↦ some 503 ]
rate_limit digest address (some limit) category =
    elim (limit (
      append "fleet:"
        (append (category_text category) (append ":" (digest (limit_source address)))))) [
          | none ↦ some 503
          | some allowed ↦ if allowed then none else some 429
        ]

abbrev pub limiter_for :
    Option (String → Option Bool)
    → Option (String → Option Bool)
    → Category
    → Option (String → Option Bool)
limiter_for oauth_limiter challenge_limiter oauth = oauth_limiter
limiter_for oauth_limiter challenge_limiter challenge = challenge_limiter

-- With the platform's two limiters, where they are bound.
unfoldable pub edge_request_guard :
    (String → String)
    → Option (Option String)
    → Option (String → Option Bool)
    → Option (String → Option Bool)
    → String
    → String
    → Option ℕ
unfolding guarded rate_limit
edge_request_guard digest address oauth_limiter challenge_limiter method path =
    elim (guarded method path) [
      | none ↦ none
      | some category ↦
          rate_limit digest address (limiter_for oauth_limiter challenge_limiter category) category
    ]

-- The bytes of a body.
abbrev pub joined : List (List ℕ) → List ℕ
joined [] = []
joined (part ∷ parts) = part ++ joined parts

read_parts-joined :
    (max bytes : ℕ) (parts : List (List ℕ))
    → bytes ≤ max
    → read_parts max bytes parts
      ≡ (if ltb max (bytes + length (joined parts)) then err body_too_large else ok (joined parts))
unfolding read_parts
read_parts-joined max bytes [] fits = ground (arith, fits)
read_parts-joined max bytes (part ∷ parts) fits =
    let whole = length-append part (joined parts) in
    ground (arith, fits, whole, read_parts-joined max (bytes + length part) parts)

-- Reading a body chunk by chunk gives all its bytes, in order, and it fails just where the
-- declared length or the number of the bytes is over the bound.
pub read_bounded_bytes_lem :
    (declared : Option String) (parts : List (List ℕ)) (max : ℕ)
    → read_bounded_bytes declared (some parts) max ≡ (
        if declares_more declared max || ltb max (length (joined parts))
        then err body_too_large
        else ok (joined parts))
unfolding read_bounded_bytes
read_bounded_bytes_lem declared parts max = ground (arith, read_parts-joined max 0 parts)
