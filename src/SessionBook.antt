-- ===== src/SessionBook.antt =====
-- packages/fleet-worker/src/session.mjs: which operator owns which long session. A fingerprint, a
-- ticket and a correlation id are texts that may be missing; `headers.get` answers for any case
-- of a header's name.
pub mod Owners
use fleet_for_agent.Base.{
  String, Bool, true, false, not, ◌&&◌, Option, none, some, List, [], ◌∷◌, ◌++◌, any, filter,
  or_else, is_some, if◌then◌else◌,
}
use fleet_for_agent.Base.Eq.{◌==◌, string_eq}
use fleet_for_agent.Base.Assoc.{Assoc, lookup, set}
use fleet_for_agent.Base.Text.{trim, is_empty}

-- The fingerprint of a caller that names none.
abbrev pub anonymous : String
anonymous = ""

unfoldable pub normalize_fingerprint : Option String → String
normalize_fingerprint none = anonymous
normalize_fingerprint (some value) = trim value

unfoldable pub fingerprint_from_headers : (String → Option String) → String
unfolding normalize_fingerprint
fingerprint_from_headers get = elim (get "X-Fleet-Operator") [
  | some value ↦ normalize_fingerprint (some value)
  | none ↦ normalize_fingerprint (get "x-fleet-operator")
]

-- `String(corr || "").trim()`
unfoldable pub ticket_text : Option String → String
ticket_text none = ""
ticket_text (some corr) = trim corr

pub record Ticket : Type 0 where
  pub drop : Bool
  pub corr : String

-- Which ticket a caller may see or drive.
unfoldable pub resolve_ticket :
    Option String → Option String → Option String → Option String → Ticket
unfolding normalize_fingerprint ticket_text
resolve_ticket fingerprint ticket owner live =
    let corr = ticket_text ticket in
    if is_empty corr
    then record { drop = false; corr = ticket_text live }
    else if normalize_fingerprint owner == normalize_fingerprint fingerprint
    then record { drop = false; corr = corr }
    else record { drop = true; corr = "" }

pub record Book : Type 0 where
  pub owner : Assoc String String
  pub live : Assoc String String
  pub alive : Assoc String (List String)

unfoldable pub create_session_book : Book
create_session_book = record { owner = []; live = []; alive = [] }

abbrev pub has : String → List String → Bool
has c cs = any (λ x. x == c) cs

-- `Set.prototype.add` and `Set.prototype.delete`
unfoldable pub add_to_set : String → List String → List String
add_to_set c cs = if has c cs then cs else cs ++ c ∷ []

unfoldable pub delete_from_set : String → List String → List String
delete_from_set c cs = filter (λ x. not (x == c)) cs

-- The live tickets of a fingerprint; none before its first claim.
unfoldable pub alive_set : String → Book → List String
alive_set f b = or_else (lookup f b.alive) []

unfoldable pub claim : Option String → Option String → Book → Book
unfolding normalize_fingerprint ticket_text alive_set add_to_set
claim fp corr b =
    let f = normalize_fingerprint fp in
    let c = ticket_text corr in
    if is_empty c then b else record {
      owner = set c f b.owner;
      live = set f c b.live;
      alive = set f (add_to_set c (alive_set f b)) b.alive;
    }

finish_owned : String → Option String → Book → Book
unfolding alive_set delete_from_set
finish_owned c none b = b
finish_owned c (some f) b = record b { alive = set f (delete_from_set c (alive_set f b)) b.alive }

unfoldable pub finish : Option String → Book → Book
unfolding ticket_text finish_owned
finish corr b = finish_owned (ticket_text corr) (lookup (ticket_text corr) b.owner) b

unfoldable pub owner_of : Option String → Book → Option String
unfolding ticket_text
owner_of corr b = if is_empty (ticket_text corr) then none else lookup (ticket_text corr) b.owner

unfoldable pub is_finished : Option String → Book → Bool
unfolding ticket_text alive_set
is_finished corr b = elim (lookup (ticket_text corr) b.owner) [
  | none ↦ false
  | some f ↦ not (has (ticket_text corr) (alive_set f b))
]

unfoldable pub live_of : Option String → Book → String
unfolding normalize_fingerprint
live_of fp b = or_else (lookup (normalize_fingerprint fp) b.live) ""

unfoldable pub alive_of : Option String → Book → List String
unfolding normalize_fingerprint alive_set
alive_of fp b = alive_set (normalize_fingerprint fp) b

unfoldable pub resolve : Option String → Option String → Book → Ticket
unfolding resolve_ticket owner_of live_of
resolve fp ticket b =
    let f = normalize_fingerprint fp in
    let corr = ticket_text ticket in
    resolve_ticket (some f) (some corr) (if is_empty corr then none else owner_of (some corr) b)
      (some (live_of (some f) b))
