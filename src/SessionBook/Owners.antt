-- ===== src/SessionBook/Owners.antt =====
-- packages/fleet-worker/src/session.mjs: who owns what, in a book of the Hub's claims: a ticket is
-- claimed while nobody has it, or once more by the fingerprint that has it, as a retried operation
-- claims its ticket again.
use fleet_for_agent.Base.{
  ◌≡◌, ◌≢◌, refl, sym, ap, ◌∙◌, inl, inr, ◌⊎◌, String, Bool, true, false, not, ◌&&◌, Option, none,
  some, List, [], ◌∷◌, ◌++◌, or_else, if◌then◌else◌, arith, Bool-cases, Option-cases,
}
use fleet_for_agent.Base.Eq.{◌==◌, ==_iff, string_eq}
use fleet_for_agent.Base.Assoc.{lookup, set, lookup-set}
use fleet_for_agent.Base.Text.{trim, trim_idem, is_empty}
use fleet_for_agent.SessionBook.{
  Book, create_session_book, has, add_to_set, delete_from_set, alive_set, normalize_fingerprint,
  ticket_text, claim, finish, is_finished, resolve,
}

-- The ticket is nobody's yet, or it is the claimant's own.
abbrev pub IsClaimable : String → String → Book → Type 0
IsClaimable f c b = (lookup c b.owner ≡ none) ⊎ (lookup c b.owner ≡ some f)

-- The books that are reached by such claims, and by ends.
pub data Reached : Book → Type 0 where
  start : Reached create_session_book
  claimed :
      {b : Book}
      → Reached b
      → (fp corr : Option String) → IsClaimable (normalize_fingerprint fp) (ticket_text corr) b
      → Reached (claim fp corr b)
  ended : {b : Book} → Reached b → (corr : Option String) → Reached (finish corr b)

-- What a fingerprint has live, it owns; and all texts are trimmed.
pub record IsOwned (b : Book) : Type 0 where
  pub live_owned : (f c : String) → lookup f b.live ≡ some c → lookup c b.owner ≡ some f
  pub alive_owned : (f c : String) → has c (alive_set f b) ≡ true → lookup c b.owner ≡ some f
  pub fingerprints : (f c : String) → lookup c b.owner ≡ some f → trim f ≡ f
  pub tickets : (f c : String) → lookup c b.owner ≡ some f → trim c ≡ c

has-append :
    (c d : String) (cs : List String) → has c (cs ++ d ∷ []) ≡ true → (has c cs ≡ true) ⊎ (d ≡ c)
has-append c d [] h = inr (ground (arith, h, ==_iff d c))
has-append c d (x ∷ cs) h = ground (arith, h, has-append c d cs)

has-add_to_set :
    (c d : String) (cs : List String) → has c (add_to_set d cs) ≡ true → (has c cs ≡ true) ⊎ (d ≡ c)
unfolding add_to_set
has-add_to_set c d cs h = ground (arith, h, has-append c d cs)

has-delete_from_set :
    (c d : String) (cs : List String) → has c (delete_from_set d cs) ≡ (not (d == c) && has c cs)
unfolding delete_from_set
has-delete_from_set c d [] = ground arith
has-delete_from_set c d (x ∷ cs) =
    ground (arith, has-delete_from_set c d cs, ==_iff x d, ==_iff x c, ==_iff d c)

trimmed_text : (corr : Option String) → trim (ticket_text corr) ≡ ticket_text corr
unfolding ticket_text trim
trimmed_text none = refl
trimmed_text (some corr) = trim_idem corr

trimmed_fingerprint :
    (fp : Option String) → trim (normalize_fingerprint fp) ≡ normalize_fingerprint fp
unfolding normalize_fingerprint trim
trimmed_fingerprint none = refl
trimmed_fingerprint (some fp) = trim_idem fp

alive_set-set :
    (g f : String) (cs : List String) (b d : Book)
    → d.alive ≡ set f cs b.alive
    → alive_set g d ≡ (if f == g then cs else alive_set g b)
unfolding alive_set
alive_set-set g f cs b d h = ground (arith, lookup-set f g cs b.alive, h)

-- A claim of the ticket `c` by the fingerprint `f`, where nobody else has it.
module _ (f c : String) (b : Book) (v : IsOwned b) (free : IsClaimable f c b)
    (trimmed_f : trim f ≡ f) (trimmed_c : trim c ≡ c) where
  abbrev with_claim : Book
  with_claim = record {
    owner = set c f b.owner;
    live = set f c b.live;
    alive = set f (add_to_set c (alive_set f b)) b.alive;
  }

  kept_owner : (d g : String) → lookup d b.owner ≡ some g → lookup d (set c f b.owner) ≡ some g
  kept_owner d g h = elim (Bool-cases (c == d)) [
    | inl same ↦
        let here : c ≡ d = (==_iff c d).0 same in
        elim free [
          | inl nobody ↦ cc
          | inr own ↦ let who : f ≡ g = cc in ground (arith, lookup-set c d f b.owner, same, who)
        ]
    | inr differs ↦ ground (arith, lookup-set c d f b.owner, differs, h)
  ]

  own_claim : lookup c (set c f b.owner) ≡ some f
  own_claim = ground (arith, lookup-set c c f b.owner, ==_iff c c)

  claim_live :
      (g d : String) → lookup g with_claim.live ≡ some d → lookup d with_claim.owner ≡ some g
  claim_live g d h = elim (Bool-cases (f == g)) [
    | inl same ↦
        let here : f ≡ g = (==_iff f g).0 same in
        let what : c ≡ d = ground (arith, lookup-set f g c b.live, same, h) in cc (own_claim)
    | inr differs ↦
        kept_owner d g (v.live_owned g d (ground (arith, lookup-set f g c b.live, differs, h)))
  ]

  claim_alive :
      (g d : String) → has d (alive_set g with_claim) ≡ true → lookup d with_claim.owner ≡ some g
  claim_alive g d h =
      let known = alive_set-set g f (add_to_set c (alive_set f b)) b with_claim refl in
      elim (Bool-cases (f == g)) [
        | inl same ↦
            let here : f ≡ g = (==_iff f g).0 same in
            elim (has-add_to_set d c (alive_set f b) (ground (arith, known, same, h))) [
              | inl old ↦
                  kept_owner d g (v.alive_owned g d (cc (ap (λ x. has d (alive_set x b)) here)))
              | inr now ↦ cc (own_claim)
            ]
        | inr differs ↦ kept_owner d g (v.alive_owned g d (ground (arith, known, differs, h)))
      ]

  claim_fingerprints : (g d : String) → lookup d with_claim.owner ≡ some g → trim g ≡ g
  claim_fingerprints g d h = elim (Bool-cases (c == d)) [
    | inl same ↦ let who : f ≡ g = ground (arith, lookup-set c d f b.owner, same, h) in cc
    | inr differs ↦ v.fingerprints g d (ground (arith, lookup-set c d f b.owner, differs, h))
  ]

  claim_tickets : (g d : String) → lookup d with_claim.owner ≡ some g → trim d ≡ d
  claim_tickets g d h = elim (Bool-cases (c == d)) [
    | inl same ↦ let what : c ≡ d = (==_iff c d).0 same in cc
    | inr differs ↦ v.tickets g d (ground (arith, lookup-set c d f b.owner, differs, h))
  ]

  with_claim-IsOwned : IsOwned with_claim
  with_claim-IsOwned = record {
    live_owned = claim_live;
    alive_owned = claim_alive;
    fingerprints = claim_fingerprints;
    tickets = claim_tickets;
  }

claim-IsOwned :
    (fp corr : Option String) (b : Book)
    → IsOwned b
    → IsClaimable (normalize_fingerprint fp) (ticket_text corr) b
    → IsOwned (claim fp corr b)
unfolding claim
claim-IsOwned fp corr b v free = elim (Bool-cases (is_empty (ticket_text corr))) [
  | inl missing ↦ rw missing v
  | inr given ↦ rw given (
      with_claim-IsOwned (normalize_fingerprint fp) (ticket_text corr) b v free
        (trimmed_fingerprint fp) (trimmed_text corr))
]

module _ (f c : String) (b : Book) (v : IsOwned b) where
  abbrev with_end : Book
  with_end = record b { alive = set f (delete_from_set c (alive_set f b)) b.alive }

  end_alive : (g d : String) → has d (alive_set g with_end) ≡ true → has d (alive_set g b) ≡ true
  end_alive g d h =
      let known = alive_set-set g f (delete_from_set c (alive_set f b)) b with_end refl in
      elim (Bool-cases (f == g)) [
        | inl same ↦
            let here : f ≡ g = (==_iff f g).0 same in
            let kept : has d (alive_set f b) ≡ true =
              ground (arith, known, same, h, has-delete_from_set d c (alive_set f b)) in
            cc (ap (λ x. has d (alive_set x b)) here)
        | inr differs ↦ ground (arith, known, differs, h)
      ]

  with_end-IsOwned : IsOwned with_end
  with_end-IsOwned = record {
    live_owned = v.live_owned;
    alive_owned = λ g d h. v.alive_owned g d (end_alive g d h);
    fingerprints = v.fingerprints;
    tickets = v.tickets;
  }

finish-IsOwned : (corr : Option String) (b : Book) → IsOwned b → IsOwned (finish corr b)
unfolding finish
finish-IsOwned corr b v = elim (Option-cases (lookup (ticket_text corr) b.owner)) [
  | inl nobody ↦ rw (nobody, finish) v
  | inr (f, owns) ↦ rw (owns, finish) (with_end-IsOwned f (ticket_text corr) b v)
]

empty-IsOwned : IsOwned create_session_book
unfolding create_session_book lookup alive_set
empty-IsOwned = record {
  live_owned = λ f c h. cc h;
  alive_owned = λ f c h. cc h;
  fingerprints = λ f c h. cc h;
  tickets = λ f c h. cc h;
}

-- In a book of sessions in which each ticket was claimed while nobody had it or by the
-- fingerprint that had it, what is live for a fingerprint is a ticket of that fingerprint
-- (`IsOwned`).
pub Reached-IsOwned : {b : Book} → Reached b → IsOwned b
Reached-IsOwned start = empty-IsOwned
Reached-IsOwned (claimed {b} r fp corr free) = claim-IsOwned fp corr b (Reached-IsOwned r) free
Reached-IsOwned (ended {b} r corr) = finish-IsOwned corr b (Reached-IsOwned r)

-- What a caller may drive: a ticket of its own, or one that nobody has, if it names no fingerprint.
abbrev pub Allowed : String → String → Book → Type 0
Allowed f c b = (lookup c b.owner ≡ some f) ⊎ ((lookup c b.owner ≡ none) × (f ≡ ""))

module _ (b : Book) (v : IsOwned b) (fp ticket : Option String) where
  abbrev caller : String
  caller = normalize_fingerprint fp

  abbrev named : String
  named = ticket_text ticket

  abbrev newest : String
  newest = or_else (lookup caller b.live) ""

  resolve_cases : resolve fp ticket b ≡ (
      if is_empty named
      then record { drop = false; corr = trim newest }
      else if normalize_fingerprint (lookup named b.owner) == caller
      then record { drop = false; corr = named }
      else record { drop = true; corr = "" })
  unfolding resolve
  resolve_cases = rw (trimmed_text ticket, trimmed_fingerprint fp) (ground arith)

  owner-Allowed : normalize_fingerprint (lookup named b.owner) ≡ caller → Allowed caller named b
  owner-Allowed same = elim (Option-cases (lookup named b.owner)) [
    | inl nobody ↦ inr (nobody, unfold normalize_fingerprint in sym (rw nobody at same))
    | inr (f, owns) ↦
        let who : trim f ≡ caller = unfold normalize_fingerprint in (rw owns at same) in
        inl (cc (v.fingerprints f named owns))
  ]

  newest-Allowed : trim newest ≢ "" → Allowed caller (trim newest) b
  newest-Allowed some_ticket = elim (Option-cases (lookup caller b.live)) [
    | inl nothing ↦ absurd (some_ticket (unfold trim in (rw nothing refl)))
    | inr (c, live) ↦
        let owns = v.live_owned caller c live in inl (rw live (rw (v.tickets caller c owns) owns))
  ]

  -- In a book in which what is live is owned, a ticket that `resolve` gives to a caller is not
  -- dropped, and it is the caller's own, or nobody's where the caller names no fingerprint.
  pub resolve-Allowed :
      (resolve fp ticket b).corr ≢ ""
      → ((resolve fp ticket b).drop ≡ false) × Allowed caller (resolve fp ticket b).corr b
  resolve-Allowed shown = elim (Bool-cases (is_empty named)) [
    | inl missing ↦
        let e : resolve fp ticket b ≡ record { drop = false; corr = trim newest } =
          resolve_cases ∙ (rw missing refl) in
        rw e (refl, newest-Allowed (rw e at shown))
    | inr given ↦ elim (Bool-cases (normalize_fingerprint (lookup named b.owner) == caller)) [
      | inl same ↦
          let e : resolve fp ticket b ≡ record { drop = false; corr = named } =
            resolve_cases ∙ (rw (given, same) refl) in
          rw e (refl, owner-Allowed ((==_iff _ _).0 same))
      | inr other ↦
          let e : resolve fp ticket b ≡ record { drop = true; corr = "" } =
            resolve_cases ∙ (rw (given, other) refl) in
          absurd (shown (ap (λ t. t.corr) e))
    ]
  ]

abbrev ending : String → String → Book → Book
ending f c b = record b { alive = set f (delete_from_set c (alive_set f b)) b.alive }

abbrev over : String → Book → Bool
over c b = elim (lookup c b.owner) [ none ↦ false | some f ↦ not (has c (alive_set f b)) ]

over-ending :
    (f c d : String) (b : Book)
    → lookup c b.owner ≡ some f
    → over d (ending f c b) ≡ (if c == d then true else over d b)
over-ending f c d b owns = elim (Option-cases (lookup d b.owner)) [
  | inl nobody ↦ ground (arith, nobody, owns, ==_iff c d)
  | inr (g, theirs) ↦ ground (
    arith,
    theirs,
    owns,
    ==_iff c d,
    ==_iff f g,
    alive_set-set g f (delete_from_set c (alive_set f b)) b (ending f c b) refl,
    has-delete_from_set d c (alive_set f b),
  )
]

is_finished-over :
    (corr : Option String) (b : Book) → is_finished corr b ≡ over (ticket_text corr) b
unfolding is_finished
is_finished-over corr b = ground arith

-- The end of a ticket that has an owner makes that ticket finished, and changes for no other
-- whether it is.
pub is_finished-finish :
    (corr other : Option String) (b : Book) (f : String)
    → lookup (ticket_text corr) b.owner ≡ some f
    → is_finished other (finish corr b)
      ≡ (if ticket_text corr == ticket_text other then true else is_finished other b)
unfolding finish
is_finished-finish corr other b f owns =
    rw (owns, finish)
      (rw (is_finished-over other (ending f (ticket_text corr) b), is_finished-over other b)
        (over-ending f (ticket_text corr) (ticket_text other) b owns))
