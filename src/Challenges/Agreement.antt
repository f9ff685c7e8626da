-- ===== src/Challenges/Agreement.antt =====
-- packages/fleet-worker/src/tokenv1.mjs, createChallengeBook: the two maps of the book.
use fleet_for_agent.Base.{
  ℕ, ◌≤◌, ◌≡◌, refl, sym, ap, subst, ◌∙◌, inl, inr, String, Bool, true, false, ◌||◌, Option, none,
  some, List, [], ◌∷◌, ◌++◌, filter, or_else, length, length-filter-le, arith, if◌then◌else◌,
  Bool-cases, Option-cases,
}
use fleet_for_agent.Base.Eq.{◌==◌, ==_iff, string_eq}
use fleet_for_agent.Base.Assoc.{Assoc, lookup, remove, set, lookup-set, lookup-remove}
use fleet_for_agent.Base.Text.{is_empty, is_empty_text}
use fleet_for_agent.Challenges.{
  shift_to, other_than, drop_challenge_nonce, next_challenge_list, set_left, Challenge,
  ChallengeBook, delete_nonces, nonces_of, put_challenge, take_challenge, clear_kid,
  empty_challenge_book,
}
use fleet_for_agent.Challenges.Lists.{
  has, unique, has-append, unique-append, unique_last, has-filter, unique-filter, shift_to-append,
  shift_to_bounded, shift_to_last,
}

pub nonces_of_set :
    (kid k : String) (list : List String) (lists : Assoc String (List String))
    → or_else (lookup k (set kid list lists)) []
      ≡ (if kid == k then list else or_else (lookup k lists) [])
nonces_of_set kid k list lists = ground (arith, lookup-set kid k list lists)

pub nonces_of_left :
    (kid k : String) (list : List String) (lists : Assoc String (List String))
    → or_else (lookup k (set_left kid list lists)) []
      ≡ (if kid == k then list else or_else (lookup k lists) [])
nonces_of_left kid k [] lists = ground (arith, lookup-remove kid k lists)
nonces_of_left kid k (n ∷ list) lists = nonces_of_set kid k (n ∷ list) lists

pub named_text : (s : String) → is_empty s ≡ false → (s == "") ≡ false
unfolding is_empty
named_text s h = elim (Bool-cases (s == "")) [
  | inl e ↦ cc (subst (λ t. is_empty t ≡ false) ((==_iff s "").0 e) h)
  | inr e ↦ e
]

module _ {E : Type 0} where
  abbrev pub belongs : Option (Challenge E) → String → Bool
  belongs none kid = false
  belongs (some row) kid = row.kid == kid

  abbrev pub holds : String → String → ChallengeBook E → Bool
  holds nonce kid b = belongs (lookup nonce b.by_nonce) kid

  -- A key's list is the nonces that the book holds for it, each once, and no more than `max`.
  pub record Agrees (max : ℕ) (b : ChallengeBook E) : Type 0 where
    pub same : (nonce kid : String) → has nonce (nonces_of kid b) ≡ holds nonce kid b
    pub single : (kid : String) → unique (nonces_of kid b) ≡ true
    pub bounded : (kid : String) → length (nonces_of kid b) ≤ max
    pub named : lookup "" b.by_nonce ≡ none

  -- A nonce is held for one key.
  belongs_one :
      (o : Option (Challenge E)) (k j : String)
      → belongs o k ≡ true
      → belongs o j ≡ true
      → (k == j) ≡ true
  belongs_one none k j h i = cc h
  belongs_one (some row) k j h i =
      ground (arith, ==_iff row.kid k, ==_iff row.kid j, ==_iff k j, h, i)

  pub lookup-delete_nonces :
      (nonce : String) (ns : List String) (rows : Assoc String (Challenge E))
      → lookup nonce (delete_nonces ns rows) ≡ (if has nonce ns then none else lookup nonce rows)
  unfolding delete_nonces
  lookup-delete_nonces nonce [] rows = refl
  lookup-delete_nonces nonce (n ∷ ns) rows =
      ground (arith, lookup-delete_nonces nonce ns (remove n rows), lookup-remove n nonce rows)

  pub empty-Agrees : (max : ℕ) → Agrees max empty_challenge_book
  unfolding lookup
  empty-Agrees max = record {
    same = λ nonce kid. refl;
    single = λ kid. refl;
    bounded = λ kid. omega arith;
    named = refl;
  }

  pub unnamed :
      (b : ChallengeBook E) (n k : String)
      → lookup "" b.by_nonce ≡ none
      → is_empty n ≡ true
      → holds n k b ≡ false
  unnamed b n k h e = ground (arith, h, ap (λ m. lookup m b.by_nonce) (is_empty_text n e))

  same_key :
      (b : ChallengeBook E) (n kid k : String) → (kid == k) ≡ true → holds n k b ≡ holds n kid b
  same_key b n kid k e = ap (λ x. holds n x b) (sym ((==_iff kid k).0 e))

  pub clear_kid-Agrees :
      (max : ℕ) (kid : String) (b : ChallengeBook E) → Agrees max b → Agrees max (clear_kid kid b)
  unfolding clear_kid
  clear_kid-Agrees max kid b a = record {
    same = λ nonce k. ground (
      arith,
      lookup-delete_nonces nonce (nonces_of kid b) b.by_nonce,
      lookup-remove kid k b.by_kid,
      a.same nonce k,
      a.same nonce kid,
      belongs_one (lookup nonce b.by_nonce) kid k,
      same_key b nonce kid k,
    );
    single = λ k. ground (arith, lookup-remove kid k b.by_kid, a.single k);
    bounded = λ k. ground (arith, lookup-remove kid k b.by_kid, a.bounded k);
    named = ground (arith, lookup-delete_nonces "" (nonces_of kid b) b.by_nonce, a.named);
  }

  taken-Agrees :
      (max : ℕ) (nonce : String) (b : ChallengeBook E) (row : Challenge E)
      → Agrees max b
      → lookup nonce b.by_nonce ≡ some row
      → Agrees max (record {
        by_nonce = remove nonce b.by_nonce;
        by_kid = set_left row.kid (drop_challenge_nonce (nonces_of row.kid b) nonce) b.by_kid;
      })
  unfolding drop_challenge_nonce
  taken-Agrees max nonce b row a present = record {
    same = λ n k. ground (
      arith,
      nonces_of_left row.kid k (filter (other_than nonce) (nonces_of row.kid b)) b.by_kid,
      has-filter nonce n (nonces_of row.kid b),
      lookup-remove nonce n b.by_nonce,
      a.same n k,
      a.same n row.kid,
      ==_iff nonce n,
      ==_iff n nonce,
      ==_iff row.kid k,
      unnamed b n row.kid a.named,
      present,
    );
    single = λ k. ground (
      arith,
      nonces_of_left row.kid k (filter (other_than nonce) (nonces_of row.kid b)) b.by_kid,
      unique-filter nonce (nonces_of row.kid b),
      a.single k,
      a.single row.kid,
    );
    bounded = λ k. ground (
      arith,
      nonces_of_left row.kid k (filter (other_than nonce) (nonces_of row.kid b)) b.by_kid,
      length-filter-le (other_than nonce) (nonces_of row.kid b),
      a.bounded k,
      a.bounded row.kid,
    );
    named = ground (arith, lookup-remove nonce "" b.by_nonce, a.named);
  }

  pub take_challenge-Agrees :
      (max : ℕ) (nonce : String) (b : ChallengeBook E)
      → Agrees max b
      → Agrees max (take_challenge nonce b).0
  unfolding take_challenge
  take_challenge-Agrees max nonce b a = elim (Option-cases (lookup nonce b.by_nonce)) [
    | inl absent ↦ rw (absent, take_challenge) a
    | inr (row, present) ↦ rw (present, take_challenge) (taken-Agrees max nonce b row a present)
  ]

  pub put_challenge-Agrees :
      (max : ℕ) (kid nonce : String) (extra : E) (b : ChallengeBook E)
      → 1 ≤ max
      → is_empty nonce ≡ false
      → lookup nonce b.by_nonce ≡ none
      → Agrees max b
      → Agrees max (put_challenge max kid nonce extra b)
  unfolding put_challenge next_challenge_list
  put_challenge-Agrees max kid nonce extra b some_room full fresh a =
      let list = filter (other_than nonce) (nonces_of kid b) ++ nonce ∷ [] in
      let kept = (shift_to max list).0 in
      let dropped = (shift_to max list).1 in
      let row : Challenge E = record { kid = kid; extra = extra } in
      let new : has nonce (nonces_of kid b) ≡ false = ground (arith, a.same nonce kid, fresh) in
      let nonempty : (nonce == "") ≡ false = named_text nonce full in
      let lone : unique list ≡ true =
        unique_last nonce (filter (other_than nonce) (nonces_of kid b))
          (unique-filter nonce (nonces_of kid b) (a.single kid))
          (ground (arith, has-filter nonce nonce (nonces_of kid b), new)) in
      let parts : unique (dropped ++ kept) ≡ true =
        subst (λ l. unique l ≡ true) (sym (shift_to-append max list)) lone in
      record {
        same = λ n k.
            let stored : lookup n (set nonce row (delete_nonces dropped b.by_nonce)) ≡ (
                if nonce == n
                then some row
                else if has n dropped
                then none
                else lookup n b.by_nonce) =
              ground (
                arith,
                lookup-set nonce n row (delete_nonces dropped b.by_nonce),
                lookup-delete_nonces n dropped b.by_nonce,
              ) in
            let parted : (has n dropped || has n kept) ≡ has n list =
              sym (has-append n dropped kept) ∙ ap (has n) (shift_to-append max list) in
            ground (
              arith,
              stored,
              parted,
              (unique-append n dropped kept parts).1,
              nonces_of_set kid k kept b.by_kid,
              has-append n (filter (other_than nonce) (nonces_of kid b)) (nonce ∷ []),
              has-filter nonce n (nonces_of kid b),
              shift_to_last max (filter (other_than nonce) (nonces_of kid b)) nonce some_room,
              a.same n k,
              a.same n kid,
              same_key b n kid k,
              unnamed b n kid a.named,
              belongs_one (lookup n b.by_nonce) kid k,
              ==_iff nonce n,
              ==_iff n nonce,
              new,
              fresh,
            );
        single = λ k. ground (
          arith,
          nonces_of_set kid k kept b.by_kid,
          a.single k,
          unique-append k dropped kept parts,
        );
        bounded = λ k.
            ground
              (arith, nonces_of_set kid k kept b.by_kid, a.bounded k, shift_to_bounded max list);
        named = ground (
          arith,
          lookup-set nonce "" row (delete_nonces dropped b.by_nonce),
          lookup-delete_nonces "" dropped b.by_nonce,
          a.named,
          ==_iff nonce "",
          nonempty,
        );
      }
