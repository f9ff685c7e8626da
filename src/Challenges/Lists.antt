-- ===== src/Challenges/Lists.antt =====
-- packages/fleet-worker/src/tokenv1.mjs, nextChallengeList: the list of one key's nonces.
use fleet_for_agent.Base.{
  ℕ, ◌≤◌, ◌≡◌, refl, sym, ap, subst, inl, inr, String, Bool, true, false, not, ◌&&◌, ◌||◌, List, [],
  ◌∷◌, ◌++◌, any, filter, ltb, length, arith, Bool-cases,
}
use fleet_for_agent.Base.Eq.{◌==◌, ==_iff, string_eq}
use fleet_for_agent.Challenges.{shift_to, other_than}

abbrev pub has : String → List String → Bool
has n ns = any (λ m. m == n) ns

abbrev pub unique : List String → Bool
unique [] = true
unique (n ∷ ns) = not (has n ns) && unique ns

pub has-append : (n : String) (xs ys : List String) → has n (xs ++ ys) ≡ (has n xs || has n ys)
has-append n [] ys = refl
has-append n (x ∷ xs) ys = ground (arith, has-append n xs ys)

pub unique-append :
    (n : String) (xs ys : List String)
    → unique (xs ++ ys) ≡ true
    → (unique ys ≡ true) × ((has n xs && has n ys) ≡ false)
unique-append n [] ys u = (u, refl)
unique-append n (x ∷ xs) ys u =
    ground (arith, unique-append n xs ys, has-append x xs ys, ==_iff x n, u)

pub unique_last :
    (n : String) (xs : List String)
    → unique xs ≡ true
    → has n xs ≡ false
    → unique (xs ++ n ∷ []) ≡ true
unique_last n [] u h = refl
unique_last n (x ∷ xs) u h =
    ground (arith, unique_last n xs, has-append x xs (n ∷ []), ==_iff n x, ==_iff x n, u, h)

pub has-filter :
    (n m : String) (ns : List String)
    → has m (filter (other_than n) ns) ≡ (has m ns && other_than n m)
has-filter n m [] = refl
has-filter n m (x ∷ ns) = elim (Bool-cases (x == m)) [
  | inl same ↦
      subst (λ y. has m (filter (other_than n) (y ∷ ns)) ≡ (has m (y ∷ ns) && other_than n m))
        (sym ((==_iff x m).0 same)) (ground (arith, ==_iff m m, has-filter n m ns))
  | inr differ ↦ ground (arith, has-filter n m ns, differ)
]

pub unique-filter :
    (n : String) (ns : List String) → unique ns ≡ true → unique (filter (other_than n) ns) ≡ true
unique-filter n [] u = refl
unique-filter n (x ∷ ns) u = ground (arith, unique-filter n ns, has-filter n x ns, u)

pub shift_to-append :
    (max : ℕ) (list : List String) → (shift_to max list).1 ++ (shift_to max list).0 ≡ list
unfolding shift_to
shift_to-append max [] = refl
shift_to-append max (n ∷ list) = elim (Bool-cases (ltb max (length (n ∷ list)))) [
  | inl long ↦ rw long (ap (λ r. n ∷ r) (shift_to-append max list))
  | inr short ↦ rw short refl
]

pub shift_to_bounded : (max : ℕ) (list : List String) → length (shift_to max list).0 ≤ max
unfolding shift_to
shift_to_bounded max [] = omega arith
shift_to_bounded max (n ∷ list) = ground (arith, shift_to_bounded max list)

-- A list that is not too long is kept, and the last nonce of one that is.
pub shift_to_short :
    (max : ℕ) (list : List String) → length list ≤ max → shift_to max list ≡ (list, [])
unfolding shift_to
shift_to_short max [] h = refl
shift_to_short max (n ∷ list) h = ground (arith, h)

pub shift_to_last :
    (max : ℕ) (list : List String) (n : String)
    → 1 ≤ max
    → has n (shift_to max (list ++ n ∷ [])).0 ≡ true
unfolding shift_to
shift_to_last max [] n h = ground (arith, h, ==_iff n n)
shift_to_last max (x ∷ list) n h = elim (Bool-cases (ltb max (length (x ∷ list ++ n ∷ [])))) [
  | inl long ↦ rw long (shift_to_last max list n h)
  | inr short ↦ rw short (ground (arith, has-append n (x ∷ list) (n ∷ []), ==_iff n n))
]
