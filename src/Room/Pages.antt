-- ===== src/Room/Pages.antt =====
-- packages/fleet-worker/src/room-tasks.mjs, pageWithinBudget: one page of rows. The encoded size
-- of a row is a parameter.
use fleet_for_agent.Base.{
  ℕ, ◌+◌, ◌≤◌, ◌<◌, ◌≡◌, refl, sym, ap, subst, ◌∙◌, inl, inr, ◌⊎◌, Bool, true, ◌||◌, Option, none,
  some, List, [], ◌∷◌, ◌++◌, ltb, leb, length, filter, arith, if◌then◌else◌, Bool-cases,
}

pub record Page (A : Type 0) : Type 0 where
  pub items : List A
  pub has_more : Bool
  pub next_cursor : Option ℕ

module _ {A : Type 0} (size : A → ℕ) (limit budget : ℕ) where
  -- The rows that the loop pushes, from the count and the bytes that it has reached.
  pub page_items : ℕ → ℕ → List A → List A
  page_items count bytes [] = []
  page_items count bytes (row ∷ rest) =
      let more = page_items (count + 1) (bytes + size row) rest in
      if leb limit count || ltb budget (bytes + size row) then [] else row ∷ more

module _ {A : Type 0} where
  pub last_cursor : (A → ℕ) → List A → Option ℕ
  last_cursor cursor [] = none
  last_cursor cursor (row ∷ []) = some (cursor row)
  last_cursor cursor (row ∷ next ∷ rest) = last_cursor cursor (next ∷ rest)

unfoldable pub page_within_budget : {A : Type 0} → (A → ℕ) → (A → ℕ) → List A → ℕ → ℕ → Page A
unfolding page_items last_cursor
page_within_budget size cursor rows limit budget =
    let items = page_items size limit budget 0 0 rows in
    record {
      items = items;
      has_more = ltb (length items) (length rows);
      next_cursor = last_cursor cursor items;
    }

module _ {A : Type 0} (size : A → ℕ) where
  abbrev pub sizes : List A → ℕ
  sizes [] = 0
  sizes (row ∷ rows) = size row + sizes rows

  -- What the loop takes of the rows, from a count and a number of bytes: it stops only where a
  -- row is left that would be one too many or too large.
  pub record Takes (limit budget count bytes : ℕ) (rows items : List A) : Type 0 where
    pub rest : List A
    pub split : rows ≡ items ++ rest
    pub counted : count ≤ limit → count + length items ≤ limit
    pub fits : bytes ≤ budget → bytes + sizes items ≤ budget
    pub ends :
        (row : A) (after : List A)
        → rest ≡ row ∷ after
        → (limit ≤ count + length items) ⊎ (budget < bytes + sizes items + size row)

  page_items-Takes :
      (limit budget count bytes : ℕ) (rows : List A)
      → Takes limit budget count bytes rows (page_items size limit budget count bytes rows)
  unfolding page_items
  page_items-Takes limit budget count bytes [] = record {
    rest = [];
    split = refl;
    counted = λ h. omega (arith, h);
    fits = λ h. omega (arith, h);
    ends = λ row after e. cc e;
  }
  page_items-Takes limit budget count bytes (row ∷ rest) =
      elim (Bool-cases (leb limit count || ltb budget (bytes + size row))) [
        | inl full ↦ rw full (record {
          rest = row ∷ rest;
          split = refl;
          counted = λ h. omega (arith, h);
          fits = λ h. omega (arith, h);
          ends = λ first after e. full_ends first after e full;
        })
        | inr open_page ↦
            let more = page_items-Takes limit budget (count + 1) (bytes + size row) rest in
            rw open_page (record {
              rest = more.rest;
              split = cc (more.split);
              counted = λ h. ground (arith, more.counted, open_page);
              fits = λ h. ground (arith, more.fits, open_page);
              ends = λ first after e. ground (arith, more.ends first after e);
            })
      ]
    where
      full_ends :
          (first : A) (after : List A)
          → Path (List A) (row ∷ rest) (first ∷ after)
          → (leb limit count || ltb budget (bytes + size row)) ≡ true
          → (limit ≤ count + length {A = A} []) ⊎ (budget < bytes + sizes [] + size first)
      full_ends first after e full = ground (arith, full, e)

module _ {A : Type 0} (cursor : A → ℕ) where
  abbrev pub Above : ℕ → List A → Type 0
  Above c [] = Unit {0}
  Above c (row ∷ rows) = (c < cursor row) × Above c rows

  -- The rows stand in the order of their cursors, of which no two are equal.
  abbrev pub Increasing : List A → Type 0
  Increasing [] = Unit {0}
  Increasing (row ∷ rows) = Above (cursor row) rows × Increasing rows

  abbrev pub after : ℕ → List A → List A
  after c rows = filter (λ row. ltb c (cursor row)) rows

  after-Above : (c : ℕ) (rows : List A) → Above c rows → after c rows ≡ rows
  after-Above c [] above = refl
  after-Above c (row ∷ rows) above = ground (arith, after-Above c rows above.1, above.0)

  last-Above :
      (c d : ℕ) (items rest : List A)
      → Above c (items ++ rest)
      → last_cursor cursor items ≡ some d
      → c < d
  unfolding last_cursor
  last-Above c d [] rest above h = cc h
  last-Above c d (row ∷ []) rest above h = ground (arith, above.0, h)
  last-Above c d (row ∷ next ∷ items) rest above h = last-Above c d (next ∷ items) rest above.1 h

  after-last :
      (c : ℕ) (items rest : List A)
      → Increasing (items ++ rest)
      → last_cursor cursor items ≡ some c
      → after c (items ++ rest) ≡ rest
  unfolding last_cursor
  after-last c [] rest up h = cc h
  after-last c (row ∷ []) rest up h =
      let here : cursor row ≡ c = ground (arith, h) in
      ground (arith, here, after-Above c rest (subst (λ x. Above x rest) here up.0))
  after-last c (row ∷ next ∷ items) rest up h =
      let below = last-Above (cursor row) c (next ∷ items) rest up.0 h in
      ground (arith, below, after-last c (next ∷ items) rest up.1 h)

module _ {A : Type 0} (size cursor : A → ℕ) (rows : List A) (limit budget : ℕ) where
  -- A page is a first part of its rows, of at most `limit` rows and `budget` bytes, and it ends
  -- before the last row only where the next row would be one too many or too large (`Takes`,
  -- from no row and no byte).
  pub page_within_budget_lem :
      Takes size limit budget 0 0 rows (page_within_budget size cursor rows limit budget).items
  unfolding page_within_budget
  page_within_budget_lem = page_items-Takes size limit budget 0 0 rows

  -- Of rows in the order of their cursors, no two equal, the rows of a page that has a next
  -- cursor, followed by all rows after that cursor, are the whole.
  pub page_continues :
      (c : ℕ)
      → Increasing cursor rows
      → (page_within_budget size cursor rows limit budget).next_cursor ≡ some c
      → (page_within_budget size cursor rows limit budget).items ++ after cursor c rows ≡ rows
  unfolding page_within_budget
  page_continues c up h =
      let page = page_items size limit budget 0 0 rows in
      let takes = page_items-Takes size limit budget 0 0 rows in
      let goes_on =
        after-last cursor c page takes.rest (subst (Increasing cursor) takes.split up) h in
      ap (λ x. page ++ after cursor c x) takes.split ∙ ap (λ x. page ++ x) goes_on ∙ sym takes.split
