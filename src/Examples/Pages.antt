-- ===== src/Examples/Pages.antt =====
-- packages/fleet-worker/src/room-tasks.mjs, pageWithinBudget, on rows that are numbers.
use fleet_for_agent.Base.{ℕ, ◌≡◌, refl, ◌++◌, some, [], ◌∷◌, List, arith}
use fleet_for_agent.Room.Pages.{
  page_within_budget, Takes, Increasing, after, page_within_budget_lem, page_continues,
}

abbrev one_byte : ℕ → ℕ
one_byte n = 1

abbrev itself : ℕ → ℕ
itself n = n

abbrev numbers : List ℕ
numbers = 3 ∷ 5 ∷ 8 ∷ []

first_page : (page_within_budget one_byte itself numbers 2 100).next_cursor ≡ some 5
unfolding page_within_budget
first_page = refl

numbers-Increasing : Increasing itself numbers
numbers-Increasing = ground arith

page_within_budget_lem_example :
    Takes one_byte 2 100 0 0 numbers (page_within_budget one_byte itself numbers 2 100).items
page_within_budget_lem_example = page_within_budget_lem one_byte itself numbers 2 100

page_continues_example :
    (page_within_budget one_byte itself numbers 2 100).items ++ after itself 5 numbers ≡ numbers
page_continues_example =
    page_continues one_byte itself numbers 2 100 5 numbers-Increasing first_page
