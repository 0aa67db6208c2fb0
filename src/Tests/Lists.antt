-- ===== src/Tests/Lists.antt =====
-- Tenant views and paged lists at concrete rows and cursors.
use testkit_service.Prelude.{
  ℕ, zero, suc, ◌+◌, ◌<◌, String, true, false, Option, none, some, List, [], ◌∷◌, ◌≡◌, ◌≢◌, refl,
  inr, arith, ltb, nonempty, or_undefined, if◌then◌else◌,
}
use testkit_service.Cursor.{Answer, answered, Pager, out_of_fuel, walk}
use testkit_service.Cursor.Walk.{IsPaged, IsWalked, walk-ne-out_of_fuel}
use testkit_service.Cursor.{Params, new_pager}
use testkit_service.Cursor.Buttons.{next, previous, clicks, IsViewing, turns, clicks-IsViewing}
use testkit_service.Cursor.Race.{begin, finish, first_flight, finish-stale_cursor}

-- Rows with a tenant key and a number: the pool's, the tenant's and another tenant's.
abbrev Row : Type 0
Row = Option String × ℕ

abbrev rows : List Row
rows = (none, 1) ∷ (some "t1", 2) ∷ (some "t2", 3) ∷ []

-- Two pages: the first answers with the cursor of the second.
abbrev page_rows : ℕ → List ℕ
page_rows zero = 1 ∷ 2 ∷ []
page_rows (suc i) = 3 ∷ []

abbrev name : ℕ → String
name zero = ""
name (suc i) = "c1"

abbrev fetch : ℕ → String → Option String → ℕ → Answer ℕ
fetch calls filters none size = answered (some (page_rows 0)) (some "c1")
fetch calls filters (some c) size = answered (some (page_rows 1)) none

fetch-IsPaged : IsPaged fetch "{}" 2 page_rows 2 name
fetch-IsPaged = record {
  total_pos = omega arith;
  name_zero = refl;
  name_pos = named;
  answers = answer_of;
}
  where
    named : (i : ℕ) → 0 < i → i < 2 → nonempty (name i) ≡ true
    named zero pos below = absurd (omega arith)
    named (suc i) pos below = refl

    answer_of :
        (calls i : ℕ)
        → i < 2
        → fetch calls "{}" (or_undefined (some (name i))) 2
          ≡ answered (some (page_rows i)) (if ltb (i + 1) 2 then some (name (i + 1)) else none)
    answer_of calls zero below = refl
    answer_of calls (suc zero) below = refl
    answer_of calls (suc (suc i)) below = absurd (omega arith)

-- The pager when the second page has been asked for.
abbrev second : Pager
second = record {
  chain = record { cursors = "" ∷ "c1" ∷ []; filter_key = "{}"; page_size = 2; ended = false };
  page_ref = 2;
  page = 1;
  has_more = true;
  loaded = 2;
  loading = false;
  calls = 1;
}

second-IsWalked : IsWalked 2 name 2 second.chain × (0 < second.page_ref)
second-IsWalked = (
  record { cursors = refl; some_page = omega arith; in_range = omega arith; at_end = λ e. cc },
  omega arith,
)

walk-ne-out_of_fuel_example : walk fetch 2 "{}" 2 3 second ≢ out_of_fuel second
walk-ne-out_of_fuel_example =
    walk-ne-out_of_fuel fetch "{}" 2 3 2 second second (omega arith) (inr (omega arith))

-- The pager that shows the second page, its last.
abbrev last_page : Pager × List ℕ
last_page = (
  record second { page = 2; has_more = false; chain = record (second.chain) { ended = true } },
  page_rows 1,
)

abbrev text_of : String → String
text_of filters = filters

last_page-IsViewing :
    IsViewing fetch "{}" 2 page_rows 2 name fetch-IsPaged text_of (some 2) 20 2 last_page
last_page-IsViewing = record {
  window = record { filter_key = refl; page_size = refl };
  shows = record {
    page = refl;
    has_more = refl;
    loading = refl;
    pages_known = 2;
    walked = record {
      cursors = refl;
      some_page = omega arith;
      in_range = omega arith;
      at_end = λ e. refl;
    };
  };
  rows = refl;
  first_page = omega arith;
  last_page = omega arith;
}

clicks-IsViewing_example :
    IsViewing fetch "{}" 2 page_rows 2 name fetch-IsPaged text_of
      (some 2)
      20
      (turns 2 (previous ∷ next ∷ previous ∷ []) 2)
      (clicks fetch "{}" 2 page_rows 2 name fetch-IsPaged text_of
        (some 2)
        20
        (previous ∷ next ∷ previous ∷ [])
        last_page)
clicks-IsViewing_example =
    clicks-IsViewing fetch "{}" 2 page_rows 2 name fetch-IsPaged text_of (some 2) 20
      (previous ∷ next ∷ previous ∷ []) 2 last_page refl last_page-IsViewing

-- Two queries, the second typed while the first is unanswered.
abbrev query : String → Params String
query filters = record { filters = filters; page_size = some 2 }

finish-stale_cursor_example :
    let start = begin text_of 20 in
    let sent = start (query "a") new_pager in
    let both = start (query "ab") sent.0 in
    let answer = λ (params : Params String) (rows : Option (List ℕ)) (cursor : String) (p : Pager).
      (finish fetch (first_flight 20 params) (answered rows (some cursor)) p).0 in
    let racing = answer (query "ab") none "next-ab" (answer (query "a") none "next-a" both.0) in
    let waiting =
      answer
        (query "ab")
        none
        "next-ab"
        (start (query "ab") (answer (query "a") none "next-a" sent.0)).0 in
    (sent.1 ≡ some (first_flight 20 (query "a")))
    × (both.1 ≡ some (first_flight 20 (query "ab")))
    × (racing.chain.filter_key ≡ "ab")
    × (racing.chain.cursors ≡ "" ∷ "next-a" ∷ [])
    × (waiting.chain.filter_key ≡ "ab")
    × (waiting.chain.cursors ≡ "" ∷ "next-ab" ∷ [])
finish-stale_cursor_example =
    finish-stale_cursor fetch text_of 20 (query "a") (query "ab") "next-a" "next-ab" none none refl
      refl (λ e. cc) (λ e. cc)
