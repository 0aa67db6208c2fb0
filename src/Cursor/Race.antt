-- ===== src/Cursor/Race.antt =====
-- Two requests of one pager at the same time: both work on the one chain, each in two halves, up to the
-- fetch of its page and from the answer on.
use testkit_service.Prelude.{
  ℕ, zero, suc, ◌+◌, ◌<◌, ◌≤◌, String, true, false, Option, none, some, List, [], ◌∷◌, ◌++◌, ◌≡◌,
  ◌≢◌, refl, arith, nonempty, or_undefined, get_or, eq_iff, ◌==◌, eqb, length, get_elem?, ltb,
  not_lt→ltb, if◌then◌else◌,
}
use testkit_service.Cursor.{
  Answer, answered, Pager, Params, open_window, entry_cursor, show_answer, shown, request,
  show_page, after_walk, new_pager,
}
use testkit_service.Cursor.Walk.{continues, walk_stop}

-- A fetch of a page that has left.
pub record Flight (F : Type 0) : Type 0 where
  pub filters : F
  pub cursor : Option String
  pub want : ℕ
  pub page_size : ℕ

abbrev flight_of : {F : Type 0} → F → ℕ → ℕ → Option String → Option (Flight F)
flight_of filters size want none = none
flight_of filters size want (some entry) = some (record {
  filters = filters;
  cursor = or_undefined (some entry);
  want = want;
  page_size = size;
})

get_elem?-length : (xs : List String) (i : ℕ) (x : String) → get_elem? xs i ≡ some x → i < length xs
get_elem?-length [] i x h = cc
get_elem?-length (y ∷ xs) zero x h = omega arith
get_elem?-length (y ∷ xs) (suc i) x h = omega (arith, get_elem?-length xs i x h)

entry_cursor-length :
    (xs : List String) (want : ℕ) (x : String) → entry_cursor xs want ≡ some x → want ≤ length xs
entry_cursor-length xs zero x h = cc
entry_cursor-length xs (suc n) x h = omega (arith, get_elem?-length xs n x h)

abbrev size_of : {F : Type 0} → ℕ → Params F → ℕ
size_of default_page_size params = get_or params.page_size default_page_size

module _ {F : Type 0} (stringify : F → String) (default_page_size : ℕ) where
  -- The first half of a request whose page has its cursor in the chain: the window, and the fetch.
  unfoldable pub begin : Params F → Pager → Pager × Option (Flight F)
  begin params p =
      let q = open_window (stringify params.filters) (size_of default_page_size params) p in
      (
        record q { loading = true },
        flight_of params.filters (size_of default_page_size params) q.page_ref
            (entry_cursor q.chain.cursors q.page_ref),
      )

module _ {T F : Type 0} (fetch : ℕ → F → Option String → ℕ → Answer T) where
  -- The second half: the answer of its fetch, on the pager as it is by then.
  unfoldable pub finish : Flight F → Answer T → Pager → Pager × Option (List T)
  finish flight answer p = show_answer fetch flight.page_size flight.want p answer

  -- A request that no other one comes between is its two halves in a row.
  pub request-halves :
      (stringify : F → String) (default_page_size : ℕ) (params : Params F) (p : Pager)
      (entry : String)
      → let q = open_window (stringify params.filters) (size_of default_page_size params) p in
        entry_cursor q.chain.cursors q.page_ref ≡ some entry
        → (flight : Flight F) × ((begin stringify default_page_size params p).1 ≡ some flight)
          × (request fetch stringify default_page_size params p
              ≡ finish flight
                  (fetch
                    (begin stringify default_page_size params p).0.calls
                    flight.filters
                    flight.cursor
                    flight.page_size)
                  (begin stringify default_page_size params p).0)
  unfolding request begin finish after_walk show_page
  request-halves stringify default_page_size params p entry here =
      let size = size_of default_page_size params in
      let q = open_window (stringify params.filters) size p in
      let one : q.page_ref + 1 ≡ suc q.page_ref = omega arith in
      let long : ltb (length q.chain.cursors) q.page_ref ≡ false =
        not_lt→ltb (length q.chain.cursors) q.page_ref
          (λ h. omega (arith, entry_cursor-length q.chain.cursors q.page_ref entry here)) in
      let stop : continues fetch params.filters size q.page_ref (record q { loading = true })
          ≡ false =
        ground (arith, long) in
      (
        record {
          filters = params.filters;
          cursor = or_undefined (some entry);
          want = q.page_ref;
          page_size = size;
        },
        rw here,
        rw (
          one,
          walk_stop fetch params.filters size q.page_ref q.page_ref (record q { loading = true })
              stop,
          here,
        ),
      )

-- The fetch of a first page, and the pager that it leaves from.
abbrev pub first_flight : {F : Type 0} → ℕ → Params F → Flight F
first_flight default_page_size params = record {
  filters = params.filters;
  cursor = none;
  want = 1;
  page_size = size_of default_page_size params;
}

abbrev at_first : String → ℕ → Pager → Pager
at_first key size p = record p {
  chain = record { cursors = "" ∷ []; filter_key = key; page_size = size; ended = false };
  page_ref = 1;
  loading = true;
}

test_ne : (a b : String) → a ≢ b → (a == b) ≡ false
test_ne a b h = ground (arith, eq_iff a b)

begin-first :
    {F : Type 0} (stringify : F → String) (default_page_size : ℕ) (params : Params F) (p : Pager)
    → stringify params.filters ≢ p.chain.filter_key
    → begin stringify default_page_size params p ≡ (
      at_first (stringify params.filters) (size_of default_page_size params) p,
      some (first_flight default_page_size params),
    )
unfolding begin open_window
begin-first stringify default_page_size params p differ =
    rw (test_ne (stringify params.filters) p.chain.filter_key differ)

module _ {T F : Type 0} (fetch : ℕ → F → Option String → ℕ → Answer T) (stringify : F → String)
    (default_page_size : ℕ) where
  -- The pager after the answer to a first page has come, with a next cursor.
  abbrev answered_first : Params F → Option (List T) → String → Pager → Pager
  answered_first params rows next p =
      (finish fetch (first_flight default_page_size params) (answered rows (some next)) p).0

  answered_first-chain :
      (params : Params F) (rows : Option (List T)) (next : String) (p : Pager)
      → nonempty next ≡ true
      → (answered_first params rows next p).chain ≡ record (p.chain) {
        cursors =
            if eqb (length p.chain.cursors) 1
            then p.chain.cursors ++ next ∷ []
            else p.chain.cursors;
        ended = false;
      }
  unfolding finish show_answer shown
  answered_first-chain params rows next p full = rw full

  -- Two requests for the first pages of two different queries, the second sent while the first is
  -- unanswered. If the first is answered first, with a next cursor, that cursor ends up in the chain of
  -- the second query: its page 2 is then asked for with the cursor of the other query. Had the first
  -- been answered before the second was sent, the second's own cursor would stand there.
  pub finish-stale_cursor :
      (old new : Params F) (a b : String) (rows_a rows_b : Option (List T))
      → nonempty a ≡ true
      → nonempty b ≡ true
      → stringify old.filters ≢ ""
      → stringify new.filters ≢ stringify old.filters
      → let start = begin stringify default_page_size in
        let sent = start old new_pager in
        let both = start new sent.0 in
        let racing = answered_first new rows_b b (answered_first old rows_a a both.0) in
        let waiting =
          answered_first new rows_b b (start new (answered_first old rows_a a sent.0)).0 in
        (sent.1 ≡ some (first_flight default_page_size old))
        × (both.1 ≡ some (first_flight default_page_size new))
        × (racing.chain.filter_key ≡ stringify new.filters)
        × (racing.chain.cursors ≡ "" ∷ a ∷ [])
        × (waiting.chain.filter_key ≡ stringify new.filters)
        × (waiting.chain.cursors ≡ "" ∷ b ∷ [])
  unfolding new_pager
  finish-stale_cursor old new a b rows_a rows_b full_a full_b key differ =
      let size = size_of default_page_size old in
      let p1 = at_first (stringify old.filters) size new_pager in
      let p2 = at_first (stringify new.filters) (size_of default_page_size new) p1 in
      let chain_a = answered_first-chain old rows_a a p1 full_a in
      let fresh : stringify new.filters ≢ (answered_first old rows_a a p1).chain.filter_key =
        rw chain_a differ in
      rw
        (
          begin-first stringify default_page_size old new_pager key,
          begin-first stringify default_page_size new p1 differ,
          begin-first stringify default_page_size new (answered_first old rows_a a p1) fresh,
          answered_first-chain new rows_b b (answered_first old rows_a a p2) full_b,
          answered_first-chain old rows_a a p2 full_a,
          answered_first-chain new rows_b b
              (at_first (stringify new.filters) (size_of default_page_size new)
                (answered_first old rows_a a p1))
              full_b,
        )
        (refl, refl, refl, refl, refl, refl)
