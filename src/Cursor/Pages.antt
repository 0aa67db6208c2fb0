-- ===== src/Cursor/Pages.antt =====
-- A request of the pager over a list that stands still shows the page that is asked for.
use native.Mathlib.Decide.{dec_lt}
use testkit_service.Prelude.{
  ℕ, zero, suc, ◌+◌, ◌-◌, ◌*◌, ◌≤◌, ◌<◌, String, true, false, Option, none, some, List, [], ◌∷◌,
  ◌++◌, ◌≡◌, refl, ap, sym, ◌∙◌, ◌⊎◌, inl, inr, arith, length, ltb, lt→ltb, not_lt→ltb, eqb, not,
  ◌||◌, ◌==◌, get_or, Bool-cases, if◌then◌else◌, get_elem?,
}
use testkit_service.Cursor.{
  Answer, Chain, Pager, walk, open_window, shown, show_answer, show_page, after_walk, request,
  entry_cursor,
}
use testkit_service.Cursor.Names.{length-names, get_elem?-names, get_elem?-names_ge, take-names}
use testkit_service.Cursor.Walk.{IsPaged, IsWalked, walk-IsWalked}

module _ {T F : Type 0} (fetch : ℕ → F → Option String → ℕ → Answer T) (filters : F) (size : ℕ)
    (pages : ℕ → List T) (total : ℕ) (name : ℕ → String)
    (paged : IsPaged fetch filters size pages total name) where
  -- What the pager holds when page `want` is on the screen.
  pub record Shows (want : ℕ) (p : Pager) : Type 0 where
    pub page : p.page ≡ want
    pub has_more : p.has_more ≡ ltb want total
    pub loading : p.loading ≡ false
    pub pages_known : ℕ
    pub walked : IsWalked total name pages_known p.chain

  abbrev next_of : ℕ → Option String
  next_of k = if ltb (k + 1) total then some (name (k + 1)) else none

  -- The cursor of the page behind the one that was fetched is added once.
  longer-IsWalked :
      (k n : ℕ) (c : Chain)
      → IsWalked total name n c
      → k < n
      → k + 1 < total
      → (m : ℕ) × IsWalked total name m (record c {
        cursors =
            if eqb (length c.cursors) (suc k) then c.cursors ++ name (k + 1) ∷ [] else c.cursors;
        ended = false;
      })
  longer-IsWalked k n c v here more = elim (Bool-cases (eqb (length c.cursors) (suc k))) [
    | inl at_end ↦
        let one : k + 1 ≡ suc k = omega arith in
        let len : length c.cursors ≡ n = ap length v.cursors ∙ length-names name n in
        let e : n ≡ suc k = ground arith in
        (
          suc (suc k),
          rw at_end (record {
            cursors = rw (one, v.cursors, e);
            some_page = omega arith;
            in_range = omega arith;
            at_end = λ e. cc;
          }),
        )
    | inr inside ↦ (
      n,
      rw inside (record {
        cursors = v.cursors;
        some_page = v.some_page;
        in_range = v.in_range;
        at_end = λ e. cc;
      }),
    )
  ]

  shown-Shows :
      (k n : ℕ) (p : Pager)
      → IsWalked total name n p.chain
      → k < n
      → Shows (suc k) (shown fetch size (suc k) (some (pages k)) (next_of k) p).0
  unfolding shown
  shown-Shows k n p v here = elim (dec_lt (k + 1) total) [
    | yes more ↦
        rw (lt→ltb (k + 1) total more, paged.name_pos (k + 1) (omega arith) more)
          (let (m, w) = longer-IsWalked k n p.chain v here more in
            record {
              page = refl;
              has_more = sym (lt→ltb (suc k) total (omega arith));
              loading = refl;
              pages_known = m;
              walked = w;
            })
    | no last ↦ rw (not_lt→ltb (k + 1) total last) (record {
      page = refl;
      has_more = sym (not_lt→ltb (suc k) total (omega arith));
      loading = refl;
      pages_known = suc k;
      walked = record {
        cursors = rw v.cursors (take-names name n (suc k) (omega arith));
        some_page = omega arith;
        in_range = omega (arith, v.in_range);
        at_end = λ e. omega (arith, v.in_range);
      };
    })
  ]

  show_page-Shows :
      (k n : ℕ) (p : Pager)
      → IsWalked total name n p.chain
      → (suc k ≤ n) ⊎ (n ≡ total)
      → (q : Pager) × (show_page fetch filters size (suc k) p (entry_cursor p.chain.cursors (suc k))
          ≡ (q, some (if ltb k total then pages k else [])))
        × Shows (suc k) q
        × (q.page_ref ≡ p.page_ref)
  unfolding show_page show_answer shown
  show_page-Shows k n p v reach = elim (dec_lt k n) [
    | yes here ↦ (
      (shown fetch size (suc k) (some (pages k)) (next_of k) p).0,
      rw (
        ap (λ l. get_elem? l k) v.cursors ∙ get_elem?-names name n k here,
        paged.answers p.calls k (omega (arith, v.in_range)),
        lt→ltb k total (omega (arith, v.in_range)),
      ),
      shown-Shows k n p v here,
      refl,
    )
    | no past ↦
        let e : n ≡ total = omega arith in
        (
          record p {
            page = suc k;
            has_more = false;
            loaded = (suc k - 1) * size + 0;
            loading = false;
          },
          rw (
            get_elem?-names_ge p.chain.cursors k
                (omega (arith, ap length v.cursors, length-names name n)),
            not_lt→ltb k total (omega arith),
          ),
          record {
            page = refl;
            has_more = sym (not_lt→ltb (suc k) total (omega arith));
            loading = refl;
            pages_known = n;
            walked = v;
          },
          refl,
        )
  ]

  -- A request belongs to the window that the chain was built for.
  abbrev IsSameWindow : String → Pager → Type 0
  IsSameWindow key p = (not (key == p.chain.filter_key) || not (eqb size p.chain.page_size)) ≡ false

  open_window-IsWalked :
      (key : String) (n : ℕ) (p : Pager)
      → (IsSameWindow key p → IsWalked total name n p.chain × (0 < p.page_ref))
      → (m : ℕ) × IsWalked total name m (open_window key size p).chain
        × (0 < (open_window key size p).page_ref)
  unfolding open_window
  open_window-IsWalked key n p same =
      elim (Bool-cases (not (key == p.chain.filter_key) || not (eqb size p.chain.page_size))) [
        | inl other ↦
            let first : "" ≡ name 0 = sym paged.name_zero in
            (
              1,
              rw other (record {
                cursors = ap (λ c. c ∷ []) first;
                some_page = omega arith;
                in_range = omega (arith, paged.total_pos);
                at_end = λ e. cc;
              }),
              rw other (omega arith),
            )
        | inr kept ↦ (n, rw kept (same kept).0, rw kept (same kept).1)
      ]

  served :
      (want m : ℕ) (q : Pager)
      → 0 < want
      → IsWalked total name m q.chain
      → (r : Pager) × (after_walk fetch filters size want
            (walk fetch (want + 1) filters size want q)
          ≡ (r, some (if ltb (want - 1) total then pages (want - 1) else [])))
        × Shows want r
        × (r.page_ref ≡ q.page_ref)
  unfolding after_walk
  served zero m q pos v = absurd (omega arith)
  served (suc k) m q pos v =
      let (c, calls, n, run, walked, reach) =
        walk-IsWalked fetch filters size (suc k) pages total name paged (suc k + 1) m q
          (omega arith) v (inr (omega arith)) in
      let one : suc k - 1 ≡ k = omega arith in
      let (r, shows, at, ref) =
        show_page-Shows k n (record q { chain = c; calls = calls }) walked reach in
      (r, rw (run, one) shows, at, ref)

  -- Over a list that stands still, and for a pager whose chain, if it is one for these filters and this
  -- size, holds the list's cursors, a request of the table shows the page that its pager is at: page 1
  -- where the filters or the page size have changed, else the page that a button went to. The rows
  -- are those of that page, none past the end; more is offered exactly if a page follows; and the
  -- pager is left so that the next request is answered in the same way.
  pub request-Shows :
      (stringify : F → String) (page_size : Option ℕ) (default_page_size n : ℕ) (p : Pager)
      → get_or page_size default_page_size ≡ size
      → (IsSameWindow (stringify filters) p → IsWalked total name n p.chain × (0 < p.page_ref))
      → let want = (open_window (stringify filters) size p).page_ref in
        (q : Pager) × (request fetch stringify default_page_size
            (record { filters = filters; page_size = page_size })
            p
          ≡ (q, some (if ltb (want - 1) total then pages (want - 1) else [])))
        × Shows want q
        × (q.page_ref ≡ want)
  unfolding request
  request-Shows stringify page_size default n p sized fits =
      let q = open_window (stringify filters) size p in
      let (m, v, pos) = open_window-IsWalked (stringify filters) n p fits in
      rw sized (served q.page_ref m (record q { loading = true }) pos v)
