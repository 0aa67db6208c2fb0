-- ===== src/Cursor/Window.antt =====
-- The query window that a pager's chain belongs to: a request takes the chain to its own window and
-- leaves it there.
use testkit_service.Prelude.{
  ℕ, zero, suc, ◌+◌, String, Bool, true, false, Option, none, some, ◌≡◌, refl, arith, Bool-cases,
  inl, inr, eqb, ◌==◌, ◌||◌, not, truthy, eq_iff, get_or, ltb, ◌&&◌, length, or_undefined,
}
use testkit_service.Cursor.{
  Answer, answered, rejected, Pager, Params, Walked, arrived, failed, out_of_fuel, walk, walk_round,
  extended, open_window, shown, show_answer, show_page, after_walk, request, entry_cursor,
  last_cursor,
}

-- The chain is one for this filter text and this page size.
pub record IsWindow (key : String) (size : ℕ) (p : Pager) : Type 0 where
  pub filter_key : p.chain.filter_key ≡ key
  pub page_size : p.chain.page_size ≡ size

pub open_window-IsWindow :
    (key : String) (size : ℕ) (p : Pager) → IsWindow key size (open_window key size p)
unfolding open_window
open_window-IsWindow key size p =
    elim (Bool-cases (not (key == p.chain.filter_key) || not (eqb size p.chain.page_size))) [
      | inl other ↦ rw other (record { filter_key = refl; page_size = refl })
      | inr same ↦ rw same (record {
        filter_key = ground (arith, eq_iff key p.chain.filter_key);
        page_size = ground arith;
      })
    ]

abbrev pub pager_of : Walked → Pager
pager_of (arrived p) = p
pager_of (failed p) = p
pager_of (out_of_fuel p) = p

module _ {T F : Type 0} (fetch : ℕ → F → Option String → ℕ → Answer T) (filters : F) (size want : ℕ)
    (key : String) (window : ℕ) where
  extended-IsWindow :
      (p : Pager) (next : Option String)
      → IsWindow key window p
      → IsWindow key window (extended fetch p next)
  extended-IsWindow p next w = elim (Bool-cases (truthy next)) [
    | inl more ↦ rw more (record { filter_key = w.filter_key; page_size = w.page_size })
    | inr last ↦ rw last (record { filter_key = w.filter_key; page_size = w.page_size })
  ]

  walk-IsWindow :
      (fuel : ℕ) (p : Pager)
      → IsWindow key window p
      → IsWindow key window (pager_of (walk fetch fuel filters size want p))
  unfolding walk
  walk-IsWindow zero p w = w
  walk-IsWindow (suc fuel) p w =
      by_round (walk-IsWindow fuel) (not p.chain.ended && ltb (length p.chain.cursors) want)
        (fetch p.calls filters (or_undefined (last_cursor p.chain.cursors)) size)
    where
      by_round :
          ((q : Pager)
            → IsWindow key window q
            → IsWindow key window (pager_of (walk fetch fuel filters size want q)))
          → (b : Bool) (a : Answer T)
          → IsWindow key window (
              pager_of (
                walk_round fetch b a
                  (λ next. walk fetch fuel filters size want (extended fetch p next))
                  p))
      by_round ih false a = w
      by_round ih true rejected = record { filter_key = w.filter_key; page_size = w.page_size }
      by_round ih true (answered items next) =
          ih (extended fetch p next) (extended-IsWindow p next w)

  show_page-IsWindow :
      (p : Pager) (entry : Option String)
      → IsWindow key window p
      → IsWindow key window (show_page fetch filters size want p entry).0
  unfolding show_page show_answer shown
  show_page-IsWindow p none w = record { filter_key = w.filter_key; page_size = w.page_size }
  show_page-IsWindow p (some entry) w =
      by_answer (fetch p.calls filters (or_undefined (some entry)) size)
    where
      by_answer : (a : Answer T) → IsWindow key window (show_answer fetch size want p a).0
      by_answer rejected = record { filter_key = w.filter_key; page_size = w.page_size }
      by_answer (answered items next) = elim (Bool-cases (truthy next)) [
        | inl more ↦ rw more (record { filter_key = w.filter_key; page_size = w.page_size })
        | inr last ↦ rw last (record { filter_key = w.filter_key; page_size = w.page_size })
      ]

  after_walk-IsWindow :
      (q : Walked)
      → IsWindow key window (pager_of q)
      → IsWindow key window (after_walk fetch filters size want q).0
  unfolding after_walk
  after_walk-IsWindow (out_of_fuel p) w = w
  after_walk-IsWindow (failed p) w = record { filter_key = w.filter_key; page_size = w.page_size }
  after_walk-IsWindow (arrived p) w = show_page-IsWindow p (entry_cursor p.chain.cursors want) w

-- A request leaves the pager in the window that it asks for, whatever the fetches answer.
pub request-IsWindow :
    {T F : Type 0} (fetch : ℕ → F → Option String → ℕ → Answer T) (stringify : F → String)
    (default_page_size : ℕ) (params : Params F) (p : Pager)
    → IsWindow
        (stringify params.filters)
        (get_or params.page_size default_page_size)
        (request fetch stringify default_page_size params p).0
unfolding request
request-IsWindow fetch stringify default_page_size params p =
    let size = get_or params.page_size default_page_size in
    let key = stringify params.filters in
    let q = open_window key size p in
    let opened = open_window-IsWindow key size p in
    after_walk-IsWindow fetch params.filters size q.page_ref key size
      (walk fetch (q.page_ref + 1) params.filters size q.page_ref (record q { loading = true }))
      (walk-IsWindow fetch params.filters size q.page_ref key size (q.page_ref + 1)
        (record q { loading = true })
        (record { filter_key = opened.filter_key; page_size = opened.page_size }))
