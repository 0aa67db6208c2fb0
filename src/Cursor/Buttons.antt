-- ===== src/Cursor/Buttons.antt =====
-- The pager as a whole against its specification: a page number that three buttons move.
use testkit_service.Prelude.{
  ℕ, lt→ltb, ◌+◌, ◌-◌, ◌<◌, ◌≤◌, String, Bool, true, false, Option, List, [], ◌∷◌, ◌≡◌, refl, arith,
  Bool-cases, inl, inr, ◌||◌, not, leb, ltb, get_or, if◌then◌else◌, sym, eq_refl,
}
use mathlib.Core.Path.{subst}
use testkit_service.Cursor.{
  go, Answer, Pager, Params, open_window, request, go_first, go_previous, go_next,
}
use testkit_service.Cursor.Walk.{IsPaged, IsWalked}
use testkit_service.Cursor.Pages.{Shows, request-Shows}
use testkit_service.Cursor.Window.{IsWindow, request-IsWindow}

pub data Button : Type 0 where
  first previous next : Button

-- What a click does to the pager, and whether the button takes it.
abbrev pub press : Button → Pager → Pager
press first p = go_first p
press previous p = go_previous p
press next p = go_next p

abbrev pub is_enabled : Button → Pager → Bool
is_enabled first p = not (leb p.page 1 || p.loading)
is_enabled previous p = not (leb p.page 1 || p.loading)
is_enabled next p = not (not p.has_more || p.loading)

-- The specification: the page number, of `total` pages.
abbrev pub turned : ℕ → Button → ℕ → ℕ
turned total first page = 1
turned total previous page = if leb page 1 then page else page - 1
turned total next page = if ltb page total then page + 1 else page

abbrev pub turns : ℕ → List Button → ℕ → ℕ
turns total [] page = page
turns total (b ∷ bs) page = turns total bs (turned total b page)

module _ {T F : Type 0} (fetch : ℕ → F → Option String → ℕ → Answer T) (filters : F) (size : ℕ)
    (pages : ℕ → List T) (total : ℕ) (name : ℕ → String)
    (paged : IsPaged fetch filters size pages total name) (stringify : F → String)
    (page_size : Option ℕ) (default_page_size : ℕ) where
  -- A click on a button: the table reloads, and shows the rows of the request that does not throw.
  unfoldable pub reload : List T → Pager → Pager × List T
  reload rows p =
      let r =
        request fetch stringify default_page_size
          (record { filters = filters; page_size = page_size }) p in
      (r.0, get_or r.1 rows)

  unfoldable pub click : Button → Pager × List T → Pager × List T
  unfolding reload
  click b (p, rows) = if is_enabled b p then reload rows (press b p) else (p, rows)

  unfoldable pub clicks : List Button → Pager × List T → Pager × List T
  clicks [] s = s
  clicks (b ∷ bs) s = clicks bs (click b s)

  -- The console shows page `page`: its rows, its number, and whether there is a next one.
  pub record IsViewing (page : ℕ) (s : Pager × List T) : Type 0 where
    pub window : IsWindow (stringify filters) size s.0
    pub shows : Shows fetch filters size pages total name paged page s.0
    pub rows : s.1 ≡ pages (page - 1)
    pub first_page : 0 < page
    pub last_page : page ≤ total

  open_window_same :
      (p : Pager) → IsWindow (stringify filters) size p → open_window (stringify filters) size p ≡ p
  unfolding open_window
  open_window_same p w =
      rw (w.filter_key, w.page_size) (ground (arith, eq_refl (stringify filters)))

  reload-IsViewing :
      (n t : ℕ) (rows : List T) (p : Pager)
      → get_or page_size default_page_size ≡ size
      → p.page_ref ≡ t
      → IsWindow (stringify filters) size p
      → IsWalked total name n p.chain
      → 0 < t
      → t ≤ total
      → IsViewing t (reload rows p)
  unfolding reload
  reload-IsViewing n t rows p sized ref w walked pos below =
      let (q, run, shows, same) =
        request-Shows fetch filters size pages total name paged stringify page_size
          default_page_size n p sized (λ _. (walked, omega arith)) in
      let want : (open_window (stringify filters) size p).page_ref ≡ t =
        rw (open_window_same p w) ref in
      let key = stringify filters in
      let params : Params F = record { filters = filters; page_size = page_size } in
      let window : IsWindow key size q =
        subst (λ r. IsWindow key size r.0) run
          (subst (λ k. IsWindow key k (request fetch stringify default_page_size params p).0) sized
            (request-IsWindow fetch stringify default_page_size params p)) in
      let shows' = subst (λ k. Shows fetch filters size pages total name paged k q) want shows in
      subst (λ r. IsViewing t (r.0, get_or r.1 rows)) (sym run)
        (record {
          window = window;
          shows = shows';
          rows = rw (want, lt→ltb (t - 1) total (omega arith));
          first_page = pos;
          last_page = below;
        })

  -- A button that is taken asks for the page that the specification turns to.
  pressed :
      (b : Button) (page : ℕ) (s : Pager × List T)
      → IsViewing page s
      → is_enabled b s.0 ≡ true
      → press b s.0 ≡ record (s.0) { page_ref = turned total b page }
  unfolding go go_first go_previous go_next
  pressed first page s v on =
      let off : (leb (s.0).page 1 || (s.0).loading) ≡ false = ground arith in rw off
  pressed previous page s v on =
      let off : (leb (s.0).page 1 || (s.0).loading) ≡ false = ground arith in
      let more : leb page 1 ≡ false = ground (arith, v.shows.page) in rw (off, v.shows.page, more)
  pressed next page s v on =
      let off : (not (s.0).has_more || (s.0).loading) ≡ false = ground arith in
      let more : ltb page total ≡ true = ground (arith, v.shows.has_more) in
      rw (off, v.shows.page, more)

  idle :
      (b : Button) (page : ℕ) (s : Pager × List T)
      → IsViewing page s
      → is_enabled b s.0 ≡ false
      → turned total b page ≡ page
  idle first page s v off = ground (arith, v.shows.page, v.shows.loading, v.first_page)
  idle previous page s v off = ground (arith, v.shows.page, v.shows.loading)
  idle next page s v off = ground (arith, v.shows.page, v.shows.loading, v.shows.has_more)

  turned-cases :
      (b : Button) (page : ℕ)
      → 0 < page
      → page ≤ total
      → (0 < turned total b page) × (turned total b page ≤ total)
  turned-cases first page pos below = omega arith
  turned-cases previous page pos below = ground arith
  turned-cases next page pos below = ground arith

  click-IsViewing :
      (b : Button) (page : ℕ) (s : Pager × List T)
      → get_or page_size default_page_size ≡ size
      → IsViewing page s
      → IsViewing (turned total b page) (click b s)
  unfolding click
  click-IsViewing b page s sized v = elim (Bool-cases (is_enabled b s.0)) [
    | inr off ↦ rw (off, idle b page s v off) v
    | inl on ↦
        rw (on, pressed b page s v on)
          (reload-IsViewing v.shows.pages_known (turned total b page) s.1
            (record (s.0) { page_ref = turned total b page }) sized refl
            (record { filter_key = v.window.filter_key; page_size = v.window.page_size })
            v.shows.walked (turned-cases b page v.first_page v.last_page).0
            (turned-cases b page v.first_page v.last_page).1)
  ]

  -- The pager implements its specification: over a list that stands still, whatever buttons are clicked
  -- in a row, the console that showed a page shows the page that the specification turns to: its rows,
  -- its number, and whether there is a next one.
  pub clicks-IsViewing :
      (bs : List Button) (page : ℕ) (s : Pager × List T)
      → get_or page_size default_page_size ≡ size
      → IsViewing page s
      → IsViewing (turns total bs page) (clicks bs s)
  unfolding clicks
  clicks-IsViewing [] page s sized v = v
  clicks-IsViewing (b ∷ bs) page s sized v =
      clicks-IsViewing bs (turned total b page) (click b s) sized (click-IsViewing b page s sized v)
