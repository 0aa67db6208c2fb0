-- ===== src/Cursor.antt =====
-- web/src/components/CursorPager.tsx: pages of a list that is read by cursors. A fetch is a parameter:
-- it may answer differently at each call, and may be rejected. Filters are any type with a text.
pub mod Names
pub mod Walk
pub mod Pages
pub mod Window
pub mod Buttons
pub mod Race
use testkit_service.Prelude.{
  ℕ, zero, suc, ◌+◌, ◌-◌, ◌*◌, String, Bool, true, false, Option, none, some, List, [], ◌∷◌, ◌++◌,
  ◌==◌, ◌&&◌, ◌||◌, not, eqb, ltb, leb, length, get_elem?, take, truthy, or_undefined, get_or,
  if◌then◌else◌,
}

-- What a fetch resolves to.
pub data Answer (T : Type 0) : Type 0 where
  answered : (items : Option (List T)) (next_cursor : Option String) → Answer T
  rejected : Answer T

-- the ref `chain`
pub record Chain : Type 0 where
  pub cursors : List String
  pub filter_key : String
  pub page_size : ℕ
  pub ended : Bool

-- the hook's refs and state; `calls` counts the fetches that were made
pub record Pager : Type 0 where
  pub chain : Chain
  pub page_ref : ℕ
  pub page : ℕ
  pub has_more : Bool
  pub loaded : ℕ
  pub loading : Bool
  pub calls : ℕ

abbrev pub first_page : Chain
first_page = record { cursors = "" ∷ []; filter_key = ""; page_size = 0; ended = false }

-- the initial refs and state
unfoldable pub new_pager : Pager
new_pager = record {
  chain = first_page;
  page_ref = 1;
  page = 1;
  has_more = false;
  loaded = 0;
  loading = false;
  calls = 0;
}

-- `cursors[cursors.length - 1]`
abbrev pub last_cursor : List String → Option String
last_cursor [] = none
last_cursor (c ∷ []) = some c
last_cursor (c ∷ d ∷ cs) = last_cursor (d ∷ cs)

-- `cursors[want - 1]`
abbrev pub entry_cursor : List String → ℕ → Option String
entry_cursor cursors zero = none
entry_cursor cursors (suc n) = get_elem? cursors n

-- `current` and `pageSize` of the parameters are taken out; what is left are the filters
pub record Params (F : Type 0) : Type 0 where
  pub filters : F
  pub page_size : Option ℕ

-- the start of a request: a new filter or size restarts the chain at page 1
unfoldable pub open_window : String → ℕ → Pager → Pager
open_window filter_key page_size p =
    if not (filter_key == p.chain.filter_key) || not (eqb page_size p.chain.page_size)
    then record p {
      chain = record {
        cursors = "" ∷ [];
        filter_key = filter_key;
        page_size = page_size;
        ended = false;
      };
      page_ref = 1;
    }
    else p

-- how the loop that walks the chain stops: it is done, a fetch was rejected, or the fuel ran out
pub data Walked : Type 0 where
  arrived failed out_of_fuel : Pager → Walked

module _ {T F : Type 0} (fetch : ℕ → F → Option String → ℕ → Answer T) where
  -- one round's effect on the chain
  abbrev pub extended : Pager → Option String → Pager
  extended p next = record p {
    calls = p.calls + 1;
    chain =
        if truthy next
        then record (p.chain) { cursors = p.chain.cursors ++ get_or next "" ∷ [] }
        else record (p.chain) { ended = true };
  }

  -- a round of the loop, by its test and by the answer of the fetch that it makes
  abbrev pub walk_round : Bool → Answer T → (Option String → Walked) → Pager → Walked
  walk_round false answer rest p = arrived p
  walk_round true rejected rest p = failed (record p { calls = p.calls + 1 })
  walk_round true (answered items next) rest p = rest next

  -- `while (!c.ended && c.cursors.length < want)`
  unfoldable pub walk : ℕ → F → ℕ → ℕ → Pager → Walked
  walk zero filters page_size want p = out_of_fuel p
  walk (suc fuel) filters page_size want p =
      walk_round (not p.chain.ended && ltb (length p.chain.cursors) want)
        (fetch p.calls filters (or_undefined (last_cursor p.chain.cursors)) page_size)
        (λ next. walk fuel filters page_size want (extended p next)) p

  -- the state after the page's own fetch
  unfoldable pub shown : ℕ → ℕ → Option (List T) → Option String → Pager → Pager × List T
  shown page_size want items next p =
      let data_ = get_or items [] in
      let c = p.chain in
      let longer =
        if eqb (length c.cursors) want then c.cursors ++ get_or next "" ∷ [] else c.cursors in
      let chain' =
        if truthy next
        then record c { cursors = longer; ended = false }
        else record c { ended = true; cursors = take want c.cursors } in
      (
        record p {
          chain = chain';
          page = want;
          has_more = truthy next;
          loaded = (want - 1) * page_size + length data_;
          loading = false;
          calls = p.calls + 1;
        },
        data_,
      )

  -- the page's own fetch: what its answer leaves, and the rows; `none` is a throw
  unfoldable pub show_answer : ℕ → ℕ → Pager → Answer T → Pager × Option (List T)
  unfolding shown
  show_answer page_size want p rejected = (record p { loading = false; calls = p.calls + 1 }, none)
  show_answer page_size want p (answered items next) =
      ((shown page_size want items next p).0, some (shown page_size want items next p).1)

  -- the `if (entry !== undefined)`
  unfoldable pub show_page : F → ℕ → ℕ → Pager → Option String → Pager × Option (List T)
  show_page filters page_size want p none = (
    record p {
      page = want;
      has_more = false;
      loaded = (want - 1) * page_size + 0;
      loading = false;
    },
    some [],
  )
  show_page filters page_size want p (some entry) =
      show_answer page_size want p (fetch p.calls filters (or_undefined (some entry)) page_size)

  -- what `request` does once the chain has been walked; `none` is a throw
  unfoldable pub after_walk : F → ℕ → ℕ → Walked → Pager × Option (List T)
  after_walk filters page_size want (out_of_fuel p) = (p, none)
  after_walk filters page_size want (failed p) = (record p { loading = false }, none)
  after_walk filters page_size want (arrived p) =
      show_page filters page_size want p (entry_cursor p.chain.cursors want)

  -- request; the walk makes at most `page_ref` rounds
  unfoldable pub request : (F → String) → ℕ → Params F → Pager → Pager × Option (List T)
  request stringify default_page_size params p =
      let page_size = get_or params.page_size default_page_size in
      let q = open_window (stringify params.filters) page_size p in
      let want = q.page_ref in
      after_walk params.filters page_size want
        (walk (want + 1) params.filters page_size want (record q { loading = true }))

-- go: the reload that follows is the table's next request
unfoldable pub go : ℕ → Pager → Pager
go page p = record p { page_ref = page }

-- the buttons 回到首页, 上一页 and 下一页: the page that each goes to, unless it is disabled
unfoldable pub go_first : Pager → Pager
unfolding go
go_first p = if leb p.page 1 || p.loading then p else go 1 p

unfoldable pub go_previous : Pager → Pager
unfolding go
go_previous p = if leb p.page 1 || p.loading then p else go (p.page - 1) p

unfoldable pub go_next : Pager → Pager
unfolding go
go_next p = if not p.has_more || p.loading then p else go (p.page + 1) p
