-- ===== src/Cursor/Walk.antt =====
-- The loop that walks the chain: it ends, and over a list that stands still it collects the cursors
-- of the pages in order.
use testkit_service.Prelude.{
  ℕ, zero, suc, ◌+◌, ◌≤◌, ◌<◌, String, Bool, true, false, Option, none, some, List, [], ◌∷◌, ◌≡◌,
  ◌≢◌, refl, ap, ◌∙◌, ◌⊎◌, inl, inr, arith, length, length-append, ltb, lt→ltb, not_lt→ltb, not,
  ◌&&◌, truthy, or_undefined, nonempty, get_or, Bool-cases, if◌then◌else◌,
}
use native.Mathlib.Decide.{dec_lt}
use testkit_service.Cursor.{
  Answer, answered, rejected, Chain, Pager, arrived, failed, out_of_fuel, extended, walk,
  last_cursor,
}
use testkit_service.Cursor.Names.{names, length-names, last_cursor-names}

module _ {T F : Type 0} (fetch : ℕ → F → Option String → ℕ → Answer T) (filters : F)
    (size want : ℕ) where
  abbrev pub continues : Pager → Bool
  continues p = not p.chain.ended && ltb (length p.chain.cursors) want

  -- One round of the loop, by its test and by what the fetch answers.
  pub walk_stop :
      (fuel : ℕ) (p : Pager)
      → continues p ≡ false
      → walk fetch (suc fuel) filters size want p ≡ arrived p
  unfolding walk
  walk_stop fuel p stop = rw stop

  abbrev pub asked : Pager → Answer T
  asked p = fetch p.calls filters (or_undefined (last_cursor p.chain.cursors)) size

  pub walk_next :
      (fuel : ℕ) (p : Pager) (items : Option (List T)) (next : Option String)
      → continues p ≡ true
      → asked p ≡ answered items next
      → walk fetch (suc fuel) filters size want p
        ≡ walk fetch fuel filters size want (extended fetch p next)
  unfolding walk
  walk_next fuel p items next go_on answer = rw (go_on, answer)

  walk_rejected :
      (fuel : ℕ) (p : Pager)
      → continues p ≡ true
      → asked p ≡ rejected
      → walk fetch (suc fuel) filters size want p ≡ failed (record p { calls = p.calls + 1 })
  unfolding walk
  walk_rejected fuel p go_on answer = rw (go_on, answer)

  nearer :
      (fuel : ℕ) (p : Pager) (next : Option String)
      → continues p ≡ true
      → (p.chain.ended ≡ true) ⊎ (want < suc fuel + length p.chain.cursors)
      → ((extended fetch p next).chain.ended ≡ true)
        ⊎ (want < fuel + length (extended fetch p next).chain.cursors)
  nearer fuel p next go_on enough =
      ground (arith, length-append p.chain.cursors (get_or next "" ∷ []), Bool-cases (truthy next))

  -- Whatever the fetches answer, the loop stops by its own test or by a rejection, if the fuel is
  -- more than the pages that are missing.
  pub walk-ne-out_of_fuel :
      (fuel : ℕ) (p q : Pager)
      → 0 < fuel
      → (p.chain.ended ≡ true) ⊎ (want < fuel + length p.chain.cursors)
      → walk fetch fuel filters size want p ≢ out_of_fuel q
  walk-ne-out_of_fuel zero p q pos enough = absurd (omega arith)
  walk-ne-out_of_fuel (suc fuel) p q pos enough = elim (Bool-cases (continues p)) [
    | inr stop ↦ rw (walk_stop fuel p stop) (λ e. cc)
    | inl go_on ↦ by_answer (walk-ne-out_of_fuel fuel) (asked p) refl go_on
  ]
    where
      by_answer :
          ((p' q' : Pager)
            → 0 < fuel
            → (p'.chain.ended ≡ true) ⊎ (want < fuel + length p'.chain.cursors)
            → walk fetch fuel filters size want p' ≢ out_of_fuel q')
          → (a : Answer T) → asked p ≡ a
          → continues p ≡ true
          → walk fetch (suc fuel) filters size want p ≢ out_of_fuel q
      by_answer ih rejected e go_on = rw (walk_rejected fuel p go_on e) (λ h. cc)
      by_answer ih (answered items next) e go_on =
          rw (walk_next fuel p items next go_on e)
            (ih (extended fetch p next) q (ground arith) (nearer fuel p next go_on enough))

-- A list that stands still: `total` pages, each with its cursor; the first one's is "", and a page's
-- answer names the next page's cursor, if there is one.
pub record IsPaged {T F : Type 0} (fetch : ℕ → F → Option String → ℕ → Answer T) (filters : F)
    (size : ℕ) (pages : ℕ → List T) (total : ℕ) (name : ℕ → String) : Type 0 where
  pub total_pos : 0 < total
  pub name_zero : name 0 ≡ ""
  pub name_pos : (i : ℕ) → 0 < i → i < total → nonempty (name i) ≡ true
  pub answers :
      (calls i : ℕ)
      → i < total
      → fetch calls filters (or_undefined (some (name i))) size
        ≡ answered (some (pages i)) (if ltb (i + 1) total then some (name (i + 1)) else none)

-- The chain holds the cursors of the first `m` pages, and has ended only at the last page.
pub record IsWalked (total : ℕ) (name : ℕ → String) (m : ℕ) (c : Chain) : Type 0 where
  pub cursors : c.cursors ≡ names name m
  pub some_page : 0 < m
  pub in_range : m ≤ total
  pub at_end : c.ended ≡ true → m ≡ total

module _ {T F : Type 0} (fetch : ℕ → F → Option String → ℕ → Answer T) (filters : F) (size want : ℕ)
    (pages : ℕ → List T) (total : ℕ) (name : ℕ → String)
    (paged : IsPaged fetch filters size pages total name) where
  abbrev next_of : ℕ → Option String
  next_of k = if ltb (k + 1) total then some (name (k + 1)) else none

  asked_page :
      (k : ℕ) (p : Pager)
      → IsWalked total name (suc k) p.chain
      → asked fetch filters size want p ≡ answered (some (pages k)) (next_of k)
  asked_page k p v =
      rw (v.cursors, last_cursor-names name k) (paged.answers p.calls k (omega (arith, v.in_range)))

  -- A round that goes on adds the next page's cursor, or finds that there is none.
  extended-IsWalked :
      (k : ℕ) (p : Pager)
      → IsWalked total name (suc k) p.chain
      → (n : ℕ) × IsWalked total name n (extended fetch p (next_of k)).chain
  extended-IsWalked k p v = elim (dec_lt (k + 1) total) [
    | yes more ↦
        let one : k + 1 ≡ suc k = omega arith in
        (
          suc (suc k),
          rw (lt→ltb (k + 1) total more, paged.name_pos (k + 1) (omega arith) more)
              (record {
                cursors = rw (one, v.cursors);
                some_page = omega arith;
                in_range = omega arith;
                at_end = λ e. absurd (omega (arith, v.at_end e));
              }),
        )
    | no last ↦
        let e : suc k ≡ total = omega (arith, v.in_range) in
        (
          total,
          rw (not_lt→ltb (k + 1) total last) (record {
            cursors = v.cursors ∙ ap (names name) e;
            some_page = paged.total_pos;
            in_range = omega arith;
            at_end = λ e. refl;
          }),
        )
  ]

  -- The loop arrives, with enough cursors for the page that is wanted or with all of them; only the
  -- chain and the number of calls have changed.
  abbrev pub Arrives : ℕ → Pager → Type 0
  Arrives fuel p =
      (c : Chain) × (calls : ℕ) × (n : ℕ) × (walk fetch fuel filters size want p
        ≡ arrived (record p { chain = c; calls = calls }))
      × IsWalked total name n c
      × ((want ≤ n) ⊎ (n ≡ total))

  stopped :
      (m : ℕ) (p : Pager)
      → IsWalked total name m p.chain
      → continues fetch filters size want p ≡ false
      → (want ≤ m) ⊎ (m ≡ total)
  stopped m p v stop =
      ground (arith, v.at_end, ap length v.cursors, length-names name m, Bool-cases p.chain.ended)

  pub walk-IsWalked :
      (fuel m : ℕ) (p : Pager)
      → 0 < fuel
      → IsWalked total name m p.chain
      → (p.chain.ended ≡ true) ⊎ (want < fuel + length p.chain.cursors)
      → Arrives fuel p
  walk-IsWalked zero m p pos v enough = absurd (omega arith)
  walk-IsWalked (suc fuel) zero p pos v enough = absurd (omega (arith, v.some_page))
  walk-IsWalked (suc fuel) (suc k) p pos v enough =
      elim (Bool-cases (continues fetch filters size want p)) [
        | inr stop ↦ (
          p.chain,
          p.calls,
          suc k,
          walk_stop fetch filters size want fuel p stop,
          v,
          stopped (suc k) p v stop,
        )
        | inl go_on ↦
            let (n, v') = extended-IsWalked k p v in
            let (c, calls, n', run, w, reach) =
              walk-IsWalked fuel n (extended fetch p (next_of k)) (ground arith) v'
                (nearer fetch filters size want fuel p (next_of k) go_on enough) in
            (
              c,
              calls,
              n',
              walk_next fetch filters size want fuel p (some (pages k)) (next_of k) go_on
                    (asked_page k p v)
                  ∙ run,
              w,
              reach,
            )
      ]
