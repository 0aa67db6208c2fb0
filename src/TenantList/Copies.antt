-- ===== src/TenantList/Copies.antt =====
-- Copies of a table's rows: what an update of both, or of the table alone, leaves equal.
use mathlib.Core.Path.{subst}
use testkit_service.Prelude.{
  String, Bool, true, false, Option, none, some, List, [], ◌∷◌, map, ◌≡◌, refl, sym, ap, ◌∙◌, arith,
  eq_iff, Bool-cases, inl, inr, All, Listed,
}
use testkit_service.TenantList.{Row, same_key}
use testkit_service.TenantList.Page.{update_row, update_drawer}

pub same_key_trans : (a b c : Option String) → same_key a b ≡ true → same_key a c ≡ same_key b c
same_key_trans none none c h = refl
same_key_trans (some x) (some y) c h = ground (arith, eq_iff x y)
same_key_trans none (some y) c h = cc
same_key_trans (some x) none c h = cc

pub update_row-key :
    (key : Option String) (f : Row → Row) (r : Row)
    → (f r).tenant_key ≡ r.tenant_key
    → (update_row key f r).tenant_key ≡ r.tenant_key
update_row-key key f r same = elim (Bool-cases (same_key r.tenant_key key)) [
  | inl hit ↦ simp hit same
  | inr miss ↦ simp miss refl
]

-- The keys of the rows are all different.
abbrev pub IsUnique : List Row → Type 0
IsUnique [] = Unit
IsUnique (r ∷ rows) =
    All (λ (s : Row). same_key s.tenant_key r.tenant_key ≡ false) rows × IsUnique rows

true≢false : {b : Bool} → b ≡ true → b ≡ false → ⊥
true≢false p q = cc

same_key_sym : (a b : Option String) → same_key b a ≡ same_key a b
same_key_sym none none = refl
same_key_sym (some x) (some y) = ground (arith, eq_iff x y, eq_iff y x)
same_key_sym none (some y) = refl
same_key_sym (some x) none = refl

apart_sym :
    (d r : Row)
    → same_key d.tenant_key r.tenant_key ≡ false
    → same_key r.tenant_key d.tenant_key ≡ false
apart_sym d r h = same_key_sym d.tenant_key r.tenant_key ∙ h

All_elim {ℓ} : (P : Row → Type ℓ) (d : Row) (rows : List Row) → All P rows → Listed d rows → P d
All_elim P d [] h m = elim m [ ]
All_elim P d (r ∷ rows) h (inl e) = subst P e h.0
All_elim P d (r ∷ rows) h (inr m) = All_elim P d rows h.1 m

module _ {ℓ} {A : Type ℓ} (shown : Row → A) where
  -- The drawer shows what every row of its tenant shows.
  abbrev pub Shows : Option Row → List Row → Type ℓ
  Shows none rows = Unit
  Shows (some d) rows =
      All (λ r. same_key r.tenant_key d.tenant_key ≡ true → shown r ≡ shown d) rows

  -- a row and the drawer's, updated alike
  shown-update :
      (key : Option String) (f : Row → Row)
      → ((r : Row) → (f r).tenant_key ≡ r.tenant_key)
      → ((r d : Row) → shown r ≡ shown d → shown (f r) ≡ shown (f d))
      → (r d : Row) → (same_key r.tenant_key d.tenant_key ≡ true → shown r ≡ shown d)
      → same_key (update_row key f r).tenant_key (update_row key f d).tenant_key ≡ true
      → shown (update_row key f r) ≡ shown (update_row key f d)
  shown-update key f same congr r d h m =
      let e : same_key r.tenant_key d.tenant_key ≡ true =
        ap (λ k. same_key k d.tenant_key) (sym (update_row-key key f r (same r)))
        ∙ ap (λ k. same_key (update_row key f r).tenant_key k)
            (sym (update_row-key key f d (same d)))
        ∙ m in
      let both : same_key r.tenant_key key ≡ same_key d.tenant_key key =
        same_key_trans r.tenant_key d.tenant_key key e in
      elim (Bool-cases (same_key d.tenant_key key)) [
        | inl hit ↦ simp (both, hit) (congr r d (h e))
        | inr miss ↦ simp (both, miss) (h e)
      ]

  -- one update of the table and of the drawer
  pub Shows-update :
      (key : Option String) (f : Row → Row)
      → ((r : Row) → (f r).tenant_key ≡ r.tenant_key)
      → ((r d : Row) → shown r ≡ shown d → shown (f r) ≡ shown (f d))
      → (o : Option Row) (rows : List Row) → Shows o rows
      → Shows (update_drawer key f o) (map (update_row key f) rows)
  Shows-update key f same congr none rows h = tt
  Shows-update key f same congr (some d) [] h = tt
  Shows-update key f same congr (some d) (r ∷ rows) h =
      (shown-update key f same congr r d h.0, Shows-update key f same congr (some d) rows h.1)

  -- an update of the table that the drawer does not show
  shown-other :
      (key : Option String) (f : Row → Row)
      → ((r : Row) → shown (f r) ≡ shown r)
      → (r : Row) → shown (update_row key f r) ≡ shown r
  shown-other key f keeps r = elim (Bool-cases (same_key r.tenant_key key)) [
    | inl hit ↦ simp hit (keeps r)
    | inr miss ↦ simp miss refl
  ]

  pub Shows-other :
      (key : Option String) (f : Row → Row)
      → ((r : Row) → (f r).tenant_key ≡ r.tenant_key)
      → ((r : Row) → shown (f r) ≡ shown r)
      → (o : Option Row) (rows : List Row) → Shows o rows
      → Shows o (map (update_row key f) rows)
  Shows-other key f same keeps none rows h = tt
  Shows-other key f same keeps (some d) [] h = tt
  Shows-other key f same keeps (some d) (r ∷ rows) h = (
    λ m.
        shown-other key f keeps r
        ∙ h.0 (ap (λ k. same_key k d.tenant_key) (sym (update_row-key key f r (same r))) ∙ m),
    Shows-other key f same keeps (some d) rows h.1,
  )

  -- a row of the table is opened
  Shows-apart :
      (d : Row) (rows : List Row)
      → All (λ (s : Row). same_key s.tenant_key d.tenant_key ≡ false) rows
      → Shows (some d) rows
  Shows-apart d [] h = tt
  Shows-apart d (r ∷ rows) h = (λ m. absurd (true≢false m h.0), Shows-apart d rows h.1)

  pub Shows-open : (d : Row) (rows : List Row) → IsUnique rows → Listed d rows → Shows (some d) rows
  Shows-open d [] u m = elim m [ ]
  Shows-open d (r ∷ rows) u (inl e) =
      subst (λ (x : Row). Shows (some x) (r ∷ rows)) e (λ m. refl, Shows-apart r rows u.0)
  Shows-open d (r ∷ rows) u (inr m) = (
    λ same. absurd (true≢false same (apart_sym d r (All_elim _ d rows u.0 m))),
    Shows-open d rows u.1 m,
  )
