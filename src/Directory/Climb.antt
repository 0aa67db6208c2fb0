-- ===== src/Directory/Climb.antt =====
-- The loop from a group to its parents: that it ends, and what it finds.
use testkit_service.Prelude.{
  ℕ, zero, suc, ◌<◌, String, Bool, true, false, Option, none, some, List, [], ◌∷◌, ◌≡◌, ◌↔◌, ◌⊎◌,
  inl, inr, refl, arith, eq_iff, includes, nonempty, Bool-cases, Option-cases, ◌==◌,
}
use mathlib.Core.Path.{subst}
use testkit_service.Directory.{RegionGroup, parent_of, climb}

full_empty : {b : Bool} → b ≡ true → b ≡ false → ⊥
full_empty p q = cc

-- A group's code and those above it, up to a group without a parent.
pub data Above (groups : List RegionGroup) : String → String → Type 0 where
  self : (a : String) → nonempty a ≡ true → Above groups a a
  up :
      (a p b : String)
      → nonempty a ≡ true
      → parent_of groups a ≡ some p
      → Above groups p b
      → Above groups a b

-- No chain of parents turns round: a parent's rank is below that of its group. No rank reaches `fuel`.
pub record IsRanked (rank : String → ℕ) (groups : List RegionGroup) (fuel : ℕ) : Type 0 where
  pub below : (a p : String) → parent_of groups a ≡ some p → nonempty p ≡ true → rank p < rank a
  pub enough : (a : String) → rank a < fuel

-- The codes that the loop adds are those above its start.
abbrev pub IsClimb : List RegionGroup → String → List String → Type 0
IsClimb groups a codes = (b : String) → (includes codes b ≡ true) ↔ Above groups a b

Above-nonempty : {groups : List RegionGroup} {a b : String} → Above groups a b → nonempty a ≡ true
Above-nonempty (self a full) = full
Above-nonempty (up a p b full e above) = full

Above-cases :
    {groups : List RegionGroup} {a b : String}
    → Above groups a b
    → (a ≡ b) ⊎ ((p : String) × (parent_of groups a ≡ some p) × Above groups p b)
Above-cases (self a full) = inl refl
Above-cases (up a p b full e above) = inr (p, e, above)

-- a group has one parent
moved :
    {groups : List RegionGroup} {o : Option String} {p q b : String}
    → o ≡ some p
    → o ≡ some q
    → Above groups q b
    → Above groups p b
moved {groups} {o} {p} {q} {b} e e' above =
    let same : q ≡ p = cc in subst (λ x. Above groups x b) same above

pub climb-none : (fuel : ℕ) (groups : List RegionGroup) → climb fuel groups none ≡ some []
unfolding climb
climb-none zero groups = refl
climb-none (suc fuel) groups = refl

climb-empty :
    (fuel : ℕ) (groups : List RegionGroup) (a : String)
    → nonempty a ≡ false
    → climb fuel groups (some a) ≡ some []
unfolding climb
climb-empty zero groups a h = rw h
climb-empty (suc fuel) groups a h = rw h

module _ (groups : List RegionGroup) (rank : String → ℕ)
    (below : (a p : String)
      → parent_of groups a ≡ some p
      → nonempty p ≡ true
      → rank p < rank a) where
  -- one round: the group itself, and what lies above its parent
  round :
      (a : String) (codes : List String)
      → nonempty a ≡ true
      → ((b : String)
          → (includes codes b ≡ true)
            ↔ ((p : String) × (parent_of groups a ≡ some p) × Above groups p b))
      → IsClimb groups a (a ∷ codes)
  round a codes full parent b = elim (Bool-cases (a == b)) [
    | inl same ↦ (λ _. subst (Above groups a) ((eq_iff a b).0 same) (self a full), λ _. rw same)
    | inr other ↦ (
      λ found.
          let (p, e, above) = (parent b).0 (ground (arith, found, other)) in up a p b full e above,
      λ above. elim (Above-cases above) [
        | inl same ↦ ground (arith, eq_iff a b, same)
        | inr further ↦ ground (arith, (parent b).1 further)
      ],
    )
  ]

  pub climb-IsClimb :
      (fuel : ℕ) (a : String)
      → rank a < fuel
      → (codes : List String) × (climb fuel groups (some a) ≡ some codes) × IsClimb groups a codes
  unfolding climb
  climb-IsClimb zero a h = elim h [ ]
  climb-IsClimb (suc fuel) a h = elim (Bool-cases (nonempty a)) [
    | inr empty ↦
        ([], rw empty, λ b. (λ e. cc, λ above. absurd (full_empty (Above-nonempty above) empty)))
    | inl full ↦ elim (Option-cases (parent_of groups a)) [
      | inl top ↦ (
        a ∷ [],
        rw (full, top, climb-none fuel groups),
        round a [] full (λ b. (λ e. cc, λ (p, e, above). cc)),
      )
      | inr (p, e) ↦ elim (Bool-cases (nonempty p)) [
        | inr blank ↦ (
          a ∷ [],
          rw (full, e, climb-empty fuel groups p blank),
          round a [] full (λ b. (
            λ m. cc,
            λ (q, e', above). absurd (full_empty (Above-nonempty (moved e e' above)) blank),
          )),
        )
        | inl more ↦
            let (codes, run, is) = climb-IsClimb fuel p (omega (arith, below a p e more)) in
            (
              a ∷ codes,
              rw (full, e, run),
              round a codes full
                  (λ b. (λ m. (p, e, (is b).0 m), λ (q, e', above). (is b).1 (moved e e' above))),
            )
      ]
    ]
  ]
