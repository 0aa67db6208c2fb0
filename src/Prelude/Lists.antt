-- ===== src/Prelude/Lists.antt =====
-- Lists measured by native numbers, Boolean filters and searches, and predicates by recursion.
use Prim.Native.Nat.{ℕ, zero, suc, ◌+◌}
use Prim.Native.String.{String}
use mathlib.Core.Path.{◌≡◌, refl, ap}
use mathlib.Core.Bool.{Bool, true, false, ◌&&◌, ◌||◌}
use mathlib.Core.Logic.{◌⊎◌, ◌↔◌, inl, inr}
use mathlib.Core.List.{List, [], ◌∷◌, ◌++◌}
use mathlib.Core.Option.{Option, none, some}
use native.Mathlib.Omega.{arith}
use text.Mathlib.Text.{◌==◌}
use testkit_service.Prelude.Tests.{if◌then◌else◌, Bool-cases}

module _ {ℓ} {A : Type ℓ} where
  abbrev pub length : List A → ℕ
  length [] = 0
  length (x ∷ xs) = suc (length xs)

  abbrev pub get_elem? : List A → ℕ → Option A
  get_elem? [] i = none
  get_elem? (x ∷ xs) zero = some x
  get_elem? (x ∷ xs) (suc i) = get_elem? xs i

  abbrev pub take : ℕ → List A → List A
  take zero xs = []
  take (suc n) [] = []
  take (suc n) (x ∷ xs) = x ∷ take n xs

  -- `xs.filter(p)`, `xs.some(p)`, `xs.every(p)`
  abbrev pub keep : (A → Bool) → List A → List A
  keep p [] = []
  keep p (x ∷ xs) = if p x then x ∷ keep p xs else keep p xs

  abbrev pub any : (A → Bool) → List A → Bool
  any p [] = false
  any p (x ∷ xs) = p x || any p xs

  abbrev pub all : (A → Bool) → List A → Bool
  all p [] = true
  all p (x ∷ xs) = p x && all p xs

  abbrev pub first : List A → Option A
  first [] = none
  first (x ∷ xs) = some x

  pub length-append : (xs ys : List A) → length (xs ++ ys) ≡ length xs + length ys
  length-append [] ys = omega arith
  length-append (x ∷ xs) ys = omega (arith, length-append xs ys)

module _ {ℓ κ} {A : Type ℓ} (P : A → Type κ) where
  abbrev pub All : List A → Type κ
  All [] = Unit
  All (x ∷ xs) = P x × All xs

-- Membership of a text in a list, as a sum that the tactics open.
abbrev pub Holds : String → List String → Type 0
Holds k [] = ⊥
Holds k (x ∷ xs) = (x ≡ k) ⊎ Holds k xs

-- `xs.includes(k)` on texts
abbrev pub includes : List String → String → Bool
includes [] k = false
includes (x ∷ xs) k = x == k || includes xs k

-- A type with no element at each level.
pub data Bottom {ℓ} : Type ℓ where

module _ {ℓ} {A : Type ℓ} where
  -- Membership as a sum, which the tactics open.
  abbrev pub Listed : A → List A → Type ℓ
  Listed r [] = Bottom
  Listed r (x ∷ xs) = (x ≡ r) ⊎ Listed r xs

  -- What a filter keeps.
  pub Listed-keep :
      (p : A → Bool) (xs : List A) (r : A) → Listed r (keep p xs) ↔ (Listed r xs × (p r ≡ true))
  Listed-keep p [] r = (λ h. elim h [ ], λ h. elim (h.0) [ ])
  Listed-keep p (x ∷ xs) r = elim (Bool-cases (p x)) [
    | inl yes_p ↦ rw yes_p (ground (arith, Listed-keep p xs r, yes_p))
    | inr no_p ↦ rw no_p (ground (arith, Listed-keep p xs r, no_p))
  ]

  -- A Boolean search over a list, read as a statement about its elements.
  pub all_elim : (f : A → Bool) (xs : List A) (x : A) → all f xs ≡ true → Listed x xs → f x ≡ true
  all_elim f [] x h m = elim m [ ]
  all_elim f (y ∷ ys) x h (inl e) = ground (arith, ap f e)
  all_elim f (y ∷ ys) x h (inr m) = all_elim f ys x (ground arith) m

  pub any_elim :
      (f : A → Bool) (xs : List A) → any f xs ≡ true → (x : A) × Listed x xs × (f x ≡ true)
  any_elim f [] h = cc
  any_elim f (y ∷ ys) h = elim (Bool-cases (f y)) [
    | inl here ↦ (y, inl refl, here)
    | inr there ↦ let (x, m, e) = any_elim f ys (ground arith) in (x, inr m, e)
  ]
