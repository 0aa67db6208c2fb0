-- ===== src/Cursor/Names.antt =====
-- The list of the first cursors of a chain, by number.
use testkit_service.Prelude.{
  ℕ, zero, suc, ◌<◌, ◌≤◌, String, none, some, List, [], ◌∷◌, ◌++◌, ◌≡◌, refl, ap, arith, length,
  length-append, get_elem?, take, ◌∙◌,
}
use native.Mathlib.Decide.{dec_lt}
use testkit_service.Cursor.{last_cursor}

-- The cursors of the first `m` pages, in order.
abbrev pub names : (ℕ → String) → ℕ → List String
names name zero = []
names name (suc m) = names name m ++ name m ∷ []

pub length-names : (name : ℕ → String) (m : ℕ) → length (names name m) ≡ m
length-names name zero = refl
length-names name (suc m) =
    omega (arith, length-append (names name m) (name m ∷ []), length-names name m)

get_elem?-append_lt :
    (xs ys : List String) (i : ℕ) → i < length xs → get_elem? (xs ++ ys) i ≡ get_elem? xs i
get_elem?-append_lt [] ys i h = elim h [ ]
get_elem?-append_lt (x ∷ xs) ys zero h = refl
get_elem?-append_lt (x ∷ xs) ys (suc i) h = get_elem?-append_lt xs ys i (omega arith)

get_elem?-append_eq :
    (xs : List String) (y : String) (i : ℕ) → i ≡ length xs → get_elem? (xs ++ y ∷ []) i ≡ some y
get_elem?-append_eq [] y i h = rw h
get_elem?-append_eq (x ∷ xs) y zero h = absurd (omega arith)
get_elem?-append_eq (x ∷ xs) y (suc i) h = get_elem?-append_eq xs y i (omega arith)

pub get_elem?-names :
    (name : ℕ → String) (m i : ℕ) → i < m → get_elem? (names name m) i ≡ some (name i)
get_elem?-names name zero i h = elim h [ ]
get_elem?-names name (suc m) i h = elim (dec_lt i m) [
  | yes below ↦
      get_elem?-append_lt (names name m) (name m ∷ []) i (omega (arith, length-names name m))
      ∙ get_elem?-names name m i below
  | no above ↦
      let same : i ≡ m = omega arith in
      rw same (get_elem?-append_eq (names name m) (name m) m (omega (arith, length-names name m)))
]

-- Past the end there is none.
pub get_elem?-names_ge : (xs : List String) (i : ℕ) → length xs ≤ i → get_elem? xs i ≡ none
get_elem?-names_ge [] i h = refl
get_elem?-names_ge (x ∷ xs) zero h = absurd (omega arith)
get_elem?-names_ge (x ∷ xs) (suc i) h = get_elem?-names_ge xs i (omega arith)

last_cursor-append : (xs : List String) (y : String) → last_cursor (xs ++ y ∷ []) ≡ some y
last_cursor-append [] y = refl
last_cursor-append (x ∷ []) y = refl
last_cursor-append (x ∷ z ∷ xs) y = last_cursor-append (z ∷ xs) y

pub last_cursor-names :
    (name : ℕ → String) (m : ℕ) → last_cursor (names name (suc m)) ≡ some (name m)
last_cursor-names name m = last_cursor-append (names name m) (name m)

take-append : (xs ys : List String) (n : ℕ) → n ≤ length xs → take n (xs ++ ys) ≡ take n xs
take-append xs ys zero h = refl
take-append [] ys (suc n) h = absurd (omega arith)
take-append (x ∷ xs) ys (suc n) h = ap (λ l. x ∷ l) (take-append xs ys n (omega arith))

take_all : (xs : List String) (n : ℕ) → length xs ≤ n → take n xs ≡ xs
take_all [] zero h = refl
take_all [] (suc n) h = refl
take_all (x ∷ xs) zero h = absurd (omega arith)
take_all (x ∷ xs) (suc n) h = ap (λ l. x ∷ l) (take_all xs n (omega arith))

pub take-names : (name : ℕ → String) (m n : ℕ) → n ≤ m → take n (names name m) ≡ names name n
take-names name zero n h = let e : n ≡ 0 = omega arith in rw e
take-names name (suc m) n h = elim (dec_lt n (suc m)) [
  | yes below ↦
      take-append (names name m) (name m ∷ []) n (omega (arith, length-names name m))
      ∙ take-names name m n (omega arith)
  | no above ↦
      let same : n ≡ suc m = omega arith in
      rw same (take_all (names name (suc m)) (suc m) (omega (arith, length-names name (suc m))))
]
