-- ===== src/Mail/Text.antt =====
-- JavaScript's blanks, `trim`, and replacement of a pattern's matches, on texts.
use Prim.Native.Char.{Char, code}
use Prim.Native.String.{String, [], ◌∷◌, ◌++◌}
use text.Mathlib.TextLemmas.{cons-append, nil-append}
use testkit_service.Prelude.{
  ℕ, zero, suc, ◌+◌, Bool, true, false, ◌≡◌, arith, eqb, leb, ◌||◌, ◌&&◌, if◌then◌else◌,
}

-- `\s`, and the line terminators, which `.` does not match
unfoldable pub is_newline : Char → Bool
is_newline c = eqb (code c) 10 || eqb (code c) 13 || eqb (code c) 8232 || eqb (code c) 8233

unfoldable pub is_space : Char → Bool
is_space c =
    (leb 9 (code c) && leb (code c) 13)
    || eqb (code c) 32
    || eqb (code c) 160
    || eqb (code c) 5760
    || (leb 8192 (code c) && leb (code c) 8202)
    || eqb (code c) 8232
    || eqb (code c) 8233
    || eqb (code c) 8239
    || eqb (code c) 8287
    || eqb (code c) 12288
    || eqb (code c) 65279

abbrev pub is_empty : String → Bool
is_empty [] = true
is_empty (c ∷ s) = false

-- `[...text].length`
unfoldable pub size : String → ℕ
size [] = 0
size (c ∷ s) = size s + 1

abbrev pub every : (Char → Bool) → String → Bool
every p [] = true
every p (c ∷ s) = p c && every p s

-- `s.trim()`
unfoldable pub trim_start : String → String
trim_start [] = []
trim_start (c ∷ s) = let rest = trim_start s in if is_space c then rest else c ∷ s

unfoldable pub trim_end : String → String
trim_end [] = []
trim_end (c ∷ s) = let rest = trim_end s in if is_space c && is_empty rest then [] else c ∷ rest

unfoldable pub trim : String → String
trim s = trim_end (trim_start s)

-- `s.replace(/…/g, w)` for a pattern given by the length of its match at the start of a text, zero for
-- none; `skip` counts the characters that are left of a match
abbrev replaced : String → (ℕ → String) → Char → ℕ → String
replaced w rest c zero = c ∷ rest zero
replaced w rest c (suc n) = w ++ rest n

unfoldable pub replace_matches : (String → ℕ) → String → ℕ → String → String
replace_matches match w skip [] = []
replace_matches match w (suc skip) (c ∷ s) = replace_matches match w skip s
replace_matches match w zero (c ∷ s) =
    replaced w (λ k. replace_matches match w k s) c (match (c ∷ s))

pub is_empty-append : (s : String) (c : Char) (t : String) → is_empty (s ++ c ∷ t) ≡ false
is_empty-append [] c t = rw (nil-append (c ∷ t))
is_empty-append (d ∷ s) c t = rw (cons-append d s (c ∷ t))

-- A blank at the end, and none there, for `trim_end`.
pub trim_end-blank :
    (s : String) (c : Char) → is_space c ≡ true → trim_end (s ++ c ∷ []) ≡ trim_end s
unfolding trim_end
trim_end-blank [] c h = rw (nil-append (c ∷ [])) (rw h)
trim_end-blank (d ∷ s) c h = rw (cons-append d s (c ∷ [])) (rw (trim_end-blank s c h))

pub trim_end-solid :
    (s : String) (c : Char) → is_space c ≡ false → trim_end (s ++ c ∷ []) ≡ s ++ c ∷ []
unfolding trim_end
trim_end-solid [] c h = rw (nil-append (c ∷ [])) (rw h)
trim_end-solid (d ∷ s) c h =
    rw (cons-append d s (c ∷ [])) (rw (trim_end-solid s c h, is_empty-append s c []) (ground arith))
