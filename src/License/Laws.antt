-- ===== src/License/Laws.antt =====
-- The made-up device's form, the reports of the console, and what the keys' page sends and shows.
use Prim.Native.Char.{Char}
use Prim.Native.String.{[], ◌∷◌, ◌++◌}
use testkit_service.Prelude.{
  ℕ, ◌+◌, ◌%◌, ◌<◌, ◌≤◌, String, true, false, Option, none, some, ◌≡◌, ◌⊎◌, inl, inr, refl, arith,
  Bool-cases, get_or,
}
use testkit_service.Browser.{Browser, ok, Failure, Request}
use testkit_service.Browser.Laws.{caught}
use testkit_service.Request.{Server, call}
use testkit_service.Services.{show_key}
use testkit_service.Submit.{data_message}
use testkit_service.License.{KeyInfo, KeysPage, show_detail}
use testkit_service.License.Console.{run, hex_digit, same_char, replace_xy, uuid_form, random_uuid}

-- What may stand where the form has this character.
abbrev pub Stands : Char → Char → Type 0
Stands p c =
    ((same_char p "x" ≡ true) × ((n : ℕ) × (n < 16) × (c ≡ hex_digit n)))
    ⊎ (((same_char p "y" ≡ true) × ((n : ℕ) × (8 ≤ n) × (n < 12) × (c ≡ hex_digit n)))
        ⊎ ((same_char p "x" ≡ false) × (same_char p "y" ≡ false) × (c ≡ p)))

-- A text follows a form character by character, and is as long.
abbrev pub Follows : String → String → Type 0
Follows [] [] = Unit
Follows [] (c ∷ cs) = ⊥
Follows (p ∷ ps) [] = ⊥
Follows (p ∷ ps) (c ∷ cs) = Stands p c × Follows ps cs

module _ (draws : ℕ → ℕ) (below : (i : ℕ) → draws i < 16) where
  replace_xy-Follows : (i : ℕ) (form : String) → Follows form (replace_xy draws i form)
  unfolding replace_xy
  replace_xy-Follows i [] = tt
  replace_xy-Follows i (p ∷ ps) = elim (Bool-cases (same_char p "x")) [
    | inl x ↦ rw x (inl (x, (draws i, below i, refl)), replace_xy-Follows (i + 1) ps)
    | inr no_x ↦ elim (Bool-cases (same_char p "y")) [
      | inl y ↦
          rw (no_x, y)
            (
              inr (inl (y, (draws i % 4 + 8, omega arith, omega arith, refl))),
              replace_xy-Follows (i + 1) ps,
            )
      | inr no_y ↦ rw (no_x, no_y) (inr (inr (no_x, no_y, refl)), replace_xy-Follows i ps)
    ]
  ]

  -- Where the browser has no UUID of its own and each draw is below 16, the made-up device token follows
  -- the form of a random UUID: hexadecimal digits and dashes in their places, the version 4, and a digit
  -- of the variant between 8 and b.
  pub random_uuid-Follows : Follows uuid_form (random_uuid none draws)
  unfolding random_uuid
  random_uuid-Follows = replace_xy-Follows 0 uuid_form

module _ {A : Type 0} (show_ : Option A → String) (text_of : Failure → String) (label : String)
    (server : Server (Option A)) (req : Request) (w : Browser) where
  -- A call of the console comes to an end with a report, whatever the server does and even where storage
  -- cannot be read: it throws nothing, and the report is the answer's with the sign of success, or a
  -- failure's, with its message.
  pub run-IsReported :
      ((a : Option A) × ((run show_ text_of label server req w).0
          ≡ ok ("✓ " ++ (label ++ ("\n" ++ show_ a)))))
      ⊎ ((e : Failure) × ((run show_ text_of label server req w).0
            ≡ ok ("✗ " ++ (label ++ ("\n" ++ get_or (data_message e) (text_of e))))))
  unfolding run
  run-IsReported = caught _ _ (call server req w)

-- The details of a key are shown whatever the server does: the key of its answer, or the row's.
pub show_detail-IsShown :
    (server : Server (Option KeyInfo)) (r : KeyInfo) (page : KeysPage) (w : Browser)
    → (k : KeyInfo) × ((show_detail server r page w).0 ≡ ok (record page { detail = some k }))
unfolding show_detail
show_detail-IsShown server r page w =
    elim (caught (λ resp. record page { detail = some (get_or resp r) })
      (λ _. record page { detail = some r }) (call server (show_key (get_or r.license_id "")) w)) [
        | inl (resp, e) ↦ (get_or resp r, e)
        | inr (f, e) ↦ (r, e)
      ]
