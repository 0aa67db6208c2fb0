-- ===== src/License/Console.antt =====
-- web/src/pages/License/Console.tsx: the made-up device, and the calls of the public surface. The draws
-- are the values of Math.floor(Math.random() * 16), a function of their count.
use Prim.Native.Char.{Char, code}
use Prim.Native.String.{[], ◌∷◌, ◌++◌}
use testkit_service.Prelude.{
  ℕ, zero, suc, ◌+◌, ◌%◌, ◌||◌, String, Bool, Option, none, some, eqb, get_or, has_prefix,
  if◌then◌else◌,
}
use testkit_service.Browser.{M, pure, ◌>>=◌, catch, Failure, Request}
use testkit_service.Request.{Server, call}
use testkit_service.Submit.{data_message}

abbrev char_at : String → ℕ → Char
char_at [] n = "0"
char_at (c ∷ cs) zero = c
char_at (c ∷ cs) (suc n) = char_at cs n

-- `n.toString(16)` below 16
unfoldable pub hex_digit : ℕ → Char
hex_digit n = char_at "0123456789abcdef" n

abbrev pub same_char : Char → Char → Bool
same_char c d = eqb (code c) (code d)

-- that many draws as one text, from the draw `i` on
unfoldable pub hex_text : (draws : ℕ → ℕ) → (count i : ℕ) → String
unfolding hex_digit
hex_text draws zero i = []
hex_text draws (suc count) i = hex_digit (draws i) ∷ hex_text draws count (i + 1)

-- randomFingerprint
unfoldable pub random_fingerprint : (draws : ℕ → ℕ) → String
unfolding hex_text
random_fingerprint draws = "v1." ++ hex_text draws 64 0

-- the text's `replace(/[xy]/g, …)`; `(r & 0x3) | 0x8` is written by a remainder
unfoldable pub replace_xy : (draws : ℕ → ℕ) → (i : ℕ) → String → String
unfolding hex_digit
replace_xy draws i [] = []
replace_xy draws i (c ∷ cs) =
    let drawn = same_char c "x" || same_char c "y" in
    let rest = replace_xy draws (if drawn then i + 1 else i) cs in
    if same_char c "x"
    then hex_digit (draws i) ∷ rest
    else (if same_char c "y" then hex_digit (draws i % 4 + 8) ∷ rest else c ∷ rest)

abbrev pub uuid_form : String
uuid_form = "xxxxxxxx-xxxx-4xxx-yxxx-xxxxxxxxxxxx"

-- randomUuid; the browser's own is there or not
unfoldable pub random_uuid : (own : Option String) → (draws : ℕ → ℕ) → String
unfolding replace_xy
random_uuid (some uuid) draws = uuid
random_uuid none draws = replace_xy draws 0 uuid_form

-- run; `show` is JSON.stringify of the answer or of `{}`, and `text_of` is String of a failure. What is
-- returned is the result.
unfoldable pub run :
    {A : Type 0}
    → (show_ : Option A → String) → (text_of : Failure → String) → (label : String)
    → Server (Option A)
    → Request
    → M String
run show_ text_of label server req =
    catch (do resp ← call server req; pure ("✓ " ++ label ++ "\n" ++ show_ resp))
      (λ e. pure ("✗ " ++ label ++ "\n" ++ get_or (data_message e) (text_of e)))

-- the type of the alert
unfoldable pub alert_type : (result : String) → String
alert_type result = if has_prefix result "✓" then "success" else "error"
