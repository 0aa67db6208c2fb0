-- ===== src/Prelude/Values.antt =====
-- JavaScript's reading of optional texts: `!!s`, `s || d`, `s ?? d`, and objects with text fields.
use Prim.Native.String.{String}
use mathlib.Core.Bool.{Bool, true, false, not}
use mathlib.Core.List.{List, [], ◌∷◌}
use mathlib.Core.Option.{Option, none, some}
use mathlib.Core.Path.{◌≡◌, refl}
use mathlib.Core.Logic.{◌↔◌, ◌≢◌}
use native.Mathlib.Omega.{arith}
use text.Mathlib.Text.{◌==◌, starts_with}
use text.Mathlib.TextEquality.{eq_iff}
use testkit_service.Prelude.Tests.{if◌then◌else◌}

-- `!!s` for a text, and for a text that may be null or undefined
abbrev pub nonempty : String → Bool
nonempty s = not (s == "")

abbrev pub truthy : Option String → Bool
truthy none = false
truthy (some s) = nonempty s

-- `o ?? d`
abbrev pub get_or {ℓ} : {A : Type ℓ} → Option A → A → A
get_or none d = d
get_or (some a) d = a

-- `o || d`, and `o || undefined`
abbrev pub or_else : Option String → String → String
or_else o d = if truthy o then get_or o d else d

abbrev pub or_undefined : Option String → Option String
or_undefined o = if truthy o then o else none

-- `o === s`
abbrev pub is_text : Option String → String → Bool
is_text none s = false
is_text (some t) s = t == s

-- `s.startsWith(t)`, shut so that the tactics take a test as one unknown
unfoldable pub has_prefix : String → String → Bool
has_prefix s t = starts_with s t

-- An object's text fields: a read, and an assignment that keeps the order of the keys.
module _ {ℓ} {V : Type ℓ} where
  abbrev pub insert : String → V → List (String × V) → List (String × V)
  insert key value [] = (key, value) ∷ []
  insert key value (field ∷ fields) =
      if field.0 == key then (key, value) ∷ fields else field ∷ insert key value fields

  abbrev pub lookup : String → List (String × V) → Option V
  lookup key [] = none
  lookup key (field ∷ fields) = if field.0 == key then some field.1 else lookup key fields

  pub lookup-insert :
      (key j : String) (value : V) (fields : List (String × V))
      → lookup j (insert key value fields) ≡ (if key == j then some value else lookup j fields)
  lookup-insert key j value [] = refl
  lookup-insert key j value (field ∷ fields) =
      ground (
        arith,
        lookup-insert key j value fields,
        eq_iff field.0 key,
        eq_iff field.0 j,
        eq_iff key j,
      )

pub is_text_iff : (o : Option String) (s : String) → (is_text o s ≡ true) ↔ (o ≡ some s)
is_text_iff none s = ground arith
is_text_iff (some t) s = ground (arith, eq_iff t s)

pub nonempty_iff : (s : String) → (nonempty s ≡ false) ↔ (s ≡ "")
nonempty_iff s = ground (arith, eq_iff s "")

pub nonempty_of_ne : (s : String) → s ≢ "" → nonempty s ≡ true
nonempty_of_ne s h = ground (arith, eq_iff s "")
