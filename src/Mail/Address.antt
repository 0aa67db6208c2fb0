-- ===== src/Mail/Address.antt =====
-- Recipients of the compose page: parseAddressTag and EMAIL_RE.
pub mod Laws
use Prim.Native.Char.{code}
use Prim.Native.String.{String, [], ◌∷◌}
use mathlib.Core.Option.{map}
use testkit_service.Prelude.{
  Bool, true, false, Option, none, some, eqb, not, ◌&&◌, ◌||◌, if◌then◌else◌,
}
use testkit_service.Mail.Text.{is_newline, is_space, is_empty, every, trim, trim_end}

pub record Address : Type 0 where
  pub email : String
  pub display_name : Option String

-- `([^<>]+)>$`, for a part that may be empty: the part before the closing bracket
unfoldable pub angle_end : String → Option String
angle_end [] = none
angle_end (c ∷ s) =
    let rest = angle_end s in
    if eqb (code c) b'>'
    then (if is_empty s then some [] else none)
    else (if eqb (code c) b'<' then none else map (λ inner. c ∷ inner) rest)

abbrev full_inner : Option String → Option String
full_inner none = none
full_inner (some inner) = if is_empty inner then none else some inner

abbrev or_later : Option String → Option (String × String) → Option (String × String)
or_later none later = later
or_later (some inner) later = some ([], inner)

-- the text before `<` and the one between the brackets, of a text that ends with `<…>`
unfoldable pub split_angle : String → Option (String × String)
unfolding angle_end
split_angle [] = none
split_angle (c ∷ s) =
    let later = map (λ (p : String × String). (c ∷ p.0, p.1)) (split_angle s) in
    if eqb (code c) b'<' then or_later (full_inner (angle_end s)) later else later

-- What a match of the pattern gives: the name has no line terminator but at its blank ends.
abbrev named : String → Option (String × String) → Address
named tag none = record { email = trim tag; display_name = none }
named tag (some (before, inner)) =
    let name = trim before in
    if every (λ c. not (is_newline c)) name
    then record { email = inner; display_name = if is_empty name then none else some name }
    else record { email = trim tag; display_name = none }

-- parseAddressTag
unfoldable pub parse_address_tag : String → Address
parse_address_tag tag = named tag (split_angle (trim_end tag))

-- EMAIL_RE: no blank and one `@`; a dot inside what follows it
abbrev is_plain : Prim.Native.Char.Char → Bool
is_plain c = not (is_space c) && not (eqb (code c) b'@')

unfoldable pub is_domain : Bool → String → Bool
is_domain started [] = false
is_domain started (c ∷ s) =
    let rest = is_domain true s in
    is_plain c && ((started && eqb (code c) b'.' && not (is_empty s) && every is_plain s) || rest)

unfoldable pub is_email_from : Bool → String → Bool
is_email_from started [] = false
is_email_from started (c ∷ s) =
    let rest = is_email_from true s in
    if eqb (code c) b'@' then started && is_domain false s else not (is_space c) && rest

abbrev pub is_email : String → Bool
is_email s = is_email_from false s
