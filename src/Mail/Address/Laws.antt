-- ===== src/Mail/Address/Laws.antt =====
-- A name and an address, written as a tag, are read back.
use Prim.Native.Char.{Char, char, code}
use Prim.Native.String.{String, [], ◌∷◌, ◌++◌}
use text.Mathlib.TextLemmas.{cons-append, nil-append, append_assoc}
use testkit_service.Prelude.{
  Bool, true, false, none, some, ◌≡◌, refl, sym, ap, ◌∙◌, arith, eqb, not, ◌&&◌,
}
use testkit_service.Mail.Text.{
  is_newline, is_space, is_empty, every, trim, trim_start, trim_end, trim_end-blank, trim_end-solid,
  is_empty-append,
}
use testkit_service.Mail.Address.{angle_end, split_angle, parse_address_tag}

-- The text of a tag: `name <email>`.
abbrev pub address_tag : (name email : String) → String
address_tag name email = name ++ " <" ++ email ++ ">"

abbrev is_inner : Char → Bool
is_inner c = not (eqb (code c) b'<') && not (eqb (code c) b'>')

-- A name that can be written: not empty, no blank at its ends, no line terminator.
pub record IsName (name : String) : Type 0 where
  pub filled : is_empty name ≡ false
  pub starts : trim_start (name ++ " ") ≡ name ++ " "
  pub ends : trim_end name ≡ name
  pub one_line : every (λ c. not (is_newline c)) name ≡ true

angle_end-inner :
    (email : String) → every is_inner email ≡ true → angle_end (email ++ ">") ≡ some email
unfolding angle_end
angle_end-inner [] h = refl
angle_end-inner (c ∷ s) h =
    let other : eqb (code c) b'>' ≡ false = ground arith in
    let other' : eqb (code c) b'<' ≡ false = ground arith in
    rw (cons-append c s ">", other, other', angle_end-inner s (ground arith))

-- No bracketed end begins before another opening bracket.
angle_end-open : (s t : String) → angle_end (s ++ char 60 tt ∷ t) ≡ none
unfolding angle_end
angle_end-open [] t = rw (nil-append (char 60 tt ∷ t))
angle_end-open (c ∷ s) t =
    rw (cons-append c s (char 60 tt ∷ t), angle_end-open s t, is_empty-append s (char 60 tt) t)
      (ground arith)

split_angle-tag :
    (name email : String)
    → every is_inner email ≡ true
    → is_empty email ≡ false
    → split_angle (name ++ char 60 tt ∷ (email ++ ">")) ≡ some (name, email)
unfolding split_angle
split_angle-tag [] email inner full =
    rw (nil-append (char 60 tt ∷ (email ++ ">")), angle_end-inner email inner, full)
split_angle-tag (c ∷ s) email inner full =
    rw
      (
        cons-append c s (char 60 tt ∷ (email ++ ">")),
        split_angle-tag s email inner full,
        angle_end-open s (email ++ ">"),
      )
      (ground arith)

tag-shape :
    (name email : String) → address_tag name email ≡ (name ++ " ") ++ char 60 tt ∷ (email ++ ">")
tag-shape name email =
    let x = email ++ ">" in
    let short : " <" ++ x ≡ char 32 tt ∷ char 60 tt ∷ x =
      cons-append (char 32 tt) "<" x
      ∙ ap (λ t. char 32 tt ∷ t)
          (cons-append (char 60 tt) "" x ∙ ap (λ t. char 60 tt ∷ t) (nil-append x)) in
    let long : " " ++ (char 60 tt ∷ x) ≡ char 32 tt ∷ char 60 tt ∷ x =
      cons-append (char 32 tt) "" (char 60 tt ∷ x)
      ∙ ap (λ t. char 32 tt ∷ t) (nil-append (char 60 tt ∷ x)) in
    ap (λ t. name ++ t) (short ∙ sym long) ∙ sym (append_assoc name " " (char 60 tt ∷ x))

trim_end-tag : (name email : String) → trim_end (address_tag name email) ≡ address_tag name email
unfolding is_space
trim_end-tag name email =
    let shape : address_tag name email ≡ (name ++ (" <" ++ email)) ++ ">" =
      ap (λ t. name ++ t) (sym (append_assoc " <" email ">"))
      ∙ sym (append_assoc name (" <" ++ email) ">") in
    rw shape (trim_end-solid (name ++ (" <" ++ email)) (char 62 tt) refl)

trim-name : (name : String) → IsName name → trim (name ++ " ") ≡ name
unfolding trim is_space
trim-name name n = rw (n.starts, trim_end-blank name (char 32 tt) refl) n.ends

-- A display name and an address, written as `name <email>`, are read back as they were: for a name that
-- is not empty, has no blank at its ends and no line terminator, and an address that is not empty and
-- has no angle bracket.
pub parse_address_tag-address_tag :
    (name email : String)
    → IsName name
    → every is_inner email ≡ true
    → is_empty email ≡ false
    → parse_address_tag (address_tag name email)
      ≡ record { email = email; display_name = some name }
unfolding parse_address_tag trim
parse_address_tag-address_tag name email n inner full = rw (
  trim_end-tag name email,
  tag-shape name email,
  split_angle-tag (name ++ " ") email inner full,
  trim-name name n,
  n.one_line,
  n.filled,
)
