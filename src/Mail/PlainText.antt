-- ===== src/Mail/PlainText.antt =====
-- The bodies of the compose page: wrapHtmlDocument and htmlToPlainText. A pattern is the length of its
-- match at the start of a text, zero for none.
pub mod Laws
use Prim.Native.Char.{Char, code}
use Prim.Native.String.{String, [], ◌∷◌, ◌++◌}
use mathlib.Core.List
use testkit_service.Prelude.{
  ℕ, zero, suc, ◌+◌, Bool, true, false, List, map, eqb, leb, not, ◌&&◌, ◌||◌, if◌then◌else◌,
}
use testkit_service.Mail.Text.{is_space, is_empty, size, trim, replace_matches}

-- a character under the flag `i`, and a literal under it
abbrev lowered : Char → ℕ
lowered c = if leb b'A' (code c) && leb (code c) b'Z' then code c + 32 else code c

unfoldable pub starts_with_literal : (literal : String) → String → Bool
starts_with_literal [] s = true
starts_with_literal (p ∷ ps) [] = false
starts_with_literal (p ∷ ps) (c ∷ s) =
    let rest = starts_with_literal ps s in eqb (code p) (lowered c) && rest

abbrev pub drop : ℕ → String → String
drop zero s = s
drop (suc n) [] = []
drop (suc n) (c ∷ s) = drop n s

-- how many characters at the start pass the test
abbrev leading : (Char → Bool) → String → ℕ
leading p [] = 0
leading p (c ∷ s) = let rest = leading p s in if p c then suc rest else 0

abbrev pub head_is : (Char → Bool) → String → Bool
head_is p [] = false
head_is p (c ∷ s) = p c

abbrev is_code : ℕ → Char → Bool
is_code n c = eqb (code c) n

-- `/…/gi` of a literal, and of one of several
unfoldable pub match_literal : String → String → ℕ
unfolding starts_with_literal size
match_literal literal s = if starts_with_literal literal s then size literal else 0

abbrev match_any : List String → String → ℕ
match_any List.[] s = 0
match_any (List.◌∷◌ literal literals) s =
    if eqb (match_literal literal s) 0 then match_any literals s else match_literal literal s

-- `/<br\s*\/?>/gi`
abbrev closing : String → ℕ
closing s =
    if head_is (is_code b'>') s
    then 1
    else (if head_is (is_code b'/') s && head_is (is_code b'>') (drop 1 s) then 2 else 0)

unfoldable pub match_break : String → ℕ
unfolding starts_with_literal is_space
match_break s =
    let k = leading is_space (drop 3 s) in
    let e = closing (drop (3 + k) s) in
    if starts_with_literal "<br" s && not (eqb e 0) then 3 + k + e else 0

-- `/<\/(p|div|tr|h[1-6]|li)>/gi`
abbrev blocks : List String
blocks = List.◌∷◌ "</p>" (
    List.◌∷◌ "</div>" (
      List.◌∷◌ "</tr>" (
        List.◌∷◌ "</h1>" (
          List.◌∷◌ "</h2>" (
            List.◌∷◌ "</h3>" (
              List.◌∷◌ "</h4>"
                (List.◌∷◌ "</h5>" (List.◌∷◌ "</h6>" (List.◌∷◌ "</li>" List.[])))))))))

unfoldable pub match_block : String → ℕ
unfolding match_literal
match_block s = match_any blocks s

-- `/<[^>]+>/g`
unfoldable pub match_tag : String → ℕ
match_tag s =
    let k = leading (λ c. not (is_code b'>' c)) (drop 1 s) in
    if head_is (is_code b'<') s && not (eqb k 0) && head_is (is_code b'>') (drop (suc k) s)
    then k + 2
    else 0

-- `/[ \t]+/g` and `/\n{3,}/g`
unfoldable pub match_blanks : String → ℕ
match_blanks s = leading (λ c. is_code 32 c || is_code 9 c) s

unfoldable pub match_newlines : String → ℕ
match_newlines s = let k = leading (is_code 10) s in if leb 3 k then k else 0

-- `s.split("\n").map((line) => line.trim()).join("\n")`
abbrev extended : Char → List String → List String
extended c List.[] = List.◌∷◌ (c ∷ []) List.[]
extended c (List.◌∷◌ line lines) = List.◌∷◌ (c ∷ line) lines

unfoldable pub split_lines : String → List String
split_lines [] = List.◌∷◌ [] List.[]
split_lines (c ∷ s) =
    let rest = split_lines s in if is_code 10 c then List.◌∷◌ [] rest else extended c rest

unfoldable pub join_lines : List String → String
join_lines List.[] = []
join_lines (List.◌∷◌ line List.[]) = line
join_lines (List.◌∷◌ line (List.◌∷◌ next lines)) = line ++ "\n" ++ join_lines (List.◌∷◌ next lines)

abbrev replace : (String → ℕ) → String → String → String
replace match w s = replace_matches match w 0 s

-- htmlToPlainText, in the order of its steps
unfoldable pub html_to_plain_text : String → String
unfolding replace_matches trim match_literal match_break match_block match_tag match_blanks
    match_newlines split_lines join_lines
html_to_plain_text html =
    let broken = replace match_block "\n" (replace match_break "\n" html) in
    let bare = replace match_tag "" broken in
    let spaced = replace (match_literal "&amp;") "&" (replace (match_literal "&nbsp;") " " bare) in
    let angled = replace (match_literal "&gt;") ">" (replace (match_literal "&lt;") "<" spaced) in
    let quoted = replace (match_literal "&quot;") "\"" angled in
    let lines = join_lines (map trim (split_lines (replace match_blanks " " quoted))) in
    if is_empty (trim html) then "" else trim (replace match_newlines "\n\n" lines)

-- `/<html[\s>]/i.test(content)`
unfoldable pub has_html : String → Bool
unfolding starts_with_literal
has_html [] = false
has_html (c ∷ s) =
    (starts_with_literal "<html" (c ∷ s)
      && head_is (λ d. is_space d || is_code b'>' d) (drop 5 (c ∷ s)))
    || has_html s

-- wrapHtmlDocument
abbrev pub document_head : String
document_head =
    "<!DOCTYPE html>\n<html lang=\"zh-CN\">\n  <head>\n    <meta charset=\"utf-8\" />\n    <meta name=\"viewport\" content=\"width=device-width, initial-scale=1.0\" />\n  </head>\n  <body style=\"margin:0;padding:0;background-color:#f0f2f5;\">"

unfoldable pub wrap_html_document : String → String
unfolding trim has_html
wrap_html_document content =
    if is_empty (trim content) || has_html content
    then content
    else document_head ++ content ++ "</body>\n</html>"
