-- ===== src/Mail/Send/Checks.antt =====
-- The checks of handleSend before a send: the empty body, and the template parameters.
use Prim.Native.String as Text
use text.Mathlib.TextLemmas.{cons-append}
use testkit_service.Prelude.{
  String, Bool, true, false, Option, none, some, ◌≡◌, ◌≢◌, ◌↔◌, ◌⊎◌, inl, inr, refl, arith, ◌&&◌,
  ◌||◌, sym, ◌∙◌, nonempty, nonempty_iff, nonempty_of_ne, get_or, Bool-cases, Option-cases,
}
use testkit_service.Sms.{Parsed}
use testkit_service.Mail.Text.{is_empty, trim, trim_start, trim_end}
use testkit_service.Mail.PlainText.{wrap_html_document, html_to_plain_text, has_html, document_head}
use testkit_service.Mail.Send.{
  ComposeFormValues, SendPage, is_without_body, plain_body, template_object,
}

and_false : (b : Bool) → b && false ≡ false
and_false b = ground arith

empty_text : (s : String) → is_empty s ≡ true → s ≡ ""
empty_text Text.[] h = refl
empty_text (Text.◌∷◌ c s) h = cc

html_to_plain_text-blank :
    (html : String) → is_empty (trim html) ≡ true → html_to_plain_text html ≡ ""
unfolding html_to_plain_text
html_to_plain_text-blank html h = rw h

-- Where the composed text and the plain text are blank, but the composed text holds a blank, the check
-- for an empty body lets the email pass, with an empty plain body.
pub is_without_body-blank :
    (vals : ComposeFormValues) (page : SendPage)
    → is_empty (trim page.html_content) ≡ true
    → page.html_content ≢ ""
    → is_empty (trim (get_or vals.plain_text_body "")) ≡ true
    → (is_without_body vals page ≡ false) × (plain_body vals page ≡ "")
unfolding is_without_body wrap_html_document plain_body
is_without_body-blank vals page blank some_ own = (
  rw (blank, nonempty_of_ne page.html_content some_) (and_false _),
  rw (empty_text _ own) (html_to_plain_text-blank page.html_content blank),
)

-- The two texts that were typed for the body.
abbrev pub own_text : ComposeFormValues → String
own_text vals = trim (get_or vals.plain_text_body "")

append-ne : (s t : String) → is_empty s ≡ false → nonempty (Text.◌++◌ s t) ≡ true
append-ne Text.[] t h = cc
append-ne (Text.◌∷◌ c s) t h = rw (cons-append c s t) (nonempty_of_ne _ (λ e. cc))

pub wrap_html_document-ne : (html : String) → html ≢ "" → nonempty (wrap_html_document html) ≡ true
unfolding wrap_html_document
wrap_html_document-ne html ne = elim (Bool-cases (is_empty (trim html) || has_html html)) [
  | inl as_is ↦ rw as_is (nonempty_of_ne html ne)
  | inr framed ↦ rw framed (append-ne document_head _ refl)
]

pub wrap_html_document-nil : wrap_html_document "" ≡ ""
unfolding wrap_html_document trim trim_start trim_end
wrap_html_document-nil = refl

nonempty-wrap_html_document : (html : String) → nonempty (wrap_html_document html) ≡ nonempty html
nonempty-wrap_html_document html = elim (Bool-cases (nonempty html)) [
  | inl full ↦
      wrap_html_document-ne html (λ e. ground (arith, nonempty_iff html, full, e)) ∙ sym full
  | inr none_ ↦ rw ((nonempty_iff html).0 none_, wrap_html_document-nil) refl
]

html_to_plain_text-nil : html_to_plain_text "" ≡ ""
unfolding trim trim_start trim_end
html_to_plain_text-nil = html_to_plain_text-blank "" refl

-- The check for an empty body refuses exactly a form without a text of its own and without any HTML.
pub is_without_body_iff :
    (vals : ComposeFormValues) (page : SendPage)
    → (is_without_body vals page ≡ true) ↔ ((own_text vals ≡ "") × (page.html_content ≡ ""))
unfolding is_without_body plain_body
is_without_body_iff vals page = elim (Bool-cases (nonempty page.html_content)) [
  | inl full ↦
      rw (nonempty-wrap_html_document page.html_content, full)
        (ground (arith, nonempty_iff page.html_content, full))
  | inr none_ ↦
      let nil = (nonempty_iff page.html_content).0 none_ in
      rw (nonempty-wrap_html_document page.html_content, nil, html_to_plain_text-nil)
        (elim (Bool-cases (nonempty (own_text vals))) [
          | inl own ↦ rw own (ground (arith, nonempty_iff (own_text vals), own))
          | inr blank ↦
              rw blank ((λ h. ((nonempty_iff (own_text vals)).0 blank, refl)), (λ h. refl))
        ])
]

-- Parameters that are sent: none, or the object that the text parses to.
abbrev pub IsObject : (String → Option Parsed) → Option String → String → Type 0
IsObject parse value params =
    ((trim (get_or value "") ≡ "") × (params ≡ "{}"))
    ⊎ ((trim (get_or value "") ≢ "")
        × ((v : Parsed) × (parse (get_or value "") ≡ some v)
            × (v.is_object ≡ true)
            × (params ≡ v.sent_as)))

-- A text that is not blank, and no JSON, or JSON but no object.
abbrev pub IsNoObject : (String → Option Parsed) → Option String → Type 0
IsNoObject parse value =
    (trim (get_or value "") ≢ "")
    × ((parse (get_or value "") ≡ none)
        ⊎ ((v : Parsed) × (parse (get_or value "") ≡ some v) × (v.is_object ≡ false)))

pub template_object_cases :
    (parse : String → Option Parsed) (value : Option String)
    → ((template_object parse value ≡ none) × IsNoObject parse value)
      ⊎ ((params : String) × (template_object parse value ≡ some params)
          × IsObject parse value params)
unfolding template_object
template_object_cases parse value = elim (Bool-cases (nonempty (trim (get_or value "")))) [
  | inr blank ↦
      inr ("{}", rw blank refl, inl ((nonempty_iff (trim (get_or value ""))).0 blank, refl))
  | inl given ↦
      let ne : trim (get_or value "") ≢ "" =
        ground (arith, nonempty_iff (trim (get_or value ""))) in
      elim (Option-cases (parse (get_or value ""))) [
        | inl bad ↦ inl (rw (given, bad) refl, (ne, inl bad))
        | inr (v, good) ↦ elim (Bool-cases v.is_object) [
          | inl object ↦
              inr (v.sent_as, rw (given, good, object) refl, inr (ne, (v, good, object, refl)))
          | inr other ↦ inl (rw (given, good, other) refl, (ne, inr (v, good, other)))
        ]
      ]
]
