-- ===== src/Mail/Markup.antt =====
-- The download block that a large attachment adds to the body, and the escaping of its texts.
-- `decimal` stands for JavaScript's text of a natural number.
use Prim.Native.Char.{Char, code}
use Prim.Native.String.{String, [], ◌∷◌, ◌++◌}
use text.Mathlib.TextLemmas.{nil-append, cons-append, append_assoc}
use mathlib.Core.Path.{ap₂}
use testkit_service.Prelude.{
  ℕ, ◌/◌, ◌%◌, Option, none, some, ◌≡◌, ◌≢◌, refl, arith, eqb, if◌then◌else◌, Bool-cases, inl, inr,
  sym, ap, ◌∙◌,
}
use testkit_service.Mail.Size.{SizeText, in_bytes, in_kb_tenths, in_mb_tenths, format_bytes}

-- LargeAttachment
pub record LargeAttachment : Type 0 where
  pub key : ℕ
  pub filename : String
  pub url : String
  pub size_bytes : ℕ
  pub expires_days : Option ℕ

-- `text.replace(/c/g, w)` for one character c
unfoldable pub replace_char : ℕ → String → String → String
replace_char c w [] = []
replace_char c w (d ∷ s) =
    if eqb (code d) c then w ++ replace_char c w s else d ∷ replace_char c w s

-- escapeHtmlAttr
unfoldable pub escape_html_attr : String → String
unfolding replace_char
escape_html_attr text =
    replace_char b'<' "&lt;" (replace_char b'"' "&quot;" (replace_char b'&' "&amp;" text))

-- the text of `formatBytes`
unfoldable pub size_text : (ℕ → String) → SizeText → String
size_text decimal (in_bytes n) = decimal n ++ " B"
size_text decimal (in_kb_tenths t) = decimal (t / 10) ++ "." ++ decimal (t % 10) ++ " KB"
size_text decimal (in_mb_tenths t) = decimal (t / 10) ++ "." ++ decimal (t % 10) ++ " MB"

-- `att.expiresDays ? … : ""`
unfoldable pub validity_text : (ℕ → String) → Option ℕ → String
validity_text decimal none = ""
validity_text decimal (some days) = if eqb days 0 then "" else "，" ++ decimal days ++ " 天内有效"

-- largeAttachmentBlockHtml
unfoldable pub large_attachment_block_html : (ℕ → String) → LargeAttachment → String
unfolding escape_html_attr size_text validity_text format_bytes
large_attachment_block_html decimal att =
    "<div style=\"margin-top:20px;padding-top:14px;border-top:1px dashed #d9d9d9;\">\n"
    ++ "  <p style=\"margin:0 0 10px;font-size:12px;color:#8c8c8c;\">超大附件（点击下载"
    ++ validity_text decimal att.expires_days
    ++ "）：</p>\n"
    ++ "  <p style=\"margin:0;\">\n"
    ++ "    <a href=\""
    ++ escape_html_attr att.url
    ++ "\" target=\"_blank\" style=\"display:inline-block;padding:8px 16px;"
    ++ "border:1px solid #1677ff;border-radius:4px;color:#1677ff;font-size:14px;"
    ++ "text-decoration:none;\">\n      "
    ++ escape_html_attr att.filename
    ++ "（"
    ++ size_text decimal (format_bytes att.size_bytes)
    ++ "）\n    </a>\n  </p>\n</div>"

-- A text in which a character does not occur.
abbrev pub Avoids : ℕ → String → Type 0
Avoids c [] = Unit
Avoids c (d ∷ s) = (code d ≢ c) × Avoids c s

Avoids-append : (c : ℕ) (s t : String) → Avoids c s → Avoids c t → Avoids c (s ++ t)
Avoids-append c [] t h k = rw (nil-append t) k
Avoids-append c (d ∷ s) t (h, hs) k = rw (cons-append d s t) (h, Avoids-append c s t hs k)

-- A replaced character is gone.
replace_char_removes :
    (c : ℕ) (w : String) (s : String) → Avoids c w → Avoids c (replace_char c w s)
unfolding replace_char
replace_char_removes c w [] h = tt
replace_char_removes c w (d ∷ s) h = elim (Bool-cases (eqb (code d) c)) [
  | inl same ↦ rw same (Avoids-append c w (replace_char c w s) h (replace_char_removes c w s h))
  | inr other ↦ rw other (ground arith, replace_char_removes c w s h)
]

-- A character that neither text has does not come back.
replace_char-Avoids :
    (c : ℕ) (w : String) (e : ℕ) (s : String)
    → Avoids e w
    → Avoids e s
    → Avoids e (replace_char c w s)
unfolding replace_char
replace_char-Avoids c w e [] h k = tt
replace_char-Avoids c w e (d ∷ s) h (k, ks) = elim (Bool-cases (eqb (code d) c)) [
  | inl same ↦ rw same (Avoids-append e w (replace_char c w s) h (replace_char-Avoids c w e s h ks))
  | inr other ↦ rw other (k, replace_char-Avoids c w e s h ks)
]

-- An escaped text can neither end the attribute that it stands in nor open a tag: whatever the text,
-- the result has no double quote and no "<".
pub escape_html_attr-Avoids :
    (text : String) → Avoids b'"' (escape_html_attr text) × Avoids b'<' (escape_html_attr text)
unfolding escape_html_attr
escape_html_attr-Avoids text =
    let ampersands = replace_char b'&' "&amp;" text in
    let quotes = replace_char b'"' "&quot;" ampersands in
    (
      replace_char-Avoids b'<' "&lt;" b'"' quotes (omega arith)
          (replace_char_removes b'"' "&quot;" ampersands (omega arith)),
      replace_char_removes b'<' "&lt;" quotes (omega arith),
    )

-- What one character is escaped to.
unfoldable pub escape_char : Char → String
escape_char d =
    if eqb (code d) b'&'
    then "&amp;"
    else (if eqb (code d) b'"' then "&quot;" else (if eqb (code d) b'<' then "&lt;" else d ∷ []))

unfoldable pub escape_each : String → String
unfolding escape_char
escape_each [] = []
escape_each (d ∷ s) = escape_char d ++ escape_each s

replace_char-append :
    (c : ℕ) (w s t : String) → replace_char c w (s ++ t) ≡ replace_char c w s ++ replace_char c w t
unfolding replace_char
replace_char-append c w [] t = rw (nil-append t) (sym (nil-append (replace_char c w t)))
replace_char-append c w (d ∷ s) t = rw (cons-append d s t) (elim (Bool-cases (eqb (code d) c)) [
  | inl same ↦ rw same (
      rw (replace_char-append c w s t)
        (sym (append_assoc w (replace_char c w s) (replace_char c w t))))
  | inr other ↦ rw other (
      rw (replace_char-append c w s t)
        (sym (cons-append d (replace_char c w s) (replace_char c w t))))
])

escape-append :
    (s t : String) → escape_html_attr (s ++ t) ≡ escape_html_attr s ++ escape_html_attr t
unfolding escape_html_attr
escape-append s t =
    ap (λ u. replace_char b'<' "&lt;" (replace_char b'"' "&quot;" u))
      (replace_char-append b'&' "&amp;" s t)
    ∙ ap (replace_char b'<' "&lt;") (
        replace_char-append b'"' "&quot;" (replace_char b'&' "&amp;" s)
          (replace_char b'&' "&amp;" t))
    ∙ replace_char-append b'<' "&lt;" (replace_char b'"' "&quot;" (replace_char b'&' "&amp;" s))
        (replace_char b'"' "&quot;" (replace_char b'&' "&amp;" t))

escaped_nil : escape_html_attr [] ≡ []
unfolding escape_html_attr
escaped_nil = refl

escape_one : (d : Char) → escape_html_attr (d ∷ []) ≡ escape_char d
unfolding escape_html_attr escape_char replace_char
escape_one d = elim (Bool-cases (eqb (code d) b'&')) [
  | inl amp ↦ rw amp
  | inr no_amp ↦ elim (Bool-cases (eqb (code d) b'"')) [
    | inl quote ↦ rw (no_amp, quote)
    | inr no_quote ↦ elim (Bool-cases (eqb (code d) b'<')) [
      | inl less ↦ rw (no_amp, no_quote, less)
      | inr no_less ↦ rw (no_amp, no_quote, no_less)
    ]
  ]
]

-- The three replacements in a row are one pass over the text: nothing that one of them inserts is
-- escaped again, and no character is missed.
pub escape_html_attr-eq-escape_each : (text : String) → escape_html_attr text ≡ escape_each text
unfolding escape_each
escape_html_attr-eq-escape_each [] = escaped_nil
escape_html_attr-eq-escape_each (d ∷ s) =
    ap escape_html_attr (sym (cons-append d [] s ∙ ap (λ u. d ∷ u) (nil-append s)))
    ∙ escape-append (d ∷ []) s
    ∙ ap₂ (λ u v. u ++ v) (escape_one d) (escape_html_attr-eq-escape_each s)
