-- ===== src/Mail/PlainText/Laws.antt =====
-- A wrapped document is not wrapped again.
use Prim.Native.Char.{Char, code}
use Prim.Native.String.{String, [], ◌∷◌, ◌++◌}
use text.Mathlib.TextLemmas.{cons-append}
use testkit_service.Prelude.{
  ℕ, zero, suc, Bool, true, ◌≡◌, refl, arith, eqb, ◌||◌, Bool-cases, inl, inr,
}
use testkit_service.Mail.Text.{is_empty, is_space, trim, trim_start, trim_end}
use testkit_service.Mail.PlainText.{
  starts_with_literal, drop, head_is, has_html, document_head, wrap_html_document,
}

module _ (t : String) where
  starts-append :
      (p s : String) → starts_with_literal p s ≡ true → starts_with_literal p (s ++ t) ≡ true
  unfolding starts_with_literal
  starts-append [] s h = refl
  starts-append (p ∷ ps) [] h = cc
  starts-append (p ∷ ps) (c ∷ s) h = rw (cons-append c s t) (ground (arith, starts-append ps s))

  head_is-append :
      (f : Char → Bool) (n : ℕ) (s : String)
      → head_is f (drop n s) ≡ true
      → head_is f (drop n (s ++ t)) ≡ true
  head_is-append f zero [] h = cc
  head_is-append f (suc n) [] h = cc
  head_is-append f zero (c ∷ s) h = rw (cons-append c s t) h
  head_is-append f (suc n) (c ∷ s) h = rw (cons-append c s t) (head_is-append f n s h)

  has_html-append : (s : String) → has_html s ≡ true → has_html (s ++ t) ≡ true
  unfolding has_html
  has_html-append [] h = cc
  has_html-append (c ∷ s) h = rw (cons-append c s t) (
      ground (
        arith,
        starts-append "html" s,
        head_is-append (λ d. is_space d || eqb (code d) b'>') 4 s,
        has_html-append s,
      ))

or_true : (b : Bool) → (b || true) ≡ true
or_true b = ground arith

head_marked : has_html document_head ≡ true
unfolding has_html starts_with_literal is_space
head_marked = refl

-- A body that has been made a document is left as it is when it is made one again, and so is one that is
-- blank or was a document before.
pub wrap_html_document-twice :
    (content : String)
    → wrap_html_document (wrap_html_document content) ≡ wrap_html_document content
unfolding wrap_html_document
wrap_html_document-twice content = elim (Bool-cases (is_empty (trim content) || has_html content)) [
  | inl whole ↦ rw (whole, whole)
  | inr part ↦
      rw (part, has_html-append (content ++ "</body>\n</html>") document_head head_marked)
        (rw (
          or_true
            (is_empty (trim_end (trim_start (document_head ++ content ++ "</body>\n</html>"))))))
]
