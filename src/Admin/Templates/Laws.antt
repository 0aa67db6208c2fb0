-- ===== src/Admin/Templates/Laws.antt =====
-- What a template that the form builds holds, and what an edit sends back.
use mathlib.Core.Path.{subst}
use testkit_service.Prelude.{
  String, false, Option, none, some, List, [], ◌∷◌, ◌≡◌, ◌≢◌, refl, sym, ap, arith, ◌++◌, is_text,
  is_text_iff, Bool-cases, inl, inr,
}
use testkit_service.Admin.Templates.{
  TemplateParamSpec, VendorTemplateCode, EmailTemplateContent, TemplateInfo, TemplateForm,
  email_render, sms_vendor_codes, channel_email, channel_sms, build_template_body, initial_values,
}

-- What a template may hold.
pub data Content : Type 0 where
  rendered : EmailTemplateContent → Content
  coded : Option (List VendorTemplateCode) → Content
  written : Option String → Content

abbrev held : {A : Type 0} → (A → Content) → Option A → List Content
held f none = []
held f (some a) = f a ∷ []

abbrev pub contents : TemplateInfo → List Content
contents t = held rendered t.email ++ (held coded t.vendor_codes ++ held written t.sms_content)

-- The kind and the channel of a content.
abbrev pub Fits : Option String → Option String → Content → Type 0
Fits kind channel (rendered e) = (kind ≡ some email_render) × (channel ≡ some channel_email)
Fits kind channel (coded c) = (kind ≡ some sms_vendor_codes) × (channel ≡ some channel_sms)
Fits kind channel (written s) =
    (kind ≢ some email_render) × (kind ≢ some sms_vendor_codes) × (channel ≡ some channel_sms)

-- A template is typed: it holds one content, and that is of its kind and channel.
abbrev pub IsTyped : TemplateInfo → Type 0
IsTyped t = (c : Content) × (contents t ≡ c ∷ []) × Fits t.kind t.channel c

not_text : (o : Option String) (s : String) → is_text o s ≡ false → o ≢ some s
not_text o s h e = ground (arith, is_text_iff o s)

-- Whatever the form holds, the template that it builds is typed: it has one content, of its own kind,
-- and the channel of that kind.
pub build_template_body-IsTyped : (vals : TemplateForm) → IsTyped (build_template_body vals)
unfolding build_template_body
build_template_body-IsTyped vals = elim (Bool-cases (is_text vals.kind email_render)) [
  | inl mail ↦ simp mail (_, refl, ((is_text_iff vals.kind email_render).0 mail, refl))
  | inr other ↦ elim (Bool-cases (is_text vals.kind sms_vendor_codes)) [
    | inl codes ↦
        simp (other, codes) (_, refl, ((is_text_iff vals.kind sms_vendor_codes).0 codes, refl))
    | inr text ↦
        simp (other, text) (_, refl, (not_text vals.kind _ other, not_text vals.kind _ text, refl))
  ]
]

-- the fields of a template with this one content
abbrev Split :
    Option EmailTemplateContent
    → Option (Option (List VendorTemplateCode))
    → Option (Option String)
    → Content
    → Type 0
Split mail codes text (rendered e) = (mail ≡ some e) × (codes ≡ none) × (text ≡ none)
Split mail codes text (coded c) = (mail ≡ none) × (codes ≡ some c) × (text ≡ none)
Split mail codes text (written s) = (mail ≡ none) × (codes ≡ none) × (text ≡ some s)

contents-Split :
    (mail : Option EmailTemplateContent) (codes : Option (Option (List VendorTemplateCode)))
    (text : Option (Option String)) (c : Content)
    → held rendered mail ++ (held coded codes ++ held written text) ≡ c ∷ []
    → Split mail codes text c
contents-Split none none none c e = cc
contents-Split none none (some s) c e =
    let same : written s ≡ c = cc in subst (Split none none (some s)) same (refl, refl, refl)
contents-Split none (some s) none c e =
    let same : coded s ≡ c = cc in subst (Split none (some s) none) same (refl, refl, refl)
contents-Split (some s) none none c e =
    let same : rendered s ≡ c = cc in subst (Split (some s) none none) same (refl, refl, refl)
contents-Split none (some s) (some r) c e = cc
contents-Split (some s) none (some r) c e = cc
contents-Split (some s) (some r) text c e = cc

-- What the form fills in where it is absent is there.
abbrev pub IsFilled : Content → Type 0
IsFilled (rendered e) = (html : String) × (e.html_body ≡ some html)
IsFilled (coded c) = (codes : List VendorTemplateCode) × (c ≡ some codes)
IsFilled (written s) = Unit

-- a template as an edit sends it back
abbrev pub sent_back : TemplateInfo → TemplateInfo
sent_back t = record t {
  id = none;
  app_id = none;
  disabled = some false;
  created_at = none;
  updated_at = none;
  tenant_key = none;
}

with_html :
    (e : EmailTemplateContent) (html : String)
    → e.html_body ≡ some html
    → record e { html_body = some html } ≡ e
with_html e html full = ap (λ h. record e { html_body = h }) (sym full)

ne_is_text : (o : Option String) (s : String) → o ≢ some s → is_text o s ≡ false
ne_is_text o s e = ground (arith, is_text_iff o s)

unchanged :
    (t : TemplateInfo) (c : Content) (params : List TemplateParamSpec)
    → Split t.email t.vendor_codes t.sms_content c
    → Fits t.kind t.channel c
    → IsFilled c
    → t.params ≡ some params
    → build_template_body (initial_values t) ≡ sent_back t
unfolding build_template_body initial_values
unchanged t (rendered e) params (mail, codes, text) (kind, channel) (html, full) ps =
    simp (mail, codes, text, kind, channel, full, ps) (rw (with_html e html full) refl)
unchanged t (coded c) params (mail, codes, text) (kind, channel) (cs, full) ps =
    simp (mail, codes, text, kind, channel, full, ps) refl
unchanged t (written s) params (mail, codes, text) (other, kind, channel) full ps =
    simp
      (
        mail,
        codes,
        text,
        channel,
        ps,
        ne_is_text t.kind email_render other,
        ne_is_text t.kind sms_vendor_codes kind,
      )
      refl

-- An edit that changes nothing sends the template back as it was, but enabled: a typed template with
-- its parameters and its content's optional fields set is what the form builds from its own first
-- values, less the fields that the server sets, and with `disabled` false.
pub build_template_body-initial_values :
    (t : TemplateInfo) (c : Content) (params : List TemplateParamSpec)
    → contents t ≡ c ∷ []
    → Fits t.kind t.channel c
    → IsFilled c
    → t.params ≡ some params
    → build_template_body (initial_values t) ≡ sent_back t
build_template_body-initial_values t c params one =
    unchanged t c params (contents-Split t.email t.vendor_codes t.sms_content c one)
