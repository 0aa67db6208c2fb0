-- ===== src/Labels/Laws.antt =====
-- The options of the forms against the labels of the lists, and the lookup in two tables.
use testkit_service.Prelude.{
  String, Bool, true, some, List, [], ◌∷◌, ◌≡◌, ◌≢◌, ◌⊎◌, inl, inr, refl, sym, arith, all, all_elim,
  Listed, lookup, nonempty, get_or, is_text, is_text_iff, ◌==◌, eq_iff, ◌||◌, ◌&&◌, if◌then◌else◌,
  Bool-cases, Option-cases, ◌∙◌,
}
use testkit_service.Labels.User.{login_method_value_enum, provider_value_enum, login_method_label}
use testkit_service.Labels.Message.{
  email_vendor_options, email_vendor_value_enum, sms_vendor_options, sms_vendor_value_enum,
  email_scene_options, email_scene_value_enum, sms_scene_options, sms_scene_value_enum,
}

-- A select of the send forms: its options, the table that lists show the same values by, and the
-- value that stands for none.
pub record Select : Type 0 where
  pub options : List (String × String)
  pub labels : List (String × String)
  pub unset : String

abbrev pub selects : List Select
selects =
    record {
      options = email_vendor_options;
      labels = email_vendor_value_enum;
      unset = "EMAIL_VENDOR_UNSPECIFIED";
    }
    ∷ record {
      options = sms_vendor_options;
      labels = sms_vendor_value_enum;
      unset = "SMS_VENDOR_UNSPECIFIED";
    }
    ∷ record {
      options = email_scene_options;
      labels = email_scene_value_enum;
      unset = "EMAIL_SCENE_UNSPECIFIED";
    }
    ∷ record {
      options = sms_scene_options;
      labels = sms_scene_value_enum;
      unset = "SMS_SCENE_UNSPECIFIED";
    }
    ∷ []

-- Each entry of the first list, but for one value, is looked up in the second with the same text.
abbrev agrees : String → List (String × String) → List (String × String) → Bool
agrees unset others entries =
    all (λ (e : String × String). e.0 == unset || is_text (lookup e.0 others) e.1) entries

all_agree :
    (all (λ (s : Select). agrees s.unset s.labels s.options) selects ≡ true)
    × (all (λ (s : Select). agrees s.unset s.options s.labels) selects ≡ true)
all_agree = (refl, refl)

agrees_lem :
    (unset : String) (others entries : List (String × String)) (value label : String)
    → agrees unset others entries ≡ true
    → Listed (value, label) entries
    → value ≢ unset
    → lookup value others ≡ some label
agrees_lem unset others entries value label h listed set = ground (
  arith,
  eq_iff value unset,
  is_text_iff (lookup value others) label,
  all_elim (λ (e : String × String). e.0 == unset || is_text (lookup e.0 others) e.1) entries
      (value, label) h listed,
)

-- What a lookup gives is an entry of the table.
lookup-Listed :
    (key label : String) (table : List (String × String))
    → lookup key table ≡ some label
    → Listed (key, label) table
lookup-Listed key label [] h = cc
lookup-Listed key label ((k, l) ∷ table) h = elim (Bool-cases (k == key)) [
  | inl here ↦ inl (ground (arith, eq_iff k key))
  | inr there ↦ inr (lookup-Listed key label table (ground arith))
]

same_lookup :
    (unset : String) (options labels : List (String × String)) (value : String)
    → agrees unset labels options ≡ true
    → agrees unset options labels ≡ true
    → value ≢ unset
    → lookup value labels ≡ lookup value options
same_lookup unset options labels value forth back set = elim (Option-cases (lookup value options)) [
  | inr (label, h) ↦
      agrees_lem unset labels options value label forth (lookup-Listed value label options h) set
      ∙ sym h
  | inl missing ↦ elim (Option-cases (lookup value labels)) [
    | inl unknown ↦ unknown ∙ sym missing
    | inr (label, h) ↦
        h
        ∙ sym (
            agrees_lem unset options labels value label back (lookup-Listed value label labels h)
              set)
  ]
]

-- On each select of the send forms, and for each value but the unset one: the value is an option
-- exactly if the lists have a label for it, and the option's text is that label.
pub selects-agree :
    (s : Select) (value : String)
    → Listed s selects
    → value ≢ s.unset
    → lookup value s.labels ≡ lookup value s.options
selects-agree s value listed set =
    same_lookup s.unset s.options s.labels value
      (all_elim (λ (s : Select). agrees s.unset s.labels s.options) selects s all_agree.0 listed)
      (all_elim (λ (s : Select). agrees s.unset s.options s.labels) selects s all_agree.1 listed)
      set

abbrev is_new : List (String × String) → String × String → Bool
is_new table e = nonempty e.0 && get_or (lookup e.0 table) e.1 == e.1

all_new : all (is_new login_method_value_enum) provider_value_enum ≡ true
all_new = refl

all_named : all (λ (e : String × String). nonempty e.0) login_method_value_enum ≡ true
all_named = refl

labels-agree :
    (first second : List (String × String)) (value label : String)
    → all (λ (e : String × String). nonempty e.0) first ≡ true
    → all (is_new first) second ≡ true
    → (lookup value first ≡ some label) ⊎ (lookup value second ≡ some label)
    → (if nonempty value
        then get_or (lookup value first) (get_or (lookup value second) value)
        else "-")
      ≡ label
labels-agree first second value label named new (inl h) =
    let n =
      all_elim (λ (e : String × String). nonempty e.0) first (value, label) named
        (lookup-Listed value label first h) in
    rw (n, h)
labels-agree first second value label named new (inr h) =
    let fresh =
      all_elim (is_new first) second (value, label) new (lookup-Listed value label second h) in
    let n : nonempty value ≡ true = ground arith in
    rw (n, h) (ground (arith, eq_iff (get_or (lookup value first) label) label))

-- The label of a way to log in is that of either table, whichever has the value: no value has one
-- label in the first and another in the second.
pub login_method_label-either :
    (value label : String)
    → (lookup value login_method_value_enum ≡ some label)
      ⊎ (lookup value provider_value_enum ≡ some label)
    → login_method_label (some value) ≡ label
unfolding login_method_label
login_method_label-either value label h =
    labels-agree login_method_value_enum provider_value_enum value label all_named all_new h
