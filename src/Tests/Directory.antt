-- ===== src/Tests/Directory.antt =====
-- The reference directory at Asia, Eastern Asia and a country.
use mathlib.Core.Path.{subst}
use testkit_service.Prelude.{
  ℕ, ◌<◌, String, Bool, true, Option, none, some, List, [], ◌∷◌, map, ◌≡◌, ◌↔◌, refl, ◌≢◌, sym, ◌∙◌,
  arith, ◌==◌, keep, get_or, Listed, eq_iff, Bool-cases, inl, inr, Holds, nonempty, if◌then◌else◌,
}
use testkit_service.Directory.{RegionGroup, parent_of, group_name, region_chain}
use testkit_service.Directory.Climb.{IsRanked}
use testkit_service.Directory.Loads.{
  countries, Load, Event, locale_picked, answered, mounted, start, take_answer, act, run, AreSound,
  IsCurrent, run-IsCurrent,
}
use testkit_service.Directory.Laws.{Starts, region_chain-Above}

abbrev asia : RegionGroup
asia = record {
  group_code = some "142";
  parent_code = some "";
  region_codes = [];
  name = some "Asia";
}

abbrev eastern : RegionGroup
eastern = record {
  group_code = some "030";
  parent_code = some "142";
  region_codes = "CN" ∷ "JP" ∷ [];
  name = some "Eastern Asia";
}

abbrev groups : List RegionGroup
groups = asia ∷ eastern ∷ []

-- Eastern Asia stands below all else.
abbrev rank : String → ℕ
rank code = if code == "030" then 1 else 0

low : (b : Bool) → (if b then 1 else 0) < 2
low b = ground arith

blank_full : nonempty "" ≢ true
blank_full e = cc

none_some : {p : String} → ◌≢◌ {A = Option String} none (some p)
none_some e = cc

some_inj : {a b : String} → some a ≡ some b → a ≡ b
some_inj e = cc

east_lower :
    (a : String) → "030" == a ≡ true → (p : String) → parent_of groups a ≡ some p → rank p < rank a
unfolding parent_of
east_lower a east p e =
    let same : "030" ≡ a = (eq_iff "030" a).0 east in
    let asia_code : parent_of groups a ≡ some "142" = rw east refl in
    subst (λ x. rank p < rank x) same
      (subst (λ x. rank x < rank "030") (some_inj (sym asia_code ∙ e)) (omega arith))

lower : (a p : String) → parent_of groups a ≡ some p → nonempty p ≡ true → rank p < rank a
unfolding parent_of
lower a p e full = elim (Bool-cases ("030" == a)) [
  | inl east ↦ east_lower a east p e
  | inr other ↦ elim (Bool-cases ("142" == a)) [
    | inl top ↦
        let no_parent : parent_of groups a ≡ some "" = rw (other, top) refl in
        absurd (blank_full (subst (λ x. nonempty x ≡ true) (some_inj (sym e ∙ no_parent)) full))
    | inr unknown ↦
        let no_group : parent_of groups a ≡ none = rw (other, unknown) refl in
        absurd (none_some (sym no_group ∙ e))
  ]
]

groups-IsRanked : IsRanked rank groups 2
groups-IsRanked = record { below = lower; enough = λ a. low (a == "030") }

region_chain-Above_example :
    (shown : RegionGroup → Bool) × (region_chain 2 groups "CN"
      ≡ some (map group_name (keep shown groups)))
    × ((g : RegionGroup)
        → (shown g ≡ true) ↔ (
            (h : RegionGroup) × Listed h groups
            × Holds "CN" h.region_codes
            × Starts groups h (get_or g.group_code "")))
region_chain-Above_example = region_chain-Above groups rank 2 groups-IsRanked "CN"

-- The locale is changed before the first answer arrives, which is then late.
abbrev japanese : Load
japanese = record { place = 1; domain = countries; locale = "ja" }

abbrev first_load : Load
first_load = record { place = 0; domain = countries; locale = "zh-Hans" }

abbrev change : List (Event String)
change =
    locale_picked "ja"
    ∷ answered first_load (λ e. "zh-Hans") none
    ∷ answered japanese (λ e. "ja") none
    ∷ []

abbrev itself : String → String
itself s = s

change-AreSound : AreSound itself change mounted
unfolding mounted act start take_answer
change-AreSound = (tt, ((λ e. refl, λ e. cc), ((λ e. refl, λ e. refl), tt)))

mounted-IsCurrent : IsCurrent itself mounted
unfolding mounted
mounted-IsCurrent idle = cc

run-IsCurrent_example : IsCurrent itself (run change mounted)
run-IsCurrent_example = run-IsCurrent itself change mounted change-AreSound mounted-IsCurrent
