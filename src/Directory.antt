-- ===== src/Directory.antt =====
-- The reference directory (web/src/pages/Reference/Directory/index.tsx): buildCountryJoin. The climb to
-- the parents runs on fuel: the source has a loop there that ends only where a chain of parents does.
pub mod Climb
pub mod Laws
pub mod Loads
use testkit_service.Prelude.{
  ℕ, zero, suc, String, Bool, true, false, Option, none, some, List, [], ◌∷◌, ◌++◌, map, ◌==◌, keep,
  includes, get_or, or_else, truthy, is_text, if◌then◌else◌,
}
use mathlib.Core.Option

-- API.v1RegionGroup; a group without members lists none
pub record RegionGroup : Type 0 where
  pub group_code : Option String
  pub parent_code : Option String
  pub region_codes : List String
  pub name : Option String

-- `groupByCode.get(code)`: of two groups with one code the later
abbrev or_this : Option RegionGroup → Bool → RegionGroup → Option RegionGroup
or_this (some later) here g = some later
or_this none true g = some g
or_this none false g = none

unfoldable pub group_by_code : List RegionGroup → String → Option RegionGroup
group_by_code [] code = none
group_by_code (g ∷ groups) code =
    let later = group_by_code groups code in or_this later (is_text g.group_code code) g

-- `groupByCode.get(cur)?.parentCode`
abbrev parent_code_of : Option RegionGroup → Option String
parent_code_of none = none
parent_code_of (some g) = g.parent_code

unfoldable pub parent_of : List RegionGroup → String → Option String
unfolding group_by_code
parent_of groups code = parent_code_of (group_by_code groups code)

-- the loop that adds a group's code and its ancestors'; `none` means that the fuel ran out
unfoldable pub climb : ℕ → List RegionGroup → Option String → Option (List String)
climb zero groups cur = if truthy cur then none else some []
climb (suc fuel) groups cur =
    let rest =
      Option.map (λ codes. get_or cur "" ∷ codes)
        (climb fuel groups (parent_of groups (get_or cur ""))) in
    if truthy cur then rest else some []

-- regionCodes: what the two outer loops add, country by country
abbrev join :
    Option (List (String × List String))
    → Option (List (String × List String))
    → Option (List (String × List String))
join none b = none
join (some a) none = none
join (some a) (some b) = some (a ++ b)

unfoldable pub added : Option (List String) → List String → Option (List (String × List String))
added codes [] = some []
added none (cc ∷ ccs) = none
added (some codes) (cc ∷ ccs) = some (map (λ c. (c, codes)) (cc ∷ ccs))

unfoldable pub region_codes :
    ℕ → List RegionGroup → List RegionGroup → Option (List (String × List String))
unfolding climb added
region_codes fuel groups [] = some []
region_codes fuel groups (g ∷ rest) =
    join (added (climb fuel groups g.group_code) g.region_codes) (region_codes fuel groups rest)

-- `regionCodes.get(cc)`, as the list of what was added to the set
unfoldable pub codes_of : List (String × List String) → String → List String
codes_of [] cc = []
codes_of (entry ∷ entries) cc =
    let rest = codes_of entries cc in if entry.0 == cc then entry.1 ++ rest else rest

-- `g.name ?? g.groupCode ?? ""`
abbrev pub group_name : RegionGroup → String
group_name g = get_or g.name (get_or g.group_code "")

-- `regionChain.get(cc) ?? []`
unfoldable pub region_chain : ℕ → List RegionGroup → String → Option (List String)
unfolding region_codes codes_of
region_chain fuel groups cc =
    Option.map
      (λ entries. map group_name (
        keep (λ (g : RegionGroup). includes (codes_of entries cc) (get_or g.group_code "")) groups))
      (region_codes fuel groups groups)

-- `currenciesOf.get(cc) ?? []` and `timezonesOf.get(cc) ?? []`: an item for each time that it lists the code
module _ {A : Type 0} where
  abbrev pushed : A → String → List String → List A
  pushed item cc [] = []
  pushed item cc (code ∷ codes) =
      if code == cc then item ∷ pushed item cc codes else pushed item cc codes

  unfoldable pub items_of : (codes : A → List String) → List A → String → List A
  items_of codes [] cc = []
  items_of codes (item ∷ items) cc = pushed item cc (codes item) ++ items_of codes items cc
