-- ===== src/Directory/Laws.antt =====
-- The region chain of a country, against the relation that it stands for.
use testkit_service.Prelude.{
  ℕ, String, Bool, true, false, Option, none, some, List, [], ◌∷◌, ◌++◌, map, ◌≡◌, ◌↔◌, ◌⊎◌, inl,
  inr, refl, sym, ap, ◌∙◌, arith, eq_iff, keep, includes, get_or, Listed, Holds, Bool-cases, ◌==◌,
  ◌||◌,
}
use mathlib.Core.Path.{subst}
use mathlib.Core.List.{append_assoc}
use testkit_service.Directory.{
  RegionGroup, climb, added, region_codes, codes_of, group_name, region_chain,
}
use testkit_service.Directory.Climb.{Above, IsRanked, climb-IsClimb, climb-none}

some_inj : {a b : String} → some a ≡ some b → b ≡ a
some_inj e = cc

or_true : (x y : Bool) → x || y ≡ true → (x ≡ true) ⊎ (y ≡ true)
or_true true y h = inl refl
or_true false y h = inr h

or_left : (x y : Bool) → x ≡ true → x || y ≡ true
or_left x y h = rw h

or_right : (x y : Bool) → y ≡ true → x || y ≡ true
or_right true y h = refl
or_right false y h = h

includes-append :
    (xs ys : List String) (b : String) → includes (xs ++ ys) b ≡ includes xs b || includes ys b
includes-append [] ys b = refl
includes-append (x ∷ xs) ys b = ground (arith, includes-append xs ys b)

codes_of-append :
    (xs ys : List (String × List String)) (cc : String)
    → codes_of (xs ++ ys) cc ≡ codes_of xs cc ++ codes_of ys cc
unfolding codes_of
codes_of-append [] ys cc = refl
codes_of-append (x ∷ xs) ys cc = elim (Bool-cases (x.0 == cc)) [
  | inl same ↦
      rw (same, codes_of-append xs ys cc) (sym (append_assoc x.1 (codes_of xs cc) (codes_of ys cc)))
  | inr other ↦ rw other (codes_of-append xs ys cc)
]

-- what one group adds to the countries that it lists
codes_of-map :
    (ccs : List String) (codes : List String) (cc b : String)
    → (includes (codes_of (map (λ c. (c, codes)) ccs) cc) b ≡ true)
      ↔ (Holds cc ccs × (includes codes b ≡ true))
unfolding codes_of
codes_of-map [] codes country b = (λ e. cc, λ h. elim (h.0) [ ])
codes_of-map (c ∷ ccs) codes cc b = elim (Bool-cases (c == cc)) [
  | inl same ↦ rw same (
      ground (
        arith,
        includes-append codes (codes_of (map (λ c'. (c', codes)) ccs) cc) b,
        codes_of-map ccs codes cc b,
        eq_iff c cc,
      ))
  | inr other ↦ rw other (ground (arith, codes_of-map ccs codes cc b, eq_iff c cc))
]

added-some : (codes ccs : List String) → added (some codes) ccs ≡ some (map (λ c. (c, codes)) ccs)
unfolding added
added-some codes [] = refl
added-some codes (c ∷ ccs) = refl

-- A code is that of a group, or above it.
abbrev pub Starts : List RegionGroup → RegionGroup → String → Type 0
Starts groups h b = (a : String) × (h.group_code ≡ some a) × Above groups a b

module _ (groups : List RegionGroup) (rank : String → ℕ) (fuel : ℕ)
    (ranked : IsRanked rank groups fuel) where
  climbed_from :
      (o : Option String)
      → (codes : List String) × (climb fuel groups o ≡ some codes)
        × ((b : String)
            → (includes codes b ≡ true) ↔ ((a : String) × (o ≡ some a) × Above groups a b))
  climbed_from none = ([], climb-none fuel groups, λ b. (λ e. cc, λ (a, e, above). cc))
  climbed_from (some a) =
      let (codes, run, is) = climb-IsClimb groups rank ranked.below fuel a (ranked.enough a) in
      (
        codes,
        run,
        λ b. (
          λ m. (a, refl, (is b).0 m),
          λ (a', e, above). (is b).1 (subst (λ x. Above groups x b) (some_inj e) above),
        ),
      )

  climbed :
      (h : RegionGroup)
      → (codes : List String) × (climb fuel groups h.group_code ≡ some codes)
        × ((b : String) → (includes codes b ≡ true) ↔ Starts groups h b)
  climbed h = climbed_from h.group_code

  -- the entries of the groups that the outer loop has passed
  abbrev Collects : List RegionGroup → List (String × List String) → Type 0
  Collects rest entries =
      (cc b : String)
      → (includes (codes_of entries cc) b ≡ true)
        ↔ ((h : RegionGroup) × Listed h rest × Holds cc h.region_codes × Starts groups h b)

  region_codes-Collects :
      (rest : List RegionGroup)
      → (entries : List (String × List String)) × (region_codes fuel groups rest ≡ some entries)
        × Collects rest entries
  unfolding region_codes codes_of
  region_codes-Collects [] = ([], refl, λ country b. (λ e. cc, λ (h, m, r, q). elim m [ ]))
  region_codes-Collects (g ∷ rest) =
      let (codes, run, is) = climbed g in
      let (more, run', coll) = region_codes-Collects rest in
      let own : List (String × List String) = map (λ (c : String). (c, codes)) g.region_codes in
      (
        own ++ more,
        rw (run, added-some codes g.region_codes, run'),
        λ country b.
            let split : includes (codes_of (own ++ more) country) b
                ≡ includes (codes_of own country) b || includes (codes_of more country) b =
              ap (λ l. includes l b) (codes_of-append own more country)
              ∙ includes-append (codes_of own country) (codes_of more country) b in
            (
              λ m. elim (or_true _ _ (sym split ∙ m)) [
                | inl left ↦
                    let (holds, here) = (codes_of-map g.region_codes codes country b).0 left in
                    (g, inl refl, holds, (is b).0 here)
                | inr right ↦
                    let (h, listed, holds, starts) = (coll country b).0 right in
                    (h, inr listed, holds, starts)
              ],
              λ (h, listed, holds, starts). split ∙ elim listed [
                | inl same ↦ or_left _ _ (
                    (codes_of-map g.region_codes codes country b).1 (
                      subst (λ (r : RegionGroup). Holds country r.region_codes) (sym same) holds,
                      (is b).1 (subst (λ (r : RegionGroup). Starts groups r b) (sym same) starts),
                    ))
                | inr further ↦ or_right _ _ ((coll country b).1 (h, further, holds, starts))
              ],
            ),
      )

  -- Where no chain of parents turns round, the loops end, and the chain of a country holds, in the order
  -- of the list, the names of exactly the groups that list the country or stand above one that does.
  pub region_chain-Above :
      (cc : String)
      → (shown : RegionGroup → Bool) × (region_chain fuel groups cc
          ≡ some (map group_name (keep shown groups)))
        × ((g : RegionGroup)
            → (shown g ≡ true) ↔ (
                (h : RegionGroup) × Listed h groups
                × Holds cc h.region_codes
                × Starts groups h (get_or g.group_code "")))
  unfolding region_chain
  region_chain-Above cc =
      let (entries, run, coll) = region_codes-Collects groups in
      (
        λ g. includes (codes_of entries cc) (get_or g.group_code ""),
        rw run,
        λ g. coll cc (get_or g.group_code ""),
      )
