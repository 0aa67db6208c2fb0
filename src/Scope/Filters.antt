-- ===== src/Scope/Filters.antt =====
-- The cross-view filter of a list: its options against the rows that each one selects.
use testkit_service.Prelude.{
  String, Bool, true, false, Option, some, List, [], ◌∷◌, map, includes, truthy, is_text,
  is_text_iff, get_or, ◌==◌, ◌≡◌, ◌≢◌, ◌↔◌, ◌⊎◌, refl, ap, inl, inr, arith, eq_iff, nonempty,
  nonempty_of_ne, Bool-cases, Listed, Listed-keep, if◌then◌else◌,
}
use testkit_service.Scope.{
  apply_tenant_filter, tenant_filter_options, filter_all, filter_pool, distinct_from, insert_sorted,
  sort_texts, present,
}

Listed-distinct_from :
    (k : String) (seen ks : List String)
    → includes seen k ≡ false
    → Listed k ks
    → Listed k (distinct_from seen ks)
Listed-distinct_from k seen [] fresh h = h
Listed-distinct_from k seen (x ∷ xs) fresh h = ground (
  arith,
  eq_iff x k,
  Listed-distinct_from k seen xs fresh,
  Listed-distinct_from k (x ∷ seen) xs,
  Bool-cases (includes seen x),
)

Listed-insert_sorted :
    (before : String → String → Bool) (k x : String) (xs : List String)
    → (x ≡ k) ⊎ Listed k xs
    → Listed k (insert_sorted before x xs)
Listed-insert_sorted before k x [] h = h
Listed-insert_sorted before k x (y ∷ ys) h =
    ground (arith, Listed-insert_sorted before k x ys, Bool-cases (before x y))

Listed-sort_texts :
    (before : String → String → Bool) (k : String) (xs : List String)
    → Listed k xs
    → Listed k (sort_texts before xs)
Listed-sort_texts before k [] h = h
Listed-sort_texts before k (x ∷ xs) (inl e) =
    Listed-insert_sorted before k x (sort_texts before xs) (inl e)
Listed-sort_texts before k (x ∷ xs) (inr h) =
    Listed-insert_sorted before k x (sort_texts before xs) (inr (Listed-sort_texts before k xs h))

Listed-map :
    {A B : Type 0} (f : A → B) (a : A) (xs : List A) → Listed a xs → Listed (f a) (map f xs)
Listed-map f a [] h = elim h [ ]
Listed-map f a (x ∷ xs) (inl e) = inl (ap f e)
Listed-map f a (x ∷ xs) (inr h) = inr (Listed-map f a xs h)

test_ne : (a b : String) → a ≢ b → (a == b) ≡ false
test_ne a b h = ground (arith, eq_iff a b)

module _ {T : Type 0} (get_key : T → Option String) where
  Listed-present :
      (k : String) (r : T) (rows : List T)
      → get_key r ≡ some k
      → nonempty k ≡ true
      → Listed r rows
      → Listed k (present (map get_key rows))
  Listed-present k r [] e n h = elim h [ ]
  Listed-present k r (x ∷ rows) e n (inl same) = rw (same, e, n) (inl refl)
  Listed-present k r (x ∷ rows) e n (inr h) =
      skip (truthy (get_key x)) (get_or (get_key x) "") (Listed-present k r rows e n h)
    where
      skip :
          (b : Bool) (o : String)
          → Listed k (present (map get_key rows))
          → Listed k (if b then o ∷ present (map get_key rows) else present (map get_key rows))
      skip true o m = inr m
      skip false o m = m

  -- The filter's options cover the rows: a loaded row with a private key that is not one of the two
  -- sentinel texts has an option of that key, and choosing the option leaves exactly the rows of
  -- that key.
  pub tenant_filter_options-apply :
      (before : String → String → Bool) (rows : List T) (r : T) (k : String)
      → Listed r rows
      → get_key r ≡ some k
      → (k ≢ "") × (k ≢ filter_all) × (k ≢ filter_pool)
      → Listed (k, k) (tenant_filter_options get_key before rows)
        × ((s : T)
            → Listed s (apply_tenant_filter get_key k rows)
              ↔ (Listed s rows × (get_key s ≡ some k)))
  unfolding tenant_filter_options apply_tenant_filter
  tenant_filter_options-apply before rows r k listed e (full, not_all, not_pool) =
      let keys = present (map get_key rows) in
      let here = Listed-present k r rows e (nonempty_of_ne k full) listed in
      (
        inr (
            inr (
              Listed-map (λ j. (j, j)) k _
                (Listed-sort_texts before k _ (Listed-distinct_from k [] keys refl here)))),
        λ s.
            rw (test_ne k filter_all not_all, test_ne k filter_pool not_pool)
              (ground (
                arith,
                Listed-keep (λ (x : T). is_text (get_key x) k) rows s,
                is_text_iff (get_key s) k,
              )),
      )
