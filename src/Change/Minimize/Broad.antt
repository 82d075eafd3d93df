-- ===== src/Change/Minimize/Broad.antt =====
-- The second loop of `minimize_tests`: which items it drops.
use code_suit.Base.{
  String, Bool, true, false, not, ◌&&◌, ◌||◌, some, List, [], ◌∷◌, ◌++◌, ◌≡◌, refl, sym, ap, ◌∙◌,
  ◌==◌, All, In, In-of_All, filter, map, string_eq, eq_of_==, is_some, Bool-cases, Option-cases,
  inl, inr, and-eq-true, if◌then◌else◌,
}
use mathlib.Core.Option.{some-injective}
use code_suit.Base.Order.{sorted, str_le}
use code_suit.Base.Result.{Result, ok, err, and_then, Ensures, Ensures-and_then}
use code_suit.Change.{
  RelatedTest, InclusionReason, broad_fallback_suite, exact_file_test, dependent_component_test,
  same_owner_test, inclusion_reason_eq, test_target, broad_test_replaced_by_specific_tests,
  Excluded, ChangeError,
}
use code_suit.Change.Evidence.{exclusion}
use code_suit.Change.Evidence.Items.{Excludes, exclusion-Excludes}
use code_suit.Change.Minimize.{
  TestItem, item_id, is_dependent, is_specific, human_test_reason, selected_match, broad_replaced,
  drop_broad,
}
use code_suit.Change.Minimize.Items.{broad_ids}

-- A match of a dependent component names the component, or a file.
abbrev pub DependentsNamed : List RelatedTest → Type 0
DependentsNamed = All (λ m. (is_dependent m.relation_reason && not (is_specific m)) ≡ false)

-- The item is not a broad fallback.
unfoldable pub stays : TestItem → Bool
unfolding inclusion_reason_eq
stays item = not (item.inclusion_reason == broad_fallback_suite)

reason_of : Bool → Bool → Bool → InclusionReason
reason_of path owner dependent =
    if path
    then exact_file_test
    else if dependent
    then dependent_component_test
    else if owner
    then same_owner_test
    else broad_fallback_suite

-- The reason of a match tells whether it is specific.
stays_of_reason :
    (path owner dependent : Bool)
    → (dependent && not (path || owner)) ≡ false
    → not (reason_of path owner dependent == broad_fallback_suite) ≡ (path || owner)
unfolding inclusion_reason_eq reason_of
stays_of_reason true owner dependent h = refl
stays_of_reason false true true h = refl
stays_of_reason false true false h = refl
stays_of_reason false false true h = cc
stays_of_reason false false false h = refl

pub stays_iff :
    (m : RelatedTest) (item : TestItem)
    → (is_dependent m.relation_reason && not (is_specific m)) ≡ false
    → item.inclusion_reason ≡ human_test_reason m
    → stays item ≡ is_specific m
unfolding stays reason_of
stays_iff m item h e = rw e (
    stays_of_reason (is_some m.matched_repository_rel_path) (is_some m.matched_owner_id)
      (is_dependent m.relation_reason) h)

-- The match that is found for an item is one of them, with the item's reason.
abbrev Fits : List RelatedTest → TestItem → RelatedTest → Type 0
Fits ms item m = In m ms × (item.inclusion_reason ≡ human_test_reason m)

selected_match-Fits :
    (ms : List RelatedTest) (item : TestItem) (m : RelatedTest)
    → selected_match ms item ≡ some m
    → Fits ms item m
unfolding selected_match
selected_match-Fits [] item m h = cc
selected_match-Fits (c ∷ ms) item m h =
    elim (Bool-cases (c.test_id == item_id item && human_test_reason c == item.inclusion_reason)) [
      | inl fits ↦
          let found : some c ≡ some m = rw fits at h in
          at_head (some-injective c m found) (
            eq_of_== (human_test_reason c) item.inclusion_reason (
              (and-eq-true (c.test_id == item_id item)
                (human_test_reason c == item.inclusion_reason) fits).1))
      | inr differs ↦
          let rest = selected_match-Fits ms item m (rw differs at h) in (inr (rest.0), rest.1)
    ]
  where
    at_head : c ≡ m → human_test_reason c ≡ item.inclusion_reason → Fits (c ∷ ms) item m
    at_head e r = (inl (sym e), sym r ∙ ap human_test_reason e)

abbrev pub AreDropped : List TestItem → List TestItem × List Excluded → Type 0
AreDropped items (kept, gone) =
    (kept ≡ filter stays items) × (broad_ids gone ≡ map item_id (filter (λ i. not (stays i)) items))

module _ (E : Type 0) (is_blank : String → Bool) (matches : List RelatedTest)
    (named : DependentsNamed matches) where
  -- The second loop drops exactly the items with the broad reason.
  pub drop_broad-AreDropped :
      (before items : List TestItem)
      → Ensures (AreDropped items) (drop_broad {E = E} is_blank matches before items)
  unfolding drop_broad
  drop_broad-AreDropped before [] = (refl, refl)
  drop_broad-AreDropped before (item ∷ after) = elim (Option-cases (selected_match matches item)) [
    | inl nothing ↦ rw (nothing, Ensures) tt
    | inr (m, found) ↦
        let (there, because) = selected_match-Fits matches item m found in
        let same =
          stays_iff m item
            (In-of_All (λ c. (is_dependent c.relation_reason && not (is_specific c)) ≡ false)
              matches named m there)
            because in
        elim (Bool-cases (is_specific m)) [
          | inl specific ↦
              rw (found, Ensures, specific)
                (keeps (same ∙ specific) (drop_broad is_blank matches (before ++ item ∷ []) after)
                  (drop_broad-AreDropped (before ++ item ∷ []) after))
          | inr broad ↦
              rw (found, Ensures, broad)
                (drops (same ∙ broad) (drop_broad is_blank matches (before ++ item ∷ []) after)
                  (drop_broad-AreDropped (before ++ item ∷ []) after))
        ]
  ]
    where
      keeps :
          stays item ≡ true
          → (rest : Result (ChangeError E) (List TestItem × List Excluded))
          → Ensures (AreDropped after) rest
          → Ensures
              (AreDropped (item ∷ after))
              (and_then rest (λ (kept, gone). ok (item ∷ kept, gone)))
      keeps stay (err e) h = tt
      keeps stay (ok (kept, gone)) h = rw stay (ap (◌∷◌ item) h.0, h.1)

      drops :
          stays item ≡ false
          → (rest : Result (ChangeError E) (List TestItem × List Excluded))
          → Ensures (AreDropped after) rest
          → Ensures (AreDropped (item ∷ after)) (
              and_then
                (exclusion is_blank test_target
                  (item_id item)
                  broad_test_replaced_by_specific_tests
                  broad_replaced
                  (sorted str_le (map item_id (before ++ after)))
                  item.provenance)
                (λ x. and_then rest (λ (kept, gone). ok (kept, x ∷ gone))))
      drops go rest h =
          Ensures-and_then
            (Excludes is_blank (item_id item) broad_test_replaced_by_specific_tests
              (sorted str_le (map item_id (before ++ after))))
            (AreDropped (item ∷ after))
            (exclusion is_blank test_target (item_id item) broad_test_replaced_by_specific_tests
              broad_replaced (sorted str_le (map item_id (before ++ after))) item.provenance)
            _
            (exclusion-Excludes E is_blank test_target (item_id item)
              broad_test_replaced_by_specific_tests broad_replaced
              (sorted str_le (map item_id (before ++ after))) item.provenance)
            λ x _ excludes.
              Ensures-and_then (AreDropped after) (AreDropped (item ∷ after)) rest _ h
                λ (kept, gone) _ (k, g).
                  rw (go, excludes.reason_code, excludes.id) (k, ap (◌∷◌ (item_id item)) g)
