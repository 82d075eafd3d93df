-- ===== src/Change/Minimize.antt =====
-- core/minimum_verified_change_set_service.py: MinimumVerifiedMinimizer, the tests and the runner.
-- Its build targets are in Change/Minimize/Builds.
pub mod Builds
pub mod Strongest
pub mod Items
pub mod Broad
pub mod Kept
use code_suit.Base.{
  ℕ, String, Bool, true, false, not, ◌&&◌, ◌||◌, Option, none, some, List, [], ◌∷◌, ◌++◌, ◌==◌, any,
  filter, map, ltb, leb, contains, nat_eq, string_eq, is_some, if◌then◌else◌,
}
use code_suit.Base.Dict.{Dict, keys}
use code_suit.Base.Groups.{group_by, bucket}
use code_suit.Base.Order.{sorted, str_le}
use code_suit.Base.Result.{Result, ok, err, and_then, traverse}
use code_suit.Testing.{TestTargetDescription}
use code_suit.Change.{
  RelatedTest, RelationReason, same_owner, same_component, same_package, dependent_component,
  repository_default_suite, is_authoritative, OwnedNodeInfo, RepositoryAction, test_target,
  duplicate_replaced_by_stronger_match, broad_test_replaced_by_specific_tests, InclusionReason,
  exact_file_test, dependent_component_test, same_owner_test, broad_fallback_suite,
  inclusion_reason_eq, Included, Excluded, ChangeError, unmatched, no_candidate,
  runner_actions_not_one, raising,
}
use code_suit.Change.Evidence.{test_item, runner_item, exclusion}

abbrev pub reason_text : RelationReason → String
reason_text same_owner = "same_owner"
reason_text same_component = "same_component"
reason_text same_package = "same_package"
reason_text dependent_component = "dependent_component"
reason_text repository_default_suite = "repository_default_suite"

-- The four parts of `_test_match_sort_key`.
abbrev pub specificity_rank : RelatedTest → ℕ
specificity_rank m =
    if is_some m.matched_repository_rel_path then 0 else if is_some m.matched_owner_id then 1 else 2

unfoldable pub confidence_rank : RelatedTest → ℕ
unfolding is_authoritative
confidence_rank m = if is_authoritative m then 0 else 1

-- `text or other`
abbrev pub text_or : Option String → String → String
text_or none other = other
text_or (some String.[]) other = other
text_or (some (String.◌∷◌ c s)) other = String.◌∷◌ c s

abbrev pub matched_text : RelatedTest → String
matched_text m = text_or m.matched_repository_rel_path (text_or m.matched_owner_id "")

-- Tuples are compared at the first part in which they differ.
abbrev pub by_number : ℕ → ℕ → Bool → Bool
by_number m n rest = if ltb m n then true else if ltb n m then false else rest

unfoldable pub by_text : String → String → Bool → Bool
unfolding string_eq
by_text s t rest = if s == t then rest else str_le s t

unfoldable pub match_le : RelatedTest → RelatedTest → Bool
unfolding confidence_rank by_text str_le
match_le a b = by_number (specificity_rank a) (specificity_rank b) (
    by_number (confidence_rank a) (confidence_rank b) (
      by_text (reason_text a.relation_reason) (reason_text b.relation_reason)
        (str_le (matched_text a) (matched_text b))))

abbrev pub is_dependent : RelationReason → Bool
is_dependent r = elim r [ dependent_component ↦ true | _ ↦ false ]

-- `_human_test_reason`
abbrev pub human_test_reason : RelatedTest → InclusionReason
human_test_reason m =
    if is_some m.matched_repository_rel_path
    then exact_file_test
    else if is_dependent m.relation_reason
    then dependent_component_test
    else if is_some m.matched_owner_id
    then same_owner_test
    else broad_fallback_suite

abbrev pub is_specific : RelatedTest → Bool
is_specific m = is_some m.matched_repository_rel_path || is_some m.matched_owner_id

abbrev pub TestItem : Type 0
TestItem = Included TestTargetDescription

abbrev pub id_of : RelatedTest → String
id_of m = m.test_id

abbrev pub item_id : TestItem → String
item_id item = item.target.test_id

abbrev pub is_text : String → Bool
is_text String.[] = false
is_text (String.◌∷◌ _ _) = true

-- `sorted(candidates, key=...)[0]`
unfoldable pub strongest : List RelatedTest → Option RelatedTest
unfolding sorted match_le
strongest candidates = elim (sorted match_le candidates) [ [] ↦ none | m ∷ _ ↦ some m ]

-- `next(candidate for candidate in matches if ...)`
unfoldable pub selected_match : List RelatedTest → TestItem → Option RelatedTest
unfolding string_eq inclusion_reason_eq
selected_match [] item = none
selected_match (m ∷ ms) item =
    let rest = selected_match ms item in
    if m.test_id == item_id item && human_test_reason m == item.inclusion_reason
    then some m
    else rest

-- `has_specific`
unfoldable pub has_specific : List RelatedTest → List TestItem → Bool
unfolding string_eq
has_specific matches = any (λ item.
    is_text (item_id item) && any (λ m. m.test_id == item_id item && is_specific m) matches)

abbrev pub broad_replaced : String
broad_replaced = "broad fallback suite replaced by more specific related tests"

module _ {E : Type 0} (is_blank : String → Bool) where
  unfoldable pub duplicate_of : String → RelatedTest → Result (ChangeError E) Excluded
  unfolding exclusion
  duplicate_of id m =
      exclusion is_blank test_target id duplicate_replaced_by_stronger_match
        "weaker duplicate test match replaced by stronger deterministic match" (id ∷ [])
        m.provenance

  -- The round of the loop for one test: its duplicates, then its item.
  unfoldable pub minimize_group :
      (String → Result E TestTargetDescription)
      → String
      → String
      → List RelatedTest
      → Result (ChangeError E) (TestItem × List Excluded)
  unfolding strongest traverse duplicate_of test_item nat_eq
  minimize_group describe anchor id candidates = elim (strongest candidates) [
    | none ↦ err no_candidate
    | some m ↦
        and_then (traverse (duplicate_of id) (filter (λ c. not (c.object == m.object)) candidates))
          λ gone. and_then (raising (describe id)) λ description.
            and_then (test_item is_blank anchor m description (human_test_reason m))
              λ item. ok (item, gone)
  ]

  unfoldable pub minimize_groups :
      (String → Result E TestTargetDescription)
      → String
      → Dict String (List RelatedTest)
      → List String
      → Result (ChangeError E) (List TestItem × List Excluded)
  unfolding minimize_group
  minimize_groups describe anchor grouped [] = ok ([], [])
  minimize_groups describe anchor grouped (id ∷ ids) =
      and_then (minimize_group describe anchor id (bucket id grouped)) λ (item, gone).
        and_then (minimize_groups describe anchor grouped ids)
          λ (items, more). ok (item ∷ items, gone ++ more)

  -- The second loop over the included items; `before` are those that it has passed.
  unfoldable pub drop_broad :
      List RelatedTest
      → List TestItem
      → List TestItem
      → Result (ChangeError E) (List TestItem × List Excluded)
  unfolding selected_match exclusion sorted str_le
  drop_broad matches before [] = ok ([], [])
  drop_broad matches before (item ∷ after) =
      let rest = drop_broad matches (before ++ item ∷ []) after in
      elim (selected_match matches item) [
        | none ↦ err unmatched
        | some m ↦
            if is_specific m
            then and_then rest (λ (kept, gone). ok (item ∷ kept, gone))
            else and_then
                (exclusion is_blank test_target (item_id item) broad_test_replaced_by_specific_tests
                  broad_replaced (sorted str_le (map item_id (before ++ after))) item.provenance)
                (λ x. and_then rest (λ (kept, gone). ok (kept, x ∷ gone)))
      ]

  abbrev pub without_broad :
      List RelatedTest
      → List TestItem × List Excluded
      → Result (ChangeError E) (List TestItem × List Excluded)
  without_broad matches (included, gone) =
      if has_specific matches included
      then and_then (drop_broad matches [] included) (λ (kept, broad). ok (kept, gone ++ broad))
      else ok (included, gone)

  unfoldable pub minimize_tests :
      (String → Result E TestTargetDescription)
      → String
      → List RelatedTest
      → Result (ChangeError E) (List TestItem × List Excluded)
  unfolding group_by sorted minimize_groups has_specific drop_broad
  minimize_tests describe anchor matches =
      let grouped = group_by id_of matches in
      and_then (minimize_groups describe anchor grouped (sorted str_le (keys grouped)))
        (without_broad matches)

  unfoldable pub runner_items :
      OwnedNodeInfo
      → List RepositoryAction
      → Result (ChangeError E) (List (Included RepositoryAction))
  unfolding runner_item
  runner_items owner [] = err runner_actions_not_one
  runner_items owner (action ∷ []) =
      and_then (runner_item is_blank owner.id action) (λ item. ok (item ∷ []))
  runner_items owner (action ∷ (_ ∷ _)) = err runner_actions_not_one
