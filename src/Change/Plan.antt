-- ===== src/Change/Plan.antt =====
-- core/minimum_verified_change_set_service.py: MinimumVerifiedChangeSetService, the change set of a
-- target in the order in which the service puts it together.
pub mod Explained
use code_suit.Base.{
  String, Bool, true, false, not, ◌&&◌, ◌||◌, Option, none, some, List, [], ◌∷◌, ◌++◌, ◌==◌, map,
  take, is_some, string_eq, if◌then◌else◌,
}
use code_suit.Base.Result.{Result, ok, err, and_then, traverse}
use code_suit.Ids.{Python, is_blank}
use code_suit.Provenance.{
  ProvenanceEntry, ownership, merge_unique_provenance, merge_provenance_paths,
}
use code_suit.Testing.{TestTargetDescription}
use code_suit.Change.{
  RelatedTest, BuildTargetDescription, RepositoryAction, OwnedNodeInfo, Component,
  DependentComponent, test_target, dependent_test_replaced_by_narrower_build, Included,
  QualityOperation, Excluded, ChangeError, no_surfaces, invalid_item, raising, summarized,
}
use code_suit.Change.Evidence.{dependent_test_item, exclusion, no_entries}
use code_suit.Change.Quality.{derived_summary_provenance, build_operations}
use code_suit.Change.Minimize.{TestItem, human_test_reason, minimize_tests, runner_items}
use code_suit.Change.Minimize.Builds.{BuildItem, minimize_build_targets}
use code_suit.Change.Resolve.{
  Repository, ResolvedTarget, ChangeTarget, resolve_target, related_tests,
  direct_dependent_components, tests_of_dependents, related_tests_for_dependent_components,
}
use code_suit.Change.Surfaces.{
  Surfaces, has, artifact_kinds, structured_artifacts_for_target, artifact_member_for_target,
}
use code_suit.Change.Explain.{entries_of, availability_exclusions, shared_file_surface_explanations}

-- `MinimumVerifiedChangeSet`
pub record ChangeSet : Type 0 where
  pub target : ResolvedTarget
  pub surfaces : Surfaces
  pub excluded_items : List Excluded
  pub provenance : List ProvenanceEntry

abbrev pub has_surface : Surfaces → Bool
has_surface s =
    has s.tests
    || has s.build_targets
    || has s.runner_actions
    || has s.quality_validation_operations
    || has s.quality_hygiene_operations

-- The validators of `MinimumVerifiedChangeSet`.
unfoldable pub change_set : {E : Type 0} → ChangeSet → Result (ChangeError E) ChangeSet
change_set c =
    if no_entries c.provenance || not (has_surface c.surfaces || has c.excluded_items)
    then err invalid_item
    else ok c

-- The entries of all items, in their order.
abbrev pub surface_entries : Surfaces → List (List ProvenanceEntry)
surface_entries s =
    map (λ i. i.provenance) s.tests
    ++ map (λ i. i.provenance) s.build_targets
    ++ map (λ i. i.provenance) s.runner_actions
    ++ map (λ o. o.provenance) s.quality_validation_operations
    ++ map (λ o. o.provenance) s.quality_hygiene_operations

abbrev pub paths_or_none :
    {E : Type 0} → List ProvenanceEntry → Result (ChangeError E) (List String)
paths_or_none [] = ok []
paths_or_none (p ∷ ps) = summarized (merge_provenance_paths (p ∷ ps) 10)

-- `_overall_provenance`
unfoldable pub overall_provenance :
    {E : Type 0} → Python → Surfaces → Bool → Result (ChangeError E) (List ProvenanceEntry)
unfolding merge_unique_provenance merge_provenance_paths derived_summary_provenance
overall_provenance py s has_exclusions =
    let merged = merge_unique_provenance (surface_entries s) in
    if has_exclusions
    then and_then (paths_or_none merged) (λ paths.
      and_then
        (derived_summary_provenance py ownership none
          "minimum verified change set excludes supersets and weaker candidates deterministically"
          (take 10 paths))
        (λ p. ok (merged ++ p ∷ [])))
    else ok merged

-- `_validate_non_empty_change_set`
unfoldable pub validate_non_empty_change_set :
    {E : Type 0} → Surfaces → List Excluded → Result (ChangeError E) (Unit {0})
validate_non_empty_change_set s availability =
    if has_surface s || has availability then ok tt else err no_surfaces

-- Tests and build targets with their exclusions: of tests, of dependent tests, of builds.
pub record Validations : Type 0 where
  pub tests : List TestItem
  pub build_targets : List BuildItem
  pub test_exclusions : List Excluded
  pub dependent_test_exclusions : List Excluded
  pub build_exclusions : List Excluded

module _ {E : Type 0} (py : Python) (repository : Repository E) where
  -- One test of a dependent, replaced by the build targets.
  unfoldable pub replaced_by_builds :
      List String → RelatedTest × List ProvenanceEntry → Result (ChangeError E) Excluded
  unfolding exclusion merge_unique_provenance
  replaced_by_builds ids (m, why) =
      exclusion (is_blank py) test_target m.test_id dependent_test_replaced_by_narrower_build
        "direct dependent component test replaced by narrower deterministic build surface" ids
        (merge_unique_provenance (why ∷ m.provenance ∷ []))

  -- One test of a dependent, included.
  unfoldable pub dependent_test :
      String → RelatedTest × List ProvenanceEntry → Result (ChangeError E) TestItem
  unfolding dependent_test_item
  dependent_test anchor (m, why) =
      and_then (raising (repository.describe_test_target m.test_id)) λ description.
        dependent_test_item (is_blank py) anchor m description why (human_test_reason m)

  -- The tests of dependents: kept where there is nothing to build, excluded otherwise.
  unfoldable pub with_dependent_matches :
      ResolvedTarget
      → Validations
      → List (RelatedTest × List ProvenanceEntry)
      → Result (ChangeError E) Validations
  unfolding traverse replaced_by_builds dependent_test
  with_dependent_matches target v matches =
      if has matches && has v.build_targets
      then and_then
          (traverse (replaced_by_builds (map (λ i. i.target.action_id) v.build_targets)) matches)
          (λ gone. ok (record v { dependent_test_exclusions = gone }))
      else if has matches
      then and_then (traverse (dependent_test target.target_anchor_id) matches)
          (λ tests. ok (record v { tests = tests }))
      else ok v

  unfoldable pub with_dependent_tests :
      ResolvedTarget → List DependentComponent → Validations → Result (ChangeError E) Validations
  unfolding tests_of_dependents with_dependent_matches
  with_dependent_tests target dependents v =
      if not (has v.tests) && has dependents
      then and_then (related_tests_for_dependent_components repository dependents)
          (with_dependent_matches target v)
      else ok v

  unfoldable pub with_dependent_builds :
      ResolvedTarget
      → Option (String × String)
      → List DependentComponent
      → Validations
      → Result (ChangeError E) Validations
  unfolding minimize_build_targets
  with_dependent_builds target member dependents v =
      if not (is_some member) && not (has v.tests) && not (has v.build_targets) && has dependents
      then and_then (raising repository.list_build_targets) (λ targets.
        and_then
          (minimize_build_targets (is_blank py) target.owner target.primary_component targets
            dependents)
          (λ (builds, gone). ok (record v { build_targets = builds; build_exclusions = gone })))
      else ok v

  -- What validates the target itself: nothing for the member of an artifact.
  unfoldable pub direct_validations :
      ResolvedTarget → Option (String × String) → Result (ChangeError E) Validations
  unfolding minimize_tests minimize_build_targets
  direct_validations target member =
      and_then (if is_some member then ok [] else related_tests repository target) λ matches.
        and_then
          (minimize_tests (is_blank py) repository.describe_test_target target.target_anchor_id
            matches)
          λ (tests, test_gone).
            and_then
              (if is_some member
                then ok ([], [])
                else and_then (raising repository.list_build_targets) (λ targets.
                  minimize_build_targets (is_blank py) target.owner target.primary_component targets
                    []))
              λ (builds, build_gone). ok (record {
                tests = tests;
                build_targets = builds;
                test_exclusions = test_gone;
                dependent_test_exclusions = [];
                build_exclusions = build_gone;
              })

  unfoldable pub validations :
      ResolvedTarget
      → Option (String × String)
      → List DependentComponent
      → Result (ChangeError E) Validations
  unfolding direct_validations with_dependent_tests with_dependent_builds
  validations target member dependents = and_then (direct_validations target member) λ v.
      and_then (with_dependent_tests target dependents v)
        (with_dependent_builds target member dependents)

  unfoldable pub runner_surface :
      ResolvedTarget → Result (ChangeError E) (List (Included RepositoryAction))
  unfolding runner_items string_eq
  runner_surface target =
      if target.owner.kind == "runner"
      then and_then (raising (repository.list_runner_actions target.owner.id))
          (runner_items (is_blank py) target.owner)
      else ok []

  unfoldable pub quality_surface :
      ResolvedTarget
      → Option (String × String)
      → Result (ChangeError E) (List QualityOperation × List QualityOperation)
  unfolding build_operations
  quality_surface target member =
      if has target.relevant_files && not (is_some member)
      then and_then (raising (repository.provider_ids_for_files target.relevant_files))
          (build_operations py target.target_anchor_id target.relevant_files)
      else ok ([], [])

  abbrev pub surfaces_of :
      Validations
      → List (Included RepositoryAction)
      → List QualityOperation × List QualityOperation
      → Surfaces
  surfaces_of v runners (lints, formats) = record {
    tests = v.tests;
    build_targets = v.build_targets;
    runner_actions = runners;
    quality_validation_operations = lints;
    quality_hygiene_operations = formats;
  }

  -- The explanations, the provenance and the last checks.
  unfoldable pub concluded :
      ResolvedTarget
      → Option (String × String)
      → Validations
      → Surfaces
      → Result (ChangeError E) ChangeSet
  unfolding availability_exclusions shared_file_surface_explanations overall_provenance
      validate_non_empty_change_set change_set
  concluded target member v s =
      and_then (availability_exclusions py repository target member s) λ availability.
        and_then (shared_file_surface_explanations py target s) λ breadth.
          let excluded : List Excluded =
            v.test_exclusions ++ v.dependent_test_exclusions ++ v.build_exclusions ++ breadth
            ++ availability in
          and_then (overall_provenance py s (has excluded)) λ provenance.
            and_then (validate_non_empty_change_set s availability) λ _. change_set (record {
              target = target;
              surfaces = s;
              excluded_items = excluded;
              provenance = provenance;
            })

  abbrev pub dependents_unless :
      Bool → ResolvedTarget → Result (ChangeError E) (List DependentComponent)
  dependents_unless true target = ok []
  dependents_unless false target = direct_dependent_components repository target

  unfoldable pub get_minimum_verified_change_set : ChangeTarget → Result (ChangeError E) ChangeSet
  unfolding resolve_target artifact_member_for_target artifact_kinds direct_dependent_components
      validations runner_surface quality_surface concluded
  get_minimum_verified_change_set asked = and_then (resolve_target repository asked) λ target.
      and_then (artifact_member_for_target py repository target) λ member.
        and_then (structured_artifacts_for_target repository target) λ kinds.
          and_then (dependents_unless (has kinds || is_some member) target) λ dependents.
            and_then (validations target member dependents) λ v.
              and_then (runner_surface target) λ runners.
                and_then (quality_surface target member)
                  λ operations. concluded target member v (surfaces_of v runners operations)
