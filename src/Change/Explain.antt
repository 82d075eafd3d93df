-- ===== src/Change/Explain.antt =====
-- core/minimum_verified_change_set_service.py: `_availability_exclusions` and
-- `_shared_file_surface_explanations`.
use code_suit.Base.{
  String, Bool, not, ◌&&◌, ◌||◌, Option, none, some, List, [], ◌∷◌, ◌++◌, ◌==◌, all, string_eq,
  if◌then◌else◌,
}
use code_suit.Base.Result.{Result, ok, and_then}
use code_suit.Ids.{Python, is_blank}
use code_suit.Provenance.{ProvenanceEntry, ownership, document, merge_unique_provenance}
use code_suit.Change.{
  ItemKind, ExclusionReason, test_target, validation_surface,
  no_deterministic_test_targets_available, no_narrower_direct_validation_surface_for_file_target,
  no_deterministic_validation_surface_for_artifact_member,
  no_deterministic_validation_surfaces_for_provider_owned_artifact, dependent_component_test,
  dependent_build, inclusion_reason_eq, Excluded, ChangeError, text,
}
use code_suit.Change.Evidence.{exclusion}
use code_suit.Change.Quality.{derived_summary_provenance, alone}
use code_suit.Change.Resolve.{Repository, ResolvedTarget, sorted_set}
use code_suit.Change.Surfaces.{
  Surfaces, has, target_descriptor, surface_paths, is_file, joined, remaining_surfaces,
  no_tests_reason, artifact_kinds, structured_artifacts_for_target,
}

-- `tuple(entry for item in items for entry in item.provenance)`
abbrev pub entries_of : {A : Type 0} → (A → List ProvenanceEntry) → List A → List ProvenanceEntry
entries_of f [] = []
entries_of f (a ∷ xs) = f a ++ entries_of f xs

-- Only tests and builds of dependents, and some of them.
unfoldable pub is_dependent_only : Surfaces → Bool
unfolding inclusion_reason_eq
is_dependent_only s =
    not (
      has s.runner_actions
      || has s.quality_validation_operations
      || has s.quality_hygiene_operations)
    && (has s.tests || has s.build_targets)
    && all (λ i. i.inclusion_reason == dependent_component_test) s.tests
    && all (λ i. i.inclusion_reason == dependent_build) s.build_targets

module _ {E : Type 0} (py : Python) where
  unfoldable pub explained :
      ItemKind
      → String
      → ExclusionReason
      → String
      → Result (ChangeError E) (List ProvenanceEntry)
      → Result (ChangeError E) (List Excluded)
  unfolding exclusion
  explained kind id code reason provenance =
      and_then provenance
        λ ps. and_then (exclusion (is_blank py) kind id code reason [] ps) (λ x. ok (x ∷ []))

  -- For a member of an artifact.
  unfoldable pub explain_artifact_member :
      ResolvedTarget → String × String → Result (ChangeError E) (List Excluded)
  unfolding explained text derived_summary_provenance
  explain_artifact_member target (component_id, root) =
      explained validation_surface
        (text ("validation_surface:artifact:" ∷ target_descriptor target ∷ []))
        no_deterministic_validation_surface_for_artifact_member
        (text (
          "target is an explicit owned artifact member under `" ∷ root ∷ "` for component `"
          ∷ component_id ∷ "` and no narrower deterministic validation surface is available" ∷ []))
        (alone (
          derived_summary_provenance py ownership none
            "explicit artifact member target has no inherited deterministic source validation surface"
            (surface_paths target)))

  -- For files that are structured artifacts.
  unfoldable pub explain_structured :
      ResolvedTarget → List String → Result (ChangeError E) (List Excluded)
  unfolding explained text sorted_set joined derived_summary_provenance
  explain_structured target kinds =
      explained validation_surface (text ("validation_surface:" ∷ target_descriptor target ∷ []))
        no_deterministic_validation_surfaces_for_provider_owned_artifact
        (text (
          "target is provider-owned structured artifact content and exposes no deterministic validation surface; "
          ∷ "supported artifact kinds: "
          ∷ joined (sorted_set kinds)
          ∷ []))
        (alone (
          derived_summary_provenance py document (some "structured_artifact")
            "provider-owned structured artifact target has no deterministic validation surface"
            (surface_paths target)))

  -- For surfaces without tests.
  unfoldable pub no_tests_exclusion :
      ResolvedTarget → Surfaces → Result (ChangeError E) (List Excluded)
  unfolding explained text no_tests_reason derived_summary_provenance
  no_tests_exclusion target s =
      explained test_target (text ("test_surface:" ∷ target.owner.id ∷ []))
        no_deterministic_test_targets_available (no_tests_reason py target s)
        (alone (
          derived_summary_provenance py ownership none
            "absence of deterministic test targets established from provider-owned validation surfaces"
            (surface_paths target)))

  unfoldable pub explain_no_tests :
      ResolvedTarget → Surfaces → Result (ChangeError E) (List Excluded)
  unfolding no_tests_exclusion
  explain_no_tests target s =
      if has s.tests || not (has (remaining_surfaces s)) then ok [] else no_tests_exclusion target s

  abbrev pub explain_kinds :
      ResolvedTarget → Surfaces → List String → Result (ChangeError E) (List Excluded)
  explain_kinds target s [] = explain_no_tests target s
  explain_kinds target s (k ∷ ks) = explain_structured target (k ∷ ks)

  unfoldable pub availability_exclusions :
      Repository E
      → ResolvedTarget
      → Option (String × String)
      → Surfaces
      → Result (ChangeError E) (List Excluded)
  unfolding explain_artifact_member explain_structured explain_no_tests artifact_kinds
  availability_exclusions repository target (some member) s = explain_artifact_member target member
  availability_exclusions repository target none s =
      and_then (structured_artifacts_for_target repository target) (explain_kinds target s)

  unfoldable pub shared_file_surface_explanations :
      ResolvedTarget → Surfaces → Result (ChangeError E) (List Excluded)
  unfolding explained text is_dependent_only merge_unique_provenance derived_summary_provenance
  shared_file_surface_explanations target s =
      if not (is_file target.target_kind && is_dependent_only s)
      then ok []
      else explained validation_surface
          (text ("validation_surface:breadth:" ∷ target_descriptor target ∷ []))
          no_narrower_direct_validation_surface_for_file_target
          (text (
            "this file has no narrower direct deterministic validation surface; "
            ∷ "the listed validations are dependent-package surfaces required because the file is shared"
            ∷ []))
          (and_then
            (derived_summary_provenance py ownership none
              "file target has no narrower direct deterministic validation surface; dependent validation surfaces are required because the file is shared"
              (surface_paths target))
            λ p. ok (
              merge_unique_provenance (
                entries_of (λ i. i.provenance) s.tests
                ∷ entries_of (λ i. i.provenance) s.build_targets
                ∷ (p ∷ [])
                ∷ [])))
