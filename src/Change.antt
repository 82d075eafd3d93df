-- ===== src/Change.antt =====
-- src/suitcode/core/minimum_verified_change_set_models.py and the models it reads: what has to be
-- built, run and checked after a change, and why. Of each model the fields are kept that the service
-- reads or writes. A reason for which something is included is an enumeration that stands for its text.
pub mod Evidence
pub mod Quality
pub mod Minimize
pub mod Resolve
pub mod Surfaces
pub mod Explain
pub mod Plan
mod Tests
use code_suit.Base.{
  ℕ, String, Bool, true, false, not, ◌||◌, Option, none, some, List, [], ◌∷◌, Eq, any, nodup,
  string_eq, if◌then◌else◌,
}
use code_suit.Base.Result.{Result, ok, err}
use code_suit.Provenance.{ConfidenceMode, ProvenanceEntry, SummaryError}
use code_suit.Testing.{TestTargetDescription, is_authoritative_test_provenance}
use Prim.Native.String

-- The values that `relation_reason` may have.
pub data RelationReason : Type 0 where
  same_owner same_component same_package dependent_component : RelationReason
  repository_default_suite : RelationReason

-- `ResolvedRelatedTest`, a match joined with the test that was discovered. `object` tells it apart
-- from an equal one, as `is` does.
pub record RelatedTest : Type 0 where
  pub object : ℕ
  pub test_id : String
  pub relation_reason : RelationReason
  pub matched_owner_id : Option String
  pub matched_repository_rel_path : Option String
  pub provenance : List ProvenanceEntry

-- `ResolvedRelatedTest.is_authoritative`
unfoldable pub is_authoritative : RelatedTest → Bool
unfolding is_authoritative_test_provenance
is_authoritative match = is_authoritative_test_provenance match.provenance

pub data ActionTargetKind : Type 0 where
  repository_target component_target runner_target test_target_kind : ActionTargetKind

pub data ActionKind : Type 0 where
  test_execution runner_execution build_execution : ActionKind

pub record BuildTargetDescription : Type 0 where
  pub action_id : String
  pub provider_id : String
  pub target_id : String
  pub target_kind : ActionTargetKind
  pub owner_ids : List String
  pub provenance : List ProvenanceEntry

pub record RepositoryAction : Type 0 where
  pub id : String
  pub kind : ActionKind
  pub provenance : List ProvenanceEntry

pub record OwnedNodeInfo : Type 0 where
  pub id : String
  pub kind : String

pub record Component : Type 0 where
  pub id : String
  pub source_roots : List String
  pub artifact_paths : List String

pub record ComponentDependencyEdge : Type 0 where
  pub target_kind : String
  pub target_id : String
  pub provenance : List ProvenanceEntry

-- `_ResolvedDependentComponent`
pub record DependentComponent : Type 0 where
  pub component : Component
  pub dependency_edges : List ComponentDependencyEdge

pub data ItemKind : Type 0 where
  test_target build_target runner_action quality_operation validation_surface : ItemKind

-- `MinimumVerifiedExclusionReason`, with the names of its members.
pub data ExclusionReason : Type 0 where
  duplicate_replaced_by_stronger_match broad_test_replaced_by_specific_tests : ExclusionReason
  dependent_test_replaced_by_narrower_build : ExclusionReason
  repository_build_replaced_by_narrower_build : ExclusionReason
  no_deterministic_test_targets_available : ExclusionReason
  no_narrower_direct_validation_surface_for_file_target : ExclusionReason
  no_deterministic_validation_surface_for_artifact_member : ExclusionReason
  no_deterministic_validation_surfaces_for_provider_owned_artifact : ExclusionReason

pub data QualityOperationScope : Type 0 where
  validation hygiene : QualityOperationScope

pub data QualityOperationKind : Type 0 where
  lint format : QualityOperationKind

pub data EdgeKind : Type 0 where
  target_test_target component_build_target owner_build_target : EdgeKind
  target_runner_action target_quality_validation target_quality_hygiene : EdgeKind

-- The texts of `inclusion_reason`: of tests, of build targets, and of the rest.
pub data InclusionReason : Type 0 where
  exact_file_test dependent_component_test same_owner_test broad_fallback_suite : InclusionReason
  component_scoped_build owner_associated_build dependent_build repository_wide_build :
      InclusionReason
  owned_by_runner lint_applies format_applies : InclusionReason

unfoldable pub InclusionReason-discrete : Discrete InclusionReason
InclusionReason-discrete = hlevel

instance unfoldable pub inclusion_reason_eq : Eq InclusionReason
unfolding InclusionReason-discrete
inclusion_reason_eq = record { dec = InclusionReason-discrete }

pub record EvidenceEdge : Type 0 where
  pub source_node_kind : String
  pub source_node_id : String
  pub target_node_kind : String
  pub target_node_id : String
  pub edge_kind : EdgeKind
  pub reason : InclusionReason
  pub provenance : List ProvenanceEntry

-- `MinimumVerifiedTestTarget`, `MinimumVerifiedBuildTarget` and `MinimumVerifiedRunnerAction`: the
-- same fields around a description, a build target or an action.
pub record Included (A : Type 0) : Type 0 where
  pub target : A
  pub inclusion_reason : InclusionReason
  pub inclusion_confidence_mode : ConfidenceMode
  pub proof_edges : List EvidenceEdge
  pub provenance : List ProvenanceEntry

pub record QualityOperation : Type 0 where
  pub id : String
  pub provider_id : String
  pub operation : QualityOperationKind
  pub scope : QualityOperationScope
  pub repository_rel_paths : List String
  pub mcp_tool_name : String
  pub is_fix : Option Bool
  pub is_mutating : Bool
  pub inclusion_reason : InclusionReason
  pub inclusion_confidence_mode : ConfidenceMode
  pub proof_edges : List EvidenceEdge
  pub provenance : List ProvenanceEntry

pub record Excluded : Type 0 where
  pub item_kind : ItemKind
  pub item_id : String
  pub reason_code : ExclusionReason
  pub reason : String
  pub replaced_by_ids : List String
  pub provenance : List ProvenanceEntry

-- What the service can raise. `raised` comes from the repository; `invalid_item` from the validator
-- of a model; `unmatched` and `no_candidate` are a search and an index that find nothing.
pub data ChangeError (E : Type 0) : Type 0 where
  raised : E → ChangeError E
  summary_error : SummaryError → ChangeError E
  invalid_item unmatched no_candidate runner_actions_not_one no_surfaces unknown_component :
      ChangeError E

abbrev pub raising : {E A : Type 0} → Result E A → Result (ChangeError E) A
raising (ok a) = ok a
raising (err e) = err (raised e)

abbrev pub summarized : {E A : Type 0} → Result SummaryError A → Result (ChangeError E) A
summarized (ok a) = ok a
summarized (err e) = err (summary_error e)

-- A text put together from several.
unfoldable pub text : List String → String
text [] = ""
text (s ∷ ss) = String.◌++◌ s (text ss)
