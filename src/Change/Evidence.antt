-- ===== src/Change/Evidence.antt =====
-- core/minimum_verified_change_set_service.py: MinimumVerifiedEvidenceAssembler, with the validators
-- of the models that it builds. `is_blank` is Python's `not value.strip()`; a text that is written
-- out in the source is not blank.
pub mod Items
use code_suit.Base.{
  String, Bool, true, false, not, ◌||◌, Option, none, some, List, [], ◌∷◌, any, nodup, string_eq,
  if◌then◌else◌,
}
use code_suit.Base.Result.{Result, ok, err, and_then}
use code_suit.Provenance.{ProvenanceEntry, merge_unique_provenance, preferred_confidence_mode}
use code_suit.Testing.{TestTargetDescription}
use code_suit.Change.{
  RelatedTest, ActionKind, runner_execution, BuildTargetDescription, RepositoryAction, ItemKind,
  ExclusionReason, EdgeKind, target_test_target, component_build_target, target_runner_action,
  InclusionReason, owned_by_runner, EvidenceEdge, Included, Excluded, ChangeError, invalid_item,
  summarized,
}

abbrev pub no_entries : {A : Type 0} → List A → Bool
no_entries [] = true
no_entries (_ ∷ _) = false

abbrev pub is_runner_execution : ActionKind → Bool
is_runner_execution k = elim k [ runner_execution ↦ true | _ ↦ false ]

module _ {E : Type 0} (is_blank : String → Bool) where
  -- The validators of `MinimumVerifiedEvidenceEdge`.
  unfoldable pub edge : EvidenceEdge → Result (ChangeError E) EvidenceEdge
  edge e =
      if is_blank e.source_node_id || is_blank e.target_node_id || no_entries e.provenance
      then err invalid_item
      else ok e

  -- The confidence and the validator of an included item with one proof edge.
  unfoldable pub item_of :
      {A : Type 0}
      → A
      → InclusionReason
      → EvidenceEdge
      → List ProvenanceEntry
      → Result (ChangeError E) (Included A)
  unfolding preferred_confidence_mode
  item_of a reason e provenance =
      and_then (summarized (preferred_confidence_mode provenance)) (λ mode.
        if no_entries provenance
        then err invalid_item
        else ok (record {
          target = a;
          inclusion_reason = reason;
          inclusion_confidence_mode = mode;
          proof_edges = e ∷ [];
          provenance = provenance;
        }))

  -- `_merged_provenance` is `merge_unique_provenance` written again.
  unfoldable pub test_item :
      String
      → RelatedTest
      → TestTargetDescription
      → InclusionReason
      → Result (ChangeError E) (Included TestTargetDescription)
  unfolding merge_unique_provenance edge item_of
  test_item anchor match description reason =
      and_then
        (edge (record {
          source_node_kind = "change_target";
          source_node_id = anchor;
          target_node_kind = "test_target";
          target_node_id = description.test_id;
          edge_kind = target_test_target;
          reason = reason;
          provenance = match.provenance;
        }))
        (λ e.
          item_of description reason e
            (merge_unique_provenance (match.provenance ∷ description.provenance ∷ [])))

  unfoldable pub build_item :
      String
      → String
      → BuildTargetDescription
      → InclusionReason
      → EdgeKind
      → Result (ChangeError E) (Included BuildTargetDescription)
  unfolding edge item_of
  build_item node_kind node_id target reason edge_kind =
      and_then
        (edge (record {
          source_node_kind = node_kind;
          source_node_id = node_id;
          target_node_kind = "build_target";
          target_node_id = target.action_id;
          edge_kind = edge_kind;
          reason = reason;
          provenance = target.provenance;
        }))
        (λ e. item_of target reason e target.provenance)

  unfoldable pub dependent_test_item :
      String
      → RelatedTest
      → TestTargetDescription
      → List ProvenanceEntry
      → InclusionReason
      → Result (ChangeError E) (Included TestTargetDescription)
  unfolding merge_unique_provenance edge item_of
  dependent_test_item anchor match description dependency reason =
      let proof =
        merge_unique_provenance (dependency ∷ match.provenance ∷ description.provenance ∷ []) in
      and_then
        (edge (record {
          source_node_kind = "change_target";
          source_node_id = anchor;
          target_node_kind = "test_target";
          target_node_id = description.test_id;
          edge_kind = target_test_target;
          reason = reason;
          provenance = proof;
        }))
        (λ e. item_of description reason e proof)

  unfoldable pub dependent_build_item :
      String
      → BuildTargetDescription
      → List ProvenanceEntry
      → InclusionReason
      → Result (ChangeError E) (Included BuildTargetDescription)
  unfolding merge_unique_provenance edge item_of
  dependent_build_item component_id target dependency reason =
      let proof = merge_unique_provenance (dependency ∷ target.provenance ∷ []) in
      and_then
        (edge (record {
          source_node_kind = "component";
          source_node_id = component_id;
          target_node_kind = "build_target";
          target_node_id = target.action_id;
          edge_kind = component_build_target;
          reason = reason;
          provenance = proof;
        }))
        (λ e. item_of target reason e proof)

  unfoldable pub runner_item :
      String → RepositoryAction → Result (ChangeError E) (Included RepositoryAction)
  unfolding edge item_of
  runner_item owner_id action =
      and_then
        (edge (record {
          source_node_kind = "owner";
          source_node_id = owner_id;
          target_node_kind = "runner_action";
          target_node_id = action.id;
          edge_kind = target_runner_action;
          reason = owned_by_runner;
          provenance = action.provenance;
        }))
        (λ e.
          and_then (item_of action owned_by_runner e action.provenance)
            (λ item. if is_runner_execution action.kind then ok item else err invalid_item))

  -- The validators of `ExcludedMinimumVerifiedItem`.
  unfoldable pub exclusion :
      ItemKind
      → String
      → ExclusionReason
      → String
      → List String
      → List ProvenanceEntry
      → Result (ChangeError E) Excluded
  unfolding string_eq
  exclusion kind id code reason replaced_by provenance =
      if is_blank id
        || is_blank reason
        || any is_blank replaced_by
        || not (nodup replaced_by)
        || no_entries provenance
      then err invalid_item
      else ok (record {
        item_kind = kind;
        item_id = id;
        reason_code = code;
        reason = reason;
        replaced_by_ids = replaced_by;
        provenance = provenance;
      })
