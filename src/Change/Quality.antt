-- ===== src/Change/Quality.antt =====
-- core/minimum_verified_change_set_service.py: MinimumVerifiedQualityPlanner.
pub mod Planned
use code_suit.Base.{
  String, Bool, true, false, not, ◌&&◌, ◌||◌, Option, none, some, List, [], ◌∷◌, ◌++◌, contains,
  string_eq, take, ◌==◌, if◌then◌else◌,
}
use code_suit.Base.Result.{Result, ok, err, and_then, map_ok}
use code_suit.Ids.{Python, is_blank, normalize_repository_relative_path}
use code_suit.Provenance.{
  ProvenanceEntry, ConfidenceMode, SourceKind, quality_tool, derived, preferred_confidence_mode,
}
use code_suit.Provenance.Entries.{provenance_entry}
use code_suit.Change.{
  QualityOperation, QualityOperationKind, QualityOperationScope, lint, format, validation, hygiene,
  EdgeKind, target_quality_validation, target_quality_hygiene, InclusionReason, lint_applies,
  format_applies, EvidenceEdge, ChangeError, invalid_item, summarized, text,
}
use code_suit.Change.Evidence.{edge, no_entries}

-- core/provenance_builders.py. The class's validators may refuse the texts or the paths.
unfoldable pub derived_summary_provenance :
    {E : Type 0}
    → Python
    → SourceKind
    → Option String
    → String
    → List String
    → Result (ChangeError E) ProvenanceEntry
unfolding provenance_entry
derived_summary_provenance py kind tool summary paths =
    elim (provenance_entry py (record {
      confidence_mode = derived;
      source_kind = kind;
      source_tool = tool;
      evidence_summary = summary;
      evidence_paths = paths;
    })) [ none ↦ err invalid_item | some p ↦ ok p ]

-- `(entry,)`
abbrev pub alone : {E A : Type 0} → Result E A → Result E (List A)
alone = map_ok (λ p. p ∷ [])

abbrev pub is_validation : QualityOperationScope → Bool
is_validation s = elim s [ validation ↦ true | hygiene ↦ false ]

abbrev pub is_false : Option Bool → Bool
is_false none = false
is_false (some b) = not b

abbrev pub is_none : Option Bool → Bool
is_none none = true
is_none (some b) = false

-- The part of `_validate_shape` that depends on the operation.
unfoldable pub shape_ok :
    QualityOperationKind → QualityOperationScope → String → Option Bool → Bool → Bool
unfolding string_eq
shape_ok lint scope tool is_fix mutating =
    is_validation scope && tool == "lint_file" && is_false is_fix && not mutating
shape_ok format scope tool is_fix mutating =
    not (is_validation scope) && tool == "format_file" && is_none is_fix && mutating

module _ (py : Python) where
  -- The paths in one spelling; none for a path that is out of the repository or there twice.
  unfoldable pub distinct_paths : List String → List String → Option (List String)
  unfolding normalize_repository_relative_path string_eq
  distinct_paths normalized [] = some normalized
  distinct_paths normalized (p ∷ ps) = elim (normalize_repository_relative_path py p) [
    | none ↦ none
    | some q ↦ if contains normalized q then none else distinct_paths (normalized ++ q ∷ []) ps
  ]

  -- `_validate_repository_rel_paths`
  unfoldable pub paths_of : List String → Option (List String)
  unfolding distinct_paths
  paths_of [] = none
  paths_of (p ∷ ps) = distinct_paths [] (p ∷ ps)

-- What distinguishes the two operations of a provider.
pub record Plan : Type 0 where
  pub operation : QualityOperationKind
  pub scope : QualityOperationScope
  pub id_suffix : String
  pub mcp_tool_name : String
  pub is_fix : Option Bool
  pub is_mutating : Bool
  pub reason : InclusionReason
  pub summary : String
  pub edge_kind : EdgeKind

abbrev pub lint_plan : Plan
lint_plan = record {
  operation = lint;
  scope = validation;
  id_suffix = ":lint";
  mcp_tool_name = "lint_file";
  is_fix = some false;
  is_mutating = false;
  reason = lint_applies;
  summary = "non-mutating lint validation applies to the exact affected file set";
  edge_kind = target_quality_validation;
}

abbrev pub format_plan : Plan
format_plan = record {
  operation = format;
  scope = hygiene;
  id_suffix = ":format";
  mcp_tool_name = "format_file";
  is_fix = none;
  is_mutating = true;
  reason = format_applies;
  summary = "format hygiene applies to the exact affected file set";
  edge_kind = target_quality_hygiene;
}

unfoldable pub plan_id : Plan → String → String
unfolding text
plan_id plan provider = text ("quality_op:" ∷ provider ∷ plan.id_suffix ∷ [])

unfoldable pub plan_provenance :
    {E : Type 0}
    → Python
    → Plan
    → List String
    → String
    → Result (ChangeError E) (List ProvenanceEntry)
unfolding derived_summary_provenance
plan_provenance py plan files provider =
    alone (derived_summary_provenance py quality_tool (some provider) plan.summary (take 10 files))

abbrev pub plan_edge : Plan → String → String → List ProvenanceEntry → EvidenceEdge
plan_edge plan anchor provider provenance = record {
  source_node_kind = "change_target";
  source_node_id = anchor;
  target_node_kind = "quality_operation";
  target_node_id = plan_id plan provider;
  edge_kind = plan.edge_kind;
  reason = plan.reason;
  provenance = provenance;
}

abbrev pub planned :
    Plan
    → List String
    → String
    → List ProvenanceEntry
    → ConfidenceMode
    → EvidenceEdge
    → QualityOperation
planned plan files provider provenance mode e = record {
  id = plan_id plan provider;
  provider_id = provider;
  operation = plan.operation;
  scope = plan.scope;
  repository_rel_paths = files;
  mcp_tool_name = plan.mcp_tool_name;
  is_fix = plan.is_fix;
  is_mutating = plan.is_mutating;
  inclusion_reason = plan.reason;
  inclusion_confidence_mode = mode;
  proof_edges = e ∷ [];
  provenance = provenance;
}

module _ {E : Type 0} (py : Python) where
  -- The validators of `MinimumVerifiedQualityOperation`.
  unfoldable pub quality_operation_of : QualityOperation → Result (ChangeError E) QualityOperation
  unfolding shape_ok paths_of
  quality_operation_of op =
      if is_blank py op.id
        || is_blank py op.provider_id
        || is_blank py op.mcp_tool_name
        || no_entries op.proof_edges
        || no_entries op.provenance
        || not (shape_ok op.operation op.scope op.mcp_tool_name op.is_fix op.is_mutating)
      then err invalid_item
      else elim (paths_of py op.repository_rel_paths) [
        | none ↦ err invalid_item
        | some paths ↦ ok (record op { repository_rel_paths = paths })
      ]

  -- The operation whose provenance was made.
  unfoldable pub plan_with :
      Plan
      → String
      → List String
      → String
      → List ProvenanceEntry
      → Result (ChangeError E) QualityOperation
  unfolding edge preferred_confidence_mode quality_operation_of plan_id
  plan_with plan anchor files provider provenance =
      and_then (summarized (preferred_confidence_mode provenance)) λ mode.
        and_then (edge (is_blank py) (plan_edge plan anchor provider provenance))
          λ e. quality_operation_of (planned plan files provider provenance mode e)

  -- The source makes the provenance of both operations first; whatever is refused raises one error.
  unfoldable pub plan_one :
      Plan → String → List String → String → Result (ChangeError E) QualityOperation
  unfolding plan_provenance plan_with
  plan_one plan anchor files provider =
      and_then (plan_provenance py plan files provider) (plan_with plan anchor files provider)

  -- The validation and the hygiene operations, one of each for every provider.
  unfoldable pub build_operations :
      String
      → List String
      → List String
      → Result (ChangeError E) (List QualityOperation × List QualityOperation)
  unfolding plan_one
  build_operations anchor files [] = ok ([], [])
  build_operations anchor files (p ∷ ps) = and_then (plan_one lint_plan anchor files p) λ l.
      and_then (plan_one format_plan anchor files p)
        λ f. and_then (build_operations anchor files ps) λ rest. ok (l ∷ rest.0, f ∷ rest.1)
