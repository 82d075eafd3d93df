-- ===== src/Graph/Types.antt =====
-- core/models/graph_types.py, nodes.py, edges.py and errors.py: the data of the graph.
use code_suit.Base.{
  String, Bool, true, false, not, ◌&&◌, ◌||◌, Option, none, some, List, [], ◌∷◌, Eq, ◌==◌, any, all,
  if◌then◌else◌, str_dec,
}
use code_suit.Base.Int.{ℤ, int_le}
use code_suit.Provenance.{ProvenanceEntry, SourceKind, lsp, ownership, syntax, source_kind_eq}

pub data NodeKind : Type 0 where
  repository build_system component aggregator runner : NodeKind
  test_definition package_manager external_package file entity : NodeKind

pub data EdgeKind : Type 0 where
  depends_on contains file_contains_entity runs produces : EdgeKind

-- The text of the `StrEnum`, by which kinds are ordered and stored.
unfoldable pub edge_kind_value : EdgeKind → String
edge_kind_value depends_on = "depends_on"
edge_kind_value contains = "contains"
edge_kind_value file_contains_entity = "file_contains_entity"
edge_kind_value runs = "runs"
edge_kind_value produces = "produces"

unfoldable pub NodeKind-discrete : Discrete NodeKind
NodeKind-discrete = hlevel

unfoldable pub EdgeKind-discrete : Discrete EdgeKind
EdgeKind-discrete = hlevel

instance unfoldable pub node_kind_eq : Eq NodeKind
unfolding NodeKind-discrete
node_kind_eq = record { dec = NodeKind-discrete }

instance unfoldable pub edge_kind_eq : Eq EdgeKind
unfolding EdgeKind-discrete
edge_kind_eq = record { dec = EdgeKind-discrete }

pub data BuildSystemKind : Type 0 where
  cmake cargo go npm pip bazel other : BuildSystemKind

pub data ProgrammingLanguage : Type 0 where
  python cpp c java javascript typescript go rust other : ProgrammingLanguage

pub data ComponentKind : Type 0 where
  library binary service package_kind other : ComponentKind

pub data TestFramework : Type 0 where
  go_test pytest unittest gtest junit other : TestFramework

pub record Evidence : Type 0 where
  pub id : String
  pub file_path : Option String
  pub line_start : Option ℤ
  pub line_end : Option ℤ
  pub tool : Option String
  pub message : Option String
  pub log_path : Option String

-- The fields that each subclass of `GraphNode` adds. The class fixes the node's kind.
pub data NodeDetail : Type 0 where
  repository_info : (root_path : String) → NodeDetail
  build_system_info :
      (build_system : BuildSystemKind) (configuration_name : String)
      (tool_version structural_fingerprint : Option String)
      → NodeDetail
  component_info :
      (component_kind : ComponentKind) (language : ProgrammingLanguage)
      (source_roots artifact_paths : List String)
      → NodeDetail
  aggregator_info : NodeDetail
  runner_info : (argv : List String) (cwd : Option String) → NodeDetail
  test_definition_info : (framework : TestFramework) (test_files : List String) → NodeDetail
  package_manager_info : (manager : String) (lockfile_path : Option String) → NodeDetail
  external_package_info : (manager_id version_spec : Option String) → NodeDetail
  file_info :
      (repository_rel_path : String) (language : Option ProgrammingLanguage) (owner_id : String)
      → NodeDetail
  entity_info :
      (repository_rel_path entity_kind : String)
      (line_start line_end column_start column_end : Option ℤ) (signature : Option String)
      → NodeDetail

pub record GraphNode : Type 0 where
  pub id : String
  pub name : String
  pub evidence_ids : List String
  pub provenance : List ProvenanceEntry
  pub detail : NodeDetail

unfoldable pub detail_kind : NodeDetail → NodeKind
detail_kind (repository_info _) = repository
detail_kind (build_system_info _ _ _ _) = build_system
detail_kind (component_info _ _ _ _) = component
detail_kind aggregator_info = aggregator
detail_kind (runner_info _ _) = runner
detail_kind (test_definition_info _ _) = test_definition
detail_kind (package_manager_info _ _) = package_manager
detail_kind (external_package_info _ _) = external_package
detail_kind (file_info _ _ _) = file
detail_kind (entity_info _ _ _ _ _ _ _) = entity

abbrev pub node_kind : GraphNode → NodeKind
node_kind n = detail_kind n.detail

pub record Edge : Type 0 where
  pub kind : EdgeKind
  pub src : String
  pub dst : String
  pub evidence_ids : List String

abbrev pub EdgeKey : Type 0
EdgeKey = String × EdgeKind × String

abbrev pub edge_key : Edge → EdgeKey
edge_key e = (e.src, e.kind, e.dst)

unfoldable pub EdgeKey-discrete : Discrete EdgeKey
unfolding str_dec EdgeKind-discrete
EdgeKey-discrete = hlevel (str_dec, EdgeKind-discrete)

instance unfoldable pub edge_key_eq : Eq EdgeKey
unfolding EdgeKey-discrete
edge_key_eq = record { dec = EdgeKey-discrete }

-- The exceptions, `ValueError`, `KeyError` and sqlite3's `OperationalError` among them.
pub data GraphError : Type 0 where
  integrity_error store_error query_limit_error not_found_error scope_error : GraphError
  value_error key_error operational_error validation_error : GraphError

-- `line_end must be >= line_start`, where both are given
unfoldable pub range_ok : Option ℤ → Option ℤ → Bool
range_ok (some a) (some b) = int_le a b
range_ok none _ = true
range_ok (some _) none = true

unfoldable pub evidence_ok : Evidence → Bool
unfolding range_ok
evidence_ok v = range_ok v.line_start v.line_end

abbrev pub nonempty {ℓ} : {A : Type ℓ} → List A → Bool
nonempty [] = false
nonempty (_ ∷ _) = true

abbrev pub from_kind : SourceKind → ProvenanceEntry → Bool
from_kind k p = p.source_kind == k

-- `line_start is None or line_end is None or line_start == line_end`
one_line : Option ℤ → Option ℤ → Bool
one_line (some a) (some b) = int_le a b && int_le b a
one_line none _ = true
one_line (some _) none = true

-- The model validators of each class: what a node must satisfy to exist.
unfoldable pub node_ok : List ProvenanceEntry → NodeDetail → Bool
unfolding one_line range_ok source_kind_eq
node_ok ps (repository_info _) = true
node_ok ps (build_system_info _ _ _ _) = true
node_ok ps (component_info _ _ _ _) = nonempty ps && not (any (from_kind lsp) ps)
node_ok ps aggregator_info = nonempty ps && not (any (from_kind lsp) ps)
node_ok ps (runner_info _ _) = nonempty ps && not (all (from_kind ownership) ps)
node_ok ps (test_definition_info _ _) = nonempty ps
node_ok ps (package_manager_info _ _) = nonempty ps && not (any (from_kind lsp) ps)
node_ok ps (external_package_info _ _) = nonempty ps && not (any (from_kind lsp) ps)
node_ok ps (file_info _ _ _) = nonempty ps
node_ok ps (entity_info _ _ l0 l1 c0 c1 _) =
    nonempty ps
    && any (λ p. from_kind lsp p || from_kind syntax p) ps
    && range_ok l0 l1
    && (if one_line l0 l1 then range_ok c0 c1 else true)
