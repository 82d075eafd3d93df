-- ===== src/Graph/Rows.antt =====
-- The documents and the rows of the graph's tables (core/models/serialization.py and the
-- CREATE TABLE statements of core/models/store/migrations.py).
use code_suit.Base.{ℕ, String, Bool, Option, none, some, ◌≡◌, if◌then◌else◌}
use code_suit.Base.Dict.{Dict}
use code_suit.Base.Result.{Result, ok, err}
use code_suit.Ids.{Python}
use code_suit.Provenance.Entries.{provenance_entries}
use code_suit.Graph.Types.{
  GraphNode, NodeKind, Edge, EdgeKey, Evidence, GraphError, validation_error, node_ok, evidence_ok,
}

-- What pydantic and json do: a model as a canonical document, and the fields that a document has,
-- `none` where they are not those of the model's class or of their types. No validator of the
-- repository runs in it. `digest` is sha256 of the document; `python` is what the validators use.
pub record Codec (Json : Type 0) : Type 0 where
  pub python : Python
  pub node_json : GraphNode → Json
  pub load_node : Json → Option GraphNode
  pub edge_json : Edge → Json
  pub load_edge : Json → Option Edge
  pub evidence_json : Evidence → Json
  pub load_evidence : Json → Option Evidence
  pub digest : Json → String

-- A dumped model has the fields that it was dumped from.
pub record IsFaithful {Json : Type 0} (c : Codec Json) : Type 0 where
  pub load_node_json : (n : GraphNode) → c.load_node (c.node_json n) ≡ some n
  pub load_edge_json : (e : Edge) → c.load_edge (c.edge_json e) ≡ some e
  pub load_evidence_json : (v : Evidence) → c.load_evidence (c.evidence_json v) ≡ some v

-- A row without the columns of its primary key.
pub record NodeRow (Json : Type 0) : Type 0 where
  pub kind : NodeKind
  pub name : String
  pub payload_json : Json
  pub payload_sha : String
  pub updated_at : String
  pub scope : String

pub record PayloadRow (Json : Type 0) : Type 0 where
  pub payload_json : Json
  pub payload_sha : String
  pub updated_at : String
  pub scope : String

pub record Meta : Type 0 where
  pub schema_version : ℕ
  pub workspace_root : String
  pub created_at : String
  pub updated_at : String

pub record Tables (Json : Type 0) : Type 0 where
  pub metadata : Option Meta
  pub nodes : Dict String (NodeRow Json)
  pub edges : Dict EdgeKey (PayloadRow Json)
  pub evidence : Dict String (PayloadRow Json)

pub record Connection (Json : Type 0) : Type 0 where
  pub tables : Tables Json
  pub in_transaction : Bool

pub record Store (Json : Type 0) : Type 0 where
  pub workspace_root : String
  pub file : Tables Json
  pub connection : Option (Connection Json)

-- A node of these fields, whose entries go through their validators before the node's own run.
unfoldable pub validate_node : Python → GraphNode → Result GraphError GraphNode
unfolding node_ok provenance_entries
validate_node py n = elim (provenance_entries py n.provenance) [
  | none ↦ err validation_error
  | some ps ↦
      if node_ok ps n.detail then ok (record n { provenance = ps }) else err validation_error
]

-- `parse_node(json.loads(...))`, validators included.
unfoldable pub parse_node : {Json : Type 0} → Codec Json → Json → Result GraphError GraphNode
unfolding validate_node
parse_node c j = elim (c.load_node j) [
  | none ↦ err validation_error
  | some n ↦ validate_node c.python n
]

-- `Edge.model_validate(json.loads(...))`
unfoldable pub parse_edge : {Json : Type 0} → Codec Json → Json → Result GraphError Edge
parse_edge c j = elim (c.load_edge j) [ none ↦ err validation_error | some e ↦ ok e ]

-- `Evidence.model_validate(json.loads(...))`
unfoldable pub parse_evidence : {Json : Type 0} → Codec Json → Json → Result GraphError Evidence
unfolding evidence_ok
parse_evidence c j = elim (c.load_evidence j) [
  | none ↦ err validation_error
  | some v ↦ if evidence_ok v then ok v else err validation_error
]
