-- ===== src/Graph/WellFormed.antt =====
-- Well-formed tables: unique keys, and rows that hold what a valid model dumps to under its own key.
pub mod Entries
pub mod Keeps
pub mod Calls
pub mod Reads
use code_suit.Base.{String, true, ◌≡◌, refl, some, none, Option, List, [], ◌∷◌, Eq, string_eq}
use code_suit.Base.Dict.{
  NodupKeys, lookup, AllRows, AllRows-insert, AllRows-erase, AllRows-select, insert-NodupKeys,
  erase-NodupKeys, select-NodupKeys,
}
use code_suit.Graph.Types.{
  GraphNode, Edge, EdgeKey, Evidence, node_kind, edge_key, node_ok, evidence_ok, edge_key_eq,
}
use code_suit.Graph.Rows.{Codec, NodeRow, PayloadRow, Tables, Meta}
use code_suit.Graph.Tables.{put_node, put_edge, put_evidence, drop_node, drop_edge}
use code_suit.Graph.Store.{drop_evidence}

module _ {Json : Type 0} (codec : Codec Json) where
  pub record NodeStored (id : String) (row : NodeRow Json) : Type 0 where
    pub model : GraphNode
    pub key : model.id ≡ id
    pub kind : row.kind ≡ node_kind model
    pub name : row.name ≡ model.name
    pub payload : row.payload_json ≡ codec.node_json model
    pub sha : row.payload_sha ≡ codec.digest row.payload_json
    pub valid : node_ok model.provenance model.detail ≡ true

  pub record EdgeStored (key : EdgeKey) (row : PayloadRow Json) : Type 0 where
    pub model : Edge
    pub same_key : edge_key model ≡ key
    pub payload : row.payload_json ≡ codec.edge_json model
    pub sha : row.payload_sha ≡ codec.digest row.payload_json

  pub record EvidenceStored (id : String) (row : PayloadRow Json) : Type 0 where
    pub model : Evidence
    pub key : model.id ≡ id
    pub payload : row.payload_json ≡ codec.evidence_json model
    pub sha : row.payload_sha ≡ codec.digest row.payload_json
    pub valid : evidence_ok model ≡ true

  pub record IsWellFormed (t : Tables Json) : Type 0 where
    pub node_keys : NodupKeys t.nodes
    pub edge_keys : NodupKeys t.edges
    pub evidence_keys : NodupKeys t.evidence
    pub node_rows : AllRows NodeStored t.nodes
    pub edge_rows : AllRows EdgeStored t.edges
    pub evidence_rows : AllRows EvidenceStored t.evidence

  pub put_node-IsWellFormed :
      (now : String) (n : GraphNode) (scope : String) (t : Tables Json)
      → node_ok n.provenance n.detail ≡ true
      → IsWellFormed t
      → IsWellFormed (put_node codec now n scope t)
  unfolding put_node
  put_node-IsWellFormed now n scope t valid w = record {
    node_keys = insert-NodupKeys n.id _ t.nodes w.node_keys;
    edge_keys = w.edge_keys;
    evidence_keys = w.evidence_keys;
    node_rows =
        AllRows-insert NodeStored n.id _ t.nodes
          (record {
            model = n;
            key = refl;
            kind = refl;
            name = refl;
            payload = refl;
            sha = refl;
            valid = valid;
          })
          w.node_rows;
    edge_rows = w.edge_rows;
    evidence_rows = w.evidence_rows;
  }

  pub put_edge-IsWellFormed :
      (now : String) (edge : Edge) (scope : String) (t : Tables Json)
      → IsWellFormed t
      → IsWellFormed (put_edge codec now edge scope t)
  unfolding put_edge
  put_edge-IsWellFormed now edge scope t w = record {
    node_keys = w.node_keys;
    edge_keys = insert-NodupKeys (edge_key edge) _ t.edges w.edge_keys;
    evidence_keys = w.evidence_keys;
    node_rows = w.node_rows;
    edge_rows =
        AllRows-insert EdgeStored (edge_key edge) _ t.edges
          (record { model = edge; same_key = refl; payload = refl; sha = refl }) w.edge_rows;
    evidence_rows = w.evidence_rows;
  }

  pub put_evidence-IsWellFormed :
      (now : String) (v : Evidence) (scope : String) (t : Tables Json)
      → evidence_ok v ≡ true
      → IsWellFormed t
      → IsWellFormed (put_evidence codec now v scope t)
  unfolding put_evidence
  put_evidence-IsWellFormed now v scope t valid w = record {
    node_keys = w.node_keys;
    edge_keys = w.edge_keys;
    evidence_keys = insert-NodupKeys v.id _ t.evidence w.evidence_keys;
    node_rows = w.node_rows;
    edge_rows = w.edge_rows;
    evidence_rows =
        AllRows-insert EvidenceStored v.id _ t.evidence
          (record { model = v; key = refl; payload = refl; sha = refl; valid = valid })
          w.evidence_rows;
  }

  pub drop_node-IsWellFormed :
      (id : String) (t : Tables Json) → IsWellFormed t → IsWellFormed (drop_node id t)
  unfolding drop_node
  drop_node-IsWellFormed id t w = record {
    node_keys = erase-NodupKeys id t.nodes w.node_keys;
    edge_keys = w.edge_keys;
    evidence_keys = w.evidence_keys;
    node_rows = AllRows-erase NodeStored id t.nodes w.node_rows;
    edge_rows = w.edge_rows;
    evidence_rows = w.evidence_rows;
  }

  pub drop_edge-IsWellFormed :
      (key : EdgeKey) (t : Tables Json) → IsWellFormed t → IsWellFormed (drop_edge key t)
  unfolding drop_edge
  drop_edge-IsWellFormed key t w = record {
    node_keys = w.node_keys;
    edge_keys = erase-NodupKeys key t.edges w.edge_keys;
    evidence_keys = w.evidence_keys;
    node_rows = w.node_rows;
    edge_rows = AllRows-erase EdgeStored key t.edges w.edge_rows;
    evidence_rows = w.evidence_rows;
  }

  pub drop_evidence-IsWellFormed :
      (id : String) (t : Tables Json) → IsWellFormed t → IsWellFormed (drop_evidence id t)
  unfolding drop_evidence
  drop_evidence-IsWellFormed id t w = record {
    node_keys = w.node_keys;
    edge_keys = w.edge_keys;
    evidence_keys = erase-NodupKeys id t.evidence w.evidence_keys;
    node_rows = w.node_rows;
    edge_rows = w.edge_rows;
    evidence_rows = AllRows-erase EvidenceStored id t.evidence w.evidence_rows;
  }
