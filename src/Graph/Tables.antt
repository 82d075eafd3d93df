-- ===== src/Graph/Tables.antt =====
-- The SQL statements of core/models/store/sqlite_store.py on the tables that a connection sees.
use code_suit.Base.{
  ℕ, String, Bool, true, ◌&&◌, ◌||◌, Option, none, some, List, [], ◌∷◌, ◌==◌, take, if◌then◌else◌,
  any, string_eq,
}
use code_suit.Base.Dict.{keys, values, lookup, insert, erase, select}
use code_suit.Base.Order.{str_le, sorted}
use code_suit.Base.Result.{Result, ok, err, and_then}
use code_suit.Graph.Types.{
  EdgeKind, GraphNode, Edge, EdgeKey, Evidence, GraphError, node_kind, edge_key, not_found_error,
  edge_kind_value, edge_kind_eq, edge_key_eq, node_kind_eq,
}
use code_suit.Graph.Rows.{
  Codec, NodeRow, PayloadRow, Tables, parse_node, parse_edge, parse_evidence,
}

-- `ORDER BY a, b, c` on texts.
unfoldable pub triple_le : String × String × String → String × String × String → Bool
unfolding string_eq
triple_le (a, b, c) (x, y, z) =
    if a == x then (if b == y then str_le c z else str_le b y) else str_le a x

-- The order of edges by (kind, src, dst).
abbrev pub sort_key : Edge → String × String × String
sort_key e = (edge_kind_value e.kind, e.src, e.dst)

abbrev pub row_key : {V : Type 0} → EdgeKey × V → String × String × String
row_key (k, _) = (edge_kind_value k.1, k.0, k.2)

-- `if kinds: ... kind IN (...)`: no set and the empty set both mean every kind.
unfoldable pub kind_allowed : {K : Type 0} → (K → K → Bool) → Option (List K) → K → Bool
kind_allowed eq none k = true
kind_allowed eq (some []) k = true
kind_allowed eq (some (x ∷ xs)) k = any (eq k) (x ∷ xs)

-- Reads every row, and stops at the first that does not parse.
unfoldable pub parse_all :
    {J A : Type 0} → (J → Result GraphError A) → List J → Result GraphError (List A)
parse_all p [] = ok []
parse_all p (x ∷ xs) =
    let rest = parse_all p xs in and_then (p x) (λ a. and_then rest (λ as'. ok (a ∷ as')))

module _ {Json : Type 0} (codec : Codec Json) where
  -- The VALUES of an upsert.
  abbrev pub node_row : String → GraphNode → String → NodeRow Json
  node_row now node scope = record {
    kind = node_kind node;
    name = node.name;
    payload_json = codec.node_json node;
    payload_sha = codec.digest (codec.node_json node);
    updated_at = now;
    scope = scope;
  }

  abbrev pub edge_row : String → Edge → String → PayloadRow Json
  edge_row now edge scope = record {
    payload_json = codec.edge_json edge;
    payload_sha = codec.digest (codec.edge_json edge);
    updated_at = now;
    scope = scope;
  }

  abbrev pub evidence_row : String → Evidence → String → PayloadRow Json
  evidence_row now v scope = record {
    payload_json = codec.evidence_json v;
    payload_sha = codec.digest (codec.evidence_json v);
    updated_at = now;
    scope = scope;
  }

  -- INSERT ... ON CONFLICT DO UPDATE
  unfoldable pub put_node : String → GraphNode → String → Tables Json → Tables Json
  put_node now node scope t = record t { nodes = insert node.id (node_row now node scope) t.nodes }

  unfoldable pub put_edge : String → Edge → String → Tables Json → Tables Json
  put_edge now edge scope t = record t {
    edges = insert (edge_key edge) (edge_row now edge scope) t.edges;
  }

  unfoldable pub put_evidence : String → Evidence → String → Tables Json → Tables Json
  put_evidence now v scope t = record t {
    evidence = insert v.id (evidence_row now v scope) t.evidence;
  }

  unfoldable pub read_node : Tables Json → String → Result GraphError GraphNode
  read_node t node_id = elim (lookup node_id t.nodes) [
    | none ↦ err not_found_error
    | some row ↦ parse_node codec row.payload_json
  ]

  unfoldable pub read_evidence : Tables Json → String → Result GraphError Evidence
  read_evidence t evidence_id = elim (lookup evidence_id t.evidence) [
    | none ↦ err not_found_error
    | some row ↦ parse_evidence codec row.payload_json
  ]

  -- `_edges_query`, with the column as a projection of the key.
  unfoldable pub edges_query :
      (EdgeKey → String)
      → String
      → Option (List EdgeKind)
      → ℕ
      → Tables Json
      → Result GraphError (List Edge)
  unfolding kind_allowed edge_kind_eq
  edges_query column value kinds limit t =
      let chosen =
        select (λ key row. column key == value && kind_allowed ◌==◌ kinds key.1) t.edges in
      let rows = take limit (sorted (λ a b. triple_le (row_key a) (row_key b)) chosen) in
      parse_all (λ row. parse_edge codec row.payload_json) (values rows)

  -- SELECT payload_json FROM nodes WHERE ... ORDER BY id LIMIT ?
  unfoldable pub nodes_query :
      (NodeRow Json → Bool) → ℕ → Tables Json → Result GraphError (List GraphNode)
  nodes_query wanted limit t =
      let rows = sorted (λ a b. str_le a.0 b.0) (select (λ _ row. wanted row) t.nodes) in
      parse_all (λ row. parse_node codec row.payload_json) (values (take limit rows))

module _ {Json : Type 0} where
  -- Does any edge start or end at the node?
  unfoldable pub referenced : String → Tables Json → Bool
  unfolding string_eq
  referenced node_id t = any (λ (key, _). key.0 == node_id || key.2 == node_id) t.edges

  unfoldable pub drop_node : String → Tables Json → Tables Json
  drop_node node_id t = record t { nodes = erase node_id t.nodes }

  unfoldable pub drop_edge : EdgeKey → Tables Json → Tables Json
  drop_edge key t = record t { edges = erase key t.edges }

  -- The keys of a scope's rows (`iter_scope_...`).
  unfoldable pub scope_node_ids : String → Tables Json → List String
  unfolding string_eq
  scope_node_ids scope t = keys (select (λ _ row. row.scope == scope) t.nodes)

  unfoldable pub scope_edge_keys : String → Tables Json → List EdgeKey
  unfolding string_eq
  scope_edge_keys scope t =
      let rows = select (λ _ row. row.scope == scope) t.edges in
      keys (sorted (λ a b. triple_le (row_key a) (row_key b)) rows)

  unfoldable pub scope_evidence_ids : String → Tables Json → List String
  unfolding string_eq
  scope_evidence_ids scope t = keys (select (λ _ row. row.scope == scope) t.evidence)
