-- ===== src/Graph/Workspace.antt =====
-- core/models/workspace_graph.py: the graph of a workspace, over the store. Reads of a query see the
-- store as it is when the query starts; nothing writes in between.
pub mod Updates
pub mod Components
use code_suit.Base.{
  ℕ, zero, suc, String, Bool, true, false, not, Option, none, some, List, [], ◌∷◌, ◌==◌, map,
  filter, max, if◌then◌else◌,
}
use code_suit.Base.Int.{ℤ, pos, negsuc, to_ℕ}
use code_suit.Base.Result.{Result, ok, err, Exec, pure, raise, raise_if, continue, ◌>>=◌, ◌>>◌}
use code_suit.Graph.Types.{
  NodeKind, EdgeKind, GraphNode, Edge, EdgeKey, Evidence, GraphError, node_kind, scope_error,
  integrity_error, depends_on, node_kind_eq,
}
use code_suit.Graph.Types.{component}
use code_suit.Graph.Rows.{Codec, Store}
use code_suit.Graph.Store
use code_suit.Graph.Store.{
  commit, upsert_node, upsert_edge, upsert_evidence, delete_node, delete_edge,
}
use code_suit.Graph.Scope.{scope_valid}
use code_suit.Graph.Subgraph.{Subgraph}
use code_suit.Graph.Query.{
  GraphReader, QuerySpec, Direction, out_only, in_only, both, query_subgraph_bfs,
}

-- The parameters that the graph's queries pass to the search.
abbrev pub query_subgraph :
    List String → ℤ → Option (List EdgeKind) → Option (List NodeKind) → ℤ → ℤ → QuerySpec
query_subgraph seeds depth edge_kinds node_kinds max_nodes max_edges = record {
  seed_ids = seeds;
  depth = depth;
  edge_kinds = edge_kinds;
  node_kinds = node_kinds;
  max_nodes = max_nodes;
  max_edges = max_edges;
  direction = both;
}

abbrev pub query_dependents : String → ℤ → ℤ → ℤ → QuerySpec
query_dependents id depth max_nodes max_edges = record {
  seed_ids = id ∷ [];
  depth = depth;
  edge_kinds = some (depends_on ∷ []);
  node_kinds = none;
  max_nodes = max_nodes;
  max_edges = max_edges;
  direction = in_only;
}

abbrev pub query_dependencies : String → ℤ → ℤ → ℤ → QuerySpec
query_dependencies id depth max_nodes max_edges = record {
  seed_ids = id ∷ [];
  depth = depth;
  edge_kinds = some (depends_on ∷ []);
  node_kinds = none;
  max_nodes = max_nodes;
  max_edges = max_edges;
  direction = out_only;
}

module _ {Json : Type 0} (codec : Codec Json) where
  unfoldable pub add_or_update_node :
      String → GraphNode → String → Exec GraphError (Store Json) (Unit {0})
  unfolding upsert_node commit scope_valid
  add_or_update_node now node scope = do
    raise_if (not (scope_valid scope)) scope_error
    upsert_node codec now node scope
    commit

  unfoldable pub add_or_update_edge :
      String → Edge → String → Exec GraphError (Store Json) (Unit {0})
  unfolding upsert_edge commit scope_valid
  add_or_update_edge now edge scope = do
    raise_if (not (scope_valid scope)) scope_error
    upsert_edge codec now edge scope
    commit

  unfoldable pub add_or_update_evidence :
      String → Evidence → String → Exec GraphError (Store Json) (Unit {0})
  unfolding upsert_evidence commit scope_valid
  add_or_update_evidence now v scope = do
    raise_if (not (scope_valid scope)) scope_error
    upsert_evidence codec now v scope
    commit

  unfoldable pub get_node : String → Option NodeKind → Exec GraphError (Store Json) GraphNode
  unfolding Store.get_node node_kind_eq
  get_node id none = Store.get_node codec id
  get_node id (some expected) = do
    node ← Store.get_node codec id
    raise_if (not (node_kind node == expected)) integrity_error
    pure node

  -- The store as the reader of a query.
  unfoldable pub reader : Store Json → GraphReader
  unfolding Store.get_node Store.get_evidence Store.get_edges_from Store.get_edges_to
  reader s = record {
    get_node = λ id. (Store.get_node codec id s).0;
    get_evidence = λ id. (Store.get_evidence codec id s).0;
    get_edges_from = λ src kinds limit. (Store.get_edges_from codec src kinds limit s).0;
    get_edges_to = λ dst kinds limit. (Store.get_edges_to codec dst kinds limit s).0;
  }

  unfoldable pub run_query : QuerySpec → Store Json → Option (Result GraphError Subgraph)
  unfolding reader query_subgraph_bfs
  run_query q s = query_subgraph_bfs (reader s) q

-- The deletions need no codec.
module _ {Json : Type 0} where
  unfoldable pub remove_node : String → Exec GraphError (Store Json) (Unit {0})
  unfolding delete_node commit
  remove_node id = do delete_node id; commit

  unfoldable pub remove_edge : EdgeKey → Exec GraphError (Store Json) (Unit {0})
  unfolding delete_edge commit
  remove_edge key = do delete_edge key; commit
