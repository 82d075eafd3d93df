-- ===== src/Graph/Subgraph.antt =====
-- core/models/subgraph.py: the result of a query, and the integrity that its validator demands.
use code_suit.Base.{String, Bool, ◌&&◌, List, contains, all, if◌then◌else◌, string_eq}
use code_suit.Base.Dict.{Dict, keys, values}
use code_suit.Base.Order.{str_le, is_sorted}
use code_suit.Base.Result.{Result, ok, err}
use code_suit.Graph.Types.{GraphNode, Edge, Evidence, GraphError, integrity_error}
use code_suit.Graph.Tables.{triple_le, sort_key}

pub record Subgraph : Type 0 where
  pub nodes : Dict String GraphNode
  pub edges : List Edge
  pub evidence : Dict String Evidence

abbrev pub edge_le : Edge → Edge → Bool
edge_le a b = triple_le (sort_key a) (sort_key b)

-- Every id that a node or an edge cites is among the evidence.
unfoldable pub cites_only : List String → List String → Bool
unfolding string_eq
cites_only available ids = all (λ id. contains available id) ids

unfoldable pub nodes_cite : List String → Dict String GraphNode → Bool
unfolding cites_only
nodes_cite available nodes = all (λ n. cites_only available n.evidence_ids) (values nodes)

unfoldable pub edges_closed : List String → List String → List Edge → Bool
unfolding cites_only string_eq
edges_closed node_ids available edges =
    all
      (λ e.
        contains node_ids e.src && contains node_ids e.dst && cites_only available e.evidence_ids)
      edges

-- `validate_integrity`; the messages differ, and each raises `GraphIntegrityError`.
unfoldable pub integral : Subgraph → Bool
unfolding nodes_cite edges_closed
integral g =
    is_sorted str_le (keys g.nodes)
    && is_sorted str_le (keys g.evidence)
    && is_sorted edge_le g.edges
    && nodes_cite (keys g.evidence) g.nodes
    && edges_closed (keys g.nodes) (keys g.evidence) g.edges

-- `Subgraph(...)`
unfoldable pub make_subgraph : Subgraph → Result GraphError Subgraph
unfolding integral
make_subgraph g = if integral g then ok g else err integrity_error
