-- ===== src/Graph/Workspace/Components.antt =====
-- src/suitcode/core/models/workspace_graph.py: the queries that first list nodes by kind or name.
use code_suit.Base.{
  ℕ, ◌≤◌, String, Bool, true, Option, none, some, List, [], ◌∷◌, ◌≡◌, map, filter, contains,
  string_eq, length, All, ◌==◌, arith, refl, if◌then◌else◌,
}
use code_suit.Base.Dict.{keys}
use code_suit.Base.Int.{ℤ, pos, is_nonpositive, to_ℕ}
use code_suit.Base.Result.{Result, ok, err, Ensures}
use code_suit.Graph.Types.{GraphNode, GraphError, component, node_kind, node_kind_eq}
use code_suit.Graph.Rows.{Codec, Store}
use code_suit.Graph.Store.{list_nodes, find_nodes_by_name}
use code_suit.Graph.Subgraph.{Subgraph}
use code_suit.Graph.Query.{QuerySpec, GraphReader}
use code_suit.Graph.Query.Invariant.{Reach, seed, step}
use code_suit.Graph.Query.Answers.{Answers, query_subgraph_bfs-Answers}
use code_suit.Graph.Workspace.{
  query_subgraph, query_dependencies, query_dependents, run_query, reader,
}

abbrev pub ids_of : List GraphNode → List String
ids_of nodes = map (λ n. n.id) nodes

-- max(max_nodes, 1)
unfoldable pub at_least_one : ℤ → ℤ
at_least_one n = if is_nonpositive n then pos 1 else n

module _ {Json : Type 0} (codec : Codec Json) (s : Store Json) where
  -- The nodes are listed, and the query runs from them; a listing that raises ends it.
  unfoldable pub query_listed :
      (List GraphNode → QuerySpec)
      → Result GraphError (List GraphNode)
      → Option (Result GraphError Subgraph)
  unfolding run_query
  query_listed spec (err e) = some (err e)
  query_listed spec (ok nodes) = run_query codec (spec nodes) s

  unfoldable pub query_components : ℤ → Option (Result GraphError Subgraph)
  unfolding query_listed list_nodes at_least_one
  query_components max_nodes =
      query_listed
        (λ nodes.
          query_subgraph (ids_of nodes) (pos 0) none none max_nodes (at_least_one max_nodes))
        (list_nodes codec (some component) (to_ℕ max_nodes) s).0

  -- `like` is SQLite's LIKE with the pattern `name%`, which an exact name does not use.
  unfoldable pub query_component_by_name :
      (String → String → Bool) → String → ℤ → Option (Result GraphError Subgraph)
  unfolding query_listed find_nodes_by_name at_least_one node_kind_eq
  query_component_by_name like name max_nodes =
      query_listed
        (λ nodes.
          query_subgraph (ids_of (filter (λ n. node_kind n == component) nodes)) (pos 0) none
            (some (component ∷ [])) max_nodes (at_least_one max_nodes))
        (find_nodes_by_name codec like name true (to_ℕ max_nodes) s).0

  unfoldable pub find_by_name :
      (String → String → Bool) → String → Bool → ℤ → ℤ → Option (Result GraphError Subgraph)
  unfolding query_listed find_nodes_by_name
  find_by_name like name exact max_nodes max_edges =
      query_listed (λ nodes. query_subgraph (ids_of nodes) (pos 0) none none max_nodes max_edges)
        (find_nodes_by_name codec like name exact (to_ℕ max_nodes) s).0

  unfoldable pub list_components : ℤ → Option (Result GraphError Subgraph)
  unfolding query_components
  list_components = query_components

  unfoldable pub get_component : String → ℤ → ℤ → ℤ → Option (Result GraphError Subgraph)
  unfolding run_query
  get_component id depth max_nodes max_edges =
      run_query codec (query_subgraph (id ∷ []) depth none none max_nodes max_edges) s

  unfoldable pub get_component_dependencies :
      String → ℤ → ℤ → ℤ → Option (Result GraphError Subgraph)
  unfolding run_query
  get_component_dependencies id depth max_nodes max_edges =
      run_query codec (query_dependencies id depth max_nodes max_edges) s

  unfoldable pub get_component_dependents : String → ℤ → ℤ → ℤ → Option (Result GraphError Subgraph)
  unfolding run_query
  get_component_dependents id depth max_nodes max_edges =
      run_query codec (query_dependents id depth max_nodes max_edges) s

Reach-at_zero :
    (r : GraphReader) (q : QuerySpec) (id : String) (d : ℕ)
    → to_ℕ q.depth ≡ 0
    → Reach r q id d
    → contains q.seed_ids id ≡ true
Reach-at_zero r q id d z (seed _ m _) = m
Reach-at_zero r q id d z (step _ d' es e before below _ _ _) = absurd (omega arith)

All-Reach_at_zero :
    (r : GraphReader) (q : QuerySpec)
    → to_ℕ q.depth ≡ 0
    → (ids : List String) → All (λ id. (d : ℕ) × Reach r q id d) ids
    → All (λ id. contains q.seed_ids id ≡ true) ids
All-Reach_at_zero r q z [] h = tt
All-Reach_at_zero r q z (id ∷ ids) ((d, reach), rest) =
    (Reach-at_zero r q id d z reach, All-Reach_at_zero r q z ids rest)

-- The query ends, and a subgraph that it returns is of the listed nodes, within the limit.
abbrev pub OfListed :
    ℤ → Result GraphError (List GraphNode) → Option (Result GraphError Subgraph) → Type 0
OfListed max_nodes listed none = ⊥
OfListed max_nodes (err e) (some out) = out ≡ err e
OfListed max_nodes (ok nodes) (some out) =
    Ensures
      (λ g.
        (length g.nodes ≤ to_ℕ max_nodes)
        × All (λ id. contains (ids_of nodes) id ≡ true) (keys g.nodes))
      out

of_Answers :
    (r : GraphReader) (q : QuerySpec) (nodes : List GraphNode)
    (out : Option (Result GraphError Subgraph))
    → to_ℕ q.depth ≡ 0
    → q.seed_ids ≡ ids_of nodes
    → Answers r q out
    → OfListed q.max_nodes (ok nodes) out
of_Answers r q nodes none z e h = h
of_Answers r q nodes (some (err x)) z e h = tt
of_Answers r q nodes (some (ok g)) z e h =
    (h.few_nodes, rw⁻¹ e (All-Reach_at_zero r q z (keys g.nodes) h.reachable))

module _ {Json : Type 0} (codec : Codec Json) (s : Store Json) where
  -- The query of the components ends for every store and limit. Where the listing raises, it raises
  -- that error; a subgraph that it returns has at most `max_nodes` nodes, all of them listed as
  -- components.
  pub query_components-OfListed :
      (max_nodes : ℤ)
      → OfListed max_nodes
          (list_nodes codec (some component) (to_ℕ max_nodes) s).0
          (query_components codec s max_nodes)
  unfolding query_components run_query
  query_components-OfListed max_nodes =
      split (list_nodes codec (some component) (to_ℕ max_nodes) s).0
    where
      spec : List GraphNode → QuerySpec
      spec nodes =
          query_subgraph (ids_of nodes) (pos 0) none none max_nodes (at_least_one max_nodes)

      split :
          (listed : Result GraphError (List GraphNode))
          → OfListed max_nodes listed (query_listed codec s spec listed)
      split (err e) = refl
      split (ok nodes) =
          of_Answers (reader codec s) (spec nodes) nodes _ refl refl
            (query_subgraph_bfs-Answers (reader codec s) (spec nodes))
