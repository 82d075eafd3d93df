-- ===== src/Graph/Query.antt =====
-- core/models/queries.py: the breadth-first search of the graph, over what it reads of a store
-- (core/models/store/interfaces.py).
pub mod Invariant
pub mod Answers
use code_suit.Base.{
  ℕ, zero, suc, ◌+◌, String, Bool, true, false, ◌&&◌, ◌||◌, Option, none, some, List, [], ◌∷◌, ◌++◌,
  ◌==◌, if◌then◌else◌, length, ltb, leb, string_eq,
}
use code_suit.Base.Dict.{Dict, keys, values, lookup, insert}
use code_suit.Base.Int.{ℤ, is_negative, is_nonpositive, to_ℕ}
use code_suit.Base.Order.{str_le, sorted}
use code_suit.Base.Result.{Result, ok, err, and_then}
use code_suit.Graph.Types.{
  GraphNode, Edge, EdgeKey, EdgeKind, NodeKind, Evidence, GraphError, node_kind, edge_key,
  not_found_error, value_error, query_limit_error, key_error, edge_key_eq, node_kind_eq,
}
use code_suit.Graph.Tables.{kind_allowed, sort_key, triple_le}
use code_suit.Graph.Subgraph.{Subgraph, edge_le, make_subgraph}

-- What a query reads of a store, at the state in which the query runs.
pub record GraphReader : Type 0 where
  pub get_node : String → Result GraphError GraphNode
  pub get_evidence : String → Result GraphError Evidence
  pub get_edges_from : String → Option (List EdgeKind) → ℕ → Result GraphError (List Edge)
  pub get_edges_to : String → Option (List EdgeKind) → ℕ → Result GraphError (List Edge)

pub data Direction : Type 0 where
  out_only in_only both : Direction

pub record QuerySpec : Type 0 where
  pub seed_ids : List String
  pub depth : ℤ
  pub edge_kinds : Option (List EdgeKind)
  pub node_kinds : Option (List NodeKind)
  pub max_nodes : ℤ
  pub max_edges : ℤ
  pub direction : Direction

-- The variables of the search. `edge_keys` of the source is the set of the keys of `edge_map`.
pub record Search : Type 0 where
  pub distance : Dict String ℕ
  pub nodes : Dict String GraphNode
  pub edge_map : Dict EdgeKey Edge

-- `_raise_if_exceeds`
unfoldable pub within : ℕ → ℕ → Result GraphError (Unit {0})
within limit observed = if ltb limit observed then err query_limit_error else ok tt

-- The edge's other end.
unfoldable pub far_end : String → Edge → String
unfolding string_eq
far_end current e = if e.src == current then e.dst else e.src

-- `if next_node_id in distance: continue`
abbrev pub if_new : {A B : Type 0} → Option A → B → B → B
if_new none fresh known = fresh
if_new (some _) fresh known = known

module _ (r : GraphReader) (node_kinds : Option (List NodeKind)) where
  unfoldable pub admits : GraphNode → Bool
  unfolding kind_allowed node_kind_eq
  admits n = kind_allowed ◌==◌ node_kinds (node_kind n)

  abbrev pub add_seed : String → GraphNode → Search → Search
  add_seed id n s = elim (lookup id s.distance) [
    | none ↦ record s { distance = insert id 0 s.distance; nodes = insert id n s.nodes }
    | some _ ↦ s
  ]

  -- The loop over the sorted seeds.
  unfoldable pub seed_loop : List String → Search → Result GraphError Search
  unfolding admits
  seed_loop [] s = ok s
  seed_loop (id ∷ ids) s =
      let next = λ (n : GraphNode). seed_loop ids (if admits n then add_seed id n s else s) in
      and_then (r.get_node id) next

module _ (r : GraphReader) (q : QuerySpec) where
  abbrev pub node_limit : ℕ
  node_limit = to_ℕ q.max_nodes

  abbrev pub edge_limit : ℕ
  edge_limit = to_ℕ q.max_edges

  -- `if key not in edge_keys: ...`
  unfoldable pub note_edge : Edge → Search → Result GraphError Search
  unfolding within edge_key_eq
  note_edge e s = elim (lookup (edge_key e) s.edge_map) [
    | some _ ↦ ok s
    | none ↦
        let s' : Search = record s { edge_map = insert (edge_key e) e s.edge_map } in
        and_then (within edge_limit (length s'.edge_map)) (λ _. ok s')
  ]

  -- `try: store.get_node(...)`, its outcome, and the new node with what it adds to the queue.
  unfoldable pub visit_found :
      ℕ → String → Search → Result GraphError GraphNode → Result GraphError (Search × List String)
  unfolding admits within
  visit_found current_depth id s (err not_found_error) = ok (s, [])
  visit_found current_depth id s (err e) = err e
  visit_found current_depth id s (ok n) =
      let s' : Search = record s {
        distance = insert id (current_depth + 1) s.distance;
        nodes = insert id n s.nodes;
      } in
      if admits r q.node_kinds n
      then and_then (within node_limit (length s'.nodes)) (λ _. ok (s', id ∷ []))
      else ok (s, [])

  unfoldable pub visit : ℕ → String → Search → Result GraphError (Search × List String)
  unfolding visit_found
  visit current_depth id s = visit_found current_depth id s (r.get_node id)

  unfoldable pub follow : String → ℕ → Edge → Search → Result GraphError (Search × List String)
  unfolding far_end visit note_edge
  follow current current_depth e s = and_then (note_edge e s) λ s'.
      if_new (lookup (far_end current e) s'.distance) (visit current_depth (far_end current e) s')
        (ok (s', []))

  -- The loop over the edges at one node, with what it appends to the queue.
  unfoldable pub edge_loop :
      String → ℕ → List Edge → Search → Result GraphError (Search × List String)
  unfolding follow
  edge_loop current current_depth [] s = ok (s, [])
  edge_loop current current_depth (e ∷ es) s =
      let later = λ (s' : Search). edge_loop current current_depth es s' in
      and_then (follow current current_depth e s)
        λ (s', new). and_then (later s') λ (s'', more). ok (s'', new ++ more)

  unfoldable pub edges_at : String → Result GraphError (List Edge)
  edges_at current =
      let outgoing : Result GraphError (List Edge) = elim q.direction [
        | in_only ↦ ok []
        | _ ↦ r.get_edges_from current q.edge_kinds (edge_limit + 1)
      ] in
      let incoming : Result GraphError (List Edge) = elim q.direction [
        | out_only ↦ ok []
        | _ ↦ r.get_edges_to current q.edge_kinds (edge_limit + 1)
      ] in
      and_then outgoing λ out. and_then incoming λ inc. ok (sorted edge_le (out ++ inc))

  -- One round of `while queue`, for the id taken from the queue.
  unfoldable pub expand : String → Search → Result GraphError (Search × List String)
  unfolding edges_at edge_loop
  expand current s = elim (lookup current s.distance) [
    | none ↦ err key_error
    | some current_depth ↦
        if leb (to_ℕ q.depth) current_depth
        then ok (s, [])
        else and_then (edges_at current) (λ es. edge_loop current current_depth es s)
  ]

  -- `while queue`, on fuel; `none` means that the fuel ran out.
  unfoldable pub search_loop : ℕ → List String → Search → Option (Result GraphError Search)
  unfolding expand
  search_loop fuel [] s = some (ok s)
  search_loop zero (id ∷ queue) s = none
  search_loop (suc fuel) (id ∷ queue) s = elim (expand id s) [
    | err e ↦ some (err e)
    | ok (s', new) ↦ search_loop fuel (queue ++ new) s'
  ]

  -- The evidence of the ids, each loaded once.
  unfoldable pub load_evidence :
      List String → Dict String Evidence → Result GraphError (Dict String Evidence)
  unfolding string_eq
  load_evidence [] d = ok d
  load_evidence (id ∷ ids) d = elim (lookup id d) [
    | some _ ↦ load_evidence ids d
    | none ↦
        let next = λ (v : Evidence). load_evidence ids (insert id v d) in
        and_then (r.get_evidence id) next
  ]

-- The evidence that the nodes and then the edges cite.
unfoldable pub cited_by_nodes : List GraphNode → List String
cited_by_nodes [] = []
cited_by_nodes (n ∷ ns) = n.evidence_ids ++ cited_by_nodes ns

unfoldable pub cited_by_edges : List Edge → List String
cited_by_edges [] = []
cited_by_edges (e ∷ es) = e.evidence_ids ++ cited_by_edges es

-- The sorted parts that `_sorted_subgraph` passes to the constructor.
abbrev pub gather : Search → Dict String Evidence → Subgraph
gather s evidence = record {
  nodes = sorted (λ a b. str_le a.0 b.0) s.nodes;
  edges = sorted edge_le (values s.edge_map);
  evidence = sorted (λ a b. str_le a.0 b.0) evidence;
}

-- `_sorted_subgraph`
unfoldable pub sorted_subgraph : Search → Dict String Evidence → Result GraphError Subgraph
unfolding make_subgraph
sorted_subgraph s evidence = make_subgraph (gather s evidence)

abbrev pub empty_search : Search
empty_search = record { distance = []; nodes = []; edge_map = [] }

module _ (r : GraphReader) (q : QuerySpec) where
  -- The guards, the seeds and the check of their number.
  unfoldable pub start : Result GraphError Search
  unfolding seed_loop within
  start =
      if is_negative q.depth
      then err value_error
      else if is_nonpositive q.max_nodes || is_nonpositive q.max_edges
      then err value_error
      else and_then (seed_loop r q.node_kinds (sorted str_le q.seed_ids) empty_search)
          λ s. and_then (within (to_ℕ q.max_nodes) (length s.nodes)) (λ _. ok s)

  unfoldable pub conclude : Search → Result GraphError Subgraph
  unfolding load_evidence cited_by_nodes cited_by_edges sorted_subgraph
  conclude s =
      and_then
        (load_evidence r q (cited_by_nodes (values s.nodes) ++ cited_by_edges (values s.edge_map))
          [])
        (sorted_subgraph s)

  unfoldable pub conclude_loop :
      Option (Result GraphError Search) → Option (Result GraphError Subgraph)
  unfolding conclude
  conclude_loop none = none
  conclude_loop (some (err e)) = some (err e)
  conclude_loop (some (ok s)) = some (conclude s)

  -- `query_subgraph_bfs`. Each id enters the queue once, with its node, so that `max_nodes` rounds
  -- are enough.
  unfoldable pub query_subgraph_bfs : Option (Result GraphError Subgraph)
  unfolding start search_loop conclude_loop
  query_subgraph_bfs = elim start [
    | err e ↦ some (err e)
    | ok s ↦ conclude_loop (search_loop r q (to_ℕ q.max_nodes) (sorted str_le (keys s.distance)) s)
  ]
