-- ===== src/Graph/Query/Answers.antt =====
-- What a query answers: it ends, within its limits, with a closed subgraph of reachable nodes.
use code_suit.Base.{
  ℕ, ◌+◌, ◌≤◌, String, true, ◌||◌, Option, none, some, List, [], ◌∷◌, ◌≡◌, refl, sym, ◌∙◌, contains,
  length, string_eq, arith, All, inl, inr, Option-cases, Bool-cases, ==-refl,
}
use code_suit.Base.Dict.{
  Dict, keys, values, lookup, lookup-insert, length-insert_new, AllRows, AllRows-insert,
  length-keys,
}
use code_suit.Base.Dict.Sorted.{contains-keys-sorted, lookup_of_mem, length-values}
use code_suit.Base.Int.{is_negative, is_nonpositive, to_ℕ}
use code_suit.Base.Order.{str_le, sorted, length-sorted, contains-sorted}
use code_suit.Base.Result.{Result, ok, err, Ensures, Ensures-and_then, Ensures-nothing}
use code_suit.Graph.Types.{GraphNode, Edge, Evidence, GraphError}
use code_suit.Graph.Subgraph.{Subgraph, edge_le, edges_closed, integral, make_subgraph}
use code_suit.Graph.Query.{
  GraphReader, QuerySpec, Search, admits, seed_loop, add_seed, start, conclude, conclude_loop,
  sorted_subgraph, gather, search_loop, query_subgraph_bfs, empty_search,
}
use code_suit.Graph.Query.Invariant.{
  IsNode, Reach, IsSound, Finishes, search_loop-Finishes, within_limit,
}

All-of_contains :
    (P : String → Type 0) (ids : List String)
    → ((id : String) → contains ids id ≡ true → P id)
    → All P ids
All-of_contains P [] h = tt
All-of_contains P (id ∷ ids) h =
    (h id (rw (==-refl id)), All-of_contains P ids (λ j m. h j (ground arith)))

module _ (r : GraphReader) (q : QuerySpec) where
  record Seeded (s : Search) : Type 0 where
    aligned : (id : String) → lookup id s.distance ≡ none → lookup id s.nodes ≡ none
    reached : AllRows (λ id d. Reach r q id d) s.distance
    no_edges : s.edge_map ≡ []
    same_size : length s.distance ≡ length s.nodes

  add_seed-Seeded :
      (id : String) (n : GraphNode) (s : Search)
      → contains q.seed_ids id ≡ true
      → IsNode r q id
      → Seeded s
      → Seeded (add_seed r q.node_kinds id n s)
  add_seed-Seeded id n s asked node h = elim (Option-cases (lookup id s.distance)) [
    | inr (_, old) ↦ rw (old, add_seed) h
    | inl new ↦
        rw (new, add_seed)
          (record {
            aligned = λ j absent.
                ground (
                  arith,
                  lookup-insert j id n s.nodes,
                  lookup-insert j id 0 s.distance,
                  h.aligned j,
                );
            reached =
                AllRows-insert (Reach r q) id 0 s.distance (Reach.seed id asked node) h.reached;
            no_edges = h.no_edges;
            same_size = omega (
              arith,
              h.same_size,
              length-insert_new id 0 s.distance new,
              length-insert_new id n s.nodes (h.aligned id new),
            );
          })
  ]

  seed_loop-Seeded :
      (ids : List String) (s : Search)
      → ((id : String) → contains ids id ≡ true → contains q.seed_ids id ≡ true)
      → Seeded s
      → Ensures Seeded (seed_loop r q.node_kinds ids s)
  unfolding seed_loop
  seed_loop-Seeded [] s asked h = h
  seed_loop-Seeded (id ∷ ids) s asked h =
      let later = λ (s' : Search) (h' : Seeded s').
        seed_loop-Seeded ids s' (λ j m. asked j (ground arith)) h' in
      Ensures-and_then (λ _. Unit {0}) Seeded _ _ (Ensures-nothing (r.get_node id))
        λ n found _. elim (Bool-cases (admits r q.node_kinds n)) [
          | inl admitted ↦ rw admitted (
              later (add_seed r q.node_kinds id n s) (
                add_seed-Seeded id n s (asked id (rw (==-refl id)))
                  (record { model = n; found = found; admitted = admitted }) h))
          | inr refused ↦ rw refused (later s h)
        ]

  -- The state with which the loop starts, and its queue, meet what the loop needs.
  record Started (s : Search) : Type 0 where
    sound : IsSound r q s
    enough :
        length (sorted str_le (keys s.distance)) + to_ℕ q.max_nodes
        ≤ to_ℕ q.max_nodes + length s.nodes

  seeded→Started : (s : Search) → Seeded s → length s.nodes ≤ to_ℕ q.max_nodes → Started s
  seeded→Started s h few = record {
    sound = record {
      few_nodes = few;
      few_edges = rw h.no_edges (omega arith);
      aligned = h.aligned;
      reached = h.reached;
      keyed = rw h.no_edges (unfold lookup in λ k v e. absurd (cc));
    };
    enough =
        omega (arith, length-sorted str_le (keys s.distance), length-keys s.distance, h.same_size);
  }

  start-Started : Ensures Started (start r q)
  unfolding start
  start-Started = elim (Bool-cases (is_negative q.depth)) [
    | inl negative ↦ rw negative tt
    | inr natural ↦ elim (Bool-cases (is_nonpositive q.max_nodes || is_nonpositive q.max_edges)) [
      | inl bad ↦ rw (natural, bad) tt
      | inr good ↦
          rw (natural, good)
            (Ensures-and_then Seeded Started _ _
              (seed_loop-Seeded (sorted str_le q.seed_ids) empty_search
                (λ id m. sym (contains-sorted str_le id q.seed_ids) ∙ m) seeded_empty)
              λ s _ h.
                Ensures-and_then (λ _. length s.nodes ≤ to_ℕ q.max_nodes) Started _ _
                  (within_limit r q (to_ℕ q.max_nodes) (length s.nodes))
                  (λ _ _ few. seeded→Started s h few))
    ]
  ]
    where
      seeded_empty : Seeded empty_search
      seeded_empty = record {
        aligned = λ id _. unfold lookup in refl;
        reached = unfold lookup in λ k v e. absurd (cc);
        no_edges = refl;
        same_size = refl;
      }

  -- What a returned subgraph satisfies.
  pub record IsAnswer (g : Subgraph) : Type 0 where
    pub few_nodes : length g.nodes ≤ to_ℕ q.max_nodes
    pub few_edges : length g.edges ≤ to_ℕ q.max_edges
    pub reachable : All (λ id. (d : ℕ) × Reach r q id d) (keys g.nodes)
    pub closed :
        All
          (λ e. (contains (keys g.nodes) e.src ≡ true) × (contains (keys g.nodes) e.dst ≡ true))
          g.edges
    pub sound_order : integral g ≡ true

  edges_closed-All :
      (ids available : List String) (es : List Edge)
      → edges_closed ids available es ≡ true
      → All (λ e. (contains ids e.src ≡ true) × (contains ids e.dst ≡ true)) es
  unfolding edges_closed
  edges_closed-All ids available [] h = tt
  edges_closed-All ids available (e ∷ es) h =
      ((ground arith, ground arith), edges_closed-All ids available es (ground arith))

  closed_of_integral :
      (g : Subgraph)
      → integral g ≡ true
      → edges_closed (keys g.nodes) (keys g.evidence) g.edges ≡ true
  unfolding integral
  closed_of_integral g h = ground arith

  gathered_reachable :
      (s : Search) (evidence : Dict String Evidence)
      → IsSound r q s
      → (id : String) → contains (keys (gather s evidence).nodes) id ≡ true
      → (d : ℕ) × Reach r q id d
  gathered_reachable s evidence h id m =
      let by_id = λ (a b : String × GraphNode). str_le a.0 b.0 in
      let (n, found) = lookup_of_mem id s.nodes (sym (contains-keys-sorted by_id id s.nodes) ∙ m) in
      elim (Option-cases (lookup id s.distance)) [
        | inl absent ↦ absurd (cc (h.aligned id absent))
        | inr (d, present) ↦ (d, h.reached id d present)
      ]

  answer :
      (s : Search) (evidence : Dict String Evidence)
      → IsSound r q s
      → Ensures IsAnswer (sorted_subgraph s evidence)
  unfolding sorted_subgraph
  answer s evidence h = elim (Bool-cases (integral (gather s evidence))) [
    | inr broken ↦ rw (broken, make_subgraph) tt
    | inl whole ↦
        rw (whole, make_subgraph)
          (record {
            few_nodes = omega (
              arith,
              length-sorted (λ (a b : String × GraphNode). str_le a.0 b.0) s.nodes,
              h.few_nodes,
            );
            few_edges = omega (
              arith,
              length-sorted edge_le (values s.edge_map),
              length-values s.edge_map,
              h.few_edges,
            );
            reachable =
                All-of_contains _ (keys (gather s evidence).nodes)
                  (gathered_reachable s evidence h);
            closed =
                edges_closed-All (keys (gather s evidence).nodes)
                  (keys (gather s evidence).evidence) (gather s evidence).edges
                  (closed_of_integral (gather s evidence) whole);
            sound_order = whole;
          })
  ]

  conclude-IsAnswer : (s : Search) → IsSound r q s → Ensures IsAnswer (conclude r q s)
  unfolding conclude
  conclude-IsAnswer s h =
      Ensures-and_then (λ _. Unit {0}) IsAnswer _ _ (Ensures-nothing _)
        (λ evidence _ _. answer s evidence h)

  -- The query ends, and what it returns is an answer.
  abbrev pub Answers : Option (Result GraphError Subgraph) → Type 0
  Answers none = ⊥
  Answers (some out) = Ensures IsAnswer out

  conclude_loop-Answers :
      (out : Option (Result GraphError Search)) → Finishes r q out → Answers (conclude_loop r q out)
  unfolding conclude_loop
  conclude_loop-Answers none h = h
  conclude_loop-Answers (some (err e)) h = tt
  conclude_loop-Answers (some (ok s)) h = conclude-IsAnswer s h

  -- For every store, seeds, limits and direction the search ends within its fuel, and a subgraph
  -- that it returns has at most `max_nodes` nodes and `max_edges` edges, sorted, contains both ends
  -- of each of its edges and the evidence they cite, and each of its nodes is reached from a seed
  -- by a walk within the depth, along edges that the store returns, through admitted nodes.
  pub query_subgraph_bfs-Answers : Answers (query_subgraph_bfs r q)
  unfolding query_subgraph_bfs
  query_subgraph_bfs-Answers =
      (elim (start r q)
          as (λ x.
            Ensures Started x
            → Answers (elim x [
              | err e ↦ some (err e)
              | ok s ↦
                  conclude_loop r q
                    (search_loop r q (to_ℕ q.max_nodes) (sorted str_le (keys s.distance)) s)
            ])) [
              | err e ↦ λ _. tt
              | ok s ↦ λ h. conclude_loop-Answers _ (
                  search_loop-Finishes r q (to_ℕ q.max_nodes) (sorted str_le (keys s.distance)) s
                    h.sound h.enough)
            ])
        start-Started
