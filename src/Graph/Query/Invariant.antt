-- ===== src/Graph/Query/Invariant.antt =====
-- What the search keeps: the limits, and that each id it holds a distance for is reached by a walk
-- of that many edges.
use code_suit.Base.{
  ℕ, zero, suc, ◌+◌, ◌≤◌, ◌<◌, String, true, Option, none, some, List, [], ◌∷◌, ◌≡◌, refl, subst,
  ap, contains, length, ltb, leb, string_eq, arith, All, ◌⊎◌, inl, inr, Option-cases, Bool-cases,
  leb→lt, ltb→le, length-append, ◌++◌,
}
use code_suit.Base.Dict.{lookup, insert, lookup-insert, length-insert_new, AllRows, AllRows-insert}
use code_suit.Base.Int.{to_ℕ}
use code_suit.Base.Result.{Result, ok, err, Ensures, Ensures-and_then, Ensures-nothing}
use code_suit.Graph.Types.{GraphNode, Edge, GraphError, edge_key, edge_key_eq, not_found_error}
use code_suit.Graph.Query.{
  GraphReader, QuerySpec, Search, admits, visit_found, within, far_end, note_edge, visit, follow,
  edge_loop, edges_at, expand, search_loop, node_limit, edge_limit,
}

-- Membership of an edge in what a read returns.
abbrev pub In : Edge → List Edge → Type 0
In e [] = ⊥
In e (x ∷ xs) = (e ≡ x) ⊎ In e xs

All-of_In : (P : Edge → Type 0) (es : List Edge) → ((e : Edge) → In e es → P e) → All P es
All-of_In P [] h = tt
All-of_In P (e ∷ es) h = (h e (inl refl), All-of_In P es (λ x m. h x (inr m)))

module _ (r : GraphReader) (q : QuerySpec) where
  -- There is a node with the id, of a kind that the query admits.
  pub record IsNode (id : String) : Type 0 where
    pub model : GraphNode
    pub found : r.get_node id ≡ ok model
    pub admitted : admits r q.node_kinds model ≡ true

  -- The id is reached from a seed by a walk of that many edges, within the depth, along edges that
  -- the store returns for the query, through admitted nodes.
  pub data Reach : String → ℕ → Type 0 where
    seed : (id : String) → contains q.seed_ids id ≡ true → IsNode id → Reach id 0
    step :
        (id : String) (d : ℕ) (es : List Edge) (e : Edge)
        → Reach id d
        → d < to_ℕ q.depth
        → edges_at r q id ≡ ok es
        → In e es
        → IsNode (far_end id e)
        → Reach (far_end id e) (d + 1)

  pub record IsSound (s : Search) : Type 0 where
    pub few_nodes : length s.nodes ≤ node_limit r q
    pub few_edges : length s.edge_map ≤ edge_limit r q
    pub aligned : (id : String) → lookup id s.distance ≡ none → lookup id s.nodes ≡ none
    pub reached : AllRows (λ id d. Reach id d) s.distance
    pub keyed : AllRows (λ key e. edge_key e ≡ key) s.edge_map

  -- What a step from a search with `n` nodes grants: soundness, and a queue that grows with the
  -- nodes.
  pub record Grows (n : ℕ) (out : Search × List String) : Type 0 where
    pub sound : IsSound out.0
    pub count : length out.0.nodes ≡ n + length out.1

  pub within_limit : (limit n : ℕ) → Ensures (λ _. n ≤ limit) (within limit n)
  unfolding within
  within_limit limit n = elim (Bool-cases (ltb limit n)) [
    | inl over ↦ rw over tt
    | inr under ↦ rw under (ltb→le limit n under)
  ]

  -- The edge is noted and nothing else changes.
  record Noted (s s' : Search) : Type 0 where
    sound : IsSound s'
    same_nodes : s'.nodes ≡ s.nodes
    same_distance : s'.distance ≡ s.distance

  note_edge-Noted : (e : Edge) (s : Search) → IsSound s → Ensures (Noted s) (note_edge r q e s)
  unfolding note_edge
  note_edge-Noted e s i = elim (Option-cases (lookup (edge_key e) s.edge_map)) [
    | inl new ↦
        rw (new, note_edge)
          (Ensures-and_then (λ _. length (insert (edge_key e) e s.edge_map) ≤ edge_limit r q)
            (Noted s) _ _
            (within_limit (edge_limit r q) (length (insert (edge_key e) e s.edge_map)))
            λ _ _ few. record {
              sound = record {
                few_nodes = i.few_nodes;
                few_edges = few;
                aligned = i.aligned;
                reached = i.reached;
                keyed =
                    AllRows-insert (λ key x. edge_key x ≡ key) (edge_key e) e s.edge_map refl
                      i.keyed;
              };
              same_nodes = refl;
              same_distance = refl;
            })
    | inr (_, old) ↦
        rw (old, note_edge) (record { sound = i; same_nodes = refl; same_distance = refl })
  ]

  stays : (s : Search) → IsSound s → Grows (length s.nodes) (s, [])
  stays s i = record { sound = i; count = omega arith }

  admitted-Grows :
      (d : ℕ) (id : String) (n : GraphNode) (s : Search)
      → IsSound s
      → lookup id s.distance ≡ none
      → Reach id (d + 1)
      → length (insert id n s.nodes) ≤ node_limit r q
      → Grows (length s.nodes) (
        record s { distance = insert id (d + 1) s.distance; nodes = insert id n s.nodes },
        id ∷ [],
      )
  admitted-Grows d id n s i new reach few = record {
    sound = record {
      few_nodes = few;
      few_edges = i.few_edges;
      aligned = λ j absent.
          ground (
            arith,
            lookup-insert j id n s.nodes,
            lookup-insert j id (d + 1) s.distance,
            i.aligned j,
          );
      reached = AllRows-insert Reach id (d + 1) s.distance reach i.reached;
      keyed = i.keyed;
    };
    count = omega (arith, length-insert_new id n s.nodes (i.aligned id new));
  }

  visit-Grows :
      (d : ℕ) (id : String) (s : Search)
      → IsSound s
      → lookup id s.distance ≡ none
      → (IsNode id → Reach id (d + 1))
      → Ensures (Grows (length s.nodes)) (visit r q d id s)
  unfolding visit
  visit-Grows d id s i new reach =
      (elim (r.get_node id)
          as (λ x.
            r.get_node id ≡ x → Ensures (Grows (length s.nodes)) (visit_found r q d id s x)) [
              | err not_found_error ↦ λ _. stays s i
              | err _ ↦ λ _. tt
              | ok n ↦ λ found. elim (Bool-cases (admits r q.node_kinds n)) [
                | inl admitted ↦
                    rw (admitted, visit_found)
                      (Ensures-and_then (λ _. length (insert id n s.nodes) ≤ node_limit r q)
                        (Grows (length s.nodes)) _ _
                        (within_limit (node_limit r q) (length (insert id n s.nodes)))
                        (λ _ _ few.
                          admitted-Grows d id n s i new
                            (reach (record { model = n; found = found; admitted = admitted })) few))
                | inr refused ↦ rw (refused, visit_found) (stays s i)
              ]
            ])
        refl

  follow-Grows :
      (current : String) (d : ℕ) (e : Edge) (s : Search)
      → IsSound s
      → (IsNode (far_end current e) → Reach (far_end current e) (d + 1))
      → Ensures (Grows (length s.nodes)) (follow r q current d e s)
  unfolding follow
  follow-Grows current d e s i reach =
      Ensures-and_then (Noted s) (Grows (length s.nodes)) _ _ (note_edge-Noted e s i) λ s' _ noted.
        let same : length s'.nodes ≡ length s.nodes = ap length noted.same_nodes in
        elim (Option-cases (lookup (far_end current e) s'.distance)) [
          | inl new ↦ rw new (
              subst (λ n. Ensures (Grows n) (visit r q d (far_end current e) s')) same
                (visit-Grows d (far_end current e) s' noted.sound new reach))
          | inr (_, old) ↦ rw old (record { sound = noted.sound; count = omega arith })
        ]

  join-Grows :
      (n : ℕ) (s s' : Search) (new more : List String)
      → Grows n (s, new)
      → Grows (length s.nodes) (s', more)
      → Grows n (s', new ++ more)
  join-Grows n s s' new more g h = record {
    sound = h.sound;
    count = omega (arith, g.count, h.count, length-append new more);
  }

  edge_loop-Grows :
      (current : String) (d : ℕ) (es : List Edge) (s : Search)
      → IsSound s
      → All (λ e. IsNode (far_end current e) → Reach (far_end current e) (d + 1)) es
      → Ensures (Grows (length s.nodes)) (edge_loop r q current d es s)
  unfolding edge_loop
  edge_loop-Grows current d [] s i reach = stays s i
  edge_loop-Grows current d (e ∷ es) s i reach =
      let rest = λ (s' : Search) (i' : IsSound s'). edge_loop-Grows current d es s' i' reach.1 in
      Ensures-and_then (Grows (length s.nodes)) (Grows (length s.nodes)) _ _
        (follow-Grows current d e s i reach.0)
        λ (s', new) _ g.
          Ensures-and_then (Grows (length s'.nodes)) (Grows (length s.nodes)) _ _ (rest s' g.sound)
            (λ (s'', more) _ h. join-Grows (length s.nodes) s' s'' new more g h)

  expand-Grows :
      (current : String) (s : Search)
      → IsSound s
      → Ensures (Grows (length s.nodes)) (expand r q current s)
  unfolding expand
  expand-Grows current s i = elim (Option-cases (lookup current s.distance)) [
    | inl absent ↦ rw (absent, expand) tt
    | inr (d, present) ↦ elim (Bool-cases (leb (to_ℕ q.depth) d)) [
      | inl deep ↦ rw (present, expand, deep) (stays s i)
      | inr shallow ↦
          rw (present, expand, shallow)
            (Ensures-and_then (λ _. Unit {0}) (Grows (length s.nodes)) _ _
              (Ensures-nothing (edges_at r q current))
              λ es read _. edge_loop-Grows current d es s i (
                All-of_In _ es λ e member node.
                  step current d es e (i.reached current d present)
                    (leb→lt (to_ℕ q.depth) d shallow) read member node))
    ]
  ]

  -- The outcome of the loop: it never runs out of fuel, and what it returns is sound.
  abbrev pub Finishes : Option (Result GraphError Search) → Type 0
  Finishes none = ⊥
  Finishes (some out) = Ensures IsSound out

  pub search_loop-Finishes :
      (fuel : ℕ) (queue : List String) (s : Search)
      → IsSound s
      → length queue + node_limit r q ≤ fuel + length s.nodes
      → Finishes (search_loop r q fuel queue s)
  unfolding search_loop
  search_loop-Finishes zero [] s i h = i
  search_loop-Finishes (suc fuel) [] s i h = i
  search_loop-Finishes zero (id ∷ queue) s i h = absurd (omega (arith, i.few_nodes))
  search_loop-Finishes (suc fuel) (id ∷ queue) s i h =
      let later = search_loop-Finishes fuel in
      (elim (expand r q id s)
          as (λ x.
            Ensures (Grows (length s.nodes)) x
            → Finishes (elim x [
              | err e ↦ some (err e)
              | ok (s', new) ↦ search_loop r q fuel (queue ++ new) s'
            ])) [
              | err e ↦ λ _. tt
              | ok (s', new) ↦ λ g.
                  later (queue ++ new) s' g.sound (omega (arith, g.count, length-append queue new))
            ])
        (expand-Grows id s i)
