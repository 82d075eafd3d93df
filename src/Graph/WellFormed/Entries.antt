-- ===== src/Graph/WellFormed/Entries.antt =====
-- What reading a node back does: its entries go through their validators once more.
use code_suit.Base.{
  Bool, true, Option, none, some, List, [], ◌∷◌, ◌≡◌, refl, ◌==◌, sym, ap, ◌∙◌, ◌&&◌, ◌||◌, map,
  any, all, Option-cases, Bool-cases, inl, inr, if◌then◌else◌,
}
use code_suit.Base.Result.{Result, ok, err, Ensures}
use code_suit.Ids.{Python, is_blank}
use code_suit.Provenance.{ProvenanceEntry, SourceKind, lsp, syntax, ownership, source_kind_eq}
use code_suit.Provenance.Entries.{
  provenance_entry, provenance_entries, evidence_paths_from, is_blank_tool,
}
use code_suit.Graph.Types.{
  GraphNode, NodeDetail, repository_info, build_system_info, component_info, aggregator_info,
  runner_info, test_definition_info, package_manager_info, external_package_info, file_info,
  entity_info, GraphError, node_ok, validation_error, from_kind, nonempty,
}
use code_suit.Graph.Rows.{validate_node}

abbrev kinds : List ProvenanceEntry → List SourceKind
kinds = map (λ p. p.source_kind)

-- What holds of the value, where there is one.
abbrev Holds : {A : Type 0} → (A → Type 0) → Option A → Type 0
Holds P none = Unit
Holds P (some a) = P a

-- The tests of a node read the kinds of its entries only.
any-kinds :
    (f : SourceKind → Bool) (ps : List ProvenanceEntry)
    → any (λ p. f p.source_kind) ps ≡ any f (kinds ps)
any-kinds f [] = refl
any-kinds f (p ∷ ps) = ap (◌||◌ (f p.source_kind)) (any-kinds f ps)

all-kinds :
    (f : SourceKind → Bool) (ps : List ProvenanceEntry)
    → all (λ p. f p.source_kind) ps ≡ all f (kinds ps)
all-kinds f [] = refl
all-kinds f (p ∷ ps) = ap (◌&&◌ (f p.source_kind)) (all-kinds f ps)

nonempty-kinds : (ps : List ProvenanceEntry) → nonempty ps ≡ nonempty (kinds ps)
nonempty-kinds [] = refl
nonempty-kinds (p ∷ ps) = refl

node_ok-kinds :
    (ps qs : List ProvenanceEntry) (d : NodeDetail)
    → kinds qs ≡ kinds ps
    → node_ok qs d ≡ node_ok ps d
unfolding node_ok
node_ok-kinds ps qs d h = same d
  where
    some_ps : nonempty qs ≡ nonempty ps
    some_ps = nonempty-kinds qs ∙ ap nonempty h ∙ sym (nonempty-kinds ps)

    any_same :
        (f : SourceKind → Bool) → any (λ p. f p.source_kind) qs ≡ any (λ p. f p.source_kind) ps
    any_same f = any-kinds f qs ∙ ap (any f) h ∙ sym (any-kinds f ps)

    all_same :
        (f : SourceKind → Bool) → all (λ p. f p.source_kind) qs ≡ all (λ p. f p.source_kind) ps
    all_same f = all-kinds f qs ∙ ap (all f) h ∙ sym (all-kinds f ps)

    without_lsp : any (from_kind lsp) qs ≡ any (from_kind lsp) ps
    without_lsp = any_same (λ k. k == lsp)

    same : (d : NodeDetail) → node_ok qs d ≡ node_ok ps d
    same (repository_info _) = refl
    same (build_system_info _ _ _ _) = refl
    same (component_info _ _ _ _) = rw (some_ps, without_lsp) refl
    same aggregator_info = rw (some_ps, without_lsp) refl
    same (runner_info _ _) = rw (some_ps, all_same (λ k. k == ownership)) refl
    same (test_definition_info _ _) = some_ps
    same (package_manager_info _ _) = rw (some_ps, without_lsp) refl
    same (external_package_info _ _) = rw (some_ps, without_lsp) refl
    same (file_info _ _ _) = some_ps
    same (entity_info _ _ l0 l1 c0 c1 _) =
        rw (some_ps, any_same (λ k. k == lsp || k == syntax)) refl

-- The node with the entries that the validators make of its own, or the error that they raise.
abbrev pub reread : GraphNode → Option (List ProvenanceEntry) → Result GraphError GraphNode
reread n none = err validation_error
reread n (some ps) = ok (record n { provenance = ps })

module _ (py : Python) where
  provenance_entry-Holds :
      (p : ProvenanceEntry) → Holds (λ q. q.source_kind ≡ p.source_kind) (provenance_entry py p)
  unfolding provenance_entry
  provenance_entry-Holds p =
      elim (Bool-cases (is_blank_tool py p.source_tool || is_blank py p.evidence_summary)) [
        | inl bad ↦ rw (bad, Holds) tt
        | inr good ↦ elim (Option-cases (evidence_paths_from py [] p.evidence_paths)) [
          | inl refused ↦ rw (good, refused, Holds) tt
          | inr (paths, found) ↦ rw (good, found, Holds) refl
        ]
      ]

  provenance_entries-Holds :
      (ps : List ProvenanceEntry) → Holds (λ qs. kinds qs ≡ kinds ps) (provenance_entries py ps)
  unfolding provenance_entries
  provenance_entries-Holds [] = refl
  provenance_entries-Holds (p ∷ ps) =
      more (provenance_entry py p) (provenance_entries py ps) (provenance_entry-Holds p)
        (provenance_entries-Holds ps)
    where
      more :
          (first : Option ProvenanceEntry) (rest : Option (List ProvenanceEntry))
          → Holds (λ q. q.source_kind ≡ p.source_kind) first
          → Holds (λ qs. kinds qs ≡ kinds ps) rest
          → Holds
              (λ qs. kinds qs ≡ kinds (p ∷ ps))
              (elim first [
                | none ↦ none
                | some q ↦ elim rest [ none ↦ none | some qs ↦ some (q ∷ qs) ]
              ])
      more none rest h k = tt
      more (some q) none h k = tt
      more (some q) (some qs) h k = cc (h, k)

  -- The other validators accept again what they accepted once.
  pub validate_node-reread :
      (n : GraphNode)
      → node_ok n.provenance n.detail ≡ true
      → validate_node py n ≡ reread n (provenance_entries py n.provenance)
  unfolding validate_node
  validate_node-reread n valid =
      at (provenance_entries py n.provenance) (provenance_entries-Holds n.provenance)
    where
      at :
          (o : Option (List ProvenanceEntry))
          → Holds (λ qs. kinds qs ≡ kinds n.provenance) o
          → elim o as (λ _. Result GraphError GraphNode) [
            | none ↦ err validation_error
            | some ps ↦
                if node_ok ps n.detail
                then ok (record n { provenance = ps })
                else err validation_error
          ]
            ≡ reread n o
      at none h = refl
      at (some qs) h = rw (node_ok-kinds n.provenance qs n.detail h, valid) refl

  -- What is read back keeps the id and is valid.
  pub reread-Ensures :
      (n : GraphNode)
      → node_ok n.provenance n.detail ≡ true
      → Ensures
          (λ m. (m.id ≡ n.id) × (node_ok m.provenance m.detail ≡ true))
          (reread n (provenance_entries py n.provenance))
  reread-Ensures n valid =
      at (provenance_entries py n.provenance) (provenance_entries-Holds n.provenance)
    where
      at :
          (o : Option (List ProvenanceEntry))
          → Holds (λ qs. kinds qs ≡ kinds n.provenance) o
          → Ensures (λ m. (m.id ≡ n.id) × (node_ok m.provenance m.detail ≡ true)) (reread n o)
      at none h = tt
      at (some qs) h = (refl, node_ok-kinds n.provenance qs n.detail h ∙ valid)
