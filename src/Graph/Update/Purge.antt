-- ===== src/Graph/Update/Purge.antt =====
-- What the purge of a scope leaves in each table.
use code_suit.Base.{String, List, [], ◌∷◌, ◌≡◌, refl, ap, ◌∙◌, Eq, string_eq}
use code_suit.Base.Dict.{Dict, erase, erase_all}
use code_suit.Graph.Types.{edge_key_eq}
use code_suit.Graph.Rows.{Tables}
use code_suit.Graph.Tables.{
  drop_node, drop_edge, scope_node_ids, scope_edge_keys, scope_evidence_ids,
}
use code_suit.Graph.Store.{drop_evidence, unseen}
use code_suit.Graph.Update.{Seen}
use code_suit.Graph.Update.Writes.{drop_all, purge_edges, purge_nodes, purge_evidence, purge_tables}

-- A part of the tables under a sequence of deletions.
module _ {Json K X : Type 0} (drop : K → Tables Json → Tables Json) (part : Tables Json → X) where
  part-drop_all :
      ((k : K) (t : Tables Json) → part (drop k t) ≡ part t)
      → (ks : List K) (t : Tables Json) → part (drop_all drop ks t) ≡ part t
  unfolding drop_all
  part-drop_all h [] t = refl
  part-drop_all h (k ∷ ks) t = part-drop_all h ks (drop k t) ∙ h k t

module _ {Json K V : Type 0} ⦃e : Eq K⦄ (drop : K → Tables Json → Tables Json)
    (part : Tables Json → Dict K V) where
  part-drop_all_own :
      ((k : K) (t : Tables Json) → part (drop k t) ≡ erase k (part t))
      → (ks : List K) (t : Tables Json) → part (drop_all drop ks t) ≡ erase_all ks (part t)
  unfolding drop_all erase_all
  part-drop_all_own h [] t = refl
  part-drop_all_own h (k ∷ ks) t = part-drop_all_own h ks (drop k t) ∙ ap (erase_all ks) (h k t)

module _ {Json : Type 0} (scope : String) (seen : Seen) (t : Tables Json) where
  pub nodes-purge_tables :
      (purge_tables scope seen t).nodes
      ≡ erase_all (unseen seen.node_ids (scope_node_ids scope t)) t.nodes
  unfolding purge_tables purge_edges purge_nodes purge_evidence scope_node_ids drop_edge drop_node
      drop_evidence
  nodes-purge_tables =
      part-drop_all drop_evidence (λ u. u.nodes) (λ k u. refl) _ _
      ∙ part-drop_all_own drop_node (λ u. u.nodes) (λ k u. refl) _ _
      ∙ rw (
          part-drop_all (drop_edge {Json = Json}) (λ u. u.nodes) (λ k u. refl)
            (unseen seen.edge_keys (scope_edge_keys scope t)) t)

  pub edges-purge_tables :
      (purge_tables scope seen t).edges
      ≡ erase_all (unseen seen.edge_keys (scope_edge_keys scope t)) t.edges
  unfolding purge_tables purge_edges purge_nodes purge_evidence drop_edge drop_node drop_evidence
  edges-purge_tables =
      part-drop_all drop_evidence (λ u. u.edges) (λ k u. refl) _ _
      ∙ part-drop_all drop_node (λ u. u.edges) (λ k u. refl) _ _
      ∙ part-drop_all_own drop_edge (λ u. u.edges) (λ k u. refl) _ _

  pub evidence-purge_tables :
      (purge_tables scope seen t).evidence
      ≡ erase_all (unseen seen.evidence_ids (scope_evidence_ids scope t)) t.evidence
  unfolding purge_tables purge_edges purge_nodes purge_evidence scope_evidence_ids drop_edge
      drop_node drop_evidence
  evidence-purge_tables =
      part-drop_all_own drop_evidence (λ u. u.evidence) (λ k u. refl) _ _
      ∙ rw (
        part-drop_all (drop_node {Json = Json}) (λ u. u.evidence) (λ k u. refl)
            (unseen seen.node_ids (scope_node_ids scope (purge_edges scope seen t)))
            (purge_edges scope seen t),
        part-drop_all (drop_edge {Json = Json}) (λ u. u.evidence) (λ k u. refl)
            (unseen seen.edge_keys (scope_edge_keys scope t)) t,
      )
