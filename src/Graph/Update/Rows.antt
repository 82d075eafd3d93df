-- ===== src/Graph/Update/Rows.antt =====
-- The rows that the calls of a refresh put in each table, and the keys that they mark as seen.
use code_suit.Base.{String, ◌||◌, List, [], ◌∷◌, ◌≡◌, refl, ◌==◌, contains, Eq, string_eq, arith}
use code_suit.Base.Dict.{keys}
use code_suit.Graph.Types.{EdgeKey, edge_key, edge_key_eq}
use code_suit.Graph.Rows.{Codec, Tables, NodeRow, PayloadRow}
use code_suit.Graph.Tables.{node_row, edge_row, evidence_row, put_node, put_edge, put_evidence}
use code_suit.Graph.Update.{Seen, WriterCall, node, edge, evidence, add, mark}
use code_suit.Graph.Update.Writes.{mark_all, put_one, put_all}
use code_suit.Graph.Update.Scoped.{inserts, InScope}

contains-add :
    {K : Type 0} ⦃e : Eq K⦄ (k j : K) (ks : List K)
    → contains (add k ks) j ≡ (j == k || contains ks j)
unfolding add
contains-add k j ks = ground (arith)

-- The rows that the calls put, and the keys that they mark.
module _ {Json : Type 0} (codec : Codec Json) (scope : String) where
  unfoldable pub node_rows : List WriterCall → List (String × NodeRow Json)
  node_rows [] = []
  node_rows (node now n ∷ calls) = (n.id, node_row codec now n scope) ∷ node_rows calls
  node_rows (_ ∷ calls) = node_rows calls

  unfoldable pub edge_rows : List WriterCall → List (EdgeKey × PayloadRow Json)
  edge_rows [] = []
  edge_rows (edge now e ∷ calls) = (edge_key e, edge_row codec now e scope) ∷ edge_rows calls
  edge_rows (_ ∷ calls) = edge_rows calls

  unfoldable pub evidence_rows : List WriterCall → List (String × PayloadRow Json)
  evidence_rows [] = []
  evidence_rows (evidence now v ∷ calls) =
      (v.id, evidence_row codec now v scope) ∷ evidence_rows calls
  evidence_rows (_ ∷ calls) = evidence_rows calls

  pub nodes-put_all :
      (calls : List WriterCall) (t : Tables Json)
      → (put_all codec scope calls t).nodes ≡ inserts (node_rows calls) t.nodes
  unfolding put_all put_one put_node put_edge put_evidence inserts node_rows
  nodes-put_all [] t = refl
  nodes-put_all (node now n ∷ calls) t = nodes-put_all calls _
  nodes-put_all (edge now e ∷ calls) t = nodes-put_all calls _
  nodes-put_all (evidence now v ∷ calls) t = nodes-put_all calls _

  pub edges-put_all :
      (calls : List WriterCall) (t : Tables Json)
      → (put_all codec scope calls t).edges ≡ inserts (edge_rows calls) t.edges
  unfolding put_all put_one put_node put_edge put_evidence inserts edge_rows
  edges-put_all [] t = refl
  edges-put_all (node now n ∷ calls) t = edges-put_all calls _
  edges-put_all (edge now e ∷ calls) t = edges-put_all calls _
  edges-put_all (evidence now v ∷ calls) t = edges-put_all calls _

  pub evidence-put_all :
      (calls : List WriterCall) (t : Tables Json)
      → (put_all codec scope calls t).evidence ≡ inserts (evidence_rows calls) t.evidence
  unfolding put_all put_one put_node put_edge put_evidence inserts evidence_rows
  evidence-put_all [] t = refl
  evidence-put_all (node now n ∷ calls) t = evidence-put_all calls _
  evidence-put_all (edge now e ∷ calls) t = evidence-put_all calls _
  evidence-put_all (evidence now v ∷ calls) t = evidence-put_all calls _

  pub node_rows-InScope : (calls : List WriterCall) → InScope (λ r. r.scope) scope (node_rows calls)
  unfolding node_rows
  node_rows-InScope [] = tt
  node_rows-InScope (node now n ∷ calls) = (refl, node_rows-InScope calls)
  node_rows-InScope (edge now e ∷ calls) = node_rows-InScope calls
  node_rows-InScope (evidence now v ∷ calls) = node_rows-InScope calls

  pub edge_rows-InScope : (calls : List WriterCall) → InScope (λ r. r.scope) scope (edge_rows calls)
  unfolding edge_rows
  edge_rows-InScope [] = tt
  edge_rows-InScope (node now n ∷ calls) = edge_rows-InScope calls
  edge_rows-InScope (edge now e ∷ calls) = (refl, edge_rows-InScope calls)
  edge_rows-InScope (evidence now v ∷ calls) = edge_rows-InScope calls

  pub evidence_rows-InScope :
      (calls : List WriterCall) → InScope (λ r. r.scope) scope (evidence_rows calls)
  unfolding evidence_rows
  evidence_rows-InScope [] = tt
  evidence_rows-InScope (node now n ∷ calls) = evidence_rows-InScope calls
  evidence_rows-InScope (edge now e ∷ calls) = evidence_rows-InScope calls
  evidence_rows-InScope (evidence now v ∷ calls) = (refl, evidence_rows-InScope calls)

  pub contains-node_ids :
      (j : String) (calls : List WriterCall) (seen : Seen)
      → contains (mark_all calls seen).node_ids j
        ≡ (contains seen.node_ids j || contains (keys (node_rows calls)) j)
  unfolding mark_all mark node_rows keys
  contains-node_ids j [] seen = ground arith
  contains-node_ids j (node now n ∷ calls) seen =
      ground (
        arith,
        contains-node_ids j calls (mark (node now n) seen),
        contains-add n.id j seen.node_ids,
      )
  contains-node_ids j (edge now e ∷ calls) seen = contains-node_ids j calls (mark (edge now e) seen)
  contains-node_ids j (evidence now v ∷ calls) seen =
      contains-node_ids j calls (mark (evidence now v) seen)

  pub contains-edge_keys :
      (j : EdgeKey) (calls : List WriterCall) (seen : Seen)
      → contains (mark_all calls seen).edge_keys j
        ≡ (contains seen.edge_keys j || contains (keys (edge_rows calls)) j)
  unfolding mark_all mark edge_rows keys
  contains-edge_keys j [] seen = ground arith
  contains-edge_keys j (node now n ∷ calls) seen =
      contains-edge_keys j calls (mark (node now n) seen)
  contains-edge_keys j (edge now e ∷ calls) seen = ground (
    arith,
    contains-edge_keys j calls (mark (edge now e) seen),
    contains-add (edge_key e) j seen.edge_keys,
  )
  contains-edge_keys j (evidence now v ∷ calls) seen =
      contains-edge_keys j calls (mark (evidence now v) seen)

  pub contains-evidence_ids :
      (j : String) (calls : List WriterCall) (seen : Seen)
      → contains (mark_all calls seen).evidence_ids j
        ≡ (contains seen.evidence_ids j || contains (keys (evidence_rows calls)) j)
  unfolding mark_all mark evidence_rows keys
  contains-evidence_ids j [] seen = ground arith
  contains-evidence_ids j (node now n ∷ calls) seen =
      contains-evidence_ids j calls (mark (node now n) seen)
  contains-evidence_ids j (edge now e ∷ calls) seen =
      contains-evidence_ids j calls (mark (edge now e) seen)
  contains-evidence_ids j (evidence now v ∷ calls) seen = ground (
    arith,
    contains-evidence_ids j calls (mark (evidence now v) seen),
    contains-add v.id j seen.evidence_ids,
  )
