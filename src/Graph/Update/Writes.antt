-- ===== src/Graph/Update/Writes.antt =====
-- What the calls of a refresh leave in the tables, with the store's plumbing taken away.
use code_suit.Base.{String, List, [], ◌∷◌, ◌≡◌, refl, string_eq}
use code_suit.Base.Result.{ok}
use code_suit.Graph.Types.{edge_key_eq}
use code_suit.Graph.Rows.{Codec, Tables, Connection}
use code_suit.Graph.Tables.{
  put_node, put_edge, put_evidence, drop_node, drop_edge, scope_node_ids, scope_edge_keys,
  scope_evidence_ids,
}
use code_suit.Graph.Store.{delete_each, drop_evidence, unseen, purge_connection}
use code_suit.Graph.Store.Transactions.{opened, busy}
use code_suit.Graph.Update.{Seen, WriterCall, node, edge, evidence, mark, write_one, write_all}

unfoldable pub mark_all : List WriterCall → Seen → Seen
mark_all [] seen = seen
mark_all (call ∷ calls) seen = mark_all calls (mark call seen)

module _ {Json : Type 0} (codec : Codec Json) (scope : String) where
  unfoldable pub put_one : WriterCall → Tables Json → Tables Json
  put_one (node now n) t = put_node codec now n scope t
  put_one (edge now e) t = put_edge codec now e scope t
  put_one (evidence now v) t = put_evidence codec now v scope t

  unfoldable pub put_all : List WriterCall → Tables Json → Tables Json
  put_all [] t = t
  put_all (call ∷ calls) t = put_all calls (put_one call t)

  write_one-opened :
      (call : WriterCall) (root : String) (file : Tables Json) (c : Connection Json)
      → write_one codec scope call (opened root file c)
        ≡ (ok tt, opened root file (busy (put_one call c.tables)))
  unfolding write_one put_one
  write_one-opened (node now n) root file c = refl
  write_one-opened (edge now e) root file c = refl
  write_one-opened (evidence now v) root file c = refl

  -- In a transaction the calls all succeed and only the connection's tables change.
  pub write_all-opened :
      (calls : List WriterCall) (seen : Seen) (root : String) (file t : Tables Json)
      → write_all codec scope calls seen (opened root file (busy t))
        ≡ (ok (mark_all calls seen), opened root file (busy (put_all calls t)))
  unfolding write_all mark_all put_all
  write_all-opened [] seen root file t = refl
  write_all-opened (call ∷ calls) seen root file t =
      rw (write_one-opened call root file (busy t))
        (write_all-opened calls (mark call seen) root file (put_one call t))

-- The DELETE statements of a purge, on the tables alone.
module _ {Json K : Type 0} (drop : K → Tables Json → Tables Json) where
  unfoldable pub drop_all : List K → Tables Json → Tables Json
  drop_all [] t = t
  drop_all (k ∷ ks) t = drop_all ks (drop k t)

  pub delete_each-busy :
      (ks : List K) (t : Tables Json) → delete_each drop ks (busy t) ≡ busy (drop_all ks t)
  unfolding delete_each drop_all
  delete_each-busy [] t = refl
  delete_each-busy (k ∷ ks) t = delete_each-busy ks (drop k t)

module _ {Json : Type 0} (scope : String) (seen : Seen) where
  unfoldable pub purge_edges : Tables Json → Tables Json
  purge_edges t = drop_all drop_edge (unseen seen.edge_keys (scope_edge_keys scope t)) t

  unfoldable pub purge_nodes : Tables Json → Tables Json
  purge_nodes t = drop_all drop_node (unseen seen.node_ids (scope_node_ids scope t)) t

  unfoldable pub purge_evidence : Tables Json → Tables Json
  purge_evidence t =
      drop_all drop_evidence (unseen seen.evidence_ids (scope_evidence_ids scope t)) t

  unfoldable pub purge_tables : Tables Json → Tables Json
  purge_tables t = purge_evidence (purge_nodes (purge_edges t))

  pub purge_connection-busy :
      (t : Tables Json)
      → purge_connection scope seen.node_ids seen.edge_keys seen.evidence_ids (busy t)
        ≡ busy (purge_tables t)
  unfolding purge_connection purge_tables purge_edges purge_nodes purge_evidence
  purge_connection-busy t = simp delete_each-busy
