-- ===== src/Graph/WellFormed/Calls.antt =====
-- Sequences of calls of the store: its tables stay well-formed, and what is read is what was put.
use code_suit.Base.{
  String, true, false, not, Option, none, some, List, [], ◌∷◌, ◌≡◌, ◌==◌, string_eq, nat_eq, All,
}
use code_suit.Base.Dict.{lookup, select-NodupKeys, AllRows-select}
use code_suit.Base.Result.{Exec, pure, ◌>>◌}
use code_suit.Graph.Types.{
  GraphNode, Edge, EdgeKey, Evidence, GraphError, node_ok, evidence_ok, not_found_error,
  store_error, edge_key_eq,
}
use code_suit.Graph.Rows.{Codec, Tables, Connection, Store, Meta}
use code_suit.Graph.Tables.{
  drop_node, drop_edge, referenced, scope_node_ids, scope_edge_keys, scope_evidence_ids,
}
use code_suit.Graph.Store.{
  if_found, begin, commit, rollback, close, initialize, write_meta, delete_node, delete_edge,
  purge_scope, purge_scope_not_seen, purge_connection, purge_edge_rows, purge_node_rows, unseen,
  schema_version, delete_each, drop_evidence, upsert_node, upsert_edge, upsert_evidence,
}
use code_suit.Graph.Update.{
  WriterCall, node, edge, evidence, Seen, Script, nothing_seen, mark, write_one, write_all, finish,
  refresh_body, run_refresh,
}
use code_suit.Graph.WellFormed.{
  IsWellFormed, NodeStored, EdgeStored, EvidenceStored, put_node-IsWellFormed,
  put_edge-IsWellFormed, put_evidence-IsWellFormed, drop_node-IsWellFormed, drop_edge-IsWellFormed,
  drop_evidence-IsWellFormed,
}
use code_suit.Graph.WellFormed.Keeps.{
  store, IsSound, Keeps, Keeps-pure, Keeps-raise, Keeps-raise_if, Keeps-bind, Keeps-execute,
  Keeps-assign, Keeps-begin, Keeps-commit, Keeps-rollback, Keeps-transaction,
}

-- A call of the store by its client. A refresh is the whole of `run_refresh`.
pub data StoreCall : Type 0 where
  initialize_call : String → StoreCall
  begin_call commit_call rollback_call close_call : StoreCall
  node_call : String → GraphNode → String → StoreCall
  edge_call : String → Edge → String → StoreCall
  evidence_call : String → Evidence → String → StoreCall
  delete_node_call : String → StoreCall
  delete_edge_call : EdgeKey → StoreCall
  purge_call : String → StoreCall
  refresh_call : String → Script → StoreCall

-- The models that a call passes were validated when they were made.
abbrev pub IsValidWrite : WriterCall → Type 0
IsValidWrite (node _ n) = node_ok n.provenance n.detail ≡ true
IsValidWrite (edge _ _) = Unit
IsValidWrite (evidence _ v) = evidence_ok v ≡ true

abbrev pub IsValidCall : StoreCall → Type 0
IsValidCall (node_call _ n _) = node_ok n.provenance n.detail ≡ true
IsValidCall (evidence_call _ v _) = evidence_ok v ≡ true
IsValidCall (refresh_call _ script) = All IsValidWrite script.calls
IsValidCall _ = Unit

module _ {Json : Type 0} (codec : Codec Json) where
  unfoldable pub call : StoreCall → Exec GraphError (Store Json) (Unit {0})
  call (initialize_call now) = initialize now
  call begin_call = begin
  call commit_call = commit
  call rollback_call = rollback
  call close_call = close
  call (node_call now n scope) = upsert_node codec now n scope
  call (edge_call now e scope) = upsert_edge codec now e scope
  call (evidence_call now v scope) = upsert_evidence codec now v scope
  call (delete_node_call id) = delete_node id
  call (delete_edge_call key) = delete_edge key
  call (purge_call scope) = purge_scope scope
  call (refresh_call scope script) = do run_refresh codec scope script; pure tt

  -- The state after a sequence of calls, each of which may have raised.
  unfoldable pub serve : List StoreCall → Store Json → Store Json
  unfolding call
  serve [] s = s
  serve (c ∷ cs) s = serve cs (call c s).1

  delete_each-IsWellFormed :
      {K : Type 0} (drop : K → Tables Json → Tables Json)
      → ((k : K) (t : Tables Json) → IsWellFormed codec t → IsWellFormed codec (drop k t))
      → (ks : List K) (c : Connection Json) → IsWellFormed codec c.tables
      → IsWellFormed codec (delete_each drop ks c).tables
  unfolding delete_each
  delete_each-IsWellFormed drop k [] c w = w
  delete_each-IsWellFormed drop k (x ∷ xs) c w =
      delete_each-IsWellFormed drop k xs _ (k x c.tables w)

  purge_connection-IsWellFormed :
      (scope : String) (ns : List String) (es : List EdgeKey) (vs : List String)
      (c : Connection Json)
      → IsWellFormed codec c.tables
      → IsWellFormed codec (purge_connection scope ns es vs c).tables
  unfolding purge_connection
  purge_connection-IsWellFormed scope ns es vs c w =
      let c₁ = purge_edge_rows scope es c in
      let c₂ = purge_node_rows scope ns c₁ in
      let w₁ : IsWellFormed codec c₁.tables =
        delete_each-IsWellFormed drop_edge (drop_edge-IsWellFormed codec)
          (unseen es (scope_edge_keys scope c.tables)) c w in
      let w₂ : IsWellFormed codec c₂.tables =
        delete_each-IsWellFormed drop_node (drop_node-IsWellFormed codec)
          (unseen ns (scope_node_ids scope c₁.tables)) c₁ w₁ in
      delete_each-IsWellFormed drop_evidence (drop_evidence-IsWellFormed codec)
        (unseen vs (scope_evidence_ids scope c₂.tables)) c₂ w₂

  Keeps-write_one :
      (scope : String) (w : WriterCall) → IsValidWrite w → Keeps codec (write_one codec scope w)
  unfolding write_one
  Keeps-write_one scope (node now n) v =
      Keeps-execute codec _ (λ t. put_node-IsWellFormed codec now n scope t v)
  Keeps-write_one scope (edge now e) v =
      Keeps-execute codec _ (λ t. put_edge-IsWellFormed codec now e scope t)
  Keeps-write_one scope (evidence now e) v =
      Keeps-execute codec _ (λ t. put_evidence-IsWellFormed codec now e scope t v)

  Keeps-write_all :
      (scope : String) (ws : List WriterCall) (seen : Seen)
      → All IsValidWrite ws
      → Keeps codec (write_all codec scope ws seen)
  unfolding write_all
  Keeps-write_all scope [] seen v = Keeps-pure codec seen
  Keeps-write_all scope (w ∷ ws) seen v =
      Keeps-bind codec _ _ (Keeps-write_one scope w v.0)
        (λ _. Keeps-write_all scope ws (mark w seen) v.1)

  Keeps-finish :
      (scope : String) (failure : Option GraphError) → Keeps codec (finish codec scope failure)
  Keeps-finish scope none = Keeps-pure codec tt
  Keeps-finish scope (some e) = Keeps-raise codec e

  Keeps-run_refresh :
      (scope : String) (script : Script)
      → All IsValidWrite script.calls
      → Keeps codec (run_refresh codec scope script)
  unfolding run_refresh refresh_body purge_scope_not_seen
  Keeps-run_refresh scope script v = Keeps-bind codec _ _ (Keeps-raise_if codec _ _) λ _.
      Keeps-transaction codec _ (
        Keeps-bind codec _ _ (Keeps-write_all scope script.calls nothing_seen v) λ seen.
          Keeps-bind codec _ _ (Keeps-finish scope script.failure) λ _.
            Keeps-bind codec _ _
              (Keeps-assign codec _ (
                purge_connection-IsWellFormed scope seen.node_ids seen.edge_keys seen.evidence_ids))
              (λ _. Keeps-pure codec seen))

  Keeps-if_found : {A : Type 0} (o : Option A) → Keeps codec (if_found o)
  Keeps-if_found none = Keeps-raise codec not_found_error
  Keeps-if_found (some _) = Keeps-pure codec tt

  Keeps-delete_node : (id : String) → Keeps codec (delete_node id)
  unfolding delete_node
  Keeps-delete_node id = record { at = go }
    where
      go :
          (root : String) (file : Tables Json) (c : Option (Connection Json))
          → IsSound codec (store root file c)
          → IsSound codec (delete_node id (store root file c)).1
      go root file none h = h
      go root file (some c) h =
          (Keeps-bind codec _ _ (Keeps-raise_if codec (referenced id c.tables) store_error) λ _.
              Keeps-bind codec _ _
                (Keeps-execute codec (drop_node id) (drop_node-IsWellFormed codec id))
                λ _. Keeps-if_found (lookup id c.tables.nodes)).at
            root file (some c) h

  Keeps-delete_edge : (key : EdgeKey) → Keeps codec (delete_edge key)
  unfolding delete_edge
  Keeps-delete_edge key = record { at = go }
    where
      go :
          (root : String) (file : Tables Json) (c : Option (Connection Json))
          → IsSound codec (store root file c)
          → IsSound codec (delete_edge key (store root file c)).1
      go root file none h = h
      go root file (some c) h =
          (Keeps-bind codec _ _
              (Keeps-execute codec (drop_edge key) (drop_edge-IsWellFormed codec key))
              λ _. Keeps-if_found (lookup key c.tables.edges)).at
            root file (some c) h

  set_metadata-IsWellFormed :
      (m : Option Meta) (t : Tables Json)
      → IsWellFormed codec t
      → IsWellFormed codec (record t { metadata = m })
  set_metadata-IsWellFormed m t w = record {
    node_keys = w.node_keys;
    edge_keys = w.edge_keys;
    evidence_keys = w.evidence_keys;
    node_rows = w.node_rows;
    edge_rows = w.edge_rows;
    evidence_rows = w.evidence_rows;
  }

  Keeps-purge_scope : (scope : String) → Keeps codec (purge_scope scope)
  unfolding purge_scope
  Keeps-purge_scope scope =
      Keeps-bind codec _ _
        (Keeps-execute codec _ λ t w. record {
          node_keys = w.node_keys;
          edge_keys = select-NodupKeys _ t.edges w.edge_keys;
          evidence_keys = w.evidence_keys;
          node_rows = w.node_rows;
          edge_rows = AllRows-select (EdgeStored codec) _ t.edges w.edge_keys w.edge_rows;
          evidence_rows = w.evidence_rows;
        })
        λ _.
          Keeps-bind codec _ _
            (Keeps-execute codec _ λ t w. record {
              node_keys = select-NodupKeys _ t.nodes w.node_keys;
              edge_keys = w.edge_keys;
              evidence_keys = w.evidence_keys;
              node_rows = AllRows-select (NodeStored codec) _ t.nodes w.node_keys w.node_rows;
              edge_rows = w.edge_rows;
              evidence_rows = w.evidence_rows;
            })
            λ _. Keeps-execute codec _ λ t w. record {
              node_keys = w.node_keys;
              edge_keys = w.edge_keys;
              evidence_keys = select-NodupKeys _ t.evidence w.evidence_keys;
              node_rows = w.node_rows;
              edge_rows = w.edge_rows;
              evidence_rows =
                  AllRows-select (EvidenceStored codec) _ t.evidence w.evidence_keys
                    w.evidence_rows;
            }

  Keeps-apply_meta : (now root : String) (m : Option Meta) → Keeps codec (write_meta now root m)
  unfolding write_meta
  Keeps-apply_meta now root none = Keeps-execute codec _ (set_metadata-IsWellFormed _)
  Keeps-apply_meta now root (some m) =
      let m' : Meta = record m { updated_at = now } in
      Keeps-bind codec _ _
        (Keeps-raise_if codec (not (m.schema_version == schema_version)) store_error)
        λ _.
          Keeps-bind codec _ _ (Keeps-raise_if codec (not (m.workspace_root == root)) store_error)
            λ _.
              Keeps-execute codec (λ t. record t { metadata = some m' })
                (set_metadata-IsWellFormed (some m'))

  Keeps-initialize : (now : String) → Keeps codec (initialize now)
  unfolding initialize
  Keeps-initialize now = record {
    at = λ root file c h.
        (Keeps-bind codec _ _ (Keeps-apply_meta now root file.metadata)
            (λ _. Keeps-commit codec)).at
          root file (some (record { tables = file; in_transaction = false }))
          (record { file = h.file; tables = h.file });
  }

  Keeps-call : (c : StoreCall) → IsValidCall c → Keeps codec (call c)
  unfolding call close upsert_node upsert_edge upsert_evidence
  Keeps-call (initialize_call now) v = Keeps-initialize now
  Keeps-call begin_call v = Keeps-begin codec
  Keeps-call commit_call v = Keeps-commit codec
  Keeps-call rollback_call v = Keeps-rollback codec
  Keeps-call close_call v = record { at = λ root file c h. record { file = h.file; tables = tt } }
  Keeps-call (node_call now n scope) v =
      Keeps-execute codec _ (λ t. put_node-IsWellFormed codec now n scope t v)
  Keeps-call (edge_call now e scope) v =
      Keeps-execute codec _ (λ t. put_edge-IsWellFormed codec now e scope t)
  Keeps-call (evidence_call now e scope) v =
      Keeps-execute codec _ (λ t. put_evidence-IsWellFormed codec now e scope t v)
  Keeps-call (delete_node_call id) v = Keeps-delete_node id
  Keeps-call (delete_edge_call key) v = Keeps-delete_edge key
  Keeps-call (purge_call scope) v = Keeps-purge_scope scope
  Keeps-call (refresh_call scope script) v =
      Keeps-bind codec _ _ (Keeps-run_refresh scope script v) (λ _. Keeps-pure codec tt)

  -- Whatever the calls, and whether they return or raise, a store whose committed and visible
  -- tables are well-formed stays so, if the models that the calls pass are valid.
  pub serve-IsSound :
      (cs : List StoreCall) (s : Store Json)
      → All IsValidCall cs
      → IsSound codec s
      → IsSound codec (serve cs s)
  unfolding serve
  serve-IsSound [] s v h = h
  serve-IsSound (c ∷ cs) s v h =
      serve-IsSound cs (call c s).1 v.1
        ((Keeps-call c v.0).at s.workspace_root s.file s.connection h)
