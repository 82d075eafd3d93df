-- ===== src/Graph/Store.antt =====
-- core/models/store/sqlite_store.py and migrations.py: the graph in an SQLite database.
-- `file` is what the database has committed; a connection sees its own tables, in or out of a
-- transaction. The `sqlite3` module opens a transaction before every INSERT, UPDATE and DELETE,
-- also before one that then changes no row, and refuses BEGIN inside a transaction.
pub mod Transactions
use code_suit.Base.{
  ℕ, zero, suc, String, Bool, true, false, Option, none, some, List, [], ◌∷◌, ◌==◌, contains, not,
  if◌then◌else◌, string_eq, nat_eq, Eq,
}
use code_suit.Base.Dict.{lookup, erase, select}
use code_suit.Base.Result.{Result, ok, err, Exec, pure, raise, raise_if, continue, ◌>>=◌, ◌>>◌}
use code_suit.Graph.Types.{
  NodeKind, EdgeKind, GraphNode, Edge, EdgeKey, Evidence, GraphError, node_kind, store_error,
  not_found_error, operational_error, edge_key_eq, node_kind_eq,
}
use code_suit.Graph.Rows.{Codec, Meta, Tables, Connection, Store}
use code_suit.Graph.Tables.{
  put_node, put_edge, put_evidence, read_node, read_evidence, edges_query, nodes_query, referenced,
  drop_node, drop_edge, scope_node_ids, scope_edge_keys, scope_evidence_ids,
}

abbrev pub schema_version : ℕ
schema_version = 1

-- Those of `keys` that are not in `seen`.
unfoldable pub unseen : {K : Type 0} ⦃e : Eq K⦄ → List K → List K → List K
unseen seen [] = []
unseen seen (k ∷ ks) = let rest = unseen seen ks in if contains seen k then rest else k ∷ rest

module _ {Json : Type 0} where
  -- The property `connection`.
  unfoldable pub connected : Exec GraphError (Store Json) (Connection Json)
  connected s = elim s.connection [ none ↦ (err store_error, s) | some c ↦ (ok c, s) ]

  abbrev pub assign : Connection Json → Exec GraphError (Store Json) (Unit {0})
  assign c s = (ok tt, record s { connection = some c })

  -- `connection.execute` of an INSERT, UPDATE or DELETE.
  unfoldable pub execute : (Tables Json → Tables Json) → Exec GraphError (Store Json) (Unit {0})
  unfolding connected
  execute statement = do
    c ← connected
    assign (record { tables = statement c.tables; in_transaction = true })

  unfoldable pub begin : Exec GraphError (Store Json) (Unit {0})
  unfolding connected
  begin = do
    c ← connected
    raise_if c.in_transaction operational_error
    assign (record c { in_transaction = true })

  unfoldable pub commit : Exec GraphError (Store Json) (Unit {0})
  unfolding connected
  commit = do
    c ← connected
    λ s. (
      ok tt,
      record s { file = c.tables; connection = some (record c { in_transaction = false }) },
    )

  unfoldable pub rollback : Exec GraphError (Store Json) (Unit {0})
  unfolding connected
  rollback = do
    c ← connected
    λ s.
        (ok tt, record s { connection = some (record { tables = s.file; in_transaction = false }) })

  unfoldable pub close : Exec GraphError (Store Json) (Unit {0})
  close s = (ok tt, record s { connection = none })

  -- `except Exception: rollback; raise`
  unfoldable pub settle :
      {A : Type 0} → Result GraphError A × Store Json → Result GraphError A × Store Json
  unfolding rollback
  settle (ok a, s) = (ok a, s)
  settle (err e, s) = (do rollback; raise e) s

  -- `with store.transaction():` around `body`
  unfoldable pub transaction :
      {A : Type 0} → Exec GraphError (Store Json) A → Exec GraphError (Store Json) A
  unfolding begin commit settle
  transaction body = do begin; λ s. settle ((do a ← body; commit; pure a) s)

  -- The row of `meta`: made, refused, or touched.
  unfoldable pub write_meta :
      String → String → Option Meta → Exec GraphError (Store Json) (Unit {0})
  unfolding execute string_eq nat_eq
  write_meta now root none = execute (λ t. record t {
    metadata = some (record {
      schema_version = schema_version;
      workspace_root = root;
      created_at = now;
      updated_at = now;
    });
  })
  write_meta now root (some m) = do
    raise_if (not (m.schema_version == schema_version)) store_error
    raise_if (not (m.workspace_root == root)) store_error
    execute (λ t. record t { metadata = some (record m { updated_at = now }) })

  -- `apply_migrations`, after the CREATE TABLE IF NOT EXISTS statements.
  unfoldable pub apply_migrations : String → Exec GraphError (Store Json) (Unit {0})
  unfolding connected commit write_meta
  apply_migrations now s =
      (do c ← connected; write_meta now s.workspace_root c.tables.metadata; commit) s

  -- The connection stays assigned when the migrations raise.
  unfoldable pub initialize : String → Exec GraphError (Store Json) (Unit {0})
  unfolding apply_migrations
  initialize now = do
    (λ s. (
      ok tt,
      record s { connection = some (record { tables = s.file; in_transaction = false }) },
    ))
    apply_migrations now

  -- `if deleted == 0: raise GraphNotFoundError`
  abbrev pub if_found : {A : Type 0} → Option A → Exec GraphError (Store Json) (Unit {0})
  if_found none = raise not_found_error
  if_found (some _) = pure tt

  -- The DELETE runs, and opens a transaction, before its row count is looked at.
  unfoldable pub delete_node : String → Exec GraphError (Store Json) (Unit {0})
  unfolding connected execute
  delete_node node_id = do
    c ← connected
    raise_if (referenced node_id c.tables) store_error
    execute (drop_node node_id)
    if_found (lookup node_id c.tables.nodes)

  unfoldable pub delete_edge : EdgeKey → Exec GraphError (Store Json) (Unit {0})
  unfolding connected execute
  delete_edge key = do c ← connected; execute (drop_edge key); if_found (lookup key c.tables.edges)

  -- One DELETE for each of `victims`.
  unfoldable pub delete_each :
      {K : Type 0} → (K → Tables Json → Tables Json) → List K → Connection Json → Connection Json
  delete_each drop [] c = c
  delete_each drop (k ∷ ks) c =
      delete_each drop ks (record { tables = drop k c.tables; in_transaction = true })

  unfoldable pub drop_evidence : String → Tables Json → Tables Json
  drop_evidence id t = record t { evidence = erase id t.evidence }

  -- The three loops of `purge_scope_not_seen`, on the connection.
  unfoldable pub purge_edge_rows : String → List EdgeKey → Connection Json → Connection Json
  unfolding delete_each unseen edge_key_eq
  purge_edge_rows scope seen c =
      delete_each drop_edge (unseen seen (scope_edge_keys scope c.tables)) c

  unfoldable pub purge_node_rows : String → List String → Connection Json → Connection Json
  unfolding delete_each unseen string_eq
  purge_node_rows scope seen c =
      delete_each drop_node (unseen seen (scope_node_ids scope c.tables)) c

  unfoldable pub purge_evidence_rows : String → List String → Connection Json → Connection Json
  unfolding delete_each unseen drop_evidence string_eq
  purge_evidence_rows scope seen c =
      delete_each drop_evidence (unseen seen (scope_evidence_ids scope c.tables)) c

  unfoldable pub purge_connection :
      String → List String → List EdgeKey → List String → Connection Json → Connection Json
  unfolding purge_edge_rows purge_node_rows purge_evidence_rows
  purge_connection scope seen_nodes seen_edges seen_evidence c =
      purge_evidence_rows scope seen_evidence
        (purge_node_rows scope seen_nodes (purge_edge_rows scope seen_edges c))

  unfoldable pub purge_scope_not_seen :
      String → List String → List EdgeKey → List String → Exec GraphError (Store Json) (Unit {0})
  unfolding connected
  purge_scope_not_seen scope seen_nodes seen_edges seen_evidence = do
    c ← connected
    assign (purge_connection scope seen_nodes seen_edges seen_evidence c)

  -- DELETE FROM ... WHERE scope = ?, on the three tables.
  unfoldable pub purge_scope : String → Exec GraphError (Store Json) (Unit {0})
  unfolding execute string_eq
  purge_scope scope = do
    execute (λ t. record t { edges = select (λ _ row. not (row.scope == scope)) t.edges })
    execute (λ t. record t { nodes = select (λ _ row. not (row.scope == scope)) t.nodes })
    execute (λ t. record t { evidence = select (λ _ row. not (row.scope == scope)) t.evidence })

  -- A read through the connection.
  unfoldable pub query :
      {A : Type 0} → (Tables Json → Result GraphError A) → Exec GraphError (Store Json) A
  unfolding connected
  query read = do c ← connected; λ s. (read c.tables, s)

-- What a call of the store does, by the codec of the models.
module _ {Json : Type 0} (codec : Codec Json) where
  unfoldable pub upsert_node : String → GraphNode → String → Exec GraphError (Store Json) (Unit {0})
  unfolding execute
  upsert_node now node scope = execute (put_node codec now node scope)

  unfoldable pub upsert_edge : String → Edge → String → Exec GraphError (Store Json) (Unit {0})
  unfolding execute
  upsert_edge now edge scope = execute (put_edge codec now edge scope)

  unfoldable pub upsert_evidence :
      String → Evidence → String → Exec GraphError (Store Json) (Unit {0})
  unfolding execute
  upsert_evidence now v scope = execute (put_evidence codec now v scope)

  unfoldable pub get_node : String → Exec GraphError (Store Json) GraphNode
  unfolding query
  get_node node_id = query (λ t. read_node codec t node_id)

  unfoldable pub get_evidence : String → Exec GraphError (Store Json) Evidence
  unfolding query
  get_evidence id = query (λ t. read_evidence codec t id)

  -- `limit <= 0` is answered before the connection is looked at.
  unfoldable pub get_edges_from :
      String → Option (List EdgeKind) → ℕ → Exec GraphError (Store Json) (List Edge)
  unfolding query
  get_edges_from src kinds zero = pure []
  get_edges_from src kinds (suc n) = query (edges_query codec (λ k. k.0) src kinds (suc n))

  unfoldable pub get_edges_to :
      String → Option (List EdgeKind) → ℕ → Exec GraphError (Store Json) (List Edge)
  unfolding query
  get_edges_to dst kinds zero = pure []
  get_edges_to dst kinds (suc n) = query (edges_query codec (λ k. k.2) dst kinds (suc n))

  unfoldable pub list_nodes : Option NodeKind → ℕ → Exec GraphError (Store Json) (List GraphNode)
  unfolding query node_kind_eq
  list_nodes kind zero = pure []
  list_nodes none (suc n) = query (nodes_query codec (λ _. true) (suc n))
  list_nodes (some kind) (suc n) = query (nodes_query codec (λ row. row.kind == kind) (suc n))

  -- `like` is SQLite's LIKE with the pattern `name%`.
  unfoldable pub find_nodes_by_name :
      (like : String → String → Bool)
      → String
      → Bool
      → ℕ
      → Exec GraphError (Store Json) (List GraphNode)
  unfolding query string_eq
  find_nodes_by_name like name exact zero = pure []
  find_nodes_by_name like name true (suc n) =
      query (nodes_query codec (λ row. row.name == name) (suc n))
  find_nodes_by_name like name false (suc n) =
      query (nodes_query codec (λ row. like name row.name) (suc n))
