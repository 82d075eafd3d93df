-- ===== src/Graph/Update.antt =====
-- core/models/update.py: a refresh rewrites one scope of the graph in one transaction. The callback
-- `writer_fn` is the sequence of calls that it makes on the writer, and the exception, if any, with
-- which it ends.
pub mod Writes
pub mod Rows
pub mod Purge
pub mod Replaces
pub mod Scoped
pub mod Atomic
use code_suit.Base.{
  String, Bool, false, not, Option, none, some, List, [], ◌∷◌, contains, if◌then◌else◌, Eq,
  string_eq,
}
use code_suit.Base.Result.{Exec, pure, raise, raise_if, continue, ◌>>=◌, ◌>>◌}
use code_suit.Graph.Types.{
  GraphNode, Edge, EdgeKey, Evidence, GraphError, edge_key, scope_error, edge_key_eq,
}
use code_suit.Graph.Rows.{Codec, Store}
use code_suit.Graph.Store.{
  transaction, purge_scope_not_seen, upsert_node, upsert_edge, upsert_evidence,
}
use code_suit.Graph.Scope.{scope_valid}

-- The sets that the writer fills, also the `RefreshSnapshot` made of them.
pub record Seen : Type 0 where
  pub node_ids : List String
  pub edge_keys : List EdgeKey
  pub evidence_ids : List String

abbrev pub nothing_seen : Seen
nothing_seen = record { node_ids = []; edge_keys = []; evidence_ids = [] }

-- A call on the writer, with the time at which it is made.
pub data WriterCall : Type 0 where
  node : String → GraphNode → WriterCall
  edge : String → Edge → WriterCall
  evidence : String → Evidence → WriterCall

pub record Script : Type 0 where
  pub calls : List WriterCall
  pub failure : Option GraphError

-- `set.add`
unfoldable pub add : {K : Type 0} ⦃e : Eq K⦄ → K → List K → List K
add k ks = if contains ks k then ks else k ∷ ks

unfoldable pub mark : WriterCall → Seen → Seen
unfolding add string_eq edge_key_eq
mark (node _ n) seen = record seen { node_ids = add n.id seen.node_ids }
mark (edge _ e) seen = record seen { edge_keys = add (edge_key e) seen.edge_keys }
mark (evidence _ v) seen = record seen { evidence_ids = add v.id seen.evidence_ids }

module _ {Json : Type 0} (codec : Codec Json) (scope : String) where
  unfoldable pub write_one : WriterCall → Exec GraphError (Store Json) (Unit {0})
  unfolding upsert_node upsert_edge upsert_evidence
  write_one (node now n) = upsert_node codec now n scope
  write_one (edge now e) = upsert_edge codec now e scope
  write_one (evidence now v) = upsert_evidence codec now v scope

  -- A call that raises ends the callback.
  unfoldable pub write_all : List WriterCall → Seen → Exec GraphError (Store Json) Seen
  unfolding write_one mark
  write_all [] seen = pure seen
  write_all (call ∷ calls) seen = do write_one call; write_all calls (mark call seen)

  abbrev pub finish : Option GraphError → Exec GraphError (Store Json) (Unit {0})
  finish none = pure tt
  finish (some e) = raise e

  -- The body of the `with` statement.
  unfoldable pub refresh_body : Script → Exec GraphError (Store Json) Seen
  unfolding write_all purge_scope_not_seen
  refresh_body script = do
    seen ← write_all script.calls nothing_seen
    finish script.failure
    purge_scope_not_seen scope seen.node_ids seen.edge_keys seen.evidence_ids
    pure seen

  unfoldable pub run_refresh : Script → Exec GraphError (Store Json) Seen
  unfolding transaction
  run_refresh script = do
    raise_if (not (scope_valid scope)) scope_error
    transaction (refresh_body script)
