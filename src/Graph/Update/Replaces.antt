-- ===== src/Graph/Update/Replaces.antt =====
-- A completed refresh replaces exactly the rows of its scope.
use code_suit.Base.{String, true, not, none, List, ◌≡◌, refl, ◌==◌, contains, Eq, string_eq, arith}
use code_suit.Base.Dict.{Dict, keys, lookup, erase_all, NodupKeys, filter_option}
use code_suit.Graph.Types.{edge_key_eq}
use code_suit.Graph.Rows.{Codec, Tables}
use code_suit.Graph.Tables.{scope_node_ids, scope_edge_keys, scope_evidence_ids}
use code_suit.Graph.Update.{Seen, nothing_seen, WriterCall, Script, run_refresh}
use code_suit.Graph.Update.Atomic.{refreshed, run_refresh-completes}
use code_suit.Graph.Update.Writes.{mark_all, put_all, purge_tables}
use code_suit.Graph.Update.Purge.{nodes-purge_tables, edges-purge_tables, evidence-purge_tables}
use code_suit.Graph.Update.Rows.{
  nodes-put_all, edges-put_all, evidence-put_all, node_rows, edge_rows, evidence_rows,
  node_rows-InScope, edge_rows-InScope, evidence_rows-InScope, contains-node_ids,
  contains-edge_keys, contains-evidence_ids,
}
use code_suit.Base.Result.{ok}
use code_suit.Graph.Scope.{scope_valid}
use code_suit.Graph.Store.Transactions.{opened, rested}
use code_suit.Base.Dict.Sorted.{contains-keys-sorted}
use code_suit.Graph.Update.Scoped.{
  inserts, InScope, victims, lookup-replaced, contains-unseen, or_else, last_row, lookup-inserts,
  last_row-some, last_row-none,
}

-- One table before and after a refresh that wrote `rows`: a key that was written has the last row
-- written for it, and any other key has the row that it had, unless that row was of the scope.
abbrev pub RowsReplaced :
    {K V : Type 0} ⦃e : Eq K⦄ → (V → String) → String → List (K × V) → Dict K V → Dict K V → Type 0
RowsReplaced {K} scope_of scope rows old new =
    (j : K)
    → lookup j new
      ≡ or_else (last_row j rows) (filter_option (λ v. not (scope_of v == scope)) (lookup j old))

-- The keys that were seen are those of the rows that were written.
abbrev pub SawRows : {K V : Type 0} ⦃e : Eq K⦄ → List K → List (K × V) → Type 0
SawRows {K} seen rows = (j : K) → contains seen j ≡ contains (keys rows) j

-- The primary keys are unique.
pub record HasUniqueKeys {Json : Type 0} (t : Tables Json) : Type 0 where
  pub node_keys : NodupKeys t.nodes
  pub edge_keys : NodupKeys t.edges
  pub evidence_keys : NodupKeys t.evidence

module _ {K V : Type 0} ⦃e : Eq K⦄ (scope_of : V → String) (scope : String) where
  rows_replaced :
      (seen dropped : List K) (rows : List (K × V)) (d : Dict K V)
      → NodupKeys d
      → InScope scope_of scope rows
      → ((j : K) → contains seen j ≡ contains (keys rows) j)
      → ((j : K) → contains dropped j ≡ contains (victims scope_of scope seen (inserts rows d)) j)
      → RowsReplaced scope_of scope rows d (erase_all dropped (inserts rows d))
  rows_replaced seen dropped rows d u s h k j = ground (
    arith,
    lookup-replaced scope_of scope j seen dropped rows d u s (h j) (k j),
    lookup-inserts j rows d,
    last_row-none j rows,
    last_row-some j rows (lookup j d),
    last_row-some j rows (filter_option (λ v. not (scope_of v == scope)) (lookup j d)),
    h j,
  )

-- The keys that the calls mark, and the tables that the refresh commits.
abbrev seen_of : List WriterCall → Seen
seen_of calls = mark_all calls nothing_seen

abbrev final_of :
    {Json : Type 0} → Codec Json → String → List WriterCall → Tables Json → Tables Json
final_of codec scope calls t = purge_tables scope (seen_of calls) (put_all codec scope calls t)

module _ {Json : Type 0} (codec : Codec Json) (scope : String) (calls : List WriterCall)
    (t : Tables Json) (u : HasUniqueKeys t) where
  nodes_replaced :
      RowsReplaced
        (λ r. r.scope)
        scope
        (node_rows codec scope calls)
        t.nodes
        (final_of codec scope calls t).nodes
  unfolding scope_node_ids
  nodes_replaced =
      rw
        (
          nodes-purge_tables scope (seen_of calls) (put_all codec scope calls t),
          nodes-put_all codec scope calls t,
        )
        (rows_replaced (λ r. r.scope) scope (seen_of calls).node_ids _ (node_rows codec scope calls)
          t.nodes u.node_keys (node_rows-InScope codec scope calls)
          (λ j. contains-node_ids codec scope j calls nothing_seen) (λ j. refl))

  edges_replaced :
      RowsReplaced
        (λ r. r.scope)
        scope
        (edge_rows codec scope calls)
        t.edges
        (final_of codec scope calls t).edges
  unfolding scope_edge_keys
  edges_replaced =
      rw
        (
          edges-purge_tables scope (seen_of calls) (put_all codec scope calls t),
          edges-put_all codec scope calls t,
        )
        (rows_replaced (λ r. r.scope) scope (seen_of calls).edge_keys _
          (edge_rows codec scope calls) t.edges u.edge_keys (edge_rows-InScope codec scope calls)
          (λ j. contains-edge_keys codec scope j calls nothing_seen)
          (λ j. simp (contains-unseen, contains-keys-sorted)))

  evidence_replaced :
      RowsReplaced
        (λ r. r.scope)
        scope
        (evidence_rows codec scope calls)
        t.evidence
        (final_of codec scope calls t).evidence
  unfolding scope_evidence_ids
  evidence_replaced =
      rw
        (
          evidence-purge_tables scope (seen_of calls) (put_all codec scope calls t),
          evidence-put_all codec scope calls t,
        )
        (rows_replaced (λ r. r.scope) scope (seen_of calls).evidence_ids _
          (evidence_rows codec scope calls) t.evidence u.evidence_keys
          (evidence_rows-InScope codec scope calls)
          (λ j. contains-evidence_ids codec scope j calls nothing_seen) (λ j. refl))

-- A refresh of a valid scope whose callback returns, on a store at rest with unique keys, succeeds.
-- It commits tables in which, for nodes, edges and evidence alike, each key that the callback wrote
-- has the last row written for it, every other row of the scope is gone, and every other row of
-- another scope is unchanged. Its snapshot holds exactly the keys that were written.
pub run_refresh-replaces :
    {Json : Type 0} (codec : Codec Json) (scope : String) (script : Script) (root : String)
    (t : Tables Json)
    → HasUniqueKeys t
    → scope_valid scope ≡ true
    → script.failure ≡ none
    → (seen : Seen) × (new : Tables Json) × (run_refresh codec scope script
          (opened root t (rested t))
        ≡ (ok seen, opened root new (rested new)))
      × RowsReplaced (λ r. r.scope) scope (node_rows codec scope script.calls) t.nodes new.nodes
      × RowsReplaced (λ r. r.scope) scope (edge_rows codec scope script.calls) t.edges new.edges
      × RowsReplaced
          (λ r. r.scope)
          scope
          (evidence_rows codec scope script.calls)
          t.evidence
          new.evidence
      × SawRows seen.node_ids (node_rows codec scope script.calls)
      × SawRows seen.edge_keys (edge_rows codec scope script.calls)
      × SawRows seen.evidence_ids (evidence_rows codec scope script.calls)
unfolding refreshed
run_refresh-replaces codec scope script root t u v h = (
  seen_of script.calls,
  final_of codec scope script.calls t,
  run_refresh-completes codec scope script root t v h,
  nodes_replaced codec scope script.calls t u,
  edges_replaced codec scope script.calls t u,
  evidence_replaced codec scope script.calls t u,
  λ j. contains-node_ids codec scope j script.calls nothing_seen,
  λ j. contains-edge_keys codec scope j script.calls nothing_seen,
  λ j. contains-evidence_ids codec scope j script.calls nothing_seen,
)
