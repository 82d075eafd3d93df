-- ===== src/Graph/Workspace/Updates.antt =====
-- What the updates of the workspace graph leave for the calls that follow.
use code_suit.Base.{String, true, false, none, ◌≡◌, ap, ◌==◌, if◌then◌else◌, arith, string_eq}
use code_suit.Base.Dict.{lookup, lookup-insert}
use code_suit.Base.Result.{err}
use code_suit.Graph.Types.{
  GraphNode, EdgeKey, node_ok, not_found_error, operational_error, edge_key_eq,
}
use code_suit.Graph.Rows.{Codec, IsFaithful, Tables, Connection}
use code_suit.Provenance.Entries.{provenance_entries}
use code_suit.Graph.WellFormed.Entries.{reread}
use code_suit.Graph.WellFormed.Reads.{parse_node-reread}
use code_suit.Graph.Tables.{node_row, put_node, read_node, drop_edge, drop_node, referenced}
use code_suit.Graph.Store.Transactions.{opened, rested, transaction_refused}
use code_suit.Graph.Scope.{scope_valid}
use code_suit.Graph.Update.{Script, refresh_body, run_refresh}
use code_suit.Graph.Workspace.{add_or_update_node, get_node, remove_edge, remove_node}

module _ {Json : Type 0} (codec : Codec Json) (root : String) where
  read_node-put_node :
      (now scope : String) (n : GraphNode) (t : Tables Json) (id : String)
      → IsFaithful codec
      → node_ok n.provenance n.detail ≡ true
      → read_node codec (put_node codec now n scope t) id ≡ (
          if id == n.id
          then reread n (provenance_entries codec.python n.provenance)
          else read_node codec t id)
  unfolding read_node put_node
  read_node-put_node now scope n t id f valid = ground (
    arith,
    lookup-insert id n.id (node_row codec now n scope) t.nodes,
    parse_node-reread codec n f valid,
  )

  -- Adding a valid node in a valid scope commits it: every id then reads as before, but for the
  -- node's own id, which reads as the node with the entries that their validators make of its own
  -- when they run again, or as the validation error where they refuse them; nothing stays
  -- uncommitted. The codec gives back the fields that it dumped.
  pub get_node-add_or_update_node :
      (now scope : String) (n : GraphNode) (file : Tables Json) (c : Connection Json) (id : String)
      → IsFaithful codec
      → scope_valid scope ≡ true
      → node_ok n.provenance n.detail ≡ true
      → ((get_node codec id none (add_or_update_node codec now n scope (opened root file c)).1).0
          ≡ (if id == n.id
              then reread n (provenance_entries codec.python n.provenance)
              else (get_node codec id none (opened root file c)).0))
        × ((add_or_update_node codec now n scope (opened root file c)).1
            ≡ opened root
                (put_node codec now n scope c.tables)
                (rested (put_node codec now n scope c.tables)))
  unfolding add_or_update_node get_node
  get_node-add_or_update_node now scope n file c id f v valid =
      (rw v (read_node-put_node now scope n c.tables id f valid), rw v)

  -- Removing an edge that is not there raises the not-found error with the transaction of its
  -- DELETE still open, so that the next refresh of any valid scope is refused by BEGIN.
  pub run_refresh-remove_edge_missing :
      (scope : String) (script : Script) (key : EdgeKey) (t : Tables Json)
      → scope_valid scope ≡ true
      → lookup key t.edges ≡ none
      → ((remove_edge key (opened root t (rested t))).0 ≡ err not_found_error)
        × ((run_refresh codec scope script (remove_edge key (opened root t (rested t))).1).0
            ≡ err operational_error)
  unfolding run_refresh remove_edge
  run_refresh-remove_edge_missing scope script key t v h = (
    rw h,
    rw (v, h)
        (ap (λ p. p.0)
          (transaction_refused (refresh_body codec scope script) root t (drop_edge key t))),
  )

  -- Removing a node that is not there and that no edge cites raises the not-found error with the
  -- transaction of its DELETE still open, so that the next refresh of any valid scope is refused by
  -- BEGIN.
  pub run_refresh-remove_node_missing :
      (scope : String) (script : Script) (id : String) (t : Tables Json)
      → scope_valid scope ≡ true
      → referenced id t ≡ false
      → lookup id t.nodes ≡ none
      → ((remove_node id (opened root t (rested t))).0 ≡ err not_found_error)
        × ((run_refresh codec scope script (remove_node id (opened root t (rested t))).1).0
            ≡ err operational_error)
  unfolding run_refresh remove_node
  run_refresh-remove_node_missing scope script id t v free h = (
    rw (free, h),
    rw (v, free, h)
        (ap (λ p. p.0)
          (transaction_refused (refresh_body codec scope script) root t (drop_node id t))),
  )
