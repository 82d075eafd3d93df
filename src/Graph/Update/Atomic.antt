-- ===== src/Graph/Update/Atomic.antt =====
-- A refresh is atomic, and what a refresh meets on a connection that is already in a transaction.
use code_suit.Base.{String, true, none, some, ◌≡◌}
use code_suit.Base.Result.{ok, err}
use code_suit.Graph.Types.{GraphError, edge_key_eq}
use code_suit.Graph.Rows.{Codec, Tables}
use code_suit.Graph.Scope.{scope_valid}
use code_suit.Graph.Update.{nothing_seen, Script, refresh_body, run_refresh}
use code_suit.Graph.Store.Transactions.{opened, rested, busy, transaction_undone, transaction_done}
use code_suit.Graph.Update.Writes.{
  mark_all, put_all, write_all-opened, purge_tables, purge_connection-busy,
}

module _ {Json : Type 0} (codec : Codec Json) (scope : String) where
  -- The tables of a completed refresh.
  unfoldable pub refreshed : Script → Tables Json → Tables Json
  refreshed script t =
      purge_tables scope (mark_all script.calls nothing_seen) (put_all codec scope script.calls t)

  body_fails :
      (script : Script) (root : String) (file t : Tables Json) (e : GraphError)
      → script.failure ≡ some e
      → refresh_body codec scope script (opened root file (busy t))
        ≡ (err e, opened root file (busy (put_all codec scope script.calls t)))
  unfolding refresh_body
  body_fails script root file t e h =
      rw (write_all-opened codec scope script.calls nothing_seen root file t, h)

  -- A refresh whose callback raises is refused with that exception, and leaves the store exactly
  -- as it was: the committed file, and a connection that shows it outside any transaction.
  pub run_refresh-atomic :
      (script : Script) (root : String) (t : Tables Json) (e : GraphError)
      → scope_valid scope ≡ true
      → script.failure ≡ some e
      → run_refresh codec scope script (opened root t (rested t))
        ≡ (err e, opened root t (rested t))
  unfolding run_refresh
  run_refresh-atomic script root t e v h =
      rw v
        (transaction_undone (refresh_body codec scope script) root (body_fails script root t t e h))

  body_completes :
      (script : Script) (root : String) (file t : Tables Json)
      → script.failure ≡ none
      → refresh_body codec scope script (opened root file (busy t))
        ≡ (ok (mark_all script.calls nothing_seen), opened root file (busy (refreshed script t)))
  unfolding refresh_body refreshed
  body_completes script root file t h =
      rw (
        write_all-opened codec scope script.calls nothing_seen root file t,
        h,
        purge_connection-busy,
      )

  -- A refresh whose callback returns is committed: the file and the connection hold the same tables.
  pub run_refresh-completes :
      (script : Script) (root : String) (t : Tables Json)
      → scope_valid scope ≡ true
      → script.failure ≡ none
      → run_refresh codec scope script (opened root t (rested t)) ≡ (
        ok (mark_all script.calls nothing_seen),
        opened root (refreshed script t) (rested (refreshed script t)),
      )
  unfolding run_refresh
  run_refresh-completes script root t v h =
      rw v
        (transaction_done (refresh_body codec scope script) root (body_completes script root t t h))
