-- ===== src/Graph/Store/Transactions.antt =====
-- The transaction of core/models/store/sqlite_store.py on a connection that is at rest.
use code_suit.Base.{String, true, false, some, ◌≡◌, refl, ap}
use code_suit.Base.Result.{Result, ok, err, Exec, pure, continue, ◌>>◌}
use code_suit.Graph.Types.{GraphError, operational_error}
use code_suit.Graph.Rows.{Tables, Connection, Store}
use code_suit.Graph.Store.{commit, settle, transaction}

-- A store with an open connection.
abbrev pub opened : {Json : Type 0} → String → Tables Json → Connection Json → Store Json
opened root file c = record { workspace_root = root; file = file; connection = some c }

-- A connection that shows what is committed and is in no transaction.
abbrev pub rested : {Json : Type 0} → Tables Json → Connection Json
rested t = record { tables = t; in_transaction = false }

abbrev pub busy : {Json : Type 0} → Tables Json → Connection Json
busy t = record { tables = t; in_transaction = true }

module _ {Json A : Type 0} (body : Exec GraphError (Store Json) A) (root : String) where
  -- What the transaction does with the outcome of its body.
  abbrev after : Result GraphError A × Store Json → Result GraphError A × Store Json
  unfolding settle
  after (r, s) = settle (continue r (λ a. do commit; pure a) s)

  -- A body that raises is undone.
  pub transaction_undone :
      {t : Tables Json} {c : Connection Json} {e : GraphError}
      → body (opened root t (busy t)) ≡ (err e, opened root t c)
      → transaction body (opened root t (rested t)) ≡ (err e, opened root t (rested t))
  unfolding transaction
  transaction_undone h = ap after h

  -- A body that returns is committed.
  pub transaction_done :
      {t : Tables Json} {c : Connection Json} {a : A}
      → body (opened root t (busy t)) ≡ (ok a, opened root t c)
      → transaction body (opened root t (rested t)) ≡ (ok a, opened root c.tables (rested c.tables))
  unfolding transaction
  transaction_done h = ap after h

  -- Inside an open transaction the body is not run, and BEGIN is refused.
  pub transaction_refused :
      (file t : Tables Json)
      → transaction body (opened root file (busy t))
        ≡ (err operational_error, opened root file (busy t))
  unfolding transaction
  transaction_refused file t = refl
