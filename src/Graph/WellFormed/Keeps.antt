-- ===== src/Graph/WellFormed/Keeps.antt =====
-- Actions on the store that keep its tables well-formed, whether they return or raise.
use code_suit.Base.{String, Bool, true, false, Option, none, some}
use code_suit.Base.Result.{Result, ok, err, Exec, pure, raise, raise_if, continue, ◌>>=◌, ◌>>◌}
use code_suit.Graph.Types.{GraphError}
use code_suit.Graph.Rows.{Codec, Tables, Connection, Store}
use code_suit.Graph.Store.{
  connected, execute, begin, commit, rollback, settle, transaction, query, assign,
}
use code_suit.Graph.WellFormed.{IsWellFormed}

abbrev pub store : {Json : Type 0} → String → Tables Json → Option (Connection Json) → Store Json
store root file c = record { workspace_root = root; file = file; connection = c }

module _ {Json : Type 0} (codec : Codec Json) where
  abbrev pub ConnectionSound : Option (Connection Json) → Type 0
  ConnectionSound none = Unit
  ConnectionSound (some c) = IsWellFormed codec c.tables

  -- What is committed and what the connection sees are well-formed.
  pub record IsSound (s : Store Json) : Type 0 where
    pub file : IsWellFormed codec s.file
    pub tables : ConnectionSound s.connection

  pub record Keeps {A : Type 0} (m : Exec GraphError (Store Json) A) : Type 0 where
    pub at :
        (root : String) (file : Tables Json) (c : Option (Connection Json))
        → IsSound (store root file c)
        → IsSound (m (store root file c)).1

  pub Keeps-pure : {A : Type 0} (a : A) → Keeps (pure a)
  Keeps-pure a = record { at = λ root file c h. h }

  pub Keeps-raise : {A : Type 0} (e : GraphError) → Keeps (raise {A = A} e)
  Keeps-raise e = record { at = λ root file c h. h }

  pub Keeps-raise_if : (b : Bool) (e : GraphError) → Keeps (raise_if b e)
  Keeps-raise_if true e = record { at = λ root file c h. h }
  Keeps-raise_if false e = record { at = λ root file c h. h }

  continue-IsSound :
      {A B : Type 0} (r : Result GraphError A) (f : A → Exec GraphError (Store Json) B)
      (s : Store Json)
      → ((a : A) → Keeps (f a))
      → IsSound s
      → IsSound (continue r f s).1
  continue-IsSound (ok a) f s k h = (k a).at s.workspace_root s.file s.connection h
  continue-IsSound (err e) f s k h = h

  pub Keeps-bind :
      {A B : Type 0} (m : Exec GraphError (Store Json) A) (f : A → Exec GraphError (Store Json) B)
      → Keeps m
      → ((a : A) → Keeps (f a))
      → Keeps (m >>= f)
  Keeps-bind m f km kf = record {
    at = λ root file c h.
        let p = m (store root file c) in continue-IsSound p.0 f p.1 kf (km.at root file c h);
  }

  pub Keeps-query : {A : Type 0} (read : Tables Json → Result GraphError A) → Keeps (query read)
  unfolding query
  Keeps-query read = record { at = go }
    where
      go :
          (root : String) (file : Tables Json) (c : Option (Connection Json))
          → IsSound (store root file c)
          → IsSound (query read (store root file c)).1
      go root file none h = h
      go root file (some c) h = h

  -- A statement that keeps the tables well-formed.
  pub Keeps-execute :
      (statement : Tables Json → Tables Json)
      → ((t : Tables Json) → IsWellFormed codec t → IsWellFormed codec (statement t))
      → Keeps (execute statement)
  unfolding execute
  Keeps-execute statement k = record { at = go }
    where
      go :
          (root : String) (file : Tables Json) (c : Option (Connection Json))
          → IsSound (store root file c)
          → IsSound (execute statement (store root file c)).1
      go root file none h = h
      go root file (some c) h = record { file = h.file; tables = k c.tables h.tables }

  -- The same for a step that also reads the connection.
  pub Keeps-assign :
      (step : Connection Json → Connection Json)
      → ((c : Connection Json) → IsWellFormed codec c.tables → IsWellFormed codec (step c).tables)
      → Keeps (connected >>= λ c. assign (step c))
  unfolding connected
  Keeps-assign step k = record { at = go }
    where
      go :
          (root : String) (file : Tables Json) (c : Option (Connection Json))
          → IsSound (store root file c)
          → IsSound ((connected >>= λ c. assign (step c)) (store root file c)).1
      go root file none h = h
      go root file (some c) h = record { file = h.file; tables = k c h.tables }

  pub Keeps-begin : Keeps begin
  unfolding begin
  Keeps-begin = record { at = go }
    where
      go :
          (root : String) (file : Tables Json) (c : Option (Connection Json))
          → IsSound (store root file c)
          → IsSound (begin (store root file c)).1
      go root file none h = h
      go root file (some c) h =
          elim c.in_transaction
            as (λ b.
              IsSound
                (begin
                  (store root file (some (record { tables = c.tables; in_transaction = b })))).1) [
                    | true ↦ record { file = h.file; tables = h.tables }
                    | false ↦ record { file = h.file; tables = h.tables }
                  ]

  pub Keeps-commit : Keeps commit
  unfolding commit
  Keeps-commit = record { at = go }
    where
      go :
          (root : String) (file : Tables Json) (c : Option (Connection Json))
          → IsSound (store root file c)
          → IsSound (commit (store root file c)).1
      go root file none h = h
      go root file (some c) h = record { file = h.tables; tables = h.tables }

  pub Keeps-rollback : Keeps rollback
  unfolding rollback
  Keeps-rollback = record { at = go }
    where
      go :
          (root : String) (file : Tables Json) (c : Option (Connection Json))
          → IsSound (store root file c)
          → IsSound (rollback (store root file c)).1
      go root file none h = h
      go root file (some c) h = record { file = h.file; tables = h.file }

  settle-IsSound :
      {A : Type 0} (r : Result GraphError A) (s : Store Json)
      → IsSound s
      → IsSound (settle (r, s)).1
  unfolding settle
  settle-IsSound (ok a) s h = h
  settle-IsSound {A} (err e) s h =
      (Keeps-bind rollback (λ _. raise {A = A} e) Keeps-rollback (λ _. Keeps-raise e)).at
        s.workspace_root s.file s.connection h

  pub Keeps-transaction :
      {A : Type 0} (body : Exec GraphError (Store Json) A) → Keeps body → Keeps (transaction body)
  unfolding transaction
  Keeps-transaction {A} body k = Keeps-bind begin _ Keeps-begin (λ _. record { at = inside })
    where
      committed : Keeps (body >>= λ a. commit >> pure a)
      committed = Keeps-bind body _ k (λ a. Keeps-bind commit _ Keeps-commit (λ _. Keeps-pure a))

      inside :
          (root : String) (file : Tables Json) (c : Option (Connection Json))
          → IsSound (store root file c)
          → IsSound (settle ((body >>= λ a. commit >> pure a) (store root file c))).1
      inside root file c h =
          let p = (body >>= λ a. commit >> pure a) (store root file c) in
          settle-IsSound p.0 p.1 (committed.at root file c h)
