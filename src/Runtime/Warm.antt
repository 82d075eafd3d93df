-- ===== src/Runtime/Warm.antt =====
-- src/suitcode/runtime/coordinator.py: `_ManagedLspSession.warm`, the start of a server and the
-- requests that show that it answers. Which file of the repository they are about is read from the
-- file system: it is an argument, and may fail.
use code_suit.Base.{ℕ, true, false, Option, none, some, List, [], ◌∷◌}
use code_suit.Base.Result.{ok, Exec, ◌>>=◌, ◌>>◌}
use code_suit.Runtime.Probe.{ServerFamily, DocumentSymbols, Heading, select_probe_symbol, position}
use code_suit.Runtime.Session.{
  Session, SessionError, Start, Reply, stopped, raise_unavailable, ensure_initialized,
  run_probe_operation, mark_probe_complete, cancel_warmup_request, request_warmup, close_if_idle,
  shutdown, invoke,
}

pub data FileChoice (File : Type 0) : Type 0 where
  chosen : Option File → FileChoice File
  choice_failed : ℕ → FileChoice File

-- What a probe meets, and the clock's reading at its end.
pub record ProbeRun (C File : Type 0) : Type 0 where
  pub family : ServerFamily
  pub file : FileChoice File
  pub document_symbol : C → File → Reply DocumentSymbols
  pub definition : C → File → ℕ × ℕ → Reply (Unit {0})
  pub references : C → File → ℕ × ℕ → Reply (Unit {0})
  pub completed_at : ℕ

module _ {C File : Type 0} (run : ProbeRun C File) where
  unfoldable pub complete : Exec SessionError (Session C) (Unit {0})
  unfolding mark_probe_complete
  complete s = (ok tt, mark_probe_complete run.completed_at s)

  unfoldable pub probe_symbol : C → File → Option Heading → Exec SessionError (Session C) (Unit {0})
  unfolding run_probe_operation complete position
  probe_symbol client file none = complete
  probe_symbol client file (some h) = do
    run_probe_operation (run.definition client file (position h))
    run_probe_operation (run.references client file (position h))
    complete

  unfoldable pub probe_file : C → FileChoice File → Exec SessionError (Session C) (Unit {0})
  unfolding run_probe_operation probe_symbol select_probe_symbol complete raise_unavailable
  probe_file client (choice_failed at) = raise_unavailable at
  probe_file client (chosen none) = complete
  probe_file client (chosen (some file)) = do
    symbols ← run_probe_operation (run.document_symbol client file)
    probe_symbol client file (select_probe_symbol run.family symbols)

  -- `_run_warm_probe`, with `warm`'s handler of other exceptions.
  unfoldable pub run_warm_probe : C → Exec SessionError (Session C) (Unit {0})
  unfolding probe_file
  run_warm_probe client = probe_file client run.file

  unfoldable pub warm : ℕ → ℕ → Start C → Exec SessionError (Session C) (Unit {0})
  unfolding ensure_initialized run_warm_probe cancel_warmup_request
  warm now later start s =
      let (r, s') =
        (do client ← ensure_initialized true now later start; run_warm_probe client) s in
      (r, cancel_warmup_request s')

-- The calls that a session gets, one after the other.
pub data SessionCall (C File A : Type 0) : Type 0 where
  request_warmup_call : ℕ → SessionCall C File A
  cancel_call : SessionCall C File A
  warm_call : ProbeRun C File → ℕ → ℕ → Start C → SessionCall C File A
  invoke_call : ℕ → ℕ → Start C → (C → Reply A) → SessionCall C File A
  close_if_idle_call : ℕ → SessionCall C File A
  shutdown_call : SessionCall C File A

module _ {C File A : Type 0} where
  unfoldable pub session_call : SessionCall C File A → Session C → Session C
  unfolding request_warmup cancel_warmup_request warm invoke close_if_idle shutdown
  session_call (request_warmup_call now) s = (request_warmup now s).1
  session_call cancel_call s = cancel_warmup_request s
  session_call (warm_call run now later start) s = (warm run now later start s).1
  session_call (invoke_call now later start operation) s = (invoke now later start operation s).1
  session_call (close_if_idle_call now) s = close_if_idle now s
  session_call shutdown_call s = shutdown s

  unfoldable pub session_calls : List (SessionCall C File A) → Session C → Session C
  unfolding session_call
  session_calls [] s = s
  session_calls (c ∷ cs) s = session_calls cs (session_call c s)

-- `__init__`
unfoldable pub new_session : {C : Type 0} → ℕ → Session C
new_session ttl = record {
  idle_ttl = ttl;
  state = stopped;
  last_activity_at = none;
  last_failure_at = none;
  next_retry_at = none;
  failure_count = 0;
  client = none;
  warmup_in_progress = false;
  warm_probe_completed = false;
}
