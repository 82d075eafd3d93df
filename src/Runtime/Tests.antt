-- ===== src/Runtime/Tests.antt =====
-- Sessions whose server is a number, what the code does on them, and the theorems at them.
use code_suit.Base.{
  suc, ◌<◌, ℕ, ◌*◌, ◌+◌, ◌≤◌, ◌↔◌, all, true, false, none, some, List, [], ◌∷◌, ◌≡◌, refl, arith,
}
use code_suit.Base.Int.{pos}
use code_suit.Runtime.Probe.{
  Heading, DocumentSymbols, no_symbols, more_symbols, document_symbol, select_probe_symbol,
  basedpyright,
}
use code_suit.Runtime.Session.{
  Session, ServerState, ready, stopped, started, start_failed, Reply, replied, second,
  retry_after_seconds, is_before, invoke, ensure_initialized, mark_probe_complete, shutdown,
  mark_failure,
}
use code_suit.Runtime.Warm.{
  ProbeRun, chosen, warm, new_session, session_calls, SessionCall, request_warmup_call, warm_call,
  invoke_call,
}
use code_suit.Runtime.Coordinator.{coordinator_state, coordinator_state_iff, serving, settled}
use code_suit.Runtime.Consistent.{is_consistent}
use code_suit.Runtime.Consistent.Steady.{
  IsSteady, session_calls-IsSteady, is_before-retry_after_seconds,
}
use code_suit.Runtime.Consistent.Backoff.{due, requests, invoke-requests}
use code_suit.Runtime.Consistent.Outcomes.{Outcome, Answered, Warmed, invoke-Outcome, warm-Warmed}

abbrev heading : ℕ → ℕ → Heading
heading kind line = record { kind = kind; line = pos line; character = pos 0 }

-- A module with a class that holds a method; variables (kind 13) are passed over.
abbrev symbols : DocumentSymbols
symbols = more_symbols (document_symbol (heading 13 1) no_symbols) (
    more_symbols
      (document_symbol (heading 13 2)
        (more_symbols (document_symbol (heading 6 3) no_symbols) no_symbols))
      (more_symbols (document_symbol (heading 5 9) no_symbols) no_symbols))

first_method : select_probe_symbol basedpyright symbols ≡ some (heading 6 3)
unfolding select_probe_symbol
first_method = refl

abbrev fresh : Session ℕ
fresh = new_session 1000

abbrev run : ProbeRun ℕ ℕ
run = record {
  family = basedpyright;
  file = chosen (some 1);
  document_symbol = λ c f. replied 20 symbols;
  definition = λ c f p. replied 30 tt;
  references = λ c f p. replied 40 tt;
  completed_at = 50;
}

abbrev answers : ℕ → Reply ℕ
answers c = replied 70 (c + 1)

abbrev calls : List (SessionCall ℕ ℕ ℕ)
calls =
    request_warmup_call 5
    ∷ warm_call run 10 10 (started 7)
    ∷ invoke_call 60 60 (start_failed 60) answers
    ∷ []

-- What the tests run.
program : Unit {0}
unfolding new_session session_calls mark_failure shutdown mark_probe_complete retry_after_seconds
    is_before select_probe_symbol is_consistent
program = tt

state_after_calls : (session_calls calls fresh).state ≡ ready
unfolding program
state_after_calls = refl

-- The lock is free between the steps of a warm-up. A shutdown there, for a server that was idle too
-- long, leaves a session that says it is ready and has no server.
interleaved : Session ℕ
unfolding program
interleaved = mark_probe_complete 50 (shutdown (ensure_initialized true 10 10 (started 7) fresh).1)

interleaved_is_ready : interleaved.state ≡ ready
unfolding interleaved
interleaved_is_ready = refl

interleaved_has_no_server : interleaved.client ≡ none
unfolding interleaved
interleaved_has_no_server = refl

abbrev once_failed : Session ℕ
once_failed = mark_failure 100 fresh

once_failed_lem : is_consistent once_failed ≡ true
unfolding program
once_failed_lem = refl

session_calls-IsSteady_example : IsSteady (session_calls calls (new_session 1000))
session_calls-IsSteady_example = session_calls-IsSteady 1000 calls

invoke-Outcome_example : Outcome (Answered answers) (invoke 60 60 (started 7) answers fresh)
invoke-Outcome_example = invoke-Outcome 60 60 (started 7) answers fresh

within_backoff : 150 < due 100 (suc fresh.failure_count)
unfolding program
within_backoff = omega arith

-- A server that is started once more and fails, and then one that would start.
invoke-requests_example :
    ((invoke 200 200
        (started 7)
        answers
        (requests answers ((150, start_failed 150) ∷ []) (mark_failure 100 fresh))).1.client
      ≡ none)
    ↔ (200 < due 100 (suc fresh.failure_count))
invoke-requests_example =
    invoke-requests answers 100 200 200 7 fresh ((150, start_failed 150) ∷ []) (within_backoff, tt)

warm-Warmed_example : Warmed (warm run 10 10 (started 7) fresh)
unfolding program
warm-Warmed_example = warm-Warmed run 10 10 (started 7) fresh refl

is_before-retry_after_seconds_example :
    is_before
      (200 + retry_after_seconds 200 once_failed.state once_failed.next_retry_at * second)
      once_failed.next_retry_at
    ≡ false
unfolding program
is_before-retry_after_seconds_example =
    is_before-retry_after_seconds 200 100 once_failed refl refl refl (omega arith)

coordinator_state_iff_example :
    (coordinator_state false 9000 1000 (ready ∷ stopped ∷ []) ≡ serving) ↔ (
      (all settled (ready ∷ stopped ∷ []) ≡ true)
      × (◌≡◌ {A = List ServerState} (ready ∷ stopped ∷ []) [] → 1000 + 5 * second ≤ 9000))
coordinator_state_iff_example = coordinator_state_iff 9000 1000 (ready ∷ stopped ∷ [])
