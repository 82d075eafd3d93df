-- ===== src/Runtime/Consistent.antt =====
-- The invariant of a session, kept by every call that completes.
pub mod Calls
pub mod Steady
pub mod Backoff
pub mod Outcomes
use code_suit.Base.{
  ℕ, zero, suc, ◌+◌, Bool, true, false, not, ◌&&◌, Option, none, some, List, [], ◌∷◌, ◌≡◌, refl,
  ◌==◌, ==-refl, nat_eq, Bool-cases, inl, inr, arith,
}
use code_suit.Base.Result.{Result, ok, err, Exec, ◌>>=◌, continue}
use code_suit.Runtime.Session.{
  Session, SessionError, ServerState, starting, ready, warming, degraded, stopped, Start, started,
  start_timed_out, start_failed, Reply, replied, timed_out, failed, has, backoff, mark_failure,
  shutdown_locked, request_warmup, rest_state, cancel_warmup_request, shutdown, is_idle, is_before,
  close_if_idle, launch, client_or_launch, ensure_initialized, settle_reply, send, invoke,
  run_probe_operation, mark_probe_complete, raise_timeout, raise_unavailable, raise_not_ready,
}
use code_suit.Runtime.Warm.{
  FileChoice, chosen, choice_failed, ProbeRun, complete, probe_symbol, probe_file, run_warm_probe,
  warm, SessionCall, session_call, session_calls, request_warmup_call, cancel_call, warm_call,
  invoke_call, close_if_idle_call, shutdown_call,
}

-- With a server that is up: ready after its probe, warming before.
unfoldable pub is_live : ServerState → Bool → Bool
is_live ready completed = completed
is_live warming completed = not completed
is_live starting completed = false
is_live degraded completed = false
is_live stopped completed = false

-- Without one: stopped, waiting for a warm-up that was asked for, or for the next retry.
unfoldable pub is_down : ServerState → Bool → Bool → Bool
is_down stopped in_progress waits = true
is_down warming in_progress waits = in_progress
is_down degraded in_progress waits = waits
is_down ready in_progress waits = false
is_down starting in_progress waits = false

abbrev in_ready : ServerState → Bool
in_ready ready = true
in_ready warming = false
in_ready starting = false
in_ready degraded = false
in_ready stopped = false

unfoldable pub no_failures : Option ℕ → ℕ → Bool
no_failures none zero = true
no_failures none (suc n) = false
no_failures (some t) n = false

-- The next retry is the last failure and the backoff of the failures so far.
unfoldable pub backed_off : Option ℕ → Option ℕ → ℕ → Bool
unfolding nat_eq
backed_off none last n = true
backed_off (some retry) (some last) (suc n) = retry == last + backoff (suc n)
backed_off (some retry) (some last) zero = false
backed_off (some retry) none n = false

module _ {C : Type 0} where
  -- A server is up, and nothing has failed since it was started.
  unfoldable pub is_up : Session C → Bool
  unfolding no_failures
  is_up s = has s.client && has s.last_activity_at && no_failures s.next_retry_at s.failure_count

  -- What a warm-up is for.
  unfoldable pub is_ready : Session C → Bool
  unfolding is_up
  is_ready s = is_up s && s.warm_probe_completed && in_ready s.state

  unfoldable pub is_consistent_with : Option C → Session C → Bool
  unfolding is_up is_live is_down backed_off
  is_consistent_with (some c) s = is_up s && is_live s.state s.warm_probe_completed
  is_consistent_with none s =
      not s.warm_probe_completed
      && is_down s.state s.warmup_in_progress (has s.next_retry_at)
      && backed_off s.next_retry_at s.last_failure_at s.failure_count

  unfoldable pub is_consistent : Session C → Bool
  unfolding is_consistent_with
  is_consistent s = is_consistent_with s.client s

  pub ready_is_consistent : (s : Session C) → is_ready s ≡ true → is_consistent s ≡ true
  unfolding is_ready is_consistent
  ready_is_consistent s h = ground arith

  pub mark_failure_lem : (now : ℕ) (s : Session C) → is_consistent (mark_failure now s) ≡ true
  unfolding is_consistent mark_failure
  mark_failure_lem now s = ==-refl (now + backoff (suc s.failure_count))

  pub shutdown_lem : (s : Session C) → is_consistent s ≡ true → is_consistent (shutdown s) ≡ true
  unfolding is_consistent shutdown
  shutdown_lem s h = ground arith

  pub request_warmup_lem :
      (now : ℕ) (s : Session C)
      → is_consistent s ≡ true
      → is_consistent (request_warmup now s).1 ≡ true
  unfolding is_consistent request_warmup
  request_warmup_lem now s h = ground arith

  pub cancel_warmup_request_lem :
      (s : Session C) → is_consistent s ≡ true → is_consistent (cancel_warmup_request s) ≡ true
  unfolding is_consistent cancel_warmup_request
  cancel_warmup_request_lem s h = ground arith

  pub close_if_idle_lem :
      (now : ℕ) (s : Session C)
      → is_consistent s ≡ true
      → is_consistent (close_if_idle now s) ≡ true
  unfolding close_if_idle
  close_if_idle_lem now s h = ground (arith, shutdown_lem s h)
