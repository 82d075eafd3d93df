-- ===== src/Runtime/Consistent/Outcomes.antt =====
-- What a request to a session returns.
use code_suit.Base.{
  ℕ, ◌≤◌, Bool, true, false, Option, none, some, ◌≡◌, ◌≢◌, refl, arith, Bool-cases, inl, inr,
  if◌then◌else◌,
}
use code_suit.Base.Result.{Result, ok, err, continue}
use code_suit.Runtime.Session.{
  Session, SessionError, unavailable, not_ready, request_timeout, ServerState, ready, warming,
  degraded, Start, started, start_timed_out, start_failed, Reply, replied, timed_out, failed, has,
  is_before, retry_after_seconds, mark_failure, close_if_idle, cancel_warmup_request, launch,
  client_or_launch, ensure_initialized, settle_reply, send, invoke, raise_timeout,
  raise_unavailable, raise_not_ready,
}
use code_suit.Runtime.Warm.{ProbeRun, warm}
use code_suit.Runtime.Consistent.{is_consistent, is_ready}
use code_suit.Runtime.Consistent.Calls.{Leaves, warm_body-Leaves}

-- Every advice is between one second and a minute.
retry_after_seconds_bounds :
    (now : ℕ) (state : ServerState) (retry : Option ℕ)
    → (1 ≤ retry_after_seconds now state retry) × (retry_after_seconds now state retry ≤ 60)
unfolding retry_after_seconds
retry_after_seconds_bounds now state retry = ground arith

module _ {C : Type 0} where
  -- After a failure there is no server, and a time for the next retry.
  abbrev pub Failed : Session C → Type 0
  Failed s = (s.state ≡ degraded) × (s.client ≡ none) × (has s.next_retry_at ≡ true)

  abbrev pub Refused : SessionError → Session C → Type 0
  Refused unavailable s = Failed s
  Refused (request_timeout k) s = Failed s × (1 ≤ k) × (k ≤ 60)
  Refused (not_ready state k) s = (state ≢ ready) × (1 ≤ k) × (k ≤ 60)

module _ {C A : Type 0} where
  -- What holds of a value and the session, or of an error and the session.
  abbrev pub Outcome : (A → Session C → Type 0) → Result SessionError A × Session C → Type 0
  Outcome P (ok a, s) = P a s
  Outcome P (err e, s) = Refused e s

  raise_timeout-Outcome :
      (P : A → Session C → Type 0) (at later : ℕ) (s : Session C)
      → Outcome P (raise_timeout at later s)
  unfolding raise_timeout mark_failure
  raise_timeout-Outcome P at later s =
      let (low, high) =
        retry_after_seconds_bounds later degraded (mark_failure at s).next_retry_at in
      ((refl, refl, refl), low, high)

  raise_unavailable-Outcome :
      (P : A → Session C → Type 0) (at : ℕ) (s : Session C) → Outcome P (raise_unavailable at s)
  unfolding raise_unavailable mark_failure
  raise_unavailable-Outcome P at s = (refl, refl, refl)

module _ {C : Type 0} where
  Holds : C → Session C → Type 0
  Holds c s = s.client ≡ some c

  launch-Outcome : (now : ℕ) (start : Start C) (s : Session C) → Outcome Holds (launch now start s)
  unfolding launch Holds
  launch-Outcome now (started c) s = refl
  launch-Outcome now (start_timed_out at later) s = raise_timeout-Outcome Holds at later s
  launch-Outcome now (start_failed at) s = raise_unavailable-Outcome Holds at s

  client_or_launch-Outcome :
      (mark : Bool) (now : ℕ) (start : Start C) (client : Option C) (s : Session C)
      → s.client ≡ client
      → Outcome Holds (client_or_launch mark now start client s)
  unfolding client_or_launch Holds
  client_or_launch-Outcome mark now start none s e = launch-Outcome now start _
  client_or_launch-Outcome mark now start (some c) s e = e

  ensure_initialized-Outcome :
      (mark : Bool) (now later : ℕ) (start : Start C) (s : Session C)
      → Outcome Holds (ensure_initialized mark now later start s)
  unfolding ensure_initialized raise_not_ready
  ensure_initialized-Outcome mark now later start s =
      elim (Bool-cases (is_before now (close_if_idle now s).next_retry_at)) [
        | inl early ↦
            let (low, high) =
              retry_after_seconds_bounds later (close_if_idle now s).state
                (close_if_idle now s).next_retry_at in
            rw early ((λ e. absurd cc), low, high)
        | inr due ↦ rw due (client_or_launch-Outcome mark now start _ (close_if_idle now s) refl)
      ]

module _ {C A : Type 0} where
  -- The value is what the server that is up answered, and the session is ready.
  abbrev pub Answered : (C → Reply A) → A → Session C → Type 0
  Answered operation a s =
      (s.state ≡ ready) × (c : C) × (at : ℕ) × (s.client ≡ some c) × (operation c ≡ replied at a)

  settle_reply-Outcome :
      (operation : C → Reply A) (c : C) (s : Session C) (reply : Reply A)
      → s.client ≡ some c
      → operation c ≡ reply
      → Outcome (Answered operation) (settle_reply ready reply s)
  unfolding settle_reply
  settle_reply-Outcome operation c s (replied at a) e h = (refl, c, at, e, h)
  settle_reply-Outcome operation c s (timed_out at again) e h =
      raise_timeout-Outcome (Answered operation) at again s
  settle_reply-Outcome operation c s (failed at) e h =
      raise_unavailable-Outcome (Answered operation) at s

  send-Outcome :
      (later : ℕ) (operation : C → Reply A) (c : C) (s : Session C)
      → s.client ≡ some c
      → Outcome (Answered operation) (send later operation c s)
  unfolding send raise_not_ready
  send-Outcome later operation c s e = choose s.warm_probe_completed
    where
      choose :
          (probed : Bool)
          → Outcome (Answered operation) (
              if probed
              then settle_reply ready (operation c) s
              else raise_not_ready warming later (record s { state = warming }))
      choose true = settle_reply-Outcome operation c s (operation c) e refl
      choose false =
          let (low, high) = retry_after_seconds_bounds later warming s.next_retry_at in
          ((λ d. absurd cc), low, high)

  -- A request that returns a value returns what the server answered, from a server that is up, and
  -- leaves the session ready. Otherwise it raises: with the session degraded, without a server and
  -- with a retry time, where the start or the request failed or timed out; or with a state that is
  -- not ready. An advised wait is between 1 and 60 seconds.
  pub invoke-Outcome :
      (now later : ℕ) (start : Start C) (operation : C → Reply A) (s : Session C)
      → Outcome (Answered operation) (invoke now later start operation s)
  unfolding invoke Holds
  invoke-Outcome now later start operation s =
      step (ensure_initialized false now later start s)
        (ensure_initialized-Outcome false now later start s)
    where
      step :
          (out : Result SessionError C × Session C)
          → Outcome Holds out
          → Outcome (Answered operation) (continue out.0 (send later operation) out.1)
      step (ok c, s') h = send-Outcome later operation c s' h
      step (err e, s') h = h

module _ {C : Type 0} where
  -- A warm-up leaves no warm-up in progress. Where it returns, the server is up and probed and the
  -- session ready; where it raises, the session does not wait for a warm-up without a server.
  abbrev pub Warmed : Result SessionError (Unit {0}) × Session C → Type 0
  Warmed (ok _, s) =
      (s.warmup_in_progress ≡ false)
      × (s.state ≡ ready)
      × (has s.client ≡ true)
      × (s.warm_probe_completed ≡ true)
  Warmed (err _, s) = (s.warmup_in_progress ≡ false) × (s.state ≡ warming → has s.client ≡ true)

  warmed :
      (out : Result SessionError (Unit {0}) × Session C)
      → Leaves is_ready out
      → Warmed (out.0, cancel_warmup_request out.1)
  unfolding is_ready is_consistent cancel_warmup_request
  warmed (ok _, s) h = (refl, ground arith, ground arith, ground arith)
  warmed (err e, s) h = (refl, λ w. ground arith)

  -- A warm-up of a consistent session leaves none in progress. Where it returns, a server is up, its
  -- probe is complete, and the session is ready; where it raises, the session is warming only with
  -- a server that is up.
  pub warm-Warmed :
      {File : Type 0} (run : ProbeRun C File) (now later : ℕ) (start : Start C) (s : Session C)
      → is_consistent s ≡ true
      → Warmed (warm run now later start s)
  unfolding warm
  warm-Warmed run now later start s h = warmed _ (warm_body-Leaves run now later start s h)
