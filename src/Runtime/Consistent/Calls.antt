-- ===== src/Runtime/Consistent/Calls.antt =====
-- The calls that may raise keep a session consistent.
use code_suit.Base.{
  ℕ, Bool, true, false, Option, none, some, List, [], ◌∷◌, ◌≡◌, refl, Bool-cases, inl, inr, arith,
}
use code_suit.Base.Result.{Result, ok, err, Exec, ◌>>=◌, ◌>>◌, continue}
use code_suit.Runtime.Probe.{Heading, select_probe_symbol, position}
use code_suit.Runtime.Session.{
  Session, SessionError, ready, warming, Start, started, start_timed_out, start_failed, Reply,
  replied, timed_out, failed, is_before, close_if_idle, launch, client_or_launch,
  ensure_initialized, settle_reply, send, invoke, run_probe_operation, mark_probe_complete,
  raise_timeout, raise_unavailable, raise_not_ready,
}
use code_suit.Runtime.Warm.{
  FileChoice, chosen, choice_failed, ProbeRun, complete, probe_symbol, probe_file, run_warm_probe,
  warm, SessionCall, session_call, session_calls, request_warmup_call, cancel_call, warm_call,
  invoke_call, close_if_idle_call, shutdown_call,
}
use code_suit.Runtime.Consistent.{
  is_up, is_ready, ready_is_consistent, is_consistent, is_consistent_with, mark_failure_lem,
  shutdown_lem, request_warmup_lem, cancel_warmup_request_lem, close_if_idle_lem,
}

module _ {C A : Type 0} where
  -- A test of the session where a value is returned; where an error is raised it is consistent.
  abbrev pub Leaves : (Session C → Bool) → Result SessionError A × Session C → Type 0
  Leaves P (ok a, s) = P s ≡ true
  Leaves P (err e, s) = is_consistent s ≡ true

  pub Leaves-session :
      (out : Result SessionError A × Session C)
      → Leaves is_consistent out
      → is_consistent out.1 ≡ true
  Leaves-session (ok a, s) h = h
  Leaves-session (err e, s) h = h

  pub Leaves-ready :
      (out : Result SessionError A × Session C) → Leaves is_ready out → Leaves is_consistent out
  Leaves-ready (ok a, s) h = ready_is_consistent s h
  Leaves-ready (err e, s) h = h

module _ {C A B : Type 0} where
  pub Leaves-bind :
      (P Q : Session C → Bool) (m : Exec SessionError (Session C) A)
      (f : A → Exec SessionError (Session C) B) (s : Session C)
      → Leaves P (m s)
      → ((a : A) (s' : Session C) → P s' ≡ true → Leaves Q (f a s'))
      → Leaves Q ((m >>= f) s)
  Leaves-bind P Q m f s h k = step (m s) h
    where
      step :
          (out : Result SessionError A × Session C)
          → Leaves P out
          → Leaves Q (continue out.0 f out.1)
      step (ok a, s') h = k a s' h
      step (err e, s') h = h

module _ {C : Type 0} where
  launch-Leaves : (now : ℕ) (start : Start C) (s : Session C) → Leaves is_up (launch now start s)
  unfolding launch raise_timeout raise_unavailable is_up
  launch-Leaves now (started c) s = refl
  launch-Leaves now (start_timed_out at later) s = mark_failure_lem at s
  launch-Leaves now (start_failed at) s = mark_failure_lem at s

  client_or_launch-Leaves :
      (mark : Bool) (now : ℕ) (start : Start C) (client : Option C) (s : Session C)
      → is_consistent_with client s ≡ true
      → Leaves is_up (client_or_launch mark now start client s)
  unfolding client_or_launch is_consistent_with is_up
  client_or_launch-Leaves mark now start none s h = launch-Leaves now start _
  client_or_launch-Leaves mark now start (some c) s h = ground arith

  pub ensure_initialized-Leaves :
      (mark : Bool) (now later : ℕ) (start : Start C) (s : Session C)
      → is_consistent s ≡ true
      → Leaves is_up (ensure_initialized mark now later start s)
  unfolding ensure_initialized raise_not_ready is_consistent
  ensure_initialized-Leaves mark now later start s h =
      let kept = close_if_idle_lem now s h in
      elim (Bool-cases (is_before now (close_if_idle now s).next_retry_at)) [
        | inl early ↦ rw early kept
        | inr due ↦ rw due (client_or_launch-Leaves mark now start _ (close_if_idle now s) kept)
      ]

  settle_reply-Leaves :
      {A : Type 0} (reply : Reply A) (s : Session C)
      → is_up s ≡ true
      → Leaves is_consistent (settle_reply ready reply (record s { warm_probe_completed = true }))
  unfolding settle_reply raise_timeout raise_unavailable is_consistent is_up
  settle_reply-Leaves (replied at a) s h = ground arith
  settle_reply-Leaves (timed_out at again) s h =
      mark_failure_lem at (record s { warm_probe_completed = true })
  settle_reply-Leaves (failed at) s h =
      mark_failure_lem at (record s { warm_probe_completed = true })

  not_probed_lem :
      (s : Session C)
      → is_up s ≡ true
      → is_consistent (record s { state = warming; warm_probe_completed = false }) ≡ true
  unfolding is_consistent is_up
  not_probed_lem s h = ground arith

  send-Leaves :
      {A : Type 0} (later : ℕ) (operation : C → Reply A) (c : C) (s : Session C)
      → is_up s ≡ true
      → Leaves is_consistent (send later operation c s)
  unfolding send raise_not_ready
  send-Leaves later operation c s h = elim (Bool-cases s.warm_probe_completed) [
    | inl probed ↦ rw probed (settle_reply-Leaves (operation c) s h)
    | inr unprobed ↦ rw unprobed (not_probed_lem s h)
  ]

  pub invoke-Leaves :
      {A : Type 0} (now later : ℕ) (start : Start C) (operation : C → Reply A) (s : Session C)
      → is_consistent s ≡ true
      → Leaves is_consistent (invoke now later start operation s)
  unfolding invoke
  invoke-Leaves now later start operation s h =
      Leaves-bind is_up is_consistent (ensure_initialized false now later start)
        (send later operation) s (ensure_initialized-Leaves false now later start s h)
        (λ c s' up. send-Leaves later operation c s' up)

  run_probe_operation-Leaves :
      {A : Type 0} (reply : Reply A) (s : Session C)
      → is_up s ≡ true
      → Leaves is_up (run_probe_operation reply s)
  unfolding run_probe_operation settle_reply raise_timeout raise_unavailable is_up
  run_probe_operation-Leaves (replied at a) s h = ground arith
  run_probe_operation-Leaves (timed_out at again) s h =
      mark_failure_lem at (record s { state = warming })
  run_probe_operation-Leaves (failed at) s h = mark_failure_lem at (record s { state = warming })

module _ {C File : Type 0} (run : ProbeRun C File) where
  complete-Leaves : (s : Session C) → is_up s ≡ true → Leaves is_ready (complete run s)
  unfolding complete mark_probe_complete is_ready is_up
  complete-Leaves s h = ground arith

  probe_symbol-Leaves :
      (c : C) (file : File) (h : Option Heading) (s : Session C)
      → is_up s ≡ true
      → Leaves is_ready (probe_symbol run c file h s)
  unfolding probe_symbol
  probe_symbol-Leaves c file none s up = complete-Leaves s up
  probe_symbol-Leaves c file (some h) s up =
      let defined = run.definition c file (position h) in
      let referenced = run.references c file (position h) in
      Leaves-bind is_up is_ready (run_probe_operation defined)
        (λ _. run_probe_operation referenced >> complete run) s
        (run_probe_operation-Leaves defined s up)
        (λ _ s1 up1.
          Leaves-bind is_up is_ready (run_probe_operation referenced) (λ _. complete run) s1
            (run_probe_operation-Leaves referenced s1 up1) (λ _ s2 up2. complete-Leaves s2 up2))

  probe_file-Leaves :
      (c : C) (file : FileChoice File) (s : Session C)
      → is_up s ≡ true
      → Leaves is_ready (probe_file run c file s)
  unfolding probe_file raise_unavailable
  probe_file-Leaves c (choice_failed at) s up = mark_failure_lem at s
  probe_file-Leaves c (chosen none) s up = complete-Leaves s up
  probe_file-Leaves c (chosen (some file)) s up =
      Leaves-bind is_up is_ready (run_probe_operation (run.document_symbol c file))
        (λ symbols. probe_symbol run c file (select_probe_symbol run.family symbols)) s
        (run_probe_operation-Leaves (run.document_symbol c file) s up)
        (λ symbols s' up'.
          probe_symbol-Leaves c file (select_probe_symbol run.family symbols) s' up')

  -- The session that a warm-up leaves, before its `finally`.
  pub warm_body-Leaves :
      (now later : ℕ) (start : Start C) (s : Session C)
      → is_consistent s ≡ true
      → Leaves is_ready ((ensure_initialized true now later start >>= run_warm_probe run) s)
  unfolding run_warm_probe
  warm_body-Leaves now later start s h =
      Leaves-bind is_up is_ready (ensure_initialized true now later start) (run_warm_probe run) s
        (ensure_initialized-Leaves true now later start s h)
        (λ c s' up. probe_file-Leaves c run.file s' up)

  pub warm_lem :
      (now later : ℕ) (start : Start C) (s : Session C)
      → is_consistent s ≡ true
      → is_consistent (warm run now later start s).1 ≡ true
  unfolding warm
  warm_lem now later start s h =
      cancel_warmup_request_lem _
        (Leaves-session _ (Leaves-ready _ (warm_body-Leaves now later start s h)))

module _ {C File A : Type 0} where
  session_call_lem :
      (c : SessionCall C File A) (s : Session C)
      → is_consistent s ≡ true
      → is_consistent (session_call c s) ≡ true
  unfolding session_call
  session_call_lem (request_warmup_call now) s h = request_warmup_lem now s h
  session_call_lem cancel_call s h = cancel_warmup_request_lem s h
  session_call_lem (warm_call run now later start) s h = warm_lem run now later start s h
  session_call_lem (invoke_call now later start operation) s h =
      Leaves-session _ (invoke-Leaves now later start operation s h)
  session_call_lem (close_if_idle_call now) s h = close_if_idle_lem now s h
  session_call_lem shutdown_call s h = shutdown_lem s h

  pub session_calls_lem :
      (cs : List (SessionCall C File A)) (s : Session C)
      → is_consistent s ≡ true
      → is_consistent (session_calls cs s) ≡ true
  unfolding session_calls
  session_calls_lem [] s h = h
  session_calls_lem (c ∷ cs) s h = session_calls_lem cs (session_call c s) (session_call_lem c s h)
