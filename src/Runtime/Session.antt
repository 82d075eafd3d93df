-- ===== src/Runtime/Session.antt =====
-- src/suitcode/runtime/coordinator.py: `_ManagedLspSession`, the state of one language server.
--
-- Each operation runs under the session's lock, except `warm`, which takes it for each of its
-- steps. The clock's readings and the server's answers are arguments: `now` is the reading at the
-- start of an operation, and an answer carries the readings that the code makes after it. Times are
-- whole milliseconds here, and floating-point seconds in the source.
use code_suit.Base.{
  ℕ, zero, suc, ◌+◌, ◌-◌, ◌*◌, ◌/◌, ◌^◌, min, max, Bool, true, false, ◌&&◌, Option, none, some, ltb,
  leb, if◌then◌else◌,
}
use code_suit.Base.Result.{ok, err, Exec, ◌>>=◌}

-- `ManagedServerState`
pub data ServerState : Type 0 where
  starting ready warming degraded stopped : ServerState

pub data SessionError : Type 0 where
  unavailable : SessionError
  not_ready : ServerState → ℕ → SessionError
  request_timeout : ℕ → SessionError

-- `_command` and `_init_options` are set and never read; they are left out.
pub record Session (Client : Type 0) : Type 0 where
  pub idle_ttl : ℕ
  pub state : ServerState
  pub last_activity_at : Option ℕ
  pub last_failure_at : Option ℕ
  pub next_retry_at : Option ℕ
  pub failure_count : ℕ
  pub client : Option Client
  pub warmup_in_progress : Bool
  pub warm_probe_completed : Bool

-- What comes of starting a server, with the clock's reading at a failure, and once more where the
-- time to the next retry is worked out.
pub data Start (Client : Type 0) : Type 0 where
  started : Client → Start Client
  start_timed_out : ℕ → ℕ → Start Client
  start_failed : ℕ → Start Client

-- What comes of a request to it, likewise.
pub data Reply (A : Type 0) : Type 0 where
  replied : ℕ → A → Reply A
  timed_out : ℕ → ℕ → Reply A
  failed : ℕ → Reply A

abbrev pub second : ℕ
second = 1000

-- min(_MAX_RETRY_BACKOFF_SECONDS, 2 ** min(failure_count, 6))
unfoldable pub backoff : ℕ → ℕ
backoff failures = min (60 * second) (2 ^ min failures 6 * second)

-- `math.ceil`
unfoldable pub ceil_seconds : ℕ → ℕ
ceil_seconds t = (t + 999) / second

-- `_retry_after_seconds`, of the state and the next retry. A retry that is past gives 1.
unfoldable pub retry_after_seconds : ℕ → ServerState → Option ℕ → ℕ
unfolding ceil_seconds
retry_after_seconds now degraded (some retry) = max 1 (min 60 (ceil_seconds (retry - now)))
retry_after_seconds now degraded none = 15
retry_after_seconds now starting retry = 15
retry_after_seconds now warming retry = 15
retry_after_seconds now stopped retry = 15
retry_after_seconds now ready retry = 15

abbrev pub has : {A : Type 0} → Option A → Bool
has none = false
has (some _) = true

-- `t is not None and now < t`
unfoldable pub is_before : ℕ → Option ℕ → Bool
is_before now none = false
is_before now (some t) = ltb now t

-- `t is not None and now - t >= ttl`
unfoldable pub is_idle : ℕ → ℕ → Option ℕ → Bool
is_idle now ttl none = false
is_idle now ttl (some t) = leb (t + ttl) now

module _ {C : Type 0} where
  -- `_shutdown_locked`; what the client's own shutdown raises is dropped.
  unfoldable pub shutdown_locked : Session C → Session C
  shutdown_locked s = record s { client = none; warm_probe_completed = false }

  -- `_mark_failure`, with the state after it.
  unfoldable pub mark_failure : ℕ → Session C → Session C
  unfolding shutdown_locked backoff
  mark_failure now s = shutdown_locked (record s {
    failure_count = suc s.failure_count;
    last_failure_at = some now;
    next_retry_at = some (now + backoff (suc s.failure_count));
    state = degraded;
    warm_probe_completed = false;
  })

  -- `except LspTimeoutError`
  unfoldable pub raise_timeout : {A : Type 0} → ℕ → ℕ → Exec SessionError (Session C) A
  unfolding mark_failure retry_after_seconds
  raise_timeout now later s =
      let s' = mark_failure now s in
      (err (request_timeout (retry_after_seconds later s'.state s'.next_retry_at)), s')

  -- `except Exception`
  unfoldable pub raise_unavailable : {A : Type 0} → ℕ → Exec SessionError (Session C) A
  unfolding mark_failure
  raise_unavailable now s = (err unavailable, mark_failure now s)

  -- `_runtime_not_ready_error`
  unfoldable pub raise_not_ready : {A : Type 0} → ServerState → ℕ → Exec SessionError (Session C) A
  unfolding retry_after_seconds
  raise_not_ready state now s =
      (err (not_ready state (retry_after_seconds now s.state s.next_retry_at)), s)

  -- The value is whether a warm-up is to be started.
  unfoldable pub request_warmup : ℕ → Session C → Bool × Session C
  unfolding is_before
  request_warmup now s =
      if has s.client && s.warm_probe_completed
      then (false, record s { last_activity_at = some now; state = ready })
      else if s.warmup_in_progress
      then (false, s)
      else if is_before now s.next_retry_at
      then (false, record s { state = degraded })
      else (
        true,
        record s { warmup_in_progress = true; state = warming; last_activity_at = some now },
      )

  -- `if self._client is None and self.state == WARMING: self.state = STOPPED`
  unfoldable pub rest_state : Option C → ServerState → ServerState
  rest_state none warming = stopped
  rest_state none starting = starting
  rest_state none ready = ready
  rest_state none degraded = degraded
  rest_state none stopped = stopped
  rest_state (some c) state = state

  -- Also what `warm` does at its end.
  unfoldable pub cancel_warmup_request : Session C → Session C
  unfolding rest_state
  cancel_warmup_request s = record s {
    warmup_in_progress = false;
    state = rest_state s.client s.state;
  }

  unfoldable pub shutdown : Session C → Session C
  unfolding shutdown_locked
  shutdown s = record (shutdown_locked s) { state = stopped }

  -- Also how `_ensure_initialized` begins.
  unfoldable pub close_if_idle : ℕ → Session C → Session C
  unfolding shutdown is_idle
  close_if_idle now s =
      if has s.client && is_idle now s.idle_ttl s.last_activity_at then shutdown s else s

  unfoldable pub launch : ℕ → Start C → Exec SessionError (Session C) C
  unfolding raise_timeout raise_unavailable
  launch now (start_timed_out at later) s = raise_timeout at later s
  launch now (start_failed at) s = raise_unavailable at s
  launch now (started c) s = (
    ok c,
    record s {
      client = some c;
      failure_count = zero;
      next_retry_at = none;
      last_failure_at = none;
      last_activity_at = some now;
      warm_probe_completed = false;
      state = warming;
    },
  )

  -- The server that is up, or a new one.
  unfoldable pub client_or_launch : Bool → ℕ → Start C → Option C → Exec SessionError (Session C) C
  unfolding launch
  client_or_launch mark_warming now start (some c) s = (
    ok c,
    record s {
      last_activity_at = some now;
      state = if s.warm_probe_completed then ready else warming;
    },
  )
  client_or_launch mark_warming now start none s =
      launch now start (record s { state = if mark_warming then warming else starting })

  -- `_ensure_initialized`; `later` is the reading for the error's retry time.
  unfoldable pub ensure_initialized : Bool → ℕ → ℕ → Start C → Exec SessionError (Session C) C
  unfolding close_if_idle is_before client_or_launch raise_not_ready
  ensure_initialized mark_warming now later start s =
      let s' = close_if_idle now s in
      if is_before now s'.next_retry_at
      then raise_not_ready degraded later s'
      else client_or_launch mark_warming now start s'.client s'

  -- The state of a session whose request was answered.
  unfoldable pub settle_reply :
      {A : Type 0} → ServerState → Reply A → Exec SessionError (Session C) A
  unfolding raise_timeout raise_unavailable
  settle_reply state (replied at a) s =
      (ok a, record s { last_activity_at = some at; state = state })
  settle_reply state (timed_out at later) s = raise_timeout at later s
  settle_reply state (failed at) s = raise_unavailable at s

  unfoldable pub send : {A : Type 0} → ℕ → (C → Reply A) → C → Exec SessionError (Session C) A
  unfolding settle_reply raise_not_ready
  send later operation c s =
      if s.warm_probe_completed
      then settle_reply ready (operation c) s
      else raise_not_ready warming later (record s { state = warming })

  -- `_invoke`
  unfoldable pub invoke :
      {A : Type 0} → ℕ → ℕ → Start C → (C → Reply A) → Exec SessionError (Session C) A
  unfolding ensure_initialized send
  invoke now later start operation = do
    c ← ensure_initialized false now later start
    send later operation c

  -- `_run_probe_operation`; its time budget is None.
  unfoldable pub run_probe_operation : {A : Type 0} → Reply A → Exec SessionError (Session C) A
  unfolding settle_reply
  run_probe_operation reply s = settle_reply warming reply (record s { state = warming })

  unfoldable pub mark_probe_complete : ℕ → Session C → Session C
  mark_probe_complete now s = record s {
    warm_probe_completed = true;
    last_activity_at = some now;
    state = ready;
  }

  -- `readiness_payload`: whether the session is ready, and the advised wait if it is not. `now` is
  -- the reading that the wait is worked out from.
  unfoldable pub readiness_payload : ℕ → Session C → Bool × Option ℕ
  unfolding retry_after_seconds
  readiness_payload now s = readiness now s.state s.next_retry_at
    where
      readiness : ℕ → ServerState → Option ℕ → Bool × Option ℕ
      readiness now ready retry = (true, none)
      readiness now starting retry = (false, some (retry_after_seconds now starting retry))
      readiness now warming retry = (false, some (retry_after_seconds now warming retry))
      readiness now degraded retry = (false, some (retry_after_seconds now degraded retry))
      readiness now stopped retry = (false, some (retry_after_seconds now stopped retry))
