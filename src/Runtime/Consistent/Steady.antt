-- ===== src/Runtime/Consistent/Steady.antt =====
-- What the invariant means for whoever looks at a session between two calls.
use code_suit.Base.{
  ℕ, zero, suc, ◌+◌, ◌-◌, ◌*◌, ◌≤◌, true, false, Option, none, some, List, ◌≡◌, ◌≢◌, refl, arith,
  inl, inr, Option-cases, min, max, eq_of_==, nat_eq,
}
use code_suit.Runtime.Session.{
  Session, ready, warming, degraded, starting, has, backoff, second, ceil_seconds,
  retry_after_seconds, is_before,
}
use code_suit.Runtime.Warm.{SessionCall, session_calls, new_session}
use code_suit.Runtime.Consistent.{is_consistent, backed_off}
use code_suit.Runtime.Consistent.Calls.{session_calls_lem}

last_of_backed_off :
    (retry : ℕ) (last : Option ℕ) (n : ℕ)
    → backed_off (some retry) last n ≡ true
    → (at : ℕ) × (last ≡ some at) × (retry ≡ at + backoff n)
unfolding backed_off
last_of_backed_off retry none n h = absurd cc
last_of_backed_off retry (some at) zero h = absurd cc
last_of_backed_off retry (some at) (suc n) h = (at, refl, eq_of_== retry (at + backoff (suc n)) h)

module _ {C : Type 0} where
  pub record IsSteady (s : Session C) : Type 0 where
    pub ready_is_up : s.state ≡ ready → (has s.client ≡ true) × (s.warm_probe_completed ≡ true)
    pub up_has_no_failures : has s.client ≡ true → (s.next_retry_at ≡ none) × (s.failure_count ≡ 0)
    pub degraded_waits : s.state ≡ degraded → has s.next_retry_at ≡ true
    pub retry_is_backed_off :
        (retry : ℕ)
        → s.next_retry_at ≡ some retry
        → (last : ℕ) × (s.last_failure_at ≡ some last) × (retry ≡ last + backoff s.failure_count)
    pub warming_is_due : s.state ≡ warming → has s.client ≡ false → s.warmup_in_progress ≡ true
    pub never_starting : s.state ≢ starting

  backed_off_of_consistent :
      (s : Session C) (retry : ℕ)
      → is_consistent s ≡ true
      → s.next_retry_at ≡ some retry
      → backed_off (some retry) s.last_failure_at s.failure_count ≡ true
  unfolding is_consistent
  backed_off_of_consistent s retry h e = ground arith

  pub steady : (s : Session C) → is_consistent s ≡ true → IsSteady s
  unfolding is_consistent
  steady s h = record {
    ready_is_up = λ e. ground arith;
    up_has_no_failures = λ e. ground arith;
    degraded_waits = λ e. ground arith;
    retry_is_backed_off = λ retry e.
        last_of_backed_off retry s.last_failure_at s.failure_count
          (backed_off_of_consistent s retry h e);
    warming_is_due = λ e d. ground arith;
    never_starting = λ e. ground arith;
  }

  -- After any sequence of calls on a new session, whatever the server answers: the state is ready
  -- only with a server that is up and probed; a server that is up has no failure counted and no
  -- retry time; degraded has a retry time, which is the last failure's time and the backoff of the
  -- failures since a server was last up; without a server, warming means that a warm-up was asked
  -- for; and no call leaves the state at starting.
  pub session_calls-IsSteady :
      {File A : Type 0} (ttl : ℕ) (cs : List (SessionCall C File A))
      → IsSteady (session_calls cs (new_session ttl))
  unfolding is_consistent new_session
  session_calls-IsSteady ttl cs = steady _ (session_calls_lem cs (new_session ttl) refl)

backoff_le : (n : ℕ) → backoff n ≤ 60 * second
unfolding backoff
backoff_le n = omega arith

wait_reaches :
    (now retry : ℕ)
    → retry ≤ now + 60 * second
    → retry ≤ now + max 1 (min 60 (ceil_seconds (retry - now))) * second
unfolding ceil_seconds
wait_reaches now retry h = omega arith

module _ {C : Type 0} where
  -- In a consistent session that is degraded, at or after its last failure, the advised number of
  -- seconds is enough: after that time the next retry is no longer refused as early.
  pub is_before-retry_after_seconds :
      (now last : ℕ) (s : Session C)
      → is_consistent s ≡ true
      → s.state ≡ degraded
      → s.last_failure_at ≡ some last
      → last ≤ now
      → is_before (now + retry_after_seconds now s.state s.next_retry_at * second) s.next_retry_at
        ≡ false
  unfolding is_before retry_after_seconds
  is_before-retry_after_seconds now last s h d f late = elim (Option-cases s.next_retry_at) [
    | inl no_retry ↦ rw no_retry refl
    | inr (retry, e) ↦
        let (at, at_eq, retry_eq) = (steady s h).retry_is_backed_off retry e in
        rw (e, d) (ground (arith, wait_reaches now retry, backoff_le s.failure_count))
  ]
