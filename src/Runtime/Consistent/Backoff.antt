-- ===== src/Runtime/Consistent/Backoff.antt =====
-- When a session whose server failed starts a server again.
use code_suit.Base.{
  ℕ, suc, ◌+◌, ◌*◌, ◌^◌, ◌<◌, min, true, false, none, some, List, [], ◌∷◌, ◌≡◌, refl, ap, ◌∙◌, ◌↔◌,
  ltb, ltb→lt, Bool-cases, inl, inr, arith, All,
}
use code_suit.Runtime.Session.{
  Session, Start, started, Reply, backoff, is_before, mark_failure, shutdown_locked, close_if_idle,
  launch, client_or_launch, ensure_initialized, raise_not_ready, send, invoke,
}

-- The time of the next retry after a failure.
abbrev pub due : ℕ → ℕ → ℕ
due at failures = at + min 60_000 (2 ^ min failures 6 * 1000)

module _ {C A : Type 0} (operation : C → Reply A) where
  -- The session after several requests, each with the clock's reading and what comes of a start.
  unfoldable pub requests : List (ℕ × Start C) → Session C → Session C
  unfolding invoke
  requests [] s = s
  requests ((now, start) ∷ more) s = requests more (invoke now now start operation s).1

  early_request :
      (at now later : ℕ) (start : Start C) (s : Session C)
      → now < due at (suc s.failure_count)
      → (invoke now later start operation (mark_failure at s)).1 ≡ mark_failure at s
  unfolding invoke ensure_initialized close_if_idle mark_failure shutdown_locked is_before backoff
      raise_not_ready
  early_request at now later start s h =
      let early : ltb now (due at (suc s.failure_count)) ≡ true = ground arith in rw early refl

  due_request :
      (at now later : ℕ) (c : C) (s : Session C)
      → ltb now (due at (suc s.failure_count)) ≡ false
      → (invoke now later (started c) operation (mark_failure at s)).1.client ≡ some c
  unfolding invoke ensure_initialized close_if_idle mark_failure shutdown_locked is_before backoff
      client_or_launch launch send raise_not_ready
  due_request at now later c s late = rw late refl

  requests-mark_failure :
      (at : ℕ) (s : Session C) (early : List (ℕ × Start C))
      → All (λ r. r.0 < due at (suc s.failure_count)) early
      → requests early (mark_failure at s) ≡ mark_failure at s
  unfolding requests
  requests-mark_failure at s [] h = refl
  requests-mark_failure at s ((now, start) ∷ more) h =
      ap (requests more) (early_request at now now start s h.0)
      ∙ requests-mark_failure at s more h.1

  no_client : (at : ℕ) (s : Session C) → (mark_failure at s).client ≡ none
  unfolding mark_failure shutdown_locked
  no_client at s = refl

  -- After a failure, and any requests before the next retry is due, whatever a start of the server
  -- would have given them, a request with a server that starts leaves the session without one
  -- exactly if the request comes before min(60, 2 ^ min(n, 6)) seconds after the failure, where n is
  -- the number of failures in a row.
  pub invoke-requests :
      (at now later : ℕ) (c : C) (s : Session C) (early : List (ℕ × Start C))
      → All (λ r. r.0 < due at (suc s.failure_count)) early
      → ((invoke now later (started c) operation (requests early (mark_failure at s))).1.client
          ≡ none)
        ↔ (now < due at (suc s.failure_count))
  invoke-requests at now later c s early h =
      let same = requests-mark_failure at s early h in
      elim (Bool-cases (ltb now (due at (suc s.failure_count)))) [
        | inl soon ↦
            let before = ltb→lt now (due at (suc s.failure_count)) soon in
            (
              λ _. before,
              λ _.
                  ap (λ t. (invoke now later (started c) operation t).1.client) same
                  ∙ ap (λ t. t.client) (early_request at now later (started c) s before)
                  ∙ no_client at s,
            )
        | inr late ↦
            let runs =
              ap (λ t. (invoke now later (started c) operation t).1.client) same
              ∙ due_request at now later c s late in
            (λ idle. absurd (cc (idle, runs)), λ before. absurd (ground (arith, before, late)))
      ]
