-- ===== src/Breaker/Diagram.antt =====
-- The breaker's transitions against the diagram in the comment of `CircuitBreaker`.
use cursor_switch.Common.{
  ℕ, ◌+◌, ◌*◌, ◌≤◌, ◌≡◌, refl, ◌⊎◌, inl, inr, Bool, true, some, arith, length, inc_u32, leb,
  Bool-cases,
}
use cursor_switch.Breaker.Types.{
  CircuitState, circuit_closed, circuit_open, circuit_half_open, Platform, CircuitBreaker,
  circuit_breaker_recent_window_size,
}
use cursor_switch.Breaker.Gate.{elapsed, allow_request, transition_to_closed, reset}
use cursor_switch.Breaker.Outcome.{window_of, pushed, record_success, record_failure}
use cursor_switch.Breaker.Calls.{Call, allowing, succeeded, failed, resetting, step}
use cursor_switch.Breaker.Invariant.{failures, IsValid, results-pushed, pushed-IsWindow}

-- The largest timeout whose nanoseconds are an int64.
abbrev pub max_timeout_seconds : ℕ
max_timeout_seconds = 9_223_372_036

pub elapsed_lem :
    (seconds since now : ℕ)
    → seconds ≤ max_timeout_seconds
    → elapsed seconds since now ≡ leb (since + seconds * 1_000_000_000) now
unfolding elapsed
elapsed_lem seconds since now h = ground arith

module _ {F : Type 0} (p : Platform F) where
  -- The error rate of the window, in which the failure that is being reported stands, reaches the
  -- threshold. The comment asks for MinRequests requests in total; the code compares MinRequests with
  -- the length of the window.
  abbrev pub RateReached : CircuitBreaker F → Type 0
  RateReached cb =
      let w = pushed p (window_of cb) true in
      (cb.config.min_requests ≤ length w.results)
      × (p.ge (p.div (p.of_uint (failures w.results)) (p.of_uint (length w.results)))
            cb.config.error_rate_threshold
          ≡ true)

  pub data Transition (cb : CircuitBreaker F) : Call F → CircuitState → CircuitState → Type 0 where
    trip :
        {used : Bool} {now : ℕ}
        → (cb.config.failure_threshold ≤ inc_u32 cb.consecutive_failures) ⊎ RateReached cb
        → Transition cb (failed used now) circuit_closed circuit_open
    probe :
        {now since : ℕ}
        → cb.last_opened_at ≡ some since
        → since + cb.config.timeout_seconds * 1_000_000_000 ≤ now
        → Transition cb (allowing now) circuit_open circuit_half_open
    recover :
        {used : Bool}
        → cb.config.success_threshold ≤ inc_u32 cb.consecutive_successes
        → Transition cb (succeeded used) circuit_half_open circuit_closed
    relapse :
        {used : Bool} {now : ℕ} → Transition cb (failed used now) circuit_half_open circuit_open
    manual : {s : CircuitState} → Transition cb resetting s circuit_closed

  module _ (cb : CircuitBreaker F) (v : IsValid cb)
      (small : cb.config.timeout_seconds ≤ max_timeout_seconds) where
    trips :
        (used : Bool) (now : ℕ)
        → cb.state ≡ circuit_closed
        → (cb.config.failure_threshold ≤ inc_u32 cb.consecutive_failures) ⊎ RateReached cb
        → (record_failure p cb used now).state ≡ circuit_open
    unfolding record_failure
    trips used now e r = grind (
      arith,
      pushed-IsWindow p (window_of cb) true v.window,
      results-pushed p (window_of cb) true v.window,
    )

    probes :
        (now since : ℕ)
        → cb.state ≡ circuit_open
        → cb.last_opened_at ≡ some since
        → since + cb.config.timeout_seconds * 1_000_000_000 ≤ now
        → (allow_request cb now).0.state ≡ circuit_half_open
    unfolding allow_request
    probes now since e o late = ground (arith, elapsed_lem cb.config.timeout_seconds since now)

    recovers :
        (used : Bool)
        → cb.state ≡ circuit_half_open
        → cb.config.success_threshold ≤ inc_u32 cb.consecutive_successes
        → (record_success p cb used).state ≡ circuit_closed
    unfolding record_success
    recovers used e enough = ground arith

    relapses :
        (used : Bool) (now : ℕ)
        → cb.state ≡ circuit_half_open
        → (record_failure p cb used now).state ≡ circuit_open
    unfolding record_failure
    relapses used now e = ground arith

  takes_edge :
      (cb : CircuitBreaker F) {call : Call F} {s t : CircuitState}
      → IsValid cb
      → cb.config.timeout_seconds ≤ max_timeout_seconds
      → Transition cb call s t
      → cb.state ≡ s
      → (step p cb call).state ≡ t
  unfolding step reset transition_to_closed
  takes_edge cb v small (trip {used} {now} reached) e = trips cb v small used now e reached
  takes_edge cb v small (probe {now} {since} opened late) e =
      probes cb v small now since e opened late
  takes_edge cb v small (recover {used} enough) e = recovers cb v small used e enough
  takes_edge cb v small (relapse {used} {now}) e = relapses cb v small used now e
  takes_edge cb v small manual e = refl

  RateReached-min_requests :
      (cb : CircuitBreaker F)
      → IsValid cb
      → (¬ RateReached cb) ⊎ (cb.config.min_requests ≤ circuit_breaker_recent_window_size)
  RateReached-min_requests cb v =
      let bounded = (pushed-IsWindow p (window_of cb) true v.window).bounded in
      elim (Bool-cases (leb cb.config.min_requests circuit_breaker_recent_window_size)) [
        | inl few ↦ inr (ground arith)
        | inr many ↦ inl (λ reached. ground (arith, reached.0))
      ]

  -- Each edge of the diagram is taken when its condition holds, for a breaker in a state that its calls
  -- can reach and a timeout below 2 ^ 63 nanoseconds. The condition on the error rate is that of the
  -- window: MinRequests is compared with the window's length, which is at most 50, and not with the
  -- total of requests, so it never holds for a breaker whose MinRequests is above 50.
  pub Transition-step :
      (cb : CircuitBreaker F) {call : Call F} {s t : CircuitState}
      → IsValid cb
      → cb.config.timeout_seconds ≤ max_timeout_seconds
      → Transition cb call s t
      → cb.state ≡ s
      → ((step p cb call).state ≡ t) × ((¬ RateReached cb) ⊎ (cb.config.min_requests ≤ 50))
  Transition-step cb v small edge e = (takes_edge cb v small edge e, RateReached-min_requests cb v)
