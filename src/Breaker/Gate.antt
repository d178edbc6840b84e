-- ===== src/Breaker/Gate.antt =====
-- internal/backend/agent/model/circuit_breaker.go: recovery after the timeout, the transitions, and
-- the admission of requests with the half-open permit.
--
-- A method that changes the breaker returns the new record. `time.Now()` is the argument `now`, in
-- nanoseconds on the monotonic clock. The mutex makes each method one step.
use cursor_switch.Common.{
  ℕ, ◌+◌, ◌-◌, ◌*◌, ◌%◌, ◌^◌, Bool, true, false, Option, none, some, [], ltb, leb, if◌then◌else◌,
  inc_u32,
}
use cursor_switch.Common.Text.{Text, trim_space, ◌==◌}
use cursor_switch.Breaker.Types.{
  CircuitState, circuit_closed, circuit_open, circuit_half_open, CircuitBreaker, AllowResult, allow,
  allow_probe, deny,
}

-- `time.Duration(seconds) * time.Second <= now - since`: the product is an int64 that wraps, and a
-- pattern from 2 ^ 63 on is a negative duration.
unfoldable pub elapsed : ℕ → ℕ → ℕ → Bool
elapsed seconds since now =
    let timeout = seconds * 1_000_000_000 % 2 ^ 64 in
    if ltb timeout (2 ^ 63) then leb (since + timeout) now else leb since (now + (2 ^ 64 - timeout))

-- The end of `shouldRecoverLocked`, on the time of opening.
elapsed_since : Option ℕ → ℕ → ℕ → Bool
unfolding elapsed
elapsed_since none seconds now = true
elapsed_since (some since) seconds now = elapsed seconds since now

module _ {F : Type 0} where
  should_recover_in : CircuitState → CircuitBreaker F → ℕ → Bool
  unfolding elapsed_since
  should_recover_in circuit_open cb now =
      elapsed_since cb.last_opened_at cb.config.timeout_seconds now
  should_recover_in _ cb now = false

  unfoldable pub should_recover : CircuitBreaker F → ℕ → Bool
  unfolding should_recover_in
  should_recover cb now = should_recover_in cb.state cb now

  is_recoverable_in : CircuitState → CircuitBreaker F → ℕ → Bool
  unfolding should_recover
  is_recoverable_in circuit_closed cb now = true
  is_recoverable_in circuit_half_open cb now = true
  is_recoverable_in circuit_open cb now = should_recover cb now

  -- `IsAvailable`, which is `isRecoverableLocked` under the mutex
  unfoldable pub is_available : CircuitBreaker F → ℕ → Bool
  unfolding is_recoverable_in
  is_available cb now = is_recoverable_in cb.state cb now

  unfoldable pub transition_to_open : CircuitBreaker F → ℕ → CircuitBreaker F
  transition_to_open cb now = record cb {
    state = circuit_open;
    last_opened_at = some now;
    consecutive_failures = 0;
    consecutive_successes = 0;
  }

  transition_to_half_open_in : CircuitState → CircuitBreaker F → CircuitBreaker F
  transition_to_half_open_in circuit_open cb = record cb {
    state = circuit_half_open;
    consecutive_successes = 0;
    half_open_in_flight = 0;
  }
  transition_to_half_open_in _ cb = cb

  unfoldable pub transition_to_half_open : CircuitBreaker F → CircuitBreaker F
  unfolding transition_to_half_open_in
  transition_to_half_open cb = transition_to_half_open_in cb.state cb

  -- `recentResults[:0]` keeps the capacity.
  unfoldable pub transition_to_closed : CircuitBreaker F → CircuitBreaker F
  transition_to_closed cb = record cb {
    state = circuit_closed;
    consecutive_failures = 0;
    consecutive_successes = 0;
    total_requests = 0;
    failed_requests = 0;
    recent_results = [];
    window_failed = 0;
  }

  unfoldable pub allow_half_open_probe : CircuitBreaker F → CircuitBreaker F × AllowResult
  allow_half_open_probe cb =
      if ltb cb.half_open_in_flight 1
      then (record cb { half_open_in_flight = inc_u32 cb.half_open_in_flight }, allow_probe)
      else (cb, deny)

  -- The inner switch of `AllowRequest`, after the transition.
  allow_after : CircuitState → CircuitBreaker F → CircuitBreaker F × AllowResult
  unfolding allow_half_open_probe
  allow_after circuit_closed cb = (cb, allow)
  allow_after circuit_half_open cb = allow_half_open_probe cb
  allow_after circuit_open cb = (cb, deny)

  allow_request_in : CircuitState → CircuitBreaker F → ℕ → CircuitBreaker F × AllowResult
  unfolding allow_after should_recover transition_to_half_open
  allow_request_in circuit_closed cb now = (cb, allow)
  allow_request_in circuit_open cb now =
      let cb' = transition_to_half_open cb in
      if should_recover cb now then allow_after cb'.state cb' else (cb, deny)
  allow_request_in circuit_half_open cb now = allow_half_open_probe cb

  unfoldable pub allow_request : CircuitBreaker F → ℕ → CircuitBreaker F × AllowResult
  unfolding allow_request_in
  allow_request cb now = allow_request_in cb.state cb now

  -- `releaseHalfOpenPermitLocked`
  release_locked : CircuitBreaker F → CircuitBreaker F
  release_locked cb =
      if ltb 0 cb.half_open_in_flight
      then record cb { half_open_in_flight = cb.half_open_in_flight - 1 }
      else cb

  unfoldable pub release_half_open_permit : CircuitBreaker F → Bool → CircuitBreaker F
  unfolding release_locked
  release_half_open_permit cb used = if used then release_locked cb else cb

  unfoldable pub note_failure_reason : CircuitBreaker F → Text → CircuitBreaker F
  note_failure_reason cb reason =
      let trimmed = trim_space reason in
      if trimmed == [] then cb else record cb { last_failure_reason = trimmed }

  unfoldable pub reset : CircuitBreaker F → CircuitBreaker F
  unfolding transition_to_closed
  reset cb = transition_to_closed cb
