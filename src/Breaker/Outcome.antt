-- ===== src/Breaker/Outcome.antt =====
-- internal/backend/agent/model/circuit_breaker.go: the sliding window of results, and the reports of
-- success and failure.
use cursor_switch.Common.{
  ℕ, ◌+◌, ◌-◌, Bool, true, false, not, List, [], ◌∷◌, ◌++◌, ltb, leb, if◌then◌else◌, inc_u32,
  length,
}
use cursor_switch.Breaker.Types.{
  CircuitState, circuit_closed, circuit_open, circuit_half_open, Platform, CircuitBreaker,
  circuit_breaker_recent_window_size,
}
use cursor_switch.Breaker.Gate.{transition_to_open, transition_to_closed, release_half_open_permit}

-- The window: `recentResults` (its elements and its capacity) and `windowFailed`.
pub record Window : Type 0 where
  pub results : List Bool
  pub capacity : ℕ
  pub failed : ℕ

-- The first test of `pushRecentResultLocked` makes a new, empty slice.
make_window : Window → Window
make_window w =
    if ltb w.capacity circuit_breaker_recent_window_size
    then record w { results = []; capacity = circuit_breaker_recent_window_size }
    else w

-- The eviction of the oldest result: `recentResults[1:]` starts one element further in the same
-- array, so its capacity falls by one. The result is true for a success.
evict_oldest : List Bool → Window → Window
evict_oldest [] w = w
evict_oldest (true ∷ rest) w = record w { results = rest; capacity = w.capacity - 1 }
evict_oldest (false ∷ rest) w = record w {
  results = rest;
  capacity = w.capacity - 1;
  failed = if ltb 0 w.failed then w.failed - 1 else w.failed;
}

evict_if_full : Window → Window
unfolding evict_oldest
evict_if_full w =
    if leb circuit_breaker_recent_window_size (length w.results)
    then evict_oldest w.results w
    else w

abbrev pub window_of : {F : Type 0} → CircuitBreaker F → Window
window_of cb = record {
  results = cb.recent_results;
  capacity = cb.recent_results_cap;
  failed = cb.window_failed;
}

module _ {F : Type 0} (p : Platform F) where
  -- `append(recentResults, !failed)`, and `windowFailed++` for a failure
  append_result : Window → Bool → Window
  append_result w failed = record {
    results = w.results ++ not failed ∷ [];
    capacity =
        if ltb (length w.results) w.capacity
        then w.capacity
        else p.grown_cap w.capacity (length w.results + 1);
    failed = if failed then inc_u32 w.failed else w.failed;
  }

  unfoldable pub pushed : Window → Bool → Window
  unfolding make_window evict_if_full append_result
  pushed w failed = append_result (evict_if_full (make_window w)) failed

  -- `pushRecentResultLocked` changes the window's three fields.
  unfoldable pub push_recent_result : CircuitBreaker F → Bool → CircuitBreaker F
  push_recent_result cb failed =
      let w = pushed (window_of cb) failed in
      record cb {
        recent_results = w.results;
        recent_results_cap = w.capacity;
        window_failed = w.failed;
      }

  unfoldable pub recent_error_rate : CircuitBreaker F → F
  recent_error_rate cb =
      if ltb (length cb.recent_results) cb.config.min_requests
      then p.zero_rate
      else if leb (length cb.recent_results) 0
      then p.zero_rate
      else p.div (p.of_uint cb.window_failed) (p.of_uint (length cb.recent_results))

  -- `RecordSuccess` in state HalfOpen
  count_success : CircuitBreaker F → CircuitBreaker F
  unfolding transition_to_closed
  count_success cb =
      let successes = inc_u32 cb.consecutive_successes in
      let cb' = record cb { consecutive_successes = successes } in
      if leb cb.config.success_threshold successes then transition_to_closed cb' else cb'

  success_in : CircuitState → CircuitBreaker F → CircuitBreaker F
  unfolding count_success
  success_in circuit_half_open cb = count_success cb
  success_in _ cb = cb

  unfoldable pub record_success : CircuitBreaker F → Bool → CircuitBreaker F
  unfolding release_half_open_permit push_recent_result success_in
  record_success cb used =
      let released = release_half_open_permit cb used in
      let counted = record released {
        consecutive_failures = 0;
        total_requests = inc_u32 released.total_requests;
      } in
      let pushed = push_recent_result counted false in
      let cleared = record pushed { last_failure_reason = [] } in success_in cleared.state cleared

  -- `RecordFailure` in state Closed
  trip : CircuitBreaker F → ℕ → CircuitBreaker F
  unfolding transition_to_open recent_error_rate
  trip cb now =
      if leb cb.config.failure_threshold cb.consecutive_failures
      then transition_to_open cb now
      else if p.ge (recent_error_rate cb) cb.config.error_rate_threshold
      then transition_to_open cb now
      else cb

  failure_in : CircuitState → CircuitBreaker F → ℕ → CircuitBreaker F
  unfolding trip transition_to_open
  failure_in circuit_half_open cb now = transition_to_open cb now
  failure_in circuit_closed cb now = trip cb now
  failure_in circuit_open cb now = cb

  unfoldable pub record_failure : CircuitBreaker F → Bool → ℕ → CircuitBreaker F
  unfolding release_half_open_permit push_recent_result failure_in
  record_failure cb used now =
      let released = release_half_open_permit cb used in
      let counted = record released {
        consecutive_failures = inc_u32 released.consecutive_failures;
        total_requests = inc_u32 released.total_requests;
        failed_requests = inc_u32 released.failed_requests;
        consecutive_successes = 0;
      } in
      let pushed = push_recent_result counted true in failure_in pushed.state pushed now
