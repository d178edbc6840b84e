-- ===== src/Breaker/Invariant.antt =====
-- What holds of a breaker between two calls.
use cursor_switch.Common.{
  ℕ, suc, ◌+◌, ◌≤◌, ◌<◌, ◌≡◌, ◌≢◌, Bool, true, false, not, none, List, [], ◌∷◌, ◌++◌, arith, length,
  length-append, leb, if◌then◌else◌, drop,
}
use cursor_switch.Breaker.Types.{
  circuit_open, Platform, CircuitBreakerConfig, CircuitBreaker, circuit_breaker_recent_window_size,
  new_circuit_breaker, update_config,
}
use cursor_switch.Breaker.Gate.{
  transition_to_closed, allow_request, release_half_open_permit, note_failure_reason, reset,
}
use cursor_switch.Breaker.Outcome.{Window, window_of, pushed, record_success, record_failure}
use cursor_switch.Breaker.Calls.{
  Call, allowing, succeeded, failed, released, noted, configured, resetting, step, run,
}

abbrev pub failures : List Bool → ℕ
failures [] = 0
failures (true ∷ results) = failures results
failures (false ∷ results) = suc (failures results)

pub failures-append : (xs ys : List Bool) → failures (xs ++ ys) ≡ failures xs + failures ys
failures-append [] ys = omega arith
failures-append (true ∷ xs) ys = omega (arith, failures-append xs ys)
failures-append (false ∷ xs) ys = omega (arith, failures-append xs ys)

pub failures-le-length : (xs : List Bool) → failures xs ≤ length xs
failures-le-length [] = omega arith
failures-le-length (true ∷ xs) = omega (arith, failures-le-length xs)
failures-le-length (false ∷ xs) = omega (arith, failures-le-length xs)

-- The last field says that the window's slice is never made anew once it holds a result.
pub record IsWindow (w : Window) : Type 0 where
  pub bounded : length w.results ≤ circuit_breaker_recent_window_size
  pub counted : w.failed ≡ failures w.results
  pub held : length w.results ≤ w.capacity
  pub kept : w.capacity < 50 → length w.results ≡ 0

pub record IsValid {F : Type 0} (cb : CircuitBreaker F) : Type 0 where
  pub window : IsWindow (window_of cb)
  pub probes_capped : cb.half_open_in_flight ≤ 1
  pub opened : cb.state ≡ circuit_open → cb.last_opened_at ≢ none

-- What is left of a window when a result is about to be appended.
abbrev pub make_room : List Bool → List Bool
make_room results =
    if leb circuit_breaker_recent_window_size (length results) then drop 1 results else results

module _ {F : Type 0} (p : Platform F) (w : Window) (failed : Bool) (v : IsWindow w) where
  pub results-pushed : (pushed p w failed).results ≡ make_room w.results ++ not failed ∷ []
  unfolding pushed
  results-pushed = grind arith

  failed-pushed : (pushed p w failed).failed ≡ failures (pushed p w failed).results
  unfolding pushed
  failed-pushed = grind (arith, failures-append, failures-le-length)

  length-pushed-le : length (pushed p w failed).results ≤ circuit_breaker_recent_window_size
  length-pushed-le = grind (arith, results-pushed, length-append)

  length-pushed-le-capacity : length (pushed p w failed).results ≤ (pushed p w failed).capacity
  unfolding pushed
  length-pushed-le-capacity = grind (arith, p.need-le-grown_cap, length-append)

  le-capacity-pushed : 50 ≤ (pushed p w failed).capacity
  unfolding pushed
  le-capacity-pushed = grind (arith, p.need-le-grown_cap)

  pub pushed-IsWindow : IsWindow (pushed p w failed)
  pushed-IsWindow = record {
    bounded = length-pushed-le;
    counted = failed-pushed;
    held = length-pushed-le-capacity;
    kept = λ small. absurd (omega (arith, le-capacity-pushed));
  }

module _ {F : Type 0} (p : Platform F) where
  record_success-IsValid :
      (cb : CircuitBreaker F) (used : Bool) → IsValid cb → IsValid (record_success p cb used)
  unfolding record_success
  record_success-IsValid cb used v = ground (arith, pushed-IsWindow p (window_of cb) false)

  record_failure-IsValid :
      (cb : CircuitBreaker F) (used : Bool) (now : ℕ)
      → IsValid cb
      → IsValid (record_failure p cb used now)
  unfolding record_failure
  record_failure-IsValid cb used now v = ground (arith, pushed-IsWindow p (window_of cb) true)

  allow_request-IsValid :
      (cb : CircuitBreaker F) (now : ℕ) → IsValid cb → IsValid (allow_request cb now).0
  unfolding allow_request
  allow_request-IsValid cb now v = ground arith

  -- Every method keeps the invariant.
  pub step-IsValid : (cb : CircuitBreaker F) (call : Call F) → IsValid cb → IsValid (step p cb call)
  unfolding step update_config reset transition_to_closed release_half_open_permit
      note_failure_reason
  step-IsValid cb (allowing now) v = allow_request-IsValid cb now v
  step-IsValid cb (succeeded used) v = record_success-IsValid cb used v
  step-IsValid cb (failed used now) v = record_failure-IsValid cb used now v
  step-IsValid cb (released used) v = ground arith
  step-IsValid cb (noted reason) v = ground arith
  step-IsValid cb (configured config) v = ground arith
  step-IsValid cb resetting v = ground arith

  run-IsValid_of :
      (cb : CircuitBreaker F) (calls : List (Call F)) → IsValid cb → IsValid (run p cb calls)
  unfolding run
  run-IsValid_of cb [] v = v
  run-IsValid_of cb (call ∷ calls) v =
      run-IsValid_of (step p cb call) calls (step-IsValid cb call v)

  -- After any sequence of calls of a new breaker's methods, with any configurations: the window
  -- holds at most 50 results, windowFailed is the number of failures in it, its slice has never been
  -- replaced while it held a result, at most one half-open permit is counted, and an open breaker
  -- has a time of opening.
  pub run-IsValid :
      (config : CircuitBreakerConfig F) (calls : List (Call F))
      → IsValid (run p (new_circuit_breaker config) calls)
  unfolding new_circuit_breaker
  run-IsValid config calls = run-IsValid_of (new_circuit_breaker config) calls (ground arith)
