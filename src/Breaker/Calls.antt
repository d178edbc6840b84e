-- ===== src/Breaker/Calls.antt =====
-- Sequences of calls of one breaker's methods, in the order in which they take its mutex.
use cursor_switch.Common.{ℕ, Bool, List, [], ◌∷◌}
use cursor_switch.Common.Text.{Text}
use cursor_switch.Breaker.Types.{Platform, CircuitBreakerConfig, CircuitBreaker, update_config}
use cursor_switch.Breaker.Gate.{allow_request, release_half_open_permit, note_failure_reason, reset}
use cursor_switch.Breaker.Outcome.{record_success, record_failure}

pub data Call (F : Type 0) : Type 0 where
  allowing : ℕ → Call F
  succeeded : Bool → Call F
  failed : Bool → ℕ → Call F
  released : Bool → Call F
  noted : Text → Call F
  configured : CircuitBreakerConfig F → Call F
  resetting : Call F

module _ {F : Type 0} (p : Platform F) where
  unfoldable pub step : CircuitBreaker F → Call F → CircuitBreaker F
  step cb (allowing now) = (allow_request cb now).0
  step cb (succeeded used) = record_success p cb used
  step cb (failed used now) = record_failure p cb used now
  step cb (released used) = release_half_open_permit cb used
  step cb (noted reason) = note_failure_reason cb reason
  step cb (configured config) = update_config config cb
  step cb resetting = reset cb

  unfoldable pub run : CircuitBreaker F → List (Call F) → CircuitBreaker F
  unfolding step
  run cb [] = cb
  run cb (call ∷ calls) = run (step cb call) calls
