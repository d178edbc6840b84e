-- ===== src/Breaker/Types.antt =====
-- internal/backend/agent/model/circuit_breaker.go: the data of one provider's circuit breaker, its
-- constructor and the read-only views.
use cursor_switch.Common.{ℕ, ◌≤◌, Bool, true, false, Option, none, List, []}
use cursor_switch.Common.Text.{Text, codes}

pub data CircuitState : Type 0 where
  circuit_closed circuit_open circuit_half_open : CircuitState

-- `CircuitState.String`
unfoldable pub state_string : CircuitState → Text
state_string circuit_closed = codes "closed"
state_string circuit_open = codes "open"
state_string circuit_half_open = codes "half_open"

-- What the code uses of Go's runtime: float64, and the capacity that `append` gives a full slice.
pub record Platform (F : Type 0) : Type 0 where
  pub of_uint : ℕ → F
  pub div : F → F → F
  pub ge : F → F → Bool
  pub zero_rate : F
  pub grown_cap : ℕ → ℕ → ℕ
  pub need-le-grown_cap : (old need : ℕ) → need ≤ grown_cap old need

pub record CircuitBreakerConfig (F : Type 0) : Type 0 where
  pub failure_threshold : ℕ  -- uint32
  pub success_threshold : ℕ  -- uint32
  pub timeout_seconds : ℕ  -- uint64
  pub error_rate_threshold : F
  pub min_requests : ℕ  -- uint32

unfoldable pub default_circuit_breaker_config : {F : Type 0} → Platform F → CircuitBreakerConfig F
default_circuit_breaker_config p = record {
  failure_threshold = 4;
  success_threshold = 2;
  timeout_seconds = 60;
  error_rate_threshold = p.div (p.of_uint 6) (p.of_uint 10);
  min_requests = 10;
}

pub record AllowResult : Type 0 where
  pub allowed : Bool
  pub used_half_open_permit : Bool

abbrev pub allow : AllowResult
allow = record { allowed = true; used_half_open_permit = false }

abbrev pub allow_probe : AllowResult
allow_probe = record { allowed = true; used_half_open_permit = true }

abbrev pub deny : AllowResult
deny = record { allowed = false; used_half_open_permit = false }

-- `last_opened_at` is `none` for the zero time. The slice `recent_results` (true for a success) is
-- its elements, the oldest first, and its capacity.
pub record CircuitBreaker (F : Type 0) : Type 0 where
  pub state : CircuitState
  pub last_opened_at : Option ℕ
  pub consecutive_failures : ℕ
  pub consecutive_successes : ℕ
  pub total_requests : ℕ
  pub failed_requests : ℕ
  pub half_open_in_flight : ℕ
  pub recent_results : List Bool
  pub recent_results_cap : ℕ
  pub window_failed : ℕ
  pub last_failure_reason : Text
  pub config : CircuitBreakerConfig F

pub record CircuitBreakerStats : Type 0 where
  pub state : CircuitState
  pub consecutive_failures : ℕ
  pub consecutive_successes : ℕ
  pub total_requests : ℕ
  pub failed_requests : ℕ

abbrev pub circuit_breaker_recent_window_size : ℕ
circuit_breaker_recent_window_size = 50

module _ {F : Type 0} where
  unfoldable pub new_circuit_breaker : CircuitBreakerConfig F → CircuitBreaker F
  new_circuit_breaker config = record {
    state = circuit_closed;
    last_opened_at = none;
    consecutive_failures = 0;
    consecutive_successes = 0;
    total_requests = 0;
    failed_requests = 0;
    half_open_in_flight = 0;
    recent_results = [];
    recent_results_cap = 0;
    window_failed = 0;
    last_failure_reason = [];
    config = config;
  }

  unfoldable pub update_config : CircuitBreakerConfig F → CircuitBreaker F → CircuitBreaker F
  update_config config cb = record cb { config = config }

  unfoldable pub stats : CircuitBreaker F → CircuitBreakerStats
  stats cb = record {
    state = cb.state;
    consecutive_failures = cb.consecutive_failures;
    consecutive_successes = cb.consecutive_successes;
    total_requests = cb.total_requests;
    failed_requests = cb.failed_requests;
  }
