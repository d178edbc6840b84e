-- ===== src/Breaker/Due.antt =====
-- `IsAvailable` in circuit_breaker.go against the state and the clock.
use cursor_switch.Common.{ℕ, ◌+◌, ◌*◌, ◌≤◌, ◌≡◌, Bool, true, none, some, arith, leb}
use cursor_switch.Breaker.Types.{circuit_closed, circuit_open, circuit_half_open, CircuitBreaker}
use cursor_switch.Breaker.Gate.{should_recover, is_available}
use cursor_switch.Breaker.Diagram.{max_timeout_seconds, elapsed_lem}

module _ {F : Type 0} where
  -- The breaker is closed or half-open, or has been open for its timeout, or never noted an opening.
  abbrev pub is_due : CircuitBreaker F → ℕ → Bool
  is_due cb now = elim cb.state [
    | circuit_closed ↦ true
    | circuit_half_open ↦ true
    | circuit_open ↦ elim cb.last_opened_at [
      | none ↦ true
      | some since ↦ leb (since + cb.config.timeout_seconds * 1_000_000_000) now
    ]
  ]

  pub is_available_lem :
      (cb : CircuitBreaker F) (now : ℕ)
      → cb.config.timeout_seconds ≤ max_timeout_seconds
      → is_available cb now ≡ is_due cb now
  unfolding is_available should_recover
  is_available_lem cb now small = grind (arith, elapsed_lem)
