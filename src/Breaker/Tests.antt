-- ===== src/Breaker/Tests.antt =====
-- Runs of the breaker, and its theorems at concrete breakers.
use cursor_switch.Common.{
  ℕ, ◌*◌, ◌≤◌, ◌≡◌, refl, ◌⊎◌, inr, true, false, none, some, List, [], ◌∷◌, arith, leb, last_n,
}
use cursor_switch.Breaker.Types.{
  circuit_closed, circuit_open, circuit_half_open, Platform, CircuitBreakerConfig, CircuitBreaker,
  deny, allow_probe, default_circuit_breaker_config, new_circuit_breaker,
  circuit_breaker_recent_window_size,
}
use cursor_switch.Breaker.Gate.{elapsed, allow_request}
use cursor_switch.Breaker.Outcome.{pushed, record_success, record_failure}
use cursor_switch.Breaker.Calls.{Call, allowing, succeeded, failed, released, step, run}
use cursor_switch.Breaker.Invariant.{failures, IsValid, run-IsValid}
use cursor_switch.Breaker.History.{history, window-history}
use cursor_switch.Breaker.Diagram.{RateReached, recover, Transition-step}
use cursor_switch.Breaker.Timing.{answers, AllDenied, IsShut, answers-IsShut, run-AllFailures}
use cursor_switch.Breaker.Probe.{
  AllProbes, good_probes, single_probe, late_failure-probes, probes-close,
}

-- Fractions in place of float64, and a slice that grows by what it needs.
need-le-need : (old need : ℕ) → need ≤ need
need-le-need old need = omega arith

abbrev fractions : Platform (ℕ × ℕ)
fractions = record {
  of_uint = λ n. (n, 1);
  div = λ a b. (a.0 * b.1, a.1 * b.0);
  ge = λ a b. leb (b.0 * a.1) (a.0 * b.1);
  zero_rate = (0, 1);
  grown_cap = λ old need. need;
  need-le-grown_cap = need-le-need;
}

abbrev config : CircuitBreakerConfig (ℕ × ℕ)
config = record {
  failure_threshold = 4;
  success_threshold = 2;
  timeout_seconds = 60;
  error_rate_threshold = (6, 10);
  min_requests = 10;
}

abbrev fresh : CircuitBreaker (ℕ × ℕ)
fresh = record {
  state = circuit_closed;
  last_opened_at = none;
  consecutive_failures = 0;
  consecutive_successes = 0;
  total_requests = 0;
  failed_requests = 0;
  half_open_in_flight = 0;
  recent_results = [];
  recent_results_cap = 0;
  window_failed = 0;
  last_failure_reason = [];
  config = config;
}

abbrev opened : CircuitBreaker (ℕ × ℕ)
opened = record fresh { state = circuit_open; last_opened_at = some 1000 }

abbrev probing : CircuitBreaker (ℕ × ℕ)
probing = record fresh {
  state = circuit_half_open;
  half_open_in_flight = 1;
  consecutive_successes = 1;
}

default_config : default_circuit_breaker_config fractions ≡ config
unfolding default_circuit_breaker_config
default_config = refl

abbrev four_failures : List (Call (ℕ × ℕ))
four_failures = failed false 7 ∷ failed false 8 ∷ failed false 9 ∷ failed false 10 ∷ []

opens : (run fractions fresh four_failures).state ≡ circuit_open
unfolding run record_failure pushed
opens = refl

recovers_after_timeout :
    answers fractions opened (
      allowing 2000
      ∷ allowing 60_000_001_000
      ∷ allowing 60_000_001_001
      ∷ succeeded true
      ∷ allowing 60_000_001_002
      ∷ [])
    ≡ deny ∷ allow_probe ∷ deny ∷ allow_probe ∷ []
unfolding answers step allow_request record_success pushed
recovers_after_timeout = refl

-- An int64 product of seconds that is negative passes at once.
overflowing_timeout : elapsed 9_223_372_037 5 5 ≡ true
unfolding elapsed
overflowing_timeout = refl

run-IsValid_example : IsValid (run fractions (new_circuit_breaker config) four_failures)
run-IsValid_example = run-IsValid fractions config four_failures

window-history_example :
    let cb = new_circuit_breaker config in
    let recent =
      last_n circuit_breaker_recent_window_size (history fractions cb [] four_failures) in
    ((run fractions cb four_failures).recent_results ≡ recent)
    × ((run fractions cb four_failures).window_failed ≡ failures recent)
window-history_example = window-history fractions config four_failures

probing-IsValid : IsValid probing
probing-IsValid = ground arith

Transition-step_example :
    ((step fractions probing (succeeded true)).state ≡ circuit_closed)
    × ((¬ RateReached fractions probing) ⊎ (probing.config.min_requests ≤ 50))
Transition-step_example =
    Transition-step fractions probing probing-IsValid (omega arith)
      (recover {used = true} (omega arith)) refl

answers-IsShut_example :
    let calls : List (Call (ℕ × ℕ)) =
      failed false 1500 ∷ allowing 2000 ∷ allowing 60_000_000_999 ∷ [] in
    AllDenied (answers fractions opened calls)
    × IsShut fractions 1000 60 (run fractions opened calls)
answers-IsShut_example =
    answers-IsShut fractions 1000 60 (omega arith) opened
      (failed false 1500 ∷ allowing 2000 ∷ allowing 60_000_000_999 ∷ [])
      (record { is_open = refl; opened = refl; timeout = refl }) (omega arith)

run-AllFailures_example : (run fractions fresh four_failures).state ≡ circuit_open
run-AllFailures_example =
    run-AllFailures fractions fresh false 7 (failed false 8 ∷ failed false 9 ∷ failed false 10 ∷ [])
      refl tt (omega arith) (omega arith) (omega arith)

single_probe_example :
    ((allow_request opened 60_000_001_000).1 ≡ allow_probe)
    × AllDenied
        (answers fractions (allow_request opened 60_000_001_000).0 (allowing 60_000_002_000 ∷ []))
single_probe_example =
    single_probe fractions opened 60_000_001_000 (allowing 60_000_002_000 ∷ [])
      (inr (refl, omega arith, (1000, refl, omega arith))) tt

late_failure-probes_example :
    answers fractions probing
      (failed false 5 ∷ allowing 60_000_000_005 ∷ released true ∷ allowing 60_000_000_006 ∷ [])
    ≡ allow_probe ∷ allow_probe ∷ []
late_failure-probes_example =
    late_failure-probes fractions probing 5 60_000_000_005 60_000_000_006 refl refl (omega arith)
      (omega arith)

probes-close_example :
    let calls : List (Call (ℕ × ℕ)) = good_probes (60_000_001_000 ∷ 60_000_003_000 ∷ []) in
    AllProbes (answers fractions opened calls)
    × ((run fractions opened calls).state ≡ circuit_closed)
probes-close_example =
    probes-close fractions opened 60_000_001_000 (60_000_003_000 ∷ [])
      (inr (refl, omega arith, (1000, refl, omega arith))) (omega arith) (omega arith)
