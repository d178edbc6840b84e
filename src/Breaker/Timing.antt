-- ===== src/Breaker/Timing.antt =====
-- What an open breaker lets through, and how many failures open it.
use cursor_switch.Common.{
  ℕ, ◌+◌, ◌*◌, ◌≤◌, ◌<◌, ◌≡◌, sym, ap, ◌⊎◌, inl, inr, Bool, some, List, [], ◌∷◌, arith, length,
  inc_u32,
}
use mathlib.Core.Path.{subst}
use cursor_switch.Breaker.Types.{
  circuit_closed, circuit_open, Platform, CircuitBreaker, AllowResult, deny,
}
use cursor_switch.Breaker.Gate.{allow_request, release_half_open_permit, note_failure_reason}
use cursor_switch.Breaker.Outcome.{record_success, record_failure}
use cursor_switch.Breaker.Calls.{
  Call, allowing, succeeded, failed, released, noted, configured, resetting, step, run,
}
use cursor_switch.Breaker.Diagram.{max_timeout_seconds, elapsed_lem}

-- The call comes before the deadline, and is neither `Reset` nor `UpdateConfig`.
abbrev pub IsEarly : {F : Type 0} → ℕ → Call F → Type 0
IsEarly deadline (allowing now) = now < deadline
IsEarly deadline (configured config) = ⊥
IsEarly deadline resetting = ⊥
IsEarly deadline _ = Unit {0}

abbrev pub AllEarly : {F : Type 0} → ℕ → List (Call F) → Type 0
AllEarly deadline [] = Unit
AllEarly deadline (call ∷ calls) = IsEarly deadline call × AllEarly deadline calls

abbrev pub AllDenied : List AllowResult → Type 0
AllDenied [] = Unit
AllDenied (r ∷ rs) = (r ≡ deny) × AllDenied rs

module _ {F : Type 0} (p : Platform F) where
  -- The answers to the calls of `AllowRequest`.
  unfoldable pub answers : CircuitBreaker F → List (Call F) → List AllowResult
  answers cb [] = []
  answers cb (allowing now ∷ calls) =
      (allow_request cb now).1 ∷ answers (allow_request cb now).0 calls
  answers cb (call ∷ calls) = answers (step p cb call) calls

  pub record IsShut (since : ℕ) (seconds : ℕ) (cb : CircuitBreaker F) : Type 0 where
    pub is_open : cb.state ≡ circuit_open
    pub opened : cb.last_opened_at ≡ some since
    pub timeout : cb.config.timeout_seconds ≡ seconds

  module _ (since seconds : ℕ) (small : seconds ≤ max_timeout_seconds) where
    allow-IsShut :
        (cb : CircuitBreaker F) (now : ℕ)
        → now < since + seconds * 1_000_000_000
        → IsShut since seconds cb
        → allow_request cb now ≡ (cb, deny)
    unfolding allow_request
    allow-IsShut cb now early s = ground (arith, elapsed_lem seconds since now)

    step-IsShut :
        (cb : CircuitBreaker F) (call : Call F)
        → IsEarly (since + seconds * 1_000_000_000) call
        → IsShut since seconds cb
        → IsShut since seconds (step p cb call)
    unfolding step record_success record_failure release_half_open_permit note_failure_reason
    step-IsShut cb (allowing now) early s = ground (arith, allow-IsShut cb now early s)
    step-IsShut cb (succeeded used) early s = ground arith
    step-IsShut cb (failed used now) early s = ground arith
    step-IsShut cb (released used) early s = ground arith
    step-IsShut cb (noted reason) early s = ground arith
    step-IsShut cb (configured config) early s = elim early [ ]
    step-IsShut cb resetting early s = elim early [ ]

    -- From an open breaker, whatever reports of success and failure come in, every request is
    -- denied until the timeout since the opening has passed; the breaker stays open with the same
    -- time of opening. `Reset` and `UpdateConfig` are left out, and the timeout is below 2 ^ 63
    -- nanoseconds.
    pub answers-IsShut :
        (cb : CircuitBreaker F) (calls : List (Call F))
        → IsShut since seconds cb
        → AllEarly (since + seconds * 1_000_000_000) calls
        → AllDenied (answers cb calls) × IsShut since seconds (run p cb calls)
    unfolding answers run
    answers-IsShut cb [] s early = (tt, s)
    answers-IsShut cb (allowing now ∷ calls) s early =
        let e = allow-IsShut cb now early.0 s in
        let same : cb ≡ (allow_request cb now).0 = ap (λ r. r.0) (sym e) in
        let (denied, shut) = answers-IsShut cb calls s early.1 in
        (
          (ap (λ r. r.1) e, subst (λ c. AllDenied (answers c calls)) same denied),
          subst (λ c. IsShut since seconds (run p c calls)) same shut,
        )
    answers-IsShut cb (call ∷ calls) s early =
        answers-IsShut (step p cb call) calls (step-IsShut cb call early.0 s) early.1

abbrev pub AllFailures : {F : Type 0} → List (Call F) → Type 0
AllFailures [] = Unit {0}
AllFailures (failed used now ∷ calls) = AllFailures calls
AllFailures (_ ∷ calls) = ⊥

module _ {F : Type 0} (p : Platform F) where
  failure-open :
      (cb : CircuitBreaker F) (used : Bool) (now : ℕ)
      → cb.state ≡ circuit_open
      → (record_failure p cb used now).state ≡ circuit_open
  unfolding record_failure
  failure-open cb used now e = ground arith

  failure-closed :
      (cb : CircuitBreaker F) (used : Bool) (now : ℕ)
      → cb.state ≡ circuit_closed
      → let cb' = record_failure p cb used now in
        (cb'.state ≡ circuit_open)
        ⊎ ((cb'.state ≡ circuit_closed)
            × (cb'.config ≡ cb.config)
            × (cb'.consecutive_failures ≡ inc_u32 cb.consecutive_failures)
            × (cb'.consecutive_failures < cb.config.failure_threshold))
  unfolding record_failure
  failure-closed cb used now e = ground arith

  failures-open :
      (cb : CircuitBreaker F) (calls : List (Call F))
      → cb.state ≡ circuit_open
      → AllFailures calls
      → (run p cb calls).state ≡ circuit_open
  unfolding run step
  failures-open cb [] e all = e
  failures-open cb (failed used now ∷ calls) e all =
      failures-open (record_failure p cb used now) calls (failure-open cb used now e) all
  failures-open cb (call ∷ calls) e all = elim all [ ]

  -- A closed breaker to which failureThreshold failures or more are reported in a row, counting
  -- those reported before, is open at the end, whatever the error rate.
  pub run-AllFailures :
      (cb : CircuitBreaker F) (used : Bool) (now : ℕ) (calls : List (Call F))
      → cb.state ≡ circuit_closed
      → AllFailures calls
      → cb.config.failure_threshold < 4294967296
      → cb.config.failure_threshold ≤ cb.consecutive_failures + length calls + 1
      → cb.consecutive_failures < 4294967295
      → (run p cb (failed used now ∷ calls)).state ≡ circuit_open
  unfolding run step
  run-AllFailures cb used now [] e all fits enough below = elim (failure-closed cb used now e) [
    | inl opened ↦ opened
    | inr (still, same, count, short) ↦ absurd (omega arith)
  ]
  run-AllFailures cb used now (failed used' now' ∷ calls) e all fits enough below =
      elim (failure-closed cb used now e) [
        | inl opened ↦
            failures-open (record_failure p cb used now) (failed used' now' ∷ calls) opened all
        | inr (still, same, count, short) ↦
            run-AllFailures (record_failure p cb used now) used' now' calls still all (rw same fits)
              (rw same (omega arith)) (omega arith)
      ]
  run-AllFailures cb used now (call ∷ calls) e all fits enough below = elim all [ ]
