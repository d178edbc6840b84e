-- ===== src/Breaker/Probe.antt =====
-- The half-open permit: what it limits, how a probing breaker recovers, and where the limit fails.
use mathlib.Core.Path.{subst}
use cursor_switch.Common.{
  ℕ, ◌+◌, ◌*◌, ◌≤◌, ◌<◌, ◌≡◌, sym, ap, ◌⊎◌, inl, inr, true, false, some, List, [], ◌∷◌, arith,
  length, inc_u32,
}
use cursor_switch.Breaker.Types.{
  CircuitState, circuit_closed, circuit_open, circuit_half_open, Platform, CircuitBreaker,
  AllowResult, deny, allow_probe,
}
use cursor_switch.Breaker.Gate.{allow_request, release_half_open_permit, note_failure_reason}
use cursor_switch.Breaker.Outcome.{record_success, record_failure}
use cursor_switch.Breaker.Calls.{Call, allowing, succeeded, failed, released, noted, step, run}
use cursor_switch.Breaker.Diagram.{max_timeout_seconds, elapsed_lem}
use cursor_switch.Breaker.Timing.{answers, AllDenied}

-- Only requests for admission, and notes of a reason.
abbrev pub IsWaiting : {F : Type 0} → List (Call F) → Type 0
IsWaiting [] = Unit {0}
IsWaiting (allowing now ∷ calls) = IsWaiting calls
IsWaiting (noted reason ∷ calls) = IsWaiting calls
IsWaiting (_ ∷ calls) = ⊥

-- As many rounds of a probe that is admitted and reported as a success.
abbrev pub good_probes : {F : Type 0} → List ℕ → List (Call F)
good_probes [] = []
good_probes (now ∷ times) = allowing now ∷ succeeded true ∷ good_probes times

abbrev pub AllProbes : List AllowResult → Type 0
AllProbes [] = Unit
AllProbes (r ∷ rs) = (r ≡ allow_probe) × AllProbes rs

module _ {F : Type 0} (p : Platform F) where
  record IsProbing (cb : CircuitBreaker F) : Type 0 where
    half_open : cb.state ≡ circuit_half_open
    in_flight : cb.half_open_in_flight ≡ 1

  probing-denied :
      (cb : CircuitBreaker F) (now : ℕ) → IsProbing cb → allow_request cb now ≡ (cb, deny)
  unfolding allow_request
  probing-denied cb now b = ground arith

  waiting-denied :
      (cb : CircuitBreaker F) (calls : List (Call F))
      → IsProbing cb
      → IsWaiting calls
      → AllDenied (answers p cb calls)
  unfolding answers step note_failure_reason
  waiting-denied cb [] b w = tt
  waiting-denied cb (allowing now ∷ calls) b w =
      let e = probing-denied cb now b in
      (
        ap (λ r. r.1) e,
        subst (λ c. AllDenied (answers p c calls)) (ap (λ r. r.0) (sym e))
            (waiting-denied cb calls b w),
      )
  waiting-denied cb (noted reason ∷ calls) b w =
      waiting-denied (note_failure_reason cb reason) calls (ground arith) w
  waiting-denied cb (call ∷ calls) b w = elim w [ ]

  -- A half-open breaker with no probe in flight, or an open one whose timeout has passed.
  abbrev IsReady : CircuitBreaker F → ℕ → Type 0
  IsReady cb now =
      ((cb.state ≡ circuit_half_open) × (cb.half_open_in_flight ≡ 0))
      ⊎ ((cb.state ≡ circuit_open)
          × (cb.config.timeout_seconds ≤ max_timeout_seconds)
          × ((since : ℕ) × (cb.last_opened_at ≡ some since)
              × (since + cb.config.timeout_seconds * 1_000_000_000 ≤ now)))

  ready-probe :
      (cb : CircuitBreaker F) (now : ℕ)
      → IsReady cb now
      → ((allow_request cb now).1 ≡ allow_probe) × IsProbing (allow_request cb now).0
  unfolding allow_request
  ready-probe cb now ready = grind (arith, elapsed_lem)

  -- A half-open breaker with no probe in flight, and an open one whose timeout has passed, admit
  -- the next request as a probe with the permit, and deny every further request as long as only
  -- requests and notes of a reason follow.
  pub single_probe :
      (cb : CircuitBreaker F) (now : ℕ) (calls : List (Call F))
      → IsReady cb now
      → IsWaiting calls
      → ((allow_request cb now).1 ≡ allow_probe)
        × AllDenied (answers p (allow_request cb now).0 calls)
  single_probe cb now calls ready w =
      let (granted, probing) = ready-probe cb now ready in
      (granted, waiting-denied (allow_request cb now).0 calls probing w)

  -- A failure that is reported late, by a request admitted before the breaker opened, reopens a
  -- half-open breaker whose probe is still in flight. After the timeout a second probe is admitted,
  -- and the first one's return of its permit makes room for a third while the second is in flight.
  pub late_failure-probes :
      (cb : CircuitBreaker F) (failed_at second third : ℕ)
      → cb.state ≡ circuit_half_open
      → cb.half_open_in_flight ≡ 1
      → cb.config.timeout_seconds ≤ max_timeout_seconds
      → failed_at + cb.config.timeout_seconds * 1_000_000_000 ≤ second
      → answers p cb
          (failed false failed_at ∷ allowing second ∷ released true ∷ allowing third ∷ [])
        ≡ allow_probe ∷ allow_probe ∷ []
  unfolding answers step record_failure allow_request release_half_open_permit
  late_failure-probes cb failed_at second third h b small late =
      ground (arith, elapsed_lem cb.config.timeout_seconds failed_at second)

  good_probe :
      (cb : CircuitBreaker F) (now : ℕ)
      → IsProbing cb
      → let cb' = record_success p cb true in
        (cb'.half_open_in_flight ≡ 0)
        × (cb'.config ≡ cb.config)
        × (((cb'.state ≡ circuit_closed)
              × (cb.config.success_threshold ≤ inc_u32 cb.consecutive_successes))
            ⊎ ((cb'.state ≡ circuit_half_open)
                × (cb'.consecutive_successes ≡ inc_u32 cb.consecutive_successes)
                × (inc_u32 cb.consecutive_successes < cb.config.success_threshold)))
  unfolding record_success
  good_probe cb now b = ground arith

  ready-counts :
      (cb : CircuitBreaker F) (now : ℕ)
      → IsReady cb now
      → ((allow_request cb now).0.config ≡ cb.config)
        × ((cb.state ≡ circuit_half_open)
            → (allow_request cb now).0.consecutive_successes ≡ cb.consecutive_successes)
        × ((cb.state ≡ circuit_open) → (allow_request cb now).0.consecutive_successes ≡ 0)
  unfolding allow_request
  ready-counts cb now ready = grind (arith, elapsed_lem)

  -- The successes that count towards closing when the next probe is admitted.
  abbrev counted_successes : CircuitState → ℕ → ℕ
  counted_successes circuit_half_open n = n
  counted_successes _ n = 0

  probe_round :
      (cb : CircuitBreaker F) (now : ℕ)
      → IsReady cb now
      → let cb' = record_success p (allow_request cb now).0 true in
        let n = inc_u32 (counted_successes cb.state cb.consecutive_successes) in
        (cb'.half_open_in_flight ≡ 0)
        × (cb'.config ≡ cb.config)
        × (((cb'.state ≡ circuit_closed) × (cb.config.success_threshold ≤ n))
            ⊎ ((cb'.state ≡ circuit_half_open)
                × (cb'.consecutive_successes ≡ n)
                × (n < cb.config.success_threshold)))
  probe_round cb now ready = ground (
    arith,
    ready-counts cb now ready,
    good_probe (allow_request cb now).0 now (ready-probe cb now ready).1,
  )

  -- From a breaker that is ready to probe, as many probes as it lacks successes, each reported as a
  -- success, are all admitted with the permit, and the breaker is closed after the last.
  pub probes-close :
      (cb : CircuitBreaker F) (now : ℕ) (times : List ℕ)
      → IsReady cb now
      → counted_successes cb.state cb.consecutive_successes + length times + 1
        ≡ cb.config.success_threshold
      → cb.config.success_threshold < 4294967296
      → let cb' = run p cb (good_probes (now ∷ times)) in
        AllProbes (answers p cb (good_probes (now ∷ times))) × (cb'.state ≡ circuit_closed)
  unfolding run step answers
  probes-close cb now [] ready count fits =
      ground (arith, ready-probe cb now ready, probe_round cb now ready)
  probes-close cb now (later ∷ times) ready count fits =
      let cb' = record_success p (allow_request cb now).0 true in
      let (free, same, moved) = probe_round cb now ready in
      elim moved [
        | inl (closed, enough) ↦ absurd (omega arith)
        | inr (still, counted, _) ↦
            let (granted, closed) =
              probes-close cb' later times (inl (still, free)) (rw (still, same) (omega arith))
                (rw same fits) in
            (((ready-probe cb now ready).0, granted), closed)
      ]
