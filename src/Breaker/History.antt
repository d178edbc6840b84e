-- ===== src/Breaker/History.antt =====
-- The sliding window against the whole history of results.
use cursor_switch.Common.{
  ℕ, ◌≡◌, refl, ap, ◌∙◌, Bool, true, false, not, ◌&&◌, List, [], ◌∷◌, ◌++◌, arith, if◌then◌else◌,
  last_n, last_n-append_short, last_n-append_full, length-last_n,
}
use cursor_switch.Breaker.Types.{
  CircuitState, circuit_closed, Platform, CircuitBreakerConfig, CircuitBreaker,
  circuit_breaker_recent_window_size, new_circuit_breaker, update_config,
}
use cursor_switch.Breaker.Gate.{
  transition_to_closed, allow_request, release_half_open_permit, note_failure_reason, reset,
}
use cursor_switch.Breaker.Outcome.{window_of, pushed, record_success, record_failure}
use cursor_switch.Breaker.Calls.{
  Call, allowing, succeeded, failed, released, noted, configured, resetting, step, run,
}
use cursor_switch.Breaker.Invariant.{
  failures, IsWindow, IsValid, make_room, results-pushed, step-IsValid, run-IsValid,
}

abbrev pub is_closed : CircuitState → Bool
is_closed circuit_closed = true
is_closed _ = false

-- The results reported since the breaker was last closed, the oldest first: `was` and `is` are the
-- states before and after the call.
abbrev pub noted_history :
    {F : Type 0} → Call F → CircuitState → CircuitState → List Bool → List Bool
noted_history (succeeded used) was is h =
    if is_closed is && not (is_closed was) then [] else h ++ true ∷ []
noted_history (failed used now) was is h = h ++ false ∷ []
noted_history resetting was is h = []
noted_history _ was is h = h

make_room-last_n :
    (h : List Bool) (x : Bool)
    → make_room (last_n circuit_breaker_recent_window_size h) ++ x ∷ []
      ≡ last_n circuit_breaker_recent_window_size (h ++ x ∷ [])
make_room-last_n h x =
    ground (arith, last_n-append_full 50 h x, last_n-append_short 50 h x, length-last_n 50 h)

module _ {F : Type 0} (p : Platform F) where
  -- The history of a run that starts with the history h.
  pub history : CircuitBreaker F → List Bool → List (Call F) → List Bool
  history cb h [] = h
  history cb h (call ∷ calls) =
      let cb' = step p cb call in history cb' (noted_history call cb.state cb'.state h) calls

  abbrev Tracks : CircuitBreaker F → List Bool → Type 0
  Tracks cb h = cb.recent_results ≡ last_n circuit_breaker_recent_window_size h

  Tracks-allow_request :
      (cb : CircuitBreaker F) (now : ℕ)
      → (allow_request cb now).0.recent_results ≡ cb.recent_results
  unfolding allow_request
  Tracks-allow_request cb now = ground arith

  module _ (cb : CircuitBreaker F) (h : List Bool) (v : IsWindow (window_of cb))
      (t : Tracks cb h) where
    pushed-Tracks :
        (bad : Bool)
        → (pushed p (window_of cb) bad).results
          ≡ last_n circuit_breaker_recent_window_size (h ++ not bad ∷ [])
    pushed-Tracks bad =
        results-pushed p (window_of cb) bad v
        ∙ ap (λ r. make_room r ++ not bad ∷ []) t
        ∙ make_room-last_n h (not bad)

    record_success-Tracks :
        (used : Bool)
        → let call : Call F = succeeded used in
          Tracks
            (record_success p cb used)
            (noted_history call cb.state (record_success p cb used).state h)
    unfolding record_success
    record_success-Tracks used = ground (arith, pushed-Tracks false)

    record_failure-Tracks :
        (used : Bool) (now : ℕ) → Tracks (record_failure p cb used now) (h ++ false ∷ [])
    unfolding record_failure
    record_failure-Tracks used now = ground (arith, pushed-Tracks true)

    step-Tracks :
        (call : Call F)
        → Tracks (step p cb call) (noted_history call cb.state (step p cb call).state h)
    unfolding step update_config reset transition_to_closed release_half_open_permit
        note_failure_reason
    step-Tracks (allowing now) = Tracks-allow_request cb now ∙ t
    step-Tracks (succeeded used) = record_success-Tracks used
    step-Tracks (failed used now) = record_failure-Tracks used now
    step-Tracks (released used) = ground arith
    step-Tracks (noted reason) = ground arith
    step-Tracks (configured config) = t
    step-Tracks resetting = refl

  run-Tracks :
      (cb : CircuitBreaker F) (h : List Bool) (calls : List (Call F))
      → IsValid cb
      → Tracks cb h
      → Tracks (run p cb calls) (history cb h calls)
  unfolding run history
  run-Tracks cb h [] v t = t
  run-Tracks cb h (call ∷ calls) v t =
      run-Tracks (step p cb call) (noted_history call cb.state (step p cb call).state h) calls
        (step-IsValid p cb call v) (step-Tracks cb h v.window t call)

  -- After any calls of a new breaker's methods the window is the last 50 results reported since the
  -- breaker was last closed, and windowFailed is the number of failures among them.
  pub window-history :
      (config : CircuitBreakerConfig F) (calls : List (Call F))
      → let cb = new_circuit_breaker config in
        let recent = last_n circuit_breaker_recent_window_size (history cb [] calls) in
        ((run p cb calls).recent_results ≡ recent)
        × ((run p cb calls).window_failed ≡ failures recent)
  unfolding new_circuit_breaker
  window-history config calls =
      let tracks = run-Tracks (new_circuit_breaker config) [] calls (ground arith) refl in
      (tracks, (run-IsValid p config calls).window.counted ∙ ap failures tracks)
