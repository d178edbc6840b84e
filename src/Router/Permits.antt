-- ===== src/Router/Permits.antt =====
-- No half-open permit is lost in a call of `Router.Stream`.
use cursor_switch.Common.{
  ℕ, suc, ◌-◌, ◌≡◌, refl, sym, ap, ◌∙◌, Bool, Option, none, some, List, [], ◌∷◌, arith,
}
use cursor_switch.Common.Text.{Text}
use cursor_switch.Breaker.{Platform, CircuitBreaker}
use cursor_switch.Router.Errors.{GoError}
use cursor_switch.Router.Registry.{
  Breakers, allow_request_of, record_failure_of, note_failure_reason_of,
}
use cursor_switch.Router.Request.{ResolvedChannel, StreamRequest, apply_channel_to_request}
use cursor_switch.Router.Stream.{
  Script, Environment, Progress, Outcome, returns, continues, skip, unsupported, finished_attempt,
  run_adapter, admitted, attempt, stream_loop, exhausted, order_candidates, stream,
}
use cursor_switch.Router.Order.{shown, order_candidates-shown}
use cursor_switch.Router.InFlight.{
  in_flight_of, permit_of, allow_request_of-denied, allow_request_of-in_flight,
  release_half_open_permit_of-in_flight, note_failure_reason_of-in_flight,
  record_success_of-in_flight, record_failure_of-in_flight,
}

abbrev progress_of : {F E : Type 0} → Outcome F E → Progress F E
progress_of (returns t) = t
progress_of (continues t) = t

module _ {F E : Type 0} (p : Platform F) (env : Environment F E) (req : StreamRequest) where
  module _ (index : ℕ) (channel : ResolvedChannel) (j : Text) (used : Bool) where
    reported_failure :
        (b : Breakers F) (reason : Text)
        → in_flight_of
            (note_failure_reason_of
              (record_failure_of p b channel.id used (env.failure_time index))
              channel.id
              reason)
            j
          ≡ in_flight_of b j - permit_of channel.id j used
    reported_failure b reason =
        note_failure_reason_of-in_flight _ channel.id j reason
        ∙ record_failure_of-in_flight p b channel.id j used (env.failure_time index)

    finished-in_flight :
        (stream_err sink_err : Option GoError) (started : Bool) (s : Progress F E)
        → in_flight_of
            (progress_of (
              finished_attempt p env req index channel used stream_err sink_err started s)).breakers
            j
          ≡ in_flight_of s.breakers j - permit_of channel.id j used
    unfolding finished_attempt
    finished-in_flight none none started s =
        record_success_of-in_flight p s.breakers channel.id j used
    finished-in_flight none (some err) started s = ground (
      arith,
      reported_failure s.breakers err.text,
      release_half_open_permit_of-in_flight s.breakers channel.id j used,
    )
    finished-in_flight (some err) sink_err started s = ground (
      arith,
      reported_failure s.breakers err.text,
      release_half_open_permit_of-in_flight s.breakers channel.id j used,
    )

    unsupported-in_flight :
        (provider : Text) (s : Progress F E)
        → in_flight_of
            (progress_of (unsupported p env req index channel provider used s)).breakers
            j
          ≡ in_flight_of s.breakers j - permit_of channel.id j used
    unfolding unsupported
    unsupported-in_flight provider s =
        note_failure_reason_of-in_flight _ channel.id j _
        ∙ ground (
          arith,
          record_failure_of-in_flight p s.breakers channel.id j used (env.failure_time index),
        )

  -- No other request touches the breakers while an adapter runs.
  abbrev pub IsAlone : Type 0
  IsAlone = (index : ℕ) (b : Breakers F) → env.meanwhile index b ≡ b

  run_adapter-in_flight :
      (index : ℕ) (channel : ResolvedChannel) (j : Text) (used : Bool) (script : Script E)
      (s : Progress F E)
      → IsAlone
      → in_flight_of (progress_of (run_adapter p env req index channel used script s)).breakers j
        ≡ in_flight_of s.breakers j - permit_of channel.id j used
  unfolding run_adapter
  run_adapter-in_flight index channel j used script s alone =
      finished-in_flight index channel j used _ _ _ _
      ∙ ap (λ b. in_flight_of b j - permit_of channel.id j used) (alone index s.breakers)

  admitted-in_flight :
      (index : ℕ) (channel : ResolvedChannel) (j : Text) (used : Bool) (s : Progress F E)
      → IsAlone
      → in_flight_of (progress_of (admitted p env req index channel used s)).breakers j
        ≡ in_flight_of s.breakers j - permit_of channel.id j used
  unfolding admitted
  admitted-in_flight index channel j used s alone =
      let resolved = apply_channel_to_request req channel env.idle_timeout in
      ground (
        arith,
        run_adapter-in_flight index channel j used (env.anthropic index resolved) s alone,
        run_adapter-in_flight index channel j used (env.openai index resolved) s alone,
        unsupported-in_flight index channel j used resolved.provider s,
      )

  attempt-in_flight :
      (index : ℕ) (channel : ResolvedChannel) (j : Text) (s : Progress F E)
      → IsAlone
      → in_flight_of s.breakers channel.id ≡ 0
      → in_flight_of s.breakers j ≡ 0
      → in_flight_of (progress_of (attempt p env req index channel s)).breakers j ≡ 0
  unfolding attempt skip
  attempt-in_flight index channel j s alone h k =
      let now = env.allow_time index in
      let (breakers, permit) = allow_request_of s.breakers channel.id now in
      let t = record s { breakers = breakers } in
      ground (
        arith,
        allow_request_of-in_flight s.breakers channel.id j now h k,
        allow_request_of-denied s.breakers channel.id now,
        admitted-in_flight index channel j permit.used_half_open_permit t alone,
      )

  stream_loop-in_flight :
      (index : ℕ) (candidates : List ResolvedChannel) (s : Progress F E)
      → IsAlone
      → ((j : Text) → in_flight_of s.breakers j ≡ 0)
      → (j : Text) → in_flight_of (stream_loop p env req index candidates s).breakers j ≡ 0
  unfolding stream_loop exhausted
  stream_loop-in_flight index [] s alone h j = h j
  stream_loop-in_flight index (channel ∷ candidates) s alone h j =
      by_outcome (attempt p env req index channel s)
        (λ k. attempt-in_flight index channel k s alone (h channel.id) (h k))
        (λ t free. stream_loop-in_flight (suc index) candidates t alone free j)
    where
      by_outcome :
          (o : Outcome F E)
          → ((k : Text) → in_flight_of (progress_of o).breakers k ≡ 0)
          → ((t : Progress F E)
              → ((k : Text) → in_flight_of t.breakers k ≡ 0)
              → in_flight_of (stream_loop p env req (suc index) candidates t).breakers j ≡ 0)
          → let final : Progress F E = elim o [
            | returns t ↦ t
            | continues t ↦ stream_loop p env req (suc index) candidates t
          ] in
            in_flight_of final.breakers j ≡ 0
      by_outcome (returns t) free go = free j
      by_outcome (continues t) free go = go t free

  in_flight-shown :
      (b c : Breakers F) (j : Text) → shown b ≡ shown c → in_flight_of b j ≡ in_flight_of c j
  unfolding in_flight_of
  in_flight-shown b c j h = sym (counted b) ∙ ap count h ∙ counted c
    where
      count : Option (Text → CircuitBreaker F) → ℕ
      count none = 0
      count (some view) = (view j).half_open_in_flight

      counted : (d : Breakers F) → count (shown d) ≡ in_flight_of d j
      counted none = refl
      counted (some r) = refl

  order_candidates-in_flight :
      (channels : List ResolvedChannel) (b : Breakers F) (j : Text)
      → in_flight_of (order_candidates p env req channels b).0 j ≡ in_flight_of b j
  order_candidates-in_flight channels b j =
      in_flight-shown _ b j (order_candidates-shown p env req channels b)

  -- When no breaker counts a half-open permit before a call of `Stream`, and no other request touches
  -- the breakers during it, no breaker counts one after it: every permit taken for an attempt is
  -- given back, whatever the attempt's end.
  pub stream-in_flight :
      (channels : List ResolvedChannel) (b : Breakers F)
      → IsAlone
      → ((j : Text) → in_flight_of b j ≡ 0)
      → (j : Text) → in_flight_of (stream p env req channels b).breakers j ≡ 0
  unfolding stream
  stream-in_flight [] b alone h j = h j
  stream-in_flight (channel ∷ channels) b alone h j =
      stream_loop-in_flight 0 _ _ alone
        (λ k. order_candidates-in_flight (channel ∷ channels) b k ∙ h k) j
