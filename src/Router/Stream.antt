-- ===== src/Router/Stream.antt =====
-- internal/backend/agent/model/router.go: the order of the candidates, one attempt, and the failover
-- loop of `Router.Stream`.
--
-- The adapters, the caller's sink, the clock, the context and what other requests do to the breakers
-- during an attempt are parameters, each indexed by the candidate's position where it may vary. What
-- `Stream` logs is left out.
use cursor_switch.Common.{
  ℕ, suc, Bool, true, false, not, Option, none, some, List, [], ◌∷◌, ◌++◌, leb, if◌then◌else◌,
  length,
}
use cursor_switch.Common.Int.{ℤ}
use cursor_switch.Common.Text.{Text, codes, trim_space, ◌==◌}
use cursor_switch.Breaker.{Platform, is_available}
use cursor_switch.Messages.{is_empty}
use cursor_switch.Router.Errors.{
  GoError, plain_error, is_retryable_channel_error, is_client_side_cancellation,
}
use cursor_switch.Router.Registry.{
  CircuitBreakerRegistry, Breakers, get, allow_request_of, record_success_of, record_failure_of,
  release_half_open_permit_of, note_failure_reason_of, last_failure_reason_of,
}
use cursor_switch.Router.Request.{ResolvedChannel, StreamRequest, apply_channel_to_request}

-- A run of `ModelAdapter.Stream`: it gives events to the sink, goes on as the sink's error bids, and
-- returns an error or nil. `none` is nil.
pub data Script (E : Type 0) : Type 0 where
  finish : Option GoError → Script E
  emit : E → (Option GoError → Script E) → Script E

pub record Environment (F E : Type 0) : Type 0 where
  pub order_time : ℕ → ℕ
  pub allow_time : ℕ → ℕ
  pub failure_time : ℕ → ℕ
  pub context_done_at_report : ℕ → Bool
  pub context_done_at_switch : ℕ → Bool
  pub anthropic : ℕ → StreamRequest → Script E
  pub openai : ℕ → StreamRequest → Script E
  pub sink : List E → E → Option GoError
  pub meanwhile : ℕ → Breakers F → Breakers F
  pub quoted : Text → Text
  pub idle_timeout : ℤ

-- The variables of the sink wrapper, and the events that the caller's sink has been given in all.
pub record Played (E : Type 0) : Type 0 where
  pub sink_started : Bool
  pub sink_err : Option GoError
  pub stream_err : Option GoError
  pub delivered : List E

-- An error replaces the one before; a later success leaves it.
abbrev pub or_else : Option GoError → Option GoError → Option GoError
or_else (some e) old = some e
or_else none old = old

unfoldable pub play :
    {E : Type 0}
    → (List E → E → Option GoError)
    → Script E
    → Bool
    → Option GoError
    → List E
    → Played E
play sink (finish err) started sink_err delivered = record {
  sink_started = started;
  sink_err = sink_err;
  stream_err = err;
  delivered = delivered;
}
play sink (emit event k) started sink_err delivered =
    let answer = sink delivered event in
    play sink (k answer) true (or_else answer sink_err) (delivered ++ event ∷ [])

-- The state of one call of `Stream`.
pub record Progress (F E : Type 0) : Type 0 where
  pub breakers : Breakers F
  pub last_err : Option GoError
  pub delivered : List E

-- How an attempt ends: the call returns, or goes on to the next candidate.
pub data Outcome (F E : Type 0) : Type 0 where
  returns : Progress F E → Outcome F E
  continues : Progress F E → Outcome F E

module _ {F E : Type 0} (p : Platform F) (env : Environment F E) (req : StreamRequest) where
  unfoldable pub skipped_error : Text → Text → GoError
  skipped_error id reason = plain_error (
      if is_empty reason
      then codes "channel " ++ env.quoted id ++ codes " circuit open"
      else codes "channel "
        ++ env.quoted id
        ++ codes " circuit open (last failure: "
        ++ reason
        ++ codes ")")

  -- The candidate's breaker does not admit the request.
  unfoldable pub skip : ℕ → ResolvedChannel → Progress F E → Outcome F E
  unfolding skipped_error
  skip index channel s = continues (record s {
    last_err = elim s.last_err [
      | some e ↦ some e
      | none ↦ some (skipped_error channel.id (last_failure_reason_of s.breakers channel.id))
    ];
  })

  -- `adapterFor` has no adapter for the provider.
  unfoldable pub unsupported : ℕ → ResolvedChannel → Text → Bool → Progress F E → Outcome F E
  unsupported index channel provider used s =
      let err = plain_error (codes "unsupported provider " ++ env.quoted provider) in
      let recorded =
        if used
        then record_failure_of p s.breakers channel.id used (env.failure_time index)
        else s.breakers in
      continues (record s {
        breakers = note_failure_reason_of recorded channel.id err.text;
        last_err = some err;
      })

  -- After a failed attempt: the report to the breaker, and the decision to switch.
  unfoldable pub failed_attempt :
      ℕ → ResolvedChannel → Bool → Bool → Option GoError → GoError → Progress F E → Outcome F E
  failed_attempt index channel used sink_started sink_err err s =
      let client = is_client_side_cancellation (env.context_done_at_report index) err in
      let counts : Bool = elim sink_err [ none ↦ not client | some e ↦ false ] in
      let reported =
        if counts
        then note_failure_reason_of
            (record_failure_of p s.breakers channel.id used (env.failure_time index)) channel.id
            err.text
        else release_half_open_permit_of s.breakers channel.id used in
      let t = record s { breakers = reported; last_err = some err } in
      if sink_started
      then returns t
      else if is_client_side_cancellation (env.context_done_at_switch index) err
      then returns t
      else if not (is_retryable_channel_error err)
      then returns t
      else continues t

  -- The adapter has run.
  unfoldable pub finished_attempt :
      ℕ
      → ResolvedChannel
      → Bool
      → Option GoError
      → Option GoError
      → Bool
      → Progress F E
      → Outcome F E
  unfolding failed_attempt
  finished_attempt index channel used none none started s =
      returns
        (record s { breakers = record_success_of p s.breakers channel.id used; last_err = none })
  finished_attempt index channel used none (some sink_err) started s =
      failed_attempt index channel used started (some sink_err) sink_err s
  finished_attempt index channel used (some err) sink_err started s =
      failed_attempt index channel used started sink_err err s

  unfoldable pub run_adapter : ℕ → ResolvedChannel → Bool → Script E → Progress F E → Outcome F E
  run_adapter index channel used script s =
      let played = play env.sink script false none s.delivered in
      finished_attempt index channel used played.stream_err played.sink_err played.sink_started
        (record s { breakers = env.meanwhile index s.breakers; delivered = played.delivered })

  unfoldable pub admitted : ℕ → ResolvedChannel → Bool → Progress F E → Outcome F E
  admitted index channel used s =
      let resolved = apply_channel_to_request req channel env.idle_timeout in
      let provider = trim_space resolved.provider in
      if provider == codes "anthropic"
      then run_adapter index channel used (env.anthropic index resolved) s
      else if provider == codes "openai"
      then run_adapter index channel used (env.openai index resolved) s
      else unsupported index channel resolved.provider used s

  -- The body of the loop over the candidates.
  unfoldable pub attempt : ℕ → ResolvedChannel → Progress F E → Outcome F E
  attempt index channel s =
      let (breakers, permit) = allow_request_of s.breakers channel.id (env.allow_time index) in
      let t = record s { breakers = breakers } in
      if permit.allowed
      then admitted index channel permit.used_half_open_permit t
      else skip index channel t

  -- When no candidate is left the last error is returned.
  unfoldable pub exhausted : Progress F E → Progress F E
  exhausted s = record s {
    last_err = elim s.last_err [
      | some e ↦ some e
      | none ↦ some (plain_error (codes "no usable channel for model " ++ env.quoted req.model_id))
    ];
  }

  unfoldable pub stream_loop : ℕ → List ResolvedChannel → Progress F E → Progress F E
  unfolding exhausted
  stream_loop index [] s = exhausted s
  stream_loop index (channel ∷ candidates) s = elim (attempt index channel s) [
    | returns t ↦ t
    | continues t ↦ stream_loop (suc index) candidates t
  ]

  -- The loop of `orderCandidates`: the registry, the available and the blocked channels.
  unfoldable pub partition_candidates :
      ℕ
      → List ResolvedChannel
      → CircuitBreakerRegistry F
      → CircuitBreakerRegistry F × List ResolvedChannel × List ResolvedChannel
  partition_candidates index [] r = (r, [], [])
  partition_candidates index (channel ∷ channels) r =
      let (r', cb) = get r channel.id in
      let (r'', available, blocked) = partition_candidates (suc index) channels r' in
      if is_available cb (env.order_time index)
      then (r'', channel ∷ available, blocked)
      else (r'', available, channel ∷ blocked)

  unfoldable pub order_candidates :
      List ResolvedChannel → Breakers F → Breakers F × List ResolvedChannel
  unfolding partition_candidates
  order_candidates channels none = (none, channels)
  order_candidates channels (some r) =
      let (r', available, blocked) = partition_candidates 0 channels r in
      if leb (length channels) 1 then (some r, channels) else (some r', available ++ blocked)

  -- `Stream` for the channels that the resolver has selected. In the result `last_err` is what the
  -- call returns.
  unfoldable pub stream : List ResolvedChannel → Breakers F → Progress F E
  unfolding stream_loop order_candidates
  stream [] breakers = record {
    breakers = breakers;
    last_err =
        some (plain_error (codes "no available channel for model " ++ env.quoted req.model_id));
    delivered = [];
  }
  stream (channel ∷ channels) breakers =
      let (ordered, candidates) = order_candidates (channel ∷ channels) breakers in
      stream_loop 0 candidates (record { breakers = ordered; last_err = none; delivered = [] })
