-- ===== src/Router/Failover.antt =====
-- When `Router.Stream` goes on to the next candidate, and when it does not.
use cursor_switch.Common.{
  ℕ, suc, ◌≡◌, ◌≢◌, refl, ◌∙◌, ◌⊎◌, inl, inr, Bool, true, false, Option, none, some, List, [], ◌∷◌,
  ◌++◌, arith,
}
use cursor_switch.Common.Text.{Text, codes, trim_space, text_eq_iff}
use cursor_switch.Breaker.{Platform}
use cursor_switch.Router.Errors.{GoError, is_retryable_channel_error, is_client_side_cancellation}
use cursor_switch.Router.Registry.{Breakers, allow_request_of}
use cursor_switch.Router.Request.{ResolvedChannel, StreamRequest, apply_channel_to_request}
use cursor_switch.Router.Stream.{
  Script, finish, emit, Environment, play, Progress, Outcome, returns, continues, run_adapter,
  finished_attempt, unsupported, skip, admitted, attempt, exhausted, stream_loop, stream,
}

module _ {E : Type 0} (sink : List E → E → Option GoError) where
  play-started :
      (script : Script E) (sink_err : Option GoError) (delivered : List E)
      → (play sink script true sink_err delivered).sink_started ≡ true
  unfolding play
  play-started (finish err) sink_err delivered = refl
  play-started (emit event k) sink_err delivered =
      play-started (k (sink delivered event)) _ (delivered ++ event ∷ [])

  -- An adapter that has not started the sink has delivered nothing.
  play_not_started :
      (script : Script E) (delivered : List E)
      → (play sink script false none delivered).sink_started ≡ false
      → ((play sink script false none delivered).delivered ≡ delivered)
        × ((play sink script false none delivered).sink_err ≡ none)
  unfolding play
  play_not_started (finish err) delivered h = (refl, refl)
  play_not_started (emit event k) delivered h =
      cc (play-started (k (sink delivered event)) _ (delivered ++ event ∷ []))

-- The error is one for which another channel may do better.
abbrev pub IsSwitchable : Bool → Option GoError → Type 0
IsSwitchable context_done none = ⊥
IsSwitchable context_done (some err) =
    (is_retryable_channel_error err ≡ true) × (err.context_error ≡ false) × (context_done ≡ false)

abbrev pub IsSupported : Text → Type 0
IsSupported provider =
    (trim_space provider ≡ codes "anthropic") ⊎ (trim_space provider ≡ codes "openai")

module _ {F E : Type 0} (p : Platform F) (env : Environment F E) (req : StreamRequest) where
  run_adapter-continues :
      (index : ℕ) (channel : ResolvedChannel) (used : Bool) (script : Script E) (s t : Progress F E)
      → run_adapter p env req index channel used script s ≡ continues t
      → (t.delivered ≡ s.delivered) × IsSwitchable (env.context_done_at_switch index) t.last_err
  unfolding run_adapter finished_attempt is_client_side_cancellation
  run_adapter-continues index channel used script s t h =
      ground (arith, play_not_started env.sink script s.delivered)

  -- The loop goes on to the next candidate only if the candidate's breaker denied the request, or its
  -- provider is unknown (an error that the comments of `Stream` call not retryable, and for which the
  -- code goes on all the same), or its adapter failed with a retryable error that is no cancellation;
  -- and in each case the sink has been given nothing.
  pub attempt-continues :
      (index : ℕ) (channel : ResolvedChannel) (s t : Progress F E)
      → attempt p env req index channel s ≡ continues t
      → (t.delivered ≡ s.delivered)
        × (((allow_request_of s.breakers channel.id (env.allow_time index)).1.allowed ≡ false)
            ⊎ (¬ IsSupported (apply_channel_to_request req channel env.idle_timeout).provider)
            ⊎ IsSwitchable (env.context_done_at_switch index) t.last_err)
  unfolding attempt skip admitted unsupported
  attempt-continues index channel s t h =
      let resolved = apply_channel_to_request req channel env.idle_timeout in
      let (breakers, permit) = allow_request_of s.breakers channel.id (env.allow_time index) in
      let admitted_s = record s { breakers = breakers } in
      ground (
        arith,
        text_eq_iff (trim_space resolved.provider) (codes "anthropic"),
        text_eq_iff (trim_space resolved.provider) (codes "openai"),
        run_adapter-continues index channel permit.used_half_open_permit
            (env.anthropic index resolved) admitted_s t,
        run_adapter-continues index channel permit.used_half_open_permit (env.openai index resolved)
            admitted_s t,
      )

  -- The final state of a run comes from one attempt, before which nothing was delivered, or no
  -- attempt delivered anything and an error is returned.
  abbrev SingleSource : Progress F E → Type 0
  SingleSource final =
      ((final.delivered ≡ []) × (final.last_err ≢ none))
      ⊎ ((index : ℕ) × (channel : ResolvedChannel) × (before : Progress F E) × (before.delivered
            ≡ [])
          × (attempt p env req index channel before ≡ returns final))

  exhausted-last_err : (s : Progress F E) → (exhausted p env req s).last_err ≢ none
  unfolding exhausted
  exhausted-last_err s h = ground arith

  stream_loop-SingleSource :
      (index : ℕ) (candidates : List ResolvedChannel) (s : Progress F E)
      → s.delivered ≡ []
      → SingleSource (stream_loop p env req index candidates s)
  unfolding stream_loop
  stream_loop-SingleSource index [] s h = inl (unfold exhausted in h, exhausted-last_err s)
  stream_loop-SingleSource index (channel ∷ candidates) s h =
      by_outcome (attempt p env req index channel s) refl (λ t e.
        stream_loop-SingleSource (suc index) candidates t
          ((attempt-continues index channel s t e).0 ∙ h))
    where
      by_outcome :
          (o : Outcome F E)
          → attempt p env req index channel s ≡ o
          → ((t : Progress F E)
              → attempt p env req index channel s ≡ continues t
              → SingleSource (stream_loop p env req (suc index) candidates t))
          → SingleSource (elim o [
            | returns t ↦ t
            | continues t ↦ stream_loop p env req (suc index) candidates t
          ])
      by_outcome (returns t) e go = inr (index, channel, s, h, e)
      by_outcome (continues t) e go = go t e

  -- In one call of `Stream` the caller's sink is given the events of at most one candidate, and no
  -- candidate is tried after it: either no event was delivered and an error is returned, or the call
  -- returns what one attempt returns, before which nothing was delivered.
  pub stream-SingleSource :
      (channels : List ResolvedChannel) (breakers : Breakers F)
      → SingleSource (stream p env req channels breakers)
  unfolding stream
  stream-SingleSource [] breakers = inl (refl, λ e. ground arith)
  stream-SingleSource (channel ∷ channels) breakers = stream_loop-SingleSource 0 _ _ refl
