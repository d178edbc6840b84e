-- ===== src/Router/Order.antt =====
-- The order in which `Router.Stream` tries the candidates.
use mathlib.Core.List.{Perm, perm_middle, append-nil}
use mathlib.Core.List.Perm
use mathlib.Core.Path.{fun_ext}
use cursor_switch.Common.{
  ℕ, suc, ◌≤◌, ◌≡◌, refl, sym, ap, ◌∙◌, inl, inr, Bool, true, false, Option, none, some, List, [],
  ◌∷◌, ◌++◌, arith, if◌then◌else◌, Bool-cases, length, leb,
}
use cursor_switch.Common.Text.{Text}
use cursor_switch.Breaker.{Platform, CircuitBreaker, is_available}
use cursor_switch.Breaker.Diagram.{max_timeout_seconds}
use cursor_switch.Breaker.Due.{is_due, is_available_lem}
use cursor_switch.Router.Registry.{CircuitBreakerRegistry, Breakers, breaker_of, store_breaker, get}
use cursor_switch.Router.Request.{ResolvedChannel, StreamRequest}
use cursor_switch.Router.Stream.{Environment, partition_candidates, order_candidates}
use cursor_switch.Router.InFlight.{breaker_of-store_breaker, breaker_of_same}

module _ {F : Type 0} where
  -- The channels, in their order, for which `is_due` is `want` of the breaker at its time. Without
  -- breakers each channel is due.
  pub chosen :
      Bool
      → Option (Text → CircuitBreaker F)
      → (ℕ → ℕ)
      → ℕ
      → List ResolvedChannel
      → List ResolvedChannel
  chosen true none time index channels = channels
  chosen false none time index channels = []
  chosen want (some view) time index [] = []
  chosen true (some view) time index (channel ∷ channels) =
      let rest = chosen true (some view) time (suc index) channels in
      if is_due (view channel.id) (time index) then channel ∷ rest else rest
  chosen false (some view) time index (channel ∷ channels) =
      let rest = chosen false (some view) time (suc index) channels in
      if is_due (view channel.id) (time index) then rest else channel ∷ rest

  get-breaker_of :
      (r : CircuitBreakerRegistry F) (id : Text) → breaker_of (get r id).0 ≡ breaker_of r
  unfolding get
  get-breaker_of r id = fun_ext (λ j.
      ground (arith, breaker_of-store_breaker r id j (breaker_of r id), breaker_of_same r id j))

  chosen-perm :
      (view : Text → CircuitBreaker F) (time : ℕ → ℕ) (index : ℕ) (channels : List ResolvedChannel)
      → Perm
          (chosen true (some view) time index channels
            ++ chosen false (some view) time index channels)
          channels
  unfolding chosen
  chosen-perm view time index [] = Perm.refl []
  chosen-perm view time index (channel ∷ channels) =
      let ih = chosen-perm view time (suc index) channels in
      elim (Bool-cases (is_due (view channel.id) (time index))) [
        | inl open_ ↦ rw open_ (Perm.cons channel ih)
        | inr shut ↦ rw shut (
            Perm.trans
              (perm_middle {a = channel} (chosen true (some view) time (suc index) channels)
                (chosen false (some view) time (suc index) channels))
              (Perm.cons channel ih))
      ]

  -- With one channel, or none, the two groups are the selection itself.
  chosen_short :
      (view : Text → CircuitBreaker F) (time : ℕ → ℕ) (channels : List ResolvedChannel)
      → length channels ≤ 1
      → chosen true (some view) time 0 channels ++ chosen false (some view) time 0 channels
        ≡ channels
  unfolding chosen
  chosen_short view time [] short = refl
  chosen_short view time (channel ∷ []) short = ground arith
  chosen_short view time (a ∷ b ∷ channels) short = absurd (omega arith)

-- What the router's breakers show of each id; `none` without breakers.
abbrev pub shown : {F : Type 0} → Breakers F → Option (Text → CircuitBreaker F)
shown none = none
shown (some r) = some (breaker_of r)

-- Each breaker that is shown has a timeout whose nanoseconds are an int64.
abbrev pub HaveTimeouts : {F : Type 0} → Option (Text → CircuitBreaker F) → Type 0
HaveTimeouts none = Unit
HaveTimeouts (some view) = (id : Text) → (view id).config.timeout_seconds ≤ max_timeout_seconds

module _ {F E : Type 0} (p : Platform F) (env : Environment F E) (req : StreamRequest) where
  partition-shown :
      (index : ℕ) (channels : List ResolvedChannel) (r : CircuitBreakerRegistry F)
      → breaker_of (partition_candidates p env req index channels r).0 ≡ breaker_of r
  unfolding partition_candidates
  partition-shown index [] r = refl
  partition-shown index (channel ∷ channels) r =
      let (r', cb) = get r channel.id in
      elim (Bool-cases (is_available cb (env.order_time index))) [
        | inl open_ ↦
            rw open_ (partition-shown (suc index) channels r' ∙ get-breaker_of r channel.id)
        | inr shut ↦ rw shut (partition-shown (suc index) channels r' ∙ get-breaker_of r channel.id)
      ]

  -- No breaker changes.
  pub order_candidates-shown :
      (channels : List ResolvedChannel) (breakers : Breakers F)
      → shown (order_candidates p env req channels breakers).0 ≡ shown breakers
  unfolding order_candidates
  order_candidates-shown channels none = refl
  order_candidates-shown channels (some r) = elim (Bool-cases (leb (length channels) 1)) [
    | inl short ↦ rw short refl
    | inr long ↦ rw long (ap some (partition-shown 0 channels r))
  ]

  partition-chosen :
      (index : ℕ) (channels : List ResolvedChannel) (r : CircuitBreakerRegistry F)
      → HaveTimeouts (some (breaker_of r))
      → let (r', available, blocked) = partition_candidates p env req index channels r in
        (available ≡ chosen true (some (breaker_of r)) env.order_time index channels)
        × (blocked ≡ chosen false (some (breaker_of r)) env.order_time index channels)
  unfolding partition_candidates chosen get
  partition-chosen index [] r small = (refl, refl)
  partition-chosen index (channel ∷ channels) r small =
      let r' = store_breaker r channel.id (breaker_of r channel.id) in
      let same : breaker_of r' ≡ breaker_of r = get-breaker_of r channel.id in
      let small' : HaveTimeouts (some (breaker_of r')) = rw same small in
      let (available, blocked) = partition-chosen (suc index) channels r' small' in
      let available' = rw same at available in
      let blocked' = rw same at blocked in
      let test =
        is_available_lem (breaker_of r channel.id) (env.order_time index) (small channel.id) in
      elim (Bool-cases (is_due (breaker_of r channel.id) (env.order_time index))) [
        | inl open_ ↦ rw (test, open_) (ap (◌∷◌ channel) available', blocked')
        | inr shut ↦ rw (test, shut) (available', ap (◌∷◌ channel) blocked')
      ]

  -- The candidates are the selected channels in another order, and no breaker changes: first those
  -- whose breaker is closed or half-open, or has been open for at least its timeout (or without a time
  -- of opening), then the others, both groups in the order of the selection. Without breakers the order
  -- is that of the selection. The timeouts are below 2 ^ 63 nanoseconds. A half-open breaker counts
  -- whether or not its probe is in flight.
  pub order_candidates_lem :
      (channels : List ResolvedChannel) (breakers : Breakers F)
      → HaveTimeouts (shown breakers)
      → let (ordered, candidates) = order_candidates p env req channels breakers in
        (shown ordered ≡ shown breakers)
        × Perm candidates channels
        × (candidates
            ≡ chosen true (shown breakers) env.order_time 0 channels
              ++ chosen false (shown breakers) env.order_time 0 channels)
  unfolding order_candidates chosen
  order_candidates_lem channels none small = (refl, Perm.refl channels, sym (append-nil channels))
  order_candidates_lem channels (some r) small =
      let (available, blocked) = partition-chosen 0 channels r small in
      elim (Bool-cases (leb (length channels) 1)) [
        | inl short ↦ rw short (
          refl,
          Perm.refl channels,
          sym (chosen_short (breaker_of r) env.order_time channels (ground arith)),
        )
        | inr long ↦
            rw (long, available, blocked)
              (
                ap some (partition-shown 0 channels r),
                chosen-perm (breaker_of r) env.order_time 0 channels,
                refl,
              )
      ]
