-- ===== src/Router/InFlight.antt =====
-- The half-open permits that the registry's breakers count, under each operation of the router.
use cursor_switch.Common.{
  ℕ, ◌-◌, ◌≡◌, refl, Bool, true, false, ◌&&◌, none, some, arith, if◌then◌else◌,
}
use cursor_switch.Common.Text.{Text, ◌==◌, text_eq_iff}
use cursor_switch.Common.StringMap.{lookup-insert}
use cursor_switch.Breaker.{
  Platform, CircuitBreaker, allow_request, record_success, record_failure, release_half_open_permit,
  note_failure_reason,
}
use cursor_switch.Router.Registry.{
  CircuitBreakerRegistry, Breakers, normalize_adapter_key, breaker_of, store_breaker,
  allow_request_of, record_success_of, record_failure_of, release_half_open_permit_of,
  note_failure_reason_of,
}

-- What the permit of `id` adds to the count of `j`.
abbrev pub permit_of : Text → Text → Bool → ℕ
permit_of id j used = if normalize_adapter_key id == normalize_adapter_key j && used then 1 else 0

module _ {F : Type 0} where
  pub breaker_of-store_breaker :
      (r : CircuitBreakerRegistry F) (id j : Text) (cb : CircuitBreaker F)
      → breaker_of (store_breaker r id cb) j
        ≡ (if normalize_adapter_key id == normalize_adapter_key j then cb else breaker_of r j)
  unfolding breaker_of store_breaker
  breaker_of-store_breaker r id j cb =
      ground
        (arith, lookup-insert (normalize_adapter_key id) (normalize_adapter_key j) cb r.breakers)

  pub breaker_of_same :
      (r : CircuitBreakerRegistry F) (id j : Text)
      → (normalize_adapter_key id == normalize_adapter_key j) ≡ true
      → breaker_of r id ≡ breaker_of r j
  unfolding breaker_of
  breaker_of_same r id j h =
      ground (arith, text_eq_iff (normalize_adapter_key id) (normalize_adapter_key j))

  -- The permits that the breaker of an id counts; 0 where the router has no breakers.
  unfoldable pub in_flight_of : Breakers F → Text → ℕ
  in_flight_of none j = 0
  in_flight_of (some r) j = (breaker_of r j).half_open_in_flight

  allow-in_flight :
      (cb : CircuitBreaker F) (now : ℕ)
      → cb.half_open_in_flight ≡ 0
      → (allow_request cb now).0.half_open_in_flight
        ≡ (if (allow_request cb now).1.used_half_open_permit then 1 else 0)
  unfolding allow_request
  allow-in_flight cb now h = ground arith

  pub allow_request_of-in_flight :
      (b : Breakers F) (id j : Text) (now : ℕ)
      → in_flight_of b id ≡ 0
      → in_flight_of b j ≡ 0
      → in_flight_of (allow_request_of b id now).0 j
        ≡ permit_of id j (allow_request_of b id now).1.used_half_open_permit
  unfolding allow_request_of in_flight_of
  allow_request_of-in_flight none id j now h k = ground arith
  allow_request_of-in_flight (some r) id j now h k = ground (
    arith,
    allow-in_flight (breaker_of r id) now,
    breaker_of-store_breaker r id j (allow_request (breaker_of r id) now).0,
  )

  -- A request that is denied holds no permit.
  pub allow_request_of-denied :
      (b : Breakers F) (id : Text) (now : ℕ)
      → (allow_request_of b id now).1.allowed ≡ false
      → (allow_request_of b id now).1.used_half_open_permit ≡ false
  unfolding allow_request_of allow_request
  allow_request_of-denied none id now h = cc
  allow_request_of-denied (some r) id now h = ground arith

  pub release_half_open_permit_of-in_flight :
      (b : Breakers F) (id j : Text) (used : Bool)
      → in_flight_of (release_half_open_permit_of b id used) j
        ≡ in_flight_of b j - permit_of id j used
  unfolding release_half_open_permit_of in_flight_of release_half_open_permit
  release_half_open_permit_of-in_flight none id j used = ground arith
  release_half_open_permit_of-in_flight (some r) id j used = ground (
    arith,
    breaker_of_same r id j,
    breaker_of-store_breaker r id j (release_half_open_permit (breaker_of r id) used),
  )

  pub note_failure_reason_of-in_flight :
      (b : Breakers F) (id j reason : Text)
      → in_flight_of (note_failure_reason_of b id reason) j ≡ in_flight_of b j
  unfolding note_failure_reason_of in_flight_of note_failure_reason
  note_failure_reason_of-in_flight none id j reason = refl
  note_failure_reason_of-in_flight (some r) id j reason = ground (
    arith,
    breaker_of_same r id j,
    breaker_of-store_breaker r id j (note_failure_reason (breaker_of r id) reason),
  )

module _ {F : Type 0} (p : Platform F) where
  success-in_flight :
      (cb : CircuitBreaker F) (used : Bool)
      → (record_success p cb used).half_open_in_flight
        ≡ cb.half_open_in_flight - (if used then 1 else 0)
  unfolding record_success
  success-in_flight cb used = ground arith

  failure-in_flight :
      (cb : CircuitBreaker F) (used : Bool) (now : ℕ)
      → (record_failure p cb used now).half_open_in_flight
        ≡ cb.half_open_in_flight - (if used then 1 else 0)
  unfolding record_failure
  failure-in_flight cb used now = ground arith

  pub record_success_of-in_flight :
      (b : Breakers F) (id j : Text) (used : Bool)
      → in_flight_of (record_success_of p b id used) j ≡ in_flight_of b j - permit_of id j used
  unfolding record_success_of in_flight_of
  record_success_of-in_flight none id j used = ground arith
  record_success_of-in_flight (some r) id j used = ground (
    arith,
    breaker_of_same r id j,
    success-in_flight (breaker_of r id) used,
    breaker_of-store_breaker r id j (record_success p (breaker_of r id) used),
  )

  pub record_failure_of-in_flight :
      (b : Breakers F) (id j : Text) (used : Bool) (now : ℕ)
      → in_flight_of (record_failure_of p b id used now) j ≡ in_flight_of b j - permit_of id j used
  unfolding record_failure_of in_flight_of
  record_failure_of-in_flight none id j used now = ground arith
  record_failure_of-in_flight (some r) id j used now = ground (
    arith,
    breaker_of_same r id j,
    failure-in_flight (breaker_of r id) used now,
    breaker_of-store_breaker r id j (record_failure p (breaker_of r id) used now),
  )
