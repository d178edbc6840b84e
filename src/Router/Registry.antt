-- ===== src/Router/Registry.antt =====
-- internal/backend/agent/model/circuit_breaker.go: the registry, one breaker for each adapter id; and
-- router.go: the interface through which the router uses it.
--
-- `Get` returns a pointer into the map, so a call of a method changes the map's entry.
use cursor_switch.Common.{ℕ, Bool, Option, none, some, [], map}
use cursor_switch.Common.Text.{Text, to_lower}
use cursor_switch.Common.StringMap.{StringMap, lookup, insert, map_values}
use cursor_switch.Breaker.{
  CircuitBreakerConfig, CircuitBreaker, CircuitBreakerStats, AllowResult, Platform, allow,
  new_circuit_breaker, update_config, allow_request, record_success, record_failure,
  release_half_open_permit, note_failure_reason, stats,
}

unfoldable pub normalize_adapter_key : Text → Text
normalize_adapter_key id = map to_lower id

pub record CircuitBreakerRegistry (F : Type 0) : Type 0 where
  pub breakers : StringMap (CircuitBreaker F)
  pub config : CircuitBreakerConfig F

module _ {F : Type 0} where
  unfoldable pub new_circuit_breaker_registry : CircuitBreakerConfig F → CircuitBreakerRegistry F
  new_circuit_breaker_registry config = record { breakers = []; config = config }

  -- The breaker that `Get` returns.
  unfoldable pub breaker_of : CircuitBreakerRegistry F → Text → CircuitBreaker F
  breaker_of r id = elim (lookup (normalize_adapter_key id) r.breakers) [
    | some cb ↦ cb
    | none ↦ new_circuit_breaker r.config
  ]

  -- The registry once the breaker of `id` has become `cb`.
  unfoldable pub store_breaker :
      CircuitBreakerRegistry F → Text → CircuitBreaker F → CircuitBreakerRegistry F
  store_breaker r id cb = record r { breakers = insert (normalize_adapter_key id) cb r.breakers }

  -- `Get`, which creates a missing breaker.
  unfoldable pub get : CircuitBreakerRegistry F → Text → CircuitBreakerRegistry F × CircuitBreaker F
  get r id = (store_breaker r id (breaker_of r id), breaker_of r id)

  unfoldable pub update_registry_config :
      CircuitBreakerConfig F → CircuitBreakerRegistry F → CircuitBreakerRegistry F
  update_registry_config config r = record {
    breakers = map_values (update_config config) r.breakers;
    config = config;
  }

  unfoldable pub registry_stats : CircuitBreakerRegistry F → StringMap CircuitBreakerStats
  registry_stats r = map_values stats r.breakers

-- `router.breakers`, which may be nil: `breakerFor` then gives the breaker that always admits and
-- records nothing.
abbrev pub Breakers : Type 0 → Type 0
Breakers F = Option (CircuitBreakerRegistry F)

module _ {F : Type 0} where
  unfoldable pub allow_request_of : Breakers F → Text → ℕ → Breakers F × AllowResult
  allow_request_of none id now = (none, allow)
  allow_request_of (some r) id now =
      let (cb, answer) = allow_request (breaker_of r id) now in
      (some (store_breaker r id cb), answer)

  unfoldable pub release_half_open_permit_of : Breakers F → Text → Bool → Breakers F
  release_half_open_permit_of none id used = none
  release_half_open_permit_of (some r) id used =
      some (store_breaker r id (release_half_open_permit (breaker_of r id) used))

  unfoldable pub note_failure_reason_of : Breakers F → Text → Text → Breakers F
  note_failure_reason_of none id reason = none
  note_failure_reason_of (some r) id reason =
      some (store_breaker r id (note_failure_reason (breaker_of r id) reason))

  unfoldable pub last_failure_reason_of : Breakers F → Text → Text
  last_failure_reason_of none id = []
  last_failure_reason_of (some r) id = (breaker_of r id).last_failure_reason

module _ {F : Type 0} (p : Platform F) where
  unfoldable pub record_success_of : Breakers F → Text → Bool → Breakers F
  record_success_of none id used = none
  record_success_of (some r) id used =
      some (store_breaker r id (record_success p (breaker_of r id) used))

  unfoldable pub record_failure_of : Breakers F → Text → Bool → ℕ → Breakers F
  record_failure_of none id used now = none
  record_failure_of (some r) id used now =
      some (store_breaker r id (record_failure p (breaker_of r id) used now))
