-- ===== src/Breaker.antt =====
-- internal/backend/agent/model/circuit_breaker.go: the circuit breaker of one provider.
mod Types
mod Gate
mod Outcome
pub mod Calls
pub mod Invariant
pub mod History
pub mod Diagram
pub mod Due
pub mod Timing
pub mod Probe
mod Tests
unfoldable pub use Types.*
unfoldable pub use Gate.*
unfoldable pub use Outcome.*
