-- ===== src/Router.antt =====
-- internal/backend/agent/model/router.go: the choice of a channel for a request, with failover.
mod Errors
mod Registry
mod Effort
mod Request
mod Stream
pub mod Failover
mod ToolCallId
pub mod ToolCallIds
mod Tests
mod InFlight
pub mod Order
pub mod Permits
pub mod Status
mod Budget
pub mod Streams
unfoldable pub use Errors.*
unfoldable pub use Registry.*
unfoldable pub use Effort.*
unfoldable pub use Request.*
unfoldable pub use Stream.*
