-- ===== src/Messages.antt =====
-- internal/backend/agent/model/router.go: the messages that a provider is sent.
mod Types
mod Merge
mod Sanitize
pub mod Groups
pub mod Pairing
pub mod Ending
pub mod Merging
mod Tests
unfoldable pub use Types.*
unfoldable pub use Merge.*
unfoldable pub use Sanitize.*
