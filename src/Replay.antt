-- ===== src/Replay.antt =====
-- internal/backend/forwarder/tool_result_replay_truncation.go: the bound on tool results in a replay.
mod Truncate
mod Compact
mod Limit
mod Lengths
pub mod Prefix
pub mod Rounds
pub mod Bound
mod Tests
