-- ===== src/Rewind.antt =====
-- internal/backend/forwarder/rewind.go: a run that repeats an earlier user message.
mod Decide
pub mod Choice
pub mod Earliest
pub mod Kept
mod Tests
