-- ===== src/AppendSeq.antt =====
-- internal/backend/forwarder/append_seq.go: the appends of one request are handled one at a time, in
-- the order of their numbers.
mod State
mod Tracker
pub mod Requests
mod Pool
pub mod Exclusion
pub mod Wakeup
pub mod Order
mod Tests
