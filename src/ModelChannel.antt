-- ===== src/ModelChannel.antt =====
-- internal/modelchannel: which of the configured channels serve a model.
mod Resolve
mod Scans
mod Identity
pub mod Ids
pub mod Agreement
pub mod Candidates
mod Tests
