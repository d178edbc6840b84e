-- ===== src/Broker.antt =====
-- internal/backend/forwarder: the active streams of requests, their events and their readers.
mod Stream
mod Backlog
mod Registry
pub mod Terminal
mod Reader
pub mod Capped
pub mod Delivery
pub mod Saturation
pub mod Removal
pub mod Ending
mod Tests
