-- ===== src/WebFetch.antt =====
-- internal/backend/agent/bridge/interaction/webfetch_cache.go: the cache of fetched pages.
mod Cache
mod Entries
pub mod Consistent
pub mod Calls
pub mod Hits
pub mod Freshness
mod Tests
