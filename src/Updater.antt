-- ===== src/Updater.antt =====
-- internal/updater: the comparison of versions.
mod Semver
pub mod Comparison
mod Tests
