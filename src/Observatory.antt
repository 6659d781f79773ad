-- ===== src/Observatory.antt =====
-- internal/observatory: the package level view at an instant.
pub mod Snapshot
pub mod Snapshots
pub mod Leaderboard
