-- ===== src/Semver.antt =====
-- internal/semver: versions, their order, and the ranges of node-semver.
pub mod Version
pub mod Range
