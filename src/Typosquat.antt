-- ===== src/Typosquat.antt =====
-- internal/typosquat: package names that are close to each other.
pub mod Distance
pub mod Normalize
pub mod Candidates
