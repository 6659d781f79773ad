-- ===== src/Sketch.antt =====
-- internal/sketch: which nodes reach which, computed from scratch for every epoch.
pub mod Exact
pub mod Engine
pub mod Hll
