-- ===== src/Resolve.antt =====
-- internal/resolve: what a declared range resolved to, and when.
pub mod Windows
