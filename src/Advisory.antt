-- ===== src/Advisory.antt =====
-- internal/advisory: which published releases an advisory affects.
pub mod Ranges
