-- ===== src/Ingest.antt =====
-- internal/ingest: the rows that a run writes to the graph.
pub mod Spells
