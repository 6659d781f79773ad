-- ===== src/Graph.antt =====
-- internal/graph: the identity of nodes and edges.
pub mod Id
