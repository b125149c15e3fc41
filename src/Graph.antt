-- ===== src/Graph.antt =====
-- The graph: src/graph.rs and src/graph.
pub mod Operator
pub mod Nodes
pub mod Slices
pub mod Geometry
