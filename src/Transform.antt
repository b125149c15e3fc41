-- ===== src/Transform.antt =====
-- The transformations of graphs: src/transform.
pub mod Attempt
pub mod Shape
