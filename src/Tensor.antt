-- ===== src/Tensor.antt =====
-- The tensor crate modules src/tensor.rs and src/tensor/types.rs: shapes, strides, element types.
pub mod Dims
pub mod Broadcast
pub mod Types
pub mod Data
pub mod Reshape
mod Tests
