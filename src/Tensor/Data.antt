-- ===== src/Tensor/Data.antt =====
-- `Tensor` of src/tensor.rs and src/tensor/data.rs, as far as sizes and integers are read from it.
use my_nn_engine.Prelude.{ℕ, ℤ, to_isize, List, Option, none, some, map, ◌==◌, if◌then◌else◌}
use my_nn_engine.Tensor.Dims.{ResolvedTensorDims, ndim}
use my_nn_engine.Tensor.Types.{ResolvedTensorType, DataType, SIntType, UIntType, FloatType}
use my_nn_engine.Tensor.Types

-- The data of a tensor, of which the integers are kept.
pub data TensorData : Type 0 where
  boolean : TensorData
  sint : SIntType → List ℤ → TensorData
  uint : UIntType → List ℕ → TensorData
  float : FloatType → TensorData

unfoldable pub elem_type : TensorData → DataType
elem_type TensorData.boolean = DataType.boolean
elem_type (TensorData.sint t _) = DataType.sint t
elem_type (TensorData.uint t _) = DataType.uint t
elem_type (TensorData.float t) = DataType.float t

pub record Tensor : Type 0 where
  pub dims : ResolvedTensorDims
  pub contents : TensorData

abbrev pub indices : TensorData → Option (List ℤ)
indices (TensorData.sint _ v) = some v
indices (TensorData.uint _ v) = some (map to_isize v)
indices _ = none

abbrev pub sints : TensorData → Option (List ℤ)
sints (TensorData.sint _ v) = some v
sints _ = none

unfoldable pub to_indices : Tensor → Option (List ℤ)
to_indices t = if ndim t.dims == 1 then indices t.contents else none

unfoldable pub to_1d_sints : Tensor → Option (List ℤ)
to_1d_sints t = if ndim t.dims == 1 then sints t.contents else none

unfoldable pub tensor_type : Tensor → ResolvedTensorType
unfolding elem_type
tensor_type t = Types.new (elem_type t.contents) t.dims
