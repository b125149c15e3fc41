-- ===== src/Graph/Operator.antt =====
-- The operators of src/graph/operator.rs, with those of their attributes that decide the type of a
-- result; the others are left out. An `isize` or an `i64` is an integer.
use my_nn_engine.Prelude.{ℕ, ℤ, Bool, List, Option, from_end}
use my_nn_engine.Tensor.Dims.{ResolvedTensorDims}
use my_nn_engine.Tensor.Types.{DataType}
use my_nn_engine.Tensor.Data.{Tensor}

pub data Layout : Type 0 where
  nchw nhwc : Layout

abbrev pub TensorIndex : Type 0
TensorIndex = ℤ

-- `TensorIndex::index`, counted from the end if it is negative.
abbrev pub index : TensorIndex → ℕ → ℕ
index i rank = from_end rank i

-- A vector that may be missing, with the value that stands for each of its entries then.
pub record OptionalVec {ℓ} (A : Type ℓ) : Type ℓ where
  pub vec : Option (List A)
  pub default : A

pub data ConvPad : Type 0 where
  not_set : OptionalVec (ℕ × ℕ) → ConvPad
  same_upper same_lower valid : ConvPad

pub record Conv : Type 0 where
  pub pad : ConvPad
  pub dilations : OptionalVec ℕ
  pub group : ℕ
  pub strides : OptionalVec ℕ
  pub input_layout : Layout
  pub output_layout : Layout

pub record Pooling : Type 0 where
  pub pad : ConvPad
  pub ceil_mode : Bool
  pub dilations : OptionalVec ℕ
  pub kernel_shape : ResolvedTensorDims
  pub strides : OptionalVec ℕ
  pub layout : Layout

pub record Gemm : Type 0 where
  pub trans_a : Bool
  pub trans_b : Bool

pub record Reduce : Type 0 where
  pub axes : List ℤ
  pub keepdims : Bool

pub data SplitOutputs : Type 0 where
  num_outputs : ℕ → SplitOutputs
  split : List ℕ → SplitOutputs

pub record Split : Type 0 where
  pub axis : TensorIndex
  pub outputs : Option SplitOutputs

-- The values of a OneHot are kept as their element types.
pub record OneHot : Type 0 where
  pub axis : ℤ
  pub depth : Option ℕ
  pub on_value : Option DataType
  pub off_value : Option DataType

pub data ReinterpretType : Type 0 where
  reshape : (before after : List ℕ) → ReinterpretType
  transpose : (perm : Option (List ℕ)) → ReinterpretType
  broadcast : (before after : List ℕ) → ReinterpretType

pub data Operator : Type 0 where
  add and div equal less_or_equal mul pow sub : Operator
  all_reduce batch_normalization clip cos exp ge_lu identity layer_normalization : Operator
  leaky_relu log neg reciprocal relu rms_normalization rope sigmoid sin softmax sqrt : Operator
  swish tanh transfer kv_cache_update quantizing_kv_cache_update : Operator
  attention contiguous expand global_average_pool is_nan mat_mul nhwc2nchw : Operator
  non_zero range reduce_matrix reshape resize slice where_op : Operator
  average_pool max_pool : Pooling → Operator
  batched_gemm gemm : Gemm → Operator
  cast constant_of_shape : DataType → Operator
  concat dequantize_linear dequant_mat_mul flatten gather quantized_mat_mul : TensorIndex → Operator
  constant : Tensor → Operator
  conv : Conv → Operator
  dynamic_quantize_linear : (axis : Option TensorIndex) (symmetric : Bool) → Operator
  one_hot : OneHot → Operator
  reduce_max reduce_mean reduce_sum : Reduce → Operator
  reinterpret : List ReinterpretType → Operator
  shape : (start : TensorIndex) (end : Option TensorIndex) → Operator
  split : Split → Operator
  squeeze : Option (List TensorIndex) → Operator
  transpose : (perm : Option (List ℕ)) → Operator
  unsqueeze : List TensorIndex → Operator
  input output session_state : ℕ → Operator
