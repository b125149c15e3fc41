-- ===== src/Transform/Shape/Matrix.antt =====
-- The matrix products, the attention, the quantized operators and the convolutions of
-- `infer_node_output` in src/transform/shape.rs.
use my_nn_engine.Prelude.{
  ℕ, ◌+◌, ◌-◌, ◌%◌, Bool, true, false, ◌&&◌, List, [], ◌∷◌, Option, none, some, set, replicate, leb,
  ◌==◌, if◌then◌else◌,
}
use my_nn_engine.Tensor.Dims.{ResolvedTensorDims, ndim, is_scalar, prefix, suffix, push}
use my_nn_engine.Tensor.Dims
use my_nn_engine.Tensor.Types.{
  ResolvedTensorType, DataType, boolean, sint, uint, float, i8, u8, SIntType, UIntType, FloatType,
  is_contiguous,
}
use my_nn_engine.Tensor.Types
use my_nn_engine.Tensor.Broadcast.{broadcast_shape}
use my_nn_engine.Graph.Operator.{TensorIndex, index, Gemm, Conv, Pooling}
use my_nn_engine.Graph.Geometry.{conv_output_shape, pooling_output_shape, checked_sub}
use my_nn_engine.Transform.Attempt.{Attempt, done, ◌>>=◌, ◌>>◌, must, try_ok, check, at}
use my_nn_engine.Transform.Shape.{UnifyMode, checks_strides}

-- The derived equality of element types.
abbrev pub sint_code : SIntType → ℕ
sint_code Types.i8 = 0
sint_code Types.i32 = 1
sint_code Types.i64 = 2

abbrev pub type_code : DataType → ℕ
type_code boolean = 0
type_code (sint s) = 1 + sint_code s
type_code (uint Types.u8) = 4
type_code (uint Types.u64) = 5
type_code (float Types.bf16) = 6
type_code (float Types.f32) = 7
type_code (float Types.f64) = 8

abbrev pub type_eq : DataType → DataType → Bool
type_eq a b = type_code a == type_code b

abbrev is_float : DataType → Bool
is_float (float _) = true
is_float _ = false

-- The sizes at two axes, or the other way round.
abbrev pub pair_at : Bool → ResolvedTensorDims → ℕ → ℕ → Attempt (ℕ × ℕ)
pair_at swapped dims i j = do
  a ← at dims (if swapped then j else i)
  b ← at dims (if swapped then i else j)
  done (a, b)

unfoldable pub batched_gemm :
    Gemm → ResolvedTensorType → ResolvedTensorType → Attempt ResolvedTensorType
batched_gemm gemm a b = do
  check (leb 3 (ndim a.dims) && leb 3 (ndim b.dims))
  let n = ndim a.dims
  (m, k_a) ← pair_at gemm.trans_a a.dims (n - 2) (n - 1)
  (k_b, cols) ← pair_at gemm.trans_b b.dims (n - 2) (n - 1)
  check (k_a == k_b)
  l ← must (prefix a.dims (n - 2))
  r ← must (prefix b.dims (n - 2))
  dims ← try_ok (broadcast_shape l r)
  done (Types.new a.elem_type (push (push dims m) cols))

unfoldable pub gemm_output :
    Gemm → ResolvedTensorType → ResolvedTensorType → Attempt ResolvedTensorType
gemm_output gemm a b = do
  m ← at a.dims (if gemm.trans_a then 1 else 0)
  n ← at b.dims (if gemm.trans_b then 0 else 1)
  done (Types.new a.elem_type (Dims.new (m ∷ n ∷ [])))

-- A vector stands for a matrix with one row, or with one column.
abbrev pub as_row : ResolvedTensorDims → ResolvedTensorDims × Bool
as_row (d ∷ []) = (Dims.new (1 ∷ d ∷ []), true)
as_row dims = (dims, false)

abbrev pub as_column : ResolvedTensorDims → ResolvedTensorDims × Bool
as_column (d ∷ []) = (Dims.new (d ∷ 1 ∷ []), true)
as_column dims = (dims, false)

unfoldable pub mat_mul : ResolvedTensorType → ResolvedTensorType → Attempt ResolvedTensorType
mat_mul a b = do
  check (type_eq a.elem_type b.elem_type)
  let (ldim, l_prepended) = as_row a.dims
  let (rdim, r_prepended) = as_column b.dims
  l_len ← must (checked_sub (ndim ldim) 2)
  r_len ← must (checked_sub (ndim rdim) 2)
  l_prefix ← must (prefix ldim l_len)
  r_prefix ← must (prefix rdim r_len)
  dims ← try_ok (broadcast_shape l_prefix r_prefix)
  l_suffix ← must (suffix ldim 2)
  r_suffix ← must (suffix rdim 2)
  k_a ← at l_suffix 1
  k_b ← at r_suffix 0
  check (k_a == k_b)
  m ← at l_suffix 0
  n ← at r_suffix 1
  let rows = (if l_prepended then dims else push dims m)
  done (Types.new a.elem_type (if r_prepended then rows else push rows n))

-- The values of an attention are queries, keys and values of shape (batch, heads, length, head size).
unfoldable pub attention :
    ResolvedTensorType → ResolvedTensorType → ResolvedTensorType → Attempt ResolvedTensorType
attention q k v = do
  check (ndim q.dims == ndim k.dims && ndim k.dims == ndim v.dims)
  check (ndim q.dims == 4)
  batch_size ← at q.dims 0
  q_num_heads ← at q.dims 1
  kv_num_heads ← at k.dims 1
  check (if kv_num_heads == 0 then q_num_heads == 0 else q_num_heads % kv_num_heads == 0)
  k_batch ← at k.dims 0
  v_batch ← at v.dims 0
  check (k_batch == batch_size && v_batch == batch_size)
  q_sequence_length ← at q.dims 2
  head_size ← at q.dims 3
  kv_sequence_length ← at k.dims 2
  v_head_size ← at v.dims 3
  k_head_size ← at k.dims 3
  v_sequence_length ← at v.dims 2
  check (k_head_size == head_size && v_sequence_length == kv_sequence_length)
  done (
      Types.new q.elem_type
        (Dims.new (batch_size ∷ q_num_heads ∷ q_sequence_length ∷ v_head_size ∷ [])))

unfoldable pub dequantize_linear :
    TensorIndex → ResolvedTensorType → ResolvedTensorType → Attempt ResolvedTensorType
dequantize_linear axis x scale = do
  check (ndim scale.dims == 1)
  len ← at scale.dims 0
  d ← at x.dims (index axis (ndim x.dims))
  check (len == d)
  done (Types.new scale.elem_type x.dims)

unfoldable pub dynamic_quantize_linear :
    Option TensorIndex → Bool → ResolvedTensorType → Attempt (List ResolvedTensorType)
dynamic_quantize_linear axis symmetric x = do
  let y_dtype = (if symmetric then sint Types.i8 else uint Types.u8)
  scale_dims ← elim axis [
    | none ↦ done (Dims.new [])
    | some a ↦ (do d ← at x.dims (index a (ndim x.dims)); done (Dims.new (d ∷ [])))
  ]
  done (
      Types.new y_dtype x.dims
      ∷ Types.new x.elem_type scale_dims
      ∷ Types.new y_dtype scale_dims
      ∷ [])

-- The shape of a product of `lhs` by a matrix of weights, one axis of which has the scales: the last
-- size of `lhs` is replaced.
unfoldable pub weighted :
    TensorIndex
    → ResolvedTensorDims
    → ResolvedTensorDims
    → ResolvedTensorDims
    → Attempt ResolvedTensorDims
weighted axis lhs rhs scale = do
  let axis_idx = index axis (ndim rhs)
  len ← at scale 0
  n ← at rhs axis_idx
  check (len == n)
  other ← must (checked_sub 1 axis_idx)
  k ← at rhs other
  last ← at lhs (ndim lhs - 1)
  check (last == k)
  done (Dims.new (set lhs (ndim lhs - 1) n))

unfoldable pub dequant_mat_mul :
    TensorIndex
    → ResolvedTensorType
    → ResolvedTensorType
    → ResolvedTensorType
    → Attempt ResolvedTensorType
unfolding weighted
dequant_mat_mul axis lhs rhs scale = do
  check (leb 2 (ndim lhs.dims))
  check (ndim rhs.dims == 2)
  check (ndim scale.dims == 1)
  dims ← weighted axis lhs.dims rhs.dims scale.dims
  done (Types.new scale.elem_type dims)

unfoldable pub quantized_mat_mul :
    TensorIndex
    → ResolvedTensorType
    → ResolvedTensorType
    → ResolvedTensorType
    → ResolvedTensorType
    → Attempt ResolvedTensorType
unfolding weighted
quantized_mat_mul axis lhs lhs_scale rhs rhs_scale = do
  check (leb 2 (ndim lhs.dims))
  check (ndim rhs.dims == 2)
  check (type_eq lhs.elem_type (sint Types.i8) && type_eq rhs.elem_type (sint Types.i8))
  check (is_float lhs_scale.elem_type)
  check (type_eq lhs_scale.elem_type rhs_scale.elem_type)
  dims ← weighted axis lhs.dims rhs.dims rhs_scale.dims
  m ← at lhs.dims (ndim lhs.dims - 2)
  (if ndim lhs_scale.dims == 1
      then (do len ← at lhs_scale.dims 0; check (len == m))
      else check (is_scalar lhs_scale.dims))
  done (Types.new lhs_scale.elem_type dims)

-- `assert!(ty.is_contiguous())` where the strides are checked.
abbrev pub check_contiguous : UnifyMode → ResolvedTensorType → Attempt (Unit {0})
check_contiguous mode ty =
    if checks_strides mode then must (is_contiguous ty) >>= check else done tt

unfoldable pub conv_output :
    Conv → ResolvedTensorType → ResolvedTensorType → UnifyMode → Attempt ResolvedTensorType
conv_output conv x w mode = do
  check_contiguous mode x
  check_contiguous mode w
  dims ← must (conv_output_shape conv x.dims w.dims)
  let ty = Types.new x.elem_type dims
  check_contiguous mode ty
  done ty

unfoldable pub pooling_output : Pooling → ResolvedTensorType → Attempt ResolvedTensorType
pooling_output pooling x = do
  dims ← must (pooling_output_shape pooling x.dims)
  done (Types.new x.elem_type dims)

-- All sizes but the first two become 1.
unfoldable pub global_average_pool : ResolvedTensorType → Attempt ResolvedTensorType
global_average_pool x = do
  nbatch ← at x.dims 0
  channel ← at x.dims 1
  done (Types.new x.elem_type (Dims.new (nbatch ∷ channel ∷ replicate (ndim x.dims - 2) 1)))
