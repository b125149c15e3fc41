-- ===== src/Tensor/Types.antt =====
-- Element types and `ResolvedTensorType` of src/tensor/types.rs.
pub mod Layout
pub mod Contiguous
pub mod Storage
pub mod Views
use my_nn_engine.Prelude.{
  ℕ, zero, suc, ◌+◌, ◌-◌, ◌*◌, ◌/◌, ◌%◌, max, ◌≡◌, refl, Bool, true, false, not, ◌||◌, ◌&&◌, List,
  [], ◌∷◌, ◌++◌, Option, none, some, ◌>>=◌, ◌>>◌, assert, length, get_elem?, list_eq, replicate,
  ltb, leb, ◌==◌, if◌then◌else◌,
}
use my_nn_engine.Tensor.Dims.{
  ResolvedTensorDims, ndim, is_scalar, size, compatible_with_scalar, write,
}
use my_nn_engine.Tensor.Dims
use mathlib.Core.Option

pub data SIntType : Type 0 where
  i8 i32 i64 : SIntType

pub data UIntType : Type 0 where
  u8 u64 : UIntType

pub data FloatType : Type 0 where
  bf16 f32 f64 : FloatType

pub data DataType : Type 0 where
  boolean : DataType
  sint : SIntType → DataType
  uint : UIntType → DataType
  float : FloatType → DataType

abbrev pub sint_bit_width : SIntType → ℕ
sint_bit_width i8 = 8
sint_bit_width i32 = 32
sint_bit_width i64 = 64

abbrev pub uint_bit_width : UIntType → ℕ
uint_bit_width u8 = 8
uint_bit_width u64 = 64

abbrev pub float_bit_width : FloatType → ℕ
float_bit_width bf16 = 16
float_bit_width f32 = 32
float_bit_width f64 = 64

abbrev pub bit_width : DataType → ℕ
bit_width boolean = 8
bit_width (sint s) = sint_bit_width s
bit_width (uint u) = uint_bit_width u
bit_width (float f) = float_bit_width f

-- The field `stride` has one entry per axis, in elements.
pub record ResolvedTensorType : Type 0 where
  pub elem_type : DataType
  pub dims : ResolvedTensorDims
  pub stride : ResolvedTensorDims

-- The loop from the last axis to the first: the strides, and `acc` after it.
unfoldable pub calc_stride_loop : List ℕ → List ℕ × ℕ
calc_stride_loop [] = ([], 1)
calc_stride_loop (d ∷ ds) =
    let (strides, acc) = calc_stride_loop ds in ((if d == 1 then 0 else acc) ∷ strides, acc * d)

unfoldable pub calc_stride : ResolvedTensorDims → ResolvedTensorDims
unfolding calc_stride_loop
calc_stride dims = (calc_stride_loop dims).0

unfoldable pub new : DataType → ResolvedTensorDims → ResolvedTensorType
unfolding calc_stride
new elem_type dims = record { elem_type = elem_type; dims = dims; stride = calc_stride dims }

-- The assertion is skipped for a scalar.
unfoldable pub with_stride :
    DataType → ResolvedTensorDims → ResolvedTensorDims → Option ResolvedTensorType
with_stride elem_type dims stride =
    if is_scalar dims || ndim dims == ndim stride
    then some (record { elem_type = elem_type; dims = dims; stride = stride })
    else none

-- `stride` copied over the last entries of zeros. The subtraction panics for a smaller target, and
-- `zip_eq` for a length other than the stride's.
unfoldable pub broadcast : ResolvedTensorType → ResolvedTensorDims → Option ResolvedTensorType
broadcast ty target =
    let extended =
      if is_scalar ty.stride
      then some (replicate (ndim target) 0)
      else (if leb (ndim ty.dims) (ndim target) && ndim ty.dims == ndim ty.stride
          then some (replicate (ndim target - ndim ty.dims) 0 ++ ty.stride)
          else none) in
    Option.map (λ s. record { elem_type = ty.elem_type; dims = target; stride = s }) extended

unfoldable pub is_broadcast_required : ResolvedTensorType → ResolvedTensorDims → Bool
is_broadcast_required ty target = not (list_eq ty.dims target)

-- A parameter with one entry per channel, spread over axis 1.
unfoldable pub extend_per_channel_params :
    ResolvedTensorType → ResolvedTensorDims → Option ResolvedTensorType
extend_per_channel_params ty target = do
  assert (ndim ty.dims == 1)
  strides ← write (replicate (ndim target) 0) 1 1
  some (record { elem_type = ty.elem_type; dims = target; stride = strides })

unfoldable pub transpose : ResolvedTensorType → List ℕ → Option ResolvedTensorType
transpose ty perms = do
  dims ← Dims.transpose ty.dims perms
  stride ← Dims.transpose ty.stride perms
  some (record { elem_type = ty.elem_type; dims = dims; stride = stride })

unfoldable pub contiguous : ResolvedTensorType → ResolvedTensorType
unfolding new
contiguous ty = new ty.elem_type ty.dims

-- The loop from the last axis, `i` being the position of the first stride of the list: whether it
-- has not returned `false`, and `acc`. The dims are read only while it goes on.
unfoldable pub is_contiguous_loop : ResolvedTensorDims → ℕ → List ℕ → Option (Bool × ℕ)
is_contiguous_loop dims i [] = some (true, 1)
is_contiguous_loop dims i (s ∷ ss) = do
  (going, acc) ← is_contiguous_loop dims (suc i) ss
  if going && (s == 0 || s == acc)
      then Option.map (λ d. (true, acc * d)) (get_elem? dims i)
      else some (false, acc)

unfoldable pub is_contiguous : ResolvedTensorType → Option Bool
unfolding is_contiguous_loop
is_contiguous ty = Option.map (λ (r : Bool × ℕ). r.0) (is_contiguous_loop ty.dims 0 ty.stride)

-- `[1..]` panics on an empty vector.
unfoldable pub tail : List ℕ → Option (List ℕ)
tail [] = none
tail (_ ∷ xs) = some xs

unfoldable pub drop_head : ResolvedTensorType → Option ResolvedTensorType
unfolding tail
drop_head ty = do
  dims ← tail ty.dims
  stride ← tail ty.stride
  some (record { elem_type = ty.elem_type; dims = dims; stride = stride })

unfoldable pub pushed : ResolvedTensorType → ℕ → ResolvedTensorType
unfolding new Dims.push
pushed ty dim = new ty.elem_type (Dims.push ty.dims dim)

abbrev pub is_scalar_type : ResolvedTensorType → Bool
is_scalar_type ty = is_scalar ty.dims || size ty.dims == 1

abbrev pub any_zero : List ℕ → Bool
any_zero [] = false
any_zero (d ∷ ds) = d == 0 || any_zero ds

-- The greatest of the products over the zipped lists, if there is one.
unfoldable pub max_extent : List ℕ → List ℕ → Option ℕ
max_extent [] ss = none
max_extent (d ∷ ds) [] = none
max_extent (d ∷ ds) (s ∷ ss) =
    some (elim (max_extent ds ss) [ none ↦ max d 1 * s | some m ↦ max (max d 1 * s) m ])

unfoldable pub storage_num_elements : ResolvedTensorType → Option ℕ
unfolding max_extent
storage_num_elements ty =
    if is_scalar_type ty
    then some 1
    else (if any_zero ty.dims then some 0 else max_extent ty.dims ty.stride)
