-- ===== src/Transform/Shape.antt =====
-- `reshape` and `transpose` of src/transform/shape.rs.
pub mod Matrix
pub mod Axes
pub mod Arms
pub mod Infer
use Prim.Native.String.{String}
use my_nn_engine.Prelude.{
  ℕ, zero, suc, ◌+◌, ◌-◌, ◌*◌, ◌/◌, ℤ, pos, negsuc, to_usize, Bool, true, false, ◌&&◌, ◌||◌, List,
  [], ◌∷◌, ◌++◌, Option, none, some, length, get_elem?, product, ◌==◌, if◌then◌else◌,
}
use my_nn_engine.Tensor.Dims.{ResolvedTensorDims, ndim, size, compatible_with_scalar}
use my_nn_engine.Tensor.Dims
use my_nn_engine.Tensor.Types.{ResolvedTensorType, contiguous}
use my_nn_engine.Tensor.Types
use my_nn_engine.Tensor.Reshape.{try_reshape}
use my_nn_engine.Tensor.Broadcast.{TypeError, infer_error}
use my_nn_engine.Graph.Geometry.{perm}
use my_nn_engine.Transform.Attempt.{Attempt, done, fail, panic, ◌>>=◌, ◌>>◌, must, ok_or, check, at}

pub data UnifyMode : Type 0 where
  check_strides overwrite_strides ignore_strides : UnifyMode

-- `matches!(mode, UnifyMode::CheckStrides)`.
abbrev pub checks_strides : UnifyMode → Bool
checks_strides check_strides = true
checks_strides overwrite_strides = false
checks_strides ignore_strides = false

-- The entry of the target at position `i`, of which 0 stands for the size that the input has there.
abbrev pub entry_or_kept : ResolvedTensorDims → ℕ → ℤ → Attempt ℕ
entry_or_kept dims i (pos zero) = at dims i
entry_or_kept dims i (pos (suc n)) = done (suc n)
entry_or_kept dims i (negsuc n) = done (to_usize (negsuc n))

-- The product of the entries from position `i` on, without those that are -1.
unfoldable pub known_product : ResolvedTensorDims → ℕ → List ℤ → Attempt ℕ
known_product dims i [] = done 1
known_product dims i (negsuc zero ∷ shape) = known_product dims (suc i) shape
known_product dims i (x ∷ shape) = do
  d ← entry_or_kept dims i x
  rest ← known_product dims (suc i) shape
  done (d * rest)

-- The sizes from position `i` on; -1 stands for what the other sizes leave.
unfoldable pub target_sizes : ResolvedTensorDims → ℕ → ℕ → ℕ → List ℤ → Attempt (List ℕ)
target_sizes dims prod0 prod1 i [] = done []
target_sizes dims prod0 prod1 i (negsuc zero ∷ shape) = do
  check (if prod1 == 0 then false else true)
  rest ← target_sizes dims prod0 prod1 (suc i) shape
  done (prod0 / prod1 ∷ rest)
target_sizes dims prod0 prod1 i (x ∷ shape) = do
  d ← entry_or_kept dims i x
  rest ← target_sizes dims prod0 prod1 (suc i) shape
  done (d ∷ rest)

unfoldable pub reshape : ResolvedTensorType → List ℤ → UnifyMode → Attempt ResolvedTensorType
unfolding known_product target_sizes
reshape a shape mode = do
  let prod0 = size a.dims
  prod1 ← known_product a.dims 0 shape
  sizes ← target_sizes a.dims prod0 prod1 0 shape
  let target = Dims.new sizes
  check (
      size a.dims == size target
      || (compatible_with_scalar a.dims && compatible_with_scalar target))
  if checks_strides mode
      then (do view ← must (try_reshape a target); ok_or view (infer_error "Unsupported reshape"))
      else done (Types.new a.elem_type target)

unfoldable pub transpose :
    ResolvedTensorType → Option (List ℕ) → UnifyMode → Attempt ResolvedTensorType
transpose ty given mode = do
  ps ← ok_or (perm given (ndim ty.dims)) (infer_error "Invalid permutation")
  moved ← must (Types.transpose ty ps)
  done (if checks_strides mode then moved else contiguous moved)
