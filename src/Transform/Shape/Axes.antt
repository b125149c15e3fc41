-- ===== src/Transform/Shape/Axes.antt =====
-- The operators of `infer_node_output` in src/transform/shape.rs that move, join, drop or add axes.
pub mod Joined
pub mod Flags
pub mod Inserted
use Prim.Native.String.{String}
use my_nn_engine.Prelude.{
  ℕ, zero, suc, ◌+◌, ◌-◌, ◌*◌, ℤ, pos, negsuc, from_end, Bool, true, false, not, ◌&&◌, ◌||◌, List,
  [], ◌∷◌, ◌++◌, Option, none, some, length, get_elem?, set, take, drop, replicate, map, product,
  ltb, leb, ◌==◌, if◌then◌else◌,
}
use my_nn_engine.Tensor.Dims.{ResolvedTensorDims, ndim, push}
use my_nn_engine.Tensor.Dims
use my_nn_engine.Tensor.Types.{ResolvedTensorType, DataType, sint, is_contiguous, with_stride}
use my_nn_engine.Tensor.Types
use my_nn_engine.Tensor.Broadcast.{infer_error}
use my_nn_engine.Graph.Operator.{TensorIndex, index, Reduce, Split, OneHot}
use my_nn_engine.Graph.Geometry
use my_nn_engine.Graph.Geometry.{normalize_axes, checked_sub}
use my_nn_engine.Transform.Attempt.{Attempt, done, fail, panic, ◌>>=◌, ◌>>◌, must, ok_or, check, at}
use my_nn_engine.Transform.Shape.{UnifyMode, checks_strides}
use my_nn_engine.Transform.Shape.Matrix.{type_eq, check_contiguous}

-- `From<&[usize]>` keeps the sizes as they are; an index past the end takes all of them.
unfoldable pub flatten : TensorIndex → ResolvedTensorType → ResolvedTensorType
flatten axis input =
    let i = index axis (ndim input.dims) in
    Types.new input.elem_type (product (take i input.dims) ∷ product (drop i input.dims) ∷ [])

-- `drop[i] = true` for the axes of a list; an index out of range is a panic.
unfoldable pub mark_all : List Bool → List ℕ → Attempt (List Bool)
mark_all flags [] = done flags
mark_all flags (i ∷ is) = do check (ltb i (length flags)); mark_all (set flags i true) is

-- The sizes that are kept, where those that are marked become 1 or are dropped.
unfoldable pub reduced : Bool → List Bool → List ℕ → List ℕ
reduced keepdims flags [] = []
reduced keepdims [] (d ∷ dims) = d ∷ dims
reduced keepdims (b ∷ flags) (d ∷ dims) =
    let rest = reduced keepdims flags dims in
    if b then (if keepdims then 1 ∷ rest else rest) else d ∷ rest

unfoldable pub reduce : Reduce → ResolvedTensorType → Attempt ResolvedTensorType
unfolding mark_all reduced
reduce r input = do
  axes ← ok_or (normalize_axes r (ndim input.dims)) (infer_error "Invalid axes")
  check (leb (length axes) (ndim input.dims))
  flags ← mark_all (replicate (ndim input.dims) false) axes
  done (Types.new input.elem_type (Dims.new (reduced r.keepdims flags input.dims)))

-- The inner loop over the axes, from `i` on.
unfoldable pub join : ℕ → ℕ → ResolvedTensorDims → ResolvedTensorDims → Attempt ResolvedTensorDims
join axis i [] others = done []
join axis i (d ∷ dims) [] = panic
join axis i (d ∷ dims) (e ∷ others) =
    if i == axis
    then (do rest ← join axis (suc i) dims others; done ((d + e) ∷ rest))
    else if d == e
    then (do rest ← join axis (suc i) dims others; done (d ∷ rest))
    else fail (infer_error "Concat: Different dim")

-- The loop over the inputs after the first.
unfoldable pub join_all :
    ℕ → ResolvedTensorDims → List ResolvedTensorType → Attempt ResolvedTensorDims
unfolding join
join_all axis dims [] = done dims
join_all axis dims (input ∷ inputs) =
    if ndim dims == ndim input.dims
    then (do next ← join axis 0 dims input.dims; join_all axis next inputs)
    else fail (infer_error "Concat: Different ranks")

unfoldable pub concat : TensorIndex → List ResolvedTensorType → Attempt ResolvedTensorType
unfolding join_all
concat axis [] = panic
concat axis (first ∷ inputs) = do
  dims ← join_all (index axis (ndim first.dims)) first.dims inputs
  done (Types.new first.elem_type dims)

-- The shape of a part of the shape.
unfoldable pub shape_output :
    TensorIndex → Option TensorIndex → ResolvedTensorType → Attempt ResolvedTensorType
shape_output start end input = do
  let rank = ndim input.dims
  len ← must (checked_sub (elim end [ none ↦ rank | some e ↦ index e rank ]) (index start rank))
  done (Types.new (sint Types.i64) (Dims.new (len ∷ [])))

-- The outputs of `Split`, each with its size at the axis.
unfoldable pub split_output : Split → ResolvedTensorType → Attempt (List ResolvedTensorType)
split_output s input = do
  found ← must (Geometry.split s input.dims)
  sizes ← ok_or found (infer_error "Invalid split dims")
  done (
      map (λ x. Types.new input.elem_type (set input.dims (index s.axis (ndim input.dims)) x))
        sizes)

-- `drop[axis] = true` for axes whose size is 1.
unfoldable pub mark_ones : ResolvedTensorDims → List Bool → List TensorIndex → Attempt (List Bool)
mark_ones dims flags [] = done flags
mark_ones dims flags (axis ∷ axes) = do
  let i = index axis (ndim dims)
  d ← at dims i
  check (d == 1)
  mark_ones dims (set flags i true) axes

-- The entries that are not marked.
abbrev pub unmarked : List Bool → List ℕ → List ℕ
unmarked flags [] = []
unmarked [] (x ∷ xs) = x ∷ xs
unmarked (b ∷ flags) (x ∷ xs) = if b then unmarked flags xs else x ∷ unmarked flags xs

-- The type with new sizes, and with new strides where the strides are checked.
abbrev pub restrided : UnifyMode → DataType → List ℕ → List ℕ → Attempt ResolvedTensorType
restrided mode elem_type dims strides =
    if checks_strides mode
    then must (with_stride elem_type (Dims.new dims) (Dims.new strides))
    else done (Types.new elem_type (Dims.new dims))

unfoldable pub squeeze :
    Option (List TensorIndex) → ResolvedTensorType → UnifyMode → Attempt ResolvedTensorType
unfolding mark_ones
squeeze axes input mode = do
  let dims = input.dims
  flags ← elim axes [
    | none ↦ done (map (λ d. d == 1) dims)
    | some is ↦ mark_ones dims (replicate (ndim dims) false) is
  ]
  restrided mode input.elem_type (unmarked flags (take (length input.stride) dims))
      (unmarked flags (take (ndim dims) input.stride))

-- The sizes of the indices take the place of the size at the axis; with no such axis they are left
-- out.
unfoldable pub gather :
    TensorIndex → ResolvedTensorType → ResolvedTensorType → Attempt ResolvedTensorType
gather axis input indices = do
  let rank = ndim input.dims
  let i = index axis rank
  check (leb 1 rank)
  done (
      Types.new input.elem_type (
        Dims.new (
          if ltb i rank
          then take i input.dims ++ indices.dims ++ drop (suc i) input.dims
          else input.dims)))

-- The sizes with a 1 and the strides with a 0 at every flag, and the sizes that are left over.
unfoldable pub inserted : List Bool → List ℕ → List ℕ → Attempt ((List ℕ × List ℕ) × List ℕ)
inserted [] dims strides = done (([], []), dims)
inserted (true ∷ flags) dims strides = do
  ((ds, ss), left) ← inserted flags dims strides
  done ((1 ∷ ds, 0 ∷ ss), left)
inserted (false ∷ flags) [] strides = fail (infer_error "Unsqueeze: Not enough dimensions")
inserted (false ∷ flags) (d ∷ dims) [] = fail (infer_error "Unsqueeze: Not enough strides")
inserted (false ∷ flags) (d ∷ dims) (s ∷ strides) = do
  ((ds, ss), left) ← inserted flags dims strides
  done ((d ∷ ds, s ∷ ss), left)

abbrev pub is_empty : List ℕ → Bool
is_empty [] = true
is_empty (_ ∷ _) = false

unfoldable pub unsqueeze :
    List TensorIndex → ResolvedTensorType → UnifyMode → Attempt ResolvedTensorType
unfolding mark_all inserted
unsqueeze axes input mode = do
  let rank = ndim input.dims + length axes
  flags ← mark_all (replicate rank false) (map (λ a. index a rank) axes)
  ((dims, strides), left) ← inserted flags input.dims input.stride
  check (is_empty left)
  restrided mode input.elem_type dims strides

unfoldable pub one_hot : OneHot → ResolvedTensorType → Attempt ResolvedTensorType
one_hot o indices = do
  let rank = ndim indices.dims
  contiguous ← must (is_contiguous indices)
  check contiguous
  check (from_end (rank + 1) o.axis == rank)
  depth ← ok_or o.depth (infer_error "Unresolved depth")
  on_value ← ok_or o.on_value (infer_error "Unresolved on_value")
  off_value ← ok_or o.off_value (infer_error "Unresolved off_value")
  check (type_eq on_value off_value)
  done (Types.new on_value (push indices.dims depth))
