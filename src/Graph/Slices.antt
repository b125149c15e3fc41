-- ===== src/Graph/Slices.antt =====
-- `Slice` of src/graph/operator.rs, and `slices` of src/tensor/types.rs.
pub mod Sizes
use my_nn_engine.Prelude.{
  ℕ, zero, suc, ℤ, pos, negsuc, to_usize, to_isize, from_end, clamp, ◌-ℤ◌, Bool, true, false, ◌&&◌,
  List, [], ◌∷◌, Option, none, some, ◌>>=◌, ◌>>◌, assert, length, get_elem?, set, map, ltb, ◌==◌,
  if◌then◌else◌,
}
use my_nn_engine.Tensor.Dims.{ResolvedTensorDims, ndim, write}
use my_nn_engine.Tensor.Types.{ResolvedTensorType}
use my_nn_engine.Tensor.Types
use my_nn_engine.Tensor.Data.{Tensor, to_indices, to_1d_sints}
use my_nn_engine.Graph.Operator.{TensorIndex, index}
use my_nn_engine.Graph.Nodes.{Graph, Node, get_resolved_tensor_type}

pub record Slice : Type 0 where
  pub start : ℤ
  pub end : ℤ
  pub axis : ℕ
  pub step : ℤ

abbrev pub is_one : ℤ → Bool
is_one (pos n) = n == 1
is_one (negsuc n) = false

-- An end of a slice of an axis, counted from the end of the axis if it is negative.
unfoldable pub bound_of : ℕ → TensorIndex → ℤ
bound_of d x = clamp (to_isize (index x d)) d

unfoldable pub slice_of :
    ResolvedTensorDims → TensorIndex → TensorIndex → TensorIndex → Option Slice
unfolding bound_of
slice_of dims start end axis = do
  let i = index axis (ndim dims)
  d ← get_elem? dims i
  some record { start = bound_of d start; end = bound_of d end; axis = i; step = pos 1 }

-- The three lists together, as far as the shortest goes.
unfoldable pub zip_slices :
    ResolvedTensorDims
    → List TensorIndex
    → List TensorIndex
    → List TensorIndex
    → Option (List Slice)
unfolding slice_of
zip_slices dims (s ∷ starts) (e ∷ ends) (a ∷ axes) = do
  slice ← slice_of dims s e a
  rest ← zip_slices dims starts ends axes
  some (slice ∷ rest)
zip_slices dims _ _ _ = some []

-- An input that may be missing.
abbrev pub input_at : List (Option ℕ) → ℕ → Option ℕ
input_at inputs i = get_elem? inputs i >>= λ x. x

-- `?`: a missing value is the result.
abbrev pub try {ℓ κ} :
    {A : Type ℓ} {B : Type κ} → Option A → (A → Option (Option B)) → Option (Option B)
try none k = some none
try (some a) k = k a

abbrev pub or_else {ℓ} : {A : Type ℓ} → Option A → A → A
or_else none a = a
or_else (some b) a = b

-- The indices below `n`, from `i` on.
abbrev pub indices_from : ℕ → ℕ → List TensorIndex
indices_from i zero = []
indices_from i (suc n) = pos i ∷ indices_from (suc i) n

abbrev pub all_one : List ℤ → Bool
all_one [] = true
all_one (x ∷ xs) = is_one x && all_one xs

-- Steps that are given must be 1.
unfoldable pub check_steps : Graph → Option ℕ → Option (Unit {0})
check_steps graph none = some tt
check_steps graph (some id) = do
  steps ← graph.get_initializer id >>= to_1d_sints
  assert (all_one steps)

-- The outer `none` is a panic, the inner one the result of the source.
unfoldable pub collect_from_inputs : Graph → List (Option ℕ) → Option (Option (List Slice))
unfolding zip_slices check_steps
collect_from_inputs graph inputs = do
  ty ← input_at inputs 0 >>= get_resolved_tensor_type graph
  try ty (λ r. do
    starts_id ← input_at inputs 1
    try (graph.get_initializer starts_id >>= to_indices) (λ starts. do
      ends_id ← input_at inputs 2
      try (graph.get_initializer ends_id >>= to_indices) (λ ends. do
        let given = input_at inputs 3 >>= λ id. graph.get_initializer id >>= to_indices
        check_steps graph (input_at inputs 4)
        slices ← zip_slices r.dims starts ends (or_else given (indices_from 0 (length starts)))
        some (some slices))))

unfoldable pub collect_slices : Graph → Node → Option (Option (List Slice))
unfolding collect_from_inputs
collect_slices graph node = collect_from_inputs graph node.inputs

-- `ResolvedTensorDims::slices`.
unfoldable pub slices : ResolvedTensorDims → List Slice → Option ResolvedTensorDims
slices dims [] = some dims
slices dims (s ∷ rest) = do
  assert (is_one s.step)
  next ← write dims s.axis (to_usize (s.end -ℤ s.start))
  slices next rest

-- `ResolvedTensorType::slices`.
unfoldable pub type_slices : ResolvedTensorType → List Slice → Option ResolvedTensorType
unfolding slices
type_slices ty ss = do dims ← slices ty.dims ss; some (Types.new ty.elem_type dims)
