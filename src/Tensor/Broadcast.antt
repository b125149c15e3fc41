-- ===== src/Tensor/Broadcast.antt =====
-- `TypeError`, `broadcast_shape_body` and `broadcast_shape` of src/tensor/types.rs.
pub mod Rule
use Prim.Native.String.{String}
use my_nn_engine.Prelude.{
  ℕ, ◌-◌, Bool, true, false, List, [], ◌∷◌, ◌++◌, Option, none, some, take, drop, ltb, ◌==◌,
  if◌then◌else◌,
}
use my_nn_engine.Tensor.Dims.{ResolvedTensorDims, ndim}

pub data TypeError : Type 0 where
  invalid_shape : ℕ → ResolvedTensorDims → TypeError
  broadcast_error : ResolvedTensorDims → ResolvedTensorDims → TypeError
  reshape_error : ResolvedTensorDims → ResolvedTensorDims → TypeError
  infer_error : String → TypeError
  inconsistent_input : TypeError
  element_type_error : TypeError
  unresolved_input : TypeError

pub data Result {ℓ} (A : Type ℓ) : Type ℓ where
  ok : A → Result A
  err : TypeError → Result A

-- One step of the loop: `*v` becomes the combined size, or the loop returns the error.
unfoldable pub merge : ℕ → ℕ → Option ℕ
merge v r = if v == r then some v else if v == 1 then some r else if r == 1 then some v else none

-- The loop over the zipped sizes; it stops at the shorter list.
unfoldable pub merge_all : List ℕ → List ℕ → Option (List ℕ)
merge_all [] rs = some []
merge_all (v ∷ vs) [] = some (v ∷ vs)
merge_all (v ∷ vs) (r ∷ rs) = elim (merge v r) [
  | none ↦ none
  | some d ↦ elim (merge_all vs rs) [ none ↦ none | some ds ↦ some (d ∷ ds) ]
]

-- `lhs` is the longer shape, so that `rem` does not underflow.
unfoldable pub broadcast_shape_body :
    ResolvedTensorDims → ResolvedTensorDims → Result ResolvedTensorDims
unfolding merge_all
broadcast_shape_body lhs rhs =
    let rem = ndim lhs - ndim rhs in
    elim (merge_all (drop rem lhs) rhs) [
      | none ↦ err (broadcast_error lhs rhs)
      | some merged ↦ ok (take rem lhs ++ merged)
    ]

unfoldable pub broadcast_shape : ResolvedTensorDims → ResolvedTensorDims → Result ResolvedTensorDims
unfolding broadcast_shape_body
broadcast_shape lhs rhs =
    if ltb (ndim lhs) (ndim rhs) then broadcast_shape_body rhs lhs else broadcast_shape_body lhs rhs
