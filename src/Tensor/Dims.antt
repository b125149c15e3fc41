-- ===== src/Tensor/Dims.antt =====
-- `ResolvedTensorDims` of src/tensor/types.rs. A `usize` is a ℕ: sizes whose product passes 2 ^ 64
-- abort in a checked build. `none` is a panic of the source (an index out of range, a failed assert).
use my_nn_engine.Prelude.{
  ℕ, ◌+◌, ◌-◌, Bool, true, false, ◌||◌, List, [], ◌∷◌, ◌++◌, Option, none, some, ◌>>=◌, length,
  get_elem?, set, take, drop, sum, product, ltb, leb, ◌==◌, if◌then◌else◌,
}

-- The newtype over a vector of sizes; its field is all it has.
abbrev pub ResolvedTensorDims : Type 0
ResolvedTensorDims = List ℕ

-- A shape whose sizes add up to 0 becomes the scalar shape.
unfoldable pub new : List ℕ → ResolvedTensorDims
new v = if sum v == 0 then [] else v

unfoldable pub new_direct : List ℕ → ResolvedTensorDims
new_direct v = v

abbrev pub ndim : ResolvedTensorDims → ℕ
ndim dims = length dims

abbrev pub is_scalar : ResolvedTensorDims → Bool
is_scalar [] = true
is_scalar (_ ∷ _) = false

-- The scalar shape has size 0.
abbrev pub size : ResolvedTensorDims → ℕ
size dims = if is_scalar dims then 0 else product dims

abbrev pub compatible_with_scalar : ResolvedTensorDims → Bool
compatible_with_scalar dims = is_scalar dims || size dims == 1

-- `self.0[..len]` panics past the end.
unfoldable pub prefix : ResolvedTensorDims → ℕ → Option ResolvedTensorDims
unfolding new
prefix dims len = if leb len (ndim dims) then some (new (take len dims)) else none

-- `self.0.len() - len` underflows past the end.
unfoldable pub suffix : ResolvedTensorDims → ℕ → Option ResolvedTensorDims
unfolding new
suffix dims len = if leb len (ndim dims) then some (new (drop (ndim dims - len) dims)) else none

unfoldable pub push : ResolvedTensorDims → ℕ → ResolvedTensorDims
push dims v = dims ++ v ∷ []

abbrev pub last : ResolvedTensorDims → Option ℕ
last [] = none
last (d ∷ []) = some d
last (_ ∷ d ∷ ds) = last (d ∷ ds)

-- `v[i] = x`, which panics out of range.
abbrev pub write {ℓ} : {A : Type ℓ} → List A → ℕ → A → Option (List A)
write xs i x = if ltb i (length xs) then some (set xs i x) else none

-- The loop over the enumerated permutation, from position `i` on.
unfoldable pub transpose_from : List ℕ → List ℕ → ℕ → List ℕ → Option (List ℕ)
transpose_from self res i [] = some res
transpose_from self res i (p ∷ perms) = do
  d ← get_elem? self p
  res' ← write res i d
  transpose_from self res' (i + 1) perms

unfoldable pub transpose : ResolvedTensorDims → List ℕ → Option ResolvedTensorDims
unfolding transpose_from
transpose dims perms = transpose_from dims dims 0 perms
