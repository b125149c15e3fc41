-- ===== src/Graph/Geometry.antt =====
-- The methods of src/graph/operator.rs that compute sizes: TensorIndex, Conv, Pooling, Reduce, Split
-- and Transpose. `none` is a panic: an index out of range, a failed assertion, a subtraction below 0
-- or a division by 0.
pub mod Cut
use my_nn_engine.Prelude.{
  ℕ, zero, suc, ◌+◌, ◌-◌, ◌*◌, ◌/◌, ◌%◌, ℤ, to_usize, from_end, Bool, true, false, List, [], ◌∷◌,
  ◌++◌, Option, none, some, ◌>>=◌, ◌>>◌, assert, length, get_elem?, set, take, drop, replicate, map,
  reverse, sum, ltb, leb, min, ◌==◌, if◌then◌else◌,
}
use mathlib.Core.Option
use my_nn_engine.Tensor.Dims.{ResolvedTensorDims, ndim}
use my_nn_engine.Tensor.Dims
use my_nn_engine.Graph.Operator.{
  Layout, nchw, nhwc, TensorIndex, index, OptionalVec, ConvPad, not_set, same_upper, same_lower,
  valid, Conv, Pooling, Reduce, Split, SplitOutputs, num_outputs,
}

-- `v[i]`.
abbrev pub entry {ℓ} : {A : Type ℓ} → OptionalVec A → ℕ → Option A
entry v i = elim v.vec [ none ↦ some v.default | some xs ↦ get_elem? xs i ]

abbrev pub no_pad : OptionalVec (ℕ × ℕ)
no_pad = record { vec = none; default = (0, 0) }

-- A difference that may not be below 0, and a quotient by a divisor that may not be 0.
abbrev pub checked_sub : ℕ → ℕ → Option ℕ
checked_sub a b = if leb b a then some (a - b) else none

abbrev pub checked_div : ℕ → ℕ → Option ℕ
checked_div a b = if b == 0 then none else some (a / b)

-- `a.div_ceil(b)`.
abbrev pub div_ceil : ℕ → ℕ → Option ℕ
div_ceil a b = if b == 0 then none else some (if a % b == 0 then a / b else a / b + 1)

unfoldable pub padded_input_size : List ℕ → OptionalVec (ℕ × ℕ) → ℕ → Option ℕ
padded_input_size input_shape pad i = do
  d ← get_elem? input_shape i
  p ← entry pad i
  some (d + p.0 + p.1)

unfoldable pub distance_per_conv : List ℕ → OptionalVec ℕ → ℕ → Option ℕ
distance_per_conv kernel_shape dilations i = do
  k ← get_elem? kernel_shape i
  dilation ← entry dilations i
  less ← checked_sub k 1
  some (dilation * less + 1)

-- The padded size less the extent of the kernel.
unfoldable pub slack : List ℕ → List ℕ → OptionalVec (ℕ × ℕ) → OptionalVec ℕ → ℕ → Option ℕ
unfolding padded_input_size distance_per_conv
slack kernel_shape input_shape pad dilations i = do
  size ← padded_input_size input_shape pad i
  distance ← distance_per_conv kernel_shape dilations i
  checked_sub size distance

-- A size of the result of a convolution: padding was given, or is chosen to keep the size.
unfoldable pub conv_dim : Conv → Option (OptionalVec (ℕ × ℕ)) → List ℕ → List ℕ → ℕ → Option ℕ
unfolding slack
conv_dim c pad kernel_shape input i = do
  stride ← entry c.strides i
  elim pad [
    | some p ↦ (do
      num ← slack kernel_shape input p c.dilations i
      q ← checked_div num stride
      some (q + 1))
    | none ↦ (do d ← get_elem? input i; div_ceil d stride)
  ]

-- `n` rounds of a loop over the spatial axes, from `i` on.
unfoldable pub spatial_loop : (ℕ → Option ℕ) → ℕ → ℕ → Option (List ℕ)
spatial_loop dim i zero = some []
spatial_loop dim i (suc n) = do d ← dim i; ds ← spatial_loop dim (suc i) n; some (d ∷ ds)

abbrev pub conv_pad : Conv → Option (OptionalVec (ℕ × ℕ))
conv_pad c = elim c.pad [
  | not_set pad ↦ some pad
  | same_upper ↦ none
  | same_lower ↦ none
  | valid ↦ some no_pad
]

-- The entries of a shape with four axes, in another order.
unfoldable pub permuted4 : ResolvedTensorDims → ℕ → ℕ → ℕ → ℕ → Option ResolvedTensorDims
permuted4 dims i j k l = do
  assert (ndim dims == 4)
  a ← get_elem? dims i
  b ← get_elem? dims j
  c ← get_elem? dims k
  d ← get_elem? dims l
  some (Dims.new (a ∷ b ∷ c ∷ d ∷ []))

unfoldable pub to_nchw : Layout → ResolvedTensorDims → Option ResolvedTensorDims
to_nchw nchw dims = some dims
to_nchw nhwc dims = permuted4 dims 0 3 1 2

unfoldable pub from_nchw : Layout → ResolvedTensorDims → Option ResolvedTensorDims
from_nchw nchw dims = some dims
from_nchw nhwc dims = permuted4 dims 0 2 3 1

unfoldable pub conv_output_shape :
    Conv → ResolvedTensorDims → ResolvedTensorDims → Option ResolvedTensorDims
unfolding conv_dim spatial_loop to_nchw from_nchw
conv_output_shape c input_shape weight_shape = do
  assert (ndim input_shape == ndim weight_shape)
  nchw_input ← to_nchw c.input_layout input_shape
  batch_size ← get_elem? nchw_input 0
  channels ← get_elem? nchw_input 1
  n ← checked_sub (ndim nchw_input) 2
  feature_map_size ← get_elem? weight_shape 0
  assert (if c.group == 0 then feature_map_size == 0 else feature_map_size % c.group == 0)
  in_group ← get_elem? weight_shape 1
  assert (channels == in_group * c.group)
  spatial ← spatial_loop (conv_dim c (conv_pad c) (drop 2 weight_shape) (drop 2 nchw_input)) 0 n
  from_nchw c.output_layout (Dims.new (batch_size ∷ feature_map_size ∷ spatial))

abbrev pub pooling_pad : Pooling → Option (OptionalVec (ℕ × ℕ))
pooling_pad p = elim p.pad [
  | not_set pad ↦ some pad
  | valid ↦ some no_pad
  | same_upper ↦ none
  | same_lower ↦ none
]

unfoldable pub pooling_dim : Pooling → OptionalVec (ℕ × ℕ) → List ℕ → ℕ → Option ℕ
unfolding slack
pooling_dim p pad spatial i = do
  stride ← entry p.strides i
  num ← slack p.kernel_shape spatial pad p.dilations i
  q ← if p.ceil_mode then div_ceil num stride else checked_div num stride
  some (q + 1)

unfoldable pub pooling_output_shape : Pooling → ResolvedTensorDims → Option ResolvedTensorDims
unfolding pooling_dim spatial_loop
pooling_output_shape p input_shape = elim p.layout [
  | nchw ↦ (do
    nbatch ← get_elem? input_shape 0
    channel ← get_elem? input_shape 1
    pad ← pooling_pad p
    let spatial = drop 2 input_shape
    out ← spatial_loop (pooling_dim p pad spatial) 0 (length spatial)
    some (Dims.new (nbatch ∷ channel ∷ out)))
  | nhwc ↦ (do
    nbatch ← get_elem? input_shape 0
    last ← checked_sub (ndim input_shape) 1
    channel ← get_elem? input_shape last
    assert (leb 1 last)
    pad ← pooling_pad p
    let spatial = take (last - 1) (drop 1 input_shape)
    out ← spatial_loop (pooling_dim p pad spatial) 0 (length spatial)
    some (Dims.new (nbatch ∷ out ++ channel ∷ [])))
]

-- `normalize_axes`, with its own result, none, for an axis out of range.
abbrev pub all_below : ℕ → List ℕ → Bool
all_below n [] = true
all_below n (i ∷ is) = if ltb i n then all_below n is else false

unfoldable pub normalize_axes : Reduce → ℕ → Option (List ℕ)
normalize_axes reduce rank =
    let res = map (from_end rank) reduce.axes in if all_below rank res then some res else none

-- The numbers below `n`, the largest first: `(0..n).rev()`.
abbrev pub reversed_range : ℕ → List ℕ
reversed_range zero = []
reversed_range (suc n) = n ∷ reversed_range n

-- The loop that marks the positions, each of which may be marked once.
unfoldable pub marks : List Bool → List ℕ → Bool
marks flags [] = true
marks flags (p ∷ ps) = elim (get_elem? flags p) [
  | none ↦ false
  | some b ↦ if b then false else marks (set flags p true) ps
]

-- `Transpose::perm`, with its own result, none, for a list that is no permutation.
unfoldable pub perm : Option (List ℕ) → ℕ → Option (List ℕ)
unfolding marks
perm given rank =
    let res : List ℕ = elim given [ none ↦ reversed_range rank | some ps ↦ ps ] in
    if marks (replicate (length res) false) res then some res else none

-- The loop that cuts `bound` into pieces of `step`; `none` is the end of the fuel.
unfoldable pub cut_loop : ℕ → ℕ → ℕ → ℕ → Option (List ℕ)
cut_loop zero cur step bound = none
cut_loop (suc fuel) cur step bound =
    if ltb cur bound
    then (let end = min (cur + step) bound in
        Option.map (λ r. (end - cur) ∷ r) (cut_loop fuel end step bound))
    else some []

-- `Split::split`: a panic, or none where the sizes do not add up. A piece is at least 1 long unless
-- the step is 0, and then the loop of the source does not end.
unfoldable pub split : Split → ResolvedTensorDims → Option (Option (List ℕ))
unfolding cut_loop
split s dims = do
  dim ← get_elem? dims (index s.axis (ndim dims))
  elim s.outputs [
    | none ↦ some (some (dim / 2 ∷ (dim - dim / 2) ∷ []))
    | some (num_outputs n) ↦ (do
      step ← checked_div dim n
      sizes ← cut_loop (suc dim) 0 step dim
      some (some sizes))
    | some (SplitOutputs.split sizes) ↦ some (if sum sizes == dim then some sizes else none)
  ]
