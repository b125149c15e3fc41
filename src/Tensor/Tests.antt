-- ===== src/Tensor/Tests.antt =====
-- The tensor types on concrete shapes.
use my_nn_engine.Prelude.{
  Bool, false, ℕ, ◌<◌, ◌≡◌, ◌↔◌, ◌⊎◌, ◌≢◌, refl, List, [], ◌∷◌, true, none, some, arith, product,
  drop, ◌-◌,
}
use my_nn_engine.Tensor.Dims.{ndim}
use my_nn_engine.Tensor.Broadcast.{broadcast_shape, ok}
use my_nn_engine.Tensor.Broadcast.Rule.{Broadcasts, broadcast_shape_iff}
use my_nn_engine.Tensor.Types.{
  DataType, float, f32, ResolvedTensorType, new, broadcast, is_contiguous, storage_num_elements,
  contiguous,
}
use my_nn_engine.Tensor.Types.Layout.{offset, InBounds, ravel, new_row_major}
use my_nn_engine.Tensor.Types.Contiguous.{IsRowMajor, NoneRepeated, is_contiguous_iff}
use my_nn_engine.Tensor.Types.Storage.{storage_num_elements-new}
use my_nn_engine.Tensor.Types.Views.{IsWellFormed, new-IsWellFormed, clip, broadcast_reads}
use my_nn_engine.Tensor.Reshape.{try_reshape}
use my_nn_engine.Tensor.Reshape.Cuts.{done, split}
use my_nn_engine.Tensor.Reshape.Sound.{CutsFrom, IsReshaped, try_reshape_sound}
use my_nn_engine.Tensor.Reshape.Overlap.{reshape_overlaps}

abbrev single : DataType
single = float f32

abbrev matrix : ResolvedTensorType
matrix = new single (2 ∷ 6 ∷ [])

matrix-IsWellFormed : IsWellFormed matrix
matrix-IsWellFormed = new-IsWellFormed single (2 ∷ 6 ∷ [])

-- Twelve elements as 2 × 3 × 2: the 6 is split.
matrix-CutsFrom : CutsFrom (2 ∷ 6 ∷ []) (2 ∷ 3 ∷ 2 ∷ [])
matrix-CutsFrom = split 2 3 6 (omega arith) (omega arith) refl (
    split 3 1 3 (omega arith) (omega arith) refl
      (split 2 1 2 (omega arith) (omega arith) refl done))

try_reshape_sound_example :
    ((try_reshape matrix (2 ∷ 3 ∷ 2 ∷ []) ≡ some none) × (matrix ≢ contiguous matrix))
    ⊎ ((view : ResolvedTensorType) × (try_reshape matrix (2 ∷ 3 ∷ 2 ∷ []) ≡ some (some view))
        × IsReshaped matrix (2 ∷ 3 ∷ 2 ∷ []) view)
unfolding new
try_reshape_sound_example =
    try_reshape_sound matrix (2 ∷ 3 ∷ 2 ∷ []) matrix-IsWellFormed refl matrix-CutsFrom

reshape_overlaps_example :
    (view : ResolvedTensorType) × (try_reshape (new single (2 ∷ 6 ∷ [])) (3 ∷ 4 ∷ [])
      ≡ some (some view))
    × (offset view.stride (1 ∷ 0 ∷ []) ≡ offset view.stride (0 ∷ 1 ∷ []))
reshape_overlaps_example =
    reshape_overlaps single 2 6 3 4 (omega arith) (omega arith) (omega arith) (omega arith)
      (λ e. omega arith) refl

broadcast_shape_iff_example :
    (broadcast_shape (2 ∷ 1 ∷ []) (3 ∷ []) ≡ ok (2 ∷ 3 ∷ []))
    ↔ Broadcasts (2 ∷ 1 ∷ []) (3 ∷ []) (2 ∷ 3 ∷ [])
broadcast_shape_iff_example = broadcast_shape_iff (2 ∷ 1 ∷ []) (3 ∷ []) (2 ∷ 3 ∷ [])

abbrev row : ResolvedTensorType
row = new single (6 ∷ [])

fits : broadcast_shape (2 ∷ 6 ∷ []) (6 ∷ []) ≡ ok (2 ∷ 6 ∷ [])
unfolding broadcast_shape my_nn_engine.Tensor.Broadcast.merge
fits = refl

broadcast_reads_example :
    (view : ResolvedTensorType) × (broadcast row (2 ∷ 6 ∷ []) ≡ some view)
    × (view.dims ≡ 2 ∷ 6 ∷ [])
    × ((is : List ℕ)
        → InBounds (2 ∷ 6 ∷ []) is
        → let original = clip row.dims (drop (ndim (2 ∷ 6 ∷ []) - ndim row.dims) is) in
          InBounds row.dims original × (offset view.stride is ≡ offset row.stride original))
unfolding new
broadcast_reads_example = broadcast_reads row (2 ∷ 6 ∷ []) (new-IsWellFormed single (6 ∷ [])) fits

abbrev two : List ℕ
two = 1 ∷ 2 ∷ []

abbrev other : List ℕ
other = 0 ∷ 1 ∷ []

new_row_major_example :
    (offset (new single (2 ∷ 3 ∷ [])).stride (1 ∷ 2 ∷ []) ≡ ravel (2 ∷ 3 ∷ []) (1 ∷ 2 ∷ []))
    × (ravel (2 ∷ 3 ∷ []) (1 ∷ 2 ∷ []) < product (2 ∷ 3 ∷ []))
    × (offset (new single (2 ∷ 3 ∷ [])).stride (1 ∷ 2 ∷ [])
          ≡ offset (new single (2 ∷ 3 ∷ [])).stride (0 ∷ 1 ∷ [])
        → two ≡ other)
new_row_major_example =
    new_row_major single (2 ∷ 3 ∷ []) (1 ∷ 2 ∷ []) (0 ∷ 1 ∷ []) (omega arith, (omega arith, tt))
      (omega arith, (omega arith, tt))

abbrev stacked_rows : ResolvedTensorType
stacked_rows = record { elem_type = single; dims = 2 ∷ 1 ∷ 3 ∷ []; stride = 3 ∷ 0 ∷ 1 ∷ [] }

is_contiguous_iff_example :
    (answer : Bool) × (is_contiguous stacked_rows ≡ some answer)
    × ((answer ≡ true) ↔ IsRowMajor stacked_rows.dims stacked_rows.stride)
    × (answer ≡ true
        → NoneRepeated stacked_rows.dims stacked_rows.stride
        → (is : List ℕ) → InBounds stacked_rows.dims is
        → offset stacked_rows.stride is ≡ ravel stacked_rows.dims is)
is_contiguous_iff_example = is_contiguous_iff stacked_rows refl

-- A transposed matrix is not contiguous.
columns_first :
    is_contiguous (record { elem_type = single; dims = 3 ∷ 2 ∷ []; stride = 1 ∷ 3 ∷ [] })
    ≡ some false
unfolding is_contiguous my_nn_engine.Tensor.Types.is_contiguous_loop
columns_first = refl

storage_num_elements-new_example : storage_num_elements (new single (2 ∷ 0 ∷ 3 ∷ [])) ≡ some 0
storage_num_elements-new_example = storage_num_elements-new single (2 ∷ 0 ∷ 3 ∷ [])
