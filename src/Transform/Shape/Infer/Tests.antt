-- ===== src/Transform/Shape/Infer/Tests.antt =====
-- Runs of the shape inference of src/transform/shape.rs and src/graph/operator.rs.
use my_nn_engine.Prelude.{
  ◌>>=◌, ◌-◌, ◌^◌, set, ℕ, ◌/◌, ◌%◌, ◌<◌, ◌≤◌, ◌≡◌, refl, ◌⊎◌, pos, negsuc, true, false, List, [],
  ◌∷◌, none, some, All, length, sum, ◌==◌, if◌then◌else◌, arith,
}
use my_nn_engine.Tensor.Dims.{ResolvedTensorDims, ndim}
use my_nn_engine.Tensor.Dims
use my_nn_engine.Tensor.Types.{ResolvedTensorType, DataType, float, contiguous}
use my_nn_engine.Tensor.Types
use my_nn_engine.Tensor.Broadcast.{TypeError, broadcast_shape, ok, err}
use my_nn_engine.Graph.Operator.{Operator, Split, num_outputs, index}
use my_nn_engine.Graph.Geometry.{split, cut_loop}
use my_nn_engine.Graph.Geometry.Cut.{IsPiece, split-IsPiece, split_stuck}
use my_nn_engine.Graph.Slices.{slice_of, slices}
use my_nn_engine.Graph.Slices.Sizes.{place, extent, slices-extent}
use my_nn_engine.Transform.Attempt.{done, fail, panic}
use my_nn_engine.Transform.Shape.{overwrite_strides, check_strides}
use my_nn_engine.Transform.Shape.Matrix.{mat_mul}
use my_nn_engine.Transform.Shape.Axes.{concat, unsqueeze, squeeze, mark_all, inserted}
use my_nn_engine.Transform.Shape.Axes.Joined.{all_agree, IsJoined, concat-outcome}
use my_nn_engine.Transform.Shape.Axes.Inserted.{unsqueeze-squeeze}
use my_nn_engine.Transform.Shape.Infer.{infer_node_output, infer_operator}
use my_nn_engine.Transform.Shape.Arms.{input_types, binary, broadcast_to}
use my_nn_engine.Graph.Nodes.{Graph, Node, resolved}
use my_nn_engine.Transform.Shape.Infer.Products.{stacked, mat_mul-outcome}

abbrev in_two : Split
in_two = record { axis = pos 0; outputs = some (num_outputs 2) }

abbrev in_three : Split
in_three = record { axis = negsuc 0; outputs = some (num_outputs 3) }

split-IsPiece_example :
    (sizes : List ℕ) × (split in_two (7 ∷ []) ≡ some (some sizes))
    × (sum sizes ≡ 7)
    × All (IsPiece (7 / 2)) sizes
    × (2 ≤ length sizes)
    × (0 < 7 % 2 → 2 < length sizes)
split-IsPiece_example = split-IsPiece in_two (7 ∷ []) 2 7 refl refl (omega arith) (omega arith)

-- A split of 7 in two outputs gives three.
three_pieces : split in_two (7 ∷ []) ≡ some (some (3 ∷ 3 ∷ 1 ∷ []))
unfolding split cut_loop
three_pieces = refl

split_stuck_example :
    (split in_three (5 ∷ 2 ∷ []) ≡ none) × ((fuel : ℕ) → cut_loop fuel 0 (2 / 3) 2 ≡ none)
split_stuck_example = split_stuck in_three (5 ∷ 2 ∷ []) 3 2 refl refl (omega arith) (omega arith)

abbrev single : DataType
single = float Types.f32

abbrev wide : ResolvedTensorType
wide = Types.new single (2 ∷ 3 ∷ [])

abbrev narrow : ResolvedTensorType
narrow = Types.new single (2 ∷ 1 ∷ [])

concat-outcome_example :
    ((all_agree 1 wide.dims (narrow ∷ []) ≡ true)
      × (joined : ResolvedTensorDims) × (concat (pos 1) (wide ∷ narrow ∷ [])
          ≡ done (Types.new wide.elem_type joined))
      × IsJoined 1 wide.dims (narrow ∷ []) joined)
    ⊎ ((all_agree 1 wide.dims (narrow ∷ []) ≡ false)
        × (e : TypeError) × (concat (pos 1) (wide ∷ narrow ∷ []) ≡ fail e))
concat-outcome_example = concat-outcome (pos 1) wide (narrow ∷ [])

abbrev column : ResolvedTensorType
column = Types.new single (2 ∷ 1 ∷ 3 ∷ [])

put : unsqueeze (pos 1 ∷ []) wide overwrite_strides ≡ done column
unfolding unsqueeze mark_all inserted Types.new Dims.new
put = refl

unsqueeze-squeeze_example :
    squeeze (some (pos 1 ∷ [])) column overwrite_strides
    ≡ done (Types.new wide.elem_type (Dims.new wide.dims))
unsqueeze-squeeze_example =
    unsqueeze-squeeze (pos 1 ∷ []) wide column overwrite_strides overwrite_strides refl refl
      (omega arith) put

-- With the strides checked, a scalar has no type with one more axis: its stride 0 is no shape.
no_axis : unsqueeze (pos 0 ∷ []) (Types.new single []) check_strides ≡ panic
unfolding unsqueeze mark_all inserted Types.new Dims.new Types.with_stride
no_axis = refl

abbrev lhs : ResolvedTensorType
lhs = Types.new single (5 ∷ 2 ∷ 3 ∷ [])

abbrev rhs : ResolvedTensorType
rhs = Types.new single (3 ∷ 4 ∷ [])

mat_mul-outcome_example :
    ((dims : ResolvedTensorDims)
      → broadcast_shape (Dims.new (5 ∷ [])) (Dims.new []) ≡ ok dims
      → mat_mul lhs rhs
        ≡ (if 3 == 3 then done (Types.new lhs.elem_type (stacked dims 2 4)) else panic))
    × ((e : TypeError)
        → broadcast_shape (Dims.new (5 ∷ [])) (Dims.new []) ≡ err e
        → mat_mul lhs rhs ≡ fail e)
unfolding Types.new
mat_mul-outcome_example =
    mat_mul-outcome lhs rhs (5 ∷ []) [] 2 3 3 4 refl refl refl (omega arith) (omega arith)

abbrev added : Graph
added = record {
  values = some (resolved wide) ∷ some (resolved narrow) ∷ none ∷ [];
  get_initializer = λ _. none;
}

abbrev sum_node : Node
sum_node = record { op = Operator.add; inputs = some 0 ∷ none ∷ some 1 ∷ []; outputs = 2 ∷ [] }

broadcast_sum : infer_node_output (λ g n. panic) added sum_node overwrite_strides ≡ done (wide ∷ [])
unfolding infer_node_output infer_operator input_types binary broadcast_to broadcast_shape
    my_nn_engine.Tensor.Broadcast.merge Types.new Dims.new
broadcast_sum = refl

slices-extent_example :
    (slice_of (5 ∷ 4 ∷ []) (negsuc 1) (pos 2) (negsuc 0) >>= λ s. slices (5 ∷ 4 ∷ []) (s ∷ []))
    ≡ some (set (5 ∷ 4 ∷ []) (index (negsuc 0) 2) (extent (place 4 (negsuc 1)) (place 4 (pos 2))))
slices-extent_example =
    slices-extent (5 ∷ 4 ∷ []) (negsuc 1) (pos 2) (negsuc 0) 4 refl (omega arith) (omega arith)
      (omega arith)

-- A slice that ends before it starts has a size near 2 ^ 64.
reversed_slice : extent (place 5 (negsuc 1)) (place 5 (pos 1)) ≡ 2 ^ 64 - 2
reversed_slice = refl
