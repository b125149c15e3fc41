-- ===== src/Transform/Shape/Infer.antt =====
-- `infer_node_output` of src/transform/shape.rs. The operators Resize, NonZero and Range are left to a
-- parameter.
pub mod Products
mod Tests
use Prim.Native.String.{String}
use my_nn_engine.Prelude.{
  ℕ, zero, suc, ◌+◌, ℤ, pos, to_usize, Bool, true, false, List, [], ◌∷◌, Option, none, some, length,
  get_elem?, map, leb, ◌==◌, if◌then◌else◌,
}
use my_nn_engine.Tensor.Dims.{ResolvedTensorDims, ndim}
use my_nn_engine.Tensor.Types.{
  ResolvedTensorType, DataType, SIntType, UIntType, FloatType, i64, contiguous,
}
use my_nn_engine.Tensor.Types
use my_nn_engine.Tensor.Broadcast.{infer_error, unresolved_input, broadcast_shape}
use my_nn_engine.Tensor.Data.{TensorData, Tensor, tensor_type}
use my_nn_engine.Graph.Operator.{Operator, ReinterpretType}
use my_nn_engine.Graph.Nodes.{TensorType, resolved, unresolved, Node, Graph}
use my_nn_engine.Graph.Slices.{collect_slices, type_slices}
use my_nn_engine.Transform.Attempt.{
  Attempt, done, fail, panic, ◌>>=◌, ◌>>◌, must, ok_or, try_ok, check, at,
}
use my_nn_engine.Transform.Shape
use my_nn_engine.Transform.Shape.{UnifyMode}
use my_nn_engine.Transform.Shape.Matrix
use my_nn_engine.Transform.Shape.Matrix.{type_eq}
use my_nn_engine.Transform.Shape.Axes
use my_nn_engine.Transform.Shape.Arms.{
  input_types, binary, reinterpret, output_types, one, keeps_type, expand, reshape_node,
  constant_of_shape, where_output, slice_node, on_two, on_one,
}

-- The match on the operator, for the types of the inputs; `rest` stands for the operators that are
-- left out.
unfoldable pub infer_operator :
    (Graph → Node → Attempt (List ResolvedTensorType))
    → Graph
    → Node
    → UnifyMode
    → List ResolvedTensorType
    → Attempt (List ResolvedTensorType)
unfolding binary expand slice_node reshape_node constant_of_shape where_output output_types
infer_operator rest graph node mode inputs = elim node.op [
  | Operator.add ↦ binary true (λ t. t) inputs
  | Operator.div ↦ binary true (λ t. t) inputs
  | Operator.sub ↦ binary true (λ t. t) inputs
  | Operator.mul ↦ binary true (λ t. t) inputs
  | Operator.and ↦ binary false (λ t. DataType.boolean) inputs
  | Operator.equal ↦ binary true (λ t. DataType.boolean) inputs
  | Operator.less_or_equal ↦ binary true (λ t. DataType.boolean) inputs
  | Operator.pow ↦ binary false (λ t. t) inputs
  | Operator.batched_gemm g ↦ on_two inputs (Matrix.batched_gemm g)
  | Operator.attention ↦ (do
    q ← at inputs 0
    k ← at inputs 1
    v ← at inputs 2
    one (Matrix.attention q k v))
  | Operator.expand ↦ expand graph node inputs
  | Operator.cast to ↦ on_one inputs (λ a. done (Types.new to a.dims))
  | Operator.dequantize_linear axis ↦ on_two inputs (Matrix.dequantize_linear axis)
  | Operator.dynamic_quantize_linear axis symmetric ↦ (do
    x ← at inputs 0
    Matrix.dynamic_quantize_linear axis symmetric x)
  | Operator.quantized_mat_mul axis ↦ (do
    lhs ← at inputs 0
    lhs_scale ← at inputs 1
    rhs ← at inputs 2
    rhs_scale ← at inputs 3
    one (Matrix.quantized_mat_mul axis lhs lhs_scale rhs rhs_scale))
  | Operator.dequant_mat_mul axis ↦ (do
    lhs ← at inputs 0
    rhs ← at inputs 1
    scale ← at inputs 2
    one (Matrix.dequant_mat_mul axis lhs rhs scale))
  | Operator.transpose perm ↦ on_one inputs (λ a. Shape.transpose a perm mode)
  | Operator.reshape ↦ one (reshape_node graph node inputs mode)
  | Operator.flatten axis ↦ on_one inputs (λ a. done (Axes.flatten axis a))
  | Operator.conv c ↦ on_two inputs (λ x w. Matrix.conv_output c x w mode)
  | Operator.mat_mul ↦ on_two inputs Matrix.mat_mul
  | Operator.average_pool p ↦ on_one inputs (Matrix.pooling_output p)
  | Operator.max_pool p ↦ on_one inputs (Matrix.pooling_output p)
  | Operator.global_average_pool ↦ on_one inputs Matrix.global_average_pool
  | Operator.gemm g ↦ on_two inputs (Matrix.gemm_output g)
  | Operator.reduce_max r ↦ on_one inputs (Axes.reduce r)
  | Operator.reduce_mean r ↦ on_one inputs (Axes.reduce r)
  | Operator.reduce_sum r ↦ on_one inputs (Axes.reduce r)
  | Operator.concat axis ↦ one (Axes.concat axis inputs)
  | Operator.shape start end ↦ on_one inputs (Axes.shape_output start end)
  | Operator.slice ↦ slice_node graph node inputs
  | Operator.constant value ↦ done (tensor_type value ∷ [])
  | Operator.split s ↦ (do a ← at inputs 0; Axes.split_output s a)
  | Operator.squeeze axes ↦ on_one inputs (λ a. Axes.squeeze axes a mode)
  | Operator.gather axis ↦ on_two inputs (Axes.gather axis)
  | Operator.unsqueeze axes ↦ on_one inputs (λ a. Axes.unsqueeze axes a mode)
  | Operator.constant_of_shape t ↦ one (constant_of_shape graph node t)
  | Operator.one_hot o ↦ on_one inputs (Axes.one_hot o)
  | Operator.nhwc2nchw ↦
      on_one inputs
        (λ a. do ty ← Shape.transpose a (some (0 ∷ 3 ∷ 1 ∷ 2 ∷ [])) mode; done (contiguous ty))
  | Operator.contiguous ↦ on_one inputs (λ a. done (contiguous a))
  | Operator.reinterpret ops ↦ on_one inputs (λ a. reinterpret ops a mode)
  | Operator.is_nan ↦ on_one inputs (λ a. done (Types.new DataType.boolean a.dims))
  | Operator.where_op ↦ where_output inputs
  | Operator.input _ ↦ output_types graph node.outputs
  | Operator.output _ ↦ output_types graph node.outputs
  | Operator.session_state _ ↦ output_types graph node.outputs
  | Operator.reduce_matrix ↦ output_types graph node.outputs
  | op ↦ if keeps_type op then (do a ← at inputs 0; done (a ∷ [])) else rest graph node
]

unfoldable pub infer_node_output :
    (Graph → Node → Attempt (List ResolvedTensorType))
    → Graph
    → Node
    → UnifyMode
    → Attempt (List ResolvedTensorType)
unfolding input_types infer_operator
infer_node_output rest graph node mode = do
  inputs ← input_types graph node.inputs
  infer_operator rest graph node mode inputs
