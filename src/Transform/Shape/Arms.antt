-- ===== src/Transform/Shape/Arms.antt =====
-- The arms of `infer_node_output` in src/transform/shape.rs that are on the types of two inputs, on an
-- initializer, or on the inputs as they are.
use Prim.Native.String.{String}
use my_nn_engine.Prelude.{
  ℕ, ℤ, pos, to_usize, Bool, true, false, List, [], ◌∷◌, Option, none, some, map, leb,
  if◌then◌else◌,
}
use my_nn_engine.Tensor.Dims.{ResolvedTensorDims, ndim}
use my_nn_engine.Tensor.Dims
use my_nn_engine.Tensor.Types.{
  ResolvedTensorType, DataType, SIntType, UIntType, FloatType, i64, contiguous,
}
use my_nn_engine.Tensor.Types
use my_nn_engine.Tensor.Broadcast.{infer_error, unresolved_input, broadcast_shape}
use my_nn_engine.Tensor.Data.{TensorData, Tensor}
use my_nn_engine.Graph.Operator.{Operator, ReinterpretType}
use my_nn_engine.Graph.Nodes.{resolved, unresolved, Node, Graph}
use my_nn_engine.Graph.Slices.{collect_slices, type_slices}
use my_nn_engine.Transform.Attempt.{
  Attempt, done, fail, panic, ◌>>=◌, ◌>>◌, must, ok_or, try_ok, check, at,
}
use my_nn_engine.Transform.Shape
use my_nn_engine.Transform.Shape.{UnifyMode}
use my_nn_engine.Transform.Shape.Matrix.{type_eq}

-- The types of the inputs that are there and have a type; an unresolved one is an error.
unfoldable pub input_types : Graph → List (Option ℕ) → Attempt (List ResolvedTensorType)
input_types graph [] = done []
input_types graph (none ∷ ids) = input_types graph ids
input_types graph (some id ∷ ids) = do
  ty ← at graph.values id
  elim ty [
    | none ↦ input_types graph ids
    | some t ↦ elim t [
      | unresolved ↦ fail unresolved_input
      | resolved r ↦ (do rest ← input_types graph ids; done (r ∷ rest))
    ]
  ]

-- The initializer at an input, which must be there.
unfoldable pub initializer_at : Graph → Node → ℕ → Attempt Tensor
initializer_at graph node i = do
  input ← at node.inputs i
  id ← must input
  ok_or (graph.get_initializer id) unresolved_input

-- The integers of 64 bits in an initializer.
unfoldable pub i64_data : TensorData → String → Attempt (List ℤ)
i64_data (TensorData.sint i64 v) message = done v
i64_data _ message = fail (infer_error message)

unfoldable pub broadcast_to :
    DataType → ResolvedTensorDims → ResolvedTensorDims → Attempt (List ResolvedTensorType)
broadcast_to elem_type l r = do
  dims ← try_ok (broadcast_shape l r)
  done (Types.new elem_type dims ∷ [])

-- The operators on two tensors; `same` tests that the element types agree.
unfoldable pub binary :
    Bool → (DataType → DataType) → List ResolvedTensorType → Attempt (List ResolvedTensorType)
unfolding broadcast_to
binary same elem_type inputs = do
  a ← at inputs 0
  b ← at inputs 1
  check (if same then type_eq a.elem_type b.elem_type else true)
  broadcast_to (elem_type a.elem_type) a.dims b.dims

-- The loop over the operations of a Reinterpret.
unfoldable pub reinterpret :
    List ReinterpretType → ResolvedTensorType → UnifyMode → Attempt ResolvedTensorType
reinterpret [] ty mode = done ty
reinterpret (op ∷ ops) ty mode = do
  next ← elim op [
    | ReinterpretType.reshape before after ↦ Shape.reshape ty (map pos after) mode
    | ReinterpretType.transpose perm ↦ Shape.transpose ty perm mode
    | ReinterpretType.broadcast before after ↦ done (Types.new ty.elem_type (Dims.new after))
  ]
  reinterpret ops next mode

-- The types that the outputs have already.
unfoldable pub output_types : Graph → List ℕ → Attempt (List ResolvedTensorType)
output_types graph [] = done []
output_types graph (id ∷ ids) = do
  ty ← at graph.values id
  found ← must ty
  r ← elim found [ resolved r ↦ done r | unresolved ↦ panic ]
  rest ← output_types graph ids
  done (r ∷ rest)

abbrev pub one : Attempt ResolvedTensorType → Attempt (List ResolvedTensorType)
one m = m >>= λ ty. done (ty ∷ [])

-- The operators whose result has the type of the first input.
abbrev pub keeps_type : Operator → Bool
keeps_type Operator.all_reduce = true
keeps_type Operator.batch_normalization = true
keeps_type Operator.clip = true
keeps_type Operator.cos = true
keeps_type Operator.exp = true
keeps_type Operator.ge_lu = true
keeps_type Operator.identity = true
keeps_type Operator.kv_cache_update = true
keeps_type Operator.quantizing_kv_cache_update = true
keeps_type Operator.layer_normalization = true
keeps_type Operator.leaky_relu = true
keeps_type Operator.log = true
keeps_type Operator.neg = true
keeps_type Operator.reciprocal = true
keeps_type Operator.relu = true
keeps_type Operator.rms_normalization = true
keeps_type Operator.rope = true
keeps_type Operator.sigmoid = true
keeps_type Operator.sin = true
keeps_type Operator.softmax = true
keeps_type Operator.sqrt = true
keeps_type Operator.swish = true
keeps_type Operator.tanh = true
keeps_type Operator.transfer = true
keeps_type _ = false

-- The sizes that an initializer gives.
unfoldable pub given_sizes : Graph → Node → ℕ → String → Attempt ResolvedTensorDims
given_sizes graph node i message = do
  tensor ← initializer_at graph node i
  v ← i64_data tensor.contents message
  done (Dims.new (map to_usize v))

unfoldable pub expand : Graph → Node → List ResolvedTensorType → Attempt (List ResolvedTensorType)
unfolding given_sizes broadcast_to
expand graph node inputs = do
  input ← at inputs 0
  target ← given_sizes graph node 1 "Expand: invalid shape type"
  broadcast_to input.elem_type input.dims target

unfoldable pub reshape_node :
    Graph → Node → List ResolvedTensorType → UnifyMode → Attempt ResolvedTensorType
reshape_node graph node inputs mode = do
  a ← at inputs 0
  tensor ← initializer_at graph node 1
  v ← i64_data tensor.contents "Invalid shape"
  Shape.reshape a v mode

unfoldable pub constant_of_shape : Graph → Node → DataType → Attempt ResolvedTensorType
constant_of_shape graph node elem_type = do
  tensor ← initializer_at graph node 0
  v ← i64_data tensor.contents "Invalid shape"
  check (leb (ndim tensor.dims) 1)
  done (Types.new elem_type (Dims.new (map to_usize v)))

unfoldable pub where_output : List ResolvedTensorType → Attempt (List ResolvedTensorType)
unfolding broadcast_to
where_output inputs = do
  cond ← at inputs 0
  x ← at inputs 1
  y ← at inputs 2
  dims ← try_ok (broadcast_shape cond.dims x.dims)
  broadcast_to x.elem_type dims y.dims

unfoldable pub slice_node :
    Graph → Node → List ResolvedTensorType → Attempt (List ResolvedTensorType)
slice_node graph node inputs = do
  found ← must (collect_slices graph node)
  slices ← ok_or found (infer_error "Invalid slices")
  a ← at inputs 0
  ty ← must (type_slices a slices)
  done (ty ∷ [])

-- The two or more first inputs of an operator.
abbrev pub on_two :
    List ResolvedTensorType
    → (ResolvedTensorType → ResolvedTensorType → Attempt ResolvedTensorType)
    → Attempt (List ResolvedTensorType)
on_two inputs f = do a ← at inputs 0; b ← at inputs 1; one (f a b)

abbrev pub on_one :
    List ResolvedTensorType
    → (ResolvedTensorType → Attempt ResolvedTensorType)
    → Attempt (List ResolvedTensorType)
on_one inputs f = do a ← at inputs 0; one (f a)
