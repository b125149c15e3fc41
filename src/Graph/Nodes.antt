-- ===== src/Graph/Nodes.antt =====
-- Nodes and the types of values in src/graph.rs and src/tensor/types.rs.
use my_nn_engine.Prelude.{ℕ, List, Option, none, some, ◌>>=◌, get_elem?}
use my_nn_engine.Tensor.Types.{ResolvedTensorType}
use my_nn_engine.Tensor.Data.{Tensor}
use my_nn_engine.Graph.Operator.{Operator}

-- The unresolved dimensions of a type are left out.
pub data TensorType : Type 0 where
  resolved : ResolvedTensorType → TensorType
  unresolved : TensorType

pub record Node : Type 0 where
  pub op : Operator
  pub inputs : List (Option ℕ)
  pub outputs : List ℕ

-- The types of the values, where they have one. The initializers are a function, since the lookup can
-- read a file.
pub record Graph : Type 0 where
  pub values : List (Option TensorType)
  pub get_initializer : ℕ → Option Tensor

abbrev pub as_resolved : TensorType → Option ResolvedTensorType
as_resolved (resolved ty) = some ty
as_resolved unresolved = none

-- The first `none` is a panic, for an index out of range.
unfoldable pub get_resolved_tensor_type : Graph → ℕ → Option (Option ResolvedTensorType)
get_resolved_tensor_type graph id = do ty ← get_elem? graph.values id; some (ty >>= as_resolved)
