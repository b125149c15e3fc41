-- ===== src/Schedule/Kernels.antt =====
-- Kernels and `Schedule` of src/schedule.rs. A kernel's id is its index; of the graph, the
-- schedule keeps here what its methods read, the type of each value where that is resolved.
pub mod Arguments
mod Tests
use my_nn_engine.Prelude.{
  ℕ, suc, ◌*◌, ◌/◌, Bool, true, false, List, [], ◌∷◌, Option, none, some, ◌>>=◌, get_elem?, length,
  ◌==◌, if◌then◌else◌,
}
use my_nn_engine.Tensor.Types.{ResolvedTensorType, bit_width, storage_num_elements}
use my_nn_engine.Graph.Operator.{Operator, kv_cache_update, quantizing_kv_cache_update}
use my_nn_engine.Schedule.Ir.{ValueId, KernelId}

pub data ElementwiseOpArg : Type 0 where
  input nth_result : ℕ → ElementwiseOpArg

pub data KernelBody : Type 0 where
  opaque : Operator → KernelBody
  element_wises : List (Operator × List ElementwiseOpArg) → KernelBody

pub record Kernel : Type 0 where
  pub inputs : List (Option ValueId)
  pub outputs : List ValueId
  pub body : KernelBody

-- The loop of `input_ptr_map`, `ptr_idx` being the next free argument.
unfoldable pub input_ptr_loop : ℕ → List (Option ValueId) → List (Option ℕ)
input_ptr_loop ptr_idx [] = []
input_ptr_loop ptr_idx (none ∷ inputs) = none ∷ input_ptr_loop ptr_idx inputs
input_ptr_loop ptr_idx (some v ∷ inputs) = some ptr_idx ∷ input_ptr_loop (suc ptr_idx) inputs

unfoldable pub input_ptr_map : Kernel → List (Option ℕ)
input_ptr_map kernel = input_ptr_loop (length kernel.outputs) kernel.inputs

pub record Schedule : Type 0 where
  pub inputs : List ValueId
  pub outputs : List ValueId
  pub initializers : List ValueId
  pub session_states : List ValueId
  pub kernels : List Kernel
  pub types : List (Option ResolvedTensorType)

-- `.iter().flatten()` over optional values.
abbrev pub flatten : List (Option ValueId) → List ValueId
flatten [] = []
flatten (none ∷ vs) = flatten vs
flatten (some v ∷ vs) = v ∷ flatten vs

-- `HashSet::contains`, for the set of the elements of a list.
abbrev pub contains : List ValueId → ValueId → Bool
contains [] v = false
contains (w ∷ ws) v = if w == v then true else contains ws v

-- Out of range is a panic, as an unresolved type is in `value_byte_size`.
unfoldable pub value_byte_size : Schedule → ValueId → Option ℕ
value_byte_size schedule v = do
  ty ← get_elem? schedule.types v
  rty ← ty
  elements ← storage_num_elements rty
  some (elements * (bit_width rty.elem_type / 8))

-- The input that the kernel must write its output over: both cache operators take the cache first.
unfoldable pub must_in_place_input : Schedule → KernelId → Option (Option ℕ)
must_in_place_input schedule kid = do
  kernel ← get_elem? schedule.kernels kid
  some (elim kernel.body [
    | opaque kv_cache_update ↦ some 0
    | opaque quantizing_kv_cache_update ↦ some 0
    | _ ↦ none
  ])
