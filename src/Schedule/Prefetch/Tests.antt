-- ===== src/Schedule/Prefetch/Tests.antt =====
-- A kernel on the GPU that reads two weights, of which the budget holds one.
use my_nn_engine.Prelude.{ℕ, zero, suc, ◌≡◌, refl, true, List, [], ◌∷◌, none, some, arith}
use my_nn_engine.Tensor.Types.{ResolvedTensorType, float, f32, storage_num_elements}
use my_nn_engine.Schedule.Ir.{Device}
use my_nn_engine.Graph.Operator.{add}
use my_nn_engine.Schedule.Kernels.{opaque, Schedule, contains, value_byte_size}
use my_nn_engine.Schedule.Prefetch.{
  select_host_resident, resident_budget, min_bytes, candidates, enter_inputs, streamed,
}
use my_nn_engine.Schedule.Prefetch.Entered.{IsSized}
use my_nn_engine.Schedule.Prefetch.Budgeted.{FitsBudget, select_host_resident-FitsBudget}

abbrev vector : ℕ → ResolvedTensorType
vector n = record { elem_type = float f32; dims = n ∷ []; stride = 1 ∷ [] }

-- Value 0 has 40 bytes, value 1 has 24.
abbrev sample : Schedule
sample = record {
  inputs = [];
  outputs = [];
  initializers = 0 ∷ 1 ∷ [];
  session_states = [];
  kernels = record { inputs = some 1 ∷ some 0 ∷ []; outputs = 2 ∷ []; body = opaque add } ∷ [];
  types = some (vector 10) ∷ some (vector 6) ∷ some (vector 10) ∷ [];
}

size_of :
    (v : ℕ)
    → contains sample.initializers v ≡ true
    → (size : ℕ) × (value_byte_size sample v ≡ some size)
unfolding value_byte_size storage_num_elements
size_of zero h = (40, refl)
size_of (suc zero) h = (24, refl)
size_of (suc (suc v)) h = absurd (ground arith)

sample-IsSized : IsSized sample (Device.cuda ∷ [])
sample-IsSized = record { size_of = size_of; placed = refl }

select_host_resident-FitsBudget_example :
    (out : List ℕ) × (select_host_resident none sample (Device.cuda ∷ []) (resident_budget 8 60)
      ≡ some out)
    × FitsBudget sample (Device.cuda ∷ []) 8 60 out
select_host_resident-FitsBudget_example =
    select_host_resident-FitsBudget none sample (Device.cuda ∷ []) 8 60 sample-IsSized

-- The smaller weight is streamed.
smaller : select_host_resident none sample (Device.cuda ∷ []) (resident_budget 8 60) ≡ some (1 ∷ [])
unfolding select_host_resident min_bytes candidates enter_inputs streamed value_byte_size
    storage_num_elements my_nn_engine.Schedule.Placement.device_of
smaller = refl
