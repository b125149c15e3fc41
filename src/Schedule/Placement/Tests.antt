-- ===== src/Schedule/Placement/Tests.antt =====
-- The placement of four kernels, of which the second and the third use one cache.
use my_nn_engine.Schedule.Placement.Structural.{structural_kv_touch-Touches}
use my_nn_engine.Prelude.{◌↔◌, ℕ, ◌≡◌, refl, true, List, [], ◌∷◌, Option, none, some, All}
use my_nn_engine.Tensor.Types.{ResolvedTensorType, float, f32, storage_num_elements}
use my_nn_engine.Schedule.Ir.{Device, tier}
use my_nn_engine.Graph.Operator.{relu}
use my_nn_engine.Schedule.Kernels.{Kernel, opaque, Schedule, contains, value_byte_size}
use my_nn_engine.Schedule.Placement.{
  structural_kv_touch, Placement, device_of, resident_budget, weight_of, cut_loop, place, snap,
  kv_span_loop,
}
use my_nn_engine.Schedule.Placement.Budget.{IsBudgeted, resident_budget-IsBudgeted}
use my_nn_engine.Schedule.Placement.Weights.{IsWeighed, Touches}
use my_nn_engine.Schedule.Placement.Tiers.{session_state_tier, resident_budget-session_state_tier}

abbrev vector : ResolvedTensorType
vector = record { elem_type = float f32; dims = 10 ∷ []; stride = 1 ∷ [] }

-- Value 0 is a weight of 40 bytes, value 1 the cache, value 2 the running result.
abbrev reads : List (Option ℕ) → Kernel
reads inputs = record { inputs = inputs; outputs = 2 ∷ []; body = opaque relu }

abbrev sample : Schedule
sample = record {
  inputs = [];
  outputs = [];
  initializers = 0 ∷ [];
  session_states = 1 ∷ [];
  kernels =
      reads (some 0 ∷ [])
      ∷ reads (some 1 ∷ none ∷ [])
      ∷ reads (some 0 ∷ some 1 ∷ [])
      ∷ reads (some 2 ∷ [])
      ∷ [];
  types = some vector ∷ some vector ∷ some vector ∷ [];
}

-- The cut falls at the third kernel, and moves before the second one.
sample_devices :
    resident_budget sample 1 60 ≡ some (Device.cuda ∷ Device.cpu ∷ Device.cpu ∷ Device.cpu ∷ [])
unfolding resident_budget cut_loop weight_of value_byte_size storage_num_elements place snap
    kv_span_loop
sample_devices = refl

sample-IsWeighed : All (IsWeighed sample 1) sample.kernels
unfolding weight_of value_byte_size storage_num_elements
sample-IsWeighed = ((40, refl), ((0, refl), ((40, refl), ((0, refl), tt))))

resident_budget-IsBudgeted_example :
    (devices : Placement) × (cut : ℕ) × (resident_budget sample 1 60 ≡ some devices)
    × IsBudgeted sample 1 60 cut devices
resident_budget-IsBudgeted_example = resident_budget-IsBudgeted sample 1 60 sample-IsWeighed

resident_budget-session_state_tier_example :
    (devices : Placement) × (resident_budget sample 1 60 ≡ some devices)
    × ((v i : ℕ)
        → contains sample.session_states v ≡ true
        → Touches sample i v
        → (d : Device) × (device_of devices i ≡ some d)
          × (session_state_tier sample devices v ≡ some (tier d)))
resident_budget-session_state_tier_example =
    resident_budget-session_state_tier sample 1 60 sample-IsWeighed

structural_kv_touch-Touches_example :
    (device_of (structural_kv_touch sample) 2 ≡ some Device.cuda)
    ↔ ((v : ℕ) × (contains sample.session_states v ≡ true) × Touches sample 2 v)
structural_kv_touch-Touches_example =
    structural_kv_touch-Touches sample 2 (reads (some 0 ∷ some 1 ∷ [])) refl
