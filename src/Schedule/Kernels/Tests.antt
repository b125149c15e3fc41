-- ===== src/Schedule/Kernels/Tests.antt =====
-- A kernel whose first input is missing.
use my_nn_engine.Prelude.{ℕ, ◌≡◌, refl, [], ◌∷◌, Option, none, some, get_elem?}
use my_nn_engine.Graph.Operator.{identity}
use my_nn_engine.Schedule.Kernels.{Kernel, opaque, input_ptr_map}
use my_nn_engine.Schedule.Kernels.Arguments.{Points, input_ptr_map-Points}

abbrev sample : Kernel
sample = record { inputs = none ∷ some 7 ∷ []; outputs = 3 ∷ []; body = opaque identity }

input_ptr_map-Points_example :
    (position : Option ℕ) × (get_elem? (input_ptr_map sample) 1 ≡ some position)
    × Points (3 ∷ 7 ∷ []) (some 7) position
input_ptr_map-Points_example = input_ptr_map-Points sample 1 (some 7) refl
