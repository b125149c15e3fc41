-- ===== src/Schedule/Order/Tests.antt =====
-- The dependencies and the order of three kernels.
use my_nn_engine.Prelude.{
  All, Option, zero, suc, ◌≤◌, ◌<◌, ◌≡◌, refl, true, [], ◌∷◌, none, some, arith,
}
use my_nn_engine.Tensor.Types.{float, f32, storage_num_elements}
use my_nn_engine.Schedule.Ir.{KernelId}
use my_nn_engine.Schedule.Order.Pick.{pick_best, best_of, score, added, freed}
use my_nn_engine.Graph.Operator.{relu}
use my_nn_engine.Schedule.Kernels.{opaque, Schedule, contains, value_byte_size}
use my_nn_engine.Schedule.Deps.{
  Deps, new, link_all, link_inputs, link, insert_at, count_use, produce_all, produce,
}
use my_nn_engine.Schedule.Order.Pick.Growth.{HasSizes, IsBest, pick_best-IsBest}
use my_nn_engine.Schedule.Deps.Complete.{IsComplete, new-IsComplete}
use my_nn_engine.Schedule.Order.{Order, start, zeros_from, round, advance, Run, begin, next}
use my_nn_engine.Schedule.Order.Topological.{preds_of, IsTopological}
use my_nn_engine.Schedule.Order.Outcome.{Run-IsTopological, Run-all_done}

-- The second kernel reads the first one's value, the third one those of both.
abbrev sample : Schedule
sample = record {
  inputs = [];
  outputs = [];
  initializers = [];
  session_states = [];
  kernels =
      record { inputs = []; outputs = 10 ∷ []; body = opaque relu }
      ∷ record { inputs = some 10 ∷ none ∷ []; outputs = 11 ∷ []; body = opaque relu }
      ∷ record { inputs = some 11 ∷ some 10 ∷ []; outputs = 12 ∷ []; body = opaque relu }
      ∷ [];
  types = [];
}

abbrev sample_deps : Deps
sample_deps = record {
  value2producer = (12, 2) ∷ (11, 1) ∷ (10, 0) ∷ [];
  value_uses_count = (10, 2) ∷ (11, 1) ∷ [];
  kernel_preds = [] ∷ (0 ∷ []) ∷ (0 ∷ 1 ∷ []) ∷ [];
  kernel_consumers = (2 ∷ 1 ∷ []) ∷ (2 ∷ []) ∷ [] ∷ [];
}

sample-new : new sample ≡ some sample_deps
unfolding new link_all link_inputs link insert_at count_use produce_all produce
sample-new = refl

-- After the first and the second kernel, the third one is ready.
abbrev sample_order : Order
sample_order = record { kernel_pending = 0 ∷ 0 ∷ 0 ∷ []; ready = 2 ∷ [] }

abbrev sample_end : Order
sample_end = record { kernel_pending = 0 ∷ 0 ∷ 0 ∷ []; ready = [] }

sample-Run : Run sample_deps (1 ∷ 0 ∷ []) sample_order
unfolding start zeros_from round advance
sample-Run =
    next {order = record { kernel_pending = 0 ∷ 0 ∷ 1 ∷ []; ready = 1 ∷ [] }} 1
      (next {order = start sample_deps} 0 begin refl refl) refl refl

whole-Run : Run sample_deps (2 ∷ 1 ∷ 0 ∷ []) sample_end
unfolding round advance
whole-Run = next 2 sample-Run refl refl

new-IsComplete_example : (deps : Deps) × (new sample ≡ some deps) × IsComplete sample deps
new-IsComplete_example = new-IsComplete sample

Run-IsTopological_example :
    IsTopological 3 sample_deps (1 ∷ 0 ∷ [])
    × (2 ≤ 3)
    × ((kid : KernelId)
        → contains (2 ∷ []) kid ≡ true
        → (after : Order) × (round sample_deps kid sample_order ≡ some after))
Run-IsTopological_example =
    Run-IsTopological sample sample_deps sample-new (1 ∷ 0 ∷ []) sample_order sample-Run

sample_falls : (i j : KernelId) → contains (preds_of sample_deps i) j ≡ true → j < i
sample_falls zero j h = cc
sample_falls (suc zero) j h = ground arith
sample_falls (suc (suc zero)) j h = ground arith
sample_falls (suc (suc (suc i))) j h = cc

Run-all_done_example : contains (2 ∷ 1 ∷ 0 ∷ []) 1 ≡ true
Run-all_done_example =
    Run-all_done sample sample_deps sample-new (2 ∷ 1 ∷ 0 ∷ []) sample_end whole-Run (λ k. k)
      sample_falls refl 1 (omega arith)

-- A kernel that adds 40 bytes, and one that frees them.
abbrev two_ready : Schedule
two_ready = record {
  inputs = [];
  outputs = [];
  initializers = [];
  session_states = [];
  kernels =
      record { inputs = []; outputs = 0 ∷ []; body = opaque relu }
      ∷ record { inputs = some 0 ∷ []; outputs = []; body = opaque relu }
      ∷ [];
  types = some (record { elem_type = float f32; dims = 10 ∷ []; stride = 1 ∷ [] }) ∷ [];
}

two_ready-HasSizes : All (HasSizes two_ready) (0 ∷ 1 ∷ [])
unfolding value_byte_size storage_num_elements
two_ready-HasSizes = (
  record {
    kernel = record { inputs = []; outputs = 0 ∷ []; body = opaque relu };
    here = refl;
    outputs = ((40, refl), tt);
    inputs = tt;
  },
  (
    record {
      kernel = record { inputs = some 0 ∷ []; outputs = []; body = opaque relu };
      here = refl;
      outputs = tt;
      inputs = ((40, refl), tt);
    },
    tt,
  ),
)

pick_best-IsBest_example :
    (best : Option KernelId) × (pick_best two_ready ((0, 1) ∷ []) (0 ∷ 1 ∷ []) ≡ some best)
    × IsBest two_ready ((0, 1) ∷ []) (0 ∷ 1 ∷ []) best
pick_best-IsBest_example = pick_best-IsBest two_ready ((0, 1) ∷ []) (0 ∷ 1 ∷ []) two_ready-HasSizes

-- The kernel that frees is picked.
frees_first : pick_best two_ready ((0, 1) ∷ []) (0 ∷ 1 ∷ []) ≡ some (some 1)
unfolding pick_best best_of score added freed value_byte_size storage_num_elements
frees_first = refl
