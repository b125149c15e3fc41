-- ===== src/Schedule/Aliases/Tests.antt =====
-- A value that is passed on twice, to the graph output 5.
use my_nn_engine.Prelude.{◌≡◌, refl, true, [], ◌∷◌, some}
use my_nn_engine.Schedule.Ir.{ValueId}
use my_nn_engine.Graph.Operator.{identity, reinterpret, relu}
use my_nn_engine.Schedule.Kernels.{opaque, Schedule, contains}
use my_nn_engine.Schedule.Deps.{lookup}
use my_nn_engine.Schedule.Aliases.{
  Entries, first_pair, passthrough, seed, alias_loop, output_aliases,
}
use my_nn_engine.Schedule.Aliases.Closure.{Reaches, IsKnown}
use my_nn_engine.Schedule.Aliases.Settled.{output_aliases-IsSound}

abbrev sample : Schedule
sample = record {
  inputs = [];
  outputs = 5 ∷ [];
  initializers = [];
  session_states = [];
  kernels =
      record { inputs = some 1 ∷ []; outputs = 3 ∷ []; body = opaque relu }
      ∷ record { inputs = some 3 ∷ []; outputs = 4 ∷ []; body = opaque (reinterpret []) }
      ∷ record { inputs = some 4 ∷ []; outputs = 5 ∷ []; body = opaque identity }
      ∷ [];
  types = [];
}

sample_aliases : output_aliases sample ≡ some ((3, 5) ∷ (4, 5) ∷ (5, 5) ∷ [])
unfolding output_aliases alias_loop seed passthrough first_pair
sample_aliases = refl

output_aliases-IsSound_example :
    (alias : Entries) × (output_aliases sample ≡ some alias)
    × ((v o : ValueId)
        → lookup v alias ≡ some o
        → (contains sample.outputs o ≡ true) × Reaches (passthrough sample.kernels []) v o)
    × ((v o : ValueId)
        → contains sample.outputs o ≡ true
        → Reaches (passthrough sample.kernels []) v o
        → IsKnown alias v)
output_aliases-IsSound_example = output_aliases-IsSound sample
