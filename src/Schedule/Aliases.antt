-- ===== src/Schedule/Aliases.antt =====
-- `output_aliases` of src/schedule.rs: the values that are passed on to a graph output. A hash map
-- is a list with the newest entry first, and the vector that the code pops is a stack.
pub mod Closure
pub mod Settled
mod Tests
use my_nn_engine.Prelude.{
  ℕ, zero, suc, ◌+◌, List, [], ◌∷◌, Option, none, some, ◌>>=◌, length, reverse,
}
use my_nn_engine.Schedule.Ir.{ValueId}
use my_nn_engine.Graph.Operator.{Operator, identity, reinterpret}
use my_nn_engine.Schedule.Kernels.{opaque, Kernel, Schedule}
use my_nn_engine.Schedule.Deps.{lookup}

abbrev pub Entries : Type 0
Entries = List (ValueId × ValueId)

-- The first output and the first input of a kernel that has both.
unfoldable pub first_pair : Kernel → Entries → Entries
first_pair kernel entries = elim kernel.outputs [
  | [] ↦ entries
  | out0 ∷ _ ↦ elim kernel.inputs [
    | [] ↦ entries
    | in0 ∷ _ ↦ elim in0 [ none ↦ entries | some v ↦ (out0, v) ∷ entries ]
  ]
]

-- The first loop: the input that an Identity or Reinterpret kernel passes on, by its output.
unfoldable pub passthrough : List Kernel → Entries → Entries
unfolding first_pair
passthrough [] entries = entries
passthrough (kernel ∷ kernels) entries = passthrough kernels (elim kernel.body [
  | opaque identity ↦ first_pair kernel entries
  | opaque (reinterpret _) ↦ first_pair kernel entries
  | _ ↦ entries
])

-- The second loop: the outputs stand for themselves.
unfoldable pub seed : List ValueId → Entries → Entries
seed [] alias = alias
seed (out ∷ outs) alias = seed outs ((out, out) ∷ alias)

-- The last loop. `none` is a panic or the end of the fuel.
unfoldable pub alias_loop : ℕ → Entries → List ValueId → Entries → Option Entries
alias_loop fuel inputs [] alias = some alias
alias_loop zero inputs (v ∷ queue) alias = none
alias_loop (suc fuel) inputs (v ∷ queue) alias = do
  target ← lookup v alias
  elim (lookup v inputs) [
    | none ↦ alias_loop fuel inputs queue alias
    | some pred ↦ elim (lookup pred alias) [
      | none ↦ alias_loop fuel inputs (pred ∷ queue) ((pred, target) ∷ alias)
      | some _ ↦ alias_loop fuel inputs queue ((pred, target) ∷ alias)
    ]
  ]

-- Every output is popped once, and every other value at most once, when its entry is made.
unfoldable pub output_aliases : Schedule → Option Entries
output_aliases schedule =
    let inputs = passthrough schedule.kernels [] in
    alias_loop (length schedule.outputs + length inputs) inputs (reverse schedule.outputs)
      (seed schedule.outputs [])
