-- ===== src/Schedule/Scheduler/Bind.antt =====
-- `bind_kernel` of src/schedule/scheduler/memory_aware.rs.
use my_nn_engine.Prelude.{
  ℕ, Bool, true, false, not, ◌&&◌, List, [], ◌∷◌, ◌++◌, Option, none, some, ◌>>=◌, get_elem?, ◌==◌,
  if◌then◌else◌,
}
use mathlib.Core.Option
use my_nn_engine.Schedule.Ir.{
  ValueId, KernelId, StreamId, MemoryTier, host_arena, gpu_arena, tier, tier_eq, AllocPlace, chunk,
  initializer, BindingRole, workspace, ValueBinding,
}
use my_nn_engine.Schedule.Ir
use my_nn_engine.Schedule.Alloc
use my_nn_engine.Graph.Operator.{identity, reinterpret}
use my_nn_engine.Schedule.Kernels.{
  Kernel, opaque, contains, flatten, value_byte_size, must_in_place_input,
}
use my_nn_engine.Schedule.Deps.{lookup}
use my_nn_engine.Schedule.Order.Pick.{remaining}
use my_nn_engine.Schedule.Scheduler.{
  Fixed, Scheduler, alloc_chunk, binding, is_output, mark_place, on_chunk,
}
use my_nn_engine.Schedule.Scheduler.OnTier.{ensure_value_on_tier}

pub record PostTransfer : Type 0 where
  pub src : ValueBinding
  pub dst : ValueBinding

abbrev pub place_value : ValueId → AllocPlace → Scheduler → Scheduler
place_value v place s = record s { value2place = (v, place) ∷ s.value2place }

-- A value that is neither produced nor passed to the program.
unfoldable pub is_workspace : Fixed → ValueId → Bool
is_workspace fixed v = elim (lookup v fixed.deps.value2producer) [
  | some _ ↦ false
  | none ↦ not (contains fixed.schedule.inputs v) && not (contains fixed.schedule.session_states v)
]

-- A new chunk, in which the value is placed.
unfoldable pub place_in_chunk :
    Fixed → ValueId → MemoryTier → StreamId → Scheduler → Option (AllocPlace × Scheduler)
unfolding alloc_chunk
place_in_chunk fixed v tier stream s = do
  size ← value_byte_size fixed.schedule v
  (cid, t) ← alloc_chunk fixed tier size stream (remaining s.value_remaining_uses v) s
  some (chunk cid, t)

-- The place that the kernel reads an input from.
unfoldable pub input_place :
    Fixed → ValueId → MemoryTier → StreamId → Scheduler → Option (AllocPlace × Scheduler)
unfolding is_workspace place_in_chunk ensure_value_on_tier
input_place fixed input tier stream s =
    if is_workspace fixed input
    then (do
      (place, t) ← place_in_chunk fixed input tier stream s
      some (place, place_value input place t))
    else (do
      original ← lookup input s.value2place
      ensure_value_on_tier fixed input original tier stream s)

unfoldable pub bind_input :
    Fixed → ValueId → MemoryTier → StreamId → Scheduler → Option (ValueBinding × Scheduler)
unfolding is_workspace input_place mark_place
bind_input fixed input tier stream s =
    if contains fixed.schedule.initializers input
    then some (binding input Ir.input (initializer input) false, s)
    else (do
      (place, t) ← input_place fixed input tier stream s
      (is_first_use, u) ← mark_place place t
      some (
        binding input (if is_workspace fixed input then workspace else Ir.input) place is_first_use,
        u,
      ))

-- The loop over the inputs.
unfoldable pub bind_inputs :
    Fixed
    → MemoryTier
    → StreamId
    → List ValueId
    → Scheduler
    → Option (List ValueBinding × Scheduler)
bind_inputs fixed tier stream [] s = some ([], s)
bind_inputs fixed tier stream (input ∷ inputs) s = do
  (b, t) ← bind_input fixed input tier stream s
  (bs, u) ← bind_inputs fixed tier stream inputs t
  some (b ∷ bs, u)

-- The place of the first binding of a value.
abbrev pub place_bound : ValueId → List ValueBinding → Option AllocPlace
place_bound v [] = none
place_bound v (b ∷ bindings) = if b.value == v then some b.place else place_bound v bindings

-- What may be written over by an output that aliases the first input: a chunk only if this kernel is
-- the last one to use it.
unfoldable pub aliased_input :
    Option ValueId → List ValueBinding → List (ValueId × ℕ) → Option AllocPlace
aliased_input none bindings uses = none
aliased_input (some in0) bindings uses = do
  p ← place_bound in0 bindings
  elim p [ chunk cid ↦ if remaining uses in0 == 1 then some (chunk cid) else none | q ↦ some q ]

-- `inputs[0]` out of range is a panic.
unfoldable pub try_in_place_identity :
    Kernel → List ValueBinding → Scheduler → Option (Option AllocPlace)
unfolding aliased_input
try_in_place_identity kernel bindings s = elim kernel.body [
  | opaque identity ↦
      Option.map (λ in0. aliased_input in0 bindings s.value_remaining_uses)
        (get_elem? kernel.inputs 0)
  | opaque (reinterpret _) ↦
      Option.map (λ in0. aliased_input in0 bindings s.value_remaining_uses)
        (get_elem? kernel.inputs 0)
  | _ ↦ some none
]

unfoldable pub must_in_place_place :
    Fixed → KernelId → Kernel → List ValueBinding → Option (Option AllocPlace)
must_in_place_place fixed kid kernel bindings = do
  index ← must_in_place_input fixed.schedule kid
  elim index [
    | none ↦ some none
    | some idx ↦ (do
      input ← get_elem? kernel.inputs idx
      input_v ← input
      place ← place_bound input_v bindings
      some (some place))
  ]

-- The place of an output, and whether it was allocated for it.
unfoldable pub output_place :
    Fixed
    → Option AllocPlace
    → Option AllocPlace
    → ValueId
    → MemoryTier
    → StreamId
    → Scheduler
    → Option ((AllocPlace × Bool) × Scheduler)
unfolding place_in_chunk
output_place fixed (some p) must v tier stream s = some ((p, false), s)
output_place fixed none (some p) v tier stream s = some ((p, false), s)
output_place fixed none none v tier stream s = elim (lookup v fixed.output_alias) [
  | some target ↦
      if tier_eq tier host_arena
      then some ((AllocPlace.output target, false), s)
      else (do (place, t) ← place_in_chunk fixed v tier stream s; some ((place, true), t))
  | none ↦ (do (place, t) ← place_in_chunk fixed v tier stream s; some ((place, true), t))
]

-- The transfer of a graph output that is not in the buffer of that output.
unfoldable pub post_transfer :
    Fixed → ValueId → AllocPlace → Scheduler → Option (List PostTransfer × Scheduler)
post_transfer fixed output place s = elim (lookup output fixed.output_alias) [
  | none ↦ some ([], s)
  | some target ↦ if is_output place then some ([], s) else (do
    t ← on_chunk (λ cid. Alloc.add_uses cid 1) place s
    some (
      record {
        src = binding output Ir.input place false;
        dst = binding output Ir.output (AllocPlace.output target) false;
      }
          ∷ [],
      t,
    ))
]

unfoldable pub bind_output :
    Fixed
    → Option AllocPlace
    → Option AllocPlace
    → MemoryTier
    → StreamId
    → ValueId
    → Scheduler
    → Option ((ValueBinding × List PostTransfer) × Scheduler)
unfolding output_place post_transfer mark_place
bind_output fixed alias must tier stream output s = do
  ((place, allocated), s1) ← output_place fixed alias must output tier stream s
  let s2 = place_value output place s1
  s3 ←
      (if allocated
        then some s2
        else on_chunk (λ cid. Alloc.add_uses cid (remaining s.value_remaining_uses output)) place
            s2)
  (posts, s4) ← post_transfer fixed output place s3
  (is_first_use, s5) ← mark_place place s4
  s6 ← on_chunk (λ cid. Alloc.release_if_dead cid stream) place s5
  some ((binding output Ir.output place is_first_use, posts), s6)

-- The loop over the outputs.
unfoldable pub bind_outputs :
    Fixed
    → Option AllocPlace
    → Option AllocPlace
    → MemoryTier
    → StreamId
    → List ValueId
    → Scheduler
    → Option ((List ValueBinding × List PostTransfer) × Scheduler)
bind_outputs fixed alias must tier stream [] s = some (([], []), s)
bind_outputs fixed alias must tier stream (output ∷ outputs) s = do
  ((b, ps), t) ← bind_output fixed alias must tier stream output s
  ((bs, qs), u) ← bind_outputs fixed alias must tier stream outputs t
  some ((b ∷ bs, ps ++ qs), u)

unfoldable pub bind_kernel :
    Fixed
    → KernelId
    → StreamId
    → Scheduler
    → Option ((List ValueBinding × List PostTransfer) × Scheduler)
unfolding bind_inputs try_in_place_identity must_in_place_place bind_outputs
bind_kernel fixed kid stream s = do
  kernel ← get_elem? fixed.schedule.kernels kid
  info ← lookup kid s.kernel_info
  let on = tier info.device
  (ins, s1) ← bind_inputs fixed on stream (flatten kernel.inputs) s
  alias ← try_in_place_identity kernel ins s1
  must ← must_in_place_place fixed kid kernel ins
  ((outs, posts), s2) ← bind_outputs fixed alias must on stream kernel.outputs s1
  some ((ins ++ outs, posts), s2)
