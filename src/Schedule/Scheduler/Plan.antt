-- ===== src/Schedule/Scheduler/Plan.antt =====
-- `finalize_outputs`, `into_plan`, `run` and `build` of src/schedule/scheduler/memory_aware.rs, and
-- the pass that makes the plan.
use my_nn_engine.Prelude.{
  ℕ, suc, false, List, [], ◌∷◌, Option, none, some, ◌>>=◌, length, map, reverse, leb, if◌then◌else◌,
}
use my_nn_engine.Schedule.Ir.{
  ValueId, KernelId, StreamId, Device, cpu, AllocPlace, Step, transfer, EventInfo, ExecutionPlan,
}
use my_nn_engine.Schedule.Ir
use my_nn_engine.Schedule.Kernels.{Schedule, contains}
use my_nn_engine.Schedule.Placement.{Placement, uniform, structural_kv_touch, resident_budget}
use my_nn_engine.Schedule.Deps.{lookup}
use my_nn_engine.Schedule.Layout.{layout}
use my_nn_engine.Schedule.Scheduler.{
  Fixed, Scheduler, KernelInfo, new, is_output, fresh_event, push, binding, transfer_step,
}
use my_nn_engine.Schedule.Scheduler.Round.{run_loop}

-- The values that the steps bring to the buffer of an output.
unfoldable pub delivered : List Step → List ValueId
delivered [] = []
delivered (step ∷ steps) = elim step [
  | transfer t ↦ if is_output t.dst.place then t.dst.value ∷ delivered steps else delivered steps
  | _ ↦ delivered steps
]

-- The stream and the device of the kernel that makes the value.
unfoldable pub producer_context : Fixed → ValueId → Scheduler → Option (StreamId × Device)
producer_context fixed v s = elim (lookup v fixed.deps.value2producer) [
  | none ↦ some (0, cpu)
  | some kid ↦ (do info ← lookup kid s.kernel_info; some (info.stream, info.device))
]

-- The transfer of a value from its place to the buffer of the output.
unfoldable pub deliver : Fixed → ValueId → AllocPlace → Scheduler → Option Scheduler
unfolding producer_context fresh_event
deliver fixed v place s = do
  (stream, device) ← producer_context fixed v s
  let (event, t) = fresh_event s
  some (
      push
        (transfer_step (binding v Ir.input place false)
          (binding v Ir.output (AllocPlace.output v) false) device stream event)
        t)

-- One round of the loop of `finalize_outputs`.
unfoldable pub finalize_output : Fixed → List ValueId → ValueId → Scheduler → Option Scheduler
unfolding deliver
finalize_output fixed already v s =
    if contains already v then some s else elim (lookup v s.value2place) [
      | none ↦ some s
      | some place ↦ if is_output place then some s else deliver fixed v place s
    ]

unfoldable pub finalize_loop : Fixed → List ValueId → List ValueId → Scheduler → Option Scheduler
finalize_loop fixed already [] s = some s
finalize_loop fixed already (v ∷ vs) s = do
  t ← finalize_output fixed already v s
  finalize_loop fixed already vs t

unfoldable pub finalize_outputs : Fixed → Scheduler → Option Scheduler
unfolding delivered finalize_loop
finalize_outputs fixed s = finalize_loop fixed (delivered s.steps) fixed.schedule.outputs s

-- `sort_by_key` by the event's id.
abbrev pub insert_event : EventInfo → List EventInfo → List EventInfo
insert_event e [] = e ∷ []
insert_event e (f ∷ events) = if leb e.id f.id then e ∷ f ∷ events else f ∷ insert_event e events

unfoldable pub sort_events : List EventInfo → List EventInfo
sort_events [] = []
sort_events (e ∷ events) = insert_event e (sort_events events)

abbrev pub event_info : KernelId × KernelInfo → EventInfo
event_info entry = record { id = entry.1.event; stream = entry.1.stream }

unfoldable pub into_plan : Fixed → Scheduler → Option ExecutionPlan
unfolding layout sort_events
into_plan fixed s = do
  (chunks, arenas) ← layout s.allocator
  some (record {
    steps = reverse s.steps;
    chunks = chunks;
    arenas = arenas;
    events = sort_events (map event_info s.kernel_info);
    stream_count = fixed.num_streams;
  })

-- A kernel of the schedule is picked at most once, so that one round per kernel and the last test
-- are enough.
unfoldable pub run : Fixed → Scheduler → Option ExecutionPlan
unfolding run_loop finalize_outputs into_plan
run fixed s = do
  t ← run_loop (suc (length fixed.schedule.kernels)) fixed s
  u ← finalize_outputs fixed t
  into_plan fixed u

unfoldable pub build : Schedule → ℕ → Placement → Option ExecutionPlan
unfolding new run
build schedule num_streams placement = do
  (fixed, s) ← new schedule num_streams placement
  run fixed s

pub data PlacementStrategy : Type 0 where
  uniform_on : Device → PlacementStrategy
  structural : PlacementStrategy
  budget : (min_bytes resident_bytes : ℕ) → PlacementStrategy

unfoldable pub run_pass : Schedule → ℕ → PlacementStrategy → Option ExecutionPlan
unfolding build
run_pass schedule num_streams strategy = do
  placement ← elim strategy [
    | uniform_on d ↦ some (uniform schedule d)
    | structural ↦ some (structural_kv_touch schedule)
    | budget min_bytes resident_bytes ↦ resident_budget schedule min_bytes resident_bytes
  ]
  build schedule num_streams placement
