-- ===== src/Schedule/Scheduler/Delivery.antt =====
-- The transfers that `finalize_outputs` of src/schedule/scheduler/memory_aware.rs adds.
use my_nn_engine.Prelude.{
  ℕ, ◌≡◌, refl, Bool, true, false, not, List, [], ◌++◌, none, some, All, Any, ◌⊎◌,
}
use my_nn_engine.Schedule.Ir.{
  ValueId, KernelId, StreamId, EventId, Device, cpu, AllocPlace, Step, ExecutionPlan,
}
use my_nn_engine.Schedule.Ir
use my_nn_engine.Schedule.Kernels.{contains}
use my_nn_engine.Schedule.Deps.{lookup}
use my_nn_engine.Schedule.Scheduler.{
  Fixed, Scheduler, KernelInfo, is_output, binding, transfer_step,
}
use my_nn_engine.Schedule.Scheduler.Extends.{Core, Extends, Extends-refl}

-- Whether the value has a place, and that is not the buffer of an output.
abbrev pub is_elsewhere : ValueId → Scheduler → Bool
is_elsewhere v s = elim (lookup v s.value2place) [ none ↦ false | some p ↦ not (is_output p) ]

-- The stream and the device on which the value was made: those of its kernel, or else the first stream
-- of the host.
abbrev pub IsMadeOn : Fixed → List (KernelId × KernelInfo) → ValueId → StreamId → Device → Type 0
IsMadeOn fixed infos v stream device =
    ((lookup v fixed.deps.value2producer ≡ none) × (stream ≡ 0) × (device ≡ cpu))
    ⊎ ((kid : KernelId) × (info : KernelInfo) × (lookup v fixed.deps.value2producer ≡ some kid)
        × (lookup kid infos ≡ some info)
        × (stream ≡ info.stream)
        × (device ≡ info.device))

-- The step transfers the value from its place to the buffer of that output, where it was made.
pub record IsDelivery (fixed : Fixed) (places : List (ValueId × AllocPlace))
    (infos : List (KernelId × KernelInfo)) (v : ValueId) (step : Step) : Type 0 where
  pub place : AllocPlace
  pub stream : StreamId
  pub device : Device
  pub event : EventId
  pub from : lookup v places ≡ some place
  pub elsewhere : is_output place ≡ false
  pub made_on : IsMadeOn fixed infos v stream device
  pub is_step :
      step
      ≡ transfer_step
          (binding v Ir.input place false)
          (binding v Ir.output (AllocPlace.output v) false)
          device
          stream
          event

-- The step delivers one of the values, which was not delivered already.
abbrev pub DeliversOne :
    Fixed
    → List (ValueId × AllocPlace)
    → List (KernelId × KernelInfo)
    → List ValueId
    → List ValueId
    → Step
    → Type 0
DeliversOne fixed places infos already vs step =
    (v : ValueId) × (contains vs v ≡ true)
    × (contains already v ≡ false)
    × IsDelivery fixed places infos v step

-- What `finalize_output` does: the trace is extended by deliveries, and each value that is elsewhere
-- and was not delivered already has one.
pub record Finalized (n : ℕ) (fixed : Fixed) (already vs : List ValueId) (s t : Scheduler)
    : Type 0 where
  pub extends : Extends n s t
  pub places : t.value2place ≡ s.value2place
  pub steps : List Step
  pub grown : t.steps ≡ steps ++ s.steps
  pub only : All (DeliversOne fixed s.value2place s.kernel_info already vs) steps
  pub all_delivered :
      (v : ValueId)
      → contains vs v ≡ true
      → contains already v ≡ false
      → is_elsewhere v s ≡ true
      → Any (IsDelivery fixed s.value2place s.kernel_info v) steps

pub Finalized-nil :
    (n : ℕ) (fixed : Fixed) (already : List ValueId) (s : Scheduler)
    → Core n s
    → Finalized n fixed already [] s s
Finalized-nil n fixed already s c = record {
  extends = Extends-refl n s c;
  places = refl;
  steps = [];
  grown = refl;
  only = tt;
  all_delivered = λ v h a e. cc;
}
