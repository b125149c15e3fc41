-- ===== src/Schedule/Scheduler.antt =====
-- `Scheduler` of src/schedule/scheduler/memory_aware.rs: its state, the steps that it can push, and
-- what its small methods do. A hash map that is only inserted into is a list with the newest entry
-- first, and the order of a hash set is that of its list. `steps` has the newest step first. `none`
-- is a panic.
pub mod Trace
pub mod Extends
pub mod OnTier
pub mod Bind
pub mod Round
pub mod Plan
pub mod Sound
pub mod Beginning
pub mod Ending
pub mod Run
pub mod Delivery
pub mod Finish
mod Tests
use my_nn_engine.Prelude.{
  ℕ, zero, suc, ◌+◌, ◌-◌, Bool, true, false, not, ◌&&◌, List, [], ◌∷◌, Option, none, some, ◌>>=◌,
  get_elem?, set, length, replicate, map, max, ltb, leb, ◌==◌, if◌then◌else◌,
}
use mathlib.Core.Option
use my_nn_engine.Tensor.Dims.{is_scalar}
use my_nn_engine.Tensor.Types.{ResolvedTensorType, DataType, sint, i64}
use my_nn_engine.Schedule.Ir.{
  ValueId, KernelId, ChunkId, StreamId, EventId, Device, cpu, cuda, device_eq, MemoryTier,
  gpu_arena, host_arena, tier_eq, AllocPlace, chunk, BindingRole, ValueBinding, ExecutionContext,
  Step, sync_wait, kernel, transfer,
}
use my_nn_engine.Schedule.Ir
use my_nn_engine.Schedule.Alloc
use my_nn_engine.Schedule.Alloc.{ArenaChunks, ChunkAllocator}
use my_nn_engine.Schedule.Kernels.{Schedule, contains, value_byte_size}
use my_nn_engine.Schedule.Placement.{Placement, device_of}
use my_nn_engine.Schedule.Placement.Tiers.{session_state_tier}
use my_nn_engine.Schedule.Deps.{Deps, lookup}
use my_nn_engine.Schedule.Deps
use my_nn_engine.Schedule.Aliases.{Entries, output_aliases}
use my_nn_engine.Schedule.Order.{Order, start}

pub record KernelInfo : Type 0 where
  pub order : ℕ
  pub stream : StreamId
  pub event : EventId
  pub device : Device

pub record TransferRecord : Type 0 where
  pub place : AllocPlace
  pub event : EventId
  pub stream : StreamId

-- The fields that no method changes. The sets of initializers, session states and inputs are the
-- schedule's lists.
pub record Fixed : Type 0 where
  pub schedule : Schedule
  pub deps : Deps
  pub output_alias : Entries
  pub placement : Placement
  pub session_state_tier : List (ValueId × MemoryTier)
  pub num_streams : ℕ

-- The fields that change; `order` has `kernel_pending` and `ready`.
pub record Scheduler : Type 0 where
  pub allocator : ChunkAllocator
  pub value_on_tier : List ((ValueId × MemoryTier) × TransferRecord)
  pub next_event_id : ℕ
  pub value2place : List (ValueId × AllocPlace)
  pub value_remaining_uses : List (ValueId × ℕ)
  pub order : Order
  pub kernel_info : List (KernelId × KernelInfo)
  pub stream_load : List ℕ
  pub steps : List Step

-- Whether the placement has a kernel on the GPU.
abbrev pub needs_cuda : Placement → Bool
needs_cuda [] = false
needs_cuda (d ∷ placement) = if device_eq d cuda then true else needs_cuda placement

unfoldable pub tiers_of : Schedule → Placement → List ValueId → Option (List (ValueId × MemoryTier))
tiers_of schedule placement [] = some []
tiers_of schedule placement (sv ∷ svs) = do
  tier ← session_state_tier schedule placement sv
  rest ← tiers_of schedule placement svs
  some ((sv, tier) ∷ rest)

-- `value2place.insert(v, place(v))` for the values of a set.
abbrev pub insert_places :
    (ValueId → AllocPlace)
    → List ValueId
    → List (ValueId × AllocPlace)
    → List (ValueId × AllocPlace)
insert_places place [] places = places
insert_places place (v ∷ vs) places = insert_places place vs ((v, place v) ∷ places)

unfoldable pub streams_of : ℕ → Placement → ℕ
streams_of num_streams placement = if needs_cuda placement then max num_streams 1 else 1

unfoldable pub new : Schedule → ℕ → Placement → Option (Fixed × Scheduler)
unfolding start streams_of
new schedule num_streams placement = do
  deps ← Deps.new schedule
  output_alias ← output_aliases schedule
  tiers ← tiers_of schedule placement schedule.session_states
  some (
    record {
      schedule = schedule;
      deps = deps;
      output_alias = output_alias;
      placement = placement;
      session_state_tier = tiers;
      num_streams = streams_of num_streams placement;
    },
    record {
      allocator = Alloc.empty;
      value_on_tier = [];
      next_event_id = 0;
      value2place = insert_places AllocPlace.input schedule.inputs (
          insert_places AllocPlace.session_state schedule.session_states
            (insert_places AllocPlace.initializer schedule.initializers []));
      value_remaining_uses = deps.value_uses_count;
      order = start deps;
      kernel_info = [];
      stream_load = replicate (streams_of num_streams placement) 0;
      steps = [];
    },
  )

-- The first arena of a tier, from the index `i` on.
abbrev pub position : MemoryTier → ℕ → List ArenaChunks → Option ℕ
position tier i [] = none
position tier i (a ∷ arenas) = if tier_eq a.tier tier then some i else position tier (suc i) arenas

-- `unwrap_or_else`, with the arena that it makes.
unfoldable pub arena_for : Fixed → MemoryTier → ChunkAllocator → ℕ × ChunkAllocator
arena_for fixed tier a = elim (position tier 0 a.arena2chunks) [
  | some id ↦ (id, a)
  | none ↦ Alloc.new_arena tier fixed.num_streams a
]

unfoldable pub alloc_chunk :
    Fixed → MemoryTier → ℕ → StreamId → ℕ → Scheduler → Option (ChunkId × Scheduler)
alloc_chunk fixed tier size stream uses s =
    let (arena_id, a) = arena_for fixed tier s.allocator in
    (do (cid, b) ← Alloc.alloc size arena_id stream uses a; some (cid, record s { allocator = b }))

-- The predecessor that was scheduled last; of equal ones, the last.
unfoldable pub latest_of :
    List (KernelId × KernelInfo) → Option KernelInfo → List KernelId → Option (Option KernelInfo)
latest_of infos best [] = some best
latest_of infos best (p ∷ preds) = do
  info ← lookup p infos
  latest_of infos
      (elim best [
        | none ↦ some info
        | some b ↦ if ltb info.order b.order then some b else some info
      ])
      preds

-- The least load and the first index, from `i` on, that has it.
abbrev pub least_loaded : ℕ → List ℕ → Option (ℕ × ℕ)
least_loaded i [] = none
least_loaded i (l ∷ loads) = elim (least_loaded (suc i) loads) [
  | none ↦ some (i, l)
  | some (j, m) ↦ if ltb m l then some (j, m) else some (i, l)
]

unfoldable pub pick_stream : Fixed → KernelId → Scheduler → Option StreamId
unfolding latest_of
pick_stream fixed kid s = if fixed.num_streams == 1 then some 0 else (do
  preds ← get_elem? fixed.deps.kernel_preds kid
  latest ← latest_of s.kernel_info none preds
  elim latest [
    | some info ↦ some info.stream
    | none ↦ Option.map (λ (b : ℕ × ℕ). b.0) (least_loaded 0 s.stream_load)
  ])

abbrev pub pick_device : Fixed → KernelId → Option Device
pick_device fixed kid = device_of fixed.placement kid

unfoldable pub fresh_event : Scheduler → EventId × Scheduler
fresh_event s = (s.next_event_id, record s { next_event_id = s.next_event_id + 1 })

abbrev pub push : Step → Scheduler → Scheduler
push step s = record s { steps = step ∷ s.steps }

-- The device that a tier belongs to.
abbrev pub device_on : MemoryTier → Device
device_on host_arena = cpu
device_on gpu_arena = cuda

abbrev pub binding : ValueId → BindingRole → AllocPlace → Bool → ValueBinding
binding value role place is_first_use = record {
  value = value;
  role = role;
  place = place;
  is_first_use = is_first_use;
}

-- A transfer, with the event that it records.
abbrev pub transfer_step : ValueBinding → ValueBinding → Device → StreamId → EventId → Step
transfer_step src dst device stream event = transfer (record {
  src = src;
  dst = dst;
  context = record { device = device; stream = stream };
  records_event = some event;
})

abbrev pub wait_step : Device → StreamId → EventId → Step
wait_step device stream event =
    sync_wait (record { context = record { device = device; stream = stream }; event = event })

-- `matches!(place, AllocPlace::Output(_))`.
abbrev pub is_output : AllocPlace → Bool
is_output (AllocPlace.output _) = true
is_output _ = false

-- `matches!(place, AllocPlace::Chunk(cid) if self.allocator.mark_as_first_use(cid))`.
unfoldable pub mark_place : AllocPlace → Scheduler → Option (Bool × Scheduler)
mark_place place s = elim place [
  | chunk cid ↦ (do
    (first, a) ← Alloc.mark_as_first_use cid s.allocator
    some (first, record s { allocator = a }))
  | _ ↦ some (false, s)
]

-- A change of the allocator where the place is a chunk.
abbrev pub on_chunk :
    (ChunkId → ChunkAllocator → Option ChunkAllocator) → AllocPlace → Scheduler → Option Scheduler
on_chunk change place s = elim place [
  | chunk cid ↦ Option.map (λ a. record s { allocator = a }) (change cid s.allocator)
  | _ ↦ some s
]
