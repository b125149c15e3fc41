-- ===== src/Schedule/Scheduler/OnTier.antt =====
-- `ensure_value_on_tier` of src/schedule/scheduler/memory_aware.rs.
use my_nn_engine.Prelude.{
  Bool, true, false, not, ◌&&◌, List, [], ◌∷◌, Option, none, some, ◌>>=◌, get_elem?, ◌==◌,
  if◌then◌else◌,
}
use mathlib.Core.Option
use my_nn_engine.Tensor.Dims.{is_scalar}
use my_nn_engine.Tensor.Types.{DataType, sint, i64}
use my_nn_engine.Schedule.Ir.{
  ValueId, StreamId, MemoryTier, host_arena, tier_eq, AllocPlace, chunk, session_state, initializer,
}
use my_nn_engine.Schedule.Ir
use my_nn_engine.Schedule.Alloc
use my_nn_engine.Schedule.Kernels.{Schedule, value_byte_size}
use my_nn_engine.Schedule.Deps.{lookup}
use my_nn_engine.Schedule.Scheduler.{
  Fixed, Scheduler, TransferRecord, alloc_chunk, fresh_event, push, device_on, binding,
  transfer_step, wait_step, mark_place, on_chunk,
}

unfoldable pub needs_transfer : Fixed → AllocPlace → MemoryTier → Scheduler → Option Bool
needs_transfer fixed original dst_tier s = elim original [
  | chunk cid ↦ Option.map (λ t. not (tier_eq t dst_tier)) (Alloc.chunk_tier cid s.allocator)
  | AllocPlace.input _ ↦ some (not (tier_eq dst_tier host_arena))
  | AllocPlace.output _ ↦ some (not (tier_eq dst_tier host_arena))
  | session_state v ↦ Option.map (λ t. not (tier_eq t dst_tier)) (lookup v fixed.session_state_tier)
  | initializer _ ↦ some false
]

abbrev is_i64 : DataType → Bool
is_i64 (sint i64) = true
is_i64 _ = false

-- A value of a resolved type without axes and of elements of 64 bits, which is passed to the kernel
-- by the host.
unfoldable pub is_launch_argument : Schedule → ValueId → Option Bool
is_launch_argument schedule value = do
  ty ← get_elem? schedule.types value
  some (elim ty [ none ↦ false | some rty ↦ is_scalar rty.dims && is_i64 rty.elem_type ])

-- `value_on_tier.get(&(value, tier))`.
abbrev pub lookup_on :
    ValueId → MemoryTier → List ((ValueId × MemoryTier) × TransferRecord) → Option TransferRecord
lookup_on value tier [] = none
lookup_on value tier (((v, t), r) ∷ records) =
    if (v == value) && tier_eq t tier then some r else lookup_on value tier records

-- The branch for a value that was transferred before.
unfoldable pub reuse :
    TransferRecord → MemoryTier → StreamId → Scheduler → Option (AllocPlace × Scheduler)
reuse cached dst_tier stream s = do
  t ← on_chunk (λ cid. Alloc.add_uses cid 1) cached.place s
  some (
    cached.place,
    (if cached.stream == stream
        then t
        else push (wait_step (device_on dst_tier) stream cached.event) t),
  )

-- The branch for a value that has to be transferred.
unfoldable pub transfer_to :
    Fixed
    → ValueId
    → AllocPlace
    → MemoryTier
    → StreamId
    → Scheduler
    → Option (AllocPlace × Scheduler)
unfolding alloc_chunk fresh_event mark_place
transfer_to fixed value original dst_tier stream s = do
  size ← value_byte_size fixed.schedule value
  (dst_cid, s1) ← alloc_chunk fixed dst_tier size stream 1 s
  let (event, s2) = fresh_event s1
  (src_first_use, s3) ← mark_place original s2
  (dst_first_use, s4) ← mark_place (chunk dst_cid) s3
  let s5 =
      push
        (transfer_step (binding value Ir.input original src_first_use)
          (binding value Ir.output (chunk dst_cid) dst_first_use) (device_on dst_tier) stream event)
        s4
  some (
    chunk dst_cid,
    record s5 {
      value_on_tier =
          ((value, dst_tier), record { place = chunk dst_cid; event = event; stream = stream })
          ∷ s5.value_on_tier;
    },
  )

unfoldable pub ensure_value_on_tier :
    Fixed
    → ValueId
    → AllocPlace
    → MemoryTier
    → StreamId
    → Scheduler
    → Option (AllocPlace × Scheduler)
ensure_value_on_tier fixed value original dst_tier stream s = do
  needed ← needs_transfer fixed original dst_tier s
  if not needed then some (original, s) else (do
    passed ← is_launch_argument fixed.schedule value
    if passed then some (original, s) else elim (lookup_on value dst_tier s.value_on_tier) [
      | some cached ↦ reuse cached dst_tier stream s
      | none ↦ transfer_to fixed value original dst_tier stream s
    ])
