-- ===== src/Schedule/Scheduler/Round.antt =====
-- `schedule_kernel` and the loop of `run` of src/schedule/scheduler/memory_aware.rs. `none` is a
-- panic or the end of the fuel.
use my_nn_engine.Prelude.{
  ℕ, zero, suc, ◌+◌, ◌-◌, Bool, true, false, List, [], ◌∷◌, Option, none, some, ◌>>=◌, get_elem?,
  set, length, ◌==◌, if◌then◌else◌,
}
use mathlib.Core.Option
use my_nn_engine.Schedule.Ir.{
  ValueId, KernelId, StreamId, EventId, Device, BindingRole, ValueBinding, ExecutionContext, Step,
  kernel,
}
use my_nn_engine.Schedule.Ir
use my_nn_engine.Schedule.Alloc
use my_nn_engine.Graph.Operator.{transfer}
use my_nn_engine.Schedule.Kernels.{Kernel, KernelBody, opaque, flatten}
use my_nn_engine.Schedule.Deps.{lookup}
use my_nn_engine.Schedule.Order.{advance, remove}
use my_nn_engine.Schedule.Order.Pick.{pick_best}
use my_nn_engine.Schedule.Scheduler.{
  Fixed, Scheduler, KernelInfo, pick_stream, pick_device, fresh_event, push, transfer_step,
  wait_step, on_chunk,
}
use my_nn_engine.Schedule.Scheduler.Bind.{PostTransfer, bind_kernel}

-- `HashMap::insert`, which replaces the entry of a key that is there.
abbrev pub put : KernelId → KernelInfo → List (KernelId × KernelInfo) → List (KernelId × KernelInfo)
put kid info [] = (kid, info) ∷ []
put kid info ((k, i) ∷ infos) =
    if k == kid then (kid, info) ∷ infos else (k, i) ∷ put kid info infos

-- `get_mut(v)`, which subtracts one; a count below 0 is a panic.
abbrev pub use_up : ValueId → List (ValueId × ℕ) → Option (List (ValueId × ℕ))
use_up v [] = some []
use_up v ((w, n) ∷ uses) =
    if w == v
    then (if n == 0 then none else some ((w, n - 1) ∷ uses))
    else Option.map (λ r. (w, n) ∷ r) (use_up v uses)

-- The wait for a predecessor on another stream.
unfoldable pub wait_for : StreamId → Device → KernelId → Scheduler → Option Scheduler
wait_for stream device pred s = do
  info ← lookup pred s.kernel_info
  some (if info.stream == stream then s else push (wait_step device stream info.event) s)

unfoldable pub wait_all : StreamId → Device → List KernelId → Scheduler → Option Scheduler
wait_all stream device [] s = some s
wait_all stream device (pred ∷ preds) s = do
  t ← wait_for stream device pred s
  wait_all stream device preds t

abbrev role_eq : BindingRole → BindingRole → Bool
role_eq Ir.input Ir.input = true
role_eq Ir.output Ir.output = true
role_eq Ir.workspace Ir.workspace = true
role_eq _ _ = false

abbrev pub find_role : BindingRole → List ValueBinding → Option ValueBinding
find_role role [] = none
find_role role (b ∷ bindings) = if role_eq b.role role then some b else find_role role bindings

abbrev pub is_transfer : KernelBody → Bool
is_transfer (opaque transfer) = true
is_transfer _ = false

-- The step of a kernel with its bindings: a transfer operator becomes a transfer.
unfoldable pub kernel_step :
    KernelId → Kernel → ExecutionContext → List ValueBinding → EventId → Option Step
kernel_step kid kern context bindings event =
    if is_transfer kern.body
    then (do
      src ← find_role Ir.input bindings
      dst ← find_role Ir.output bindings
      some (transfer_step src dst context.device context.stream event))
    else some (
        kernel (record {
          kernel = kid;
          context = context;
          bindings = bindings;
          records_event = some event;
        }))

-- The loop over the transfers of the outputs.
unfoldable pub post_all : StreamId → Device → List PostTransfer → Scheduler → Option Scheduler
unfolding fresh_event
post_all stream device [] s = some s
post_all stream device (pt ∷ posts) s = do
  let (event, t) = fresh_event s
  u ←
      on_chunk (λ cid. Alloc.consume cid stream) pt.src.place
        (push (transfer_step pt.src pt.dst device stream event) t)
  post_all stream device posts u

-- The loop over the inputs that the kernel has used.
unfoldable pub use_all : StreamId → List ValueId → Scheduler → Option Scheduler
use_all stream [] s = some s
use_all stream (input ∷ inputs) s = do
  uses ← use_up input s.value_remaining_uses
  let t = record s { value_remaining_uses = uses }
  u ← elim (lookup input t.value2place) [
    | none ↦ some t
    | some place ↦ on_chunk (λ cid. Alloc.consume cid stream) place t
  ]
  use_all stream inputs u

-- The kernel is entered, with the stream that was picked and a new event.
abbrev pub entered : KernelId → KernelInfo → ℕ → Scheduler → Scheduler
entered kid info load s = record s {
  kernel_info = put kid info s.kernel_info;
  stream_load = set s.stream_load info.stream (load + 1);
}

unfoldable pub enter_kernel :
    KernelId → Device → StreamId → Scheduler → Option (EventId × Scheduler)
unfolding fresh_event
enter_kernel kid device stream s = do
  let (event, t) = fresh_event s
  let info : KernelInfo = record {
    order = length t.kernel_info;
    stream = stream;
    event = event;
    device = device;
  }
  load ← get_elem? t.stream_load stream
  some (event, entered kid info load t)

-- The last loop.
unfoldable pub advance_order : Fixed → KernelId → Scheduler → Option Scheduler
advance_order fixed kid s = do
  consumers ← get_elem? fixed.deps.kernel_consumers kid
  order ← advance consumers s.order
  some (record s { order = order })

-- What follows the entry of the kernel: the waits, the bindings, the steps, the use counts and the
-- ready set.
unfoldable pub schedule_entered :
    Fixed → KernelId → Device → StreamId → EventId → Scheduler → Option Scheduler
unfolding wait_all bind_kernel kernel_step post_all use_all advance_order
schedule_entered fixed kid device stream event s1 = do
  preds ← get_elem? fixed.deps.kernel_preds kid
  s2 ← wait_all stream device preds s1
  ((bindings, posts), s3) ← bind_kernel fixed kid stream s2
  kern ← get_elem? fixed.schedule.kernels kid
  step ← kernel_step kid kern (record { device = device; stream = stream }) bindings event
  s4 ← post_all stream device posts (push step s3)
  s5 ← use_all stream (flatten kern.inputs) s4
  advance_order fixed kid s5

unfoldable pub schedule_kernel : Fixed → KernelId → Scheduler → Option Scheduler
unfolding pick_stream enter_kernel schedule_entered
schedule_kernel fixed kid s = do
  device ← pick_device fixed kid
  stream ← pick_stream fixed kid s
  (event, s1) ← enter_kernel kid device stream s
  schedule_entered fixed kid device stream event s1

-- One round of `run`, for the kernel that was picked.
unfoldable pub schedule_next : Fixed → KernelId → Scheduler → Option Scheduler
unfolding schedule_kernel
schedule_next fixed kid s = schedule_kernel fixed kid (record s {
  order = record { kernel_pending = s.order.kernel_pending; ready = remove kid s.order.ready };
})

-- The loop of `run`.
unfoldable pub run_loop : ℕ → Fixed → Scheduler → Option Scheduler
unfolding pick_best schedule_next
run_loop zero fixed s = none
run_loop (suc fuel) fixed s = do
  picked ← pick_best fixed.schedule s.value_remaining_uses s.order.ready
  elim picked [
    | none ↦ some s
    | some kid ↦ (do t ← schedule_next fixed kid s; run_loop fuel fixed t)
  ]
