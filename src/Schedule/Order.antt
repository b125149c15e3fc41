-- ===== src/Schedule/Order.antt =====
-- The order of the kernels: the fields `kernel_pending` and `ready` of the scheduler in
-- src/schedule/scheduler/memory_aware.rs, and what its methods do to them. `ready` is a set, of
-- which the order of the list says nothing.
pub mod Advance
pub mod Topological
pub mod Runs
pub mod Outcome
pub mod Pick
mod Tests
use my_nn_engine.Prelude.{
  ℕ, zero, suc, ◌-◌, ◌≡◌, Bool, true, false, List, [], ◌∷◌, Option, none, some, ◌>>=◌, get_elem?,
  set, length, map, ◌==◌, if◌then◌else◌,
}
use my_nn_engine.Schedule.Ir.{KernelId}
use my_nn_engine.Schedule.Kernels.{contains}
use my_nn_engine.Schedule.Deps.{Deps}

pub record Order : Type 0 where
  pub kernel_pending : List ℕ
  pub ready : List KernelId

-- The kernels, from `kid` on, for which nothing is pending.
unfoldable pub zeros_from : KernelId → List ℕ → List KernelId
zeros_from kid [] = []
zeros_from kid (count ∷ pending) =
    if count == 0 then kid ∷ zeros_from (suc kid) pending else zeros_from (suc kid) pending

-- What `Scheduler::new` sets the fields to.
unfoldable pub start : Deps → Order
unfolding zeros_from
start deps =
    let pending = map length deps.kernel_preds in
    record { kernel_pending = pending; ready = zeros_from 0 pending }

abbrev pub insert : KernelId → List KernelId → List KernelId
insert kid ready = if contains ready kid then ready else kid ∷ ready

abbrev pub remove : KernelId → List KernelId → List KernelId
remove kid [] = []
remove kid (k ∷ ready) = if k == kid then remove kid ready else k ∷ remove kid ready

-- The last loop of `schedule_kernel`; a count below 0 is a panic.
unfoldable pub advance : List KernelId → Order → Option Order
advance [] order = some order
advance (cons ∷ consumers) order = do
  count ← get_elem? order.kernel_pending cons
  if count == 0
      then none
      else advance consumers (record {
        kernel_pending = set order.kernel_pending cons (count - 1);
        ready = if count == 1 then insert cons order.ready else order.ready;
      })

-- One round of `run`, as far as the two fields go, for the kernel that was picked.
unfoldable pub round : Deps → KernelId → Order → Option Order
round deps kid order = do
  consumers ← get_elem? deps.kernel_consumers kid
  advance consumers (record order { ready = remove kid order.ready })

-- The rounds of a run: the kernels scheduled so far, the last one first. Which of the ready kernels
-- is picked is left open.
pub data Run (deps : Deps) : List KernelId → Order → Type 0 where
  begin : Run deps [] (start deps)
  next :
      {done : List KernelId} {order after : Order} (kid : KernelId)
      → Run deps done order
      → contains order.ready kid ≡ true
      → round deps kid order ≡ some after
      → Run deps (kid ∷ done) after
