-- ===== src/Schedule/Deps.antt =====
-- `Deps` of src/schedule/scheduler/common.rs. A hash map that is only inserted into is a list with
-- the newest entry first, a set of kernels is a list without repetitions, and a map from all the
-- kernels has one entry per kernel. `none` is a panic.
pub mod Links
pub mod Sums
pub mod Entries
pub mod Complete
use my_nn_engine.Prelude.{
  ℕ, zero, suc, ◌+◌, Bool, true, false, List, [], ◌∷◌, Option, none, some, ◌>>=◌, length, replicate,
  ◌==◌, if◌then◌else◌,
}
use mathlib.Core.Option
use my_nn_engine.Schedule.Ir.{ValueId, KernelId}
use my_nn_engine.Schedule.Kernels.{Kernel, Schedule, flatten, contains}

abbrev pub lookup {ℓ} : {A : Type ℓ} → ℕ → List (ℕ × A) → Option A
lookup v [] = none
lookup v ((w, x) ∷ entries) = if w == v then some x else lookup v entries

pub record Deps : Type 0 where
  pub value2producer : List (ValueId × KernelId)
  pub value_uses_count : List (ValueId × ℕ)
  pub kernel_preds : List (List KernelId)
  pub kernel_consumers : List (List KernelId)

-- The outputs of kernel `kid` are entered.
unfoldable pub produce :
    KernelId → List ValueId → List (ValueId × KernelId) → List (ValueId × KernelId)
produce kid [] producers = producers
produce kid (out ∷ outs) producers = produce kid outs ((out, kid) ∷ producers)

-- The first loop, from kernel `kid` on.
unfoldable pub produce_all :
    KernelId → List Kernel → List (ValueId × KernelId) → List (ValueId × KernelId)
unfolding produce
produce_all kid [] producers = producers
produce_all kid (kernel ∷ kernels) producers =
    produce_all (suc kid) kernels (produce kid kernel.outputs producers)

-- `entry(v).or_insert(0) += 1`.
unfoldable pub count_use : ValueId → List (ValueId × ℕ) → List (ValueId × ℕ)
count_use v [] = (v, 1) ∷ []
count_use v ((w, n) ∷ entries) =
    if w == v then (w, n + 1) ∷ entries else (w, n) ∷ count_use v entries

-- `get_mut(&i).unwrap().insert(x)`.
unfoldable pub insert_at : ℕ → ℕ → List (List ℕ) → Option (List (List ℕ))
insert_at i x [] = none
insert_at zero x (set ∷ sets) = some ((if contains set x then set else x ∷ set) ∷ sets)
insert_at (suc i) x (set ∷ sets) = Option.map (λ r. set ∷ r) (insert_at i x sets)

-- One input of kernel `kid`.
unfoldable pub link : KernelId → ValueId → Deps → Option Deps
unfolding count_use insert_at
link kid input deps =
    let counted = record deps { value_uses_count = count_use input deps.value_uses_count } in
    elim (lookup input deps.value2producer) [
      | none ↦ some counted
      | some prod ↦ if prod == kid then some counted else (do
        preds ← insert_at kid prod deps.kernel_preds
        consumers ← insert_at prod kid deps.kernel_consumers
        some (record counted { kernel_preds = preds; kernel_consumers = consumers }))
    ]

unfoldable pub link_inputs : KernelId → List ValueId → Deps → Option Deps
link_inputs kid [] deps = some deps
link_inputs kid (input ∷ inputs) deps = do next ← link kid input deps; link_inputs kid inputs next

-- The last loop, from kernel `kid` on.
unfoldable pub link_all : KernelId → List Kernel → Deps → Option Deps
link_all kid [] deps = some deps
link_all kid (kernel ∷ kernels) deps = do
  next ← link_inputs kid (flatten kernel.inputs) deps
  link_all (suc kid) kernels next

unfoldable pub new : Schedule → Option Deps
new schedule =
    let n = length schedule.kernels in
    link_all 0 schedule.kernels (record {
      value2producer = produce_all 0 schedule.kernels [];
      value_uses_count = [];
      kernel_preds = replicate n [];
      kernel_consumers = replicate n [];
    })
