-- ===== src/Schedule/Prefetch.antt =====
-- The policy of src/schedule/scheduler/prefetch.rs that decides which weights stay on the host.
pub mod Entered
pub mod Budgeted
mod Tests
use my_nn_engine.Prelude.{
  ℕ, suc, ◌+◌, ◌-◌, ◌*◌, ◌^◌, Bool, true, false, not, ◌&&◌, ◌||◌, List, [], ◌∷◌, ◌++◌, Option, none,
  some, ◌>>=◌, map, sum, ltb, leb, ◌==◌, if◌then◌else◌,
}
use my_nn_engine.Schedule.Ir.{ValueId, KernelId, Device, cuda}
use my_nn_engine.Schedule.Kernels.{Schedule, Kernel, flatten, contains, value_byte_size}
use my_nn_engine.Schedule.Placement.{Placement, device_of}

pub data PrefetchPolicy : Type 0 where
  disabled : PrefetchPolicy
  size_threshold : (min_bytes : ℕ) → PrefetchPolicy
  resident_budget : (min_bytes resident_bytes : ℕ) → PrefetchPolicy
  auto_resident_budget : (min_bytes reserve_bytes : ℕ) → PrefetchPolicy

unfoldable pub min_bytes : PrefetchPolicy → ℕ
min_bytes disabled = 2 ^ 64 - 1
min_bytes (size_threshold m) = m
min_bytes (resident_budget m _) = m
min_bytes (auto_resident_budget m _) = m

-- A weight with its size.
abbrev pub Candidate : Type 0
Candidate = ValueId × ℕ

abbrev pub values : List Candidate → List ValueId
values found = map (λ c. c.0) found

-- An entry of the map of candidates, which has one for each value.
abbrev pub enter : ℕ → ValueId → ℕ → List Candidate → List Candidate
enter least v size found =
    if leb least size && not (contains (values found) v) then found ++ (v, size) ∷ [] else found

-- The candidates among the inputs of a kernel.
unfoldable pub enter_inputs : Schedule → ℕ → List ValueId → List Candidate → Option (List Candidate)
enter_inputs schedule least [] found = some found
enter_inputs schedule least (v ∷ vs) found =
    if contains schedule.initializers v
    then (do
      size ← value_byte_size schedule v
      enter_inputs schedule least vs (enter least v size found))
    else enter_inputs schedule least vs found

-- The candidates among the inputs of the kernels on the GPU, from kernel `kid` on.
unfoldable pub candidates :
    Schedule → Placement → ℕ → KernelId → List Kernel → List Candidate → Option (List Candidate)
unfolding enter_inputs
candidates schedule placement least kid [] found = some found
candidates schedule placement least kid (kernel ∷ kernels) found = do
  device ← device_of placement kid
  next ← elim device [
    | cuda ↦ enter_inputs schedule least (flatten kernel.inputs) found
    | _ ↦ some found
  ]
  candidates schedule placement least (suc kid) kernels next

-- The larger first, and of the same size the smaller id.
abbrev pub before : Candidate → Candidate → Bool
before a b = ltb b.1 a.1 || (a.1 == b.1 && leb a.0 b.0)

abbrev pub insert_sorted : Candidate → List Candidate → List Candidate
insert_sorted c [] = c ∷ []
insert_sorted c (d ∷ ds) = if before c d then c ∷ d ∷ ds else d ∷ insert_sorted c ds

abbrev pub sorted : List Candidate → List Candidate
sorted [] = []
sorted (c ∷ cs) = insert_sorted c (sorted cs)

-- The scan: a candidate that fits in what is left of the budget stays, and the others are streamed.
unfoldable pub streamed : ℕ → ℕ → List Candidate → List ValueId
streamed resident_bytes acc [] = []
streamed resident_bytes acc ((v, size) ∷ cs) =
    if leb (acc + size) resident_bytes
    then streamed resident_bytes (acc + size) cs
    else v ∷ streamed resident_bytes acc cs

unfoldable pub total_size : Schedule → List ValueId → Option ℕ
total_size schedule [] = some 0
total_size schedule (v ∷ vs) = do
  size ← value_byte_size schedule v
  rest ← total_size schedule vs
  some (size + rest)

-- `query_vram_total_bytes` asks another program; its answer is the argument `vram`.
unfoldable pub select_host_resident :
    Option ℕ → Schedule → Placement → PrefetchPolicy → Option (List ValueId)
unfolding candidates total_size
select_host_resident vram schedule placement policy = do
  found ← candidates schedule placement (min_bytes policy) 0 schedule.kernels []
  elim policy [
    | disabled ↦ some []
    | size_threshold _ ↦ some (values found)
    | resident_budget _ resident_bytes ↦ some (streamed resident_bytes 0 (sorted found))
    | auto_resident_budget _ reserve_bytes ↦ (do
      kv ← total_size schedule schedule.session_states
      let resident_bytes : ℕ = elim vram [ none ↦ 0 | some total ↦ total - kv - reserve_bytes ]
      some (streamed resident_bytes 0 (sorted found)))
  ]
