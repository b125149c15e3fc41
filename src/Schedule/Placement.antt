-- ===== src/Schedule/Placement.antt =====
-- The placement of kernels on devices, src/schedule/placement.rs. A placement has the device of
-- every kernel, by the kernel's index; a hash map from values is a list with one entry per value.
pub mod Touched
pub mod Spans
pub mod Weights
pub mod Budget
pub mod Tiers
pub mod Structural
mod Tests
use my_nn_engine.Prelude.{
  ℕ, zero, suc, ◌+◌, Bool, true, false, ◌&&◌, ◌||◌, List, [], ◌∷◌, ◌++◌, Option, none, some, ◌>>=◌,
  get_elem?, length, replicate, ltb, leb, ◌==◌, if◌then◌else◌, map,
}
use my_nn_engine.Schedule.Ir.{ValueId, KernelId, Device, cpu, cuda}
use my_nn_engine.Schedule.Kernels.{Kernel, Schedule, flatten, contains, value_byte_size}

abbrev pub Placement : Type 0
Placement = List Device

unfoldable pub device_of : Placement → KernelId → Option Device
device_of devices kid = get_elem? devices kid

unfoldable pub uniform : Schedule → Device → Placement
uniform schedule device = map (λ _. device) schedule.kernels

-- `any` of the values is in the set.
abbrev pub any_in : List ValueId → List ValueId → Bool
any_in set [] = false
any_in set (v ∷ vs) = if contains set v then true else any_in set vs

unfoldable pub structural_kv_touch : Schedule → Placement
structural_kv_touch schedule =
    map
      (λ (kernel : Kernel).
        if any_in schedule.session_states (flatten kernel.inputs)
          || any_in schedule.session_states kernel.outputs
        then cuda
        else cpu)
      schedule.kernels

-- An entry of `kv_span`: the first and the last kernel that touches the value.
pub record Span : Type 0 where
  pub value : ValueId
  pub first : ℕ
  pub last : ℕ

-- `entry(v).and_modify(|s| s.1 = i).or_insert((i, i))`.
unfoldable pub touch : ValueId → ℕ → List Span → List Span
touch v i [] = record { value = v; first = i; last = i } ∷ []
touch v i (s ∷ spans) = if s.value == v then record s { last = i } ∷ spans else s ∷ touch v i spans

-- The values that a kernel reads and writes.
abbrev pub values_of : Kernel → List ValueId
values_of kernel = flatten kernel.inputs ++ kernel.outputs

unfoldable pub touch_all : List ValueId → ℕ → List ValueId → List Span → List Span
unfolding touch
touch_all session_states i [] spans = spans
touch_all session_states i (v ∷ vs) spans =
    touch_all session_states i vs (if contains session_states v then touch v i spans else spans)

-- The loop that fills `kv_span`, from kernel `i` on.
unfoldable pub kv_span_loop : List ValueId → ℕ → List Kernel → List Span → List Span
unfolding touch_all
kv_span_loop session_states i [] spans = spans
kv_span_loop session_states i (kernel ∷ kernels) spans =
    kv_span_loop session_states (suc i) kernels
      (touch_all session_states i (values_of kernel) spans)

-- The sizes of the initializers among the values, leaving out those under `min_bytes`.
unfoldable pub weight_loop : Schedule → ℕ → List ValueId → Option ℕ
weight_loop schedule min_bytes [] = some 0
weight_loop schedule min_bytes (v ∷ vs) =
    if contains schedule.initializers v
    then (do
      sz ← value_byte_size schedule v
      rest ← weight_loop schedule min_bytes vs
      some ((if leb min_bytes sz then sz else 0) + rest))
    else weight_loop schedule min_bytes vs

unfoldable pub weight_of : Schedule → ℕ → Kernel → Option ℕ
unfolding weight_loop
weight_of schedule min_bytes kernel = weight_loop schedule min_bytes (flatten kernel.inputs)

-- The loop that ends at the first kernel, from `i` on, whose weight does not fit any more.
unfoldable pub cut_loop : Schedule → ℕ → ℕ → ℕ → ℕ → List Kernel → Option ℕ
cut_loop schedule min_bytes resident_bytes i resident [] = some i
cut_loop schedule min_bytes resident_bytes i resident (kernel ∷ kernels) = do
  w ← weight_of schedule min_bytes kernel
  if ltb resident_bytes (resident + w)
      then some i
      else cut_loop schedule min_bytes resident_bytes (suc i) (resident + w) kernels

abbrev pub straddles : ℕ → List Span → Bool
straddles cut [] = false
straddles cut (s ∷ spans) = if ltb s.first cut && leb cut s.last then true else straddles cut spans

unfoldable pub snap : List Span → ℕ → ℕ
snap spans zero = zero
snap spans (suc cut) = if straddles (suc cut) spans then snap spans cut else suc cut

-- The devices of `n` kernels from `i` on.
unfoldable pub place : ℕ → ℕ → ℕ → List Device
place cut i zero = []
place cut i (suc n) = (if ltb i cut then cuda else cpu) ∷ place cut (suc i) n

unfoldable pub resident_budget : Schedule → ℕ → ℕ → Option Placement
resident_budget schedule min_bytes resident_bytes = do
  cut ← cut_loop schedule min_bytes resident_bytes 0 0 schedule.kernels
  let spans = kv_span_loop schedule.session_states 0 schedule.kernels []
  some (place (snap spans cut) 0 (length schedule.kernels))
