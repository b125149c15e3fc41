-- ===== src/Schedule/Placement/Tiers.antt =====
-- The tier of a session state, as `Scheduler::new` of src/schedule/scheduler/memory_aware.rs picks it.
use my_nn_engine.Prelude.{
  get_elem?-bound, ℕ, zero, suc, ◌+◌, ◌<◌, ◌≡◌, refl, ◌∙◌, inl, inr, Bool, true, false, ◌&&◌, List,
  [], ◌∷◌, Option, some, ◌>>=◌, get_elem?, length, ltb, if◌then◌else◌, arith, Bool-cases, All, ap,
}
use mathlib.Core.Option
use my_nn_engine.Schedule.Ir.{
  ValueId, Device, cpu, cuda, MemoryTier, gpu_arena, host_arena, tier, device_eq,
}
use my_nn_engine.Schedule.Kernels.{Kernel, Schedule, contains}
use my_nn_engine.Schedule.Placement.{Placement, device_of, values_of, resident_budget}
use my_nn_engine.Schedule.Placement.Budget.{IsBudgeted, resident_budget-IsBudgeted}
use my_nn_engine.Schedule.Placement.Weights.{Touches, IsWeighed}

-- Whether a kernel of the GPU, from kernel `i` on, touches the value.
unfoldable pub any_cuda : Placement → ValueId → ℕ → List Kernel → Option Bool
any_cuda placement sv i [] = some false
any_cuda placement sv i (kernel ∷ kernels) = do
  device ← device_of placement i
  if device_eq device cuda && contains (values_of kernel) sv
      then some true
      else any_cuda placement sv (suc i) kernels

unfoldable pub session_state_tier : Schedule → Placement → ValueId → Option MemoryTier
unfolding any_cuda
session_state_tier schedule placement sv =
    Option.map (λ b. if b then gpu_arena else host_arena) (any_cuda placement sv 0 schedule.kernels)

-- Whether any kernel touches the value.
abbrev any_touch : ValueId → List Kernel → Bool
any_touch v [] = false
any_touch v (kernel ∷ kernels) = if contains (values_of kernel) v then true else any_touch v kernels

any_touch-get_elem? :
    (v j : ℕ) (kernels : List Kernel) (kernel : Kernel)
    → get_elem? kernels j ≡ some kernel
    → contains (values_of kernel) v ≡ true
    → any_touch v kernels ≡ true
any_touch-get_elem? v j [] kernel e t = cc
any_touch-get_elem? v zero (k ∷ kernels) kernel e t =
    let same : k ≡ kernel = cc in rw (same, t) refl
any_touch-get_elem? v (suc j) (k ∷ kernels) kernel e t =
    let rest = any_touch-get_elem? v j kernels kernel e t in ground arith

touched_step :
    (d : Device) (x : Bool)
    → (if device_eq d cuda && true then some true else some (if device_eq d cuda then x else false))
      ≡ some (if device_eq d cuda then true else false)
touched_step cpu x = refl
touched_step cuda x = refl

other_step :
    (e : Device) (o : Option Bool) → (if device_eq e cuda && false then some true else o) ≡ o
other_step cpu o = refl
other_step cuda o = refl

-- All the kernels that touch the value lie on one device.
any_cuda-same :
    (placement : Placement) (v i : ℕ) (d : Device) (kernels : List Kernel)
    → ((j n : ℕ) → n ≡ i + j → j < length kernels → (e : Device) × (device_of placement n ≡ some e))
    → ((j n : ℕ) (kernel : Kernel)
        → n ≡ i + j
        → get_elem? kernels j ≡ some kernel
        → contains (values_of kernel) v ≡ true
        → device_of placement n ≡ some d)
    → any_cuda placement v i kernels
      ≡ some (if device_eq d cuda then any_touch v kernels else false)
unfolding any_cuda
any_cuda-same placement v i d [] placed same = ground arith
any_cuda-same placement v i d (kernel ∷ kernels) placed same =
    let (e, here) = placed 0 i (omega arith) (omega arith) in
    let rest =
      any_cuda-same placement v (suc i) d kernels
        (λ j n q l. placed (suc j) n (omega arith) (omega arith))
        (λ j n k q g t. same (suc j) n k (omega arith) g t) in
    let first =
      λ (t : contains (values_of kernel) v ≡ true). same 0 i kernel (omega arith) refl t in
    elim (Bool-cases (contains (values_of kernel) v)) [
      | inl t ↦
          let at_d = first t in
          let e_d : e ≡ d = cc in rw (at_d, t, rest) (touched_step d (any_touch v kernels))
      | inr t ↦ rw (here, t, rest) (other_step e _)
    ]

tier_of :
    (d : Device)
    → (if (if device_eq d cuda then true else false) then gpu_arena else host_arena) ≡ tier d
tier_of cpu = refl
tier_of cuda = refl

budgeted_tier :
    (schedule : Schedule) (min_bytes resident_bytes cut : ℕ) (devices : Placement)
    → IsBudgeted schedule min_bytes resident_bytes cut devices
    → (v i : ℕ) → contains schedule.session_states v ≡ true
    → Touches schedule i v
    → (d : Device) × (device_of devices i ≡ some d)
      × (session_state_tier schedule devices v ≡ some (tier d))
unfolding session_state_tier
budgeted_tier schedule min_bytes resident_bytes cut devices budgeted v i m (k, e, t) =
    let d = if ltb i cut then cuda else cpu in
    let here = budgeted.one_cut i (get_elem?-bound schedule.kernels i k e) in
    let all =
      any_cuda-same devices v 0 d schedule.kernels
        (λ j n q l. (_, budgeted.one_cut n (omega arith)))
        (λ j n kernel q g u.
          let index : n ≡ j = omega arith in
          budgeted.whole v n i m (kernel, rw index g, u) (k, e, t) ∙ here) in
    (d, here, rw (all, any_touch-get_elem? v i schedule.kernels k e t) (ap some (tier_of d)))

-- If the weight of every kernel is known, `resident_budget` returns a placement in which every
-- kernel that reads or writes a session state has a device whose memory tier is the one that the
-- scheduler gives to that session state.
pub resident_budget-session_state_tier :
    (schedule : Schedule) (min_bytes resident_bytes : ℕ)
    → All (IsWeighed schedule min_bytes) schedule.kernels
    → (devices : Placement) × (resident_budget schedule min_bytes resident_bytes ≡ some devices)
      × ((v i : ℕ)
          → contains schedule.session_states v ≡ true
          → Touches schedule i v
          → (d : Device) × (device_of devices i ≡ some d)
            × (session_state_tier schedule devices v ≡ some (tier d)))
resident_budget-session_state_tier schedule min_bytes resident_bytes known =
    let (devices, cut, runs, budgeted) =
      resident_budget-IsBudgeted schedule min_bytes resident_bytes known in
    (devices, runs, budgeted_tier schedule min_bytes resident_bytes cut devices budgeted)
