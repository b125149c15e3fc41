-- ===== src/Schedule/Placement/Structural.antt =====
-- The placement by the use of session states.
use my_nn_engine.Prelude.{
  ℕ, zero, suc, ◌≡◌, ◌↔◌, inl, inr, refl, ◌∙◌, sym, Bool, true, ◌||◌, List, [], ◌∷◌, ◌++◌, Option,
  some, get_elem?, map, ◌==◌, if◌then◌else◌, arith, Bool-cases,
}
use my_nn_engine.Schedule.Ir.{ValueId, Device, cpu, cuda}
use my_nn_engine.Schedule.Kernels.{Kernel, Schedule, contains, flatten}
use my_nn_engine.Schedule.Placement.{device_of, any_in, structural_kv_touch, values_of}
use my_nn_engine.Schedule.Placement.Weights.{Touches}

any_in-contains :
    (set vs : List ValueId) (v : ValueId)
    → contains set v ≡ true
    → contains vs v ≡ true
    → any_in set vs ≡ true
any_in-contains set [] v h k = cc
any_in-contains set (w ∷ vs) v h k = elim (Bool-cases (w == v)) [
  | inl x ↦ let same : w ≡ v = ground arith in rw (same, h) refl
  | inr x ↦ let rest = any_in-contains set vs v h (ground arith) in ground arith
]

contains-any_in :
    (set vs : List ValueId)
    → any_in set vs ≡ true
    → (v : ValueId) × (contains set v ≡ true) × (contains vs v ≡ true)
contains-any_in set [] h = cc
contains-any_in set (w ∷ vs) h = elim (Bool-cases (contains set w)) [
  | inl x ↦ (w, x, ground arith)
  | inr x ↦ let (v, h', k) = contains-any_in set vs (ground arith) in (v, h', ground arith)
]

any_in-append :
    (set vs ws : List ValueId) → any_in set (vs ++ ws) ≡ (any_in set vs || any_in set ws)
any_in-append set [] ws = refl
any_in-append set (v ∷ vs) ws = ground (arith, any_in-append set vs ws)

get_elem?-map {ℓ κ} :
    {A : Type ℓ} {B : Type κ} (f : A → B) (xs : List A) (i : ℕ) (x : A)
    → get_elem? xs i ≡ some x
    → get_elem? (map f xs) i ≡ some (f x)
get_elem?-map f [] i x e = cc
get_elem?-map f (y ∷ xs) zero x e = let same : y ≡ x = cc in rw same refl
get_elem?-map f (y ∷ xs) (suc i) x e = get_elem?-map f xs i x e

cuda-if :
    (b : Bool) → ◌≡◌ {A = Option Device} (some (if b then cuda else cpu)) (some cuda) → b ≡ true
cuda-if b e = ground arith

-- For every kernel of a schedule, `structural_kv_touch` places it on the GPU exactly when it
-- reads or writes some session state.
pub structural_kv_touch-Touches :
    (schedule : Schedule) (i : ℕ) (kernel : Kernel)
    → get_elem? schedule.kernels i ≡ some kernel
    → (device_of (structural_kv_touch schedule) i ≡ some cuda)
      ↔ ((v : ValueId) × (contains schedule.session_states v ≡ true) × Touches schedule i v)
unfolding structural_kv_touch device_of
structural_kv_touch-Touches schedule i kernel e =
    let states = schedule.session_states in
    let here =
      get_elem?-map
        (λ (k : Kernel).
          if any_in states (flatten k.inputs) || any_in states k.outputs then cuda else cpu)
        schedule.kernels i kernel e in
    let both = any_in-append states (flatten kernel.inputs) kernel.outputs in
    (
      λ d.
          let hit =
            cuda-if (any_in states (flatten kernel.inputs) || any_in states kernel.outputs)
              (sym here ∙ d) in
          let (v, h, k) = contains-any_in states (values_of kernel) (both ∙ hit) in
          (v, h, (kernel, e, k)),
      λ (v, h, (k, f, t)).
          let same : k ≡ kernel = cc in
          let t_kernel : contains (values_of kernel) v ≡ true = rw (← same) t in
          let hit = sym both ∙ any_in-contains states (values_of kernel) v h t_kernel in
          here ∙ rw hit refl,
    )
