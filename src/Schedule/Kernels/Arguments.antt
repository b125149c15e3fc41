-- ===== src/Schedule/Kernels/Arguments.antt =====
-- The argument positions of `Kernel::input_ptr_map`.
use my_nn_engine.Prelude.{
  ℕ, zero, suc, ◌≡◌, refl, ap, subst, ◌∙◌, length-append, List, [], ◌∷◌, ◌++◌, Option, none, some,
  get_elem?, length, arith,
}
use my_nn_engine.Schedule.Ir.{ValueId}
use my_nn_engine.Schedule.Kernels.{Kernel, flatten, input_ptr_loop, input_ptr_map}

-- A missing input has no position, and another one the position of its value.
abbrev pub Points : List ValueId → Option ValueId → Option ℕ → Type 0
Points arguments none position = position ≡ none
Points arguments (some v) position =
    (p : ℕ) × (position ≡ some p) × (get_elem? arguments p ≡ some v)

get_elem?-middle :
    (before after : List ValueId) (w : ValueId)
    → get_elem? (before ++ w ∷ after) (length before) ≡ some w
get_elem?-middle [] after w = refl
get_elem?-middle (b ∷ before) after w = get_elem?-middle before after w

inside :
    (w v : ValueId)
    → ◌≡◌ {A = Option (Option ValueId)} (some (some w)) (some (some v))
    → some w ≡ some v
inside w v e = cc

append_one :
    (before after : List ValueId) (w : ValueId) → (before ++ w ∷ []) ++ after ≡ before ++ w ∷ after
append_one [] after w = refl
append_one (b ∷ before) after w = ap (λ l. b ∷ l) (append_one before after w)

input_ptr_loop-Points :
    (before : List ValueId) (inputs : List (Option ValueId)) (i : ℕ) (input : Option ValueId)
    → get_elem? inputs i ≡ some input
    → (position : Option ℕ) × (get_elem? (input_ptr_loop (length before) inputs) i ≡ some position)
      × Points (before ++ flatten inputs) input position
unfolding input_ptr_loop
input_ptr_loop-Points before [] i input e = cc
input_ptr_loop-Points before (none ∷ inputs) zero none e = (none, refl, refl)
input_ptr_loop-Points before (none ∷ inputs) zero (some v) e = cc
input_ptr_loop-Points before (none ∷ inputs) (suc i) input e =
    input_ptr_loop-Points before inputs i input e
input_ptr_loop-Points before (some w ∷ inputs) zero none e = cc
input_ptr_loop-Points before (some w ∷ inputs) zero (some v) e = (
  some (length before),
  refl,
  (length before, refl, get_elem?-middle before (flatten inputs) w ∙ inside w v e),
)
input_ptr_loop-Points before (some w ∷ inputs) (suc i) input e =
    let (position, there, points) = input_ptr_loop-Points (before ++ w ∷ []) inputs i input e in
    let grown : length (before ++ w ∷ []) ≡ suc (length before) =
      omega (arith, length-append before (w ∷ [])) in
    (
      position,
      subst (λ n. get_elem? (input_ptr_loop n inputs) i ≡ some position) grown there,
      subst (λ l. Points l input position) (append_one before (flatten inputs) w) points,
    )

-- For every input slot of a kernel, `input_ptr_map` has no position if the input is missing, and
-- otherwise the position at which the list of the outputs followed by the inputs that are there
-- holds the value of the slot.
pub input_ptr_map-Points :
    (kernel : Kernel) (i : ℕ) (input : Option ValueId)
    → get_elem? kernel.inputs i ≡ some input
    → (position : Option ℕ) × (get_elem? (input_ptr_map kernel) i ≡ some position)
      × Points (kernel.outputs ++ flatten kernel.inputs) input position
unfolding input_ptr_map
input_ptr_map-Points kernel i input e = input_ptr_loop-Points kernel.outputs kernel.inputs i input e
