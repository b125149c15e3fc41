-- ===== src/Schedule/Prefetch/Entered.antt =====
-- The candidates of `select_host_resident` in src/schedule/scheduler/prefetch.rs.
use my_nn_engine.Prelude.{
  ℕ, suc, zero, ◌+◌, ◌≤◌, ◌≡◌, refl, subst, inl, inr, true, not, ◌&&◌, List, [], ◌∷◌, ◌++◌, Option,
  some, >>=-eq-some, All, All-append, get_elem?, length, ◌<◌, leb, ◌==◌, arith, Bool-cases,
}
use my_nn_engine.Schedule.Ir.{ValueId, KernelId, Device, cpu, cuda}
use my_nn_engine.Schedule.Kernels.{Schedule, Kernel, flatten, contains, value_byte_size}
use my_nn_engine.Schedule.Placement.{Placement, device_of}
use my_nn_engine.Schedule.Prefetch.{Candidate, values, enter, enter_inputs, candidates}

-- The size of a candidate is the size of its value.
abbrev pub IsReal : Schedule → Candidate → Type 0
IsReal schedule c = value_byte_size schedule c.0 ≡ some c.1

-- The values that are in stay in, and the sizes are those of the values.
record Entered (schedule : Schedule) (found next : List Candidate) : Type 0 where
  keeps : (v : ValueId) → contains (values found) v ≡ true → contains (values next) v ≡ true
  real : All (IsReal schedule) found → All (IsReal schedule) next

contains-first :
    (found more : List Candidate) (v : ValueId)
    → contains (values found) v ≡ true
    → contains (values (found ++ more)) v ≡ true
contains-first [] more v h = cc
contains-first (c ∷ found) more v h = ground (arith, contains-first found more v)

contains-last :
    (found : List Candidate) (v : ValueId) (size : ℕ)
    → contains (values (found ++ (v, size) ∷ [])) v ≡ true
contains-last [] v size = ground arith
contains-last (c ∷ found) v size = let rest = contains-last found v size in ground arith

enter-Entered :
    (schedule : Schedule) (least v size : ℕ) (found : List Candidate)
    → value_byte_size schedule v ≡ some size
    → Entered schedule found (enter least v size found)
enter-Entered schedule least v size found e =
    elim (Bool-cases (leb least size && not (contains (values found) v))) [
      | inl x ↦ rw (x) record {
        keeps = λ w h. contains-first found ((v, size) ∷ []) w h;
        real = λ h. All-append (IsReal schedule) found ((v, size) ∷ []) h (e, tt);
      }
      | inr x ↦ rw (x) record { keeps = λ w h. h; real = λ h. h }
    ]

enter-adds :
    (least v size : ℕ) (found : List Candidate)
    → least ≤ size
    → contains (values (enter least v size found)) v ≡ true
enter-adds least v size found l =
    let t : leb least size ≡ true = ground arith in
    elim (Bool-cases (contains (values found) v)) [
      | inl x ↦ rw (t, x) x
      | inr x ↦ rw (t, x) (contains-last found v size)
    ]

module _ (schedule : Schedule) (least : ℕ) where
  Entered-trans :
      {a b c : List Candidate} → Entered schedule a b → Entered schedule b c → Entered schedule a c
  Entered-trans p q = record {
    keeps = λ v h. q.keeps v (p.keeps v h);
    real = λ h. q.real (p.real h);
  }

  enter_inputs-Entered :
      (vs : List ValueId) (found : List Candidate) {next : List Candidate}
      → enter_inputs schedule least vs found ≡ some next
      → Entered schedule found next
  unfolding enter_inputs
  enter_inputs-Entered [] found {next} h =
      let same : found ≡ next = cc in
      subst (λ n. Entered schedule found n) same record { keeps = λ v k. k; real = λ k. k }
  enter_inputs-Entered (v ∷ vs) found h = elim (Bool-cases (contains schedule.initializers v)) [
    | inl x ↦
        let (size, e, k) = >>=-eq-some (value_byte_size schedule v) _ (rw (x) at h) in
        Entered-trans (enter-Entered schedule least v size found e)
          (enter_inputs-Entered vs (enter least v size found) k)
    | inr x ↦ enter_inputs-Entered vs found (rw (x) at h)
  ]

  enter_inputs-adds :
      (vs : List ValueId) (found : List Candidate) (v : ValueId) (size : ℕ) {next : List Candidate}
      → enter_inputs schedule least vs found ≡ some next
      → contains vs v ≡ true
      → contains schedule.initializers v ≡ true
      → value_byte_size schedule v ≡ some size
      → least ≤ size
      → contains (values next) v ≡ true
  unfolding enter_inputs
  enter_inputs-adds [] found v size h i a e l = cc
  enter_inputs-adds (w ∷ vs) found v size h i a e l = elim (Bool-cases (w == v)) [
    | inl x ↦
        let same : w ≡ v = ground arith in
        let a' : contains schedule.initializers w ≡ true = rw (same) a in
        let (s, f, k) = >>=-eq-some (value_byte_size schedule w) _ (rw (a') at h) in
        let size' : s ≡ size = cc in
        let here = enter-adds least w s found (rw (size') l) in
        let there = enter_inputs-Entered vs (enter least w s found) k in
        rw (← same) (there.keeps w here)
    | inr x ↦
        let i' : contains vs v ≡ true = rw (x) at i in
        elim (Bool-cases (contains schedule.initializers w)) [
          | inl y ↦
              let (s, f, k) = >>=-eq-some (value_byte_size schedule w) _ (rw (y) at h) in
              enter_inputs-adds vs (enter least w s found) v size k i' a e l
          | inr y ↦ enter_inputs-adds vs found v size (rw (y) at h) i' a e l
        ]
  ]

  -- The candidates of one kernel.
  abbrev pub of_kernel : Device → Kernel → List Candidate → Option (List Candidate)
  of_kernel device kernel found = elim device [
    | cuda ↦ enter_inputs schedule least (flatten kernel.inputs) found
    | _ ↦ some found
  ]

  of_kernel-Entered :
      (device : Device) (kernel : Kernel) (found : List Candidate) {next : List Candidate}
      → of_kernel device kernel found ≡ some next
      → Entered schedule found next
  of_kernel-Entered cuda kernel found h = enter_inputs-Entered (flatten kernel.inputs) found h
  of_kernel-Entered cpu kernel found {next} h =
      let same : found ≡ next = cc in
      subst (λ n. Entered schedule found n) same record { keeps = λ v k. k; real = λ k. k }

  candidates-Entered :
      (placement : Placement) (kid : KernelId) (kernels : List Kernel) (found : List Candidate)
      {next : List Candidate}
      → candidates schedule placement least kid kernels found ≡ some next
      → Entered schedule found next
  unfolding candidates
  candidates-Entered placement kid [] found {next} h =
      let same : found ≡ next = cc in
      subst (λ n. Entered schedule found n) same record { keeps = λ v k. k; real = λ k. k }
  candidates-Entered placement kid (kernel ∷ kernels) found h =
      let (device, d, h1) = >>=-eq-some (device_of placement kid) _ h in
      let (next, e, h2) = >>=-eq-some (of_kernel device kernel found) _ h1 in
      Entered-trans (of_kernel-Entered device kernel found e)
        (candidates-Entered placement (suc kid) kernels next h2)

  pub candidates-adds :
      (placement : Placement) (kid : KernelId) (kernels : List Kernel) (found : List Candidate)
      (k : ℕ) (kernel : Kernel) (v : ValueId) (size : ℕ) {next : List Candidate}
      → candidates schedule placement least kid kernels found ≡ some next
      → get_elem? kernels k ≡ some kernel
      → device_of placement (kid + k) ≡ some cuda
      → contains (flatten kernel.inputs) v ≡ true
      → contains schedule.initializers v ≡ true
      → value_byte_size schedule v ≡ some size
      → least ≤ size
      → contains (values next) v ≡ true
  unfolding candidates
  candidates-adds placement kid [] found k kernel v size h g d i a e l = cc
  candidates-adds placement kid (first ∷ kernels) found zero kernel v size h g d i a e l =
      let same : first ≡ kernel = cc in
      let still : kid + 0 ≡ kid = omega arith in
      let d' : device_of placement kid ≡ some cuda = rw (← still) d in
      let i' : contains (flatten first.inputs) v ≡ true = rw (same) i in
      let (device, f, h1) = >>=-eq-some (device_of placement kid) _ h in
      let here : device ≡ cuda = cc in
      let (next, p, h2) = >>=-eq-some (of_kernel device first found) _ h1 in
      let p' : enter_inputs schedule least (flatten first.inputs) found ≡ some next =
        subst (λ x. of_kernel x first found ≡ some next) here p in
      let there = candidates-Entered placement (suc kid) kernels next h2 in
      there.keeps v (enter_inputs-adds (flatten first.inputs) found v size p' i' a e l)
  candidates-adds placement kid (first ∷ kernels) found (suc k) kernel v size h g d i a e l =
      let (device, f, h1) = >>=-eq-some (device_of placement kid) _ h in
      let (next, p, h2) = >>=-eq-some (of_kernel device first found) _ h1 in
      let move : kid + suc k ≡ suc kid + k = omega arith in
      let d' : device_of placement (suc kid + k) ≡ some cuda = rw (← move) d in
      candidates-adds placement (suc kid) kernels next k kernel v size h2 g d' i a e l

  pub candidates-IsReal :
      (placement : Placement) (kernels : List Kernel) {next : List Candidate}
      → candidates schedule placement least 0 kernels [] ≡ some next
      → All (IsReal schedule) next
  candidates-IsReal placement kernels h =
      let entered = candidates-Entered placement 0 kernels [] h in entered.real tt

get_elem?-in {ℓ} :
    {A : Type ℓ} (xs : List A) (i : ℕ) → i < length xs → (x : A) × (get_elem? xs i ≡ some x)
get_elem?-in [] i l = absurd (omega (arith, l))
get_elem?-in (x ∷ xs) zero l = (x, refl)
get_elem?-in (x ∷ xs) (suc i) l = get_elem?-in xs i (omega (arith, l))

-- Every weight has a size, and every kernel a device.
pub record IsSized (schedule : Schedule) (placement : Placement) : Type 0 where
  pub size_of :
      (v : ValueId)
      → contains schedule.initializers v ≡ true
      → (size : ℕ) × (value_byte_size schedule v ≡ some size)
  pub placed : length placement ≡ length schedule.kernels

module _ (schedule : Schedule) (least : ℕ)
    (size_of : (v : ValueId)
      → contains schedule.initializers v ≡ true
      → (size : ℕ) × (value_byte_size schedule v ≡ some size)) where
  enter_inputs-returns :
      (vs : List ValueId) (found : List Candidate)
      → (next : List Candidate) × (enter_inputs schedule least vs found ≡ some next)
  unfolding enter_inputs
  enter_inputs-returns [] found = (found, refl)
  enter_inputs-returns (v ∷ vs) found = elim (Bool-cases (contains schedule.initializers v)) [
    | inl x ↦
        let (size, e) = size_of v x in
        let (next, h) = enter_inputs-returns vs (enter least v size found) in (next, rw (x, e) h)
    | inr x ↦ let (next, h) = enter_inputs-returns vs found in (next, rw (x) h)
  ]

  of_kernel-returns :
      (device : Device) (kernel : Kernel) (found : List Candidate)
      → (next : List Candidate) × (of_kernel schedule least device kernel found ≡ some next)
  of_kernel-returns cuda kernel found = enter_inputs-returns (flatten kernel.inputs) found
  of_kernel-returns cpu kernel found = (found, refl)

  pub candidates-returns :
      (placement : Placement) (kid : KernelId) (kernels : List Kernel) (found : List Candidate)
      → kid + length kernels ≤ length placement
      → (next : List Candidate) × (candidates schedule placement least kid kernels found
          ≡ some next)
  unfolding candidates device_of
  candidates-returns placement kid [] found l = (found, refl)
  candidates-returns placement kid (kernel ∷ kernels) found l =
      let (device, d) = get_elem?-in placement kid (omega (arith, l)) in
      let (next, e) = of_kernel-returns device kernel found in
      let (after, h) = candidates-returns placement (suc kid) kernels next (omega (arith, l)) in
      (after, rw (d, e) h)
