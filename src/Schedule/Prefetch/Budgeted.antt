-- ===== src/Schedule/Prefetch/Budgeted.antt =====
-- What `select_host_resident` of src/schedule/scheduler/prefetch.rs keeps resident.
use my_nn_engine.Prelude.{
  ℕ, ◌+◌, ◌-◌, ◌≤◌, ◌≡◌, refl, inl, inr, true, ◌||◌, List, [], ◌∷◌, Option, some, map, sum, All,
  All-imp, get_elem?, leb, ◌==◌, arith, Bool-cases,
}
use my_nn_engine.Schedule.Kernels.{Schedule, Kernel, flatten, contains, value_byte_size}
use my_nn_engine.Schedule.Placement.{Placement, device_of}
use my_nn_engine.Schedule.Ir.{ValueId, cuda}
use my_nn_engine.Schedule.Prefetch.Entered.{
  IsReal, IsSized, candidates-IsReal, candidates-adds, candidates-returns,
}
use my_nn_engine.Schedule.Prefetch.{
  resident_budget, Candidate, values, before, insert_sorted, sorted, streamed, select_host_resident,
  min_bytes,
}

insert_sorted-All {ℓ} :
    (P : Candidate → Type ℓ) (c : Candidate) (cs : List Candidate)
    → All P (insert_sorted c cs)
    → P c × All P cs
insert_sorted-All P c [] h = h
insert_sorted-All P c (d ∷ ds) h = elim (Bool-cases (before c d)) [
  | inl x ↦ rw (x) at h
  | inr x ↦
      let k : P d × All P (insert_sorted c ds) = rw (x) at h in
      let rest = insert_sorted-All P c ds k.1 in (rest.0, (k.0, rest.1))
]

sorted-All {ℓ} : (P : Candidate → Type ℓ) (cs : List Candidate) → All P (sorted cs) → All P cs
sorted-All P [] h = tt
sorted-All P (c ∷ cs) h = let k = insert_sorted-All P c (sorted cs) h in (k.0, sorted-All P cs k.1)

-- The candidate is kept, or its value is streamed.
abbrev pub IsPlaced : List Candidate → List ValueId → Candidate → Type 0
IsPlaced kept out c = (contains (values kept) c.0 || contains out c.0) ≡ true

-- What the scan keeps, within what is left of the budget.
pub record IsKept (P : Candidate → Type 0) (room : ℕ) (cs : List Candidate) (out : List ValueId)
    : Type 0 where
  pub kept : List Candidate
  pub fits : sum (map (λ c. c.1) kept) ≤ room
  pub placed : All (IsPlaced kept out) cs
  pub real : All P kept

IsPlaced-kept :
    (d : Candidate) (kept : List Candidate) (out : List ValueId) (cs : List Candidate)
    → All (IsPlaced kept out) cs
    → All (IsPlaced (d ∷ kept) out) cs
IsPlaced-kept d kept out =
    All-imp (IsPlaced kept out) (IsPlaced (d ∷ kept) out) (λ c h. ground arith)

IsPlaced-out :
    (v : ValueId) (kept : List Candidate) (out : List ValueId) (cs : List Candidate)
    → All (IsPlaced kept out) cs
    → All (IsPlaced kept (v ∷ out)) cs
IsPlaced-out v kept out =
    All-imp (IsPlaced kept out) (IsPlaced kept (v ∷ out)) (λ c h. ground arith)

streamed-IsKept :
    (P : Candidate → Type 0) (resident_bytes acc : ℕ) (cs : List Candidate)
    → acc ≤ resident_bytes
    → All P cs
    → IsKept P (resident_bytes - acc) cs (streamed resident_bytes acc cs)
unfolding streamed
streamed-IsKept P r acc [] l h = record { kept = []; fits = omega arith; placed = tt; real = tt }
streamed-IsKept P r acc ((v, size) ∷ cs) l h = elim (Bool-cases (leb (acc + size) r)) [
  | inl x ↦
      let k = streamed-IsKept P r (acc + size) cs (ground arith) h.1 in
      let below : acc + size ≤ r = ground arith in
      let fits = k.fits in
      let out = streamed r (acc + size) cs in
      rw (x) record {
        kept = (v, size) ∷ k.kept;
        fits = omega arith;
        placed = (ground arith, IsPlaced-kept (v, size) k.kept out cs k.placed);
        real = (h.0, k.real);
      }
  | inr x ↦
      let k = streamed-IsKept P r acc cs l h.1 in
      let out = streamed r acc cs in
      rw (x) record {
        kept = k.kept;
        fits = k.fits;
        placed = (ground arith, IsPlaced-out v k.kept out cs k.placed);
        real = k.real;
      }
]

All-insert_sorted {ℓ} :
    (P : Candidate → Type ℓ) (c : Candidate) (cs : List Candidate)
    → P c
    → All P cs
    → All P (insert_sorted c cs)
All-insert_sorted P c [] p h = (p, tt)
All-insert_sorted P c (d ∷ ds) p h = elim (Bool-cases (before c d)) [
  | inl x ↦ rw (x) (p, h)
  | inr x ↦ rw (x) (h.0, All-insert_sorted P c ds p h.1)
]

All-sorted {ℓ} : (P : Candidate → Type ℓ) (cs : List Candidate) → All P cs → All P (sorted cs)
All-sorted P [] h = tt
All-sorted P (c ∷ cs) h = All-insert_sorted P c (sorted cs) h.0 (All-sorted P cs h.1)

IsPlaced-at :
    (kept : List Candidate) (out : List ValueId) (cs : List Candidate) (v : ValueId)
    → All (IsPlaced kept out) cs
    → contains (values cs) v ≡ true
    → (contains (values kept) v || contains out v) ≡ true
IsPlaced-at kept out [] v h i = cc
IsPlaced-at kept out (c ∷ cs) v h i = elim (Bool-cases (c.0 == v)) [
  | inl x ↦ let same : c.0 ≡ v = ground arith in rw (← same) h.0
  | inr x ↦ IsPlaced-at kept out cs v h.1 (rw (x) at i)
]

-- The weights that a kernel on the GPU reads and that are not small are streamed, or among those that
-- are kept, whose sizes add up to no more than the budget.
pub record FitsBudget (schedule : Schedule) (placement : Placement) (least room : ℕ)
    (out : List ValueId) : Type 0 where
  pub kept : List Candidate
  pub real : All (IsReal schedule) kept
  pub fits : sum (map (λ c. c.1) kept) ≤ room
  pub covers :
      (k : ℕ) (kernel : Kernel) (v : ValueId) (size : ℕ)
      → get_elem? schedule.kernels k ≡ some kernel
      → device_of placement k ≡ some cuda
      → contains (flatten kernel.inputs) v ≡ true
      → contains schedule.initializers v ≡ true
      → value_byte_size schedule v ≡ some size
      → least ≤ size
      → (contains (values kept) v || contains out v) ≡ true

-- On a schedule whose initializers all have a size, with a placement that has a device for each
-- kernel, `select_host_resident` returns for a resident budget a list of values to stream, such
-- that every initializer that is read by a kernel on the GPU and is not below the least size is
-- streamed or is among weights that are kept, the sizes of which are those of the values and add
-- up to no more than the budget.
pub select_host_resident-FitsBudget :
    (vram : Option ℕ) (schedule : Schedule) (placement : Placement) (least room : ℕ)
    → IsSized schedule placement
    → (out : List ValueId) × (select_host_resident vram schedule placement
          (resident_budget least room)
        ≡ some out)
      × FitsBudget schedule placement least room out
unfolding select_host_resident min_bytes
select_host_resident-FitsBudget vram schedule placement least room s =
    let placed = s.placed in
    let (found, h) =
      candidates-returns schedule least s.size_of placement 0 schedule.kernels [] (omega arith) in
    let real = candidates-IsReal schedule least placement schedule.kernels h in
    let k =
      streamed-IsKept (IsReal schedule) room 0 (sorted found) (omega arith)
        (All-sorted (IsReal schedule) found real) in
    let out = streamed room 0 (sorted found) in
    let fits : sum (map (λ c. c.1) k.kept) ≤ room = let f = k.fits in omega arith in
    let all = sorted-All (IsPlaced k.kept out) found k.placed in
    (
      out,
      rw (h) refl,
      record {
        kept = k.kept;
        real = k.real;
        fits = fits;
        covers = λ i kernel v size g d c b e l.
            let from : 0 + i ≡ i = omega arith in
            let d' : device_of placement (0 + i) ≡ some cuda = rw (from) d in
            IsPlaced-at k.kept out found v all (
              candidates-adds schedule least placement 0 schedule.kernels [] i kernel v size h g d'
                c b e l);
      },
    )
