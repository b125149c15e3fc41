-- ===== src/Schedule/Order/Topological.antt =====
-- The topological order of the kernels that are done, and how many each kernel still waits for.
use my_nn_engine.Prelude.{
  ℕ, zero, suc, ◌+◌, ◌<◌, ◌≡◌, refl, inl, inr, true, false, ◌&&◌, List, [], ◌∷◌, none, some,
  get_elem?, length, map, ltb, ◌==◌, if◌then◌else◌, arith, Bool-cases,
}
use my_nn_engine.Schedule.Ir.{KernelId}
use my_nn_engine.Schedule.Kernels.{contains}
use my_nn_engine.Schedule.Alloc.Counts.{count}
use my_nn_engine.Schedule.Deps.{Deps}
use my_nn_engine.Schedule.Deps.Links.{count_at}
use my_nn_engine.Schedule.Order.{zeros_from}
use my_nn_engine.Schedule.Order.Advance.{pending_at}

-- The set at a position, empty out of range.
abbrev pub set_at : List (List ℕ) → ℕ → List ℕ
set_at sets i = elim (get_elem? sets i) [ none ↦ [] | some set ↦ set ]

-- The kernels that a kernel waits for.
abbrev pub preds_of : Deps → KernelId → List KernelId
preds_of deps k = set_at deps.kernel_preds k

pub count_at-set_at : (i x : ℕ) (sets : List (List ℕ)) → count_at i sets x ≡ count x (set_at sets i)
count_at-set_at i x [] = refl
count_at-set_at zero x (set ∷ sets) = refl
count_at-set_at (suc i) x (set ∷ sets) = count_at-set_at i x sets

-- How many of the kernels are not done.
abbrev pub left : List KernelId → List KernelId → ℕ
left done [] = 0
left done (p ∷ ps) = (if contains done p then 0 else 1) + left done ps

-- The kernels that are done, the last one first: each one was done once, after all that it waits for.
abbrev pub IsTopological : ℕ → Deps → List KernelId → Type 0
IsTopological n deps [] = Unit
IsTopological n deps (kid ∷ done) =
    (kid < n)
    × (contains done kid ≡ false)
    × (left done (preds_of deps kid) ≡ 0)
    × IsTopological n deps done

pub left-nil : (ps : List KernelId) → left [] ps ≡ length ps
left-nil [] = refl
left-nil (p ∷ ps) = omega (arith, left-nil ps)

pub left-cons :
    (kid : ℕ) (done ps : List KernelId)
    → contains done kid ≡ false
    → left (kid ∷ done) ps + count kid ps ≡ left done ps
left-cons kid done [] h = refl
left-cons kid done (p ∷ ps) h = elim (Bool-cases (kid == p)) [
  | inl x ↦
      let same : kid ≡ p = ground arith in
      let h_p : contains done p ≡ false = rw (← same) h in ground (arith, left-cons kid done ps h)
  | inr x ↦ ground (arith, left-cons kid done ps h)
]

pub left-all :
    (done ps : List KernelId)
    → ((p : ℕ) → 0 < count p ps → contains done p ≡ true)
    → left done ps ≡ 0
left-all done [] h = refl
left-all done (p ∷ ps) h =
    let first = h p (ground arith) in
    let rest = left-all done ps (λ q k. h q (omega arith)) in ground arith

pub IsTopological-left :
    (n : ℕ) (deps : Deps) (done : List KernelId) (k : ℕ)
    → IsTopological n deps done
    → contains done k ≡ true
    → left done (preds_of deps k) ≡ 0
IsTopological-left n deps [] k t h = cc
IsTopological-left n deps (kid ∷ done) k t h = elim (Bool-cases (kid == k)) [
  | inl x ↦
      let same : kid ≡ k = ground arith in
      let l : left done (preds_of deps k) ≡ 0 = rw (← same) (t.2) in
      let fewer = left-cons kid done (preds_of deps k) t.1 in omega arith
  | inr x ↦
      let l = IsTopological-left n deps done k t.3 (ground arith) in
      let fewer = left-cons kid done (preds_of deps k) t.1 in omega arith
]

pub pending_at-map :
    (sets : List (List ℕ)) (k : ℕ) → pending_at (map length sets) k ≡ length (set_at sets k)
pending_at-map [] k = refl
pending_at-map (set ∷ sets) zero = refl
pending_at-map (set ∷ sets) (suc k) = pending_at-map sets k

pub length-map : (sets : List (List ℕ)) → length (map length sets) ≡ length sets
length-map [] = refl
length-map (set ∷ sets) = omega (arith, length-map sets)

zeros_from-before : (i k : ℕ) (pending : List ℕ) → k < i → count k (zeros_from i pending) ≡ 0
unfolding zeros_from
zeros_from-before i k [] h = refl
zeros_from-before i k (c ∷ pending) h = ground (arith, zeros_from-before (suc i) k pending)

pub count-zeros_from :
    (i j k : ℕ) (pending : List ℕ)
    → k ≡ i + j
    → count k (zeros_from i pending)
      ≡ (if ltb j (length pending) && pending_at pending j == 0 then 1 else 0)
unfolding zeros_from
count-zeros_from i j k [] q = ground arith
count-zeros_from i zero k (c ∷ pending) q =
    let rest = zeros_from-before (suc i) k pending (omega arith) in ground arith
count-zeros_from i (suc j) k (c ∷ pending) q =
    let rest = count-zeros_from (suc i) j k pending (omega arith) in ground arith
