-- ===== src/Schedule/Placement/Budget.antt =====
-- The placement by a budget of resident weights.
use my_nn_engine.Prelude.{
  get_elem?-bound, ℕ, zero, suc, ◌≤◌, ◌<◌, ◌≡◌, refl, ◌⊎◌, inl, inr, true, false, List, [], ◌∷◌,
  some, take, length, ltb, leb, if◌then◌else◌, arith, All, Bool-cases,
}
use my_nn_engine.Schedule.Ir.{cpu, cuda}
use my_nn_engine.Schedule.Kernels.{Kernel, Schedule, contains}
use my_nn_engine.Schedule.Placement.{
  Placement, device_of, cut_loop, straddles, snap, place, resident_budget,
}
use my_nn_engine.Schedule.Placement.Spans.{kv_span_loop-Covers, straddles-entry, snap_lem}
use my_nn_engine.Schedule.Placement.Touched.{Started}
use my_nn_engine.Schedule.Placement.Weights.{
  weight_sum, IsWeighed, cut_loop-CutAt, get_elem?-place, length-place, Touches, spans_of,
}

-- The devices change once, from the GPU to the CPU, at `cut`.
pub record IsBudgeted (schedule : Schedule) (min_bytes resident_bytes cut : ℕ) (devices : Placement)
    : Type 0 where
  pub all_placed : length devices ≡ length schedule.kernels
  pub one_cut :
      (k : ℕ)
      → k < length schedule.kernels
      → device_of devices k ≡ some (if ltb k cut then cuda else cpu)
  pub fits : weight_sum schedule min_bytes (take cut schedule.kernels) ≤ resident_bytes
  pub whole :
      (v i j : ℕ)
      → contains schedule.session_states v ≡ true
      → Touches schedule i v
      → Touches schedule j v
      → device_of devices i ≡ device_of devices j
  pub greatest :
      (c : ℕ)
      → cut < c
      → c ≤ length schedule.kernels
      → (straddles c (spans_of schedule) ≡ true)
        ⊎ (resident_bytes < weight_sum schedule min_bytes (take c schedule.kernels))

weight_sum-le :
    (schedule : Schedule) (min_bytes c d : ℕ) (kernels : List Kernel)
    → c ≤ d
    → weight_sum schedule min_bytes (take c kernels)
      ≤ weight_sum schedule min_bytes (take d kernels)
weight_sum-le schedule min_bytes zero d kernels h = omega arith
weight_sum-le schedule min_bytes (suc c) zero kernels h = absurd (omega arith)
weight_sum-le schedule min_bytes (suc c) (suc d) [] h = omega arith
weight_sum-le schedule min_bytes (suc c) (suc d) (kernel ∷ kernels) h =
    omega (arith, weight_sum-le schedule min_bytes c d kernels)

module _ (schedule : Schedule) (cut : ℕ) (clear : straddles cut (spans_of schedule) ≡ false) where
  place-device_of :
      (k : ℕ)
      → k < length schedule.kernels
      → device_of (place cut 0 (length schedule.kernels)) k ≡ some (if ltb k cut then cuda else cpu)
  unfolding device_of
  place-device_of k h = ground (arith, get_elem?-place cut 0 (length schedule.kernels) k)

  -- Two kernels that touch the same session state lie on the same side of the cut.
  same_side :
      (v i j : ℕ)
      → contains schedule.session_states v ≡ true
      → Touches schedule i v
      → Touches schedule j v
      → ltb i cut ≡ ltb j cut
  same_side v i j m (k, e, t) (l, f, u) =
      let started : Started 0 [] = λ w s x. cc in
      let (s, here, lo, hi) =
        kv_span_loop-Covers schedule.session_states 0 schedule.kernels [] started i i k v
          (omega arith) e m t in
      let (r, there, low, high) =
        kv_span_loop-Covers schedule.session_states 0 schedule.kernels [] started j j l v
          (omega arith) f m u in
      let same : s ≡ r = cc in
      let low_s : s.first ≤ j = rw same low in
      let high_s : j ≤ s.last = rw same high in
      let apart = straddles-entry cut (spans_of schedule) v s clear here in ground arith

  place-whole :
      (v i j : ℕ)
      → contains schedule.session_states v ≡ true
      → Touches schedule i v
      → Touches schedule j v
      → device_of (place cut 0 (length schedule.kernels)) i
        ≡ device_of (place cut 0 (length schedule.kernels)) j
  place-whole v i j m a b =
      let first = place-device_of i (get_elem?-bound schedule.kernels i a.0 a.1) in
      let second = place-device_of j (get_elem?-bound schedule.kernels j b.0 b.1) in
      rw (first, second, same_side v i j m a b) refl

-- If the weight of every kernel is known, `resident_budget` returns a placement and there is a
-- cut: every kernel has a device, the GPU before the cut and the CPU from it on; the kernels
-- before the cut weigh no more than the budget; two kernels that read or write the same session
-- state have the same device; and every later cut would be straddled by the span of a session
-- state or exceed the budget.
pub resident_budget-IsBudgeted :
    (schedule : Schedule) (min_bytes resident_bytes : ℕ)
    → All (IsWeighed schedule min_bytes) schedule.kernels
    → (devices : Placement) × (cut : ℕ) × (resident_budget schedule min_bytes resident_bytes
        ≡ some devices)
      × IsBudgeted schedule min_bytes resident_bytes cut devices
unfolding resident_budget
resident_budget-IsBudgeted schedule min_bytes resident_bytes known =
    let found =
      cut_loop-CutAt schedule min_bytes resident_bytes 0 0 schedule.kernels known (omega arith) in
    let runs : cut_loop schedule min_bytes resident_bytes 0 0 schedule.kernels ≡ some found.count =
      ground (arith, found.runs) in
    let cut = snap (spans_of schedule) found.count in
    let (le, clear, best) = snap_lem (spans_of schedule) found.count in
    (
      place cut 0 (length schedule.kernels),
      cut,
      rw runs refl,
      record {
        all_placed = length-place cut 0 (length schedule.kernels);
        one_cut = place-device_of schedule cut clear;
        fits = omega (
          arith,
          found.fits,
          weight_sum-le schedule min_bytes cut found.count schedule.kernels le,
        );
        whole = place-whole schedule cut clear;
        greatest = λ c l m. elim (Bool-cases (leb c found.count)) [
          | inl x ↦ inl (best c l (ground arith))
          | inr x ↦ inr (omega (arith, found.last c (ground arith) m))
        ];
      },
    )
