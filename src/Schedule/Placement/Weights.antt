-- ===== src/Schedule/Placement/Weights.antt =====
-- The weights that `resident_budget` of src/schedule/placement.rs adds up, and the cut they give.
use my_nn_engine.Prelude.{
  ℕ, zero, suc, ◌+◌, ◌≤◌, ◌<◌, ◌≡◌, refl, inl, inr, true, false, List, [], ◌∷◌, none, some,
  get_elem?, take, length, ltb, if◌then◌else◌, arith, All, Bool-cases,
}
use my_nn_engine.Schedule.Ir.{ValueId, cpu, cuda}
use my_nn_engine.Schedule.Kernels.{Kernel, Schedule, contains}
use my_nn_engine.Schedule.Placement.{Span, values_of, kv_span_loop, weight_of, cut_loop, place}

-- The weight of the kernels together; one that is unknown counts as 0.
abbrev pub weight_sum : Schedule → ℕ → List Kernel → ℕ
weight_sum schedule min_bytes [] = 0
weight_sum schedule min_bytes (kernel ∷ kernels) =
    elim (weight_of schedule min_bytes kernel) [ none ↦ 0 | some w ↦ w ]
    + weight_sum schedule min_bytes kernels

-- The initializers among the inputs have a resolved type.
abbrev pub IsWeighed : Schedule → ℕ → Kernel → Type 0
IsWeighed schedule min_bytes kernel = (w : ℕ) × (weight_of schedule min_bytes kernel ≡ some w)

module _ (schedule : Schedule) (min_bytes resident_bytes : ℕ) where
  weight_sum_first :
      (kernel : Kernel) (kernels : List Kernel) (w c : ℕ)
      → weight_of schedule min_bytes kernel ≡ some w
      → weight_sum schedule min_bytes (take (suc c) (kernel ∷ kernels))
        ≡ w + weight_sum schedule min_bytes (take c kernels)
  weight_sum_first kernel kernels w c e = rw e refl

  -- The cut at `i + count` is the last one whose prefix fits.
  pub record CutAt (i resident : ℕ) (kernels : List Kernel) : Type 0 where
    pub count : ℕ
    pub runs : cut_loop schedule min_bytes resident_bytes i resident kernels ≡ some (i + count)
    pub fits : resident + weight_sum schedule min_bytes (take count kernels) ≤ resident_bytes
    pub within : count ≤ length kernels
    pub last :
        (c : ℕ)
        → count < c
        → c ≤ length kernels
        → resident_bytes < resident + weight_sum schedule min_bytes (take c kernels)

  CutAt-here :
      (i resident w : ℕ) (kernel : Kernel) (kernels : List Kernel)
      → weight_of schedule min_bytes kernel ≡ some w
      → resident ≤ resident_bytes
      → resident_bytes < resident + w
      → CutAt i resident (kernel ∷ kernels)
  unfolding cut_loop
  CutAt-here i resident w kernel kernels e h x =
      let full : ltb resident_bytes (resident + w) ≡ true = ground arith in
      record {
        count = 0;
        runs = rw (e, full) (ground arith);
        fits = omega arith;
        within = omega arith;
        last = beyond;
      }
    where
      beyond :
          (c : ℕ)
          → 0 < c
          → c ≤ suc (length kernels)
          → resident_bytes < resident + weight_sum schedule min_bytes (take c (kernel ∷ kernels))
      beyond zero l m = absurd (omega arith)
      beyond (suc c) l m = omega (arith, weight_sum_first kernel kernels w c e, x)

  CutAt-later :
      (i resident w : ℕ) (kernel : Kernel) (kernels : List Kernel)
      → weight_of schedule min_bytes kernel ≡ some w
      → resident + w ≤ resident_bytes
      → CutAt (suc i) (resident + w) kernels
      → CutAt i resident (kernel ∷ kernels)
  unfolding cut_loop
  CutAt-later i resident w kernel kernels e h rest =
      let room : ltb resident_bytes (resident + w) ≡ false = ground arith in
      record {
        count = suc rest.count;
        runs = rw (e, room, rest.runs) (ground arith);
        fits = omega (arith, weight_sum_first kernel kernels w rest.count e, rest.fits);
        within = omega (arith, rest.within);
        last = beyond;
      }
    where
      beyond :
          (c : ℕ)
          → suc rest.count < c
          → c ≤ suc (length kernels)
          → resident_bytes < resident + weight_sum schedule min_bytes (take c (kernel ∷ kernels))
      beyond zero l m = absurd (omega arith)
      beyond (suc c) l m =
          omega
            (arith, weight_sum_first kernel kernels w c e, rest.last c (omega arith) (omega arith))

  pub cut_loop-CutAt :
      (i resident : ℕ) (kernels : List Kernel)
      → All (IsWeighed schedule min_bytes) kernels
      → resident ≤ resident_bytes
      → CutAt i resident kernels
  unfolding cut_loop
  cut_loop-CutAt i resident [] known h = record {
    count = 0;
    runs = ground arith;
    fits = omega arith;
    within = omega arith;
    last = λ c l m. absurd (omega arith);
  }
  cut_loop-CutAt i resident (kernel ∷ kernels) ((w, e), known) h =
      elim (Bool-cases (ltb resident_bytes (resident + w))) [
        | inl x ↦ CutAt-here i resident w kernel kernels e h (ground arith)
        | inr x ↦
            let room : resident + w ≤ resident_bytes = ground arith in
            CutAt-later i resident w kernel kernels e room
              (cut_loop-CutAt (suc i) (resident + w) kernels known room)
      ]

pub get_elem?-place :
    (cut i n k : ℕ)
    → k < n
    → get_elem? (place cut i n) k ≡ some (if ltb (i + k) cut then cuda else cpu)
unfolding place
get_elem?-place cut i zero k h = absurd (omega arith)
get_elem?-place cut i (suc n) zero h = ground arith
get_elem?-place cut i (suc n) (suc k) h = ground (arith, get_elem?-place cut (suc i) n k)

pub length-place : (cut i n : ℕ) → length (place cut i n) ≡ n
unfolding place
length-place cut i zero = refl
length-place cut i (suc n) = omega (arith, length-place cut (suc i) n)

-- The kernel touches the value: it reads or writes it.
abbrev pub Touches : Schedule → ℕ → ValueId → Type 0
Touches schedule i v =
    (kernel : Kernel) × (get_elem? schedule.kernels i ≡ some kernel)
    × (contains (values_of kernel) v ≡ true)

abbrev pub spans_of : Schedule → List Span
spans_of schedule = kv_span_loop schedule.session_states 0 schedule.kernels []
