-- ===== src/Schedule/Placement/Spans.antt =====
-- The spans of the session states over the kernels.
use my_nn_engine.Prelude.{
  ℕ, zero, suc, ◌+◌, ◌≤◌, ◌<◌, ◌≡◌, refl, ◌⊎◌, inl, inr, true, false, List, [], ◌∷◌, some,
  get_elem?, ◌==◌, if◌then◌else◌, arith, Bool-cases,
}
use my_nn_engine.Schedule.Ir.{ValueId}
use my_nn_engine.Schedule.Kernels.{Kernel, contains}
use my_nn_engine.Schedule.Placement.{
  Span, touch, touch_all, kv_span_loop, values_of, straddles, snap,
}
use my_nn_engine.Schedule.Placement.Touched.{
  entry, Covers, Started, Grown, touch-Grown, touch-Covers, Grown-refl, Grown-trans,
}

module _ (states : List ValueId) where
  -- One value: touched if it is a session state.
  one-Grown :
      (i v : ℕ) (spans : List Span)
      → Started i spans
      → Grown i spans (if contains states v then touch v i spans else spans)
  one-Grown i v spans h = elim (Bool-cases (contains states v)) [
    | inl e ↦ rw e (touch-Grown v i spans h)
    | inr e ↦ rw e (Grown-refl i spans h)
  ]

  touch_all-Grown :
      (i : ℕ) (vs : List ValueId) (spans : List Span)
      → Started i spans
      → Grown i spans (touch_all states i vs spans)
  unfolding touch_all
  touch_all-Grown i [] spans h = Grown-refl i spans h
  touch_all-Grown i (v ∷ vs) spans h =
      let next = if contains states v then touch v i spans else spans in
      let g = one-Grown i v spans h in
      Grown-trans i spans next (touch_all states i vs next) g (touch_all-Grown i vs next g.started)

  touch_all-Covers :
      (i : ℕ) (vs : List ValueId) (spans : List Span) (v : ValueId)
      → Started i spans
      → contains states v ≡ true
      → contains vs v ≡ true
      → Covers (touch_all states i vs spans) v i
  unfolding touch_all
  touch_all-Covers i [] spans v h m k = cc
  touch_all-Covers i (w ∷ vs) spans v h m k =
      let next = if contains states w then touch w i spans else spans in
      let g = one-Grown i w spans h in
      elim (Bool-cases (w == v)) [
        | inl e ↦
            let same : w ≡ v = ground arith in
            let on : next ≡ touch v i spans = rw (same, m) refl in
            (touch_all-Grown i vs next g.started).keeps v i (omega arith)
              (rw on (touch-Covers v i spans h))
        | inr e ↦ touch_all-Covers i vs next v g.started m (ground arith)
      ]

  loop_keeps :
      (i : ℕ) (kernels : List Kernel) (spans : List Span)
      → Started i spans
      → (w k : ℕ) → k ≤ i
      → Covers spans w k
      → Covers (kv_span_loop states i kernels spans) w k
  unfolding kv_span_loop
  loop_keeps i [] spans h w k b c = c
  loop_keeps i (kernel ∷ kernels) spans h w k b c =
      let g = touch_all-Grown i (values_of kernel) spans h in
      loop_keeps (suc i) kernels (touch_all states i (values_of kernel) spans)
        (λ v s e. omega (arith, g.started v s e)) w k (omega arith) (g.keeps w k b c)

  -- Every kernel that touches a session state lies in its span.
  pub kv_span_loop-Covers :
      (i : ℕ) (kernels : List Kernel) (spans : List Span)
      → Started i spans
      → (j n : ℕ) (kernel : Kernel) (v : ValueId) → n ≡ i + j
      → get_elem? kernels j ≡ some kernel
      → contains states v ≡ true
      → contains (values_of kernel) v ≡ true
      → Covers (kv_span_loop states i kernels spans) v n
  unfolding kv_span_loop
  kv_span_loop-Covers i [] spans h j n kernel v q e m t = cc
  kv_span_loop-Covers i (k ∷ kernels) spans h zero n kernel v q e m t =
      let same : k ≡ kernel = cc in
      let at_first : n ≡ i = omega arith in
      let g = touch_all-Grown i (values_of k) spans h in
      loop_keeps (suc i) kernels (touch_all states i (values_of k) spans)
        (λ w s f. omega (arith, g.started w s f)) v n (omega arith)
        (rw at_first (touch_all-Covers i (values_of k) spans v h m (rw same t)))
  kv_span_loop-Covers i (k ∷ kernels) spans h (suc j) n kernel v q e m t =
      let g = touch_all-Grown i (values_of k) spans h in
      kv_span_loop-Covers (suc i) kernels (touch_all states i (values_of k) spans)
        (λ w s f. omega (arith, g.started w s f)) j n kernel v (omega arith) e m t

-- No span straddles a cut that the test clears.
pub straddles-entry :
    (cut : ℕ) (spans : List Span) (v : ValueId) (s : Span)
    → straddles cut spans ≡ false
    → entry v spans ≡ some s
    → (cut ≤ s.first) ⊎ (s.last < cut)
straddles-entry cut [] v s h e = cc
straddles-entry cut (t ∷ spans) v s h e = elim (Bool-cases (t.value == v)) [
  | inl x ↦ let same : t ≡ s = ground arith in ground arith
  | inr x ↦ straddles-entry cut spans v s (ground arith) (ground arith)
]

straddles-zero : (spans : List Span) → straddles 0 spans ≡ false
straddles-zero [] = refl
straddles-zero (s ∷ spans) = ground (arith, straddles-zero spans)

next_best :
    (n c cut : ℕ) (spans : List Span)
    → n ≡ suc cut
    → straddles n spans ≡ true
    → c ≤ n
    → (c ≤ cut → straddles c spans ≡ true)
    → straddles c spans ≡ true
next_best n c cut spans q e m h = elim (Bool-cases (c == n)) [
  | inl x ↦ let same : c ≡ n = ground arith in rw same e
  | inr x ↦ h (ground arith)
]

-- The snapped cut is the greatest one up to the given one that no span straddles.
pub snap_lem :
    (spans : List Span) (cut : ℕ)
    → (snap spans cut ≤ cut)
      × (straddles (snap spans cut) spans ≡ false)
      × ((c : ℕ) → snap spans cut < c → c ≤ cut → straddles c spans ≡ true)
unfolding snap
snap_lem spans zero = (omega arith, straddles-zero spans, λ c l m. absurd (omega arith))
snap_lem spans (suc cut) =
    let (le, clear, best) = snap_lem spans cut in
    elim (Bool-cases (straddles (suc cut) spans)) [
      | inl e ↦ rw e (
        omega arith,
        clear,
        λ c l m. next_best (suc cut) c cut spans refl e m (λ k. best c (omega arith) k),
      )
      | inr e ↦ rw e (omega arith, e, λ c l m. absurd (omega arith))
    ]
