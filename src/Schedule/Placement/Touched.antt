-- ===== src/Schedule/Placement/Touched.antt =====
-- How a use of a session state changes its span, in src/schedule/placement.rs.
use my_nn_engine.Prelude.{
  ℕ, ◌≤◌, ◌≡◌, ◌≢◌, refl, inl, inr, List, [], ◌∷◌, Option, none, some, ◌==◌, if◌then◌else◌, arith,
  Bool-cases,
}
use my_nn_engine.Schedule.Ir.{ValueId}
use my_nn_engine.Schedule.Placement.{Span, touch}

-- The entry of a value.
abbrev pub entry : ValueId → List Span → Option Span
entry v [] = none
entry v (s ∷ spans) = if s.value == v then some s else entry v spans

-- Kernel `k` lies in the span of the value.
abbrev pub Covers : List Span → ValueId → ℕ → Type 0
Covers spans v k = (s : Span) × (entry v spans ≡ some s) × (s.first ≤ k) × (k ≤ s.last)

-- No span starts after `i`.
abbrev pub Started : ℕ → List Span → Type 0
Started i spans = (v : ValueId) (s : Span) → entry v spans ≡ some s → s.first ≤ i

-- The entry that `touch` leaves.
abbrev pub touched : ValueId → ℕ → Option Span → Span
touched v i none = record { value = v; first = i; last = i }
touched v i (some s) = record s { last = i }

entry-touch_same :
    (v i : ℕ) (spans : List Span) → entry v (touch v i spans) ≡ some (touched v i (entry v spans))
unfolding touch
entry-touch_same v i [] = ground arith
entry-touch_same v i (s ∷ spans) = ground (arith, entry-touch_same v i spans)

entry-touch_other :
    (v w i : ℕ) (spans : List Span) → v ≢ w → entry w (touch v i spans) ≡ entry w spans
unfolding touch
entry-touch_other v w i [] h = ground arith
entry-touch_other v w i (s ∷ spans) h = ground (arith, entry-touch_other v w i spans h)

-- The spans have only grown, up to `i`.
pub record Grown (i : ℕ) (spans after : List Span) : Type 0 where
  pub started : Started i after
  pub keeps : (w : ValueId) (k : ℕ) → k ≤ i → Covers spans w k → Covers after w k

same_Covers :
    (spans after : List Span) (w k : ℕ)
    → entry w after ≡ entry w spans
    → Covers spans w k
    → Covers after w k
same_Covers spans after w k e (s, here, lo, hi) = (s, rw e here, lo, hi)

touched_first :
    (v i : ℕ) (o : Option Span)
    → ((s : Span) → o ≡ some s → s.first ≤ i)
    → (touched v i o).first ≤ i
touched_first v i none h = omega arith
touched_first v i (some s) h = h s refl

touched_last : (v i : ℕ) (o : Option Span) → (touched v i o).last ≡ i
touched_last v i none = refl
touched_last v i (some s) = refl

touched_keeps :
    (v i k : ℕ) (o : Option Span) (s : Span) → o ≡ some s → s.first ≤ k → (touched v i o).first ≤ k
touched_keeps v i k none s e h = cc
touched_keeps v i k (some t) s e h = ground arith

pub touch-Grown : (v i : ℕ) (spans : List Span) → Started i spans → Grown i spans (touch v i spans)
touch-Grown v i spans h =
    let here = entry-touch_same v i spans in
    record {
      started = λ w s e. elim (Bool-cases (v == w)) [
        | inl x ↦
            let same : v ≡ w = ground arith in
            let found : s ≡ touched v i (entry v spans) = cc in
            rw found (touched_first v i (entry v spans) (h v))
        | inr x ↦ h w s (ground (arith, entry-touch_other v w i spans))
      ];
      keeps = λ w k b (s, e, lo, hi). elim (Bool-cases (v == w)) [
        | inl x ↦
            let same : v ≡ w = ground arith in
            let there : entry v spans ≡ some s = cc in
            let last = touched_last v i (entry v spans) in
            (
              touched v i (entry v spans),
              cc,
              touched_keeps v i k (entry v spans) s there lo,
              omega (arith, last),
            )
        | inr x ↦
            same_Covers spans (touch v i spans) w k (entry-touch_other v w i spans (ground arith))
              (s, e, lo, hi)
      ];
    }

pub touch-Covers : (v i : ℕ) (spans : List Span) → Started i spans → Covers (touch v i spans) v i
touch-Covers v i spans h =
    let here = entry-touch_same v i spans in
    let last = touched_last v i (entry v spans) in
    (
      touched v i (entry v spans),
      here,
      touched_first v i (entry v spans) (h v),
      omega (arith, last),
    )

pub Grown-refl : (i : ℕ) (spans : List Span) → Started i spans → Grown i spans spans
Grown-refl i spans h = record { started = h; keeps = λ w k b c. c }

pub Grown-trans : (i : ℕ) (a b c : List Span) → Grown i a b → Grown i b c → Grown i a c
Grown-trans i a b c g h = record {
  started = h.started;
  keeps = λ w k l d. h.keeps w k l (g.keeps w k l d);
}
