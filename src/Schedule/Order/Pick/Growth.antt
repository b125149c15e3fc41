-- ===== src/Schedule/Order/Pick/Growth.antt =====
-- The pick of src/schedule/scheduler/memory_aware.rs, by the bytes that a kernel adds and frees.
use my_nn_engine.Prelude.{
  ℕ, ◌+◌, ◌≤◌, ◌≡◌, refl, subst, inl, inr, Bool, true, false, List, [], ◌∷◌, Option, none, some,
  All, get_elem?, map, sum, ◌==◌, if◌then◌else◌, arith, Bool-cases,
}
use my_nn_engine.Schedule.Ir.{ValueId, KernelId}
use my_nn_engine.Schedule.Kernels.{Schedule, Kernel, flatten, contains, value_byte_size}
use my_nn_engine.Schedule.Deps.{lookup}
use my_nn_engine.Schedule.Order.Pick.{
  Score, remaining, added, freed, score, pick_best, IsScored, IsLeast, earlier, pick_best-Least,
}

-- The bytes of a value, 0 where it has no size, and of the values of a list.
abbrev pub or_zero : Option ℕ → ℕ
or_zero none = 0
or_zero (some n) = n

abbrev pub bytes : Schedule → ValueId → ℕ
bytes schedule v = or_zero (value_byte_size schedule v)

abbrev pub total : Schedule → List ValueId → ℕ
total schedule vs = sum (map (λ v. bytes schedule v) vs)

-- Whether one use of the value is left, and the values of which that is true.
abbrev pub has_one_use : List (ValueId × ℕ) → ValueId → Bool
has_one_use uses v = elim (lookup v uses) [ none ↦ false | some n ↦ n == 1 ]

abbrev pub last_uses : List (ValueId × ℕ) → List ValueId → List ValueId
last_uses uses [] = []
last_uses uses (v ∷ vs) = if has_one_use uses v then v ∷ last_uses uses vs else last_uses uses vs

-- The bytes of the outputs of a kernel, and those of the inputs whose last use it is.
abbrev pub outputs_of : Option Kernel → List ValueId
outputs_of none = []
outputs_of (some kernel) = kernel.outputs

abbrev pub inputs_of : Option Kernel → List ValueId
inputs_of none = []
inputs_of (some kernel) = flatten kernel.inputs

abbrev pub adds : Schedule → KernelId → ℕ
adds schedule kid = total schedule (outputs_of (get_elem? schedule.kernels kid))

abbrev pub frees : Schedule → List (ValueId × ℕ) → KernelId → ℕ
frees schedule uses kid =
    total schedule (last_uses uses (inputs_of (get_elem? schedule.kernels kid)))

abbrev pub IsSized : Schedule → ValueId → Type 0
IsSized schedule v = (n : ℕ) × (value_byte_size schedule v ≡ some n)

-- The kernel is there, and its values have sizes.
pub record HasSizes (schedule : Schedule) (kid : KernelId) : Type 0 where
  pub kernel : Kernel
  pub here : get_elem? schedule.kernels kid ≡ some kernel
  pub outputs : All (IsSized schedule) kernel.outputs
  pub inputs : All (IsSized schedule) (flatten kernel.inputs)

-- The first kernel leaves no more bytes allocated than the second, and has the smaller id if it leaves
-- as many.
abbrev pub IsNoWorse : Schedule → List (ValueId × ℕ) → KernelId → KernelId → Type 0
IsNoWorse schedule uses kid k =
    (adds schedule kid + frees schedule uses k ≤ adds schedule k + frees schedule uses kid)
    × (adds schedule kid + frees schedule uses k ≡ adds schedule k + frees schedule uses kid
        → kid ≤ k)

-- What is picked from the ready set.
abbrev pub IsBest : Schedule → List (ValueId × ℕ) → List KernelId → Option KernelId → Type 0
IsBest schedule uses ready none = ready ≡ []
IsBest schedule uses ready (some kid) =
    (contains ready kid ≡ true)
    × ((k : KernelId) → contains ready k ≡ true → IsNoWorse schedule uses kid k)

module _ (schedule : Schedule) where
  added-total :
      (vs : List ValueId) → All (IsSized schedule) vs → added schedule vs ≡ some (total schedule vs)
  unfolding added
  added-total [] h = refl
  added-total (v ∷ vs) h =
      let sized = h.0.1 in let rest = added-total vs h.1 in rw (sized, rest) refl

  module _ (uses : List (ValueId × ℕ)) where
    remaining-has_one_use : (v : ValueId) → (remaining uses v == 1) ≡ has_one_use uses v
    remaining-has_one_use v = ground arith

    freed-total :
        (vs : List ValueId)
        → All (IsSized schedule) vs
        → freed schedule uses vs ≡ some (total schedule (last_uses uses vs))
    unfolding freed
    freed-total [] h = refl
    freed-total (v ∷ vs) h =
        let sized = h.0.1 in
        let rest = freed-total vs h.1 in
        let same = remaining-has_one_use v in
        elim (Bool-cases (has_one_use uses v)) [
          | inl x ↦ let y : (remaining uses v == 1) ≡ true = cc in rw (y, x, sized, rest) refl
          | inr x ↦ let y : (remaining uses v == 1) ≡ false = cc in rw (y, x, rest) refl
        ]

    score-total :
        (kid : KernelId)
        → HasSizes schedule kid
        → score schedule uses kid ≡ some (adds schedule kid, frees schedule uses kid)
    unfolding score
    score-total kid h =
        let plus = added-total h.kernel.outputs h.outputs in
        let minus = freed-total (flatten h.kernel.inputs) h.inputs in rw (h.here, plus, minus) refl

    same-score : {o : Option Score} {s t : Score} → o ≡ some s → o ≡ some t → s ≡ t
    same-score e f = cc

    All-IsScored :
        (ready : List KernelId) → All (HasSizes schedule) ready → All (IsScored schedule uses) ready
    All-IsScored [] h = tt
    All-IsScored (kid ∷ ready) h = (
      ((adds schedule kid, frees schedule uses kid), score-total kid h.0),
      All-IsScored ready h.1,
    )

    All-at :
        (ready : List KernelId) (k : KernelId)
        → All (HasSizes schedule) ready
        → contains ready k ≡ true
        → HasSizes schedule k
    All-at [] k h c = cc
    All-at (kid ∷ ready) k h c = elim (Bool-cases (kid == k)) [
      | inl x ↦ let same : kid ≡ k = ground arith in subst (HasSizes schedule) same h.0
      | inr x ↦ All-at ready k h.1 (rw (x) at c)
    ]

    All-IsBest :
        (ready : List KernelId) (best : Option KernelId)
        → All (HasSizes schedule) ready
        → IsLeast schedule uses ready best
        → IsBest schedule uses ready best
    All-IsBest ready none sizes h = h
    All-IsBest ready (some kid) sizes (t, h) =
        let scored = score-total kid (All-at ready kid sizes h.there) in
        let at_kid : t ≡ (adds schedule kid, frees schedule uses kid) =
          same-score h.scored scored in
        (
          h.there,
          λ k c.
              let least =
                h.least k (adds schedule k, frees schedule uses k) c
                  (score-total k (All-at ready k sizes c)) in
              let here : earlier (adds schedule k, frees schedule uses k) k
                    (adds schedule kid, frees schedule uses kid) kid
                  ≡ false =
                rw (at_kid) at least in
              ground arith,
        )

-- If every ready kernel is a kernel of the schedule whose outputs and inputs have sizes,
-- `pick_best` returns: none exactly when no kernel is ready, and otherwise a ready kernel that is
-- no worse than any ready kernel. The bytes of its outputs less the bytes of those inputs of
-- which one use is left are no more than those of the other, and if they are as many, its id is
-- no larger.
pub pick_best-IsBest :
    (schedule : Schedule) (uses : List (ValueId × ℕ)) (ready : List KernelId)
    → All (HasSizes schedule) ready
    → (best : Option KernelId) × (pick_best schedule uses ready ≡ some best)
      × IsBest schedule uses ready best
pick_best-IsBest schedule uses ready sizes =
    let (best, runs, least) =
      pick_best-Least schedule uses ready (All-IsScored schedule uses ready sizes) in
    (best, runs, All-IsBest schedule uses ready best sizes least)
