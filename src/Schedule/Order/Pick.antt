-- ===== src/Schedule/Order/Pick.antt =====
-- `pick_best` of src/schedule/scheduler/memory_aware.rs. A score is kept as its two sums, of the
-- sizes that it adds and of those that it takes away.
pub mod Growth
use my_nn_engine.Prelude.{
  ℕ, ◌+◌, ◌≡◌, refl, inl, inr, Bool, true, false, ◌&&◌, ◌||◌, List, [], ◌∷◌, Option, none, some,
  ◌>>=◌, get_elem?, ltb, ◌==◌, if◌then◌else◌, arith, All, Bool-cases,
}
use mathlib.Core.Option
use my_nn_engine.Schedule.Ir.{ValueId, KernelId}
use my_nn_engine.Schedule.Kernels.{Schedule, flatten, contains, value_byte_size}
use my_nn_engine.Schedule.Deps.{lookup}

abbrev pub Score : Type 0
Score = ℕ × ℕ

-- `value_remaining_uses.get(v).unwrap_or(0)`.
abbrev pub remaining : List (ValueId × ℕ) → ValueId → ℕ
remaining uses v = elim (lookup v uses) [ none ↦ 0 | some n ↦ n ]

unfoldable pub added : Schedule → List ValueId → Option ℕ
added schedule [] = some 0
added schedule (v ∷ vs) = do
  size ← value_byte_size schedule v
  rest ← added schedule vs
  some (size + rest)

unfoldable pub freed : Schedule → List (ValueId × ℕ) → List ValueId → Option ℕ
freed schedule uses [] = some 0
freed schedule uses (v ∷ vs) =
    if remaining uses v == 1
    then (do size ← value_byte_size schedule v; rest ← freed schedule uses vs; some (size + rest))
    else freed schedule uses vs

unfoldable pub score : Schedule → List (ValueId × ℕ) → KernelId → Option Score
unfolding added freed
score schedule uses kid = do
  kernel ← get_elem? schedule.kernels kid
  plus ← added schedule kernel.outputs
  minus ← freed schedule uses (flatten kernel.inputs)
  some (plus, minus)

-- The order of the keys: by score, then by kernel.
abbrev pub earlier : Score → KernelId → Score → KernelId → Bool
earlier (plus, minus) kid (plus', minus') kid' =
    ltb (plus + minus') (plus' + minus) || (plus + minus' == plus' + minus && ltb kid kid')

-- The key with the least score so far against that of the rest, which wins only if it is earlier.
abbrev pub better : Score → KernelId → Option (Score × KernelId) → Score × KernelId
better s kid none = (s, kid)
better s kid (some (t, k)) = if earlier t k s kid then (t, k) else (s, kid)

unfoldable pub best_of :
    Schedule → List (ValueId × ℕ) → List KernelId → Option (Option (Score × KernelId))
best_of schedule uses [] = some none
best_of schedule uses (kid ∷ ready) = do
  s ← score schedule uses kid
  rest ← best_of schedule uses ready
  some (some (better s kid rest))

unfoldable pub pick_best : Schedule → List (ValueId × ℕ) → List KernelId → Option (Option KernelId)
pick_best schedule uses ready =
    Option.map (λ best. Option.map (λ (b : Score × KernelId). b.1) best)
      (best_of schedule uses ready)

abbrev pub IsScored : Schedule → List (ValueId × ℕ) → KernelId → Type 0
IsScored schedule uses kid = (s : Score) × (score schedule uses kid ≡ some s)

earlier_self : (s : Score) (kid : KernelId) → earlier s kid s kid ≡ false
earlier_self (a, b) kid = ground arith

earlier_asym :
    (s t : Score) (kid k : KernelId) → earlier t k s kid ≡ true → earlier s kid t k ≡ false
earlier_asym (a, b) (c, d) kid k h = ground arith

earlier_mono :
    (r s t : Score) (l kid k : KernelId)
    → earlier t k s kid ≡ false
    → earlier r l t k ≡ false
    → earlier r l s kid ≡ false
earlier_mono (e, f) (a, b) (c, d) l kid k h g = ground arith

module _ (schedule : Schedule) (uses : List (ValueId × ℕ)) where
  -- The key is that of a ready kernel, and no ready kernel comes before it.
  pub record Least (ready : List KernelId) (t : Score) (kid : KernelId) : Type 0 where
    pub there : contains ready kid ≡ true
    pub scored : score schedule uses kid ≡ some t
    pub least :
        (k : KernelId) (s : Score)
        → contains ready k ≡ true
        → score schedule uses k ≡ some s
        → earlier s k t kid ≡ false

  Least-one :
      (kid : KernelId) (s : Score) → score schedule uses kid ≡ some s → Least (kid ∷ []) s kid
  Least-one kid s e = record {
    there = ground arith;
    scored = e;
    least = λ k r c f.
        let same : kid ≡ k = ground arith in
        let same_score : r ≡ s = cc in rw (same_score, ← same) (earlier_self s kid);
  }

  Least-kept :
      (kid k : KernelId) (s t : Score) (ready : List KernelId)
      → score schedule uses kid ≡ some s
      → earlier t k s kid ≡ true
      → Least ready t k
      → Least (kid ∷ ready) t k
  Least-kept kid k s t ready e x m = record {
    there = let c = m.there in ground arith;
    scored = m.scored;
    least = λ l r c f. elim (Bool-cases (kid == l)) [
      | inl y ↦
          let same : kid ≡ l = ground arith in
          let same_score : r ≡ s = cc in rw (same_score, ← same) (earlier_asym s t kid k x)
      | inr y ↦ m.least l r (ground arith) f
    ];
  }

  Least-new :
      (kid k : KernelId) (s t : Score) (ready : List KernelId)
      → score schedule uses kid ≡ some s
      → earlier t k s kid ≡ false
      → Least ready t k
      → Least (kid ∷ ready) s kid
  Least-new kid k s t ready e x m = record {
    there = ground arith;
    scored = e;
    least = λ l r c f. elim (Bool-cases (kid == l)) [
      | inl y ↦
          let same : kid ≡ l = ground arith in
          let same_score : r ≡ s = cc in rw (same_score, ← same) (earlier_self s kid)
      | inr y ↦ earlier_mono r s t l kid k x (m.least l r (ground arith) f)
    ];
  }

  best_of-Least :
      (kid : KernelId) (ready : List KernelId)
      → All (IsScored schedule uses) (kid ∷ ready)
      → (t : Score) × (k : KernelId) × (best_of schedule uses (kid ∷ ready) ≡ some (some (t, k)))
        × Least (kid ∷ ready) t k
  unfolding best_of
  best_of-Least kid [] ((s, e), rest) = (s, kid, rw e refl, Least-one kid s e)
  best_of-Least kid (next ∷ ready) ((s, e), rest) =
      let (t, k, runs, m) = best_of-Least next ready rest in
      elim (Bool-cases (earlier t k s kid)) [
        | inl x ↦ (t, k, rw (e, runs, x) refl, Least-kept kid k s t (next ∷ ready) e x m)
        | inr x ↦ (s, kid, rw (e, runs, x) refl, Least-new kid k s t (next ∷ ready) e x m)
      ]

  -- What is picked from the ready set.
  abbrev pub IsLeast : List KernelId → Option KernelId → Type 0
  IsLeast ready none = ready ≡ []
  IsLeast ready (some kid) = (t : Score) × Least ready t kid

-- If every ready kernel has a score, the pick is the least key.
pub pick_best-Least :
    (schedule : Schedule) (uses : List (ValueId × ℕ)) (ready : List KernelId)
    → All (IsScored schedule uses) ready
    → (best : Option KernelId) × (pick_best schedule uses ready ≡ some best)
      × IsLeast schedule uses ready best
unfolding pick_best best_of
pick_best-Least schedule uses [] scored = (none, refl, refl)
pick_best-Least schedule uses (kid ∷ ready) scored =
    let (t, k, runs, m) = best_of-Least schedule uses kid ready scored in
    (some k, rw runs refl, (t, m))
