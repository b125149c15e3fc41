-- ===== src/Schedule/Aliases/Settled.antt =====
-- The outcome of `output_aliases`.
use my_nn_engine.Prelude.{
  ℕ, zero, suc, ◌+◌, ◌≤◌, ◌≡◌, refl, ◌⊎◌, inl, inr, true, List, [], ◌∷◌, ◌++◌, Option, some, length,
  reverse, ◌==◌, if◌then◌else◌, arith, Bool-cases, Option-cases, length-reverse,
}
use mathlib.Core.List.{reverse-cons}
use my_nn_engine.Schedule.Ir.{ValueId}
use my_nn_engine.Schedule.Kernels.{Schedule, contains}
use my_nn_engine.Schedule.Deps.{lookup}
use my_nn_engine.Schedule.Aliases.{Entries, passthrough, seed, alias_loop, output_aliases}
use my_nn_engine.Schedule.Aliases.Closure.{
  Reaches, arrived, passed, IsKnown, fresh, IsSound, IsClosed, fresh-le, fresh-lt, IsKnown-cons,
  IsSound-cons, IsClosed-none, IsClosed-new, IsClosed-old, queued-cons, queued-new,
}

module _ (outputs : List ValueId) (inputs : Entries) where
  -- The loop has come to an end with all that is known before, sound and closed.
  record Settled (alias : Entries) (o : Option Entries) : Type 0 where
    after : Entries
    runs : o ≡ some after
    sound : IsSound outputs inputs after
    closed : IsClosed inputs [] after
    keeps : (v : ValueId) → IsKnown alias v → IsKnown after v

  Settled-cons :
      (p t : ValueId) (alias : Entries) (o : Option Entries)
      → Settled ((p, t) ∷ alias) o
      → Settled alias o
  Settled-cons p t alias o m = record {
    after = m.after;
    runs = m.runs;
    sound = m.sound;
    closed = m.closed;
    keeps = λ v k. m.keeps v (IsKnown-cons v p t alias k);
  }

  alias_loop-Settled :
      (fuel : ℕ) (queue : List ValueId) (alias : Entries)
      → length queue + fresh alias inputs ≤ fuel
      → ((v : ValueId) → contains queue v ≡ true → IsKnown alias v)
      → IsSound outputs inputs alias
      → IsClosed inputs queue alias
      → Settled alias (alias_loop fuel inputs queue alias)
  unfolding alias_loop
  alias_loop-Settled fuel [] alias enough queued sound closed = record {
    after = alias;
    runs = refl;
    sound = sound;
    closed = closed;
    keeps = λ v k. k;
  }
  alias_loop-Settled zero (v ∷ queue) alias enough queued sound closed = absurd (omega arith)
  alias_loop-Settled (suc fuel) (v ∷ queue) alias enough queued sound closed =
      let (t, e) = queued v (ground arith) in
      elim (Option-cases (lookup v inputs)) [
        | inl f ↦
            rw (e, f)
              (alias_loop-Settled fuel queue alias (omega arith) (λ w c. queued w (ground arith))
                sound (IsClosed-none outputs inputs v queue alias f closed))
        | inr (p, f) ↦ elim (Option-cases (lookup p alias)) [
          | inl g ↦
              rw (e, f, g)
                (Settled-cons p t alias _ (
                  alias_loop-Settled fuel (p ∷ queue) ((p, t) ∷ alias)
                    (omega (arith, fresh-lt v p t alias inputs f g))
                    (queued-new outputs inputs v p t queue alias queued)
                    (IsSound-cons outputs inputs v p t alias e f sound)
                    (IsClosed-new outputs inputs v p t queue alias f closed)))
          | inr (o, g) ↦
              rw (e, f, g)
                (Settled-cons p t alias _ (
                  alias_loop-Settled fuel queue ((p, t) ∷ alias)
                    (omega (arith, fresh-le p t alias inputs))
                    (queued-cons outputs inputs v p t queue alias queued)
                    (IsSound-cons outputs inputs v p t alias e f sound)
                    (IsClosed-old outputs inputs v p t queue alias f (o, g) closed)))
        ]
      ]

fresh-length : (alias inputs : Entries) → fresh alias inputs ≤ length inputs
fresh-length alias [] = omega arith
fresh-length alias ((w, v) ∷ inputs) = ground (arith, fresh-length alias inputs)

-- The seed holds the outputs, each for itself.
seed-lookup :
    (outs : List ValueId) (v : ValueId) (alias : Entries)
    → lookup v (seed outs alias) ≡ (if contains outs v then some v else lookup v alias)
unfolding seed
seed-lookup [] v alias = refl
seed-lookup (out ∷ outs) v alias = ground (arith, seed-lookup outs v ((out, out) ∷ alias))

contains-append :
    (xs ys : List ValueId) (v : ValueId) → contains ys v ≡ true → contains (xs ++ ys) v ≡ true
contains-append [] ys v h = h
contains-append (x ∷ xs) ys v h = ground (arith, contains-append xs ys v h)

contains-append_left :
    (xs ys : List ValueId) (v : ValueId) → contains xs v ≡ true → contains (xs ++ ys) v ≡ true
contains-append_left [] ys v h = cc
contains-append_left (x ∷ xs) ys v h = ground (arith, contains-append_left xs ys v)

contains-split :
    (xs ys : List ValueId) (v : ValueId)
    → contains (xs ++ ys) v ≡ true
    → (contains xs v ≡ true) ⊎ (contains ys v ≡ true)
contains-split [] ys v h = inr h
contains-split (x ∷ xs) ys v h = elim (Bool-cases (x == v)) [
  | inl y ↦ inl (rw y refl)
  | inr y ↦ elim (contains-split xs ys v (ground arith)) [ inl c ↦ inl (rw y c) | inr c ↦ inr c ]
]

contains-reverse :
    (xs : List ValueId) (v : ValueId) → contains xs v ≡ true → contains (reverse xs) v ≡ true
contains-reverse [] v h = cc
contains-reverse (x ∷ xs) v h = elim (Bool-cases (x == v)) [
  | inl y ↦ rw (reverse-cons x xs) (contains-append (reverse xs) (x ∷ []) v (rw y refl))
  | inr y ↦
      rw (reverse-cons x xs)
        (contains-append_left (reverse xs) (x ∷ []) v (contains-reverse xs v (ground arith)))
]

reverse-contains :
    (xs : List ValueId) (v : ValueId) → contains (reverse xs) v ≡ true → contains xs v ≡ true
reverse-contains [] v h = cc
reverse-contains (x ∷ xs) v h =
    elim (contains-split (reverse xs) (x ∷ []) v (rw (reverse-cons x xs) at h)) [
      | inl c ↦ let rest = reverse-contains xs v c in ground arith
      | inr c ↦ ground arith
    ]

seed-IsSound : (outs : List ValueId) (inputs : Entries) → IsSound outs inputs (seed outs [])
seed-IsSound outs inputs v o e =
    let l = seed-lookup outs v [] in
    elim (Bool-cases (contains outs v)) [
      | inl c ↦ let same : v ≡ o = ground arith in rw (← same) (c, arrived v)
      | inr c ↦ absurd (ground arith)
    ]

seed-IsClosed :
    (outs : List ValueId) (inputs : Entries) → IsClosed inputs (reverse outs) (seed outs [])
seed-IsClosed outs inputs w v (o, e) f =
    let l = seed-lookup outs w [] in
    elim (Bool-cases (contains outs w)) [
      | inl c ↦ inl (contains-reverse outs w c)
      | inr c ↦ absurd (ground arith)
    ]

reached :
    (outs : List ValueId) (inputs after : Entries)
    → ((v : ValueId) → contains outs v ≡ true → IsKnown after v)
    → IsClosed inputs [] after
    → (v o : ValueId) → contains outs o ≡ true
    → Reaches inputs v o
    → IsKnown after v
reached outs inputs after known closed v o c (arrived x) = known x c
reached outs inputs after known closed v o c (passed x w y e r) =
    elim (closed w x (reached outs inputs after known closed w y c r) e) [
      | inl h ↦ absurd (cc)
      | inr k ↦ k
    ]

-- For every schedule `output_aliases` returns, within the fuel and without a panic, a map in
-- which every value that has an alias reaches it, through kernels that pass a value on, and the
-- alias is a graph output; and every value that reaches a graph output so has an alias.
pub output_aliases-IsSound :
    (schedule : Schedule)
    → let inputs = passthrough schedule.kernels [] in
      (alias : Entries) × (output_aliases schedule ≡ some alias)
      × ((v o : ValueId)
          → lookup v alias ≡ some o
          → (contains schedule.outputs o ≡ true) × Reaches inputs v o)
      × ((v o : ValueId)
          → contains schedule.outputs o ≡ true
          → Reaches inputs v o
          → IsKnown alias v)
unfolding output_aliases
output_aliases-IsSound schedule =
    let inputs = passthrough schedule.kernels [] in
    let outs = schedule.outputs in
    let first = seed outs [] in
    let known : (v : ValueId) → contains outs v ≡ true → IsKnown first v =
      λ v c. (v, rw (seed-lookup outs v [], c) refl) in
    let m =
      alias_loop-Settled outs inputs (length outs + length inputs) (reverse outs) first
        (omega (arith, length-reverse outs, fresh-length first inputs))
        (λ v c. known v (reverse-contains outs v c)) (seed-IsSound outs inputs)
        (seed-IsClosed outs inputs) in
    (
      m.after,
      m.runs,
      m.sound,
      λ v o c r. reached outs inputs m.after (λ w k. m.keeps w (known w k)) m.closed v o c r,
    )
