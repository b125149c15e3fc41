-- ===== src/Schedule/Aliases/Closure.antt =====
-- The values that reach an output through the kernels that pass a value on, and one round of the loop.
use my_nn_engine.Prelude.{
  ℕ, ◌+◌, ◌≤◌, ◌≡◌, refl, ◌⊎◌, inl, inr, true, false, List, [], ◌∷◌, none, some, ◌==◌, arith,
  Bool-cases,
}
use my_nn_engine.Schedule.Ir.{ValueId}
use my_nn_engine.Schedule.Kernels.{contains}
use my_nn_engine.Schedule.Deps.{lookup}
use my_nn_engine.Schedule.Aliases.{Entries}

-- Value `v` reaches `o`: it is `o`, or it is passed on to a value that reaches `o`.
pub data Reaches (inputs : Entries) : ValueId → ValueId → Type 0 where
  arrived : (o : ValueId) → Reaches inputs o o
  passed : (v w o : ValueId) → lookup w inputs ≡ some v → Reaches inputs w o → Reaches inputs v o

abbrev pub IsKnown : Entries → ValueId → Type 0
IsKnown alias v = (o : ValueId) × (lookup v alias ≡ some o)

-- The values passed on that have no alias yet.
abbrev pub fresh : Entries → Entries → ℕ
fresh alias [] = 0
fresh alias ((w, v) ∷ inputs) = elim (lookup v alias) [ none ↦ 1 | some _ ↦ 0 ] + fresh alias inputs

-- Every alias is an output that the value reaches.
abbrev pub IsSound : List ValueId → Entries → Entries → Type 0
IsSound outputs inputs alias =
    (v o : ValueId) → lookup v alias ≡ some o → (contains outputs o ≡ true) × Reaches inputs v o

-- What is passed on to a value that is known is known too, unless the value still waits in the queue.
abbrev pub IsClosed : Entries → List ValueId → Entries → Type 0
IsClosed inputs queue alias =
    (w v : ValueId)
    → IsKnown alias w
    → lookup w inputs ≡ some v
    → (contains queue w ≡ true) ⊎ IsKnown alias v

pub fresh-le :
    (v o : ValueId) (alias inputs : Entries) → fresh ((v, o) ∷ alias) inputs ≤ fresh alias inputs
fresh-le v o alias [] = omega arith
fresh-le v o alias ((w, x) ∷ inputs) = ground (arith, fresh-le v o alias inputs)

pub fresh-lt :
    (w v o : ValueId) (alias inputs : Entries)
    → lookup w inputs ≡ some v
    → lookup v alias ≡ none
    → 1 + fresh ((v, o) ∷ alias) inputs ≤ fresh alias inputs
fresh-lt w v o alias [] e f = cc
fresh-lt w v o alias ((w', x) ∷ inputs) e f = elim (Bool-cases (w' == w)) [
  | inl y ↦
      let same : x ≡ v = ground arith in
      let at_x : lookup x alias ≡ none = rw same f in
      let hit : (v == x) ≡ true = ground arith in
      let less = fresh-le v o alias inputs in ground arith
  | inr y ↦
      let rest = fresh-lt w v o alias inputs (ground arith) f in
      let less = fresh-le v o alias ((w', x) ∷ []) in ground arith
]

pub IsKnown-cons :
    (v p t : ValueId) (alias : Entries) → IsKnown alias v → IsKnown ((p, t) ∷ alias) v
IsKnown-cons v p t alias (o, e) = elim (Bool-cases (p == v)) [
  | inl x ↦ (t, rw x refl)
  | inr x ↦ (o, rw x e)
]

IsKnown-before :
    (v p t : ValueId) (alias : Entries)
    → (p == v) ≡ false
    → IsKnown ((p, t) ∷ alias) v
    → IsKnown alias v
IsKnown-before v p t alias x (o, e) = (o, ground arith)

module _ (outputs : List ValueId) (inputs : Entries) where
  pub IsSound-cons :
      (v p t : ValueId) (alias : Entries)
      → lookup v alias ≡ some t
      → lookup v inputs ≡ some p
      → IsSound outputs inputs alias
      → IsSound outputs inputs ((p, t) ∷ alias)
  IsSound-cons v p t alias e f sound w o g = elim (Bool-cases (p == w)) [
    | inl x ↦
        let same : p ≡ w = ground arith in
        let target : t ≡ o = ground arith in
        let (out, reach) = sound v t e in
        (rw (← target) out, rw (← same, ← target) (passed p v t f reach))
    | inr x ↦ sound w o (ground arith)
  ]

  pub IsClosed-none :
      (v : ValueId) (queue : List ValueId) (alias : Entries)
      → lookup v inputs ≡ none
      → IsClosed inputs (v ∷ queue) alias
      → IsClosed inputs queue alias
  IsClosed-none v queue alias e closed w x k f = elim (Bool-cases (v == w)) [
    | inl y ↦ let same : v ≡ w = ground arith in absurd (cc)
    | inr y ↦ elim (closed w x k f) [ inl c ↦ inl (ground arith) | inr h ↦ inr h ]
  ]

  -- The popped value is settled by the entry for what is passed on to it.
  IsClosed-cons :
      (v p t w x : ValueId) (queue : List ValueId) (alias : Entries)
      → lookup v inputs ≡ some p
      → IsClosed inputs (v ∷ queue) alias
      → IsKnown alias w
      → lookup w inputs ≡ some x
      → (contains queue w ≡ true) ⊎ IsKnown ((p, t) ∷ alias) x
  IsClosed-cons v p t w x queue alias e closed k f = elim (Bool-cases (v == w)) [
    | inl y ↦ let same : v ≡ w = ground arith in let target : p ≡ x = cc in inr (t, ground arith)
    | inr y ↦ elim (closed w x k f) [
      | inl c ↦ inl (ground arith)
      | inr h ↦ inr (IsKnown-cons x p t alias h)
    ]
  ]

  pub IsClosed-new :
      (v p t : ValueId) (queue : List ValueId) (alias : Entries)
      → lookup v inputs ≡ some p
      → IsClosed inputs (v ∷ queue) alias
      → IsClosed inputs (p ∷ queue) ((p, t) ∷ alias)
  IsClosed-new v p t queue alias e closed w x k f = elim (Bool-cases (p == w)) [
    | inl y ↦ inl (rw y refl)
    | inr y ↦
        elim (IsClosed-cons v p t w x queue alias e closed (IsKnown-before w p t alias y k) f) [
          | inl c ↦ inl (rw y c)
          | inr h ↦ inr h
        ]
  ]

  pub IsClosed-old :
      (v p t : ValueId) (queue : List ValueId) (alias : Entries)
      → lookup v inputs ≡ some p
      → IsKnown alias p
      → IsClosed inputs (v ∷ queue) alias
      → IsClosed inputs queue ((p, t) ∷ alias)
  IsClosed-old v p t queue alias e there closed w x k f = elim (Bool-cases (p == w)) [
    | inl y ↦
        let same : p ≡ w = ground arith in
        IsClosed-cons v p t w x queue alias e closed (rw (← same) there) f
    | inr y ↦ IsClosed-cons v p t w x queue alias e closed (IsKnown-before w p t alias y k) f
  ]

  pub queued-cons :
      (v p t : ValueId) (queue : List ValueId) (alias : Entries)
      → ((w : ValueId) → contains (v ∷ queue) w ≡ true → IsKnown alias w)
      → (w : ValueId) → contains queue w ≡ true
      → IsKnown ((p, t) ∷ alias) w
  queued-cons v p t queue alias queued w c = IsKnown-cons w p t alias (queued w (ground arith))

  pub queued-new :
      (v p t : ValueId) (queue : List ValueId) (alias : Entries)
      → ((w : ValueId) → contains (v ∷ queue) w ≡ true → IsKnown alias w)
      → (w : ValueId) → contains (p ∷ queue) w ≡ true
      → IsKnown ((p, t) ∷ alias) w
  queued-new v p t queue alias queued w c = elim (Bool-cases (p == w)) [
    | inl x ↦ (t, rw x refl)
    | inr x ↦ queued-cons v p t queue alias queued w (ground arith)
  ]
