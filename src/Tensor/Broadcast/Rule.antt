-- ===== src/Tensor/Broadcast/Rule.antt =====
-- The numpy rule of broadcasting, read from the last axis on, against `broadcast_shape`.
use my_nn_engine.Prelude.{
  ℕ, zero, suc, ◌+◌, ◌-◌, ◌≤◌, max, ◌≡◌, ◌↔◌, ◌⊎◌, inl, inr, refl, sym, subst, List, [], ◌∷◌, ◌++◌,
  Option, none, some, length, take, drop, ltb, ◌==◌, if◌then◌else◌, arith, Bool-cases, Option-cases,
}
use my_nn_engine.Tensor.Dims.{ResolvedTensorDims, ndim}
use my_nn_engine.Tensor.Broadcast.{ok, merge, merge_all, broadcast_shape_body, broadcast_shape}

-- The size at position `i` from the right, and 1 to the left of the shape.
abbrev pub from_right : ResolvedTensorDims → ℕ → ℕ
from_right [] i = 1
from_right (d ∷ ds) i = if i == length ds then d else from_right ds i

-- Two sizes agree, or one of them is 1 and stretches to the other.
abbrev pub Merges : ℕ → ℕ → ℕ → Type 0
Merges x y z = ((x ≡ y) × (z ≡ x)) ⊎ ((x ≡ 1) × (z ≡ y)) ⊎ ((y ≡ 1) × (z ≡ x))

pub record Broadcasts (a b c : ResolvedTensorDims) : Type 0 where
  pub rank : length c ≡ max (length a) (length b)
  pub at_axis : (i : ℕ) → Merges (from_right a i) (from_right b i) (from_right c i)

pub from_right_beyond : (ds : List ℕ) (i : ℕ) → length ds ≤ i → from_right ds i ≡ 1
from_right_beyond [] i h = refl
from_right_beyond (d ∷ ds) i h = ground (arith, from_right_beyond ds i)

merge_sound : (v r d : ℕ) → merge v r ≡ some d → Merges v r d
unfolding merge
merge_sound v r d h = ground arith

merge_complete : (v r d : ℕ) → Merges v r d → merge v r ≡ some d
unfolding merge
merge_complete v r d h = ground arith

length-merge_all : (vs rs c : List ℕ) → merge_all vs rs ≡ some c → length c ≡ length vs
unfolding merge_all
length-merge_all [] rs c h = ground arith
length-merge_all (v ∷ vs) [] c h = ground arith
length-merge_all (v ∷ vs) (r ∷ rs) c h = elim (Option-cases (merge v r)) [
  | inl e ↦ ground arith
  | inr (d, e) ↦ elim (Option-cases (merge_all vs rs)) [
    | inl e' ↦ ground arith
    | inr (ds, e') ↦ ground (arith, length-merge_all vs rs ds)
  ]
]

merge_all_sound :
    (vs rs c : List ℕ)
    → length vs ≡ length rs
    → merge_all vs rs ≡ some c
    → (i : ℕ) → Merges (from_right vs i) (from_right rs i) (from_right c i)
unfolding merge_all
merge_all_sound [] [] c l h i = ground arith
merge_all_sound [] (r ∷ rs) c l h i = absurd (omega arith)
merge_all_sound (v ∷ vs) [] c l h i = absurd (omega arith)
merge_all_sound (v ∷ vs) (r ∷ rs) c l h i = elim (Option-cases (merge v r)) [
  | inl e ↦ ground arith
  | inr (d, e) ↦ elim (Option-cases (merge_all vs rs)) [
    | inl e' ↦ ground arith
    | inr (ds, e') ↦ ground (
      arith,
      length-merge_all vs rs ds,
      merge_sound v r d,
      merge_all_sound vs rs ds (omega arith) e' i,
    )
  ]
]

-- What holds at every axis holds at those after the first.
pub Merges-tail :
    (v r d : ℕ) (vs rs c : List ℕ)
    → length (v ∷ vs) ≡ length (r ∷ rs)
    → length (d ∷ c) ≡ length (v ∷ vs)
    → ((i : ℕ) → Merges (from_right (v ∷ vs) i) (from_right (r ∷ rs) i) (from_right (d ∷ c) i))
    → (i : ℕ) → Merges (from_right vs i) (from_right rs i) (from_right c i)
Merges-tail v r d vs rs c l k h i = elim (Bool-cases (i == length vs)) [
  | inl e ↦ ground (arith, from_right_beyond vs i, from_right_beyond rs i, from_right_beyond c i)
  | inr e ↦ ground (arith, h i)
]

merge_all_complete :
    (vs rs c : List ℕ)
    → length vs ≡ length rs
    → length c ≡ length vs
    → ((i : ℕ) → Merges (from_right vs i) (from_right rs i) (from_right c i))
    → merge_all vs rs ≡ some c
unfolding merge_all
merge_all_complete [] [] [] l k h = refl
merge_all_complete [] [] (d ∷ c) l k h = absurd (omega arith)
merge_all_complete [] (r ∷ rs) c l k h = absurd (omega arith)
merge_all_complete (v ∷ vs) [] c l k h = absurd (omega arith)
merge_all_complete (v ∷ vs) (r ∷ rs) [] l k h = absurd (omega arith)
merge_all_complete (v ∷ vs) (r ∷ rs) (d ∷ c) l k h = ground (
  arith,
  merge_complete v r d (ground (arith, h (length vs))),
  merge_all_complete vs rs c (omega arith) (omega arith) (Merges-tail v r d vs rs c l k h),
)

-- The body, when the first shape is the longer by `k` axes.
merge_after : ℕ → List ℕ → List ℕ → Option (List ℕ)
merge_after k vs rs = elim (merge_all (drop k vs) rs) [
  | none ↦ none
  | some m ↦ some (take k vs ++ m)
]

merge_after_sound :
    (k : ℕ) (vs rs c : List ℕ)
    → length vs ≡ k + length rs
    → merge_after k vs rs ≡ some c
    → Broadcasts vs rs c
unfolding merge_after
merge_after_sound zero vs rs c l h = elim (Option-cases (merge_all vs rs)) [
  | inl e ↦ ground arith
  | inr (m, e) ↦ record {
    rank = ground (arith, length-merge_all vs rs c);
    at_axis = λ i. merge_all_sound vs rs c (omega arith) (ground arith) i;
  }
]
merge_after_sound (suc k) [] rs c l h = absurd (omega arith)
merge_after_sound (suc k) (v ∷ vs) rs c l h = elim (Option-cases (merge_after k vs rs)) [
  | inl e ↦ ground arith
  | inr (m, e) ↦
      let rest = merge_after_sound k vs rs m (omega arith) e in
      let c_eq : c ≡ v ∷ m = ground arith in
      subst (Broadcasts (v ∷ vs) rs) (sym c_eq) (record {
        rank = omega (arith, rest.rank);
        at_axis = λ i. ground (arith, rest.rank, rest.at_axis i, from_right_beyond rs i);
      })
]

merge_after_complete :
    (k : ℕ) (vs rs c : List ℕ)
    → length vs ≡ k + length rs
    → Broadcasts vs rs c
    → merge_after k vs rs ≡ some c
unfolding merge_after
merge_after_complete zero vs rs c l h =
    ground (arith, merge_all_complete vs rs c (omega arith) (omega (arith, h.rank)) h.at_axis)
merge_after_complete (suc k) [] rs c l h = absurd (omega arith)
merge_after_complete (suc k) (v ∷ vs) rs [] l h = absurd (omega (arith, h.rank))
merge_after_complete (suc k) (v ∷ vs) rs (d ∷ c) l h =
    let rank : length c ≡ length vs = omega (arith, h.rank) in
    let rest = merge_after_complete k vs rs c (omega arith) (record {
      rank = omega arith;
      at_axis = λ i. elim (Bool-cases (i == length vs)) [
        | inl e ↦
            ground (arith, from_right_beyond vs i, from_right_beyond rs i, from_right_beyond c i)
        | inr e ↦ ground (arith, h.at_axis i)
      ];
    }) in
    ground (arith, rest, h.at_axis (length vs), from_right_beyond rs (length vs))

broadcast_shape_body_iff :
    (a b c : ResolvedTensorDims)
    → length b ≤ length a
    → (broadcast_shape_body a b ≡ ok c) ↔ Broadcasts a b c
unfolding broadcast_shape_body
broadcast_shape_body_iff a b c h =
    let k = ndim a - ndim b in
    (
      λ e. merge_after_sound k a b c (omega arith) (unfold merge_after in ground arith),
      λ s.
          let e = merge_after_complete k a b c (omega arith) s in
          unfold merge_after in ground (arith, e),
    )

Broadcasts-swap : {a b c : ResolvedTensorDims} → Broadcasts a b c → Broadcasts b a c
Broadcasts-swap {a} {b} {c} h = record {
  rank = omega (arith, h.rank);
  at_axis = λ i. ground (arith, h.at_axis i);
}

-- Broadcasting returns a shape exactly when it is the one that the numpy rule gives: as many axes
-- as the longer shape, and at every axis from the right the two sizes agree or one of them is 1.
pub broadcast_shape_iff :
    (a b c : ResolvedTensorDims) → (broadcast_shape a b ≡ ok c) ↔ Broadcasts a b c
unfolding broadcast_shape
broadcast_shape_iff a b c = elim (Bool-cases (ltb (ndim a) (ndim b))) [
  | inl e ↦ rw e (
      (
        λ h. Broadcasts-swap ((broadcast_shape_body_iff b a c (ground arith)).0 h),
        λ s. (broadcast_shape_body_iff b a c (ground arith)).1 (Broadcasts-swap s),
      ))
  | inr e ↦ rw e (broadcast_shape_body_iff a b c (ground arith))
]
