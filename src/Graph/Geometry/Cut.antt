-- ===== src/Graph/Geometry/Cut.antt =====
-- What `Split::split` of src/graph/operator.rs gives for a number of outputs.
use my_nn_engine.Prelude.{
  ℕ, zero, suc, ◌+◌, ◌-◌, ◌*◌, ◌/◌, ◌%◌, ◌<◌, ◌≤◌, ◌≡◌, refl, inl, inr, true, false, List, [], ◌∷◌,
  Option, none, some, All, length, get_elem?, sum, min, ltb, ◌==◌, arith, Bool-cases, ap, ltb→lt,
}
use mathlib.Core.Option
use native.Mathlib.Nat.{
  div-add-mod, le_of_mul-le-mul_right, mul-le-mul_right, div-eq_of_lt, le-div_iff_mul-le,
}
use my_nn_engine.Tensor.Dims.{ResolvedTensorDims, ndim}
use my_nn_engine.Graph.Operator.{index, Split, num_outputs}
use my_nn_engine.Graph.Geometry.{cut_loop, split}

abbrev pub IsPiece : ℕ → ℕ → Type 0
IsPiece step size = (0 < size) × (size ≤ step)

-- The pieces that the loop cuts: together they are `rest` long.
pub record IsCut (step rest : ℕ) (o : Option (List ℕ)) : Type 0 where
  pub sizes : List ℕ
  pub returned : o ≡ some sizes
  pub whole : sum sizes ≡ rest
  pub pieces : All (IsPiece step) sizes
  pub enough : rest ≤ length sizes * step

cut_loop-IsCut :
    (fuel cur step bound : ℕ)
    → 0 < step
    → bound < cur + fuel
    → cur ≤ bound
    → IsCut step (bound - cur) (cut_loop fuel cur step bound)
unfolding cut_loop
cut_loop-IsCut zero cur step bound p h l = absurd (omega arith)
cut_loop-IsCut (suc fuel) cur step bound p h l = elim (Bool-cases (ltb cur bound)) [
  | inl e ↦
      let end = min (cur + step) bound in
      let below : cur < end = ground arith in
      let top : end ≤ bound = ground arith in
      let piece : end - cur ≤ step = ground arith in
      let rest = cut_loop-IsCut fuel end step bound p (omega arith) top in
      record {
        sizes = (end - cur) ∷ rest.sizes;
        returned = rw (e, rest.returned) refl;
        whole = omega (arith, rest.whole);
        pieces = ((omega arith, piece), rest.pieces);
        enough = omega (arith, rest.enough);
      }
  | inr e ↦ record {
    sizes = [];
    returned = rw (e) refl;
    whole = ground arith;
    pieces = tt;
    enough = ground arith;
  }
]

-- A step of 0 never ends.
cut_loop_stuck : (fuel bound : ℕ) → 0 < bound → cut_loop fuel 0 0 bound ≡ none
unfolding cut_loop
cut_loop_stuck zero bound h = refl
cut_loop_stuck (suc fuel) bound h =
    let t : ltb 0 bound ≡ true = ground arith in
    let z : min (0 + 0) bound ≡ 0 = ground arith in
    let rest = cut_loop_stuck fuel bound h in
    let under : cut_loop fuel (min (0 + 0) bound) 0 bound ≡ none = rw (z) rest in
    rw (t) (ap (Option.map (λ (r : List ℕ). (min (0 + 0) bound - 0) ∷ r)) under)

counted : (n l q r dim : ℕ) → dim ≡ n * q + r → dim ≤ l * q → 0 < q → (n ≤ l) × (0 < r → n < l)
counted n l q r dim e h p = (
  le_of_mul-le-mul_right {k = q} (omega arith) p,
  λ positive. elim (Bool-cases (ltb n l)) [
    | inl t ↦ ltb→lt n l t
    | inr t ↦
        let few : l ≤ n = ground arith in let less = mul-le-mul_right q few in absurd (omega arith)
  ],
)

-- The case of `split` for a number of outputs.
split-num_outputs :
    (s : Split) (dims : ResolvedTensorDims) (n dim : ℕ) (sizes : List ℕ)
    → s.outputs ≡ some (num_outputs n)
    → get_elem? dims (index s.axis (ndim dims)) ≡ some dim
    → 0 < n
    → cut_loop (suc dim) 0 (dim / n) dim ≡ some sizes
    → split s dims ≡ some (some sizes)
unfolding split
split-num_outputs s dims n dim sizes e f p h =
    let z : (n == 0) ≡ false = ground arith in rw (f, e, z, h) refl

-- For a number of outputs greater than the size that is split, which is not 0, the loop of
-- `split` does not end: it has no result on any fuel, and `split` has none.
pub split_stuck :
    (s : Split) (dims : ResolvedTensorDims) (n dim : ℕ)
    → s.outputs ≡ some (num_outputs n)
    → get_elem? dims (index s.axis (ndim dims)) ≡ some dim
    → 0 < dim
    → dim < n
    → (split s dims ≡ none) × ((fuel : ℕ) → cut_loop fuel 0 (dim / n) dim ≡ none)
unfolding split
split_stuck s dims n dim e f p l =
    let z : (n == 0) ≡ false = ground arith in
    let step = div-eq_of_lt l in
    let stuck : (fuel : ℕ) → cut_loop fuel 0 (dim / n) dim ≡ none =
      λ fuel. rw (step) (cut_loop_stuck fuel dim p) in
    (rw (f, e, z, stuck (suc dim)) refl, stuck)

-- For a number of outputs that is not 0 and at most the size that is split, `split` returns sizes
-- that sum up to that size, none of them 0 or greater than the quotient. They are at least as
-- many as the outputs asked for, and more unless the division has no remainder.
pub split-IsPiece :
    (s : Split) (dims : ResolvedTensorDims) (n dim : ℕ)
    → s.outputs ≡ some (num_outputs n)
    → get_elem? dims (index s.axis (ndim dims)) ≡ some dim
    → 0 < n
    → n ≤ dim
    → (sizes : List ℕ) × (split s dims ≡ some (some sizes))
      × (sum sizes ≡ dim)
      × All (IsPiece (dim / n)) sizes
      × (n ≤ length sizes)
      × (0 < dim % n → n < length sizes)
split-IsPiece s dims n dim e f p l =
    let q = dim / n in
    let positive : 0 < q = (le-div_iff_mul-le {k = n} {x = 1} {y = dim} p).1 (omega arith) in
    let cut = cut_loop-IsCut (suc dim) 0 q dim positive (omega arith) (omega arith) in
    let enough = cut.enough in
    let parts = div-add-mod dim n in
    let (few, more) =
      counted n (length cut.sizes) q (dim % n) dim (omega arith) (omega arith) positive in
    (
      cut.sizes,
      split-num_outputs s dims n dim cut.sizes e f p cut.returned,
      omega (arith, cut.whole),
      cut.pieces,
      few,
      more,
    )
