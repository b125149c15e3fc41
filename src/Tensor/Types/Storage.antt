-- ===== src/Tensor/Types/Storage.antt =====
-- How much storage a type asks for.
use my_nn_engine.Prelude.{
  ℕ, ◌*◌, ◌≤◌, ◌<◌, ◌≡◌, refl, true, false, List, [], ◌∷◌, Option, none, some, product, ◌==◌,
  if◌then◌else◌, arith, Bool-cases, ◌⊎◌, inl, inr,
}
use my_nn_engine.Tensor.Dims.{ResolvedTensorDims, is_scalar}
use my_nn_engine.Tensor.Types.{
  DataType, calc_stride_loop, new, max_extent, storage_num_elements, any_zero,
}
use my_nn_engine.Tensor.Types.Layout.{calc_stride_loop_acc}

abbrev extent : Option ℕ → ℕ
extent none = 0
extent (some m) = m

product_pos : (dims : List ℕ) → any_zero dims ≡ false → 0 < product dims
product_pos [] h = omega arith
product_pos (d ∷ ds) h =
    let rest : 0 < product ds = product_pos ds (ground arith) in
    let here : 0 < d = ground arith in grind arith

product_zero : (dims : List ℕ) → any_zero dims ≡ true → product dims ≡ 0
product_zero [] h = cc
product_zero (d ∷ ds) h = elim (Bool-cases (d == 0)) [
  | inl e ↦ let z : d ≡ 0 = ground arith in rw z (omega arith)
  | inr e ↦ let z : product ds ≡ 0 = product_zero ds (ground arith) in rw z (omega arith)
]

-- The greatest extent of row-major strides is the product, or 0 where the product is 1.
extent-calc_stride_loop :
    (dims : List ℕ)
    → any_zero dims ≡ false
    → (extent (max_extent dims (calc_stride_loop dims).0) ≡ product dims)
      ⊎ ((product dims ≡ 1) × (extent (max_extent dims (calc_stride_loop dims).0) ≡ 0))
unfolding max_extent calc_stride_loop
extent-calc_stride_loop [] h = inr (refl, refl)
extent-calc_stride_loop (d ∷ ds) h =
    let rest = extent-calc_stride_loop ds (ground arith) in
    let positive = product_pos ds (ground arith) in
    let some_of = calc_stride_loop_acc ds in
    let grows : product ds ≤ d * product ds = grind arith in ground (arith, rest, grows, some_of)

-- The storage of a new type has one place per element of its shape, and one for a scalar.
pub storage_num_elements-new :
    (e : DataType) (dims : ResolvedTensorDims)
    → storage_num_elements (new e dims) ≡ some (if is_scalar dims then 1 else product dims)
unfolding storage_num_elements new
storage_num_elements-new e [] = refl
storage_num_elements-new e (d ∷ ds) = elim (Bool-cases (any_zero (d ∷ ds))) [
  | inl z ↦ let none_left = product_zero (d ∷ ds) z in ground (arith, none_left)
  | inr p ↦ let found = extent-calc_stride_loop (d ∷ ds) p in ground (arith, found)
]
