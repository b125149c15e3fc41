-- ===== src/Transform/Shape/Infer/Products.antt =====
-- The matrix product of `infer_node_output` in src/transform/shape.rs.
use my_nn_engine.Prelude.{
  ℕ, zero, suc, ◌+◌, ◌-◌, ◌<◌, ◌≡◌, refl, ap, inl, inr, true, false, List, [], ◌∷◌, ◌++◌, some,
  length, length-append, take, drop, leb, ◌==◌, if◌then◌else◌, arith, Bool-cases,
}
use mathlib.Core.List.{append_assoc}
use my_nn_engine.Tensor.Dims.{ResolvedTensorDims, ndim, prefix, suffix, push}
use my_nn_engine.Tensor.Dims
use my_nn_engine.Tensor.Types.{ResolvedTensorType, DataType}
use my_nn_engine.Tensor.Types
use my_nn_engine.Tensor.Broadcast.{TypeError, ok, err, broadcast_shape}
use my_nn_engine.Graph.Geometry.{checked_sub}
use my_nn_engine.Transform.Attempt.{done, fail, panic}
use my_nn_engine.Transform.Shape.Matrix.{type_eq, as_row, as_column, mat_mul}

-- The sizes of a stack of matrices.
abbrev pub stacked : ResolvedTensorDims → ℕ → ℕ → ResolvedTensorDims
stacked dims rows columns = dims ++ rows ∷ columns ∷ []

as_row-stacked : (dims : List ℕ) (m k : ℕ) → as_row (stacked dims m k) ≡ (stacked dims m k, false)
as_row-stacked [] m k = refl
as_row-stacked (d ∷ []) m k = refl
as_row-stacked (d ∷ e ∷ dims) m k = refl

as_column-stacked :
    (dims : List ℕ) (k n : ℕ) → as_column (stacked dims k n) ≡ (stacked dims k n, false)
as_column-stacked [] k n = refl
as_column-stacked (d ∷ []) k n = refl
as_column-stacked (d ∷ e ∷ dims) k n = refl

take-append : (xs ys : List ℕ) (n : ℕ) → n ≡ length xs → take n (xs ++ ys) ≡ xs
take-append [] ys zero h = refl
take-append [] ys (suc n) h = absurd (omega (arith, h))
take-append (x ∷ xs) ys zero h = absurd (omega (arith, h))
take-append (x ∷ xs) ys (suc n) h = ap (λ l. x ∷ l) (take-append xs ys n (omega arith))

drop-append : (xs ys : List ℕ) (n : ℕ) → n ≡ length xs → drop n (xs ++ ys) ≡ ys
drop-append [] ys zero h = refl
drop-append [] ys (suc n) h = absurd (omega (arith, h))
drop-append (x ∷ xs) ys zero h = absurd (omega (arith, h))
drop-append (x ∷ xs) ys (suc n) h = drop-append xs ys n (omega arith)

ndim-stacked : (dims : List ℕ) (m k : ℕ) → ndim (stacked dims m k) ≡ ndim dims + 2
ndim-stacked dims m k = length-append dims (m ∷ k ∷ [])

prefix-stacked :
    (dims : List ℕ) (m k : ℕ)
    → prefix (stacked dims m k) (ndim (stacked dims m k) - 2) ≡ some (Dims.new dims)
unfolding prefix
prefix-stacked dims m k =
    let l = ndim-stacked dims m k in
    let t : leb (ndim (stacked dims m k) - 2) (ndim (stacked dims m k)) ≡ true = ground arith in
    rw (t) (
      ap (λ d. some (Dims.new d))
        (take-append dims (m ∷ k ∷ []) (ndim (stacked dims m k) - 2) (omega arith)))

suffix-stacked :
    (dims : List ℕ) (m k : ℕ) → 0 < m + k → suffix (stacked dims m k) 2 ≡ some (m ∷ k ∷ [])
unfolding suffix Dims.new
suffix-stacked dims m k h =
    let l = ndim-stacked dims m k in
    let t : leb 2 (ndim (stacked dims m k)) ≡ true = ground arith in
    let d = drop-append dims (m ∷ k ∷ []) (ndim (stacked dims m k) - 2) (omega arith) in
    let z : (m + (k + 0) == 0) ≡ false = ground arith in rw (t, d, z) refl

type_eq_refl : (t : DataType) → type_eq t t ≡ true
type_eq_refl t = ground arith

checked_sub-stacked :
    (dims : List ℕ) (m k : ℕ)
    → checked_sub (ndim (stacked dims m k)) 2 ≡ some (ndim (stacked dims m k) - 2)
checked_sub-stacked dims m k =
    let l = ndim-stacked dims m k in
    let t : leb 2 (ndim (stacked dims m k)) ≡ true = ground arith in rw (t) refl

push-stacked : (dims : List ℕ) (m n : ℕ) → push (push dims m) n ≡ stacked dims m n
unfolding push
push-stacked dims m n = append_assoc dims (m ∷ []) (n ∷ [])

-- For two stacks of matrices of one element type, whose matrices are not of size 0 by 0, let the
-- shape of a stack be what `ResolvedTensorDims::new` makes of the sizes before the last two:
-- those sizes, or the scalar shape if they sum up to 0. If the two shapes broadcast, MatMul
-- returns the matrices of as many rows as the left and as many columns as the right ones, stacked
-- in the shape that they broadcast to, where the left ones have as many columns as the right ones
-- have rows, and panics where not; if the shapes do not broadcast, it returns that error.
pub mat_mul-outcome :
    (a b : ResolvedTensorType) (l r : ResolvedTensorDims) (m k k' n : ℕ)
    → a.elem_type ≡ b.elem_type
    → a.dims ≡ stacked l m k
    → b.dims ≡ stacked r k' n
    → 0 < m + k
    → 0 < k' + n
    → ((dims : ResolvedTensorDims)
        → broadcast_shape (Dims.new l) (Dims.new r) ≡ ok dims
        → mat_mul a b
          ≡ (if k == k' then done (Types.new a.elem_type (stacked dims m n)) else panic))
      × ((e : TypeError) → broadcast_shape (Dims.new l) (Dims.new r) ≡ err e → mat_mul a b ≡ fail e)
unfolding mat_mul
mat_mul-outcome a b l r m k k' n te da db p q =
    let y = type_eq_refl b.elem_type in
    let f = as_row-stacked l m k in
    let g = as_column-stacked r k' n in
    let c = checked_sub-stacked l m k in
    let d = checked_sub-stacked r k' n in
    let i = prefix-stacked l m k in
    let j = prefix-stacked r k' n in
    let v = suffix-stacked l m k p in
    let w = suffix-stacked r k' n q in
    (
      λ dims e. elim (Bool-cases (k == k')) [
        | inl x ↦
            rw (te, da, db, y, f, g, c, d, i, j, e, v, w, x)
              (ap (λ o. done (Types.new b.elem_type o)) (push-stacked dims m n))
        | inr x ↦ rw (te, da, db, y, f, g, c, d, i, j, e, v, w, x) refl
      ],
      λ e h. rw (te, da, db, y, f, g, c, d, i, j, h) refl,
    )
