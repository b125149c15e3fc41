-- ===== src/Tensor/Types/Views.antt =====
-- Broadcast views: which element of the original a broadcast type reads.
use my_nn_engine.Prelude.{
  ℕ, zero, suc, ◌+◌, ◌-◌, ◌≤◌, ◌≡◌, refl, ap, ◌∙◌, sym, List, [], ◌∷◌, ◌++◌, some, length,
  replicate, drop, ◌==◌, if◌then◌else◌, arith, Bool-cases, inl, inr,
}
use mathlib.Core.List.{append-nil}
use native.Mathlib.Nat.{sub-zero}
use my_nn_engine.Tensor.Dims.{ResolvedTensorDims, ndim}
use my_nn_engine.Tensor.Broadcast.{broadcast_shape, ok}
use my_nn_engine.Tensor.Broadcast.Rule.{
  Broadcasts, Merges-tail, from_right_beyond, broadcast_shape_iff,
}
use my_nn_engine.Tensor.Types.{DataType, ResolvedTensorType, calc_stride_loop, new, broadcast}
use my_nn_engine.Tensor.Types.Layout.{offset, InBounds}

-- One stride per axis, and stride 0 on every axis of size 1.
abbrev pub Strides : List ℕ → List ℕ → Type 0
Strides [] [] = Unit
Strides [] (s ∷ ss) = ⊥
Strides (d ∷ ds) [] = ⊥
Strides (d ∷ ds) (s ∷ ss) = (d ≡ 1 → s ≡ 0) × Strides ds ss

-- The well-formed types.
abbrev pub IsWellFormed : ResolvedTensorType → Type 0
IsWellFormed ty = Strides ty.dims ty.stride

pub calc_stride_loop-Strides : (dims : List ℕ) → Strides dims (calc_stride_loop dims).0
unfolding calc_stride_loop
calc_stride_loop-Strides [] = tt
calc_stride_loop-Strides (d ∷ ds) = (λ e. ground arith, calc_stride_loop-Strides ds)

pub new-IsWellFormed : (e : DataType) (dims : ResolvedTensorDims) → IsWellFormed (new e dims)
unfolding new
new-IsWellFormed e dims = calc_stride_loop-Strides dims

-- The index of the original: the last coordinates, and 0 on an axis of size 1.
abbrev pub clip : ResolvedTensorDims → List ℕ → List ℕ
clip [] is = []
clip (d ∷ ds) [] = []
clip (d ∷ ds) (i ∷ is) = (if d == 1 then 0 else i) ∷ clip ds is

offset-clip :
    (dims strides is : List ℕ)
    → Strides dims strides
    → offset strides (clip dims is) ≡ offset strides is
offset-clip [] [] is h = refl
offset-clip [] (s ∷ ss) is h = absurd h
offset-clip (d ∷ ds) [] is h = absurd h
offset-clip (d ∷ ds) (s ∷ ss) [] h = refl
offset-clip (d ∷ ds) (s ∷ ss) (i ∷ is) h = elim (Bool-cases (d == 1)) [
  | inl e ↦ rw (e, h.0 (ground arith)) (omega (arith, offset-clip ds ss is h.1))
  | inr e ↦ rw (e, offset-clip ds ss is h.1) refl
]

offset-zeros : (k : ℕ) (is : List ℕ) → offset (replicate k 0) is ≡ 0
offset-zeros zero is = refl
offset-zeros (suc k) [] = refl
offset-zeros (suc k) (i ∷ is) = omega (arith, offset-zeros k is)

offset_after_zeros :
    (k : ℕ) (strides is : List ℕ)
    → offset (replicate k 0 ++ strides) is ≡ offset strides (drop k is)
offset_after_zeros zero strides is = refl
offset_after_zeros (suc k) [] [] = refl
offset_after_zeros (suc k) (s ∷ ss) [] = refl
offset_after_zeros (suc k) strides (i ∷ is) = omega (arith, offset_after_zeros k strides is)

length-Strides : (dims strides : List ℕ) → Strides dims strides → length strides ≡ length dims
length-Strides [] [] h = refl
length-Strides [] (s ∷ ss) h = absurd h
length-Strides (d ∷ ds) [] h = absurd h
length-Strides (d ∷ ds) (s ∷ ss) h = ap suc (length-Strides ds ss h.1)

-- The clipped index lies within the original, after the `k` axes in front.
clip-InBounds :
    (k : ℕ) (target dims is : List ℕ)
    → length target ≡ k + length dims
    → Broadcasts target dims target
    → InBounds target is
    → InBounds dims (clip dims (drop k is))
clip-InBounds zero [] [] [] l b h = tt
clip-InBounds zero [] (d ∷ ds) is l b h = absurd (omega arith)
clip-InBounds zero [] [] (i ∷ is) l b h = absurd h
clip-InBounds zero (t ∷ ts) [] is l b h = absurd (omega arith)
clip-InBounds zero (t ∷ ts) (d ∷ ds) [] l b h = absurd h
clip-InBounds zero (t ∷ ts) (d ∷ ds) (i ∷ is) l b h =
    let rest =
      clip-InBounds zero ts ds is (omega arith)
        (record {
          rank = omega arith;
          at_axis = Merges-tail t d t ts ds ts (omega arith) refl b.at_axis;
        })
        h.1 in
    (ground (arith, b.at_axis (length ts)), rest)
clip-InBounds (suc k) [] dims is l b h = absurd (omega arith)
clip-InBounds (suc k) (t ∷ ts) dims [] l b h = absurd h
clip-InBounds (suc k) (t ∷ ts) dims (i ∷ is) l b h =
    clip-InBounds k ts dims is (omega arith)
      (record {
        rank = omega arith;
        at_axis =
            λ j. ground (arith, b.at_axis j, from_right_beyond ts j, from_right_beyond dims j);
      })
      h.1

broadcast_runs :
    (e : DataType) (dims strides target : List ℕ)
    → length strides ≡ length dims
    → length dims ≤ length target
    → broadcast (record { elem_type = e; dims = dims; stride = strides }) target
      ≡ some (record {
        elem_type = e;
        dims = target;
        stride = replicate (length target - length dims) 0 ++ strides;
      })
unfolding broadcast
broadcast_runs e [] [] target l h = rw (append-nil, sub-zero) refl
broadcast_runs e (d ∷ ds) [] target l h = absurd (omega arith)
broadcast_runs e [] (s ∷ ss) target l h = absurd (omega arith)
broadcast_runs e (d ∷ ds) (s ∷ ss) target l h = ground arith

-- A well-formed type broadcasts, without a panic, to every shape that `broadcast_shape` leaves
-- unchanged when it is merged with the type; the view has that shape, and at each of its indices
-- it reads the element of the original at the clipped index (the last coordinates, and 0 on an
-- axis of size 1), which lies within the original.
pub broadcast_reads :
    (ty : ResolvedTensorType) (target : ResolvedTensorDims)
    → IsWellFormed ty
    → broadcast_shape target ty.dims ≡ ok target
    → (view : ResolvedTensorType) × (broadcast ty target ≡ some view)
      × (view.dims ≡ target)
      × ((is : List ℕ)
          → InBounds target is
          → let original = clip ty.dims (drop (ndim target - ndim ty.dims) is) in
            InBounds ty.dims original × (offset view.stride is ≡ offset ty.stride original))
unfolding broadcast
broadcast_reads ty target w c =
    let b = (broadcast_shape_iff target ty.dims target).0 c in
    let k = ndim target - ndim ty.dims in
    let same = length-Strides ty.dims ty.stride w in
    let view : ResolvedTensorType = record ty {
      dims = target;
      stride = replicate k 0 ++ ty.stride;
    } in
    (
      view,
      broadcast_runs ty.elem_type ty.dims ty.stride target same (omega (arith, b.rank)),
      refl,
      λ is h. (
        clip-InBounds k target ty.dims is (omega (arith, b.rank)) b h,
        offset_after_zeros k ty.stride is ∙ sym (offset-clip ty.dims ty.stride (drop k is) w),
      ),
    )
