-- ===== src/Tensor/Reshape/Sound.antt =====
-- `try_reshape` where the target can be cut from the original shape.
use my_nn_engine.Prelude.{
  ℕ, ◌*◌, ◌≡◌, ◌≢◌, refl, ap, sym, ◌∙◌, true, List, [], ◌∷◌, ◌++◌, Option, none, some, mul-eq-one,
  ==_iff, ◌&&◌, ◌==◌, arith, Bool-cases, ◌⊎◌, inl, inr, length, length-reverse, reverse, ◌>>=◌,
  subst, product,
}
use mathlib.Core.List.{reverse-cons, reverse-reverse, append-nil}
use my_nn_engine.Tensor.Dims.{ResolvedTensorDims, size, compatible_with_scalar}
use my_nn_engine.Tensor.Types.{ResolvedTensorType, new, contiguous, calc_stride_loop}
use my_nn_engine.Tensor.Types.Layout.{calc_stride_loop_acc, offset, InBounds, ravel}
use my_nn_engine.Tensor.Types.Views.{calc_stride_loop-Strides, Strides, IsWellFormed}
use my_nn_engine.Tensor.Reshape.{Axes, drop_ones, axes_of, finish, try_reshape}
use my_nn_engine.Tensor.Reshape.Address.{address, extent, extent-axes_of, address-ravel}
use my_nn_engine.Tensor.Reshape.Cuts.{Cuts, Chained}
use my_nn_engine.Tensor.Reshape.Blocks.{zip_axes, Placed, reshape_loop_sound}
use my_nn_engine.Tensor.Reshape.Places.{
  Handed, place_strides_sound, reverse-zip_axes, sizes-reverse-axes_of,
}

-- The view that `try_reshape` returns has the target's shape, is well formed, and stores each
-- element where the original stores the element at the same row-major position.
pub record IsReshaped (ty : ResolvedTensorType) (target : ResolvedTensorDims)
    (view : ResolvedTensorType) : Type 0 where
  pub same_dims : view.dims ≡ target
  pub well_formed : IsWellFormed view
  pub same_place :
      (is js : List ℕ)
      → InBounds ty.dims is
      → InBounds target js
      → ravel ty.dims is ≡ ravel target js
      → offset view.stride js ≡ offset ty.stride is

-- The target, read from the last axis, can be cut from the original axes. Axes of size 1 are left out.
abbrev pub CutsFrom : ResolvedTensorDims → ResolvedTensorDims → Type 0
CutsFrom dims target = Cuts (reverse (drop_ones target)) (reverse (drop_ones dims))

place_same :
    (ty : ResolvedTensorType) (target : ResolvedTensorDims) (o : Option (Option (Axes × List ℕ)))
    (w : IsWellFormed ty)
    (p : Placed (reverse (drop_ones target)) (reverse (axes_of ty.dims ty.stride)) [] o)
    (h : Handed target (reverse p.news)) (is js : List ℕ)
    → InBounds ty.dims is
    → InBounds target js
    → ravel ty.dims is ≡ ravel target js
    → offset h.result js ≡ offset ty.stride is
place_same ty target o w p h is js b b' e =
    let k = ravel target js in
    let fits : length (drop_ones target) ≡ length (reverse p.news) =
      omega (arith, length-reverse p.news, p.same_length, length-reverse (drop_ones target)) in
    sym (address-ravel target h.result js h.plain b')
    ∙ ap (λ a. address (reverse a) k) h.zipped
    ∙ ap (λ a. address a k) (reverse-zip_axes (drop_ones target) (reverse p.news) fits)
    ∙ ap (λ n. address (zip_axes (reverse (drop_ones target)) n) k) (reverse-reverse p.news)
    ∙ p.same k
    ∙ ap (address (reverse (axes_of ty.dims ty.stride))) (sym e)
    ∙ address-ravel ty.dims ty.stride is w b

finish_sound :
    (ty : ResolvedTensorType) (target : ResolvedTensorDims) (o : Option (Option (Axes × List ℕ)))
    → IsWellFormed ty
    → (p : Placed (reverse (drop_ones target)) (reverse (axes_of ty.dims ty.stride)) [] o)
    → Handed target (reverse p.news)
    → (view : ResolvedTensorType) × ((o >>= λ found. elim found [
      | none ↦ some none
      | some done ↦ finish ty target done
    ])
        ≡ some (some view))
      × IsReshaped ty target view
unfolding finish
finish_sound ty target o w p h =
    let view : ResolvedTensorType = record ty { dims = target; stride = h.result } in
    (
      view,
      rw (p.result, append-nil, h.runs) refl,
      record { same_dims = refl; well_formed = h.plain; same_place = place_same ty target o w p h },
    )

unit_place :
    (dims strides is : List ℕ)
    → product dims ≡ 1
    → Strides dims strides
    → InBounds dims is
    → offset strides is ≡ 0
unit_place [] [] is e w b = refl
unit_place [] (s ∷ ss) is e w b = absurd w
unit_place (d ∷ ds) [] is e w b = absurd w
unit_place (d ∷ ds) (s ∷ ss) [] e w b = absurd b
unit_place (d ∷ ds) (s ∷ ss) (i ∷ is) e w b =
    let parts = mul-eq-one d (product ds) e in
    let stays : s ≡ 0 = w.0 parts.0 in rw (stays, unit_place ds ss is parts.1 w.1 b.1) (omega arith)

-- Every index of a shape that is compatible with a scalar lies at offset 0.
scalar_place :
    (dims strides is : List ℕ)
    → compatible_with_scalar dims ≡ true
    → Strides dims strides
    → InBounds dims is
    → offset strides is ≡ 0
scalar_place [] [] is c w b = refl
scalar_place [] (s ∷ ss) is c w b = absurd w
scalar_place (d ∷ ds) strides is c w b = unit_place (d ∷ ds) strides is (ground arith) w b

Chained-append :
    (n : ℕ) (axes : Axes) (d s : ℕ)
    → Chained n axes
    → s ≡ n * extent axes
    → Chained n (axes ++ (d, s) ∷ [])
Chained-append n [] d s h e = (omega arith, tt)
Chained-append n ((x, t) ∷ axes) d s h e = (h.0, Chained-append (n * x) axes d s h.1 (omega arith))

-- The row-major strides of a shape, from the last axis, are chained.
Chained-new : (dims : List ℕ) → Chained 1 (reverse (axes_of dims (calc_stride_loop dims).0))
unfolding calc_stride_loop
Chained-new [] = tt
Chained-new (d ∷ ds) = elim (Bool-cases (d == 1)) [
  | inl e ↦ rw e (Chained-new ds)
  | inr e ↦
      let rest = reverse (axes_of ds (calc_stride_loop ds).0) in
      let fits : (calc_stride_loop ds).1 ≡ 1 * extent rest = omega (
        arith,
        calc_stride_loop_acc ds,
        extent-axes_of ds (calc_stride_loop ds).0 (calc_stride_loop-Strides ds),
      ) in
      rw (e, reverse-cons (d, (calc_stride_loop ds).1) (axes_of ds (calc_stride_loop ds).0))
        (Chained-append 1 rest d (calc_stride_loop ds).1 (Chained-new ds) fits)
]

Chained-contiguous :
    (ty : ResolvedTensorType) → ty ≡ contiguous ty → Chained 1 (reverse (axes_of ty.dims ty.stride))
unfolding contiguous
Chained-contiguous ty e =
    subst (λ s. Chained 1 (reverse (axes_of ty.dims s))) (sym (ap (λ t. t.stride) e))
      (Chained-new ty.dims)

-- For a well-formed type and a target of the same size that can be cut from its axes (read from
-- the last axis, a target axis divides the axis it is split off, and smaller axes are first
-- joined whole), `try_reshape` does not panic: either it gives none, and then the type is not
-- contiguous, or it gives a view of the target shape that is well formed and stores every element
-- where the original stores the element at the same row-major position.
pub try_reshape_sound :
    (ty : ResolvedTensorType) (target : ResolvedTensorDims)
    → IsWellFormed ty
    → size ty.dims ≡ size target
    → CutsFrom ty.dims target
    → ((try_reshape ty target ≡ some none) × (ty ≢ contiguous ty))
      ⊎ ((view : ResolvedTensorType) × (try_reshape ty target ≡ some (some view))
          × IsReshaped ty target view)
unfolding try_reshape
try_reshape_sound ty target w e c =
    elim (Bool-cases (compatible_with_scalar ty.dims && compatible_with_scalar target)) [
      | inl s ↦ inr (
        new ty.elem_type target,
        rw s refl,
        record {
          same_dims = refl;
          well_formed = calc_stride_loop-Strides target;
          same_place = λ is js b b' k.
              scalar_place target (calc_stride_loop target).0 js (ground arith)
                (calc_stride_loop-Strides target) b'
              ∙ sym (scalar_place ty.dims ty.stride is (ground arith) w b);
        },
      )
      | inr s ↦
          let targets = reverse (drop_ones target) in
          let cut = subst (Cuts targets) (sym (sizes-reverse-axes_of ty.dims ty.stride w)) c in
          let count = length-reverse (drop_ones target) in
          rw (s, (==_iff _ _).1 e)
            (elim (reshape_loop_sound (length (drop_ones target)) 1 targets
              (reverse (axes_of ty.dims ty.stride)) [] cut (omega arith)) [
                | inl (gave_up, no_chain) ↦
                    rw gave_up (inl (refl, λ same. no_chain (Chained-contiguous ty same)))
                | inr p ↦
                    let strides =
                      place_strides_sound target (reverse p.news)
                        (length-reverse p.news ∙ p.same_length ∙ count) in
                    inr (finish_sound ty target _ w p strides)
              ])
    ]
