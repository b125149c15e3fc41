-- ===== src/Tensor/Reshape.antt =====
-- `ResolvedTensorType::try_reshape` of src/tensor/types.rs. A vector that the code pops is a stack,
-- its last element first. `none` is a panic, `some none` the result `None`.
use my_nn_engine.Prelude.{
  ℕ, zero, suc, ◌*◌, ◌/◌, ◌%◌, ◌&&◌, List, [], ◌∷◌, Option, none, some, ◌>>=◌, length, reverse, ltb,
  ◌==◌, if◌then◌else◌,
}
pub mod Address
pub mod Cuts
pub mod Blocks
pub mod Places
pub mod Sound
pub mod Overlap
use mathlib.Core.Option
use my_nn_engine.Tensor.Dims.{ResolvedTensorDims, size, compatible_with_scalar}
use my_nn_engine.Tensor.Types.{ResolvedTensorType, new}

-- The axes of the original that are left: the sizes and the strides, popped together.
abbrev pub Axes : Type 0
Axes = List (ℕ × ℕ)

-- The variables after the inner loop has ended by its `break`.
pub record Match : Type 0 where
  pub cur : ℕ
  pub target : ℕ
  pub targets : List ℕ
  pub axes : Axes
  pub strides : List ℕ

-- The tests of one round: `broke` on a multiple, `panic` on a remainder by 0, a merge otherwise.
abbrev pub choose {ℓ} : {A : Type ℓ} → ℕ → ℕ → A → A → A → A → A
choose cur target panic broke merge_target merge_axis =
    if target == 0
    then panic
    else (if cur % target == 0
        then broke
        else (if ltb target cur then merge_target else merge_axis))

-- The inner `loop`. `strides` is `new_strides`, `stride` the stride of the block's first axis.
unfoldable pub match_loop :
    (stride cur target last_dim last_stride : ℕ) → List ℕ → Axes → List ℕ → Option (Option Match)
match_loop stride cur target last_dim last_stride [] [] strides =
    let broke =
      some (
        some (record { cur = cur; target = target; targets = []; axes = []; strides = strides })) in
    choose cur target none broke none none
match_loop stride cur target last_dim last_stride [] ((d, s) ∷ axes) strides =
    let broke = some (
      some (record {
        cur = cur;
        target = target;
        targets = [];
        axes = (d, s) ∷ axes;
        strides = strides;
      })) in
    let merged = match_loop stride (cur * d) target d s [] axes strides in
    choose cur target none broke none (if last_stride * last_dim == s then merged else some none)
match_loop stride cur target last_dim last_stride (t ∷ targets) [] strides =
    let broke = some (
      some (record {
        cur = cur;
        target = target;
        targets = t ∷ targets;
        axes = [];
        strides = strides;
      })) in
    let wider =
      match_loop stride cur (target * t) last_dim last_stride targets [] (stride ∷ strides) in
    choose cur target none broke wider none
match_loop stride cur target last_dim last_stride (t ∷ targets) ((d, s) ∷ axes) strides =
    let broke = some (
      some (record {
        cur = cur;
        target = target;
        targets = t ∷ targets;
        axes = (d, s) ∷ axes;
        strides = strides;
      })) in
    let wider =
      match_loop stride cur (target * t) last_dim last_stride targets ((d, s) ∷ axes)
        (stride ∷ strides) in
    let merged = match_loop stride (cur * d) target d s (t ∷ targets) axes strides in
    choose cur target none broke wider (if last_stride * last_dim == s then merged else some none)

-- What is left of the block goes back on the stack, unless it is 1.
abbrev pub push_rest : ℕ → ℕ → ℕ → Axes → Axes
push_rest cur target stride axes =
    if cur / target == 1 then axes else (cur / target, target * stride) ∷ axes

-- The outer `while`. A round pops at least one target, so as many rounds as targets are enough.
unfoldable pub reshape_loop : ℕ → List ℕ → Axes → List ℕ → Option (Option (Axes × List ℕ))
reshape_loop fuel [] axes strides = some (some (axes, strides))
reshape_loop zero (t ∷ targets) axes strides = none
reshape_loop (suc fuel) (t ∷ targets) [] strides = none
reshape_loop (suc fuel) (t ∷ targets) ((d, s) ∷ axes) strides = do
  found ← match_loop s d t d s targets axes (s ∷ strides)
  elim found [
    | none ↦ some none
    | some m ↦ reshape_loop fuel m.targets (push_rest m.cur m.target s m.axes) m.strides
  ]

-- The strides are handed out to the axes other than 1, and the axes of size 1 get stride 0.
unfoldable pub place_strides : ResolvedTensorDims → List ℕ → Option (List ℕ)
place_strides [] [] = some []
place_strides [] (s ∷ strides) = none
place_strides (d ∷ dims) [] =
    if d == 1 then Option.map (λ r. 0 ∷ r) (place_strides dims []) else none
place_strides (d ∷ dims) (s ∷ strides) =
    if d == 1
    then Option.map (λ r. 0 ∷ r) (place_strides dims (s ∷ strides))
    else Option.map (λ r. s ∷ r) (place_strides dims strides)

abbrev pub drop_ones : List ℕ → List ℕ
drop_ones [] = []
drop_ones (d ∷ ds) = if d == 1 then drop_ones ds else d ∷ drop_ones ds

-- The zipped axes without those of size 1.
abbrev pub axes_of : List ℕ → List ℕ → Axes
axes_of [] ss = []
axes_of (d ∷ ds) [] = []
axes_of (d ∷ ds) (s ∷ ss) = if d == 1 then axes_of ds ss else (d, s) ∷ axes_of ds ss

-- After the loop: every axis must be used up.
unfoldable pub finish :
    ResolvedTensorType → ResolvedTensorDims → Axes × List ℕ → Option (Option ResolvedTensorType)
unfolding place_strides
finish ty target ([], strides) =
    Option.map (λ s. some (record { elem_type = ty.elem_type; dims = target; stride = s }))
      (place_strides target strides)
finish ty target (_ ∷ _, strides) = none

unfoldable pub try_reshape :
    ResolvedTensorType → ResolvedTensorDims → Option (Option ResolvedTensorType)
unfolding new reshape_loop finish
try_reshape ty target =
    if compatible_with_scalar ty.dims && compatible_with_scalar target
    then some (some (new ty.elem_type target))
    else (if size ty.dims == size target
        then (do
          found ←
              reshape_loop (length (drop_ones target)) (reverse (drop_ones target))
                (reverse (axes_of ty.dims ty.stride)) []
          elim found [ none ↦ some none | some done ↦ finish ty target done ])
        else some none)
