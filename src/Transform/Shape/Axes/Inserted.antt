-- ===== src/Transform/Shape/Axes/Inserted.antt =====
-- Axes of size 1 that are put in and taken out again, in src/transform/shape.rs.
use my_nn_engine.Prelude.{
  ℕ, zero, suc, ◌+◌, ◌<◌, ◌≡◌, refl, sym, ap, subst, ◌∙◌, Bool, true, false, List, [], ◌∷◌, some,
  length, length-replicate, get_elem?, take, replicate, map, sum, ◌==◌, arith,
}
use my_nn_engine.Tensor.Dims.{ResolvedTensorDims, ndim}
use my_nn_engine.Tensor.Dims
use my_nn_engine.Tensor.Types.{ResolvedTensorType, DataType, calc_stride, calc_stride_loop}
use my_nn_engine.Tensor.Types
use my_nn_engine.Graph.Operator.{TensorIndex, index}
use my_nn_engine.Transform.Attempt.{done, check, Yields-eq, >>=-eq-done, done_inj}
use my_nn_engine.Transform.Shape.{UnifyMode, checks_strides}
use my_nn_engine.Transform.Shape.Axes.{
  mark_all, unmarked, inserted, is_empty, squeeze, unsqueeze, restrided,
}
use my_nn_engine.Transform.Shape.Axes.Flags.{
  Inserts, inserted-Inserts, check-done, mark_all-Marks, mark_ones-mark_all, mark_all_first,
}

get_elem?-sum : (ds : List ℕ) (i : ℕ) → get_elem? ds i ≡ some 1 → 0 < sum ds
get_elem?-sum [] i h = cc
get_elem?-sum (d ∷ ds) zero h = let one : d ≡ 1 = ground arith in omega arith
get_elem?-sum (d ∷ ds) (suc i) h = omega (arith, get_elem?-sum ds i h)

length-calc_stride : (ds : List ℕ) → length (calc_stride ds) ≡ length ds
unfolding calc_stride calc_stride_loop
length-calc_stride [] = refl
length-calc_stride (d ∷ ds) = ap suc (length-calc_stride ds)

take-length : (ds : List ℕ) (n : ℕ) → n ≡ length ds → take n ds ≡ ds
take-length [] zero h = refl
take-length [] (suc n) h = refl
take-length (d ∷ ds) zero h = absurd (omega arith)
take-length (d ∷ ds) (suc n) h = ap (λ l. d ∷ l) (take-length ds n (omega arith))

-- The sizes that were put in are taken out again.
squeeze_back :
    (axes : List TensorIndex) (e : DataType) (dims ds ss : List ℕ) (flags : List Bool)
    (mode : UnifyMode)
    → checks_strides mode ≡ false
    → length ss ≡ length ds
    → mark_all (replicate (length ds) false) (map (λ b. index b (length ds)) axes) ≡ done flags
    → ((i : ℕ) → get_elem? flags i ≡ some true → get_elem? ds i ≡ some 1)
    → unmarked flags ds ≡ dims
    → squeeze (some axes) (record { elem_type = e; dims = ds; stride = ss }) mode
      ≡ done (Types.new e (Dims.new dims))
unfolding squeeze
squeeze_back axes e dims ds ss flags mode m l marked ones taken =
    let again =
      mark_ones-mark_all axes ds (replicate (length ds) false) flags
        (length-replicate (length ds) false) ones marked in
    rw (again, take-length ds (length ss) l, taken, m) refl

new-positive : (ds : List ℕ) → 0 < sum ds → Dims.new ds ≡ ds
unfolding Dims.new
new-positive ds h = let no : (sum ds == 0) ≡ false = ground arith in rw (no) refl

-- The type that `unsqueeze` ends with is the one that `squeeze` takes.
squeezed_back :
    (a : TensorIndex) (axes : List TensorIndex) (e : DataType) (dims ds ss : List ℕ)
    (flags : List Bool) (t : ResolvedTensorType) (mode mode' : UnifyMode)
    → checks_strides mode ≡ false
    → checks_strides mode' ≡ false
    → mark_all (replicate (length ds) false) (map (λ b. index b (length ds)) (a ∷ axes))
      ≡ done flags
    → ((i : ℕ) → get_elem? flags i ≡ some true → get_elem? ds i ≡ some 1)
    → unmarked flags ds ≡ dims
    → restrided mode e ds ss ≡ done t
    → squeeze (some (a ∷ axes)) t mode' ≡ done (Types.new e (Dims.new dims))
unfolding Types.new
squeezed_back a axes e dims ds ss flags t mode mode' m m' marked ones taken h =
    let i = index a (length ds) in
    let first =
      mark_all_first i (map (λ b. index b (length ds)) axes) (replicate (length ds) false) flags
        marked in
    let same = new-positive ds (get_elem?-sum ds i (ones i first)) in
    let plain : done (Types.new e (Dims.new ds)) ≡ done t = rw (m) at h in
    let is_new : record { elem_type = e; dims = ds; stride = calc_stride ds } ≡ t =
      ap (λ l. Types.new e l) (sym same) ∙ done_inj plain in
    rw (← is_new) (
      squeeze_back (a ∷ axes) e dims ds (calc_stride ds) flags mode' m' (length-calc_stride ds)
        marked ones taken)

unsqueezed :
    (a : TensorIndex) (axes : List TensorIndex) (input t : ResolvedTensorType)
    (mode mode' : UnifyMode)
    → checks_strides mode ≡ false
    → checks_strides mode' ≡ false
    → (flags : List Bool) (r : (List ℕ × List ℕ) × List ℕ)
    → let rank = ndim input.dims + length (a ∷ axes) in
      mark_all (replicate rank false) (map (λ b. index b rank) (a ∷ axes)) ≡ done flags
      → Inserts flags input.dims r
      → is_empty r.1 ≡ true
      → restrided mode input.elem_type r.0.0 r.0.1 ≡ done t
      → squeeze (some (a ∷ axes)) t mode' ≡ done (Types.new input.elem_type (Dims.new input.dims))
unsqueezed a axes input t mode mode' m m' flags r marked x empty h =
    let rank = ndim input.dims + length (a ∷ axes) in
    let marks =
      mark_all-Marks (map (λ b. index b rank) (a ∷ axes)) (replicate rank false) flags marked in
    let long : rank ≡ length r.0.0 =
      sym (x.as_long ∙ marks.same_length ∙ length-replicate rank false) in
    squeezed_back a axes input.elem_type input.dims r.0.0 r.0.1 flags t mode mode' m m'
      (subst (λ n. mark_all (replicate n false) (map (λ b. index b n) (a ∷ axes)) ≡ done flags) long
        marked)
      x.ones (x.taken empty) h

-- Where the strides are not checked, Squeeze of the axes that Unsqueeze has put in, at least one,
-- gives the contiguous type of the shape that `ResolvedTensorDims::new` makes of the original
-- sizes: the original shape, or the scalar shape if the sizes sum up to 0.
pub unsqueeze-squeeze :
    (axes : List TensorIndex) (input t : ResolvedTensorType) (mode mode' : UnifyMode)
    → checks_strides mode ≡ false
    → checks_strides mode' ≡ false
    → 0 < length axes
    → unsqueeze axes input mode ≡ done t
    → squeeze (some axes) t mode' ≡ done (Types.new input.elem_type (Dims.new input.dims))
unfolding unsqueeze Types.new
unsqueeze-squeeze [] input t mode mode' m m' p h = absurd (omega arith)
unsqueeze-squeeze (a ∷ axes) input t mode mode' m m' p h =
    let rank = ndim input.dims + length (a ∷ axes) in
    let is = map (λ b. index b rank) (a ∷ axes) in
    let (flags, marked, h1) = >>=-eq-done (mark_all (replicate rank false) is) _ h in
    let (r, put, h2) = >>=-eq-done (inserted flags input.dims input.stride) _ h1 in
    let (u, empty, h3) = >>=-eq-done (check (is_empty r.1)) _ h2 in
    unsqueezed a axes input t mode mode' m m' flags r marked
      (Yields-eq (Inserts flags input.dims) (inserted flags input.dims input.stride)
        (inserted-Inserts flags input.dims input.stride) put)
      (check-done (is_empty r.1) empty) h3
