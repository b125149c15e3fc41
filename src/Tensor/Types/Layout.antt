-- ===== src/Tensor/Types/Layout.antt =====
-- What strides mean: the storage offset of an index, and the row-major position as the reference.
-- A new type stores its elements in row-major order.
use my_nn_engine.Prelude.{
  ℕ, suc, ◌+◌, ◌*◌, ◌<◌, ◌≡◌, refl, ap, ap₂, true, List, [], ◌∷◌, some, length, get_elem?, product,
  ◌==◌, arith, Bool-cases, inl, inr, ◌++◌, length-append,
}
use mathlib.Core.List.{append_assoc}
use native.Mathlib.Nat.{mul_comm}
use my_nn_engine.Tensor.Dims.{ResolvedTensorDims}
use my_nn_engine.Tensor.Types.{DataType, calc_stride_loop, new, is_contiguous_loop, is_contiguous}

-- The element at an index lies at the sum of index times stride.
abbrev pub offset : List ℕ → List ℕ → ℕ
offset [] is = 0
offset (s ∷ ss) [] = 0
offset (s ∷ ss) (i ∷ is) = i * s + offset ss is

-- One coordinate per axis, each below the size of its axis.
abbrev pub InBounds : ResolvedTensorDims → List ℕ → Type 0
InBounds [] [] = Unit
InBounds [] (i ∷ is) = ⊥
InBounds (d ∷ ds) [] = ⊥
InBounds (d ∷ ds) (i ∷ is) = (i < d) × InBounds ds is

-- The position of an index in row-major order.
abbrev pub ravel : ResolvedTensorDims → List ℕ → ℕ
ravel [] is = 0
ravel (d ∷ ds) [] = 0
ravel (d ∷ ds) (i ∷ is) = i * product ds + ravel ds is

pub calc_stride_loop_acc : (dims : List ℕ) → (calc_stride_loop dims).1 ≡ product dims
unfolding calc_stride_loop
calc_stride_loop_acc [] = refl
calc_stride_loop_acc (d ∷ ds) = rw (calc_stride_loop_acc ds) (mul_comm (product ds) d)

offset-calc_stride_loop :
    (dims is : List ℕ) → InBounds dims is → offset (calc_stride_loop dims).0 is ≡ ravel dims is
unfolding calc_stride_loop
offset-calc_stride_loop [] [] h = refl
offset-calc_stride_loop [] (i ∷ is) h = absurd h
offset-calc_stride_loop (d ∷ ds) [] h = absurd h
offset-calc_stride_loop (d ∷ ds) (i ∷ is) h = elim (Bool-cases (d == 1)) [
  | inl e ↦
      let z : i ≡ 0 = ground arith in rw (e, z) (omega (arith, offset-calc_stride_loop ds is h.1))
  | inr e ↦ rw (e, offset-calc_stride_loop ds is h.1, calc_stride_loop_acc ds) refl
]

pub ravel-lt-product : (dims is : List ℕ) → InBounds dims is → ravel dims is < product dims
ravel-lt-product [] [] h = omega arith
ravel-lt-product [] (i ∷ is) h = absurd h
ravel-lt-product (d ∷ ds) [] h = absurd h
ravel-lt-product (d ∷ ds) (i ∷ is) h = grind (arith, ravel-lt-product ds is h.1)

digits_lt : (p i j a b : ℕ) → a < p → i < j → i * p + a < j * p + b
digits_lt p i j a b h k = grind arith

digits_eq : (p i j a b : ℕ) → a < p → b < p → i * p + a ≡ j * p + b → (i ≡ j) × (a ≡ b)
digits_eq p i j a b h k e =
    let same : i ≡ j = ground (arith, digits_lt p i j a b, digits_lt p j i b a) in
    (same, omega (arith, ap (λ (t : ℕ). t * p) same))

pub ravel-injective :
    (dims is js : List ℕ)
    → InBounds dims is
    → InBounds dims js
    → ravel dims is ≡ ravel dims js
    → is ≡ js
ravel-injective [] [] [] h k e = refl
ravel-injective [] [] (j ∷ js) h k e = absurd k
ravel-injective [] (i ∷ is) js h k e = absurd h
ravel-injective (d ∷ ds) [] js h k e = absurd h
ravel-injective (d ∷ ds) (i ∷ is) [] h k e = absurd k
ravel-injective (d ∷ ds) (i ∷ is) (j ∷ js) h k e =
    let parts =
      digits_eq (product ds) i j (ravel ds is) (ravel ds js) (ravel-lt-product ds is h.1)
        (ravel-lt-product ds js k.1) e in
    ap₂ (λ a as'. a ∷ as') parts.0 (ravel-injective ds is js h.1 k.1 parts.1)

pub get_elem?-append_here :
    (done : List ℕ) (d : ℕ) (ds : List ℕ) → get_elem? (done ++ d ∷ ds) (length done) ≡ some d
get_elem?-append_here [] d ds = refl
get_elem?-append_here (x ∷ done) d ds = get_elem?-append_here done d ds

is_contiguous_loop-new :
    (done dims : List ℕ) (n : ℕ)
    → length done ≡ n
    → is_contiguous_loop (done ++ dims) n (calc_stride_loop dims).0
      ≡ some (true, (calc_stride_loop dims).1)
unfolding is_contiguous_loop calc_stride_loop
is_contiguous_loop-new done [] n l = refl
is_contiguous_loop-new done (d ∷ ds) n l =
    let ih =
      is_contiguous_loop-new (done ++ d ∷ []) ds (suc n)
        (omega (arith, length-append done (d ∷ []))) in
    let here : get_elem? (done ++ d ∷ ds) n ≡ some d = rw (← l) (get_elem?-append_here done d ds) in
    let rest = rw (append_assoc done (d ∷ []) ds) at ih in ground (arith, rest, here)

-- The type made from a shape alone is contiguous, and the test of that does not panic.
is_contiguous-new :
    (e : DataType) (dims : ResolvedTensorDims) → is_contiguous (new e dims) ≡ some true
unfolding is_contiguous new
is_contiguous-new e dims = rw (is_contiguous_loop-new [] dims 0 refl)

-- In a new type, every index within the shape is stored at its row-major position, which is below
-- the number of elements, and two indices within the shape never share a position.
pub new_row_major :
    (e : DataType) (dims is js : ResolvedTensorDims)
    → InBounds dims is
    → InBounds dims js
    → (offset (new e dims).stride is ≡ ravel dims is)
      × (ravel dims is < product dims)
      × (offset (new e dims).stride is ≡ offset (new e dims).stride js → is ≡ js)
unfolding new
new_row_major e dims is js h k =
    let at_is = offset-calc_stride_loop dims is h in
    let at_js = offset-calc_stride_loop dims js k in
    (
      at_is,
      ravel-lt-product dims is h,
      λ same. ravel-injective dims is js h k (rw (at_is, at_js) at same),
    )
