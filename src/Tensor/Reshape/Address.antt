-- ===== src/Tensor/Reshape/Address.antt =====
-- The storage offset of a row-major position, over the axes from the innermost outwards.
use my_nn_engine.Prelude.{
  ℕ, zero, suc, ◌+◌, ◌*◌, ◌/◌, ◌%◌, ◌<◌, ◌≡◌, refl, ap, List, [], ◌∷◌, ◌++◌, reverse, product, ◌==◌,
  arith, mod-mul, div_mod_of_digits, Bool-cases, inl, inr,
}
use mathlib.Core.List.{reverse-cons}
use native.Mathlib.Nat.{
  div-div-eq-div-mul, mod-one, div-one, mod-eq_of_lt, zero-mul, zero-add, mul-add-mod_self_left,
  mul-add-div,
}
use my_nn_engine.Tensor.Types.Layout.{offset, InBounds, ravel, ravel-lt-product}
use my_nn_engine.Tensor.Types.Views.{Strides}
use my_nn_engine.Tensor.Reshape.{Axes, axes_of}

abbrev pub address : Axes → ℕ → ℕ
address [] k = 0
address ((d, s) ∷ axes) k = k % d * s + address axes (k / d)

-- An axis of `t * q` places is an axis of `t` inside one of `q`.
pub address_split :
    (t q s : ℕ) (axes : Axes) (k : ℕ)
    → 0 < t
    → 0 < q
    → address ((t * q, s) ∷ axes) k ≡ address ((t, s) ∷ (q, t * s) ∷ axes) k
address_split t q s axes k h h' = rw (mod-mul k t q h h', ← div-div-eq-div-mul k t q) (omega arith)

pub address_one : (s : ℕ) (axes : Axes) (k : ℕ) → address ((1, s) ∷ axes) k ≡ address axes k
address_one s axes k = rw (mod-one, div-one) (omega arith)

-- The number of positions of some axes.
abbrev pub extent : Axes → ℕ
extent [] = 1
extent ((d, s) ∷ axes) = d * extent axes

address-append :
    (axes : Axes) (d s k : ℕ)
    → address (axes ++ (d, s) ∷ []) k ≡ address axes k + k / extent axes % d * s
address-append [] d s k = rw div-one (omega arith)
address-append ((e, t) ∷ axes) d s k =
    rw (address-append axes d s (k / e), div-div-eq-div-mul k e (extent axes)) (omega arith)

-- Whole turns through the axes do not move the address.
address_period : (axes : Axes) (m r : ℕ) → address axes (m * extent axes + r) ≡ address axes r
address_period [] m r = refl
address_period ((zero, s) ∷ axes) m r = ap (address ((0, s) ∷ axes)) (omega arith)
address_period ((suc d, s) ∷ axes) m r =
    let n = suc d in
    let regroup : m * (n * extent axes) + r ≡ n * (m * extent axes) + r = omega arith in
    rw
      (
        regroup,
        mul-add-mod_self_left n (m * extent axes) r,
        mul-add-div {m = n} (omega arith) (m * extent axes) r,
      )
      (ap (λ (x : ℕ). r % n * s + x) (address_period axes m (r / n)))

extent-append : (axes : Axes) (d s : ℕ) → extent (axes ++ (d, s) ∷ []) ≡ extent axes * d
extent-append [] d s = omega arith
extent-append ((e, t) ∷ axes) d s = rw (extent-append axes d s) (omega arith)

pub extent-axes_of :
    (dims strides : List ℕ)
    → Strides dims strides
    → extent (reverse (axes_of dims strides)) ≡ product dims
extent-axes_of [] [] h = refl
extent-axes_of [] (s ∷ ss) h = absurd h
extent-axes_of (d ∷ ds) [] h = absurd h
extent-axes_of (d ∷ ds) (s ∷ ss) h = elim (Bool-cases (d == 1)) [
  | inl e ↦ let one : d ≡ 1 = ground arith in rw (e, extent-axes_of ds ss h.1, one) (omega arith)
  | inr e ↦
      rw
        (
          e,
          reverse-cons (d, s) (axes_of ds ss),
          extent-append (reverse (axes_of ds ss)) d s,
          extent-axes_of ds ss h.1,
        )
        (omega arith)
]

-- The address of a row-major position is the storage offset of its index.
pub address-ravel :
    (dims strides is : List ℕ)
    → Strides dims strides
    → InBounds dims is
    → address (reverse (axes_of dims strides)) (ravel dims is) ≡ offset strides is
address-ravel [] [] is h b = refl
address-ravel [] (s ∷ ss) is h b = absurd h
address-ravel (d ∷ ds) [] is h b = absurd h
address-ravel (d ∷ ds) (s ∷ ss) [] h b = absurd b
address-ravel (d ∷ ds) (s ∷ ss) (i ∷ is) h b = elim (Bool-cases (d == 1)) [
  | inl e ↦
      let z : i ≡ 0 = ground arith in
      rw (e, z, zero-mul, zero-add, address-ravel ds ss is h.1 b.1) (omega arith)
  | inr e ↦
      let axes = reverse (axes_of ds ss) in
      let r = ravel ds is in
      let size : extent axes ≡ product ds = extent-axes_of ds ss h.1 in
      let turn : address axes (i * product ds + r) ≡ address axes r =
        rw size at (address_period axes i r) in
      let top = (div_mod_of_digits (product ds) i r (ravel-lt-product ds is b.1)).0 in
      rw
        (
          e,
          reverse-cons (d, s) (axes_of ds ss),
          address-append axes d s (i * product ds + r),
          size,
          turn,
          top,
          mod-eq_of_lt b.0,
          address-ravel ds ss is h.1 b.1,
        )
        (omega arith)
]
