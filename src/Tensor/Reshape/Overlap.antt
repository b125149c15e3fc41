-- ===== src/Tensor/Reshape/Overlap.antt =====
-- `try_reshape` on shapes where it multiplies two target sizes together before it has gathered the
-- axes of the original.
use my_nn_engine.Prelude.{
  ℕ, ◌*◌, ◌%◌, ◌/◌, ◌<◌, ◌≤◌, ◌≡◌, ◌≢◌, refl, ap, ◌∙◌, [], ◌∷◌, some, true, false, ◌==◌, arith,
  if◌then◌else◌,
}
use native.Mathlib.Nat.{mul-one, div_self}
use my_nn_engine.Tensor.Types.{DataType, ResolvedTensorType, new}
use my_nn_engine.Tensor.Types.Layout.{offset}
use my_nn_engine.Tensor.Reshape.{match_loop, reshape_loop, try_reshape}
use my_nn_engine.Tensor.Reshape.Cuts.{match_broke, match_joined}

same_stride {ℓ} : {A : Type ℓ} (s : ℕ) (a b : A) → (if s == s then a else b) ≡ a
same_stride s a b = ground arith

widen_step :
    (q t r p s : ℕ)
    → 0 < t
    → t < q
    → q % t ≢ 0
    → match_loop 1 q t q 1 (r ∷ []) ((p, s) ∷ []) (1 ∷ [])
      ≡ match_loop 1 q (t * r) q 1 [] ((p, s) ∷ []) (1 ∷ 1 ∷ [])
unfolding match_loop
widen_step q t r p s h k m = ground arith

matched :
    (p q r t : ℕ)
    → 2 ≤ p
    → 2 ≤ t
    → t < q
    → q % t ≢ 0
    → r * t ≡ p * q
    → match_loop 1 q t q 1 (r ∷ []) ((p, 1 * q) ∷ []) (1 ∷ [])
      ≡ some (
          some
            (record { cur = t * r; target = t * r; targets = []; axes = []; strides = 1 ∷ 1 ∷ [] }))
matched p q r t hp ht k m e =
    let wide : 2 * q ≤ p * q = grind arith in
    let grows : q < t * r = omega arith in
    let block : q * p ≡ t * r * 1 = omega arith in
    let positive : 0 < t * r = omega arith in
    widen_step q t r p (1 * q) (omega arith) k m
    ∙ match_joined 1 q (t * r) q 1 [] p (1 * q) [] (1 ∷ 1 ∷ []) (omega arith) grows
    ∙ same_stride (1 * q) _ _
    ∙ ap (λ x. match_loop 1 x (t * r) p (1 * q) [] [] (1 ∷ 1 ∷ [])) block
    ∙ match_broke 1 (t * r) 1 p (1 * q) [] [] (1 ∷ 1 ∷ []) positive
    ∙ ap
        (λ x. some (
          some (record { cur = x; target = t * r; targets = []; axes = []; strides = 1 ∷ 1 ∷ [] })))
        (mul-one (t * r))

loop_overlaps :
    (p q r t : ℕ)
    → 2 ≤ p
    → 2 ≤ t
    → t < q
    → q % t ≢ 0
    → r * t ≡ p * q
    → reshape_loop 2 (t ∷ r ∷ []) ((q, 1) ∷ (p, 1 * q) ∷ []) [] ≡ some (some ([], 1 ∷ 1 ∷ []))
unfolding reshape_loop
loop_overlaps p q r t hp ht k m e =
    let wide : 2 * q ≤ p * q = grind arith in
    let whole : t * r / (t * r) ≡ 1 = div_self (omega arith) in
    rw (matched p q r t hp ht k m e, whole) refl

-- For sizes with 2 ≤ p, 2 ≤ r, 2 ≤ t, t < q, t not dividing q, and r * t = p * q, reshaping a new
-- type of p rows of q to r rows of t gives a view in which the elements at (1, 0) and (0, 1)
-- share a place.
pub reshape_overlaps :
    (e : DataType) (p q r t : ℕ)
    → 2 ≤ p
    → 2 ≤ r
    → 2 ≤ t
    → t < q
    → q % t ≢ 0
    → r * t ≡ p * q
    → (view : ResolvedTensorType) × (try_reshape (new e (p ∷ q ∷ [])) (r ∷ t ∷ [])
        ≡ some (some view))
      × (offset view.stride (1 ∷ 0 ∷ []) ≡ offset view.stride (0 ∷ 1 ∷ []))
unfolding try_reshape
reshape_overlaps e p q r t hp hr ht k m same =
    let view : ResolvedTensorType = record {
      elem_type = e;
      dims = r ∷ t ∷ [];
      stride = 1 ∷ 1 ∷ [];
    } in
    let p_other : (p == 1) ≡ false = ground arith in
    let q_other : (q == 1) ≡ false = ground arith in
    let r_other : (r == 1) ≡ false = ground arith in
    let t_other : (t == 1) ≡ false = ground arith in
    let wide : 2 * q ≤ p * q = grind arith in
    let no_scalar : (p * (q * 1) == 1) ≡ false = ground arith in
    let same_size : (p * (q * 1) == r * (t * 1)) ≡ true = ground arith in
    (
      view,
      rw
          (
            no_scalar,
            same_size,
            p_other,
            q_other,
            r_other,
            t_other,
            loop_overlaps p q r t hp ht k m same,
            r_other,
            t_other,
          )
          refl,
      refl,
    )
