-- ===== src/Tensor/Types/Contiguous.antt =====
-- What the test `is_contiguous` of src/tensor/types.rs says of the strides.
use my_nn_engine.Prelude.{
  ℕ, suc, ◌*◌, ◌≡◌, ◌↔◌, ◌⊎◌, refl, inl, inr, Bool, true, false, ◌||◌, List, [], ◌∷◌, ◌++◌, Option,
  some, length, get_elem?, product, ◌==◌, arith, Bool-cases, length-append,
}
use mathlib.Core.List.{append_assoc}
use native.Mathlib.Nat.{mul_comm}
use my_nn_engine.Tensor.Dims.{ResolvedTensorDims}
use my_nn_engine.Tensor.Types.{ResolvedTensorType, is_contiguous_loop, is_contiguous}
use my_nn_engine.Tensor.Types.Layout.{offset, InBounds, ravel, get_elem?-append_here}

-- Every stride is 0 or the number of elements after the axis.
abbrev pub IsRowMajor : ResolvedTensorDims → List ℕ → Type 0
IsRowMajor [] [] = Unit
IsRowMajor [] (_ ∷ _) = ⊥
IsRowMajor (_ ∷ _) [] = ⊥
IsRowMajor (d ∷ ds) (s ∷ ss) = ((s ≡ 0) ⊎ (s ≡ product ds)) × IsRowMajor ds ss

-- No axis of more than one element has the stride 0.
abbrev pub NoneRepeated : ResolvedTensorDims → List ℕ → Type 0
NoneRepeated (d ∷ ds) (s ∷ ss) = (s ≡ 0 → d ≡ 1) × NoneRepeated ds ss
NoneRepeated _ _ = Unit

IsRowMajor-offset :
    (dims stride is : List ℕ)
    → IsRowMajor dims stride
    → NoneRepeated dims stride
    → InBounds dims is
    → offset stride is ≡ ravel dims is
IsRowMajor-offset [] [] is r o h = refl
IsRowMajor-offset [] (s ∷ ss) is r o h = absurd r
IsRowMajor-offset (d ∷ ds) [] is r o h = absurd r
IsRowMajor-offset (d ∷ ds) (s ∷ ss) [] r o h = absurd h
IsRowMajor-offset (d ∷ ds) (s ∷ ss) (i ∷ is) r o h =
    let rest = IsRowMajor-offset ds ss is r.1 o.1 h.1 in
    elim r.0 [
      | inl z ↦
          let one = o.0 z in
          let first : i ≡ 0 = omega (arith, h.0) in rw (z, first) (omega (arith, rest))
      | inr p ↦ rw (p, rest) refl
    ]

-- What the loop returns: whether the strides are so, and then the number of elements.
record Tested (dims stride : List ℕ) (o : Option (Bool × ℕ)) : Type 0 where
  answer : Bool
  acc : ℕ
  returned : o ≡ some (answer, acc)
  says : (answer ≡ true) ↔ IsRowMajor dims stride
  total : answer ≡ true → acc ≡ product dims

is_contiguous_loop-Tested :
    (done dims stride : List ℕ) (n : ℕ)
    → length done ≡ n
    → length dims ≡ length stride
    → Tested dims stride (is_contiguous_loop (done ++ dims) n stride)
unfolding is_contiguous_loop
is_contiguous_loop-Tested done [] [] n l e = record {
  answer = true;
  acc = 1;
  returned = refl;
  says = (λ h. tt, λ h. refl);
  total = λ h. refl;
}
is_contiguous_loop-Tested done [] (s ∷ ss) n l e = absurd (omega (arith, e))
is_contiguous_loop-Tested done (d ∷ ds) [] n l e = absurd (omega (arith, e))
is_contiguous_loop-Tested done (d ∷ ds) (s ∷ ss) n l e =
    let ih =
      is_contiguous_loop-Tested (done ++ d ∷ []) ds ss (suc n)
        (omega (arith, length-append done (d ∷ []))) (omega (arith, e)) in
    let rest = rw (append_assoc done (d ∷ []) ds) at ih.returned in
    let here : get_elem? (done ++ d ∷ ds) n ≡ some d = rw (← l) (get_elem?-append_here done d ds) in
    elim (Bool-cases ih.answer) [
      | inr bad ↦ record {
        answer = false;
        acc = ih.acc;
        returned = rw (rest, bad) refl;
        says = (λ h. cc, λ r. let good = ih.says.1 r.1 in cc);
        total = λ h. cc;
      }
      | inl good ↦
          let sum = ih.total good in
          elim (Bool-cases (s == 0 || s == ih.acc)) [
            | inl x ↦ record {
              answer = true;
              acc = ih.acc * d;
              returned = rw (rest, good, x, here) refl;
              says = (λ h. (ground arith, ih.says.0 good), λ r. refl);
              total = λ h. rw (sum) (mul_comm (product ds) d);
            }
            | inr x ↦ record {
              answer = false;
              acc = ih.acc;
              returned = rw (rest, good, x) refl;
              says = (λ h. cc, λ r. elim r.0 [ inl z ↦ ground arith | inr p ↦ ground arith ]);
              total = λ h. cc;
            }
          ]
    ]

-- For a type with one stride per size, `is_contiguous` returns without a panic, and true exactly
-- if every stride is 0 or the product of the sizes after its axis. If it is true, and no axis of
-- a size other than 1 has the stride 0, every index within the shape is stored at its row-major
-- position.
pub is_contiguous_iff :
    (ty : ResolvedTensorType)
    → length ty.dims ≡ length ty.stride
    → (answer : Bool) × (is_contiguous ty ≡ some answer)
      × ((answer ≡ true) ↔ IsRowMajor ty.dims ty.stride)
      × (answer ≡ true
          → NoneRepeated ty.dims ty.stride
          → (is : List ℕ) → InBounds ty.dims is
          → offset ty.stride is ≡ ravel ty.dims is)
unfolding is_contiguous
is_contiguous_iff ty e =
    let t = is_contiguous_loop-Tested [] ty.dims ty.stride 0 refl e in
    (
      t.answer,
      rw (t.returned) refl,
      t.says,
      λ good o is h. IsRowMajor-offset ty.dims ty.stride is (t.says.0 good) o h,
    )
