-- ===== src/Tensor/Reshape/Places.antt =====
-- Where `try_reshape` of src/tensor/types.rs puts the axes of a target.
use my_nn_engine.Prelude.{
  ℕ, ◌≡◌, refl, ap, sym, true, false, List, [], ◌∷◌, ◌++◌, some, ◌==◌, arith, Bool-cases, inl, inr,
  length, length-reverse, reverse,
}
use mathlib.Core.List.{reverse-cons}
use my_nn_engine.Tensor.Types.Views.{Strides}
use my_nn_engine.Tensor.Reshape.{Axes, drop_ones, axes_of, place_strides}
use my_nn_engine.Tensor.Reshape.Cuts.{sizes}
use my_nn_engine.Tensor.Reshape.Blocks.{zip_axes}

-- The strides are handed out: every axis gets one, and the axes other than 1 those given.
pub record Handed (target strides : List ℕ) : Type 0 where
  pub result : List ℕ
  pub runs : place_strides target strides ≡ some result
  pub zipped : axes_of target result ≡ zip_axes (drop_ones target) strides
  pub plain : Strides target result

Handed-one :
    (d : ℕ) (ds strides : List ℕ) → (d == 1) ≡ true → Handed ds strides → Handed (d ∷ ds) strides
unfolding place_strides
Handed-one d ds [] e h = record {
  result = 0 ∷ h.result;
  runs = rw (e, h.runs) refl;
  zipped = rw e h.zipped;
  plain = (λ _. refl, h.plain);
}
Handed-one d ds (s ∷ ss) e h = record {
  result = 0 ∷ h.result;
  runs = rw (e, h.runs) refl;
  zipped = rw e h.zipped;
  plain = (λ _. refl, h.plain);
}

Handed-other :
    (d s : ℕ) (ds strides : List ℕ)
    → (d == 1) ≡ false
    → Handed ds strides
    → Handed (d ∷ ds) (s ∷ strides)
unfolding place_strides
Handed-other d s ds strides e h = record {
  result = s ∷ h.result;
  runs = rw (e, h.runs) refl;
  zipped = rw (e, h.zipped) refl;
  plain = (λ one. ground arith, h.plain);
}

pub place_strides_sound :
    (target strides : List ℕ) → length strides ≡ length (drop_ones target) → Handed target strides
unfolding place_strides
place_strides_sound [] [] h = record { result = []; runs = refl; zipped = refl; plain = tt }
place_strides_sound [] (s ∷ ss) h = absurd (omega arith)
place_strides_sound (d ∷ ds) [] h = elim (Bool-cases (d == 1)) [
  | inl e ↦ Handed-one d ds [] e (place_strides_sound ds [] (rw e at h))
  | inr e ↦ absurd (let h' = rw e at h in omega arith)
]
place_strides_sound (d ∷ ds) (s ∷ ss) h = elim (Bool-cases (d == 1)) [
  | inl e ↦ Handed-one d ds (s ∷ ss) e (place_strides_sound ds (s ∷ ss) (rw e at h))
  | inr e ↦ Handed-other d s ds ss e (place_strides_sound ds ss (let h' = rw e at h in omega arith))
]

zip_axes-append :
    (a b : List ℕ) (x y : ℕ)
    → length a ≡ length b
    → zip_axes (a ++ x ∷ []) (b ++ y ∷ []) ≡ zip_axes a b ++ (x, y) ∷ []
zip_axes-append [] [] x y h = refl
zip_axes-append [] (b ∷ bs) x y h = absurd (omega arith)
zip_axes-append (a ∷ as') [] x y h = absurd (omega arith)
zip_axes-append (a ∷ as') (b ∷ bs) x y h =
    ap (λ l. (a, b) ∷ l) (zip_axes-append as' bs x y (omega arith))

pub reverse-zip_axes :
    (a b : List ℕ) → length a ≡ length b → reverse (zip_axes a b) ≡ zip_axes (reverse a) (reverse b)
reverse-zip_axes [] [] h = refl
reverse-zip_axes [] (b ∷ bs) h = absurd (omega arith)
reverse-zip_axes (a ∷ as') [] h = absurd (omega arith)
reverse-zip_axes (a ∷ as') (b ∷ bs) h =
    rw
      (
        reverse-cons (a, b) (zip_axes as' bs),
        reverse-cons a as',
        reverse-cons b bs,
        reverse-zip_axes as' bs (omega arith),
      )
      (sym (
        zip_axes-append (reverse as') (reverse bs) a b
          (omega (arith, length-reverse as', length-reverse bs))))

sizes-append : (a : Axes) (d s : ℕ) → sizes (a ++ (d, s) ∷ []) ≡ sizes a ++ d ∷ []
sizes-append [] d s = refl
sizes-append ((e, t) ∷ a) d s = ap (λ l. e ∷ l) (sizes-append a d s)

pub sizes-reverse-axes_of :
    (dims strides : List ℕ)
    → Strides dims strides
    → sizes (reverse (axes_of dims strides)) ≡ reverse (drop_ones dims)
sizes-reverse-axes_of [] [] h = refl
sizes-reverse-axes_of [] (s ∷ ss) h = absurd h
sizes-reverse-axes_of (d ∷ ds) [] h = absurd h
sizes-reverse-axes_of (d ∷ ds) (s ∷ ss) h = elim (Bool-cases (d == 1)) [
  | inl e ↦ rw e (sizes-reverse-axes_of ds ss h.1)
  | inr e ↦
      rw
        (
          e,
          reverse-cons (d, s) (axes_of ds ss),
          reverse-cons d (drop_ones ds),
          sizes-append (reverse (axes_of ds ss)) d s,
          sizes-reverse-axes_of ds ss h.1,
        )
        refl
]
