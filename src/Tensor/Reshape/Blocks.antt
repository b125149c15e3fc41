-- ===== src/Tensor/Reshape/Blocks.antt =====
-- The outer loop on axes from which the whole target can be cut.
use my_nn_engine.Prelude.{
  ℕ, zero, suc, ◌+◌, ◌*◌, ◌/◌, ◌%◌, ◌<◌, ◌≤◌, ◌≡◌, ◌≢◌, refl, ap, sym, ◌∙◌, List, [], ◌∷◌, ◌++◌,
  Option, none, some, ◌==◌, arith, Bool-cases, ◌⊎◌, inl, inr, length, reverse, subst,
}
use mathlib.Core.List.{reverse-cons, append_assoc}
use native.Mathlib.Nat.{mod-one, div-one, div-eq_of_eq-mul_right}
use my_nn_engine.Tensor.Reshape.{Axes, match_loop, reshape_loop, push_rest}
use my_nn_engine.Tensor.Reshape.Address.{address, address_split}
use my_nn_engine.Tensor.Reshape.Cuts.{
  Cuts, done, split, join, sizes, left, Chained, Outcome, match_loop_sound,
}

abbrev pub zip_axes : List ℕ → List ℕ → Axes
zip_axes [] ss = []
zip_axes (t ∷ ts) [] = []
zip_axes (t ∷ ts) (s ∷ ss) = (t, s) ∷ zip_axes ts ss

-- The outer loop uses up every axis, and adds one stride for each target size, so that the target
-- has the addresses of the axes.
pub record Placed (ts : List ℕ) (axes : Axes) (strides : List ℕ)
    (o : Option (Option (Axes × List ℕ))) : Type 0 where
  pub news : List ℕ
  pub same_length : length news ≡ length ts
  pub result : o ≡ some (some ([], reverse news ++ strides))
  pub same : (k : ℕ) → address (zip_axes ts news) k ≡ address axes k

abbrev pub Result : ℕ → List ℕ → Axes → List ℕ → Option (Option (Axes × List ℕ)) → Type 0
Result n ts axes strides o = ((o ≡ some none) × (Chained n axes → ⊥)) ⊎ Placed ts axes strides o

quotient : (t q : ℕ) → 0 < t → t * q / t ≡ q
quotient t q h = div-eq_of_eq-mul_right h refl

sizes-push_rest :
    (t q s : ℕ) (rest : Axes) → 0 < t → left q (sizes rest) ≡ sizes (push_rest (t * q) t s rest)
sizes-push_rest t q s rest h = rw (quotient t q h) (ground arith)

address-push_rest :
    (t q s : ℕ) (rest : Axes) (k : ℕ)
    → 0 < t
    → 0 < q
    → k % t * s + address (push_rest (t * q) t s rest) (k / t) ≡ address ((t * q, s) ∷ rest) k
address-push_rest t q s rest k h h' =
    rw (quotient t q h, address_split t q s rest k h h')
      (elim (Bool-cases (q == 1)) [
        | inl e ↦ let one : q ≡ 1 = ground arith in rw (e, one, mod-one, div-one) (omega arith)
        | inr e ↦ rw e refl
      ])

Chained-push_rest :
    (t q s : ℕ) (rest : Axes)
    → 0 < t
    → Chained (s * (t * q)) rest
    → Chained (t * s) (push_rest (t * q) t s rest)
Chained-push_rest t q s rest h ch = rw (quotient t q h) (elim (Bool-cases (q == 1)) [
  | inl e ↦
      let one : q ≡ 1 = ground arith in rw e (subst (λ n. Chained n rest) (rw one (omega arith)) ch)
  | inr e ↦ rw e (refl, subst (λ n. Chained n rest) (omega arith) ch)
])

-- One round: what the rest of the loop does extends to the block in front.
round :
    (n d s t fuel : ℕ) (ts : List ℕ) (axes : Axes) (strides : List ℕ)
    → Outcome s t ts ((d, s) ∷ axes) (s ∷ strides) (match_loop s d t d s ts axes (s ∷ strides))
    → ((q : ℕ) (rest : Axes)
        → Cuts ts (left q (sizes rest))
        → 0 < t
        → Result
            (t * s)
            ts
            (push_rest (t * q) t s rest)
            (s ∷ strides)
            (reshape_loop fuel ts (push_rest (t * q) t s rest) (s ∷ strides)))
    → Result n
        (t ∷ ts)
        ((d, s) ∷ axes)
        strides
        (reshape_loop (suc fuel) (t ∷ ts) ((d, s) ∷ axes) strides)
unfolding reshape_loop
round n d s t fuel ts axes strides (inl (e, no_chain)) next =
    rw e (inl (refl, λ ch. no_chain (refl, subst (λ m. Chained (m * d) axes) (sym ch.0) ch.1)))
round n d s t fuel ts axes strides (inr f) next =
    rw f.result (elim (next f.q f.rest f.cuts f.t_pos) [
      | inl (e, no_chain) ↦ rw e (
          inl (
            refl,
            λ ch. no_chain (
                Chained-push_rest t f.q s f.rest f.t_pos
                  (f.chained (refl, subst (λ m. Chained (m * d) axes) (sym ch.0) ch.1)).1),
          ))
      | inr p ↦ inr (record {
        news = s ∷ p.news;
        same_length = ap suc p.same_length;
        result =
            p.result
            ∙ ap (λ x. some (some ([], x)))
                (sym (
                  ap (λ x. x ++ strides) (reverse-cons s p.news)
                  ∙ append_assoc (reverse p.news) (s ∷ []) strides));
        same = λ k.
            ap (λ x. k % t * s + x) (p.same (k / t))
            ∙ address-push_rest t f.q s f.rest k f.t_pos f.q_pos
            ∙ f.same k;
      })
    ])

Cuts-nil_right : {t : ℕ} {ts ds : List ℕ} → Cuts (t ∷ ts) ds → ds ≢ []
Cuts-nil_right (split t q d h h' e c) = cc
Cuts-nil_right (join t d d' h k c) = cc

Cuts-nil_left : {ts ds : List ℕ} → Cuts ts ds → ts ≡ [] → ds ≡ []
Cuts-nil_left done e = refl
Cuts-nil_left (split t q d h h' e' c) e = cc
Cuts-nil_left (join t d d' h k c) e = cc

-- A target that can be cut from the axes is found, or the axes are not chained.
pub reshape_loop_sound :
    (fuel n : ℕ) (ts : List ℕ) (axes : Axes) (strides : List ℕ)
    → Cuts ts (sizes axes)
    → length ts ≤ fuel
    → Result n ts axes strides (reshape_loop fuel ts axes strides)
unfolding reshape_loop
reshape_loop_sound fuel n [] [] strides c h =
    inr (record { news = []; same_length = refl; result = refl; same = λ k. refl })
reshape_loop_sound fuel n [] ((d, s) ∷ axes) strides c h = cc (Cuts-nil_left c refl)
reshape_loop_sound zero n (t ∷ ts) axes strides c h = absurd (omega arith)
reshape_loop_sound (suc fuel) n (t ∷ ts) [] strides c h = absurd (Cuts-nil_right c refl)
reshape_loop_sound (suc fuel) n (t ∷ ts) ((d, s) ∷ axes) strides c h =
    round n d s t fuel ts axes strides (match_loop_sound s s d axes (s ∷ strides) c refl refl)
      (λ q rest c' t_pos.
        reshape_loop_sound fuel (t * s) ts (push_rest (t * q) t s rest) (s ∷ strides)
          (subst (Cuts ts) (sizes-push_rest t q s rest t_pos) c') (omega arith))
