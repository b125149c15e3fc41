-- ===== src/Tensor/Reshape/Cuts.antt =====
-- When a target shape can be cut out of the original axes, and the inner loop on such axes.
use my_nn_engine.Prelude.{
  ℕ, zero, suc, ◌*◌, ◌<◌, ◌≡◌, refl, ◌∙◌, List, [], ◌∷◌, Option, none, some, ◌==◌, if◌then◌else◌,
  arith, Bool-cases, ◌⊎◌, inl, inr, subst,
}
use native.Mathlib.Nat.{mul_comm, mul-mod_right, mod-eq_of_lt}
use my_nn_engine.Tensor.Reshape.{Axes, Match, match_loop}
use my_nn_engine.Tensor.Reshape.Address.{address, address_split}

abbrev pub sizes : Axes → List ℕ
sizes [] = []
sizes ((d, s) ∷ axes) = d ∷ sizes axes

-- What is left of an axis after a cut: nothing, if it is used up.
abbrev pub left : ℕ → List ℕ → List ℕ
left q ds = if q == 1 then ds else q ∷ ds

-- The sizes `ts` are cut from the axes `ds`, both innermost first: a size is split off an axis
-- that it divides, and a smaller axis is first joined with the next one.
pub data Cuts : List ℕ → List ℕ → Type 0 where
  done : Cuts [] []
  split :
      {ts ds : List ℕ} (t q d : ℕ)
      → 0 < t
      → 0 < q
      → d ≡ t * q
      → Cuts ts (left q ds)
      → Cuts (t ∷ ts) (d ∷ ds)
  join :
      {ts ds : List ℕ} (t d d' : ℕ)
      → 0 < d
      → d < t
      → Cuts (t ∷ ts) (d * d' ∷ ds)
      → Cuts (t ∷ ts) (d ∷ d' ∷ ds)

-- Each stride is the extent of what lies inside it, starting at `n`.
abbrev pub Chained : ℕ → Axes → Type 0
Chained n [] = Unit
Chained n ((d, s) ∷ axes) = (s ≡ n) × Chained (n * d) axes

-- The outcome of the inner loop: it gives up on axes that are not chained, or it has found a block
-- of `t * q` places with the same addresses.
pub record Found (stride t : ℕ) (ts : List ℕ) (old : Axes) (strides : List ℕ)
    (o : Option (Option Match)) : Type 0 where
  pub q : ℕ
  pub rest : Axes
  pub t_pos : 0 < t
  pub q_pos : 0 < q
  pub result :
      o
      ≡ some
          (some (record { cur = t * q; target = t; targets = ts; axes = rest; strides = strides }))
  pub cuts : Cuts ts (left q (sizes rest))
  pub same : (k : ℕ) → address ((t * q, stride) ∷ rest) k ≡ address old k
  pub chained : Chained stride old → Chained stride ((t * q, stride) ∷ rest)

abbrev pub Outcome : ℕ → ℕ → List ℕ → Axes → List ℕ → Option (Option Match) → Type 0
Outcome stride t ts old strides o =
    ((o ≡ some none) × (Chained stride old → ⊥)) ⊎ Found stride t ts old strides o

pub match_broke :
    (stride t q ld ls : ℕ) (ts : List ℕ) (axes : Axes) (strides : List ℕ)
    → 0 < t
    → match_loop stride (t * q) t ld ls ts axes strides
      ≡ some
          (some (record { cur = t * q; target = t; targets = ts; axes = axes; strides = strides }))
unfolding match_loop
match_broke stride t q ld ls [] [] strides h = ground (arith, mul-mod_right t q)
match_broke stride t q ld ls [] ((d, s) ∷ axes) strides h = ground (arith, mul-mod_right t q)
match_broke stride t q ld ls (t' ∷ ts) [] strides h = ground (arith, mul-mod_right t q)
match_broke stride t q ld ls (t' ∷ ts) ((d, s) ∷ axes) strides h = ground (arith, mul-mod_right t q)

pub match_joined :
    (stride cur t ld ls : ℕ) (ts : List ℕ) (d s : ℕ) (axes : Axes) (strides : List ℕ)
    → 0 < cur
    → cur < t
    → match_loop stride cur t ld ls ts ((d, s) ∷ axes) strides
      ≡ (if ls * ld == s then match_loop stride (cur * d) t d s ts axes strides else some none)
unfolding match_loop
match_joined stride cur t ld ls [] d s axes strides h k = ground (arith, mod-eq_of_lt k)
match_joined stride cur t ld ls (t' ∷ ts) d s axes strides h k = ground (arith, mod-eq_of_lt k)

right_pos : (a b : ℕ) → 0 < a * b → 0 < b
right_pos a zero h = absurd (omega arith)
right_pos a (suc b) h = omega arith

Cuts-pos : {t d : ℕ} {ts ds : List ℕ} → Cuts (t ∷ ts) (d ∷ ds) → 0 < d
Cuts-pos (split t q d h h' e c) = grind arith
Cuts-pos (join t d d' h k c) = h

-- Joining two axes whose strides fit keeps every address.
address_join :
    (d d' stride s : ℕ) (axes : Axes) (k : ℕ)
    → 0 < d
    → 0 < d'
    → s ≡ stride * d
    → address ((d * d', stride) ∷ axes) k ≡ address ((d, stride) ∷ (d', s) ∷ axes) k
address_join d d' stride s axes k h h' e =
    rw (e, mul_comm stride d) (address_split d d' stride axes k h h')

-- An outcome for joined axes is one for the axes themselves.
widen :
    (stride t : ℕ) (ts : List ℕ) (old joined : Axes) (strides : List ℕ) (o : Option (Option Match))
    → ((k : ℕ) → address joined k ≡ address old k)
    → (Chained stride old → Chained stride joined)
    → Outcome stride t ts joined strides o
    → Outcome stride t ts old strides o
widen stride t ts old joined strides o same ch (inl (e, no_chain)) = inl (e, λ h. no_chain (ch h))
widen stride t ts old joined strides o same ch (inr f) = inr (record {
  q = f.q;
  rest = f.rest;
  t_pos = f.t_pos;
  q_pos = f.q_pos;
  result = f.result;
  cuts = f.cuts;
  same = λ k. f.same k ∙ same k;
  chained = λ h. f.chained (ch h);
})

-- The inner loop on axes from which the target can be cut.
pub match_loop_sound :
    (stride ls ld : ℕ) {t cur : ℕ} {ts ds : List ℕ} (axes : Axes) (strides : List ℕ)
    → Cuts (t ∷ ts) (cur ∷ ds)
    → ds ≡ sizes axes
    → ls * ld ≡ stride * cur
    → Outcome stride t ts
        ((cur, stride) ∷ axes)
        strides
        (match_loop stride cur t ld ls ts axes strides)
match_loop_sound stride ls ld {ts = ts} axes strides (split t q d h h' e c) e' fit = rw e (
    inr (record {
      q = q;
      rest = axes;
      t_pos = h;
      q_pos = h';
      result = match_broke stride t q ld ls ts axes strides h;
      cuts = rw e' at c;
      same = λ k. refl;
      chained = λ ch. ch;
    }))
match_loop_sound stride ls ld [] strides (join t d d' h k c) e' fit = cc
match_loop_sound stride ls ld {ts = ts} ((x, s) ∷ axes) strides (join t d d' h k c) e' fit =
    let same_d : d' ≡ x = cc in
    let x_pos : 0 < x = rw (← same_d) (right_pos d d' (Cuts-pos c)) in
    rw (match_joined stride d t ld ls ts x s axes strides h k) (elim (Bool-cases (ls * ld == s)) [
      | inl e ↦
          let s_eq : s ≡ stride * d = ground arith in
          let fit' : s * d' ≡ stride * (d * d') = rw s_eq (omega arith) in
          rw e (
            widen stride t ts ((d, stride) ∷ (x, s) ∷ axes) ((d * x, stride) ∷ axes) strides
              (match_loop stride (d * x) t x s ts axes strides)
              (λ k'. address_join d x stride s axes k' h x_pos s_eq)
              (λ ch. (refl, subst (λ n. Chained n axes) (omega arith) ch.1.1))
              (rw same_d at (match_loop_sound stride s d' axes strides c (cc) fit')))
      | inr e ↦ rw e (inl (refl, λ ch. ground arith))
    ])
