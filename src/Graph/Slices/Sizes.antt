-- ===== src/Graph/Slices/Sizes.antt =====
-- The sizes that `Slice` of src/graph/operator.rs gives.
use my_nn_engine.Prelude.{
  get_elem?-bound, ℕ, ◌+◌, ◌-◌, ◌^◌, ◌<◌, ◌≡◌, refl, ap, inl, inr, pos, negsuc, to_usize, ◌-ℤ◌,
  true, false, [], ◌∷◌, some, ◌>>=◌, length, get_elem?, set, min, ltb, leb, if◌then◌else◌, arith,
  Bool-cases,
}
use native.Mathlib.Nat.{mod-eq_of_lt}
use my_nn_engine.Tensor.Dims.{ResolvedTensorDims, ndim}
use my_nn_engine.Graph.Operator.{TensorIndex, index}
use my_nn_engine.Graph.Slices.{bound_of, slice_of, slices}

-- The place from 0 to `d` that an index stands for.
abbrev pub place : ℕ → TensorIndex → ℕ
place d (pos n) = min n d
place d (negsuc n) = d - (n + 1)

-- The index is an integer of 64 bits.
abbrev pub IsI64 : TensorIndex → Type 0
IsI64 (pos n) = n < 2 ^ 63
IsI64 (negsuc n) = n < 2 ^ 63

bound_of-place : (d : ℕ) (x : TensorIndex) → d < 2 ^ 63 → IsI64 x → bound_of d x ≡ pos (place d x)
unfolding bound_of
bound_of-place d (pos n) l h = let f : leb (2 ^ 63) n ≡ false = ground arith in rw (f) refl
bound_of-place d (negsuc n) l h = elim (Bool-cases (leb (n + 1) d)) [
  | inl x ↦
      let f : leb (2 ^ 63) (d - (n + 1)) ≡ false = ground arith in
      rw (x, f) (ap pos (omega (arith, l)))
  | inr x ↦
      let t : leb (2 ^ 63) (d + 2 ^ 64 - (n + 1)) ≡ true = ground arith in
      rw (x, t) (ap pos (ground arith))
]

place-bound : (d : ℕ) (x : TensorIndex) → d < 2 ^ 63 → place d x < 2 ^ 64
place-bound d (pos n) l = omega (arith, l)
place-bound d (negsuc n) l = omega (arith, l)

-- The number of places from `s` up to `e`, as the source computes it.
abbrev pub extent : ℕ → ℕ → ℕ
extent s e = if leb s e then e - s else 2 ^ 64 - (s - e)

difference-extent : (s e : ℕ) → s < 2 ^ 64 → to_usize (pos e -ℤ pos s) ≡ extent s e
difference-extent s e l = elim (Bool-cases (leb s e)) [
  | inl x ↦ rw (x) refl
  | inr x ↦
      let whole : s - e - 1 + 1 ≡ s - e = ground arith in
      rw (x, whole, mod-eq_of_lt {n = s - e} {m = 2 ^ 64} (omega arith)) refl
]

-- For an axis of the shape, whose size is below 2 ^ 63, and two ends that are integers of 64
-- bits, the slice that is made for them and applied gives the shape with another size at the
-- axis: the number of places from the first end to the second, each counted from the end of the
-- axis if negative and cut to the axis; and where the second place is before the first, 2 ^ 64
-- less the number of places between them.
pub slices-extent :
    (dims : ResolvedTensorDims) (start end axis : TensorIndex) (d : ℕ)
    → get_elem? dims (index axis (ndim dims)) ≡ some d
    → d < 2 ^ 63
    → IsI64 start
    → IsI64 end
    → (slice_of dims start end axis >>= λ s. slices dims (s ∷ []))
      ≡ some (set dims (index axis (ndim dims)) (extent (place d start) (place d end)))
unfolding slice_of slices
slices-extent dims start end axis d h l p q =
    let i = index axis (ndim dims) in
    let below = get_elem?-bound dims i d h in
    let inside : ltb i (length dims) ≡ true = ground arith in
    let small : place d start < 2 ^ 64 = place-bound d start l in
    rw
      (
        h,
        bound_of-place d start l p,
        bound_of-place d end l q,
        difference-extent (place d start) (place d end) small,
        inside,
      )
      refl
