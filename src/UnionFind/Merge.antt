-- ===== src/UnionFind/Merge.antt =====
-- `merge` and the roots of the two classes.
use my_nn_engine.Prelude.{
  ℕ, ◌≤◌, ◌<◌, ◌≡◌, ◌≢◌, refl, sym, ap, ◌∙◌, subst, ◌⊎◌, inl, inr, ◌||◌, Option, some, length,
  get_elem?, ltb, ◌==◌, if◌then◌else◌, arith, Bool-cases,
}
use my_nn_engine.Schedule.Alloc.Counts.{get_elem?_total}
use my_nn_engine.UnionFind.{UnionFind, representative, hang, merge}
use my_nn_engine.UnionFind.Forest.{
  RootOf, IsForest, RootOf-root, RootOf-unique, representative-Found,
}
use my_nn_engine.UnionFind.Hang.{Hung, hang-Hung, rank_at-some}

-- The classes of the roots `r` and `s` have become one, with the root `top`, and the other roots stay.
pub record Merged (n r s : ℕ) (uf after : UnionFind) : Type 0 where
  pub forest : IsForest n after.parents after.ranks
  pub sizes_length : length after.sizes ≡ n
  pub top : ℕ
  pub chosen : (top ≡ r) ⊎ (top ≡ s)
  pub roots :
      (a t : ℕ)
      → RootOf uf.parents a t
      → RootOf after.parents a (if t == r || t == s then top else t)

same_root : (r s t : ℕ) → r ≡ s → (if t == r || t == s then r else t) ≡ t
same_root r s t e = ground arith

left_root : (r s t : ℕ) → (if t == s then r else t) ≡ (if t == r || t == s then r else t)
left_root r s t = ground arith

right_root : (r s t : ℕ) → (if t == r then s else t) ≡ (if t == r || t == s then s else t)
right_root r s t = ground arith

module _ (n r s : ℕ) (uf mid : UnionFind)
    (keeps : (a t : ℕ) → RootOf uf.parents a t → RootOf mid.parents a t) where
  Merged-left : (o : Option UnionFind) (m : Hung n r s mid o) → Merged n r s uf m.after
  Merged-left o m = record {
    forest = m.forest;
    sizes_length = m.sizes_length;
    top = r;
    chosen = inl refl;
    roots = λ a t k. subst (RootOf m.after.parents a) (left_root r s t) (m.roots a t (keeps a t k));
  }

  Merged-right : (o : Option UnionFind) (m : Hung n s r mid o) → Merged n r s uf m.after
  Merged-right o m = record {
    forest = m.forest;
    sizes_length = m.sizes_length;
    top = s;
    chosen = inr refl;
    roots =
        λ a t k. subst (RootOf m.after.parents a) (right_root r s t) (m.roots a t (keeps a t k));
  }

  Merged-same :
      IsForest n mid.parents mid.ranks → length mid.sizes ≡ n → r ≡ s → Merged n r s uf mid
  Merged-same f z e = record {
    forest = f;
    sizes_length = z;
    top = r;
    chosen = inl refl;
    roots = λ a t k. subst (RootOf mid.parents a) (sym (same_root r s t e)) (keeps a t k);
  }

-- The last part of `merge`, from the two roots that were found.
merge-roots :
    (n x y r s : ℕ) (uf next mid : UnionFind)
    → representative x uf ≡ some (r, next)
    → representative y next ≡ some (s, mid)
    → IsForest n mid.parents mid.ranks
    → length mid.sizes ≡ n
    → get_elem? mid.parents r ≡ some r
    → get_elem? mid.parents s ≡ some s
    → ((a t : ℕ) → RootOf uf.parents a t → RootOf mid.parents a t)
    → (after : UnionFind) × (merge x y uf ≡ some after) × Merged n r s uf after
unfolding merge
merge-roots n x y r s uf next mid first second f z at_r at_s keeps = elim (Bool-cases (r == s)) [
  | inl q ↦ (mid, rw (first, second, q) refl, Merged-same n r s uf mid keeps f z (ground arith))
  | inr q ↦
      let (rr, er) =
        get_elem?_total mid.ranks r (omega (arith, f.inside r r at_r, f.ranks_length)) in
      let (rs, es) =
        get_elem?_total mid.ranks s (omega (arith, f.inside s s at_s, f.ranks_length)) in
      let ne : r ≢ s = ground arith in
      let r_rank = rank_at-some mid.ranks r rr er in
      let s_rank = rank_at-some mid.ranks s rs es in
      elim (Bool-cases (ltb rr rs)) [
        | inl l ↦
            let less : rr < rs = ground arith in
            let m = hang-Hung n s r mid f z at_s at_r (λ e. ne (sym e)) (omega arith) in
            (
              m.after,
              rw (first, second, q, er, es, l) m.runs,
              Merged-right n r s uf mid keeps (hang s r mid) m,
            )
        | inr l ↦
            let less : rs ≤ rr = ground arith in
            let m = hang-Hung n r s mid f z at_r at_s ne (omega arith) in
            (
              m.after,
              rw (first, second, q, er, es, l) m.runs,
              Merged-left n r s uf mid keeps (hang r s mid) m,
            )
      ]
]

-- In a forest of n elements whose parents have a greater rank, and with a size for each, merging
-- two elements returns without a panic and within the fuel a forest of the same kind; the two
-- elements have roots, one of these is the root of every element that had either, and every other
-- element keeps its root.
pub merge-Merged :
    (n x y : ℕ) (uf : UnionFind)
    → IsForest n uf.parents uf.ranks
    → length uf.sizes ≡ n
    → x < n
    → y < n
    → (r : ℕ) × (s : ℕ) × (after : UnionFind) × RootOf uf.parents x r
      × RootOf uf.parents y s
      × (merge x y uf ≡ some after)
      × Merged n r s uf after
merge-Merged n x y uf f z bx by_y =
    let m = representative-Found n x uf f bx in
    let k = representative-Found n y m.after m.forest by_y in
    let o = representative-Found n y uf f by_y in
    let same : o.root ≡ k.root =
      RootOf-unique m.after.parents y o.root k.root (m.keeps y o.root o.is_root) k.is_root in
    let at_r =
      RootOf-root k.after.parents x m.root (k.keeps x m.root (m.keeps x m.root m.is_root)) in
    let at_s = RootOf-root k.after.parents y k.root (k.keeps y k.root k.is_root) in
    let sized : length k.after.sizes ≡ n = ap length k.same_sizes ∙ ap length m.same_sizes ∙ z in
    let (after, runs, merged) =
      merge-roots n x y m.root k.root uf m.after k.after m.runs k.runs k.forest sized at_r at_s
        (λ a t h. k.keeps a t (m.keeps a t h)) in
    (m.root, k.root, after, m.is_root, subst (RootOf uf.parents y) same o.is_root, runs, merged)
