-- ===== src/UnionFind/Forest.antt =====
-- The roots of a forest, and what path compression leaves of them.
use my_nn_engine.Prelude.{
  ℕ, zero, suc, ◌+◌, ◌≤◌, ◌<◌, ◌≡◌, ◌≢◌, refl, ◌∙◌, sym, ap, subst, inl, inr, true, false, List, [],
  ◌∷◌, Option, none, some, length, length-set, get_elem?, set, ◌==◌, arith, Bool-cases,
  get_elem?-set_self, get_elem?-set_ne,
}
use my_nn_engine.Schedule.Alloc.Counts.{get_elem?_total, get_elem?-lt}
use my_nn_engine.UnionFind.{UnionFind, find, greatest, representative}

-- `r` is the root above `x`.
pub data RootOf (parents : List ℕ) : ℕ → ℕ → Type 0 where
  at_root : (x : ℕ) → get_elem? parents x ≡ some x → RootOf parents x x
  up : (x p r : ℕ) → get_elem? parents x ≡ some p → p ≢ x → RootOf parents p r → RootOf parents x r

-- The rank, and 0 out of range.
abbrev pub rank_at : List ℕ → ℕ → ℕ
rank_at ranks x = elim (get_elem? ranks x) [ none ↦ 0 | some n ↦ n ]

-- Parents are in range, and of a greater rank.
pub record IsForest (n : ℕ) (parents ranks : List ℕ) : Type 0 where
  pub parents_length : length parents ≡ n
  pub ranks_length : length ranks ≡ n
  pub inside : (x p : ℕ) → get_elem? parents x ≡ some p → p < n
  pub rises : (x p : ℕ) → get_elem? parents x ≡ some p → p ≢ x → rank_at ranks x < rank_at ranks p

rank_at-le : (ranks : List ℕ) (x : ℕ) → rank_at ranks x ≤ greatest ranks
rank_at-le [] x = omega arith
rank_at-le (n ∷ ranks) zero = omega arith
rank_at-le (n ∷ ranks) (suc x) = omega (arith, rank_at-le ranks x)

-- The root is a root.
pub RootOf-root : (parents : List ℕ) (x r : ℕ) → RootOf parents x r → get_elem? parents r ≡ some r
RootOf-root parents x r (at_root y e) = e
RootOf-root parents x r (up y p s e ne h) = RootOf-root parents p s h

pub unique_root :
    (parents : List ℕ) (y s : ℕ) → get_elem? parents y ≡ some y → RootOf parents y s → y ≡ s
unique_root parents y s e (at_root z f) = refl
unique_root parents y s e (up z p t f ne h) = absurd (ne (cc))

unique_above :
    (parents : List ℕ) (y p t s : ℕ)
    → get_elem? parents y ≡ some p
    → p ≢ y
    → ((u : ℕ) → RootOf parents p u → t ≡ u)
    → RootOf parents y s
    → t ≡ s
unique_above parents y p t s e ne ih (at_root z f) = absurd (ne (cc))
unique_above parents y p t s e ne ih (up z q u f ne' k) =
    let same : q ≡ p = cc in ih u (subst (λ a. RootOf parents a u) same k)

pub RootOf-unique : (parents : List ℕ) (x r s : ℕ) → RootOf parents x r → RootOf parents x s → r ≡ s
RootOf-unique parents x r s (at_root y e) k = unique_root parents y s e k
RootOf-unique parents x r s (up y p t e ne h) k =
    unique_above parents y p t s e ne (λ u l. RootOf-unique parents p t u h l) k

RootOf-rank :
    (n : ℕ) (parents ranks : List ℕ) (x r : ℕ)
    → IsForest n parents ranks
    → RootOf parents x r
    → rank_at ranks x ≤ rank_at ranks r
RootOf-rank n parents ranks x r f (at_root y e) = omega arith
RootOf-rank n parents ranks x r f (up y p s e ne h) =
    omega (arith, f.rises y p e ne, RootOf-rank n parents ranks p s f h)

-- Writing its root as the parent of `x` keeps every root.
compress-RootOf :
    (parents : List ℕ) (x r y s : ℕ)
    → RootOf parents x r
    → r ≢ x
    → RootOf parents y s
    → RootOf (set parents x r) y s
compress-RootOf parents x r y s h ne (at_root z e) =
    let apart : x ≢ z = λ q. ne (sym (unique_root parents x r (rw q e) h)) in
    at_root z (get_elem?-set_ne parents x z r apart ∙ e)
compress-RootOf parents x r y s h ne (up z p t e ne' k) = elim (Bool-cases (x == z)) [
  | inl q ↦
      let same : x ≡ z = ground arith in
      let root_of_z : r ≡ t = RootOf-unique parents x r t h (rw same (up z p t e ne' k)) in
      let bound : x < length parents = get_elem?-lt parents x {x = p} (rw same e) in
      let root : get_elem? parents r ≡ some r = RootOf-root parents x r h in
      rw (← same, ← root_of_z)
        (up x r r (get_elem?-set_self parents x r bound) ne
          (at_root r (get_elem?-set_ne parents x r r (λ q'. ne (sym q')) ∙ root)))
  | inr q ↦
      let apart : x ≢ z = ground arith in
      up z p t (get_elem?-set_ne parents x z r apart ∙ e) ne'
        (compress-RootOf parents x r p t h ne k)
]

set_same : (parents : List ℕ) (x r p : ℕ) → get_elem? (set parents x r) x ≡ some p → p ≡ r
set_same [] x r p e = cc
set_same (q ∷ parents) zero r p e = cc
set_same (q ∷ parents) (suc x) r p e = set_same parents x r p e

pub set_there :
    (parents : List ℕ) (x y r p : ℕ) → x ≡ y → get_elem? (set parents x r) y ≡ some p → p ≡ r
set_there parents x y r p same e =
    set_same parents x r p (subst (λ z. get_elem? (set parents x r) z ≡ some p) (sym same) e)

compress-IsForest :
    (n : ℕ) (parents ranks : List ℕ) (x r : ℕ)
    → IsForest n parents ranks
    → r < n
    → rank_at ranks x < rank_at ranks r
    → IsForest n (set parents x r) ranks
compress-IsForest n parents ranks x r f b l = record {
  parents_length = omega (arith, length-set parents x r, f.parents_length);
  ranks_length = f.ranks_length;
  inside = λ y p e. elim (Bool-cases (x == y)) [
    | inl q ↦
        let same : x ≡ y = ground arith in
        let new_p : p ≡ r = set_there parents x y r p same e in rw new_p b
    | inr q ↦
        let apart : x ≢ y = ground arith in
        f.inside y p (sym (get_elem?-set_ne parents x y r apart) ∙ e)
  ];
  rises = λ y p e ne. elim (Bool-cases (x == y)) [
    | inl q ↦
        let same : x ≡ y = ground arith in
        let new_p : p ≡ r = set_there parents x y r p same e in rw (← same, new_p) l
    | inr q ↦
        let apart : x ≢ y = ground arith in
        f.rises y p (sym (get_elem?-set_ne parents x y r apart) ∙ e) ne
  ];
}

-- What `find` comes to: the root, with the same ranks and sizes, and every root kept.
pub record Found (n x : ℕ) (uf : UnionFind) (o : Option (ℕ × UnionFind)) : Type 0 where
  pub root : ℕ
  pub after : UnionFind
  pub runs : o ≡ some (root, after)
  pub is_root : RootOf uf.parents x root
  pub forest : IsForest n after.parents after.ranks
  pub same_ranks : after.ranks ≡ uf.ranks
  pub same_sizes : after.sizes ≡ uf.sizes
  pub keeps : (y s : ℕ) → RootOf uf.parents y s → RootOf after.parents y s

Found-here :
    (n fuel x p : ℕ) (uf : UnionFind)
    → IsForest n uf.parents uf.ranks
    → get_elem? uf.parents x ≡ some p
    → (p == x) ≡ true
    → Found n x uf (find (suc fuel) x uf)
unfolding find
Found-here n fuel x p uf f e q =
    let same : p ≡ x = ground arith in
    record {
      root = x;
      after = uf;
      runs = rw (e, q) refl;
      is_root = at_root x (e ∙ ap some same);
      forest = f;
      same_ranks = refl;
      same_sizes = refl;
      keeps = λ y s h. h;
    }

Found-back :
    (n fuel x p : ℕ) (uf : UnionFind)
    → IsForest n uf.parents uf.ranks
    → get_elem? uf.parents x ≡ some p
    → (p == x) ≡ false
    → Found n p uf (find fuel p uf)
    → Found n x uf (find (suc fuel) x uf)
unfolding find
Found-back n fuel x p uf f e q rest =
    let ne : p ≢ x = ground arith in
    let lower : rank_at uf.ranks x < rank_at uf.ranks rest.root =
      omega
        (arith, f.rises x p e ne, RootOf-rank n uf.parents uf.ranks p rest.root f rest.is_root) in
    let apart : rest.root ≢ x = λ r. omega (arith, lower, ap (rank_at uf.ranks) r) in
    let above = up x p rest.root e ne rest.is_root in
    let above_after = rest.keeps x rest.root above in
    record {
      root = rest.root;
      after = record rest.after { parents = set rest.after.parents x rest.root };
      runs = rw (e, q, rest.runs) refl;
      is_root = above;
      forest =
          compress-IsForest n rest.after.parents rest.after.ranks x rest.root rest.forest
            (rest.forest.inside rest.root rest.root
              (RootOf-root rest.after.parents x rest.root above_after))
            (subst (λ k. rank_at k x < rank_at k rest.root) (sym rest.same_ranks) lower);
      same_ranks = rest.same_ranks;
      same_sizes = rest.same_sizes;
      keeps = λ y s h.
          compress-RootOf rest.after.parents x rest.root y s above_after apart (rest.keeps y s h);
    }

find-Found :
    (n fuel x : ℕ) (uf : UnionFind)
    → IsForest n uf.parents uf.ranks
    → x < n
    → greatest uf.ranks < fuel + rank_at uf.ranks x
    → Found n x uf (find fuel x uf)
find-Found n zero x uf f b enough = absurd (omega (arith, rank_at-le uf.ranks x))
find-Found n (suc fuel) x uf f b enough =
    let (p, e) = get_elem?_total uf.parents x (omega (arith, f.parents_length)) in
    elim (Bool-cases (p == x)) [
      | inl q ↦ Found-here n fuel x p uf f e q
      | inr q ↦
          Found-back n fuel x p uf f e q (
            find-Found n fuel p uf f (f.inside x p e) (omega (arith, f.rises x p e (ground arith))))
    ]

-- In a forest of n elements whose parents have a greater rank, `representative` of an element
-- returns its root, without a panic and within the fuel; the forest after it is of the same kind,
-- has the same ranks and sizes, and every element keeps its root.
pub representative-Found :
    (n x : ℕ) (uf : UnionFind)
    → IsForest n uf.parents uf.ranks
    → x < n
    → Found n x uf (representative x uf)
unfolding representative
representative-Found n x uf f b = find-Found n (suc (greatest uf.ranks)) x uf f b (omega arith)
