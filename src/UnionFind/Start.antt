-- ===== src/UnionFind/Start.antt =====
-- The structure that `new` makes, and what `append` leaves out.
use my_nn_engine.Prelude.{
  ℕ, zero, suc, ◌+◌, ◌<◌, ◌≡◌, refl, sym, ap, List, [], ◌∷◌, ◌++◌, none, some, true, length,
  length-replicate, get_elem?, replicate, ◌==◌, arith,
}
use my_nn_engine.Schedule.Alloc.Counts.{get_elem?-lt, get_elem?-ge}
use my_nn_engine.UnionFind.{range, new, find, representative, size, append}
use my_nn_engine.UnionFind.Forest.{RootOf, at_root, IsForest}

length-range : (first count : ℕ) → length (range first count) ≡ count
length-range first zero = refl
length-range first (suc count) = omega (arith, length-range (suc first) count)

get_elem?-range :
    (first count i n : ℕ) → n ≡ first + i → i < count → get_elem? (range first count) i ≡ some n
get_elem?-range first zero i n q h = absurd (omega arith)
get_elem?-range first (suc count) zero n q h = ap some (omega arith)
get_elem?-range first (suc count) (suc i) n q h =
    get_elem?-range (suc first) count i n (omega arith) (omega arith)

range_entry : (n x p : ℕ) → get_elem? (range 0 n) x ≡ some p → (p ≡ x) × (x < n)
range_entry n x p e =
    let bound : x < n = omega (arith, get_elem?-lt (range 0 n) x {x = p} e, length-range 0 n) in
    let here = get_elem?-range 0 n x x (omega arith) bound in let same : p ≡ x = cc in (same, bound)

-- A new structure of n elements is a forest whose parents have a greater rank, with a size for
-- each element, in which every element is its own root.
pub new-IsForest :
    (n : ℕ)
    → IsForest n (new n).parents (new n).ranks
      × (length (new n).sizes ≡ n)
      × ((x : ℕ) → x < n → RootOf (new n).parents x x)
unfolding new
new-IsForest n = (
  record {
    parents_length = length-range 0 n;
    ranks_length = length-replicate n 0;
    inside = λ x p e. let (same, bound) = range_entry n x p e in omega arith;
    rises = λ x p e ne. let (same, bound) = range_entry n x p e in absurd (ne same);
  },
  length-replicate n 1,
  λ x h. at_root x (get_elem?-range 0 n x x (omega arith) h),
)

get_elem?-joined : (xs ys : List ℕ) (y i : ℕ) → i ≡ length xs → get_elem? (xs ++ y ∷ ys) i ≡ some y
get_elem?-joined [] ys y zero q = refl
get_elem?-joined [] ys y (suc i) q = absurd (omega arith)
get_elem?-joined (x ∷ xs) ys y zero q = absurd (omega arith)
get_elem?-joined (x ∷ xs) ys y (suc i) q = get_elem?-joined xs ys y i (omega arith)

-- After at least one element is appended to a new structure of m elements, asking for the size of
-- the class of element m panics.
pub append-size : (m n : ℕ) → 0 < n → size m (append n (new m)) ≡ none
unfolding append new size representative find
append-size m zero h = absurd (omega arith)
append-size m (suc n) h =
    let here = get_elem?-joined (range 0 m) (range (suc m) n) m m (sym (length-range 0 m)) in
    let self : (m == m) ≡ true = ground arith in
    let short =
      get_elem?-ge {A = ℕ} (replicate m 1) m (omega (arith, length-replicate {A = ℕ} m 1)) in
    rw (length-range 0 m, here, self, short) refl
