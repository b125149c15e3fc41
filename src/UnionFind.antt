-- ===== src/UnionFind.antt =====
-- `UnionFind` of src/utils.rs. `none` is an index out of range, or the end of the fuel.
pub mod Forest
pub mod Hang
pub mod Merge
pub mod Start
mod Tests
use my_nn_engine.Prelude.{
  ℕ, zero, suc, ◌+◌, ◌≡◌, Bool, true, false, List, [], ◌∷◌, ◌++◌, Option, none, some, ◌>>=◌, max,
  length, get_elem?, set, replicate, ltb, ◌==◌, if◌then◌else◌,
}

pub record UnionFind : Type 0 where
  pub parents : List ℕ
  pub ranks : List ℕ
  pub sizes : List ℕ

-- `count` numbers from `first` on.
abbrev pub range : ℕ → ℕ → List ℕ
range first zero = []
range first (suc count) = first ∷ range (suc first) count

unfoldable pub new : ℕ → UnionFind
new n = record { parents = range 0 n; ranks = replicate n 0; sizes = replicate n 1 }

-- The recursion of `representative`, which writes the parents on its way back.
unfoldable pub find : ℕ → ℕ → UnionFind → Option (ℕ × UnionFind)
find zero x uf = none
find (suc fuel) x uf = do
  parent ← get_elem? uf.parents x
  if parent == x then some (x, uf) else (do
    (p, after) ← find fuel parent uf
    some (p, record after { parents = set after.parents x p }))

abbrev pub greatest : List ℕ → ℕ
greatest [] = 0
greatest (n ∷ ns) = max n (greatest ns)

-- The rank rises with every call, so that the greatest rank bounds their number.
unfoldable pub representative : ℕ → UnionFind → Option (ℕ × UnionFind)
representative x uf = find (suc (greatest uf.ranks)) x uf

unfoldable pub is_same : ℕ → ℕ → UnionFind → Option (Bool × UnionFind)
is_same x y uf = do
  (p, next) ← representative x uf
  (q, after) ← representative y next
  some (p == q, after)

unfoldable pub size : ℕ → UnionFind → Option (ℕ × UnionFind)
size x uf = do (p, after) ← representative x uf; n ← get_elem? after.sizes p; some (n, after)

-- The root `low` goes under the root `high`.
unfoldable pub hang : ℕ → ℕ → UnionFind → Option UnionFind
hang high low uf = do
  rank_high ← get_elem? uf.ranks high
  rank_low ← get_elem? uf.ranks low
  size_high ← get_elem? uf.sizes high
  size_low ← get_elem? uf.sizes low
  some (record {
    parents = set uf.parents low high;
    ranks = if rank_high == rank_low then set uf.ranks high (rank_high + 1) else uf.ranks;
    sizes = set uf.sizes high (size_high + size_low);
  })

unfoldable pub merge : ℕ → ℕ → UnionFind → Option UnionFind
merge x y uf = do
  (p, next) ← representative x uf
  (q, after) ← representative y next
  if p == q then some after else (do
    rank_p ← get_elem? after.ranks p
    rank_q ← get_elem? after.ranks q
    if ltb rank_p rank_q then hang q p after else hang p q after)

-- `sizes` is not extended.
unfoldable pub append : ℕ → UnionFind → UnionFind
append n uf = record uf {
  parents = uf.parents ++ range (length uf.parents) n;
  ranks = uf.ranks ++ replicate n 0;
}
