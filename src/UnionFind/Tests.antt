-- ===== src/UnionFind/Tests.antt =====
-- Four elements, of which two are merged.
use my_nn_engine.Prelude.{ℕ, ◌<◌, ◌≡◌, refl, [], ◌∷◌, none, some, length, arith}
use my_nn_engine.UnionFind.{UnionFind, new, find, representative, hang, merge, size, append}
use my_nn_engine.UnionFind.Forest.{RootOf, IsForest, Found, representative-Found}
use my_nn_engine.UnionFind.Merge.{Merged, merge-Merged}
use my_nn_engine.UnionFind.Start.{new-IsForest, append-size}

merged :
    merge 3 1 (new 4)
    ≡ some (record {
      parents = 0 ∷ 3 ∷ 2 ∷ 3 ∷ [];
      ranks = 0 ∷ 0 ∷ 0 ∷ 1 ∷ [];
      sizes = 1 ∷ 1 ∷ 1 ∷ 2 ∷ [];
    })
unfolding merge hang representative find new
merged = refl

new-IsForest_example :
    IsForest 4 (new 4).parents (new 4).ranks
    × (length (new 4).sizes ≡ 4)
    × ((x : ℕ) → x < 4 → RootOf (new 4).parents x x)
new-IsForest_example = new-IsForest 4

representative-Found_example : Found 4 2 (new 4) (representative 2 (new 4))
representative-Found_example = representative-Found 4 2 (new 4) (new-IsForest 4).0 (omega arith)

merge-Merged_example :
    (r : ℕ) × (s : ℕ) × (after : UnionFind) × RootOf (new 4).parents 3 r
    × RootOf (new 4).parents 1 s
    × (merge 3 1 (new 4) ≡ some after)
    × Merged 4 r s (new 4) after
merge-Merged_example =
    merge-Merged 4 3 1 (new 4) (new-IsForest 4).0 (new-IsForest 4).1 (omega arith) (omega arith)

append-size_example : size 4 (append 2 (new 4)) ≡ none
append-size_example = append-size 4 2 (omega arith)
