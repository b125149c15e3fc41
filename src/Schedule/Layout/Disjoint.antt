-- ===== src/Schedule/Layout/Disjoint.antt =====
-- The layout of one arena: where its chunks lie.
use my_nn_engine.Prelude.{
  ℕ, ◌+◌, ◌%◌, ◌≤◌, ◌<◌, ◌≡◌, ◌≢◌, refl, ◌⊎◌, inl, inr, List, [], ◌∷◌, some, get_elem?, arith, All,
  All-imp,
}
use my_nn_engine.Schedule.Ir.{ChunkId, ArenaId, ChunkInfo, ArenaInfo}
use my_nn_engine.Schedule.Alloc.{ChunkState, align_up}
use my_nn_engine.Schedule.Alloc.Counts.{count}
use my_nn_engine.Schedule.Layout.{layout_chunks}

-- Rounding up a size gives a multiple of 256 that is not below the size and less than 256 above
-- it.
pub align_up_lem :
    (size : ℕ) → (align_up size % 256 ≡ 0) × (size ≤ align_up size) × (align_up size < size + 256)
unfolding align_up
align_up_lem size = ground arith

-- Two chunks lie in different arenas, or one ends before the other begins.
abbrev pub Apart : ChunkInfo → ChunkInfo → Type 0
Apart x y = (x.arena ≢ y.arena) ⊎ (x.offset + x.size ≤ y.offset) ⊎ (y.offset + y.size ≤ x.offset)

abbrev pub AllApart : List ChunkInfo → Type 0
AllApart [] = Unit
AllApart (x ∷ xs) = All (Apart x) xs × AllApart xs

-- The chunks of one arena, one after the other between `low` and `high`, each aligned and as large
-- as its state says.
abbrev pub Laid : List ChunkState → ArenaId → ℕ → List ChunkId → List ChunkInfo → ℕ → Type 0
Laid states i low [] [] high = low ≡ high
Laid states i low [] (_ ∷ _) high = ⊥
Laid states i low (_ ∷ _) [] high = ⊥
Laid states i low (cid ∷ owned) (x ∷ xs) high =
    (x.id ≡ cid)
    × (x.arena ≡ i)
    × (x.offset ≡ low)
    × (low % 256 ≡ 0)
    × ((s : ChunkState) × (get_elem? states cid ≡ some s) × (x.size ≡ s.size))
    × Laid states i (low + align_up x.size) owned xs high

pub layout_chunks_runs :
    (i : ArenaId) (states : List ChunkState) (low : ℕ) (owned : List ChunkId)
    → low % 256 ≡ 0
    → ((c : ChunkId) → 0 < count c owned → (s : ChunkState) × (get_elem? states c ≡ some s))
    → (chunks : List ChunkInfo) × (high : ℕ) × (layout_chunks i states low owned
        ≡ some (chunks, high))
      × Laid states i low owned chunks high
unfolding layout_chunks
layout_chunks_runs i states low [] h known = ([], low, refl, refl)
layout_chunks_runs i states low (cid ∷ owned) h known =
    let (s, here) = known cid (ground arith) in
    let aligned = align_up_lem s.size in
    let (chunks, high, ran, laid) =
      layout_chunks_runs i states (low + align_up s.size) owned (omega (arith, aligned.0))
        (λ c k. known c (omega arith)) in
    (
      record { id = cid; arena = i; size = s.size; offset = low } ∷ chunks,
      high,
      rw (here, ran) refl,
      (refl, refl, refl, h, (s, here, refl), laid),
    )

-- A chunk lies in one of the arenas.
abbrev pub Inside : List ArenaInfo → ChunkInfo → Type 0
Inside [] x = ⊥
Inside (r ∷ rs) x = ((x.arena ≡ r.id) × (x.offset + x.size ≤ r.size)) ⊎ Inside rs x

-- A chunk starts at a multiple of 256 and is as large as its state says.
abbrev pub IsPlaced : List ChunkState → ChunkInfo → Type 0
IsPlaced states x =
    (x.offset % 256 ≡ 0) × ((s : ChunkState) × (get_elem? states x.id ≡ some s) × (x.size ≡ s.size))

abbrev pub ids : List ChunkInfo → List ChunkId
ids [] = []
ids (x ∷ xs) = x.id ∷ ids xs

-- A chunk of arena `i` lies between the bounds.
abbrev pub Between : ArenaId → ℕ → ℕ → ChunkInfo → Type 0
Between i low high x = (x.arena ≡ i) × (low ≤ x.offset) × (x.offset + x.size ≤ high)

module _ (states : List ChunkState) (i : ArenaId) where
  Laid-le :
      (low : ℕ) (owned : List ChunkId) (xs : List ChunkInfo) (high : ℕ)
      → Laid states i low owned xs high
      → low ≤ high
  Laid-le low [] [] high h = omega arith
  Laid-le low [] (x ∷ xs) high h = absurd h
  Laid-le low (c ∷ owned) [] high h = absurd h
  Laid-le low (c ∷ owned) (x ∷ xs) high h =
      omega (arith, Laid-le (low + align_up x.size) owned xs high h.5)

  -- Every chunk of the arena lies between the bounds.
  pub Laid-bounds :
      (low : ℕ) (owned : List ChunkId) (xs : List ChunkInfo) (high : ℕ)
      → Laid states i low owned xs high
      → All (Between i low high) xs
  Laid-bounds low [] [] high h = tt
  Laid-bounds low [] (x ∷ xs) high h = absurd h
  Laid-bounds low (c ∷ owned) [] high h = absurd h
  Laid-bounds low (c ∷ owned) (x ∷ xs) high h =
      let aligned = align_up_lem x.size in
      let next = low + align_up x.size in
      let after = Laid-le next owned xs high h.5 in
      (
        (h.1, omega (arith, h.2), omega (arith, h.2, aligned.1, after)),
        All-imp (Between i next high) (Between i low high) (λ y b. (b.0, omega (arith, b.1), b.2))
            xs (Laid-bounds next owned xs high h.5),
      )

  -- The chunks of the arena are placed and do not overlap, in the order they are owned.
  pub Laid-apart :
      (low : ℕ) (owned : List ChunkId) (xs : List ChunkInfo) (high : ℕ)
      → Laid states i low owned xs high
      → AllApart xs × All (IsPlaced states) xs × (ids xs ≡ owned)
  Laid-apart low [] [] high h = (tt, tt, refl)
  Laid-apart low [] (x ∷ xs) high h = absurd h
  Laid-apart low (c ∷ owned) [] high h = absurd h
  Laid-apart low (c ∷ owned) (x ∷ xs) high h =
      let next = low + align_up x.size in
      let aligned = align_up_lem x.size in
      let (apart, placed, same) = Laid-apart next owned xs high h.5 in
      let later =
        All-imp (Between i next high) (Apart x)
          (λ y b. inr (inl (omega (arith, h.2, aligned.1, b.1)))) xs
          (Laid-bounds next owned xs high h.5) in
      let (s, here, size) = h.4 in
      ((later, apart), ((omega (arith, h.2, h.3), (s, rw (h.0) here, size)), placed), cc)
