-- ===== src/Schedule/Layout/Arenas.antt =====
-- The layout of all the arenas of a valid allocator.
use my_nn_engine.Prelude.{
  ℕ, suc, ◌+◌, ◌≤◌, ◌<◌, ◌≡◌, refl, ap, inl, inr, List, [], ◌∷◌, ◌++◌, some, get_elem?, ◌==◌,
  if◌then◌else◌, arith, All, All-imp, All-append, Bool-cases, length, ltb, leb, ◌&&◌,
}
use my_nn_engine.Schedule.Ir.{ChunkId, ArenaId, ChunkInfo, ArenaInfo}
use my_nn_engine.Schedule.Alloc.{ChunkState, ArenaChunks, ChunkAllocator}
use my_nn_engine.Schedule.Alloc.Counts.{
  IsValid, count, count-append, of_arena, get_elem?_total, get_elem?-ge,
}
use my_nn_engine.Schedule.Layout.{layout_chunks, layout_arenas, layout}
use my_nn_engine.Schedule.Layout.Disjoint.{
  Apart, AllApart, Laid, Inside, IsPlaced, Between, ids, layout_chunks_runs, Laid-bounds,
  Laid-apart,
}

-- How often the arenas own a chunk.
abbrev pub owned_total : ChunkId → List ArenaChunks → ℕ
owned_total c [] = 0
owned_total c (r ∷ rs) = count c r.owned + owned_total c rs

-- The chunks of the arenas from the one with id `i` on are placed.
pub record IsLaidOut (states : List ChunkState) (i : ArenaId) (rest : List ArenaChunks)
    (chunks : List ChunkInfo) (arenas : List ArenaInfo) : Type 0 where
  pub runs : layout_arenas states i rest ≡ some (chunks, arenas)
  pub apart : AllApart chunks
  pub placed : All (IsPlaced states) chunks
  pub inside : All (Inside arenas) chunks
  pub later : All (λ x. i ≤ x.arena) chunks
  pub owned : (c : ChunkId) → count c (ids chunks) ≡ owned_total c rest

AllApart-append :
    (xs ys : List ChunkInfo)
    → AllApart xs
    → AllApart ys
    → All (λ x. All (Apart x) ys) xs
    → AllApart (xs ++ ys)
AllApart-append [] ys h k l = k
AllApart-append (x ∷ xs) ys h k l =
    (All-append (Apart x) xs ys h.0 l.0, AllApart-append xs ys h.1 k l.1)

ids-append : (xs ys : List ChunkInfo) → ids (xs ++ ys) ≡ ids xs ++ ids ys
ids-append [] ys = refl
ids-append (x ∷ xs) ys = ap (x.id ∷◌) (ids-append xs ys)

module _ (states : List ChunkState) (i : ArenaId) where
  none_left : IsLaidOut states i [] [] []
  unfolding layout_arenas
  none_left = record {
    runs = refl;
    apart = tt;
    placed = tt;
    inside = tt;
    later = tt;
    owned = λ c. refl;
  }

  one_more :
      (r : ArenaChunks) (rest : List ArenaChunks) (chunks : List ChunkInfo) (high : ℕ)
      (more : List ChunkInfo) (arenas : List ArenaInfo)
      → layout_chunks i states 0 r.owned ≡ some (chunks, high)
      → Laid states i 0 r.owned chunks high
      → IsLaidOut states (suc i) rest more arenas
      → IsLaidOut states i
          (r ∷ rest)
          (chunks ++ more)
          (record { id = i; tier = r.tier; size = high } ∷ arenas)
  unfolding layout_arenas
  one_more r rest chunks high more arenas ran laid m =
      let all = record { id = i; tier = r.tier; size = high } ∷ arenas in
      let bounds = Laid-bounds states i 0 r.owned chunks high laid in
      let (apart, placed, same) = Laid-apart states i 0 r.owned chunks high laid in
      record {
        runs = rw (ran, m.runs) refl;
        apart = AllApart-append chunks more apart m.apart (
            All-imp (Between i 0 high) (λ x. All (Apart x) more)
              (λ x b.
                All-imp (λ y. suc i ≤ y.arena) (Apart x)
                  (λ y l. inl (λ e. omega (arith, b.0, e, l))) more m.later)
              chunks bounds);
        placed = All-append (IsPlaced states) chunks more placed m.placed;
        inside =
            All-append (Inside all) chunks more
              (All-imp (Between i 0 high) (Inside all) (λ x b. inl (b.0, b.2)) chunks bounds)
              (All-imp (Inside arenas) (Inside all) (λ x b. inr b) more m.inside);
        later =
            All-append (λ x. i ≤ x.arena) chunks more
              (All-imp (Between i 0 high) (λ x. i ≤ x.arena) (λ x b. omega (arith, b.0)) chunks
                bounds)
              (All-imp (λ x. suc i ≤ x.arena) (λ x. i ≤ x.arena) (λ x b. omega (arith, b)) more
                m.later);
        owned = λ c.
            rw (ids-append chunks more, same, count-append c r.owned (ids more), m.owned c) refl;
      }

layout_arenas-IsLaidOut :
    (states : List ChunkState) (i : ArenaId) (rest : List ArenaChunks)
    → ((c : ChunkId) → 0 < owned_total c rest → c < length states)
    → (chunks : List ChunkInfo) × (arenas : List ArenaInfo) × IsLaidOut states i rest chunks arenas
layout_arenas-IsLaidOut states i [] known = ([], [], none_left states i)
layout_arenas-IsLaidOut states i (r ∷ rest) known =
    let (chunks, high, ran, laid) =
      layout_chunks_runs i states 0 r.owned refl
        (λ c k. get_elem?_total states c (known c (omega arith))) in
    let (more, arenas, m) =
      layout_arenas-IsLaidOut states (suc i) rest (λ c k. known c (omega arith)) in
    (
      chunks ++ more,
      record { id = i; tier = r.tier; size = high } ∷ arenas,
      one_more states i r rest chunks high more arenas ran laid m,
    )

-- A chunk that only arena `t` owns, and that arena once.
owned_total-one :
    (c : ChunkId) (t : ArenaId) (i : ArenaId) (rest : List ArenaChunks)
    → ((j : ℕ) (r : ArenaChunks)
        → get_elem? rest j ≡ some r
        → count c r.owned ≡ (if t == i + j then 1 else 0))
    → owned_total c rest ≡ (if leb i t && ltb t (i + length rest) then 1 else 0)
owned_total-one c t i [] h = ground arith
owned_total-one c t i (r ∷ rest) h =
    let first = h 0 r refl in
    let rest_one = owned_total-one c t (suc i) rest (λ j s e. ground (arith, h (suc j) s e)) in
    ground arith

owned_total-none :
    (c : ChunkId) (rest : List ArenaChunks)
    → ((j : ℕ) (r : ArenaChunks) → get_elem? rest j ≡ some r → count c r.owned ≡ 0)
    → owned_total c rest ≡ 0
owned_total-none c [] h = refl
owned_total-none c (r ∷ rest) h =
    omega (arith, h 0 r refl, owned_total-none c rest (λ j s e. h (suc j) s e))

module _ (n : ℕ) (a : ChunkAllocator) (valid : IsValid n a) (c : ChunkId) where
  owned-in-state :
      (j : ℕ) (r : ArenaChunks)
      → get_elem? a.arena2chunks j ≡ some r
      → count c r.owned ≡ of_arena j (get_elem? a.all_chunks c)
  owned-in-state j r e = let once = valid.owned_once j c in ground (arith, once)

  owned-none : length a.all_chunks ≤ c → owned_total c a.arena2chunks ≡ 0
  owned-none h =
      owned_total-none c a.arena2chunks (λ j r e.
        let absent = get_elem?-ge a.all_chunks c h in ground (arith, owned-in-state j r e))

  owned-known : 0 < owned_total c a.arena2chunks → c < length a.all_chunks
  owned-known h = elim (Bool-cases (ltb c (length a.all_chunks))) [
    | inl e ↦ ground arith
    | inr e ↦ absurd (omega (arith, owned-none (ground arith)))
  ]

  owned-one : c < length a.all_chunks → owned_total c a.arena2chunks ≡ 1
  owned-one h =
      let (s, here) = get_elem?_total a.all_chunks c h in
      let inside = valid.placed c s here in
      let total =
        owned_total-one c s.arena_id 0 a.arena2chunks
          (λ j r e. ground (arith, owned-in-state j r e)) in
      ground arith

-- For every valid allocator the layout is computed without a panic: its chunks do not overlap,
-- each starts at a multiple of 256, has the size of its state and ends within an arena that is
-- listed under its id, and every chunk of the allocator is listed exactly once and no other.
pub layout-AllApart :
    (n : ℕ) (a : ChunkAllocator)
    → IsValid n a
    → (chunks : List ChunkInfo) × (arenas : List ArenaInfo) × (layout a ≡ some (chunks, arenas))
      × AllApart chunks
      × All (IsPlaced a.all_chunks) chunks
      × All (Inside arenas) chunks
      × ((c : ChunkId) → c < length a.all_chunks → count c (ids chunks) ≡ 1)
      × ((c : ChunkId) → length a.all_chunks ≤ c → count c (ids chunks) ≡ 0)
unfolding layout
layout-AllApart n a valid =
    let (chunks, arenas, m) =
      layout_arenas-IsLaidOut a.all_chunks 0 a.arena2chunks (λ c k. owned-known n a valid c k) in
    (
      chunks,
      arenas,
      m.runs,
      m.apart,
      m.placed,
      m.inside,
      λ c h. rw (m.owned c) (owned-one n a valid c h),
      λ c h. rw (m.owned c) (owned-none n a valid c h),
    )
