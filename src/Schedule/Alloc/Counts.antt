-- ===== src/Schedule/Alloc/Counts.antt =====
-- How often a chunk stands in the lists of an allocator.
use my_nn_engine.Prelude.{
  ℕ, zero, suc, ◌+◌, ◌≤◌, ◌<◌, ◌≡◌, refl, List, [], ◌∷◌, ◌++◌, Option, none, some, length,
  get_elem?, set, replicate, ◌==◌, if◌then◌else◌, arith,
}
use my_nn_engine.Schedule.Ir.{ChunkId, ArenaId}
use my_nn_engine.Schedule.Alloc.{ChunkState, ChunkAllocator}

abbrev pub count : ℕ → List ℕ → ℕ
count c [] = 0
count c (x ∷ xs) = (if x == c then 1 else 0) + count c xs

abbrev pub count_all : ℕ → List (List ℕ) → ℕ
count_all c [] = 0
count_all c (l ∷ ls) = count c l + count_all c ls

-- In the free lists, and in the list of owned chunks, of one arena.
abbrev pub free_in : ChunkAllocator → ArenaId → ChunkId → ℕ
free_in a i c = elim (get_elem? a.arena2chunks i) [
  | none ↦ 0
  | some r ↦ count_all c r.free_per_stream
]

abbrev pub owned_in : ChunkAllocator → ArenaId → ChunkId → ℕ
owned_in a i c = elim (get_elem? a.arena2chunks i) [ none ↦ 0 | some r ↦ count c r.owned ]

-- 1 for a chunk of the arena, and 1 for such a chunk that nobody uses.
abbrev pub of_arena : ArenaId → Option ChunkState → ℕ
of_arena i none = 0
of_arena i (some s) = if s.arena_id == i then 1 else 0

abbrev pub idle : ArenaId → Option ChunkState → ℕ
idle i none = 0
idle i (some s) = if s.live_uses == 0 then (if s.arena_id == i then 1 else 0) else 0

abbrev pub streams_in : ChunkAllocator → ArenaId → ℕ
streams_in a i = elim (get_elem? a.arena2chunks i) [ none ↦ 0 | some r ↦ length r.free_per_stream ]

-- Every arena has `n` free lists, and every chunk an arena. A free chunk belongs to the arena of the list, nobody uses it, and it is listed once; every
-- chunk is owned once, by its arena.
pub record IsValid (n : ℕ) (a : ChunkAllocator) : Type 0 where
  pub streams : (i : ArenaId) → i < length a.arena2chunks → streams_in a i ≡ n
  pub placed :
      (c : ChunkId) (s : ChunkState)
      → get_elem? a.all_chunks c ≡ some s
      → s.arena_id < length a.arena2chunks
  pub free_idle : (i c : ℕ) → free_in a i c ≤ idle i (get_elem? a.all_chunks c)
  pub owned_once : (i c : ℕ) → owned_in a i c ≡ of_arena i (get_elem? a.all_chunks c)

pub count-append : (c : ℕ) (xs ys : List ℕ) → count c (xs ++ ys) ≡ count c xs + count c ys
count-append c [] ys = omega arith
count-append c (x ∷ xs) ys = omega (arith, count-append c xs ys)

pub count_all-set :
    (c : ℕ) (ls : List (List ℕ)) (s : ℕ) (old l : List ℕ)
    → get_elem? ls s ≡ some old
    → count_all c (set ls s l) + count c old ≡ count_all c ls + count c l
count_all-set c [] s old l h = cc
count_all-set c (x ∷ ls) zero old l h = let e : x ≡ old = cc in rw e (omega arith)
count_all-set c (x ∷ ls) (suc s) old l h = omega (arith, count_all-set c ls s old l h)

pub count_all-replicate : (c n : ℕ) → count_all c (replicate n []) ≡ 0
count_all-replicate c zero = refl
count_all-replicate c (suc n) = omega (arith, count_all-replicate c n)

module _ {ℓ} {A : Type ℓ} where
  pub get_elem?-lt : (xs : List A) (i : ℕ) {x : A} → get_elem? xs i ≡ some x → i < length xs
  get_elem?-lt [] i h = cc
  get_elem?-lt (x ∷ xs) zero h = omega arith
  get_elem?-lt (x ∷ xs) (suc i) h = omega (arith, get_elem?-lt xs i h)

  pub get_elem?-set :
      (xs : List A) (i j : ℕ) (v w : A)
      → get_elem? xs i ≡ some w
      → get_elem? (set xs i v) j ≡ (if i == j then some v else get_elem? xs j)
  get_elem?-set [] i j v w h = cc
  get_elem?-set (x ∷ xs) zero zero v w h = refl
  get_elem?-set (x ∷ xs) zero (suc j) v w h = ground arith
  get_elem?-set (x ∷ xs) (suc i) zero v w h = ground arith
  get_elem?-set (x ∷ xs) (suc i) (suc j) v w h = ground (arith, get_elem?-set xs i j v w h)

  pub get_elem?-push :
      (xs : List A) (x : A) (j : ℕ)
      → get_elem? (xs ++ x ∷ []) j ≡ (if length xs == j then some x else get_elem? xs j)
  get_elem?-push [] x zero = refl
  get_elem?-push [] x (suc j) = ground arith
  get_elem?-push (y ∷ xs) x zero = ground arith
  get_elem?-push (y ∷ xs) x (suc j) = ground (arith, get_elem?-push xs x j)

  pub get_elem?-ge : (xs : List A) (i : ℕ) → length xs ≤ i → get_elem? xs i ≡ none
  get_elem?-ge [] i h = refl
  get_elem?-ge (x ∷ xs) zero h = absurd (omega arith)
  get_elem?-ge (x ∷ xs) (suc i) h = get_elem?-ge xs i (omega arith)

  pub get_elem?_total : (xs : List A) (i : ℕ) → i < length xs → (x : A) × (get_elem? xs i ≡ some x)
  get_elem?_total [] i h = elim h [ ]
  get_elem?_total (x ∷ xs) zero h = (x, refl)
  get_elem?_total (x ∷ xs) (suc i) h = get_elem?_total xs i (omega arith)

  pub get_elem?-length : (xs : List A) → get_elem? xs (length xs) ≡ none
  get_elem?-length [] = refl
  get_elem?-length (x ∷ xs) = get_elem?-length xs
