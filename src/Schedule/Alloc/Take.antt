-- ===== src/Schedule/Alloc/Take.antt =====
-- The states before and after `alloc`.
use my_nn_engine.Prelude.{
  ℕ, zero, suc, replicate, ◌+◌, ◌<◌, ◌≤◌, ◌≡◌, ◌≢◌, refl, none, some, get_elem?, max, length,
  length-append, length-replicate, arith, ◌⊎◌, inl, inr, List, [], ◌∷◌,
}
use my_nn_engine.Schedule.Ir.{MemoryTier, ChunkId, ArenaId, StreamId}
use my_nn_engine.Schedule.Alloc.{
  ChunkState, ArenaChunks, ChunkAllocator, empty, new_chunks, new_arena, take_chunk, alloc,
}
use my_nn_engine.Schedule.Alloc.Counts.{
  IsValid, free_in, count_all-replicate, get_elem?-push, get_elem?-ge,
}
use my_nn_engine.Schedule.Alloc.Effects.{modify_chunk_runs, Modified-IsValid}
use my_nn_engine.Schedule.Alloc.Reuse.{Taken, take_chunk_runs}

-- What a caller of `alloc` gets: a chunk of the arena, as large as asked for, with the uses asked
-- for, that was new or had no use before; it is on no free list, and the other chunks are as they were.
pub record Handed (n : ℕ) (a : ChunkAllocator) (size : ℕ) (arena_id : ArenaId) (uses : ℕ)
    (id : ChunkId) (b : ChunkAllocator) : Type 0 where
  pub valid : IsValid n b
  pub state : ChunkState
  pub here : get_elem? b.all_chunks id ≡ some state
  pub home : state.arena_id ≡ arena_id
  pub used : state.live_uses ≡ uses
  pub large : size ≤ state.size
  pub off : free_in b arena_id id ≡ 0
  pub before :
      (get_elem? a.all_chunks id ≡ none)
      ⊎ ((s : ChunkState) × (get_elem? a.all_chunks id ≡ some s)
          × (s.live_uses ≡ 0)
          × (s.size ≤ state.size))
  pub others : (c : ChunkId) → c ≢ id → get_elem? b.all_chunks c ≡ get_elem? a.all_chunks c

before_sizes :
    (a : ChunkAllocator) (id : ChunkId) (state : ChunkState) (size : ℕ)
    → state.live_uses ≡ 0
    → (get_elem? a.all_chunks id ≡ none) ⊎ (get_elem? a.all_chunks id ≡ some state)
    → (get_elem? a.all_chunks id ≡ none)
      ⊎ ((s : ChunkState) × (get_elem? a.all_chunks id ≡ some s)
          × (s.live_uses ≡ 0)
          × (s.size ≤ max state.size size))
before_sizes a id state size dead (inl e) = inl e
before_sizes a id state size dead (inr e) = inr (state, e, dead, omega arith)

alloc_rest :
    (n : ℕ) (a b : ChunkAllocator) (size : ℕ) (arena_id : ArenaId) (stream : StreamId) (uses : ℕ)
    (id : ChunkId)
    → take_chunk arena_id stream a ≡ some (id, b)
    → Taken n a arena_id id b
    → (c : ChunkAllocator) × (alloc size arena_id stream uses a ≡ some (id, c))
      × Handed n a size arena_id uses id c
unfolding alloc
alloc_rest n a b size arena_id stream uses id took t =
    let f : ChunkState → ChunkState =
      λ e. record e { size = max e.size size; live_uses = e.live_uses + uses } in
    let (c, c_runs, m) = modify_chunk_runs id f b t.state t.here in
    let off : free_in b t.state.arena_id id ≡ 0 = rw t.home t.off in
    (
      c,
      rw (took, c_runs) refl,
      record {
        valid =
            Modified-IsValid n b c id t.state (f t.state) t.valid t.here refl (rw off (omega arith))
              m;
        state = f t.state;
        here = ground (arith, m.states id);
        home = t.home;
        used = omega (arith, t.dead);
        large = omega arith;
        off = ground (arith, m.arenas_same, t.off);
        before = before_sizes a id t.state size t.dead t.before;
        others = λ d ne. ground (arith, m.states d, t.others d);
      },
    )

-- On a valid allocator, `alloc` for one of its arenas and streams returns a chunk and a valid
-- allocator: the chunk lies in that arena, is at least as large as asked for, has exactly the
-- uses asked for, is on no free list, was new or had no use before, and did not shrink; the other
-- chunks are as they were.
pub alloc-IsValid :
    (n : ℕ) (a : ChunkAllocator) (size : ℕ) (arena_id : ArenaId) (stream : StreamId) (uses : ℕ)
    → IsValid n a
    → arena_id < length a.arena2chunks
    → stream < n
    → (id : ChunkId) × (b : ChunkAllocator) × (alloc size arena_id stream uses a ≡ some (id, b))
      × Handed n a size arena_id uses id b
alloc-IsValid n a size arena_id stream uses v h k =
    let (id, b, took, t) = take_chunk_runs n a arena_id stream v h k in
    let (c, ran, handed) = alloc_rest n a b size arena_id stream uses id took t in
    (id, c, ran, handed)

-- The allocator starts out valid, and a new arena keeps it so.
pub empty-IsValid : (n : ℕ) → IsValid n empty
empty-IsValid n = record {
  streams = λ i h. elim h [ ];
  placed = λ c s e. cc;
  free_idle = λ i c. omega arith;
  owned_once = λ i c. refl;
}

-- An arena in which no chunk lies, with an empty free list per stream.
pub record IsFresh (n : ℕ) (tier : MemoryTier) (arena : ArenaChunks) : Type 0 where
  pub on_tier : arena.tier ≡ tier
  pub owns_none : arena.owned ≡ []
  pub streams : length arena.free_per_stream ≡ n
  pub free_none :
      (i : ℕ) (free : List ChunkId) → get_elem? arena.free_per_stream i ≡ some free → free ≡ []

-- The arena that was opened stands at the id, and all else is as it was.
pub record Opened (n : ℕ) (a : ChunkAllocator) (tier : MemoryTier) (id : ArenaId)
    (b : ChunkAllocator) : Type 0 where
  pub valid : IsValid n b
  pub unused : get_elem? a.arena2chunks id ≡ none
  pub fresh : ArenaChunks
  pub opened : get_elem? b.arena2chunks id ≡ some fresh
  pub is_fresh : IsFresh n tier fresh
  pub one_more : length b.arena2chunks ≡ length a.arena2chunks + 1
  pub others : (i : ArenaId) → i ≢ id → get_elem? b.arena2chunks i ≡ get_elem? a.arena2chunks i
  pub chunks : b.all_chunks ≡ a.all_chunks

get_elem?-replicate :
    (n i : ℕ) (free : List ChunkId) → get_elem? (replicate n []) i ≡ some free → free ≡ []
get_elem?-replicate zero i free e = cc
get_elem?-replicate (suc n) zero free e = cc
get_elem?-replicate (suc n) (suc i) free e = get_elem?-replicate n i free e

new_chunks-IsFresh : (n : ℕ) (tier : MemoryTier) → IsFresh n tier (new_chunks tier n)
unfolding new_chunks
new_chunks-IsFresh n tier = record {
  on_tier = refl;
  owns_none = refl;
  streams = length-replicate {A = List ℕ} n [];
  free_none = get_elem?-replicate n;
}

new_arena-kept :
    (n : ℕ) (a : ChunkAllocator) (tier : MemoryTier)
    → IsValid n a
    → IsValid n (new_arena tier n a).1
unfolding new_arena
new_arena-kept n a tier v =
    let r = new_chunks tier n in
    let pushed = λ (i : ℕ). get_elem?-push a.arena2chunks r i in
    let grown = length-append a.arena2chunks (r ∷ []) in
    record {
      streams =
          λ i h. ground (arith, pushed i, grown, v.streams i, length-replicate {A = List ℕ} n []);
      placed = λ c s e. ground (arith, grown, v.placed c s);
      free_idle = λ i c. ground (arith, pushed i, v.free_idle i c, count_all-replicate c n);
      owned_once = λ i c. ground (arith, pushed i, v.owned_once i c, get_elem?-ge a.arena2chunks i);
    }

-- On a valid allocator, `new_arena` returns an id that no arena has, and a valid allocator with
-- one more arena, which stands at that id: it is on the tier asked for, owns no chunk, and has as
-- many free lists as there are streams, all empty. The other arenas and the chunks are as they
-- were.
pub new_arena-IsValid :
    (n : ℕ) (a : ChunkAllocator) (tier : MemoryTier)
    → IsValid n a
    → Opened n a tier (new_arena tier n a).0 (new_arena tier n a).1
unfolding new_arena
new_arena-IsValid n a tier v =
    let r = new_chunks tier n in
    let pushed = λ (i : ℕ). get_elem?-push a.arena2chunks r i in
    let last = pushed (length a.arena2chunks) in
    record {
      valid = new_arena-kept n a tier v;
      unused = get_elem?-ge a.arena2chunks (length a.arena2chunks) (omega arith);
      fresh = r;
      opened = ground (arith, last);
      is_fresh = new_chunks-IsFresh n tier;
      one_more = length-append a.arena2chunks (r ∷ []);
      others = λ i ne. ground (arith, pushed i, get_elem?-ge a.arena2chunks i);
      chunks = refl;
    }
