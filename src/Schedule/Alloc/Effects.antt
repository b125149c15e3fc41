-- ===== src/Schedule/Alloc/Effects.antt =====
-- What each operation changes in the lists and in the states of the chunks.
use my_nn_engine.Prelude.{
  ℕ, ◌+◌, ◌≤◌, ◌<◌, ◌≡◌, refl, ◌∷◌, some, length, length-set, get_elem?, set, ◌==◌, if◌then◌else◌,
  arith, Bool-cases, inl, inr,
}
use my_nn_engine.Schedule.Ir.{ChunkId, ArenaId, StreamId}
use my_nn_engine.Schedule.Alloc.{ChunkState, ArenaChunks, ChunkAllocator, free, modify_chunk}
use my_nn_engine.Schedule.Alloc.Counts.{
  IsValid, streams_in, get_elem?_total, free_in, owned_in, count_all-set, get_elem?-set,
}

-- Freeing a chunk puts it once on a list of its arena, and changes nothing else.
pub record Freed (a : ChunkAllocator) (id : ChunkId) (arena : ArenaId) (b : ChunkAllocator)
    : Type 0 where
  pub chunks_same : b.all_chunks ≡ a.all_chunks
  pub arenas_same : length b.arena2chunks ≡ length a.arena2chunks
  pub streams_same : (i : ArenaId) → streams_in b i ≡ streams_in a i
  pub owned_same : (i : ArenaId) (c : ChunkId) → owned_in b i c ≡ owned_in a i c
  pub listed :
      (i : ArenaId) (c : ChunkId)
      → free_in b i c ≡ free_in a i c + (if arena == i then (if id == c then 1 else 0) else 0)

pub free_runs :
    (n : ℕ) (id : ChunkId) (stream : StreamId) (a : ChunkAllocator) (state : ChunkState)
    → IsValid n a
    → stream < n
    → get_elem? a.all_chunks id ≡ some state
    → (b : ChunkAllocator) × (free id stream a ≡ some b) × Freed a id state.arena_id b
unfolding free
free_runs n id stream a state v h here =
    let in_range = v.placed id state here in
    let (r, at_arena) = get_elem?_total a.arena2chunks state.arena_id in_range in
    let lists : length r.free_per_stream ≡ n = ground (arith, v.streams state.arena_id in_range) in
    let (l, at_stream) = get_elem?_total r.free_per_stream stream (omega arith) in
    let r' : ArenaChunks = record r { free_per_stream = set r.free_per_stream stream (id ∷ l) } in
    let written = λ (i : ℕ). get_elem?-set a.arena2chunks state.arena_id i r' r at_arena in
    (
      record a { arena2chunks = set a.arena2chunks state.arena_id r' },
      rw (here, at_arena, at_stream) refl,
      record {
        chunks_same = refl;
        arenas_same = length-set a.arena2chunks state.arena_id r';
        streams_same = λ i. ground (arith, written i, length-set r.free_per_stream stream (id ∷ l));
        owned_same = λ i c. ground (arith, written i);
        listed = λ i c.
            ground
              (arith, written i, count_all-set c r.free_per_stream stream l (id ∷ l) at_stream);
      },
    )

-- Freeing an idle chunk that is on no list keeps the allocator valid.
pub Freed-IsValid :
    (n : ℕ) (a b : ChunkAllocator) (id : ChunkId) (state : ChunkState)
    → IsValid n a
    → get_elem? a.all_chunks id ≡ some state
    → state.live_uses ≡ 0
    → free_in a state.arena_id id ≡ 0
    → Freed a id state.arena_id b
    → IsValid n b
Freed-IsValid n a b id state v here dead off f = record {
  streams = λ i h. ground (arith, f.arenas_same, f.streams_same i, v.streams i);
  placed = λ c s e. ground (arith, f.chunks_same, f.arenas_same, v.placed c s);
  free_idle = λ i c.
      rw (f.chunks_same, f.listed i c)
        (elim (Bool-cases (id == c)) [
          | inl e ↦
              let same : c ≡ id = ground arith in
              rw same (elim (Bool-cases (state.arena_id == i)) [
                | inl e' ↦
                    let home : i ≡ state.arena_id = ground arith in
                    rw (home, off, here) (ground arith)
                | inr e' ↦ rw e' (omega (arith, v.free_idle i id))
              ])
          | inr e ↦ rw e (ground (arith, v.free_idle i c))
        ]);
  owned_once = λ i c. rw (f.chunks_same, f.owned_same i c) (v.owned_once i c);
}

-- Changing one chunk in place, with its arena kept.
pub record Modified (a : ChunkAllocator) (id : ChunkId) (state : ChunkState) (b : ChunkAllocator)
    : Type 0 where
  pub arenas_same : b.arena2chunks ≡ a.arena2chunks
  pub states :
      (c : ChunkId)
      → get_elem? b.all_chunks c ≡ (if id == c then some state else get_elem? a.all_chunks c)

pub modify_chunk_runs :
    (id : ChunkId) (f : ChunkState → ChunkState) (a : ChunkAllocator) (state : ChunkState)
    → get_elem? a.all_chunks id ≡ some state
    → (b : ChunkAllocator) × (modify_chunk id f a ≡ some b) × Modified a id (f state) b
modify_chunk_runs id f a state here = (
  record a { all_chunks = set a.all_chunks id (f state) },
  rw here refl,
  record { arenas_same = refl; states = λ c. get_elem?-set a.all_chunks id c (f state) state here },
)

-- It keeps the allocator valid if a chunk that is listed has no use afterwards.
pub Modified-IsValid :
    (n : ℕ) (a b : ChunkAllocator) (id : ChunkId) (old state : ChunkState)
    → IsValid n a
    → get_elem? a.all_chunks id ≡ some old
    → state.arena_id ≡ old.arena_id
    → free_in a old.arena_id id ≤ (if state.live_uses == 0 then 1 else 0)
    → Modified a id state b
    → IsValid n b
Modified-IsValid n a b id old state v here home listed m = record {
  streams = λ i h. ground (arith, m.arenas_same, v.streams i);
  placed = λ c s e. ground (arith, m.arenas_same, m.states c, v.placed c s, v.placed id old);
  free_idle = λ i c.
      rw (m.arenas_same, m.states c)
        (elim (Bool-cases (id == c)) [
          | inl e ↦
              let same : c ≡ id = ground arith in rw (e, same) (ground (arith, v.free_idle i id))
          | inr e ↦ rw e (v.free_idle i c)
        ]);
  owned_once = λ i c.
      rw (m.arenas_same, m.states c)
        (elim (Bool-cases (id == c)) [
          | inl e ↦
              let same : c ≡ id = ground arith in rw (e, same) (ground (arith, v.owned_once i id))
          | inr e ↦ rw e (v.owned_once i c)
        ]);
}
