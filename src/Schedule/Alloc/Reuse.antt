-- ===== src/Schedule/Alloc/Reuse.antt =====
-- The chunk that `alloc` of src/schedule/scheduler/common.rs takes: one that is free, or a new one.
use my_nn_engine.Prelude.{
  ℕ, ◌<◌, ◌≤◌, ◌≡◌, ◌≢◌, refl, false, none, some, get_elem?, set, ◌==◌, length, length-set, arith,
  Bool-cases, ◌⊎◌, inl, inr, List, [], ◌∷◌, ◌++◌,
}
use my_nn_engine.Schedule.Ir.{ChunkId, ArenaId, StreamId}
use my_nn_engine.Schedule.Alloc.{ChunkState, ArenaChunks, ChunkAllocator, take_chunk}
use my_nn_engine.Schedule.Alloc.Counts.{
  IsValid, free_in, count-append, count_all-set, get_elem?-set, get_elem?-push, get_elem?_total,
  get_elem?-ge, get_elem?-lt,
}

abbrev new_chunk : ArenaId → ChunkState
new_chunk arena_id = record { arena_id = arena_id; size = 0; live_uses = 0; first_use = false }

-- A chunk is taken off the lists: it was idle, or it is new.
pub record Taken (n : ℕ) (a : ChunkAllocator) (arena_id : ArenaId) (id : ChunkId)
    (b : ChunkAllocator) : Type 0 where
  pub valid : IsValid n b
  pub state : ChunkState
  pub here : get_elem? b.all_chunks id ≡ some state
  pub home : state.arena_id ≡ arena_id
  pub dead : state.live_uses ≡ 0
  pub off : free_in b arena_id id ≡ 0
  pub before : (get_elem? a.all_chunks id ≡ none) ⊎ (get_elem? a.all_chunks id ≡ some state)
  pub others : (c : ChunkId) → c ≢ id → get_elem? b.all_chunks c ≡ get_elem? a.all_chunks c

-- The next chunk of the stream's free list.
reuse :
    (n : ℕ) (a : ChunkAllocator) (arena_id : ArenaId) (stream : StreamId) (r : ArenaChunks)
    (id : ChunkId) (rest : List ℕ)
    → IsValid n a
    → get_elem? a.arena2chunks arena_id ≡ some r
    → get_elem? r.free_per_stream stream ≡ some (id ∷ rest)
    → Taken n a arena_id id (record a {
      arena2chunks =
          set a.arena2chunks arena_id
            (record r { free_per_stream = set r.free_per_stream stream rest });
    })
reuse n a arena_id stream r id rest v at_arena at_stream =
    let r' : ArenaChunks = record r { free_per_stream = set r.free_per_stream stream rest } in
    let written = λ (i : ℕ). get_elem?-set a.arena2chunks arena_id i r' r at_arena in
    let counted = λ (c : ℕ). count_all-set c r.free_per_stream stream (id ∷ rest) rest at_stream in
    let arenas = length-set a.arena2chunks arena_id r' in
    let listed : 1 ≤ free_in a arena_id id = ground (arith, counted id) in
    let was_idle = v.free_idle arena_id id in
    let found : (s : ChunkState) × (get_elem? a.all_chunks id ≡ some s) =
      ground (arith, was_idle) in
    record {
      valid = record {
        streams = λ i h.
            ground
              (arith, written i, v.streams i, length-set r.free_per_stream stream rest, arenas);
        placed = λ c s e. ground (arith, arenas, v.placed c s);
        free_idle = λ i c. ground (arith, written i, counted c, v.free_idle i c);
        owned_once = λ i c. ground (arith, written i, v.owned_once i c);
      };
      state = found.0;
      here = found.1;
      home = ground (arith, found.1, was_idle);
      dead = ground (arith, found.1, was_idle);
      off = ground (arith, found.1, was_idle, written arena_id, counted id);
      before = inr found.1;
      others = λ c ne. refl;
    }

-- A new chunk, where the free list is empty.
fresh :
    (n : ℕ) (a : ChunkAllocator) (arena_id : ArenaId) (r : ArenaChunks)
    → IsValid n a
    → get_elem? a.arena2chunks arena_id ≡ some r
    → Taken n a arena_id (length a.all_chunks) (record a {
      arena2chunks =
          set a.arena2chunks arena_id (record r { owned = r.owned ++ length a.all_chunks ∷ [] });
      all_chunks = a.all_chunks ++ new_chunk arena_id ∷ [];
    })
fresh n a arena_id r v at_arena =
    let id = length a.all_chunks in
    let r' : ArenaChunks = record r { owned = r.owned ++ id ∷ [] } in
    let written = λ (i : ℕ). get_elem?-set a.arena2chunks arena_id i r' r at_arena in
    let pushed = λ (c : ℕ). get_elem?-push a.all_chunks (new_chunk arena_id) c in
    let arenas = length-set a.arena2chunks arena_id r' in
    let unknown = get_elem?-ge a.all_chunks id (omega arith) in
    let unlisted = λ (i : ℕ). v.free_idle i id in
    record {
      valid = record {
        streams = λ i h. ground (arith, written i, v.streams i, arenas);
        placed = λ c s e.
            ground (
              arith,
              arenas,
              v.placed c s,
              pushed c,
              get_elem?-lt a.arena2chunks arena_id at_arena,
            );
        free_idle = λ i c. elim (Bool-cases (id == c)) [
          | inl e ↦
              let same : c ≡ id = ground arith in
              rw same (ground (arith, written i, unlisted i, unknown))
          | inr e ↦ ground (arith, written i, v.free_idle i c, pushed c)
        ];
        owned_once = λ i c. elim (Bool-cases (id == c)) [
          | inl e ↦
              let same : c ≡ id = ground arith in
              rw same (
                ground (
                  arith,
                  written i,
                  v.owned_once i id,
                  unknown,
                  pushed id,
                  count-append id r.owned (id ∷ []),
                ))
          | inr e ↦
              ground
                (arith, written i, v.owned_once i c, pushed c, count-append c r.owned (id ∷ []))
        ];
      };
      state = new_chunk arena_id;
      here = ground (arith, pushed id);
      home = refl;
      dead = refl;
      off = ground (arith, written arena_id, unlisted arena_id, unknown);
      before = inl unknown;
      others = λ c ne. ground (arith, pushed c);
    }

take_from :
    (n : ℕ) (a : ChunkAllocator) (arena_id : ArenaId) (stream : StreamId) (r : ArenaChunks)
    (l : List ℕ)
    → IsValid n a
    → get_elem? a.arena2chunks arena_id ≡ some r
    → get_elem? r.free_per_stream stream ≡ some l
    → (id : ChunkId) × (b : ChunkAllocator) × (take_chunk arena_id stream a ≡ some (id, b))
      × Taken n a arena_id id b
unfolding take_chunk
take_from n a arena_id stream r [] v at_arena at_stream =
    (length a.all_chunks, _, rw (at_arena, at_stream) refl, fresh n a arena_id r v at_arena)
take_from n a arena_id stream r (id ∷ rest) v at_arena at_stream =
    (id, _, rw (at_arena, at_stream) refl, reuse n a arena_id stream r id rest v at_arena at_stream)

pub take_chunk_runs :
    (n : ℕ) (a : ChunkAllocator) (arena_id : ArenaId) (stream : StreamId)
    → IsValid n a
    → arena_id < length a.arena2chunks
    → stream < n
    → (id : ChunkId) × (b : ChunkAllocator) × (take_chunk arena_id stream a ≡ some (id, b))
      × Taken n a arena_id id b
take_chunk_runs n a arena_id stream v h k =
    let (r, at_arena) = get_elem?_total a.arena2chunks arena_id h in
    let lists : length r.free_per_stream ≡ n = ground (arith, v.streams arena_id h) in
    let (l, at_stream) = get_elem?_total r.free_per_stream stream (omega arith) in
    take_from n a arena_id stream r l v at_arena at_stream
