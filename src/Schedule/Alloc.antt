-- ===== src/Schedule/Alloc.antt =====
-- `ChunkAllocator` of src/schedule/scheduler/common.rs. A free list is a stack, its last element
-- first. `none` is a panic (an index out of range).
pub mod Counts
pub mod Effects
pub mod Lifetime
pub mod Reuse
pub mod Take
use my_nn_engine.Prelude.{
  ℕ, ◌+◌, ◌-◌, ◌*◌, ◌/◌, ◌%◌, Bool, true, false, not, List, [], ◌∷◌, ◌++◌, Option, none, some,
  ◌>>=◌, length, get_elem?, set, replicate, max, ◌==◌, if◌then◌else◌,
}
use mathlib.Core.Option
use my_nn_engine.Schedule.Ir.{MemoryTier, ChunkId, ArenaId, StreamId}

abbrev pub alignment : ℕ
alignment = 256

-- `next_multiple_of`.
unfoldable pub align_up : ℕ → ℕ
align_up size = if size % alignment == 0 then size else size + (alignment - size % alignment)

pub record ChunkState : Type 0 where
  pub arena_id : ArenaId
  pub size : ℕ
  pub live_uses : ℕ
  pub first_use : Bool

pub record ArenaChunks : Type 0 where
  pub tier : MemoryTier
  pub owned : List ChunkId
  pub free_per_stream : List (List ChunkId)

unfoldable pub new_chunks : MemoryTier → ℕ → ArenaChunks
new_chunks tier num_streams = record {
  tier = tier;
  owned = [];
  free_per_stream = replicate num_streams [];
}

pub record ChunkAllocator : Type 0 where
  pub arena2chunks : List ArenaChunks
  pub all_chunks : List ChunkState

abbrev pub empty : ChunkAllocator
empty = record { arena2chunks = []; all_chunks = [] }

unfoldable pub new_arena : MemoryTier → ℕ → ChunkAllocator → ArenaId × ChunkAllocator
unfolding new_chunks
new_arena tier num_streams a = (
  length a.arena2chunks,
  record a { arena2chunks = a.arena2chunks ++ new_chunks tier num_streams ∷ [] },
)

unfoldable pub chunk_tier : ChunkId → ChunkAllocator → Option MemoryTier
chunk_tier id a = do
  state ← get_elem? a.all_chunks id
  arena ← get_elem? a.arena2chunks state.arena_id
  some arena.tier

-- `self.all_chunks[id]` changed in place.
abbrev pub modify_chunk :
    ChunkId → (ChunkState → ChunkState) → ChunkAllocator → Option ChunkAllocator
modify_chunk id f a =
    Option.map (λ c. record a { all_chunks = set a.all_chunks id (f c) })
      (get_elem? a.all_chunks id)

-- The free chunk on top of the stream's list, or a new chunk of size 0.
unfoldable pub take_chunk : ArenaId → StreamId → ChunkAllocator → Option (ChunkId × ChunkAllocator)
take_chunk arena_id stream a = do
  arena ← get_elem? a.arena2chunks arena_id
  free ← get_elem? arena.free_per_stream stream
  some (elim free [
    | [] ↦
        let id = length a.all_chunks in
        (
          id,
          record a {
            arena2chunks =
                set a.arena2chunks arena_id (record arena { owned = arena.owned ++ id ∷ [] });
            all_chunks =
                a.all_chunks
                ++ record { arena_id = arena_id; size = 0; live_uses = 0; first_use = false } ∷ [];
          },
        )
    | id ∷ rest ↦ (
      id,
      record a {
        arena2chunks =
            set a.arena2chunks arena_id
              (record arena { free_per_stream = set arena.free_per_stream stream rest });
      },
    )
  ])

unfoldable pub alloc :
    ℕ → ArenaId → StreamId → ℕ → ChunkAllocator → Option (ChunkId × ChunkAllocator)
alloc size arena_id stream uses a = do
  (id, b) ← take_chunk arena_id stream a
  c ← modify_chunk id (λ e. record e { size = max e.size size; live_uses = e.live_uses + uses }) b
  some (id, c)

unfoldable pub free : ChunkId → StreamId → ChunkAllocator → Option ChunkAllocator
free id stream a = do
  state ← get_elem? a.all_chunks id
  arena ← get_elem? a.arena2chunks state.arena_id
  list ← get_elem? arena.free_per_stream stream
  some (record a {
    arena2chunks =
        set a.arena2chunks state.arena_id
          (record arena { free_per_stream = set arena.free_per_stream stream (id ∷ list) });
  })

unfoldable pub release_if_dead : ChunkId → StreamId → ChunkAllocator → Option ChunkAllocator
release_if_dead id stream a = do
  state ← get_elem? a.all_chunks id
  if state.live_uses == 0 then free id stream a else some a

unfoldable pub add_uses : ChunkId → ℕ → ChunkAllocator → Option ChunkAllocator
add_uses id uses a = modify_chunk id (λ e. record e { live_uses = e.live_uses + uses }) a

unfoldable pub mark_as_first_use : ChunkId → ChunkAllocator → Option (Bool × ChunkAllocator)
mark_as_first_use id a = do
  state ← get_elem? a.all_chunks id
  b ← modify_chunk id (λ e. record e { first_use = true }) a
  some (not state.first_use, b)

-- `saturating_sub` is the subtraction that stops at 0.
unfoldable pub consume : ChunkId → StreamId → ChunkAllocator → Option ChunkAllocator
consume id stream a = do
  b ← modify_chunk id (λ e. record e { live_uses = e.live_uses - 1 }) a
  entry ← get_elem? b.all_chunks id
  if entry.live_uses == 0 then free id stream b else some b
