-- ===== src/Schedule/Layout.antt =====
-- The memory layout that `into_plan` of src/schedule/scheduler/memory_aware.rs makes of the allocator.
pub mod Disjoint
pub mod Arenas
use my_nn_engine.Prelude.{ℕ, suc, ◌+◌, List, [], ◌∷◌, ◌++◌, Option, none, some, ◌>>=◌, get_elem?}
use my_nn_engine.Schedule.Ir.{ChunkId, ArenaId, ChunkInfo, ArenaInfo}
use my_nn_engine.Schedule.Alloc.{ChunkState, ArenaChunks, ChunkAllocator, align_up}

-- The inner loop over the chunks of an arena; `arena_size` is the space used so far.
unfoldable pub layout_chunks :
    ArenaId → List ChunkState → ℕ → List ChunkId → Option (List ChunkInfo × ℕ)
layout_chunks arena_id all_chunks arena_size [] = some ([], arena_size)
layout_chunks arena_id all_chunks arena_size (cid ∷ owned) = do
  state ← get_elem? all_chunks cid
  (chunks, end) ← layout_chunks arena_id all_chunks (arena_size + align_up state.size) owned
  some (record { id = cid; arena = arena_id; size = state.size; offset = arena_size } ∷ chunks, end)

-- The outer loop over the arenas, from the arena `arena_id` on.
unfoldable pub layout_arenas :
    List ChunkState → ArenaId → List ArenaChunks → Option (List ChunkInfo × List ArenaInfo)
layout_arenas all_chunks arena_id [] = some ([], [])
layout_arenas all_chunks arena_id (arena ∷ rest) = do
  (chunks, arena_size) ← layout_chunks arena_id all_chunks 0 arena.owned
  (more, arenas) ← layout_arenas all_chunks (suc arena_id) rest
  some (chunks ++ more, record { id = arena_id; tier = arena.tier; size = arena_size } ∷ arenas)

unfoldable pub layout : ChunkAllocator → Option (List ChunkInfo × List ArenaInfo)
layout a = layout_arenas a.all_chunks 0 a.arena2chunks
