-- ===== src/Schedule/Tests.antt =====
-- The allocator and the layout on a concrete allocator.
use my_nn_engine.Prelude.{
  ℕ, ◌<◌, ◌≤◌, ◌≡◌, zero, suc, refl, true, false, List, [], ◌∷◌, some, arith, All, length,
  get_elem?, ◌%◌, ◌+◌,
}
use my_nn_engine.Schedule.Ir.{ChunkId, ChunkInfo, ArenaInfo, gpu_arena}
use my_nn_engine.Schedule.Alloc.{
  ChunkState, ChunkAllocator, alloc, consume, release_if_dead, add_uses, align_up, new_arena,
}
use my_nn_engine.Schedule.Alloc.Counts.{IsValid, count, free_in, idle, of_arena, owned_in}
use my_nn_engine.Schedule.Alloc.Lifetime.{
  Consumed, consume-IsValid, release_if_dead-IsValid, add_uses-IsValid,
}
use my_nn_engine.Schedule.Alloc.Take.{Handed, Opened, alloc-IsValid, new_arena-IsValid}
use my_nn_engine.Schedule.Layout.{layout}
use my_nn_engine.Schedule.Layout.Disjoint.{AllApart, IsPlaced, Inside, ids, align_up_lem}
use my_nn_engine.Schedule.Layout.Arenas.{layout-AllApart}

-- One arena with two streams, a chunk in use and a chunk that waits on the free list of stream 1.
abbrev live : ChunkState
live = record { arena_id = 0; size = 300; live_uses = 2; first_use = false }

abbrev waiting : ChunkState
waiting = record { arena_id = 0; size = 10; live_uses = 0; first_use = true }

abbrev sample : ChunkAllocator
sample = record {
  arena2chunks =
      record { tier = gpu_arena; owned = 0 ∷ 1 ∷ []; free_per_stream = [] ∷ (1 ∷ []) ∷ [] } ∷ [];
  all_chunks = live ∷ waiting ∷ [];
}

sample_placed :
    (c : ChunkId) (s : ChunkState)
    → get_elem? sample.all_chunks c ≡ some s
    → s.arena_id < length sample.arena2chunks
sample_placed zero s e = ground arith
sample_placed (suc zero) s e = ground arith
sample_placed (suc (suc c)) s e = cc

sample_free_idle : (i c : ℕ) → free_in sample i c ≤ idle i (get_elem? sample.all_chunks c)
sample_free_idle zero zero = ground arith
sample_free_idle zero (suc zero) = ground arith
sample_free_idle zero (suc (suc c)) = ground arith
sample_free_idle (suc i) c = ground arith

sample_owned_once : (i c : ℕ) → owned_in sample i c ≡ of_arena i (get_elem? sample.all_chunks c)
sample_owned_once zero zero = ground arith
sample_owned_once zero (suc zero) = ground arith
sample_owned_once zero (suc (suc c)) = ground arith
sample_owned_once (suc i) zero = ground arith
sample_owned_once (suc i) (suc zero) = ground arith
sample_owned_once (suc i) (suc (suc c)) = ground arith

sample-IsValid : IsValid 2 sample
sample-IsValid = record {
  streams = λ i h. ground arith;
  placed = sample_placed;
  free_idle = sample_free_idle;
  owned_once = sample_owned_once;
}

alloc-IsValid_example :
    (id : ChunkId) × (b : ChunkAllocator) × (alloc 64 0 1 3 sample ≡ some (id, b))
    × Handed 2 sample 64 0 3 id b
alloc-IsValid_example = alloc-IsValid 2 sample 64 0 1 3 sample-IsValid (omega arith) (omega arith)

consume-IsValid_example :
    (b : ChunkAllocator) × (consume 0 1 sample ≡ some b) × Consumed 2 sample 0 live b
consume-IsValid_example =
    consume-IsValid 2 sample 0 1 live sample-IsValid (omega arith) refl (omega arith)

release_if_dead-IsValid_example :
    (b : ChunkAllocator) × (release_if_dead 0 1 sample ≡ some b)
    × IsValid 2 b
    × (b.all_chunks ≡ sample.all_chunks)
    × (free_in b 0 0 ≡ 0)
release_if_dead-IsValid_example =
    release_if_dead-IsValid 2 sample 0 1 live sample-IsValid (omega arith) refl refl

add_uses-IsValid_example :
    (b : ChunkAllocator) × (add_uses 0 5 sample ≡ some b)
    × IsValid 2 b
    × (get_elem? b.all_chunks 0 ≡ some (record live { live_uses = 7 }))
add_uses-IsValid_example = add_uses-IsValid 2 sample 0 5 live sample-IsValid refl refl

new_arena-IsValid_example :
    Opened 2 sample gpu_arena (new_arena gpu_arena 2 sample).0 (new_arena gpu_arena 2 sample).1
new_arena-IsValid_example = new_arena-IsValid 2 sample gpu_arena sample-IsValid

align_up_lem_example : (align_up 300 % 256 ≡ 0) × (300 ≤ align_up 300) × (align_up 300 < 300 + 256)
align_up_lem_example = align_up_lem 300

layout-AllApart_example :
    (chunks : List ChunkInfo) × (arenas : List ArenaInfo) × (layout sample ≡ some (chunks, arenas))
    × AllApart chunks
    × All (IsPlaced sample.all_chunks) chunks
    × All (Inside arenas) chunks
    × ((c : ChunkId) → c < length sample.all_chunks → count c (ids chunks) ≡ 1)
    × ((c : ChunkId) → length sample.all_chunks ≤ c → count c (ids chunks) ≡ 0)
layout-AllApart_example = layout-AllApart 2 sample sample-IsValid
