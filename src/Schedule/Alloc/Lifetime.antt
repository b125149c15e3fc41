-- ===== src/Schedule/Alloc/Lifetime.antt =====
-- The operations on the uses of a chunk.
use my_nn_engine.Prelude.{
  ℕ, ◌+◌, ◌-◌, ◌<◌, ◌≡◌, ◌≢◌, refl, true, not, some, get_elem?, set, ◌==◌, if◌then◌else◌, arith,
  Bool-cases, inl, inr,
}
use my_nn_engine.Schedule.Ir.{ChunkId, StreamId}
use my_nn_engine.Schedule.Alloc.{
  ChunkState, ChunkAllocator, release_if_dead, add_uses, mark_as_first_use, consume, modify_chunk,
}
use my_nn_engine.Schedule.Alloc.Counts.{IsValid, free_in, get_elem?-set}
use my_nn_engine.Schedule.Alloc.Effects.{
  free_runs, Freed-IsValid, Modified, modify_chunk_runs, Modified-IsValid,
}

-- After one of the uses of a live chunk is consumed: the chunk has one use less, and is on a free
-- list exactly if that was the last one; the other chunks are as they were.
pub record Consumed (n : ℕ) (a : ChunkAllocator) (id : ChunkId) (old : ChunkState)
    (b : ChunkAllocator) : Type 0 where
  pub valid : IsValid n b
  pub state_after : get_elem? b.all_chunks id ≡ some (record old { live_uses = old.live_uses - 1 })
  pub freed : free_in b old.arena_id id ≡ (if old.live_uses == 1 then 1 else 0)
  pub others : (c : ChunkId) → c ≢ id → get_elem? b.all_chunks c ≡ get_elem? a.all_chunks c

free_in-live :
    (n : ℕ) (a : ChunkAllocator) (id : ChunkId) (old : ChunkState)
    → IsValid n a
    → get_elem? a.all_chunks id ≡ some old
    → 0 < old.live_uses
    → free_in a old.arena_id id ≡ 0
free_in-live n a id old v here live = ground (arith, v.free_idle old.arena_id id)

-- After the use is taken off, the chunk goes on the free list if it was the last one.
consume_rest :
    (n : ℕ) (a m : ChunkAllocator) (id : ChunkId) (stream : StreamId) (old : ChunkState)
    → stream < n
    → modify_chunk id (λ e. record e { live_uses = e.live_uses - 1 }) a ≡ some m
    → Modified a id (record old { live_uses = old.live_uses - 1 }) m
    → IsValid n m
    → 0 < old.live_uses
    → free_in m old.arena_id id ≡ 0
    → (b : ChunkAllocator) × (consume id stream a ≡ some b) × Consumed n a id old b
unfolding consume
consume_rest n a m id stream old h m_runs modified v live off =
    let state : ChunkState = record old { live_uses = old.live_uses - 1 } in
    let there : get_elem? m.all_chunks id ≡ some state = ground (arith, modified.states id) in
    elim (Bool-cases (old.live_uses - 1 == 0)) [
      | inl last ↦
          let (b, b_runs, freed) = free_runs n id stream m state v h there in
          (
            b,
            rw (m_runs, there, last) b_runs,
            record {
              valid = Freed-IsValid n m b id state v there (ground arith) off freed;
              state_after = rw freed.chunks_same there;
              freed = ground (arith, freed.listed old.arena_id id);
              others = λ c ne. ground (arith, freed.chunks_same, modified.states c);
            },
          )
      | inr more ↦ (
        m,
        rw (m_runs, there, more) refl,
        record {
          valid = v;
          state_after = there;
          freed = ground arith;
          others = λ c ne. ground (arith, modified.states c);
        },
      )
    ]

-- On a valid allocator, to consume a use of a chunk that has one, for a stream there is, returns
-- a valid allocator: the chunk has one use less, it is on a free list exactly if that was the
-- last use, and the other chunks are as they were.
pub consume-IsValid :
    (n : ℕ) (a : ChunkAllocator) (id : ChunkId) (stream : StreamId) (old : ChunkState)
    → IsValid n a
    → stream < n
    → get_elem? a.all_chunks id ≡ some old
    → 0 < old.live_uses
    → (b : ChunkAllocator) × (consume id stream a ≡ some b) × Consumed n a id old b
consume-IsValid n a id stream old v h here live =
    let off = free_in-live n a id old v here live in
    let (m, m_runs, modified) =
      modify_chunk_runs id (λ e. record e { live_uses = e.live_uses - 1 }) a old here in
    consume_rest n a m id stream old h m_runs modified
      (Modified-IsValid n a m id old (record old { live_uses = old.live_uses - 1 }) v here refl
        (rw off (omega arith)) modified)
      live (ground (arith, modified.arenas_same))

-- On a valid allocator, `release_if_dead` of a chunk that is on no free list, for a stream there
-- is, returns a valid allocator with the same chunk states, in which the chunk is on a free list
-- exactly if nobody uses it.
pub release_if_dead-IsValid :
    (n : ℕ) (a : ChunkAllocator) (id : ChunkId) (stream : StreamId) (state : ChunkState)
    → IsValid n a
    → stream < n
    → get_elem? a.all_chunks id ≡ some state
    → free_in a state.arena_id id ≡ 0
    → (b : ChunkAllocator) × (release_if_dead id stream a ≡ some b)
      × IsValid n b
      × (b.all_chunks ≡ a.all_chunks)
      × (free_in b state.arena_id id ≡ (if state.live_uses == 0 then 1 else 0))
unfolding release_if_dead
release_if_dead-IsValid n a id stream state v h here off =
    elim (Bool-cases (state.live_uses == 0)) [
      | inl dead ↦
          let (b, b_runs, freed) = free_runs n id stream a state v h here in
          (
            b,
            rw (here, dead) b_runs,
            Freed-IsValid n a b id state v here (ground arith) off freed,
            freed.chunks_same,
            ground (arith, freed.listed state.arena_id id),
          )
      | inr live ↦ (a, rw (here, live) refl, v, refl, rw live off)
    ]

-- On a valid allocator, adding uses to a chunk that is on no free list returns a valid allocator
-- in which the chunk has that many uses more.
pub add_uses-IsValid :
    (n : ℕ) (a : ChunkAllocator) (id : ChunkId) (uses : ℕ) (old : ChunkState)
    → IsValid n a
    → get_elem? a.all_chunks id ≡ some old
    → free_in a old.arena_id id ≡ 0
    → (b : ChunkAllocator) × (add_uses id uses a ≡ some b)
      × IsValid n b
      × (get_elem? b.all_chunks id ≡ some (record old { live_uses = old.live_uses + uses }))
unfolding add_uses
add_uses-IsValid n a id uses old v here off =
    let state : ChunkState = record old { live_uses = old.live_uses + uses } in
    let (b, b_runs, m) =
      modify_chunk_runs id (λ e. record e { live_uses = e.live_uses + uses }) a old here in
    (
      b,
      b_runs,
      Modified-IsValid n a b id old state v here refl (rw off (omega arith)) m,
      ground (arith, m.states id),
    )

-- On a valid allocator, marking a chunk as used answers whether it was unmarked, and returns a
-- valid allocator in which it is marked and otherwise as it was.
mark_as_first_use-IsValid :
    (n : ℕ) (a : ChunkAllocator) (id : ChunkId) (old : ChunkState)
    → IsValid n a
    → get_elem? a.all_chunks id ≡ some old
    → (b : ChunkAllocator) × (mark_as_first_use id a ≡ some (not old.first_use, b))
      × IsValid n b
      × (get_elem? b.all_chunks id ≡ some (record old { first_use = true }))
unfolding mark_as_first_use
mark_as_first_use-IsValid n a id old v here =
    let state : ChunkState = record old { first_use = true } in
    let b : ChunkAllocator = record a { all_chunks = set a.all_chunks id state } in
    let m : Modified a id state b = record {
      arenas_same = refl;
      states = λ c. get_elem?-set a.all_chunks id c state old here;
    } in
    (
      b,
      rw here refl,
      Modified-IsValid n a b id old state v here refl (ground (arith, v.free_idle old.arena_id id))
          m,
      ground (arith, m.states id),
    )
