-- ===== src/Schedule/Scheduler/Extends/Copies.antt =====
-- `ensure_value_on_tier` of src/schedule/scheduler/memory_aware.rs and the trace, with the rules for
-- chains of calls.
use my_nn_engine.Prelude.{
  ℕ, ◌<◌, ◌≡◌, refl, inl, inr, Bool, true, ◌∷◌, Option, none, some, ◌>>=◌, ◌==◌, arith, Bool-cases,
  Option-cases, Returns, Returns->>=, Returns-any,
}
use my_nn_engine.Schedule.Ir.{
  ValueId, ChunkId, StreamId, MemoryTier, AllocPlace, chunk, session_state, initializer, Step,
}
use my_nn_engine.Schedule.Alloc
use my_nn_engine.Schedule.Alloc.{ChunkAllocator}
use my_nn_engine.Schedule.Kernels.{value_byte_size}
use my_nn_engine.Schedule.Scheduler.{
  Fixed, Scheduler, TransferRecord, alloc_chunk, arena_for, fresh_event, mark_place, on_chunk,
  device_on, push,
}
use my_nn_engine.Schedule.Scheduler.OnTier.{
  ensure_value_on_tier, needs_transfer, is_launch_argument, lookup_on, reuse, transfer_to,
}
use my_nn_engine.Schedule.Scheduler.Trace.{recorded}
use my_nn_engine.Schedule.Scheduler.Extends.{
  Core, Extends, Extends-refl, Extends-trans, Extends-memory, Grows-wait, Grows-record, IsRecording,
  transfer-IsRecording, Core-cache, Core-fresh,
}

-- The state that comes with a result extends `s`.
abbrev pub Extending {ℓ} : ℕ → Scheduler → {A : Type ℓ} → A × Scheduler → Type 0
Extending n s r = Extends n s r.1

module _ (n : ℕ) (s : Scheduler) (c : Core n s) where
  pub on_chunk-Extends :
      (change : ChunkId → ChunkAllocator → Option ChunkAllocator) (place : AllocPlace)
      → Returns (Extends n s) (on_chunk change place s)
  on_chunk-Extends change (chunk cid) = elim (Option-cases (change cid s.allocator)) [
    | inl e ↦ rw (e) tt
    | inr (a, e) ↦ rw (e) (Extends-memory n s a s.value2place s.value_remaining_uses c)
  ]
  on_chunk-Extends change (session_state v) = Extends-refl n s c
  on_chunk-Extends change (initializer v) = Extends-refl n s c
  on_chunk-Extends change (AllocPlace.input v) = Extends-refl n s c
  on_chunk-Extends change (AllocPlace.output v) = Extends-refl n s c

  pub mark_place-Extends : (place : AllocPlace) → Returns (Extending n s) (mark_place place s)
  unfolding mark_place
  mark_place-Extends (chunk cid) = elim (Option-cases (Alloc.mark_as_first_use cid s.allocator)) [
    | inl e ↦ rw (e) tt
    | inr ((b, a), e) ↦ rw (e) (Extends-memory n s a s.value2place s.value_remaining_uses c)
  ]
  mark_place-Extends (session_state v) = Extends-refl n s c
  mark_place-Extends (initializer v) = Extends-refl n s c
  mark_place-Extends (AllocPlace.input v) = Extends-refl n s c
  mark_place-Extends (AllocPlace.output v) = Extends-refl n s c

  pub alloc_chunk-Extends :
      (fixed : Fixed) (t : MemoryTier) (size : ℕ) (stream : StreamId) (uses : ℕ)
      → Returns (Extending n s) (alloc_chunk fixed t size stream uses s)
  unfolding alloc_chunk
  alloc_chunk-Extends fixed t size stream uses =
      Returns-any (Extending n s)
        (let r = arena_for fixed t s.allocator in Alloc.alloc size r.0 stream uses r.1) _
        (λ (x : ChunkId × ChunkAllocator) e.
          Extends-memory n s x.1 s.value2place s.value_remaining_uses c)

  reuse-Extends :
      (cached : TransferRecord) (t : MemoryTier) (stream : StreamId)
      → stream < n
      → recorded cached.event s.steps ≡ true
      → Returns (Extending n s) (reuse cached t stream s)
  unfolding reuse
  reuse-Extends cached t stream l h =
      Returns->>= (Extends n s) _ (on_chunk (λ cid. Alloc.add_uses cid 1) cached.place s) _
        (on_chunk-Extends (λ cid. Alloc.add_uses cid 1) cached.place)
        (λ u x. elim (Bool-cases (cached.stream == stream)) [
          | inl e ↦ rw (e) x
          | inr e ↦ rw (e) (
              Extends-trans n s u _ x (record {
                grows =
                    Grows-wait n u x.grows.core (device_on t) stream cached.event l
                      (x.grows.recorded_kept cached.event h);
                infos = refl;
                order = refl;
                loads = refl;
              }))
        ])

  -- A transfer that is pushed after other changes since its event was taken.
  pub recorded-Extends :
      (u : Scheduler)
      → Extends n (fresh_event s).1 u
      → (step : Step) → IsRecording n step s.next_event_id
      → Extends n s (push step u)
  unfolding fresh_event
  recorded-Extends u x step r = record {
    grows = Grows-record n s.steps s.next_event_id u c.below x.grows step r;
    infos = x.infos;
    order = x.order;
    loads = x.loads;
  }

-- The copy of a value is entered with the step that makes it.
cached-Extends :
    (n : ℕ) (s : Scheduler)
    → Core n s
    → (u : Scheduler) → Extends n (fresh_event s).1 u
    → (step : Step) → IsRecording n step s.next_event_id
    → (v : ValueId) (t : MemoryTier) (place : AllocPlace) (stream : StreamId)
    → let r : TransferRecord = record { place = place; event = s.next_event_id; stream = stream } in
      let w = push step u in
      Extends n s (record w { value_on_tier = ((v, t), r) ∷ w.value_on_tier })
unfolding fresh_event
cached-Extends n s c u x step is v t place stream =
    let y = recorded-Extends n s c u x step is in
    let is_it = is.records_it s.next_event_id in
    record {
      grows = record {
        core =
            Core-cache n (push step u) y.grows.core v t
              (record { place = place; event = s.next_event_id; stream = stream }) (ground arith);
        next_le = y.grows.next_le;
        recorded_kept = y.grows.recorded_kept;
        recorded_new = y.grows.recorded_new;
        waited_kept = y.grows.waited_kept;
        before_kept = y.grows.before_kept;
      };
      infos = y.infos;
      order = y.order;
      loads = y.loads;
    }

-- The rule for a chain: what extends a state that extends `s` extends `s`.
pub then-Extends {ℓ κ} :
    {A : Type ℓ} {B : Type κ} (n : ℕ) (s : Scheduler) (m : Option (A × Scheduler))
    (f : A × Scheduler → Option (B × Scheduler))
    → Returns (Extending n s) m
    → ((r : A × Scheduler)
        → Extends n s r.1
        → ((q : B × Scheduler) → Extends n r.1 q.1 → Extends n s q.1)
        → Returns (Extending n s) (f r))
    → Returns (Extending n s) (m >>= f)
then-Extends n s m f h k =
    Returns->>= (Extending n s) (Extending n s) m f h
      (λ r x. k r x (λ q y. Extends-trans n s r.1 q.1 x y))

pub from-Extends {ℓ} :
    {A : Type ℓ} (n : ℕ) (s t : Scheduler) (m : Option (A × Scheduler))
    → Extends n s t
    → Returns (Extending n t) m
    → Returns (Extending n s) m
from-Extends n s t none x h = tt
from-Extends n s t (some q) x h = Extends-trans n s t q.1 x h

pub from_state-Extends :
    (n : ℕ) (s t : Scheduler) (m : Option Scheduler)
    → Extends n s t
    → Returns (Extends n t) m
    → Returns (Extends n s) m
from_state-Extends n s t none x h = tt
from_state-Extends n s t (some q) x h = Extends-trans n s t q x h

module _ (n : ℕ) (fixed : Fixed) where
  transfer_to-Extends :
      (value : ValueId) (original : AllocPlace) (t : MemoryTier) (stream : StreamId) (s : Scheduler)
      → Core n s
      → stream < n
      → Returns (Extending n s) (transfer_to fixed value original t stream s)
  unfolding transfer_to
  transfer_to-Extends value original t stream s c l =
      Returns-any (Extending n s) (value_byte_size fixed.schedule value) _ (λ size e.
        then-Extends n s (alloc_chunk fixed t size stream 1 s) _
          (alloc_chunk-Extends n s c fixed t size stream 1)
          (λ (r : ChunkId × Scheduler) x trans.
            let s2 = (fresh_event r.1).1 in
            from-Extends n s r.1 _ x (
              Returns->>= (Extending n s2) (Extending n r.1) (mark_place original s2) _
                (mark_place-Extends n s2 (Core-fresh n r.1 x.grows.core) original)
                (λ (a : Bool × Scheduler) y.
                  Returns->>= (Extending n s2) (Extending n r.1) (mark_place (chunk r.0) a.1) _
                    (from-Extends n s2 a.1 _ y (mark_place-Extends n a.1 y.grows.core (chunk r.0)))
                    (λ (b : Bool × Scheduler) z.
                      cached-Extends n r.1 x.grows.core b.1 z _
                        (transfer-IsRecording n _ _ (device_on t) stream r.1.next_event_id l) value
                        t (chunk r.0) stream)))))

  pub ensure_value_on_tier-Extends :
      (value : ValueId) (original : AllocPlace) (t : MemoryTier) (stream : StreamId) (s : Scheduler)
      → Core n s
      → stream < n
      → Returns (Extending n s) (ensure_value_on_tier fixed value original t stream s)
  unfolding ensure_value_on_tier
  ensure_value_on_tier-Extends value original t stream s c l =
      Returns-any (Extending n s) (needs_transfer fixed original t s) _ (λ needed e.
        elim (Bool-cases needed) [
          | inl y ↦ rw (y) (
              Returns-any (Extending n s) (is_launch_argument fixed.schedule value) _ (λ passed d.
                elim (Bool-cases passed) [
                  | inl z ↦ rw (z) (Extends-refl n s c)
                  | inr z ↦ elim (Option-cases (lookup_on value t s.value_on_tier)) [
                    | inl f ↦ rw (z, f) (transfer_to-Extends value original t stream s c l)
                    | inr (r, f) ↦
                        rw (z, f) (reuse-Extends n s c r t stream l (c.cached value t r f))
                  ]
                ]))
          | inr y ↦ rw (y) (Extends-refl n s c)
        ])
