-- ===== src/Schedule/Scheduler/Extends.antt =====
-- How a method of `Scheduler` in src/schedule/scheduler/memory_aware.rs extends the trace of steps.
pub mod Copies
pub mod Bindings
use my_nn_engine.Prelude.{
  ℕ, ◌+◌, ◌<◌, ◌≤◌, ◌≡◌, refl, ◌∙◌, inl, inr, Bool, true, false, ◌&&◌, List, [], ◌∷◌, Option, none,
  some, ◌>>=◌, ◌==◌, if◌then◌else◌, arith, Bool-cases, Returns,
}
use mathlib.Core.Option
use my_nn_engine.Schedule.Ir.{
  ValueId, ChunkId, StreamId, EventId, Device, MemoryTier, tier_eq, AllocPlace, chunk, ValueBinding,
  Step,
}
use my_nn_engine.Schedule.Alloc
use my_nn_engine.Schedule.Alloc.{ChunkAllocator}
use my_nn_engine.Schedule.Scheduler.{
  Scheduler, TransferRecord, push, wait_step, transfer_step, mark_place, on_chunk,
}
use my_nn_engine.Schedule.Scheduler.OnTier.{lookup_on}
use my_nn_engine.Schedule.Scheduler.Trace.{
  records, waits, stream_of, recorded, waited, before, Follows, IsTraced, wait-Follows,
}

-- The trace is in order, its events lie below the next one, and the copies on other tiers stand by
-- recorded events.
pub record Core (n : ℕ) (s : Scheduler) : Type 0 where
  pub traced : IsTraced n s.steps
  pub below : (e : EventId) → recorded e s.steps ≡ true → e < s.next_event_id
  pub cached :
      (v : ValueId) (t : MemoryTier) (r : TransferRecord)
      → lookup_on v t s.value_on_tier ≡ some r
      → recorded r.event s.steps ≡ true

-- `t` comes from a state with these steps and this next event by pushing steps that record no other
-- events than the later ones.
pub record Grows (n : ℕ) (steps : List Step) (next : ℕ) (t : Scheduler) : Type 0 where
  pub core : Core n t
  pub next_le : next ≤ t.next_event_id
  pub recorded_kept : (e : EventId) → recorded e steps ≡ true → recorded e t.steps ≡ true
  pub recorded_new :
      (e : EventId) → e < next → recorded e steps ≡ false → recorded e t.steps ≡ false
  pub waited_kept : (stream e : ℕ) → waited stream e steps ≡ true → waited stream e t.steps ≡ true
  pub before_kept : (e : EventId) → recorded e steps ≡ true → before e t.steps ≡ before e steps

pub Grows-refl : (n : ℕ) (s : Scheduler) → Core n s → Grows n s.steps s.next_event_id s
Grows-refl n s c = record {
  core = c;
  next_le = omega arith;
  recorded_kept = λ e h. h;
  recorded_new = λ e l h. h;
  waited_kept = λ stream e h. h;
  before_kept = λ e h. refl;
}

pub Grows-trans :
    (n : ℕ) (steps : List Step) (next : ℕ) (t u : Scheduler)
    → Grows n steps next t
    → Grows n t.steps t.next_event_id u
    → Grows n steps next u
Grows-trans n steps next t u x y = record {
  core = y.core;
  next_le = omega (arith, x.next_le, y.next_le);
  recorded_kept = λ e h. y.recorded_kept e (x.recorded_kept e h);
  recorded_new = λ e l h. y.recorded_new e (omega (arith, x.next_le)) (x.recorded_new e l h);
  waited_kept = λ stream e h. y.waited_kept stream e (x.waited_kept stream e h);
  before_kept = λ e h. y.before_kept e (x.recorded_kept e h) ∙ x.before_kept e h;
}

-- A wait for an event that was recorded.
pub Grows-wait :
    (n : ℕ) (s : Scheduler)
    → Core n s
    → (device : Device) (stream : StreamId) (event : EventId) → stream < n
    → recorded event s.steps ≡ true
    → Grows n s.steps s.next_event_id (push (wait_step device stream event) s)
Grows-wait n s c device stream event l h = record {
  core = record {
    traced = (wait-Follows n device stream event s.steps l h, c.traced);
    below = c.below;
    cached = c.cached;
  };
  next_le = omega arith;
  recorded_kept = λ e h. h;
  recorded_new = λ e l h. h;
  waited_kept = λ st e k. ground arith;
  before_kept = λ e h. refl;
}

-- A step that records one event and waits for none.
pub record IsRecording (n : ℕ) (step : Step) (event : EventId) : Type 0 where
  pub records_it : (e : EventId) → records step e ≡ (event == e)
  pub waits_not : (e : EventId) → waits step e ≡ false
  pub on_stream : stream_of step < n

-- The step records an event that was taken before the steps since.
pub Grows-record :
    (n : ℕ) (steps : List Step) (event : EventId) (u : Scheduler)
    → ((e : EventId) → recorded e steps ≡ true → e < event)
    → Grows n steps (event + 1) u
    → (step : Step) → IsRecording n step event
    → Grows n steps event (push step u)
Grows-record n steps event u below g step r =
    let absent : recorded event steps ≡ false = elim (Bool-cases (recorded event steps)) [
      | inl h ↦ absurd (omega (arith, below event h))
      | inr h ↦ h
    ] in
    let absent_in_u = g.recorded_new event (omega arith) absent in
    record {
      core = record {
        traced = (
          record {
            waits_recorded = λ e h. let w = r.waits_not e in cc;
            records_new = λ e h.
                let is = r.records_it e in
                let same : event ≡ e = ground arith in rw (← same) absent_in_u;
            on_stream = r.on_stream;
          },
          g.core.traced,
        );
        below = λ e h.
            let is = r.records_it e in
            elim (Bool-cases (recorded e u.steps)) [
              | inl k ↦ g.core.below e k
              | inr k ↦ let m = g.next_le in ground arith
            ];
        cached = λ v t q e. let k = g.core.cached v t q e in ground arith;
      };
      next_le = omega (arith, g.next_le);
      recorded_kept = λ e h. let k = g.recorded_kept e h in ground arith;
      recorded_new = λ e l h.
          let is = r.records_it e in let k = g.recorded_new e (omega arith) h in ground arith;
      waited_kept =
          λ stream e h. let k = g.waited_kept stream e h in let w = r.waits_not e in ground arith;
      before_kept = λ e h.
          let is = r.records_it e in let l = below e h in let k = g.before_kept e h in ground arith;
    }

-- The fields that the other methods set stay as they are.
pub record Extends (n : ℕ) (s t : Scheduler) : Type 0 where
  pub grows : Grows n s.steps s.next_event_id t
  pub infos : t.kernel_info ≡ s.kernel_info
  pub order : t.order ≡ s.order
  pub loads : t.stream_load ≡ s.stream_load

pub Extends-refl : (n : ℕ) (s : Scheduler) → Core n s → Extends n s s
Extends-refl n s c = record { grows = Grows-refl n s c; infos = refl; order = refl; loads = refl }

pub Extends-trans : (n : ℕ) (s t u : Scheduler) → Extends n s t → Extends n t u → Extends n s u
Extends-trans n s t u x y = record {
  grows = Grows-trans n s.steps s.next_event_id t u x.grows y.grows;
  infos = y.infos ∙ x.infos;
  order = y.order ∙ x.order;
  loads = y.loads ∙ x.loads;
}

-- A change of the allocator, the places and the use counts.
pub Grows-memory :
    (n : ℕ) (s : Scheduler) (a : ChunkAllocator) (places : List (ValueId × AllocPlace))
    (uses : List (ValueId × ℕ))
    → Core n s
    → Grows n s.steps s.next_event_id
        (record s { allocator = a; value2place = places; value_remaining_uses = uses })
Grows-memory n s a places uses c = record {
  core = record { traced = c.traced; below = c.below; cached = c.cached };
  next_le = omega arith;
  recorded_kept = λ e h. h;
  recorded_new = λ e l h. h;
  waited_kept = λ stream e h. h;
  before_kept = λ e h. refl;
}

pub Extends-memory :
    (n : ℕ) (s : Scheduler) (a : ChunkAllocator) (places : List (ValueId × AllocPlace))
    (uses : List (ValueId × ℕ))
    → Core n s
    → Extends n s (record s { allocator = a; value2place = places; value_remaining_uses = uses })
Extends-memory n s a places uses c = record {
  grows = Grows-memory n s a places uses c;
  infos = refl;
  order = refl;
  loads = refl;
}

-- A transfer that records the event taken before the steps since.
pub transfer-IsRecording :
    (n : ℕ) (src dst : ValueBinding) (device : Device) (stream : StreamId) (event : EventId)
    → stream < n
    → IsRecording n (transfer_step src dst device stream event) event
transfer-IsRecording n src dst device stream event l = record {
  records_it = λ e. refl;
  waits_not = λ e. refl;
  on_stream = l;
}

-- A copy on another tier is entered.
pub Core-cache :
    (n : ℕ) (s : Scheduler)
    → Core n s
    → (v : ValueId) (t : MemoryTier) (r : TransferRecord) → recorded r.event s.steps ≡ true
    → Core n (record s { value_on_tier = ((v, t), r) ∷ s.value_on_tier })
Core-cache n s c v t r h = record {
  traced = c.traced;
  below = c.below;
  cached = λ w u q e. elim (Bool-cases ((v == w) && tier_eq t u)) [
    | inl k ↦ let same : r ≡ q = ground arith in rw (← same) h
    | inr k ↦ c.cached w u q (ground arith)
  ];
}

-- The next event is taken.
pub Core-fresh :
    (n : ℕ) (s : Scheduler) → Core n s → Core n (record s { next_event_id = s.next_event_id + 1 })
Core-fresh n s c = record {
  traced = c.traced;
  below = λ e h. omega (arith, c.below e h);
  cached = c.cached;
}
