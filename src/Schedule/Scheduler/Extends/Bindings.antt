-- ===== src/Schedule/Scheduler/Extends/Bindings.antt =====
-- `bind_kernel` of src/schedule/scheduler/memory_aware.rs and the trace.
use my_nn_engine.Prelude.{
  ℕ, ◌<◌, inl, inr, Bool, true, false, List, [], ◌∷◌, Option, none, some, ◌>>=◌, get_elem?,
  if◌then◌else◌, Bool-cases, Option-cases, Returns, Returns->>=, Returns-any,
}
use my_nn_engine.Schedule.Ir.{
  ValueId, KernelId, ChunkId, StreamId, MemoryTier, host_arena, tier, tier_eq, AllocPlace,
  ValueBinding,
}
use my_nn_engine.Schedule.Alloc
use my_nn_engine.Schedule.Kernels.{Kernel, contains, flatten, value_byte_size}
use my_nn_engine.Schedule.Deps.{lookup}
use my_nn_engine.Schedule.Order.Pick.{remaining}
use my_nn_engine.Schedule.Scheduler.{
  Fixed, Scheduler, KernelInfo, alloc_chunk, is_output, mark_place, on_chunk,
}
use my_nn_engine.Schedule.Scheduler.Bind.{
  PostTransfer, is_workspace, place_in_chunk, input_place, bind_input, bind_inputs, output_place,
  post_transfer, bind_output, bind_outputs, try_in_place_identity, must_in_place_place, bind_kernel,
  place_value,
}
use my_nn_engine.Schedule.Scheduler.Extends.{
  Core, Extends, Extends-refl, Extends-trans, Extends-memory,
}
use my_nn_engine.Schedule.Scheduler.Extends.Copies.{
  Extending, on_chunk-Extends, mark_place-Extends, alloc_chunk-Extends, then-Extends, from-Extends,
  from_state-Extends, ensure_value_on_tier-Extends,
}

place_value-Extends :
    (n : ℕ) (v : ValueId) (place : AllocPlace) (s : Scheduler)
    → Core n s
    → Extends n s (place_value v place s)
place_value-Extends n v place s c =
    Extends-memory n s s.allocator ((v, place) ∷ s.value2place) s.value_remaining_uses c

module _ (n : ℕ) (fixed : Fixed) (t : MemoryTier) (stream : StreamId) (l : stream < n) where
  place_in_chunk-Extends :
      (v : ValueId) (s : Scheduler)
      → Core n s
      → Returns (Extending n s) (place_in_chunk fixed v t stream s)
  unfolding place_in_chunk
  place_in_chunk-Extends v s c =
      Returns-any (Extending n s) (value_byte_size fixed.schedule v) _ (λ size e.
        then-Extends n s (alloc_chunk fixed t size stream (remaining s.value_remaining_uses v) s) _
          (alloc_chunk-Extends n s c fixed t size stream (remaining s.value_remaining_uses v))
          (λ (r : ChunkId × Scheduler) x trans. x))

  input_place-Extends :
      (v : ValueId) (s : Scheduler)
      → Core n s
      → Returns (Extending n s) (input_place fixed v t stream s)
  unfolding input_place
  input_place-Extends v s c = elim (Bool-cases (is_workspace fixed v)) [
    | inl e ↦ rw (e) (
        then-Extends n s (place_in_chunk fixed v t stream s) _ (place_in_chunk-Extends v s c)
          (λ (r : AllocPlace × Scheduler) x trans.
            Extends-trans n s r.1 _ x (place_value-Extends n v r.0 r.1 x.grows.core)))
    | inr e ↦ rw (e) (
        Returns-any (Extending n s) (lookup v s.value2place) _
          (λ original d. ensure_value_on_tier-Extends n fixed v original t stream s c l))
  ]

  bind_input-Extends :
      (v : ValueId) (s : Scheduler)
      → Core n s
      → Returns (Extending n s) (bind_input fixed v t stream s)
  unfolding bind_input
  bind_input-Extends v s c = elim (Bool-cases (contains fixed.schedule.initializers v)) [
    | inl e ↦ rw (e) (Extends-refl n s c)
    | inr e ↦ rw (e) (
        then-Extends n s (input_place fixed v t stream s) _ (input_place-Extends v s c)
          (λ (r : AllocPlace × Scheduler) x trans.
            then-Extends n s (mark_place r.0 r.1) _
              (from-Extends n s r.1 _ x (mark_place-Extends n r.1 x.grows.core r.0))
              (λ (q : Bool × Scheduler) y trans. y)))
  ]

  pub bind_inputs-Extends :
      (vs : List ValueId) (s : Scheduler)
      → Core n s
      → Returns (Extending n s) (bind_inputs fixed t stream vs s)
  unfolding bind_inputs
  bind_inputs-Extends [] s c = Extends-refl n s c
  bind_inputs-Extends (v ∷ vs) s c =
      then-Extends n s (bind_input fixed v t stream s) _ (bind_input-Extends v s c)
        (λ (r : ValueBinding × Scheduler) x trans.
          then-Extends n s (bind_inputs fixed t stream vs r.1) _
            (from-Extends n s r.1 _ x (bind_inputs-Extends vs r.1 x.grows.core))
            (λ (q : List ValueBinding × Scheduler) y trans. y))

  allocated-Extends :
      (v : ValueId) (s : Scheduler)
      → Core n s
      → Returns
          (Extending n s {A = AllocPlace × Bool})
          (place_in_chunk fixed v t stream s >>= λ r. some ((r.0, true), r.1))
  allocated-Extends v s c =
      then-Extends n s (place_in_chunk fixed v t stream s)
        (λ (r : AllocPlace × Scheduler). some ((r.0, true), r.1)) (place_in_chunk-Extends v s c)
        (λ (r : AllocPlace × Scheduler) x trans. x)

  output_place-Extends :
      (alias must : Option AllocPlace) (v : ValueId) (s : Scheduler)
      → Core n s
      → Returns (Extending n s) (output_place fixed alias must v t stream s)
  unfolding output_place
  output_place-Extends (some p) must v s c = Extends-refl n s c
  output_place-Extends none (some p) v s c = Extends-refl n s c
  output_place-Extends none none v s c = elim (Option-cases (lookup v fixed.output_alias)) [
    | inl e ↦ rw (output_place, e) (allocated-Extends v s c)
    | inr (target, e) ↦ elim (Bool-cases (tier_eq t host_arena)) [
      | inl d ↦ rw (output_place, e, d) (Extends-refl n s c)
      | inr d ↦ rw (output_place, e, d) (allocated-Extends v s c)
    ]
  ]

  post_transfer-Extends :
      (v : ValueId) (place : AllocPlace) (s : Scheduler)
      → Core n s
      → Returns (Extending n s) (post_transfer fixed v place s)
  unfolding post_transfer
  post_transfer-Extends v place s c = elim (Option-cases (lookup v fixed.output_alias)) [
    | inl e ↦ rw (post_transfer, e) (Extends-refl n s c)
    | inr (target, e) ↦ elim (Bool-cases (is_output place)) [
      | inl d ↦ rw (post_transfer, e, d) (Extends-refl n s c)
      | inr d ↦
          rw (post_transfer, e, d)
            (Returns->>= (Extends n s) (Extending n s)
              (on_chunk (λ cid. Alloc.add_uses cid 1) place s) _
              (on_chunk-Extends n s c (λ cid. Alloc.add_uses cid 1) place) (λ u x. x))
    ]
  ]

  uses-Extends :
      (allocated : Bool) (uses : ℕ) (place : AllocPlace) (s : Scheduler)
      → Core n s
      → Returns
          (Extends n s)
          (if allocated then some s else on_chunk (λ cid. Alloc.add_uses cid uses) place s)
  uses-Extends true uses place s c = Extends-refl n s c
  uses-Extends false uses place s c = on_chunk-Extends n s c (λ cid. Alloc.add_uses cid uses) place

  bind_output-Extends :
      (alias must : Option AllocPlace) (v : ValueId) (s : Scheduler)
      → Core n s
      → Returns (Extending n s) (bind_output fixed alias must t stream v s)
  unfolding bind_output
  bind_output-Extends alias must v s c =
      then-Extends n s (output_place fixed alias must v t stream s) _
        (output_place-Extends alias must v s c)
        (λ (r : (AllocPlace × Bool) × Scheduler) x trans.
          let place = r.0.0 in
          let s2 = place_value v place r.1 in
          let x2 = Extends-trans n s r.1 s2 x (place_value-Extends n v place r.1 x.grows.core) in
          let uses = remaining s.value_remaining_uses v in
          Returns->>= (Extends n s) (Extending n s)
            (if r.0.1 then some s2 else on_chunk (λ cid. Alloc.add_uses cid uses) place s2) _
            (from_state-Extends n s s2 _ x2 (uses-Extends r.0.1 uses place s2 x2.grows.core))
            (λ s3 x3.
              then-Extends n s (post_transfer fixed v place s3) _
                (from-Extends n s s3 _ x3 (post_transfer-Extends v place s3 x3.grows.core))
                (λ (q : List PostTransfer × Scheduler) x4 trans.
                  then-Extends n s (mark_place place q.1) _
                    (from-Extends n s q.1 _ x4 (mark_place-Extends n q.1 x4.grows.core place))
                    (λ (b : Bool × Scheduler) x5 trans.
                      Returns->>= (Extends n s) (Extending n s)
                        (on_chunk (λ cid. Alloc.release_if_dead cid stream) place b.1) _
                        (from_state-Extends n s b.1 _ x5 (
                          on_chunk-Extends n b.1 x5.grows.core
                            (λ cid. Alloc.release_if_dead cid stream) place))
                        (λ u y. y)))))

  pub bind_outputs-Extends :
      (alias must : Option AllocPlace) (vs : List ValueId) (s : Scheduler)
      → Core n s
      → Returns (Extending n s) (bind_outputs fixed alias must t stream vs s)
  unfolding bind_outputs
  bind_outputs-Extends alias must [] s c = Extends-refl n s c
  bind_outputs-Extends alias must (v ∷ vs) s c =
      then-Extends n s (bind_output fixed alias must t stream v s) _
        (bind_output-Extends alias must v s c)
        (λ (r : (ValueBinding × List PostTransfer) × Scheduler) x trans.
          then-Extends n s (bind_outputs fixed alias must t stream vs r.1) _
            (from-Extends n s r.1 _ x (bind_outputs-Extends alias must vs r.1 x.grows.core))
            (λ (q : (List ValueBinding × List PostTransfer) × Scheduler) y trans. y))

pub bind_kernel-Extends :
    (n : ℕ) (fixed : Fixed) (kid : KernelId) (stream : StreamId) (s : Scheduler)
    → stream < n
    → Core n s
    → Returns (Extending n s) (bind_kernel fixed kid stream s)
unfolding bind_kernel
bind_kernel-Extends n fixed kid stream s l c =
    Returns-any (Extending n s) (get_elem? fixed.schedule.kernels kid) _ (λ (kern : Kernel) e.
      Returns-any (Extending n s) (lookup kid s.kernel_info) _ (λ (info : KernelInfo) e.
        let on = tier info.device in
        then-Extends n s (bind_inputs fixed on stream (flatten kern.inputs) s) _
          (bind_inputs-Extends n fixed on stream l (flatten kern.inputs) s c)
          (λ (r : List ValueBinding × Scheduler) x trans.
            Returns-any (Extending n s) (try_in_place_identity kern r.0 r.1) _ (λ alias e.
              Returns-any (Extending n s) (must_in_place_place fixed kid kern r.0) _ (λ must e.
                then-Extends n s (bind_outputs fixed alias must on stream kern.outputs r.1) _
                  (from-Extends n s r.1 _ x (
                    bind_outputs-Extends n fixed on stream l alias must kern.outputs r.1
                      x.grows.core))
                  (λ (q : (List ValueBinding × List PostTransfer) × Scheduler) y trans. y))))))
