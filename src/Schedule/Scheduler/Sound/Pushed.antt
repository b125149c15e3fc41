-- ===== src/Schedule/Scheduler/Sound/Pushed.antt =====
-- The loops of `schedule_kernel` in src/schedule/scheduler/memory_aware.rs and the trace.
use my_nn_engine.Prelude.{
  ℕ, ◌<◌, ◌≡◌, refl, inl, inr, Bool, true, ◌||◌, List, [], ◌∷◌, Option, none, some, ◌==◌, arith,
  Bool-cases, Returns, Returns->>=, Returns-any, Returns-imp,
}
use my_nn_engine.Schedule.Ir.{ValueId, KernelId, StreamId, Device, AllocPlace, Step}
use my_nn_engine.Schedule.Alloc
use my_nn_engine.Schedule.Kernels.{contains}
use my_nn_engine.Schedule.Deps.{lookup}
use my_nn_engine.Schedule.Scheduler.{
  Scheduler, KernelInfo, fresh_event, push, transfer_step, on_chunk,
}
use my_nn_engine.Schedule.Scheduler.Bind.{PostTransfer}
use my_nn_engine.Schedule.Scheduler.Round.{wait_for, wait_all, post_all, use_up, use_all}
use my_nn_engine.Schedule.Scheduler.Trace.{recorded, waited}
use my_nn_engine.Schedule.Scheduler.Extends.{
  Core, Core-fresh, Extends, Extends-refl, Extends-trans, Extends-memory, Grows-wait,
  transfer-IsRecording,
}
use my_nn_engine.Schedule.Scheduler.Extends.Copies.{
  on_chunk-Extends, recorded-Extends, from_state-Extends,
}

-- Where a kernel with this information runs on another stream, the stream waits for its event.
abbrev pub is_waited : StreamId → KernelInfo → List Step → Bool
is_waited stream info steps = (info.stream == stream) || waited stream info.event steps

pub is_waited-Extends :
    (n : ℕ) (s t : Scheduler) (stream : StreamId) (info : KernelInfo)
    → Extends n s t
    → is_waited stream info s.steps ≡ true
    → is_waited stream info t.steps ≡ true
is_waited-Extends n s t stream info x h = elim (Bool-cases (info.stream == stream)) [
  | inl e ↦ ground arith
  | inr e ↦ let k = x.grows.waited_kept stream info.event (ground arith) in ground arith
]

-- The stream waits for every kernel of the list that has been scheduled.
pub record HasWaited (n : ℕ) (stream : StreamId) (ps : List KernelId) (s t : Scheduler)
    : Type 0 where
  pub extends : Extends n s t
  pub all_waited :
      (p : KernelId) (info : KernelInfo)
      → contains ps p ≡ true
      → lookup p s.kernel_info ≡ some info
      → is_waited stream info t.steps ≡ true

module _ (n : ℕ) (stream : StreamId) (device : Device) (l : stream < n) where
  wait_for-Extends :
      (p : KernelId) (info : KernelInfo) (s : Scheduler)
      → Core n s
      → lookup p s.kernel_info ≡ some info
      → recorded info.event s.steps ≡ true
      → Returns
          (λ t. Extends n s t × (is_waited stream info t.steps ≡ true))
          (wait_for stream device p s)
  unfolding wait_for
  wait_for-Extends p info s c e h = elim (Bool-cases (info.stream == stream)) [
    | inl d ↦ rw (wait_for, e, d) (Extends-refl n s c, refl)
    | inr d ↦
        rw (wait_for, e, d)
          (
            record {
              grows = Grows-wait n s c device stream info.event l h;
              infos = refl;
              order = refl;
              loads = refl;
            },
            ground arith,
          )
  ]

  wait_all-then :
      (q : KernelId) (ps : List KernelId) (first : KernelInfo) (s t u : Scheduler)
      → lookup q s.kernel_info ≡ some first
      → Extends n s t
      → is_waited stream first t.steps ≡ true
      → HasWaited n stream ps t u
      → HasWaited n stream (q ∷ ps) s u
  wait_all-then q ps first s t u found x w y = record {
    extends = Extends-trans n s t u x y.extends;
    all_waited = λ p info m e. elim (Bool-cases (q == p)) [
      | inl k ↦
          let same : q ≡ p = ground arith in
          let found_p : lookup p s.kernel_info ≡ some first = rw (← same) found in
          let same_info : first ≡ info = cc in
          rw (← same_info) (is_waited-Extends n t u stream first y.extends w)
      | inr k ↦ y.all_waited p info (ground arith) (rw (x.infos) e)
    ];
  }

  pub wait_all-Extends :
      (ps : List KernelId) (s : Scheduler)
      → Core n s
      → ((p : KernelId)
          → contains ps p ≡ true
          → (info : KernelInfo) × (lookup p s.kernel_info ≡ some info)
            × (recorded info.event s.steps ≡ true))
      → Returns (HasWaited n stream ps s) (wait_all stream device ps s)
  unfolding wait_all
  wait_all-Extends [] s c known = record {
    extends = Extends-refl n s c;
    all_waited = λ p info m e. cc;
  }
  wait_all-Extends (q ∷ ps) s c known =
      let (first, found, h) = known q (ground arith) in
      Returns->>= (λ t. Extends n s t × (is_waited stream first t.steps ≡ true))
        (HasWaited n stream (q ∷ ps) s) (wait_for stream device q s) _
        (wait_for-Extends q first s c found h)
        (λ t x.
          Returns-imp (HasWaited n stream ps t) (HasWaited n stream (q ∷ ps) s)
            (wait_all stream device ps t)
            (wait_all-Extends ps t x.0.grows.core (λ p m.
              let (info, e, r) = known p (ground arith) in
              (info, rw (x.0.infos) e, x.0.grows.recorded_kept info.event r)))
            (λ u y. wait_all-then q ps first s t u found x.0 x.1 y))

  pub post_all-Extends :
      (posts : List PostTransfer) (s : Scheduler)
      → Core n s
      → Returns (Extends n s) (post_all stream device posts s)
  unfolding post_all fresh_event
  post_all-Extends [] s c = Extends-refl n s c
  post_all-Extends (pt ∷ posts) s c =
      let step = transfer_step pt.src pt.dst device stream s.next_event_id in
      let f = (fresh_event s).1 in
      let x =
        recorded-Extends n s c f (Extends-refl n f (Core-fresh n s c)) step
          (transfer-IsRecording n pt.src pt.dst device stream s.next_event_id l) in
      Returns->>= (Extends n s) (Extends n s)
        (on_chunk (λ cid. Alloc.consume cid stream) pt.src.place (push step f)) _
        (from_state-Extends n s (push step f) _ x (
          on_chunk-Extends n (push step f) x.grows.core (λ cid. Alloc.consume cid stream)
            pt.src.place))
        (λ u y. from_state-Extends n s u _ y (post_all-Extends posts u y.grows.core))

pub use_all-Extends :
    (n : ℕ) (stream : StreamId) (vs : List ValueId) (s : Scheduler)
    → Core n s
    → Returns (Extends n s) (use_all stream vs s)
unfolding use_all
use_all-Extends n stream [] s c = Extends-refl n s c
use_all-Extends n stream (v ∷ vs) s c =
    Returns-any (Extends n s) (use_up v s.value_remaining_uses) _ (λ uses e.
      let t = record s { value_remaining_uses = uses } in
      let x = Extends-memory n s s.allocator s.value2place uses c in
      Returns->>= (Extends n s) (Extends n s)
        (elim (lookup v t.value2place) [
          | none ↦ some t
          | some place ↦ on_chunk (λ cid. Alloc.consume cid stream) place t
        ])
        _ (from_state-Extends n s t _ x (consumed t (lookup v t.value2place) x.grows.core))
        (λ u y. from_state-Extends n s u _ y (use_all-Extends n stream vs u y.grows.core)))
  where
    consumed :
        (t : Scheduler) (o : Option AllocPlace)
        → Core n t
        → Returns (Extends n t) (elim o [
          | none ↦ some t
          | some place ↦ on_chunk (λ cid. Alloc.consume cid stream) place t
        ])
    consumed t none c = Extends-refl n t c
    consumed t (some place) c = on_chunk-Extends n t c (λ cid. Alloc.consume cid stream) place
