-- ===== src/Schedule/Scheduler/Sound/Synced.antt =====
-- One round of `run` in src/schedule/scheduler/memory_aware.rs keeps the invariant.
use my_nn_engine.Prelude.{
  ◌<◌, ◌≡◌, ◌⊎◌, sym, ◌∙◌, inl, inr, true, false, List, [], ◌∷◌, some, length, ◌==◌, arith,
  Bool-cases,
}
use my_nn_engine.Schedule.Ir.{KernelId}
use my_nn_engine.Schedule.Kernels.{contains}
use my_nn_engine.Schedule.Deps.{lookup}
use my_nn_engine.Schedule.Order.{Order, Run}
use my_nn_engine.Schedule.Order.Topological.{preds_of}
use my_nn_engine.Schedule.Scheduler.{Fixed, Scheduler, KernelInfo}
use my_nn_engine.Schedule.Scheduler.Round.{put}
use my_nn_engine.Schedule.Scheduler.Trace.{recorded, before}
use my_nn_engine.Schedule.Scheduler.Extends.{Grows, Grows-trans, Extends}
use my_nn_engine.Schedule.Scheduler.Sound.{Sound, IsSynced, IsEntered}

lookup-put_self :
    (kid : KernelId) (info : KernelInfo) (infos : List (KernelId × KernelInfo))
    → lookup kid (put kid info infos) ≡ some info
lookup-put_self kid info [] = ground arith
lookup-put_self kid info ((k, i) ∷ infos) = ground (arith, lookup-put_self kid info infos)

pub lookup-put_ne :
    (kid k : KernelId) (info : KernelInfo) (infos : List (KernelId × KernelInfo))
    → (kid == k) ≡ false
    → lookup k (put kid info infos) ≡ lookup k infos
lookup-put_ne kid k info [] h = ground arith
lookup-put_ne kid k info ((l, i) ∷ infos) h = elim (Bool-cases (l == kid)) [
  | inl x ↦ ground arith
  | inr x ↦ ground (arith, lookup-put_ne kid k info infos h)
]

-- The state in which the step of the kernel has been pushed, and nothing else of the round is left
-- but the transfers of its outputs, the use counts and the ready set.
pub record Stepped (fixed : Fixed) (kid : KernelId) (info : KernelInfo) (s : Scheduler)
    (order_then : Order) (t : Scheduler) : Type 0 where
  pub grows : Grows fixed.num_streams s.steps s.next_event_id t
  pub infos : t.kernel_info ≡ put kid info s.kernel_info
  pub order : t.order ≡ order_then
  pub loads : length t.stream_load ≡ fixed.num_streams
  pub on_stream : info.stream < fixed.num_streams
  pub is_recorded : recorded info.event t.steps ≡ true
  pub synced :
      (p : KernelId) (j : KernelInfo)
      → contains (preds_of fixed.deps kid) p ≡ true
      → lookup p s.kernel_info ≡ some j
      → IsSynced info j (before info.event t.steps)

-- What is left of the round, but for the ready set.
pub Stepped-Extends :
    (fixed : Fixed) (kid : KernelId) (info : KernelInfo) (s : Scheduler) (o : Order)
    (t u : Scheduler)
    → Stepped fixed kid info s o t
    → Extends fixed.num_streams t u
    → Stepped fixed kid info s o u
Stepped-Extends fixed kid info s o t u x y = record {
  grows = Grows-trans fixed.num_streams s.steps s.next_event_id t u x.grows y.grows;
  infos = y.infos ∙ x.infos;
  order = y.order ∙ x.order;
  loads = rw (y.loads) x.loads;
  on_stream = x.on_stream;
  is_recorded = y.grows.recorded_kept info.event x.is_recorded;
  synced = λ p j m e. rw (y.grows.before_kept info.event x.is_recorded) (x.synced p j m e);
}

-- A kernel that is done is not one that is not.
pub other_than :
    (done : List KernelId) (kid : KernelId)
    → contains done kid ≡ false
    → (k : KernelId) → contains done k ≡ true
    → (kid == k) ≡ false
other_than done kid new_kid k h = elim (Bool-cases (kid == k)) [
  | inl e ↦ let same : kid ≡ k = ground arith in cc
  | inr e ↦ e
]

module _ (fixed : Fixed) (done : List KernelId) (s : Scheduler) (sound : Sound fixed done s)
    (kid : KernelId) (new_kid : contains done kid ≡ false)
    (preds_done : (k p : KernelId)
      → contains (kid ∷ done) k ≡ true
      → contains (preds_of fixed.deps k) p ≡ true
      → contains done p ≡ true) where
  old_or_new :
      (info : KernelInfo) (t : Scheduler) (k : KernelId) (i : KernelInfo)
      → t.kernel_info ≡ put kid info s.kernel_info
      → lookup k t.kernel_info ≡ some i
      → ((kid ≡ k) × (info ≡ i)) ⊎ (lookup k s.kernel_info ≡ some i)
  old_or_new info t k i e h = elim (Bool-cases (kid == k)) [
    | inl x ↦
        let same : kid ≡ k = ground arith in
        let self : lookup k t.kernel_info ≡ some info =
          rw (e, ← same) (lookup-put_self kid info s.kernel_info) in
        let same_info : info ≡ i = cc in inl (same, same_info)
    | inr x ↦
        let kept : lookup k t.kernel_info ≡ lookup k s.kernel_info =
          rw (e) (lookup-put_ne kid k info s.kernel_info x) in
        inr (sym kept ∙ h)
  ]

  IsEntered-kept :
      (info : KernelInfo) (o : Order) (t : Scheduler) (after : Order) (k : KernelId)
      (i : KernelInfo)
      → Stepped fixed kid info s o t
      → lookup k t.kernel_info ≡ some i
      → IsEntered fixed (kid ∷ done) (record t { order = after }) k i
  IsEntered-kept info o t after k i x h = elim (old_or_new info t k i x.infos h) [
    | inl (same, same_info) ↦
        rw (← same, ← same_info)
          (record { is_done = ground arith; on_stream = x.on_stream; is_recorded = x.is_recorded })
    | inr f ↦
        let old = sound.entered k i f in
        let d = old.is_done in
        record {
          is_done = ground arith;
          on_stream = old.on_stream;
          is_recorded = x.grows.recorded_kept i.event old.is_recorded;
        }
  ]

  IsSynced-kept :
      (info : KernelInfo) (o : Order) (t : Scheduler) (k p : KernelId) (i j : KernelInfo)
      → Stepped fixed kid info s o t
      → lookup k t.kernel_info ≡ some i
      → lookup p t.kernel_info ≡ some j
      → contains (preds_of fixed.deps k) p ≡ true
      → IsSynced i j (before i.event t.steps)
  IsSynced-kept info o t k p i j x h g m = elim (old_or_new info t p j x.infos g) [
    | inl (same_p, _) ↦
        let k_done : contains (kid ∷ done) k ≡ true =
          (IsEntered-kept info o t t.order k i x h).is_done in
        let p_done = preds_done k p k_done m in
        let no_p : contains done p ≡ false = rw (← same_p) new_kid in absurd cc
    | inr f ↦ elim (old_or_new info t k i x.infos h) [
      | inl (same, same_info) ↦ rw (← same_info) (x.synced p j (rw (same) m) f)
      | inr e ↦
          let old = sound.entered k i e in
          rw (x.grows.before_kept i.event old.is_recorded) (sound.synced k p i j e f m)
    ]
  ]

  pub Stepped-Sound :
      (info : KernelInfo) (o : Order) (t : Scheduler) (after : Order)
      → Stepped fixed kid info s o t
      → Run fixed.deps (kid ∷ done) after
      → Sound fixed (kid ∷ done) (record t { order = after })
  Stepped-Sound info o t after x run = record {
    core = record {
      traced = x.grows.core.traced;
      below = x.grows.core.below;
      cached = x.grows.core.cached;
    };
    run = run;
    loads = x.loads;
    all_entered = λ k h. elim (Bool-cases (kid == k)) [
      | inl e ↦
          let same : kid ≡ k = ground arith in
          (info, rw (x.infos, ← same) (lookup-put_self kid info s.kernel_info))
      | inr e ↦
          let (i, f) = sound.all_entered k (ground arith) in
          (i, rw (x.infos, lookup-put_ne kid k info s.kernel_info e) f)
    ];
    entered = λ k i h. IsEntered-kept info o t after k i x h;
    synced = λ k p i j h g m. IsSynced-kept info o t k p i j x h g m;
  }
