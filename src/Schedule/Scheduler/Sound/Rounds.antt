-- ===== src/Schedule/Scheduler/Sound/Rounds.antt =====
-- A round of `run` in src/schedule/scheduler/memory_aware.rs keeps the invariant.
use my_nn_engine.Prelude.{
  get_elem?-bound, ℕ, ◌+◌, ◌<◌, ◌≡◌, refl, ap, ◌∙◌, inl, inr, true, false, List, [], ◌∷◌, some,
  ◌>>=◌, get_elem?, set, length, length-set, ◌==◌, arith, Bool-cases, Option-cases, Returns,
  Returns->>=, Returns-any,
}
use my_nn_engine.Schedule.Ir.{
  ValueId, KernelId, StreamId, EventId, Device, Step, ValueBinding, ExecutionContext,
}
use my_nn_engine.Schedule.Ir
use my_nn_engine.Schedule.Kernels.{Kernel, contains, flatten}
use my_nn_engine.Schedule.Deps.{lookup, new}
use my_nn_engine.Schedule.Order.{remove, round, advance, next}
use my_nn_engine.Schedule.Order.Topological.{
  preds_of, set_at, left, IsTopological, IsTopological-left,
}
use my_nn_engine.Schedule.Order.Outcome.{Run-IsTopological}
use my_nn_engine.Schedule.Scheduler.{
  Fixed, Scheduler, KernelInfo, push, pick_device, pick_stream, fresh_event,
}
use my_nn_engine.Schedule.Scheduler.Bind.{PostTransfer, bind_kernel}
use my_nn_engine.Schedule.Scheduler.Round.{
  put, wait_all, is_transfer, kernel_step, find_role, post_all, use_all, entered, enter_kernel,
  advance_order, schedule_entered, schedule_kernel, schedule_next,
}
use my_nn_engine.Schedule.Scheduler.Trace.{records, recorded}
use my_nn_engine.Schedule.Scheduler.Extends.{
  Core, Grows-record, IsRecording, transfer-IsRecording, Extends, Extends-trans,
}
use my_nn_engine.Schedule.Scheduler.Extends.Copies.{Extending}
use my_nn_engine.Schedule.Scheduler.Extends.Bindings.{bind_kernel-Extends}
use my_nn_engine.Schedule.Scheduler.Sound.{Sound}
use my_nn_engine.Schedule.Scheduler.Sound.Pushed.{
  is_waited-Extends, HasWaited, wait_all-Extends, post_all-Extends, use_all-Extends,
}
use my_nn_engine.Schedule.Scheduler.Sound.Synced.{
  lookup-put_ne, other_than, Stepped, Stepped-Extends, Stepped-Sound,
}

get_elem?-set_at :
    (sets : List (List ℕ)) (i : ℕ) (set : List ℕ)
    → get_elem? sets i ≡ some set
    → set_at sets i ≡ set
get_elem?-set_at sets i set e = rw (set_at, e) refl

left-contains :
    (done ps : List KernelId) (p : KernelId)
    → left done ps ≡ 0
    → contains ps p ≡ true
    → contains done p ≡ true
left-contains done [] p h m = cc
left-contains done (q ∷ ps) p h m = elim (Bool-cases (q == p)) [
  | inl e ↦ let same : q ≡ p = ground arith in rw (← same) (ground arith)
  | inr e ↦ left-contains done ps p (omega arith) (ground arith)
]

-- The step of a kernel records the kernel's event, whatever the kernel does.
kernel_step-IsRecording :
    (n : ℕ) (kid : KernelId) (kern : Kernel) (context : ExecutionContext)
    (bindings : List ValueBinding) (event : EventId)
    → context.stream < n
    → Returns (λ step. IsRecording n step event) (kernel_step kid kern context bindings event)
unfolding kernel_step
kernel_step-IsRecording n kid kern context bindings event l =
    elim (Bool-cases (is_transfer kern.body)) [
      | inl e ↦ rw (e) (
          Returns-any (λ step. IsRecording n step event) (find_role Ir.input bindings) _
            (λ src f.
              Returns-any (λ step. IsRecording n step event) (find_role Ir.output bindings) _
                (λ dst g. transfer-IsRecording n src dst context.device context.stream event l)))
      | inr e ↦ rw (e) (record { records_it = λ e. refl; waits_not = λ e. refl; on_stream = l })
    ]

module _ (fixed : Fixed) (found : new fixed.schedule ≡ some fixed.deps) (done : List KernelId)
    (s : Scheduler) (sound : Sound fixed done s) (kid : KernelId)
    (picked : contains s.order.ready kid ≡ true) where
  abbrev n : ℕ
  n = fixed.num_streams

  -- The state of `schedule_next` when it calls `schedule_kernel`.
  abbrev removed : Scheduler
  removed = record s {
    order = record { kernel_pending = s.order.kernel_pending; ready = remove kid s.order.ready };
  }

  picked-IsTopological : IsTopological (length fixed.schedule.kernels) fixed.deps (kid ∷ done)
  picked-IsTopological =
      let known = Run-IsTopological fixed.schedule fixed.deps found done s.order sound.run in
      let (after, runs) = known.2 kid picked in
      (Run-IsTopological fixed.schedule fixed.deps found (kid ∷ done) after
        (next kid sound.run picked runs)).0

  new_kid : contains done kid ≡ false
  new_kid = picked-IsTopological.1

  preds_done :
      (k p : KernelId)
      → contains (kid ∷ done) k ≡ true
      → contains (preds_of fixed.deps k) p ≡ true
      → contains done p ≡ true
  preds_done k p h m = elim (Bool-cases (kid == k)) [
    | inl e ↦
        let same : kid ≡ k = ground arith in
        left-contains done (preds_of fixed.deps k) p (rw (← same) picked-IsTopological.2) m
    | inr e ↦
        left-contains done (preds_of fixed.deps k) p
          (IsTopological-left (length fixed.schedule.kernels) fixed.deps done k
            picked-IsTopological.3 (ground arith))
          m
  ]

  -- The kernels that this one waits for, once it is entered.
  pred_entered :
      (info : KernelInfo) (preds : List KernelId)
      → get_elem? fixed.deps.kernel_preds kid ≡ some preds
      → (p : KernelId) → contains preds p ≡ true
      → (j : KernelInfo) × (lookup p (put kid info s.kernel_info) ≡ some j)
        × (recorded j.event s.steps ≡ true)
  pred_entered info preds e p m =
      let here : contains (preds_of fixed.deps kid) p ≡ true =
        rw (get_elem?-set_at fixed.deps.kernel_preds kid preds e) m in
      let p_done = preds_done kid p (ground arith) here in
      let (j, f) = sound.all_entered p p_done in
      let ne = other_than done kid new_kid p p_done in
      (j, rw (lookup-put_ne kid p info s.kernel_info ne) f, (sound.entered p j f).is_recorded)

  module _ (device : Device) (stream : StreamId) (load : ℕ)
      (in_range : get_elem? s.stream_load stream ≡ some load) where
    abbrev info : KernelInfo
    info = record {
      order = length s.kernel_info;
      stream = stream;
      event = s.next_event_id;
      device = device;
    }

    -- The state of `schedule_kernel` after the kernel is entered.
    abbrev at_start : Scheduler
    at_start = entered kid info load (record removed { next_event_id = s.next_event_id + 1 })

    stream-bound : stream < n
    stream-bound = omega (arith, get_elem?-bound s.stream_load stream load in_range, sound.loads)

    at_start-Core : Core n at_start
    at_start-Core = record {
      traced = sound.core.traced;
      below = λ e h. omega (arith, sound.core.below e h);
      cached = sound.core.cached;
    }

    -- The kernel's step is pushed after the waits and the transfers of its inputs.
    pushed-Stepped :
        (preds : List KernelId) (s2 s3 : Scheduler) (step : Step)
        → get_elem? fixed.deps.kernel_preds kid ≡ some preds
        → HasWaited n stream preds at_start s2
        → Extends n s2 s3
        → IsRecording n step s.next_event_id
        → Stepped fixed kid info s removed.order (push step s3)
    pushed-Stepped preds s2 s3 step ep w x is =
        let y = Extends-trans n at_start s2 s3 w.extends x in
        let own : records step s.next_event_id ≡ true =
          let k = is.records_it s.next_event_id in ground arith in
        record {
          grows = Grows-record n s.steps s.next_event_id s3 sound.core.below y.grows step is;
          infos = y.infos;
          order = y.order;
          loads = ap length y.loads ∙ length-set s.stream_load stream (load + 1) ∙ sound.loads;
          on_stream = stream-bound;
          is_recorded = rw (own) refl;
          synced = λ p j m e.
              let here : contains preds p ≡ true =
                rw (← get_elem?-set_at fixed.deps.kernel_preds kid preds ep) m in
              let ne = other_than done kid new_kid p (preds_done kid p (ground arith) m) in
              let waits =
                w.all_waited p j here (rw (lookup-put_ne kid p info s.kernel_info ne) e) in
              rw (own) (record {
                recorded_earlier = y.grows.recorded_kept j.event (sound.entered p j e).is_recorded;
                waited_earlier = is_waited-Extends n s2 s3 stream j x waits;
              });
        }

    -- The ready set is advanced.
    advanced-Sound :
        (t : Scheduler)
        → Stepped fixed kid info s removed.order t
        → Returns (Sound fixed (kid ∷ done)) (advance_order fixed kid t)
    unfolding advance_order round
    advanced-Sound t x =
        let Q = Sound fixed (kid ∷ done) in
        Returns-any Q (get_elem? fixed.deps.kernel_consumers kid) _ (λ consumers e.
          Returns-any Q (advance consumers t.order) _ (λ after f.
            let runs : round fixed.deps kid s.order ≡ some after =
              rw (round, e) (rw (← x.order) f) in
            Stepped-Sound fixed done s sound kid new_kid preds_done info removed.order t after x
              (next kid sound.run picked runs)))

    pushed_rest-Sound :
        (preds : List KernelId) (s2 s3 : Scheduler) (kern : Kernel) (bindings : List ValueBinding)
        (posts : List PostTransfer)
        → get_elem? fixed.deps.kernel_preds kid ≡ some preds
        → HasWaited n stream preds at_start s2
        → Extends n s2 s3
        → Returns (Sound fixed (kid ∷ done)) (do
          step ←
              kernel_step kid kern
                (record { device = device; stream = stream })
                bindings
                s.next_event_id
          s4 ← post_all stream device posts (push step s3)
          s5 ← use_all stream (flatten kern.inputs) s4
          advance_order fixed kid s5)
    pushed_rest-Sound preds s2 s3 kern bindings posts ep w x =
        let Q = Sound fixed (kid ∷ done) in
        let Stepped_to = Stepped fixed kid info s removed.order in
        Returns->>= (λ step. IsRecording n step s.next_event_id) Q
          (kernel_step kid kern (record { device = device; stream = stream }) bindings
            s.next_event_id)
          _
          (kernel_step-IsRecording n kid kern (record { device = device; stream = stream }) bindings
            s.next_event_id stream-bound)
          (λ step is.
            let t = push step s3 in
            let y = pushed-Stepped preds s2 s3 step ep w x is in
            Returns->>= (Extends n t) Q (post_all stream device posts t) _
              (post_all-Extends n stream device stream-bound posts t y.grows.core)
              (λ u z.
                let v = Stepped-Extends fixed kid info s removed.order t u y z in
                Returns->>= (Extends n u) Q (use_all stream (flatten kern.inputs) u) _
                  (use_all-Extends n stream (flatten kern.inputs) u v.grows.core)
                  (λ q o.
                    advanced-Sound q (Stepped-Extends fixed kid info s removed.order u q v o))))

    rest-Sound :
        Returns
          (Sound fixed (kid ∷ done))
          (schedule_entered fixed kid device stream s.next_event_id at_start)
    unfolding schedule_entered
    rest-Sound =
        let Q = Sound fixed (kid ∷ done) in
        Returns-any Q (get_elem? fixed.deps.kernel_preds kid) _ (λ preds ep.
          Returns->>= (HasWaited n stream preds at_start) Q (wait_all stream device preds at_start)
            _
            (wait_all-Extends n stream device stream-bound preds at_start at_start-Core
              (pred_entered info preds ep))
            (λ s2 w.
              Returns->>= (Extending n s2) Q (bind_kernel fixed kid stream s2) _
                (bind_kernel-Extends n fixed kid stream s2 stream-bound w.extends.grows.core)
                (λ (r : (List ValueBinding × List PostTransfer) × Scheduler) x.
                  Returns-any Q (get_elem? fixed.schedule.kernels kid) _
                    (λ kern e. pushed_rest-Sound preds s2 r.1 kern r.0.0 r.0.1 ep w x))))

  pub schedule_next-Sound : Returns (Sound fixed (kid ∷ done)) (schedule_next fixed kid s)
  unfolding schedule_next schedule_kernel fresh_event
  schedule_next-Sound =
      let Q = Sound fixed (kid ∷ done) in
      Returns-any Q (pick_device fixed kid) _ (λ device e.
        Returns-any Q (pick_stream fixed kid removed) _ (λ stream f.
          elim (Option-cases (get_elem? s.stream_load stream)) [
            | inl g ↦ rw (enter_kernel, g) tt
            | inr (load, g) ↦ rw (enter_kernel, g) (rest-Sound device stream load g)
          ]))
