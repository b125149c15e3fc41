-- ===== src/Schedule/Scheduler/Run.antt =====
-- The loop of `run` in src/schedule/scheduler/memory_aware.rs, from the state that `new` makes.
use my_nn_engine.Prelude.{
  ℕ, zero, suc, ◌+◌, ◌<◌, ◌≤◌, ◌≡◌, refl, ap, subst, inl, inr, true, List, [], ◌∷◌, some, length,
  arith, Option-cases, Returns, Returns->>=, Returns-eq, ◌↔◌, >>=-cong,
}
use my_nn_engine.Schedule.Ir.{KernelId}
use my_nn_engine.Schedule.Kernels.{Schedule, contains}
use my_nn_engine.Schedule.Placement.{Placement}
use my_nn_engine.Schedule.Deps
use my_nn_engine.Schedule.Deps.{lookup}
use my_nn_engine.Schedule.Order.{Run}
use my_nn_engine.Schedule.Order.Pick.{pick_best}
use my_nn_engine.Schedule.Order.Topological.{preds_of}
use my_nn_engine.Schedule.Order.Outcome.{Run-IsTopological, Run-all_done}
use my_nn_engine.Schedule.Scheduler.{Fixed, Scheduler, KernelInfo, new, streams_of}
use my_nn_engine.Schedule.Scheduler.Round.{schedule_next, run_loop}
use my_nn_engine.Schedule.Scheduler.Trace.{recorded, before}
use my_nn_engine.Schedule.Scheduler.Sound.{Sound, IsSynced}
use my_nn_engine.Schedule.Scheduler.Sound.Rounds.{schedule_next-Sound}
use my_nn_engine.Schedule.Scheduler.Ending.{Rounds, Stops, Rounds-bounded, run_loop-Stops}
use my_nn_engine.Schedule.Scheduler.Beginning.{IsNew, new-IsNew, IsReady, pick_best-IsReady}

-- The end of the loop: the state is sound, and no kernel is ready.
pub record IsEnd (fixed : Fixed) (t : Scheduler) : Type 0 where
  pub done : List KernelId
  pub sound : Sound fixed done t
  pub none_ready : t.order.ready ≡ []

module _ (fixed : Fixed) (found : Deps.new fixed.schedule ≡ some fixed.deps) where
  pub run_loop-IsEnd :
      (fuel : ℕ) (done : List KernelId) (s : Scheduler)
      → Sound fixed done s
      → Returns (IsEnd fixed) (run_loop fuel fixed s)
  unfolding run_loop
  run_loop-IsEnd zero done s sound = tt
  run_loop-IsEnd (suc fuel) done s sound =
      Returns->>= (IsReady s.order.ready) (IsEnd fixed)
        (pick_best fixed.schedule s.value_remaining_uses s.order.ready) _
        (pick_best-IsReady fixed.schedule s.value_remaining_uses s.order.ready)
        (λ picked h. elim (Option-cases picked) [
          | inl e ↦
              let none_ready : s.order.ready ≡ [] = subst (IsReady s.order.ready) e h in
              rw (e) (record { done = done; sound = sound; none_ready = none_ready })
          | inr (kid, e) ↦
              let ready : contains s.order.ready kid ≡ true = subst (IsReady s.order.ready) e h in
              rw (e) (
                Returns->>= (Sound fixed (kid ∷ done)) (IsEnd fixed) (schedule_next fixed kid s) _
                  (schedule_next-Sound fixed found done s sound kid ready)
                  (λ t x. run_loop-IsEnd fuel (kid ∷ done) t x))
        ])

  -- With a round left for every kernel that is not done and one more, more fuel changes nothing.
  run_loop-more :
      (fuel total : ℕ) (done : List KernelId) (s : Scheduler)
      → Sound fixed done s
      → fuel ≤ total
      → length fixed.schedule.kernels < length done + fuel
      → run_loop total fixed s ≡ run_loop fuel fixed s
  unfolding run_loop
  run_loop-more zero total done s sound h l =
      let known = Run-IsTopological fixed.schedule fixed.deps found done s.order sound.run in
      absurd (omega (arith, known.1))
  run_loop-more (suc fuel) zero done s sound h l = absurd (omega arith)
  run_loop-more (suc fuel) (suc total) done s sound h l =
      let uses = s.value_remaining_uses in
      let ready = s.order.ready in
      >>=-cong (pick_best fixed.schedule uses ready) _ _ (λ picked e.
        let fits =
          Returns-eq (IsReady ready) (pick_best fixed.schedule uses ready)
            (pick_best-IsReady fixed.schedule uses ready) e in
        elim (Option-cases picked) [
          | inl f ↦ rw (f) refl
          | inr (kid, f) ↦
              let is_ready : contains ready kid ≡ true = subst (IsReady ready) f fits in
              rw (f) (
                >>=-cong (schedule_next fixed kid s) _ _ (λ t g.
                  run_loop-more fuel total (kid ∷ done) t
                    (Returns-eq (Sound fixed (kid ∷ done)) (schedule_next fixed kid s)
                      (schedule_next-Sound fixed found done s sound kid is_ready) g)
                    (omega arith) (omega arith)))
        ])

module _ (schedule : Schedule) (num_streams : ℕ) (placement : Placement) (fixed : Fixed)
    (s : Scheduler) (made : new schedule num_streams placement ≡ some (fixed, s)) where
  pub made-IsNew : IsNew schedule num_streams placement fixed s
  made-IsNew =
      Returns-eq (λ (r : Fixed × Scheduler). IsNew schedule num_streams placement r.0 r.1)
        (new schedule num_streams placement) (new-IsNew schedule num_streams placement) made

  -- From the state that `new` makes, no sequence of whole rounds of `run`, in each of which
  -- `pick_best` gives a kernel and `schedule_next` returns for it, is longer than the number of
  -- kernels. The loop on any fuel above that number ends: some rounds lead to a state in which
  -- nothing is picked, and the loop returns it, or to one in which the pick or the round of the
  -- kernel that is picked panics, and then the loop does. On any such fuel it comes to the same.
  pub run_loop-ends :
      (total : ℕ)
      → length schedule.kernels < total
      → ((n : ℕ) (u : Scheduler) → Rounds fixed n s u → n ≤ length schedule.kernels)
        × Stops fixed total s
        × (run_loop total fixed s ≡ run_loop (suc (length schedule.kernels)) fixed s)
  run_loop-ends total l =
      let m = made-IsNew in
      let same = ap (λ (c : Schedule). length c.kernels) m.same_schedule in
      (
        λ n u r.
            let bound = Rounds-bounded fixed m.deps_found n [] s u m.sound r in omega (arith, same),
        run_loop-Stops fixed m.deps_found total [] s m.sound (omega arith),
        run_loop-more fixed m.deps_found (suc (length schedule.kernels)) total [] s m.sound
            (omega arith) (omega arith),
      )

  module _ (fuel : ℕ) (t : Scheduler) (runs : run_loop fuel fixed s ≡ some t) where
    pub ended-IsEnd : IsEnd fixed t
    ended-IsEnd =
        let m = made-IsNew in
        Returns-eq (IsEnd fixed) (run_loop fuel fixed s)
          (run_loop-IsEnd fixed m.deps_found fuel [] s m.sound) runs

    -- The loop of `run` refines the step relation of the ready set: when it returns from the
    -- state that `new` makes, the fields `kernel_pending` and `ready` are those that some run of
    -- rounds comes to, no kernel is ready, and the kernels entered in `kernel_info` are those of
    -- that run.
    pub run_loop-refines :
        (done : List KernelId) × Run fixed.deps done t.order
        × (t.order.ready ≡ [])
        × ((k : KernelId)
            → (contains done k ≡ true)
              ↔ ((info : KernelInfo) × (lookup k t.kernel_info ≡ some info)))
    run_loop-refines =
        let e = ended-IsEnd in
        (
          e.done,
          e.sound.run,
          e.none_ready,
          λ k. (e.sound.all_entered k, λ i. (e.sound.entered k i.0 i.1).is_done),
        )

    -- When the loop of `run` returns from the state that `new` makes, a kernel and one that it
    -- waits for, both entered in `kernel_info`, are in order: before the step of the first one,
    -- the event of the second one was recorded, and the stream of the first one was made to wait
    -- for that event unless the second one runs on it too.
    pub run_loop-IsSynced :
        (k p : KernelId) (i j : KernelInfo)
        → lookup k t.kernel_info ≡ some i
        → lookup p t.kernel_info ≡ some j
        → contains (preds_of fixed.deps k) p ≡ true
        → IsSynced i j (before i.event t.steps)
    run_loop-IsSynced = ended-IsEnd.sound.synced

    -- When the loop of `run` returns from the state that `new` makes, and the dependencies have
    -- no cycle, a rank falling from every kernel to those that it waits for, every kernel of the
    -- schedule is entered in `kernel_info`, on one of the streams, and its event is recorded by a
    -- step.
    pub run_loop_complete :
        (rank : KernelId → ℕ)
        → ((i j : KernelId) → contains (preds_of fixed.deps i) j ≡ true → rank j < rank i)
        → (k : KernelId) → k < length schedule.kernels
        → (info : KernelInfo) × (lookup k t.kernel_info ≡ some info)
          × (info.stream < streams_of num_streams placement)
          × (recorded info.event t.steps ≡ true)
    run_loop_complete rank falls k l =
        let m = made-IsNew in
        let e = ended-IsEnd in
        let same = ap (λ (c : Schedule). length c.kernels) m.same_schedule in
        let is_done =
          Run-all_done fixed.schedule fixed.deps m.deps_found e.done t.order e.sound.run rank falls
            e.none_ready k (omega arith) in
        let (info, here) = e.sound.all_entered k is_done in
        let x = e.sound.entered k info here in
        let streams = m.streams in let on = x.on_stream in (info, here, omega arith, x.is_recorded)
