-- ===== src/Schedule/Scheduler/Finish/Planned.antt =====
-- The steps of the plan that `build` of src/schedule/scheduler/memory_aware.rs returns.
use my_nn_engine.Prelude.{
  ℕ, suc, ◌<◌, ◌≡◌, refl, sym, ap, subst, ◌∙◌, true, List, [], ◌∷◌, ◌++◌, reverse, some, length,
  arith, Returns, Returns->>=, Returns-any, Returns-eq, All, Any, false, get_elem?-bound,
}
use mathlib.Core.List.{reverse-append, reverse-cons, reverse-reverse, append_assoc}
use my_nn_engine.Schedule.Ir.{ValueId, KernelId, EventId, Step, ChunkInfo, ArenaInfo, ExecutionPlan}
use my_nn_engine.Schedule.Kernels.{Schedule, contains}
use my_nn_engine.Schedule.Placement.{Placement}
use my_nn_engine.Schedule.Layout.{layout}
use my_nn_engine.Schedule.Scheduler.{Fixed, Scheduler, new, streams_of}
use my_nn_engine.Schedule.Scheduler.Round.{run_loop}
use my_nn_engine.Schedule.Scheduler.Plan.{
  delivered, finalize_loop, finalize_outputs, into_plan, run, build,
}
use my_nn_engine.Schedule.Scheduler.Trace.{
  recorded, Follows, IsTraced, IsTraced-tail, recorded-append,
}
use my_nn_engine.Schedule.Scheduler.Run.{
  IsEnd, run_loop-IsEnd, ended-IsEnd, made-IsNew, run_loop_complete,
}
use my_nn_engine.Schedule.Deps.Complete.{new-IsComplete}
use my_nn_engine.Schedule.Deps.{lookup}
use my_nn_engine.Schedule.Order.Topological.{preds_of}
use my_nn_engine.Schedule.Scheduler.Beginning.{IsNew, new-IsNew}
use my_nn_engine.Schedule.Scheduler.Finish.{finalize_loop-Finalized, IsEntered, finalize_loop-runs}
use my_nn_engine.Schedule.Scheduler.Delivery.{is_elsewhere, Finalized, IsDelivery, DeliversOne}

streams_of-positive : (n : ℕ) (placement : Placement) → 0 < streams_of n placement
unfolding streams_of
streams_of-positive n placement = ground arith

-- What `finalize_outputs` does at the end of a run.
finalize_outputs-Finalized :
    (fixed : Fixed) (s : Scheduler)
    → IsEnd fixed s
    → 0 < fixed.num_streams
    → Returns
        (Finalized fixed.num_streams fixed (delivered s.steps) fixed.schedule.outputs s)
        (finalize_outputs fixed s)
unfolding finalize_outputs
finalize_outputs-Finalized fixed s e positive =
    finalize_loop-Finalized fixed.num_streams fixed (delivered s.steps) fixed.schedule.outputs s
      e.sound.core positive (λ k info h. (e.sound.entered k info h).on_stream)

-- A plan whose steps are a trace.
pub record IsPlanned (n : ℕ) (plan : ExecutionPlan) : Type 0 where
  pub steps : List Step
  pub pushed : plan.steps ≡ reverse steps
  pub traced : IsTraced n steps
  pub count : plan.stream_count ≡ n

into_plan-IsPlanned :
    (fixed : Fixed) (s : Scheduler)
    → IsTraced fixed.num_streams s.steps
    → Returns (IsPlanned fixed.num_streams) (into_plan fixed s)
unfolding into_plan
into_plan-IsPlanned fixed s traced =
    Returns-any (IsPlanned fixed.num_streams) (layout s.allocator) _
      (λ (r : List ChunkInfo × List ArenaInfo) e. record {
        steps = s.steps;
        pushed = refl;
        traced = traced;
        count = refl;
      })

build-IsPlanned :
    (schedule : Schedule) (num_streams : ℕ) (placement : Placement)
    → Returns (IsPlanned (streams_of num_streams placement)) (build schedule num_streams placement)
unfolding build run
build-IsPlanned schedule num_streams placement =
    let n = streams_of num_streams placement in
    Returns->>= (λ (r : Fixed × Scheduler). IsNew schedule num_streams placement r.0 r.1)
      (IsPlanned n) (new schedule num_streams placement) _
      (new-IsNew schedule num_streams placement)
      (λ r m.
        Returns->>= (IsEnd r.0) (IsPlanned n) (run_loop (suc (length r.0.schedule.kernels)) r.0 r.1)
          _ (run_loop-IsEnd r.0 m.deps_found (suc (length r.0.schedule.kernels)) [] r.1 m.sound)
          (λ t e.
            Returns->>= (Finalized r.0.num_streams r.0 (delivered t.steps) r.0.schedule.outputs t)
              (IsPlanned n) (finalize_outputs r.0 t) _
              (finalize_outputs-Finalized r.0 t e
                (rw (m.streams) (streams_of-positive num_streams placement)))
              (λ u x. rw (← m.streams) (into_plan-IsPlanned r.0 u x.extends.grows.core.traced))))

recorded-reverse : (e : EventId) (xs : List Step) → recorded e (reverse xs) ≡ recorded e xs
recorded-reverse e [] = refl
recorded-reverse e (x ∷ xs) =
    rw (reverse-cons x xs, recorded-append e (reverse xs) (x ∷ []), recorded-reverse e xs)
      (ground arith)

reverse-middle :
    (xs ys : List Step) (step : Step) → reverse (xs ++ step ∷ ys) ≡ reverse ys ++ step ∷ reverse xs
reverse-middle xs ys step =
    rw (reverse-append xs (step ∷ ys), reverse-cons step ys)
      (append_assoc (reverse ys) (step ∷ []) (reverse xs))

-- In the plan that `build` returns, every step waits only for events that an earlier step
-- records, records only an event that no earlier step records, and runs on one of the streams
-- that the plan counts.
pub build-Follows :
    (schedule : Schedule) (num_streams : ℕ) (placement : Placement) (plan : ExecutionPlan)
    (earlier later : List Step) (step : Step)
    → build schedule num_streams placement ≡ some plan
    → plan.steps ≡ earlier ++ step ∷ later
    → Follows plan.stream_count step earlier
build-Follows schedule num_streams placement plan earlier later step built split =
    let n = streams_of num_streams placement in
    let p =
      Returns-eq (IsPlanned n) (build schedule num_streams placement)
        (build-IsPlanned schedule num_streams placement) built in
    let pushed : p.steps ≡ reverse later ++ step ∷ reverse earlier =
      sym (reverse-reverse p.steps)
      ∙ ap reverse (sym p.pushed ∙ split)
      ∙ reverse-middle earlier later step in
    let traced = subst (IsTraced n) pushed p.traced in
    let here = (IsTraced-tail n (reverse later) (step ∷ reverse earlier) traced).0 in
    record {
      waits_recorded = λ e w. rw (← recorded-reverse e earlier) (here.waits_recorded e w);
      records_new = λ e r. rw (← recorded-reverse e earlier) (here.records_new e r);
      on_stream = rw (p.count) here.on_stream;
    }

-- The kernels that produce values are entered.
producers_entered :
    (schedule : Schedule) (num_streams : ℕ) (placement : Placement) (fixed : Fixed)
    (s t : Scheduler) (fuel : ℕ)
    → new schedule num_streams placement ≡ some (fixed, s)
    → run_loop fuel fixed s ≡ some t
    → (rank : KernelId → ℕ)
    → ((i j : KernelId) → contains (preds_of fixed.deps i) j ≡ true → rank j < rank i)
    → (v : ValueId) → IsEntered fixed v t
unfolding IsEntered
producers_entered schedule num_streams placement fixed s t fuel made runs rank falls v kid p =
    let m = made-IsNew schedule num_streams placement fixed s made in
    let (deps, found, complete) = new-IsComplete fixed.schedule in
    let same : deps ≡ fixed.deps = let g = m.deps_found in cc in
    let q : lookup v deps.value2producer ≡ some kid = rw (same) p in
    let (kernel, here, inside) = complete.produced v kid q in
    let below = get_elem?-bound fixed.schedule.kernels kid kernel here in
    let count = ap (λ (c : Schedule). length c.kernels) m.same_schedule in
    let (info, e, stream, is_recorded) =
      run_loop_complete schedule num_streams placement fixed s made fuel t runs rank falls kid
        (omega arith) in
    (info, e)

-- Let the loop of `run` return from the state that `new` makes, and let the dependencies have no
-- cycle, a rank falling from every kernel to those that it waits for. Then `finalize_outputs`
-- returns, and all that it adds to the steps are deliveries: transfers of an output of the
-- schedule, which no step had brought to the buffer of an output before, from its place, which is
-- no such buffer, to the buffer of that same output, on the stream and the device of the kernel
-- that made it, or the first stream of the host if none did. Every such output that has a place
-- of that kind has a delivery.
pub finalize_outputs-delivers :
    (schedule : Schedule) (num_streams : ℕ) (placement : Placement) (fixed : Fixed)
    (s t : Scheduler) (fuel : ℕ)
    → new schedule num_streams placement ≡ some (fixed, s)
    → run_loop fuel fixed s ≡ some t
    → (rank : KernelId → ℕ)
    → ((i j : KernelId) → contains (preds_of fixed.deps i) j ≡ true → rank j < rank i)
    → (u : Scheduler) × (added : List Step) × (finalize_outputs fixed t ≡ some u)
      × (u.steps ≡ added ++ t.steps)
      × All
          (DeliversOne fixed t.value2place t.kernel_info (delivered t.steps) schedule.outputs)
          added
      × ((v : ValueId)
          → contains schedule.outputs v ≡ true
          → contains (delivered t.steps) v ≡ false
          → is_elsewhere v t ≡ true
          → Any (IsDelivery fixed t.value2place t.kernel_info v) added)
unfolding finalize_outputs
finalize_outputs-delivers schedule num_streams placement fixed s t fuel made runs rank falls =
    let m = made-IsNew schedule num_streams placement fixed s made in
    let e = ended-IsEnd schedule num_streams placement fixed s made fuel t runs in
    let n = fixed.num_streams in
    let already = delivered t.steps in
    let positive : 0 < n = rw (m.streams) (streams_of-positive num_streams placement) in
    let entered =
      producers_entered schedule num_streams placement fixed s t fuel made runs rank falls in
    let (u, ends) =
      finalize_loop-runs n fixed already fixed.schedule.outputs t e.sound.core positive
        (λ k info h. (e.sound.entered k info h).on_stream) entered in
    let x =
      Returns-eq (Finalized n fixed already fixed.schedule.outputs t)
        (finalize_loop fixed already fixed.schedule.outputs t)
        (finalize_loop-Finalized n fixed already fixed.schedule.outputs t e.sound.core positive
          (λ k info h. (e.sound.entered k info h).on_stream))
        ends in
    (
      u,
      x.steps,
      ends,
      x.grown,
      subst
          (λ (c : Schedule).
            All (DeliversOne fixed t.value2place t.kernel_info already c.outputs) x.steps)
          m.same_schedule x.only,
      λ v o a w. x.all_delivered v (rw (m.same_schedule) o) a w,
    )
