-- ===== src/Schedule/Scheduler/Finish.antt =====
-- The loop of `finalize_outputs` of src/schedule/scheduler/memory_aware.rs.
pub mod Planned
use my_nn_engine.Prelude.{
  ℕ, zero, suc, ◌+◌, ◌<◌, ◌≤◌, ◌≡◌, refl, sym, ap, subst, ◌∙◌, inl, inr, Bool, true, false, not,
  ◌&&◌, ◌||◌, max, List, [], ◌∷◌, ◌++◌, reverse, Option, none, some, ◌>>=◌, get_elem?, length, ◌==◌,
  if◌then◌else◌, arith, Bool-cases, Option-cases, Returns, Returns->>=, Returns-any, Returns-imp,
  Returns-eq, All, All-append, All-imp, Any, Any-append, Any-imp, ◌⊎◌,
}
use mathlib.Core.List.{append_assoc}
use mathlib.Core.Option
use my_nn_engine.Schedule.Ir.{
  ValueId, KernelId, StreamId, EventId, Device, cpu, AllocPlace, Step, ExecutionPlan,
}
use my_nn_engine.Schedule.Ir
use my_nn_engine.Schedule.Kernels.{Schedule, contains}
use my_nn_engine.Schedule.Placement.{Placement}
use my_nn_engine.Schedule.Deps.{lookup}
use my_nn_engine.Schedule.Layout.{layout}
use my_nn_engine.Schedule.Scheduler.{
  Fixed, Scheduler, KernelInfo, new, streams_of, needs_cuda, is_output, fresh_event, push, binding,
  transfer_step,
}
use my_nn_engine.Schedule.Scheduler.Plan.{
  delivered, producer_context, deliver, finalize_output, finalize_loop,
}
use my_nn_engine.Schedule.Scheduler.Extends.{
  Core, Core-fresh, Extends, Extends-refl, Extends-trans, transfer-IsRecording,
}
use my_nn_engine.Schedule.Scheduler.Extends.Copies.{recorded-Extends}
use my_nn_engine.Schedule.Scheduler.Delivery.{
  is_elsewhere, IsMadeOn, IsDelivery, DeliversOne, Finalized, Finalized-nil,
}

-- The kernel that produces the value is entered.
pub IsEntered : Fixed → ValueId → Scheduler → Type 0
IsEntered fixed v s =
    (kid : KernelId)
    → lookup v fixed.deps.value2producer ≡ some kid
    → (info : KernelInfo) × (lookup kid s.kernel_info ≡ some info)

module _ (n : ℕ) (fixed : Fixed) (already : List ValueId) where
  -- Nothing is done for a value that is delivered, has no place, or is in the buffer of an output.
  skipped-Finalized :
      (v : ValueId) (s : Scheduler)
      → Core n s
      → (contains already v ≡ false → is_elsewhere v s ≡ false)
      → Finalized n fixed already (v ∷ []) s s
  skipped-Finalized v s c skip = record {
    extends = Extends-refl n s c;
    places = refl;
    steps = [];
    grown = refl;
    only = tt;
    all_delivered = λ w m a e.
        let same : v ≡ w = ground arith in
        let no = skip (rw (same) a) in let yes : is_elsewhere v s ≡ true = rw (same) e in absurd cc;
  }

  -- What `producer_context` returns is a stream in range, on which the value was made.
  abbrev IsContext : ValueId → Scheduler → StreamId × Device → Type 0
  IsContext v s r = (r.0 < n) × IsMadeOn fixed s.kernel_info v r.0 r.1

  deliver-Finalized :
      (v : ValueId) (place : AllocPlace) (s : Scheduler)
      → Core n s
      → contains already v ≡ false
      → lookup v s.value2place ≡ some place
      → is_output place ≡ false
      → Returns (IsContext v s) (producer_context fixed v s)
      → Returns (Finalized n fixed already (v ∷ []) s) (deliver fixed v place s)
  unfolding deliver fresh_event
  deliver-Finalized v place s c a e o known =
      Returns->>= (IsContext v s) (Finalized n fixed already (v ∷ []) s)
        (producer_context fixed v s) _ known
        (λ r l.
          let f = (fresh_event s).1 in
          let step =
            transfer_step (binding v Ir.input place false)
              (binding v Ir.output (AllocPlace.output v) false) r.1 r.0 s.next_event_id in
          let d : IsDelivery fixed s.value2place s.kernel_info v step = record {
            place = place;
            stream = r.0;
            device = r.1;
            event = s.next_event_id;
            from = e;
            elsewhere = o;
            made_on = l.1;
            is_step = refl;
          } in
          record {
            extends =
                recorded-Extends n s c f (Extends-refl n f (Core-fresh n s c)) _
                  (transfer-IsRecording n _ _ r.1 r.0 s.next_event_id l.0);
            places = refl;
            steps = step ∷ [];
            grown = refl;
            only = ((v, ground arith, a, d), tt);
            all_delivered = λ w m b x.
                let same : v ≡ w = ground arith in
                inl (subst (λ u. IsDelivery fixed s.value2place s.kernel_info u step) same d);
          })

  finalize_output-Finalized :
      (v : ValueId) (s : Scheduler)
      → Core n s
      → Returns (IsContext v s) (producer_context fixed v s)
      → Returns (Finalized n fixed already (v ∷ []) s) (finalize_output fixed already v s)
  unfolding finalize_output
  finalize_output-Finalized v s c known = elim (Bool-cases (contains already v)) [
    | inl a ↦ rw (a) (skipped-Finalized v s c (λ b. cc))
    | inr a ↦ elim (Option-cases (lookup v s.value2place)) [
      | inl e ↦ rw (a, e) (skipped-Finalized v s c (λ b. rw (is_elsewhere, e) refl))
      | inr (place, e) ↦ elim (Bool-cases (is_output place)) [
        | inl o ↦ rw (a, e, o) (skipped-Finalized v s c (λ b. rw (is_elsewhere, e, o) refl))
        | inr o ↦ rw (a, e, o) (deliver-Finalized v place s c a e o known)
      ]
    ]
  ]

  -- The stream of a kernel that has been entered is in range, as is that of the other outputs.
  producer-IsContext :
      (v : ValueId) (s : Scheduler)
      → 0 < n
      → ((k : KernelId) (info : KernelInfo) → lookup k s.kernel_info ≡ some info → info.stream < n)
      → Returns (IsContext v s) (producer_context fixed v s)
  unfolding producer_context
  producer-IsContext v s positive known =
      let P = IsContext v s in
      elim (Option-cases (lookup v fixed.deps.value2producer)) [
        | inl e ↦ rw (producer_context, e) (positive, inl (e, refl, refl))
        | inr (kid, e) ↦
            rw (producer_context, e)
              (Returns-any P (lookup kid s.kernel_info) _
                (λ info f. (known kid info f, inr (kid, info, e, f, refl, refl))))
      ]

  join-Finalized :
      (v : ValueId) (vs : List ValueId) (s t u : Scheduler)
      → Finalized n fixed already (v ∷ []) s t
      → Finalized n fixed already vs t u
      → Finalized n fixed already (v ∷ vs) s u
  join-Finalized v vs s t u x y =
      let P = DeliversOne fixed s.value2place s.kernel_info already in
      let infos = x.extends.infos in
      let back =
        λ (w : ValueId) (step : Step) (d : IsDelivery fixed t.value2place t.kernel_info w step).
          let half = subst (λ p. IsDelivery fixed p t.kernel_info w step) x.places d in
          subst (λ i. IsDelivery fixed s.value2place i w step) infos half in
      let later : All (P (v ∷ vs)) y.steps =
        All-imp (DeliversOne fixed t.value2place t.kernel_info already vs) (P (v ∷ vs))
          (λ step h. let (w, i, a, d) = h in (w, ground (arith, i), a, back w step d)) y.steps
          y.only in
      let first : All (P (v ∷ vs)) x.steps =
        All-imp (P (v ∷ [])) (P (v ∷ vs))
          (λ step h. let (w, i, a, d) = h in (w, ground (arith, i), a, d)) x.steps x.only in
      record {
        extends = Extends-trans n s t u x.extends y.extends;
        places = y.places ∙ x.places;
        steps = y.steps ++ x.steps;
        grown =
            y.grown ∙ ap (λ l. y.steps ++ l) x.grown ∙ sym (append_assoc y.steps x.steps s.steps);
        only = All-append (P (v ∷ vs)) y.steps x.steps later first;
        all_delivered = λ w m a e.
            let D = IsDelivery fixed s.value2place s.kernel_info w in
            Any-append D y.steps x.steps (elim (Bool-cases (v == w)) [
              | inl q ↦ inr (x.all_delivered w (ground arith) a e)
              | inr q ↦ inl (
                  Any-imp (IsDelivery fixed t.value2place t.kernel_info w) D (back w) y.steps
                    (y.all_delivered w (ground arith) a (rw (x.places) e)))
            ]);
      }

  pub finalize_loop-Finalized :
      (vs : List ValueId) (s : Scheduler)
      → Core n s
      → 0 < n
      → ((k : KernelId) (info : KernelInfo) → lookup k s.kernel_info ≡ some info → info.stream < n)
      → Returns (Finalized n fixed already vs s) (finalize_loop fixed already vs s)
  unfolding finalize_loop
  finalize_loop-Finalized [] s c positive known = Finalized-nil n fixed already s c
  finalize_loop-Finalized (v ∷ vs) s c positive known =
      Returns->>= (Finalized n fixed already (v ∷ []) s) (Finalized n fixed already (v ∷ vs) s)
        (finalize_output fixed already v s) _
        (finalize_output-Finalized v s c (producer-IsContext v s positive known))
        (λ t x.
          Returns-imp (Finalized n fixed already vs t) (Finalized n fixed already (v ∷ vs) s)
            (finalize_loop fixed already vs t)
            (finalize_loop-Finalized vs t x.extends.grows.core positive
              (λ k info h. known k info (rw (← x.extends.infos) h)))
            (λ u y. join-Finalized v vs s t u x y))

  -- With the producers entered, the loop returns.
  producer_context-runs :
      (v : ValueId) (s : Scheduler)
      → IsEntered fixed v s
      → (r : StreamId × Device) × (producer_context fixed v s ≡ some r)
  unfolding producer_context IsEntered
  producer_context-runs v s h = elim (Option-cases (lookup v fixed.deps.value2producer)) [
    | inl e ↦ ((0, cpu), rw (producer_context, e) refl)
    | inr (kid, e) ↦
        let (info, f) = h kid e in ((info.stream, info.device), rw (producer_context, e, f) refl)
  ]

  finalize_output-runs :
      (v : ValueId) (s : Scheduler)
      → IsEntered fixed v s
      → (t : Scheduler) × (finalize_output fixed already v s ≡ some t)
  unfolding finalize_output deliver
  finalize_output-runs v s h = elim (Bool-cases (contains already v)) [
    | inl a ↦ (s, rw (a) refl)
    | inr a ↦ elim (Option-cases (lookup v s.value2place)) [
      | inl e ↦ (s, rw (a, e) refl)
      | inr (place, e) ↦ elim (Bool-cases (is_output place)) [
        | inl o ↦ (s, rw (a, e, o) refl)
        | inr o ↦
            let (r, f) = producer_context-runs v s h in
            let step =
              transfer_step (binding v Ir.input place false)
                (binding v Ir.output (AllocPlace.output v) false) r.1 r.0 (fresh_event s).0 in
            (push step (fresh_event s).1, rw (a, e, o, f) refl)
      ]
    ]
  ]

  pub finalize_loop-runs :
      (vs : List ValueId) (s : Scheduler)
      → Core n s
      → 0 < n
      → ((k : KernelId) (info : KernelInfo) → lookup k s.kernel_info ≡ some info → info.stream < n)
      → ((v : ValueId) → IsEntered fixed v s)
      → (t : Scheduler) × (finalize_loop fixed already vs s ≡ some t)
  unfolding finalize_loop IsEntered
  finalize_loop-runs [] s c positive known h = (s, refl)
  finalize_loop-runs (v ∷ vs) s c positive known h =
      let (t, e) = finalize_output-runs v s (h v) in
      let x =
        Returns-eq (Finalized n fixed already (v ∷ []) s) (finalize_output fixed already v s)
          (finalize_output-Finalized v s c (producer-IsContext v s positive known)) e in
      let infos = x.extends.infos in
      let (u, f) =
        finalize_loop-runs vs t x.extends.grows.core positive
          (λ k info g. known k info (rw (← infos) g))
          (λ w kid p. let (info, g) = h w kid p in (info, rw (infos) g)) in
      (u, rw (e) f)
