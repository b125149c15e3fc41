-- ===== src/Schedule/Scheduler/Beginning.antt =====
-- The state that `new` of src/schedule/scheduler/memory_aware.rs makes, and the kernel that is picked.
use my_nn_engine.Prelude.{
  ℕ, ◌≡◌, refl, inl, inr, true, List, [], ◌∷◌, Option, none, some, length-replicate, arith,
  Bool-cases, Option-cases, Returns, Returns->>=, Returns-any, Returns-eq,
}
use mathlib.Core.Option
use my_nn_engine.Schedule.Ir.{KernelId}
use my_nn_engine.Schedule.Kernels.{Schedule, contains}
use my_nn_engine.Schedule.Placement.{Placement}
use my_nn_engine.Schedule.Deps
use my_nn_engine.Schedule.Deps.{lookup}
use my_nn_engine.Schedule.Aliases.{output_aliases}
use my_nn_engine.Schedule.Order.{begin}
use my_nn_engine.Schedule.Order.Pick.{Score, better, earlier, best_of, pick_best}
use my_nn_engine.Schedule.Order.Pick
use my_nn_engine.Schedule.Scheduler.{Fixed, Scheduler, new, streams_of, tiers_of}
use my_nn_engine.Schedule.Scheduler.Sound.{Sound}

-- What `new` returns: the fixed fields belong to the schedule, and the state is sound.
pub record IsNew (schedule : Schedule) (num_streams : ℕ) (placement : Placement) (fixed : Fixed)
    (s : Scheduler) : Type 0 where
  pub same_schedule : fixed.schedule ≡ schedule
  pub deps_found : Deps.new fixed.schedule ≡ some fixed.deps
  pub streams : fixed.num_streams ≡ streams_of num_streams placement
  pub sound : Sound fixed [] s

pub new-IsNew :
    (schedule : Schedule) (num_streams : ℕ) (placement : Placement)
    → Returns
        (λ r. IsNew schedule num_streams placement r.0 r.1)
        (new schedule num_streams placement)
unfolding new
new-IsNew schedule num_streams placement =
    let Q = λ (r : Fixed × Scheduler). IsNew schedule num_streams placement r.0 r.1 in
    Returns-any Q (Deps.new schedule) _ (λ deps found.
      Returns-any Q (output_aliases schedule) _ (λ aliases e.
        Returns-any Q (tiers_of schedule placement schedule.session_states) _ (λ tiers f. record {
          same_schedule = refl;
          deps_found = found;
          streams = refl;
          sound = record {
            core = record { traced = tt; below = λ e h. cc; cached = λ v t r e. cc };
            run = begin;
            loads = length-replicate (streams_of num_streams placement) 0;
            all_entered = λ k h. cc;
            entered = λ k info h. cc;
            synced = λ k p i j h g m. cc;
          };
        })))

-- The kernel that is picked is ready, and where none is picked none is ready.
abbrev pub IsReady : List KernelId → Option KernelId → Type 0
IsReady ready none = ready ≡ []
IsReady ready (some kid) = contains ready kid ≡ true

better-ready :
    (s : Score) (kid : KernelId) (best : Option (Score × KernelId)) (ready : List KernelId)
    → IsReady ready (Option.map (λ (b : Score × KernelId). b.1) best)
    → contains (kid ∷ ready) (better s kid best).1 ≡ true
better-ready s kid none ready h = ground arith
better-ready s kid (some (t, k)) ready h = elim (Bool-cases (earlier t k s kid)) [
  | inl e ↦ rw (e) (ground arith)
  | inr e ↦ rw (e) (ground arith)
]

best_of-IsReady :
    (schedule : Schedule) (uses : List (ℕ × ℕ)) (ready : List KernelId)
    → Returns
        (λ best. IsReady ready (Option.map (λ (b : Score × KernelId). b.1) best))
        (best_of schedule uses ready)
unfolding best_of
best_of-IsReady schedule uses [] = refl
best_of-IsReady schedule uses (kid ∷ ready) =
    let Q = λ (best : Option (Score × KernelId)).
      IsReady (kid ∷ ready) (Option.map (λ (b : Score × KernelId). b.1) best) in
    Returns-any Q (Pick.score schedule uses kid) _ (λ s e.
      Returns->>= (λ best. IsReady ready (Option.map (λ (b : Score × KernelId). b.1) best)) Q
        (best_of schedule uses ready) _ (best_of-IsReady schedule uses ready)
        (λ best h. better-ready s kid best ready h))

pub pick_best-IsReady :
    (schedule : Schedule) (uses : List (ℕ × ℕ)) (ready : List KernelId)
    → Returns (IsReady ready) (pick_best schedule uses ready)
unfolding pick_best
pick_best-IsReady schedule uses ready = elim (Option-cases (best_of schedule uses ready)) [
  | inl e ↦ rw (e) tt
  | inr (best, e) ↦ rw (e) (
      Returns-eq (λ b. IsReady ready (Option.map (λ (b : Score × KernelId). b.1) b))
        (best_of schedule uses ready) (best_of-IsReady schedule uses ready) e)
]
