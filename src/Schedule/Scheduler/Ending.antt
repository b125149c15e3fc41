-- ===== src/Schedule/Scheduler/Ending.antt =====
-- How often the loop of `run` in src/schedule/scheduler/memory_aware.rs goes round.
use my_nn_engine.Prelude.{
  ℕ, zero, suc, ◌+◌, ◌<◌, ◌≤◌, ◌≡◌, ◌⊎◌, inl, inr, refl, List, ◌∷◌, Option, none, some, length,
  arith, Option-cases, Returns-eq,
}
use my_nn_engine.Schedule.Ir.{KernelId}
use my_nn_engine.Schedule.Deps
use my_nn_engine.Schedule.Order.Pick.{pick_best}
use my_nn_engine.Schedule.Order.Outcome.{Run-IsTopological}
use my_nn_engine.Schedule.Scheduler.{Fixed, Scheduler}
use my_nn_engine.Schedule.Scheduler.Round.{schedule_next, run_loop}
use my_nn_engine.Schedule.Scheduler.Sound.{Sound}
use my_nn_engine.Schedule.Scheduler.Sound.Rounds.{schedule_next-Sound}
use my_nn_engine.Schedule.Scheduler.Beginning.{IsReady, pick_best-IsReady}

-- What `pick_best` gives in a state.
abbrev pub picks : Fixed → Scheduler → Option (Option KernelId)
picks fixed s = pick_best fixed.schedule s.value_remaining_uses s.order.ready

-- From a state to another by a number of whole rounds.
pub data Rounds (fixed : Fixed) : ℕ → Scheduler → Scheduler → Type 0 where
  stop : (s : Scheduler) → Rounds fixed zero s s
  next :
      (n : ℕ) (s t u : Scheduler) (kid : KernelId)
      → picks fixed s ≡ some (some kid)
      → schedule_next fixed kid s ≡ some t
      → Rounds fixed n t u
      → Rounds fixed (suc n) s u

-- The pick panics, or the round of the kernel that is picked does.
abbrev pub Panics : Fixed → Scheduler → Type 0
Panics fixed s =
    (picks fixed s ≡ none)
    ⊎ ((kid : KernelId) × (picks fixed s ≡ some (some kid)) × (schedule_next fixed kid s ≡ none))

-- The loop returns the state in which nothing is picked, or a round of it panics.
pub Stops : Fixed → ℕ → Scheduler → Type 0
Stops fixed fuel s =
    (n : ℕ) × (u : Scheduler) × Rounds fixed n s u
    × (((picks fixed u ≡ some none) × (run_loop fuel fixed s ≡ some u))
        ⊎ (Panics fixed u × (run_loop fuel fixed s ≡ none)))

module _ (fixed : Fixed) (found : Deps.new fixed.schedule ≡ some fixed.deps) where
  -- A kernel that is picked is not done, and the round keeps the invariant.
  round-Sound :
      (done : List KernelId) (s t : Scheduler) (kid : KernelId)
      → Sound fixed done s
      → picks fixed s ≡ some (some kid)
      → schedule_next fixed kid s ≡ some t
      → Sound fixed (kid ∷ done) t
  round-Sound done s t kid sound p r =
      let ready =
        Returns-eq (IsReady s.order.ready) (picks fixed s)
          (pick_best-IsReady fixed.schedule s.value_remaining_uses s.order.ready) p in
      Returns-eq (Sound fixed (kid ∷ done)) (schedule_next fixed kid s)
        (schedule_next-Sound fixed found done s sound kid ready) r

  pub Rounds-bounded :
      (n : ℕ) (done : List KernelId) (s u : Scheduler)
      → Sound fixed done s
      → Rounds fixed n s u
      → length done + n ≤ length fixed.schedule.kernels
  Rounds-bounded zero done s u sound r =
      let known = Run-IsTopological fixed.schedule fixed.deps found done s.order sound.run in
      omega (arith, known.1)
  Rounds-bounded (suc n) done s u sound (next m a t b kid p r rest) =
      let more = Rounds-bounded n (kid ∷ done) t u (round-Sound done s t kid sound p r) rest in
      omega arith

  pub run_loop-Stops :
      (fuel : ℕ) (done : List KernelId) (s : Scheduler)
      → Sound fixed done s
      → length fixed.schedule.kernels < length done + fuel
      → Stops fixed fuel s
  unfolding run_loop Stops
  run_loop-Stops zero done s sound l =
      let known = Run-IsTopological fixed.schedule fixed.deps found done s.order sound.run in
      absurd (omega (arith, known.1))
  run_loop-Stops (suc fuel) done s sound l = elim (Option-cases (picks fixed s)) [
    | inl p ↦ (zero, s, stop s, inr (inl p, rw (p) refl))
    | inr (picked, p) ↦ elim (Option-cases picked) [
      | inl e ↦
          let q : picks fixed s ≡ some none = rw (← e) p in (zero, s, stop s, inl (q, rw (q) refl))
      | inr (kid, e) ↦
          let q : picks fixed s ≡ some (some kid) = rw (← e) p in
          elim (Option-cases (schedule_next fixed kid s)) [
            | inl r ↦ (zero, s, stop s, inr (inr (kid, q, r), rw (q, r) refl))
            | inr (t, r) ↦
                let (n, u, rounds, ends) =
                  run_loop-Stops fuel (kid ∷ done) t (round-Sound done s t kid sound q r)
                    (omega arith) in
                (
                  suc n,
                  u,
                  next n s t u kid q r rounds,
                  elim ends [
                    | inl (f, g) ↦ inl (f, rw (q, r) g)
                    | inr (f, g) ↦ inr (f, rw (q, r) g)
                  ],
                )
          ]
    ]
  ]
