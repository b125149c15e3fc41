-- ===== src/Schedule/Order/Outcome.antt =====
-- What a run of the ready set comes to, from the dependencies that `Deps::new` finds.
use my_nn_engine.Prelude.{
  ℕ, zero, suc, ◌+◌, ◌≤◌, ◌<◌, ◌≡◌, refl, subst, inl, inr, true, false, List, [], ◌∷◌, some, length,
  ltb, ◌==◌, if◌then◌else◌, arith, Bool-cases,
}
use my_nn_engine.Schedule.Ir.{KernelId}
use my_nn_engine.Schedule.Kernels.{Schedule, contains}
use my_nn_engine.Schedule.Alloc.Counts.{count}
use my_nn_engine.Schedule.Deps.{Deps, new}
use my_nn_engine.Schedule.Deps.Links.{contains-count}
use my_nn_engine.Schedule.Deps.Complete.{IsComplete, new-IsComplete}
use my_nn_engine.Schedule.Order.{Order, round, Run}
use my_nn_engine.Schedule.Order.Topological.{set_at, preds_of, left-all, IsTopological}
use my_nn_engine.Schedule.Order.Runs.{Good, consumers-preds, round-runs, Run-Good}

-- How many of the first `n` kernels are done.
abbrev covered : List KernelId → ℕ → ℕ
covered done zero = 0
covered done (suc n) = (if contains done n then 1 else 0) + covered done n

covered-nil : (n : ℕ) → covered [] n ≡ 0
covered-nil zero = refl
covered-nil (suc n) = omega (arith, covered-nil n)

covered-cons :
    (kid : ℕ) (done : List KernelId) (n : ℕ)
    → contains done kid ≡ false
    → covered (kid ∷ done) n ≡ (if ltb kid n then 1 else 0) + covered done n
covered-cons kid done zero h = ground arith
covered-cons kid done (suc n) h = elim (Bool-cases (kid == n)) [
  | inl x ↦
      let same : kid ≡ n = ground arith in
      let h_n : contains done n ≡ false = rw (← same) h in ground (arith, covered-cons kid done n h)
  | inr x ↦ ground (arith, covered-cons kid done n h)
]

covered-le : (done : List KernelId) (n : ℕ) → covered done n ≤ n
covered-le done zero = omega arith
covered-le done (suc n) = ground (arith, covered-le done n)

covered-length :
    (n : ℕ) (deps : Deps) (done : List KernelId)
    → IsTopological n deps done
    → covered done n ≡ length done
covered-length n deps [] t = covered-nil n
covered-length n deps (kid ∷ done) t =
    let rest = covered-length n deps done t.3 in
    let more = covered-cons kid done n t.1 in let known = t.0 in ground arith

set_at-bound : (sets : List (List ℕ)) (i x : ℕ) → 0 < count x (set_at sets i) → i < length sets
set_at-bound [] i x h = absurd (omega arith)
set_at-bound (set ∷ sets) zero x h = omega arith
set_at-bound (set ∷ sets) (suc i) x h = omega (arith, set_at-bound sets i x h)

-- If no kernel is ready, those below a rank are all done.
ranked_done :
    (schedule : Schedule) (deps : Deps) (done : List KernelId) (order : Order) (rank : KernelId → ℕ)
    → IsComplete schedule deps
    → Good (length schedule.kernels) deps done order
    → order.ready ≡ []
    → ((i j : KernelId) → contains (preds_of deps i) j ≡ true → rank j < rank i)
    → (r k : ℕ) → rank k < r
    → k < length schedule.kernels
    → contains done k ≡ true
ranked_done schedule deps done order rank complete g empty falls zero k h l = absurd (omega arith)
ranked_done schedule deps done order rank complete g empty falls (suc r) k h l =
    let none_left = left-all done (preds_of deps k) (λ p c.
      let there = contains-count (preds_of deps k) p in
      let lower = falls k p (ground arith) in
      let linked = consumers-preds schedule deps complete p k in
      ranked_done schedule deps done order rank complete g empty falls r p (omega arith) (
        omega (
          arith,
          set_at-bound deps.kernel_consumers p k (omega (arith, linked)),
          complete.consumers_length,
        ))) in
    let unready : count k order.ready ≡ 0 = rw empty refl in let r = g.ready k in ground arith

module _ (schedule : Schedule) (deps : Deps) (found : new schedule ≡ some deps)
    (done : List KernelId) (order : Order) (run : Run deps done order) where
  found-IsComplete : IsComplete schedule deps
  found-IsComplete =
      let (deps', runs, complete) = new-IsComplete schedule in
      let same : deps' ≡ deps = cc in subst (IsComplete schedule) same complete

  found-Good : Good (length schedule.kernels) deps done order
  found-Good = Run-Good schedule deps found-IsComplete done order run

  -- Let the dependencies be those that `Deps::new` finds for a schedule. After every run of
  -- rounds, whichever ready kernel each one picks: every kernel done is one of the schedule, was
  -- done once, and was done after all the kernels that it waits for; no more kernels were done
  -- than there are; and a round for any kernel that is ready does not panic.
  pub Run-IsTopological :
      IsTopological (length schedule.kernels) deps done
      × (length done ≤ length schedule.kernels)
      × ((kid : KernelId)
          → contains order.ready kid ≡ true
          → (after : Order) × (round deps kid order ≡ some after))
  Run-IsTopological =
      let g = found-Good in
      let n = length schedule.kernels in
      let all = covered-length n deps done g.topological in
      let few = covered-le done n in
      (
        g.topological,
        omega arith,
        λ kid picked.
            let (after, runs, h) =
              round-runs schedule deps found-IsComplete done order kid g picked in
            (after, runs),
      )

  -- Let the dependencies be those that `Deps::new` finds for a schedule, and let them have no
  -- cycle: a rank falls from every kernel to those that it waits for. When a run of rounds has
  -- come to an empty ready set, every kernel of the schedule is done.
  pub Run-all_done :
      (rank : KernelId → ℕ)
      → ((i j : KernelId) → contains (preds_of deps i) j ≡ true → rank j < rank i)
      → order.ready ≡ []
      → (kid : KernelId) → kid < length schedule.kernels
      → contains done kid ≡ true
  Run-all_done rank falls empty kid l =
      ranked_done schedule deps done order rank found-IsComplete found-Good empty falls
        (suc (rank kid)) kid (omega arith) l
