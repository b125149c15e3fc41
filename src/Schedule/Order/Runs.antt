-- ===== src/Schedule/Order/Runs.antt =====
-- The invariant of the rounds, and what follows for every run.
use my_nn_engine.Prelude.{
  ℕ, ◌+◌, ◌≤◌, ◌<◌, ◌≡◌, refl, sym, ap, ap₂, ◌∙◌, inl, inr, Bool, true, false, not, ◌&&◌, subst,
  List, [], ◌∷◌, some, get_elem?, length, map, ltb, ◌==◌, if◌then◌else◌, arith, Bool-cases,
}
use my_nn_engine.Schedule.Ir.{KernelId}
use my_nn_engine.Schedule.Kernels.{Schedule, contains}
use my_nn_engine.Schedule.Alloc.Counts.{count, get_elem?_total}
use my_nn_engine.Schedule.Deps.{Deps}
use my_nn_engine.Schedule.Deps.Links.{enter, contains-count}
use my_nn_engine.Schedule.Deps.Complete.{IsComplete}
use my_nn_engine.Schedule.Order.{Order, start, remove, round, Run, begin, next}
use my_nn_engine.Schedule.Order.Advance.{pending_at, count-remove, Advanced, advance-Advanced}
use my_nn_engine.Schedule.Order.Topological.{
  set_at, preds_of, count_at-set_at, left, IsTopological, left-nil, left-cons, IsTopological-left,
  pending_at-map, length-map, count-zeros_from,
}

-- A kernel that is ready: nothing that it waits for is left, and it is not done.
abbrev pub is_ready : ℕ → List KernelId → List KernelId → KernelId → Bool
is_ready n done preds k = (ltb k n && not (contains done k)) && left done preds == 0

pub record Good (n : ℕ) (deps : Deps) (done : List KernelId) (order : Order) : Type 0 where
  pub topological : IsTopological n deps done
  pub pending : (k : KernelId) → pending_at order.kernel_pending k ≡ left done (preds_of deps k)
  pub ready :
      (k : KernelId) → count k order.ready ≡ (if is_ready n done (preds_of deps k) k then 1 else 0)

start-Good : (n : ℕ) (deps : Deps) → length deps.kernel_preds ≡ n → Good n deps [] (start deps)
unfolding start
start-Good n deps l = record {
  topological = tt;
  pending = λ k. pending_at-map deps.kernel_preds k ∙ sym (left-nil (preds_of deps k));
  ready = λ k.
      let z = count-zeros_from 0 k k (map length deps.kernel_preds) (omega arith) in
      let p = pending_at-map deps.kernel_preds k in
      let m = length-map deps.kernel_preds in let e = left-nil (preds_of deps k) in ground arith;
}

-- The ready set after a round, for a kernel with `c` links to the one that was picked.
ready_after :
    (n k kid l l' c r : ℕ) (done_k : Bool)
    → l' + c ≡ l
    → (done_k ≡ true → l ≡ 0)
    → (0 < c → k < n)
    → r ≡ (if (ltb k n && not done_k) && l == 0 then 1 else 0)
    → enter (ltb 0 c && l == c) r ≡ (if (ltb k n && not done_k) && l' == 0 then 1 else 0)
ready_after n k kid l l' c r done_k e d b h = ground arith

not_again :
    (n k l : ℕ) (b : Bool)
    → ◌≡◌ {A = ℕ} 0 (if (ltb k n && not (if k == k then true else b)) && l == 0 then 1 else 0)
not_again n k l b = ground arith

set_at-some :
    (sets : List (List ℕ)) (i : ℕ) (set : List ℕ)
    → get_elem? sets i ≡ some set
    → set_at sets i ≡ set
set_at-some sets i set e = rw (set_at, e) refl

-- A kernel of the ready set may be done next.
picked-IsTopological :
    (n : ℕ) (deps : Deps) (done : List KernelId) (order : Order) (kid : KernelId)
    → Good n deps done order
    → contains order.ready kid ≡ true
    → IsTopological n deps (kid ∷ done)
picked-IsTopological n deps done order kid g picked =
    let r = g.ready kid in
    let c = contains-count order.ready kid in
    (ground arith, ground arith, ground arith, g.topological)

module _ (schedule : Schedule) (deps : Deps) (complete : IsComplete schedule deps) where
  -- The kernel is linked from both sides.
  pub consumers-preds :
      (kid k : ℕ) → count k (set_at deps.kernel_consumers kid) ≡ count kid (preds_of deps k)
  consumers-preds kid k =
      sym (count_at-set_at kid k deps.kernel_consumers)
      ∙ complete.mutual_links k kid
      ∙ count_at-set_at k kid deps.kernel_preds

  pred-bound : (kid k : ℕ) → 0 < count kid (preds_of deps k) → k < length schedule.kernels
  pred-bound kid k h = elim (Bool-cases (ltb k (length schedule.kernels))) [
    | inl x ↦ ground arith
    | inr x ↦
        let zero_there = complete.no_others k kid (ground arith) in
        let e = count_at-set_at k kid deps.kernel_preds in absurd (omega arith)
  ]

  count-consumers :
      (kid k : ℕ) (consumers : List KernelId)
      → get_elem? deps.kernel_consumers kid ≡ some consumers
      → count k consumers ≡ count kid (preds_of deps k)
  count-consumers kid k consumers here =
      sym (ap (count k) (set_at-some deps.kernel_consumers kid consumers here))
      ∙ consumers-preds kid k

  module _ (done : List KernelId) (order after : Order) (kid : KernelId) (consumers : List KernelId)
      (g : Good (length schedule.kernels) deps done order)
      (t : IsTopological (length schedule.kernels) deps (kid ∷ done))
      (here : get_elem? deps.kernel_consumers kid ≡ some consumers)
      (m : Advanced consumers (record order { ready = remove kid order.ready }) after) where
    ready_self : count kid after.ready ≡ 0
    ready_self =
        let c = count-consumers kid kid consumers here in
        let fewer = left-cons kid done (preds_of deps kid) t.1 in
        let gone = count-remove kid kid order.ready in
        let r = m.ready kid in let none_left = t.2 in ground arith

    ready-other :
        (k : KernelId)
        → (kid == k) ≡ false
        → count k after.ready
          ≡ (if is_ready (length schedule.kernels) (kid ∷ done) (preds_of deps k) k then 1 else 0)
    ready-other k x =
        let c = count-consumers kid k consumers here in
        let kept : count k (remove kid order.ready) ≡ count k order.ready =
          rw (count-remove kid k order.ready, x) refl in
        let same : contains (kid ∷ done) k ≡ contains done k = rw x refl in
        m.ready k
        ∙ ap₂ (λ l r. enter (ltb 0 (count k consumers) && l == count k consumers) r) (g.pending k)
            kept
        ∙ ready_after (length schedule.kernels) k kid (left done (preds_of deps k))
            (left (kid ∷ done) (preds_of deps k)) (count k consumers) (count k order.ready)
            (contains done k) (omega (arith, c, left-cons kid done (preds_of deps k) t.1))
            (IsTopological-left (length schedule.kernels) deps done k g.topological)
            (λ h. pred-bound kid k (omega arith)) (g.ready k)
        ∙ ap
            (λ b.
              if (ltb k (length schedule.kernels) && not b)
                && left (kid ∷ done) (preds_of deps k) == 0
              then 1
              else 0)
            (sym same)

    round-Good : Good (length schedule.kernels) deps (kid ∷ done) after
    round-Good = record {
      topological = t;
      pending = λ k.
          let c = count-consumers kid k consumers here in
          let fewer = left-cons kid done (preds_of deps k) t.1 in
          let before = g.pending k in omega (arith, m.pending k);
      ready = λ k. elim (Bool-cases (kid == k)) [
        | inl x ↦
            let same : kid ≡ k = ground arith in
            rw (← same) (
              ready_self
              ∙ not_again (length schedule.kernels) kid (left (kid ∷ done) (preds_of deps kid))
                  (contains done kid))
        | inr x ↦ ready-other k x
      ];
    }

  -- A round does not panic, and keeps the invariant.
  pub round-runs :
      (done : List KernelId) (order : Order) (kid : KernelId)
      → Good (length schedule.kernels) deps done order
      → contains order.ready kid ≡ true
      → (after : Order) × (round deps kid order ≡ some after)
        × Good (length schedule.kernels) deps (kid ∷ done) after
  unfolding round
  round-runs done order kid g picked =
      let t = picked-IsTopological (length schedule.kernels) deps done order kid g picked in
      let (consumers, here) =
        get_elem?_total deps.kernel_consumers kid (omega (arith, t.0, complete.consumers_length)) in
      let waits : (k : ℕ) → count k consumers ≤ pending_at order.kernel_pending k = λ k.
        let c = count-consumers kid k consumers here in
        let fewer = left-cons kid done (preds_of deps k) t.1 in omega (arith, g.pending k) in
      let (after, runs, m) =
        advance-Advanced consumers (record order { ready = remove kid order.ready }) waits in
      (after, rw (here) runs, round-Good done order after kid consumers g t here m)

  pub Run-Good :
      (done : List KernelId) (order : Order)
      → Run deps done order
      → Good (length schedule.kernels) deps done order
  Run-Good done order begin = start-Good (length schedule.kernels) deps complete.preds_length
  Run-Good done order (next {done = d} {order = o} kid run picked e) =
      let (after, runs, g) = round-runs d o kid (Run-Good d o run) picked in
      let same : after ≡ order = cc in subst (Good (length schedule.kernels) deps (kid ∷ d)) same g
