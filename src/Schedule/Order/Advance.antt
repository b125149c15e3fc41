-- ===== src/Schedule/Order/Advance.antt =====
-- What the loop over the consumers does to the pending counts and to the ready set.
use my_nn_engine.Prelude.{
  ℕ, ◌+◌, ◌-◌, ◌≤◌, ◌<◌, ◌≡◌, refl, ap₂, ◌∙◌, inl, inr, Bool, true, false, ◌&&◌, List, [], ◌∷◌,
  none, some, get_elem?, set, length, length-set, ltb, ◌==◌, if◌then◌else◌, arith, Bool-cases,
  Option-cases,
}
use my_nn_engine.Schedule.Ir.{KernelId}
use my_nn_engine.Schedule.Alloc.Counts.{count, get_elem?-set}
use my_nn_engine.Schedule.Deps.Links.{enter, contains-count}
use my_nn_engine.Schedule.Order.{Order, insert, remove, advance}

-- The count of a kernel, and 0 out of range.
abbrev pub pending_at : List ℕ → KernelId → ℕ
pending_at pending k = elim (get_elem? pending k) [ none ↦ 0 | some n ↦ n ]

pub count-insert :
    (kid k : ℕ) (ready : List ℕ) → count k (insert kid ready) ≡ enter (kid == k) (count k ready)
count-insert kid k ready = ground (arith, contains-count ready kid)

pub count-remove :
    (kid k : ℕ) (ready : List ℕ)
    → count k (remove kid ready) ≡ (if kid == k then 0 else count k ready)
count-remove kid k [] = ground arith
count-remove kid k (x ∷ ready) = ground (arith, count-remove kid k ready)

-- Every consumer has lost what it waited for, and those that wait no more are ready.
pub record Advanced (consumers : List KernelId) (order after : Order) : Type 0 where
  pub same_length : length after.kernel_pending ≡ length order.kernel_pending
  pub pending :
      (k : KernelId)
      → pending_at after.kernel_pending k ≡ pending_at order.kernel_pending k - count k consumers
  pub ready :
      (k : KernelId)
      → count k after.ready
        ≡ enter
            (ltb 0 (count k consumers) && pending_at order.kernel_pending k == count k consumers)
            (count k order.ready)

pending_at-set :
    (pending : List ℕ) (c v w k : ℕ)
    → get_elem? pending c ≡ some w
    → pending_at (set pending c v) k ≡ (if c == k then v else pending_at pending k)
pending_at-set pending c v w k e = let h = get_elem?-set pending c k v w e in ground arith

count-if_insert :
    (b : Bool) (c k : ℕ) (ready : List ℕ)
    → count k (if b then insert c ready else ready) ≡ enter (b && c == k) (count k ready)
count-if_insert true c k ready = count-insert c k ready
count-if_insert false c k ready = refl

-- Both steps on the ready set together.
ready-both :
    (b : Bool) (v cc p r : ℕ)
    → 0 < v
    → (b ≡ true → (v ≡ p) × (1 + cc ≤ v))
    → enter (ltb 0 cc && (if b then v - 1 else p) == cc) (enter (v == 1 && b) r)
      ≡ enter (ltb 0 ((if b then 1 else 0) + cc) && p == (if b then 1 else 0) + cc) r
ready-both true v cc p r h k = let (q, l) = k refl in ground arith
ready-both false v cc p r h k = ground arith

Advanced-then :
    (c v : ℕ) (consumers : List KernelId) (order after : Order)
    → get_elem? order.kernel_pending c ≡ some v
    → 1 + count c consumers ≤ v
    → Advanced consumers
        (record {
          kernel_pending = set order.kernel_pending c (v - 1);
          ready = if v == 1 then insert c order.ready else order.ready;
        })
        after
    → Advanced (c ∷ consumers) order after
Advanced-then c v consumers order after e h m = record {
  same_length = omega (arith, m.same_length, length-set order.kernel_pending c (v - 1));
  pending = λ k. pend k;
  ready = λ k. rdy k;
}
  where
    pend :
        (k : KernelId)
        → pending_at after.kernel_pending k
          ≡ pending_at order.kernel_pending k - count k (c ∷ consumers)
    pend k =
        let s = pending_at-set order.kernel_pending c (v - 1) v k e in ground (arith, m.pending k)

    here :
        (k : KernelId)
        → (c == k) ≡ true
        → (v ≡ pending_at order.kernel_pending k) × (1 + count k consumers ≤ v)
    here k x = let same : c ≡ k = ground arith in (ground arith, rw (← same) h)

    rdy :
        (k : KernelId)
        → count k after.ready
          ≡ enter
              (ltb 0 (count k (c ∷ consumers))
                && pending_at order.kernel_pending k == count k (c ∷ consumers))
              (count k order.ready)
    rdy k =
        m.ready k
        ∙ ap₂ (λ x y. enter (ltb 0 (count k consumers) && x == count k consumers) y)
            (pending_at-set order.kernel_pending c (v - 1) v k e)
            (count-if_insert (v == 1) c k order.ready)
        ∙ ready-both (c == k) v (count k consumers) (pending_at order.kernel_pending k)
            (count k order.ready) (omega arith) (here k)

still_enough :
    (c v k : ℕ) (consumers : List KernelId) (order : Order)
    → get_elem? order.kernel_pending c ≡ some v
    → 1 + count c consumers ≤ v
    → count k (c ∷ consumers) ≤ pending_at order.kernel_pending k
    → count k consumers ≤ pending_at (set order.kernel_pending c (v - 1)) k
still_enough c v k consumers order e l h = elim (Bool-cases (c == k)) [
  | inl x ↦
      let same : c ≡ k = ground arith in
      let l_k : 1 + count k consumers ≤ v = rw (← same) l in
      let s = pending_at-set order.kernel_pending c (v - 1) v k e in ground arith
  | inr x ↦ let s = pending_at-set order.kernel_pending c (v - 1) v k e in ground arith
]

-- If every consumer waits for at least as many kernels as it is listed, the loop does not panic.
pub advance-Advanced :
    (consumers : List KernelId) (order : Order)
    → ((k : KernelId) → count k consumers ≤ pending_at order.kernel_pending k)
    → (after : Order) × (advance consumers order ≡ some after) × Advanced consumers order after
unfolding advance
advance-Advanced [] order h = (
  order,
  refl,
  record { same_length = refl; pending = λ k. omega arith; ready = λ k. ground arith },
)
advance-Advanced (c ∷ consumers) order h = elim (Option-cases (get_elem? order.kernel_pending c)) [
  | inl e ↦ let waits = h c in ground arith
  | inr (v, e) ↦
      let enough : 1 + count c consumers ≤ v = let waits = h c in ground arith in
      let busy : (v == 0) ≡ false = ground arith in
      let next : Order = record {
        kernel_pending = set order.kernel_pending c (v - 1);
        ready = if v == 1 then insert c order.ready else order.ready;
      } in
      let (after, runs, m) =
        advance-Advanced consumers next (λ k. still_enough c v k consumers order e enough (h k)) in
      (after, rw (e, busy) runs, Advanced-then c v consumers order after e enough m)
]
