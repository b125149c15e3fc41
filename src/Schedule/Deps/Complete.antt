-- ===== src/Schedule/Deps/Complete.antt =====
-- `Deps::new` as a whole, over the links of single kernels.
use my_nn_engine.Prelude.{
  ℕ, zero, suc, ◌≤◌, ◌≡◌, refl, sym, ap, ◌∙◌, subst, Bool, true, List, [], Option, some, get_elem?,
  length, replicate, length-replicate, if◌then◌else◌, arith,
}
use my_nn_engine.Schedule.Ir.{ValueId, KernelId}
use my_nn_engine.Schedule.Kernels.{Kernel, Schedule, flatten, contains}
use my_nn_engine.Schedule.Alloc.Counts.{get_elem?-lt}
use my_nn_engine.Schedule.Deps.{Deps, lookup, produce_all, link_all, new}
use my_nn_engine.Schedule.Deps.Links.{count_at, enter, any_from, Linked, Bounded}
use my_nn_engine.Schedule.Deps.Entries.{
  FoundFrom, produce_all-finds, uses_in, occurs_all, link_all-uses_in,
}
use my_nn_engine.Schedule.Deps.Sums.{
  Produced, produce_all-Produced, linked_from, link_all-Linked, linked_from-get_elem?,
  linked_from-beyond,
}

-- The dependencies of a schedule: who produces a value, whom a kernel waits for, and who waits for it.
pub record IsComplete (schedule : Schedule) (deps : Deps) : Type 0 where
  pub produced :
      (v p : ℕ)
      → lookup v deps.value2producer ≡ some p
      → (kernel : Kernel) × (get_elem? schedule.kernels p ≡ some kernel)
        × (contains kernel.outputs v ≡ true)
  pub found :
      (v p : ℕ) (kernel : Kernel)
      → get_elem? schedule.kernels p ≡ some kernel
      → contains kernel.outputs v ≡ true
      → FoundFrom p (lookup v deps.value2producer)
  pub uses : (v : ValueId) → uses_in deps.value_uses_count v ≡ occurs_all v schedule.kernels
  pub preds_length : length deps.kernel_preds ≡ length schedule.kernels
  pub consumers_length : length deps.kernel_consumers ≡ length schedule.kernels
  pub preds :
      (i j : KernelId) (kernel : Kernel)
      → get_elem? schedule.kernels i ≡ some kernel
      → count_at i deps.kernel_preds j
        ≡ (if any_from deps.value2producer i (flatten kernel.inputs) j then 1 else 0)
  pub no_others :
      (i j : KernelId) → length schedule.kernels ≤ i → count_at i deps.kernel_preds j ≡ 0
  pub mutual_links :
      (i j : KernelId) → count_at j deps.kernel_consumers i ≡ count_at i deps.kernel_preds j

count_at-replicate : (n i x : ℕ) → count_at i (replicate n []) x ≡ 0
count_at-replicate zero i x = refl
count_at-replicate (suc n) zero x = refl
count_at-replicate (suc n) (suc i) x = count_at-replicate n i x

enter-zero : (b : Bool) (c : ℕ) → c ≡ 0 → enter b c ≡ (if b then 1 else 0)
enter-zero b c e = ground arith

-- The maps before any kernel is linked.
abbrev unlinked : ℕ → List (ValueId × KernelId) → Deps
unlinked n producers = record {
  value2producer = producers;
  value_uses_count = [];
  kernel_preds = replicate n [];
  kernel_consumers = replicate n [];
}

Linked-IsComplete :
    (schedule : Schedule) (producers : List (ValueId × KernelId)) (o : Option Deps)
    → Produced schedule.kernels producers
    → ((v p : ℕ) (kernel : Kernel)
        → get_elem? schedule.kernels p ≡ some kernel
        → contains kernel.outputs v ≡ true
        → FoundFrom p (lookup v producers))
    → (m : Linked
        (linked_from producers 0 schedule.kernels)
        (length schedule.kernels)
        (unlinked (length schedule.kernels) producers)
        o)
    → ((v : ValueId) → uses_in m.after.value_uses_count v ≡ occurs_all v schedule.kernels)
    → IsComplete schedule m.after
Linked-IsComplete schedule producers o known all_found m counted =
    let ks = schedule.kernels in
    let n = length ks in
    let linked = linked_from producers 0 ks in
    let pred = λ (i j : ℕ).
      m.preds i j
      ∙ enter-zero (linked i j) (count_at i (replicate n []) j) (count_at-replicate n i j) in
    record {
      produced = λ v p e. known v p (subst (λ q. lookup v q ≡ some p) m.same_producers e);
      found = λ v p k e c.
          subst (λ q. FoundFrom p (lookup v q)) (sym m.same_producers) (all_found v p k e c);
      uses = counted;
      preds_length = m.preds_length;
      consumers_length = m.consumers_length;
      preds = λ i j k e.
          pred i j
          ∙ ap (λ (b : Bool). if b then 1 else 0)
              (linked_from-get_elem? producers 0 ks i j i k (omega arith) e)
          ∙ ap (λ q. if any_from q i (flatten k.inputs) j then 1 else 0) (sym m.same_producers);
      no_others = λ i j l.
          pred i j
          ∙ ap (λ (b : Bool). if b then 1 else 0)
              (linked_from-beyond producers 0 ks i j (omega arith));
      mutual_links = λ i j.
          m.consumers i j
          ∙ enter-zero (linked i j) (count_at j (replicate n []) i) (count_at-replicate n j i)
          ∙ sym (pred i j);
    }

-- For every schedule `Deps::new` returns without a panic. The producer that it has for a value is
-- a kernel with the value among its outputs, and it has one for every output of a kernel, which
-- is that kernel or a later one. A kernel waits once for each other kernel that is the producer
-- of one of its inputs, and for no other; the consumers of a kernel are exactly those that wait
-- for it, each once. The use count of a value, 0 where none is entered, is the number of times it
-- stands among the inputs of the kernels.
pub new-IsComplete :
    (schedule : Schedule) → (deps : Deps) × (new schedule ≡ some deps) × IsComplete schedule deps
unfolding new
new-IsComplete schedule =
    let ks = schedule.kernels in
    let n = length ks in
    let producers = produce_all 0 ks [] in
    let known : Produced ks producers =
      produce_all-Produced ks 0 ks [] (λ j i k q e. let index : i ≡ j = omega arith in rw index e)
        (λ v p e. cc) in
    let bounded : Bounded n producers =
      λ v p e. let (k, here, c) = known v p e in get_elem?-lt ks p here in
    let m =
      link_all-Linked n producers bounded 0 ks (unlinked n producers) refl (length-replicate n [])
        (length-replicate n []) (omega arith) in
    (
      m.after,
      m.runs,
      Linked-IsComplete schedule producers (link_all 0 ks (unlinked n producers)) known
          (λ v p k e c. let (q, f, l) = produce_all-finds 0 ks [] v p k e c in (q, f, omega arith))
          m (λ v. omega (arith, link_all-uses_in 0 ks (unlinked n producers) m.runs v)),
    )
