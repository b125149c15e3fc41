-- ===== src/Schedule/Deps/Sums.antt =====
-- The maps of `Deps::new` in src/schedule/scheduler/common.rs, summed up over the kernels.
use my_nn_engine.Prelude.{
  ℕ, zero, suc, ◌+◌, ◌≤◌, ◌<◌, ◌≡◌, refl, sym, ◌∙◌, subst, inl, inr, Bool, true, false, ◌&&◌, ◌||◌,
  List, [], ◌∷◌, some, get_elem?, length, ◌==◌, arith, Bool-cases,
}
use my_nn_engine.Schedule.Ir.{ValueId, KernelId}
use my_nn_engine.Schedule.Kernels.{Kernel, flatten, contains}
use my_nn_engine.Schedule.Deps.{Deps, lookup, produce, produce_all, link, link_inputs, link_all}
use my_nn_engine.Schedule.Deps.Links.{
  count_at, from, any_from, Linked, Bounded, link-Linked, Linked-then, not_entered,
}

-- Producers are kernels that have the value among their outputs.
abbrev pub Produced : List Kernel → List (ValueId × KernelId) → Type 0
Produced all producers =
    (v p : ℕ)
    → lookup v producers ≡ some p
    → (kernel : Kernel) × (get_elem? all p ≡ some kernel) × (contains kernel.outputs v ≡ true)

module _ (all : List Kernel) where
  produce-Produced :
      (kid : KernelId) (kernel : Kernel) (outs : List ValueId)
      (producers : List (ValueId × KernelId))
      → get_elem? all kid ≡ some kernel
      → ((v : ValueId) → contains outs v ≡ true → contains kernel.outputs v ≡ true)
      → Produced all producers
      → Produced all (produce kid outs producers)
  unfolding produce
  produce-Produced kid kernel [] producers here inside known = known
  produce-Produced kid kernel (out ∷ outs) producers here inside known =
      produce-Produced kid kernel outs ((out, kid) ∷ producers) here
        (λ v c. inside v (ground arith))
        (λ v p e. elim (Bool-cases (out == v)) [
          | inl x ↦
              let at_p : kid ≡ p = ground arith in
              (kernel, rw (← at_p) here, inside v (ground arith))
          | inr x ↦ known v p (ground arith)
        ])

  pub produce_all-Produced :
      (kid : KernelId) (kernels : List Kernel) (producers : List (ValueId × KernelId))
      → ((j n : ℕ) (k : Kernel)
          → n ≡ kid + j
          → get_elem? kernels j ≡ some k
          → get_elem? all n ≡ some k)
      → Produced all producers
      → Produced all (produce_all kid kernels producers)
  unfolding produce_all
  produce_all-Produced kid [] producers inside known = known
  produce_all-Produced kid (kernel ∷ kernels) producers inside known =
      produce_all-Produced (suc kid) kernels (produce kid kernel.outputs producers)
        (λ j n k q e. inside (suc j) n k (omega arith) e)
        (produce-Produced kid kernel kernel.outputs producers
          (inside 0 kid kernel (omega arith) refl) (λ v c. c) known)

-- The links that the kernels from `kid` on make.
abbrev pub linked_from :
    List (ValueId × KernelId) → KernelId → List Kernel → KernelId → KernelId → Bool
linked_from producers kid [] i j = false
linked_from producers kid (kernel ∷ kernels) i j =
    (kid == i && any_from producers kid (flatten kernel.inputs) j)
    || linked_from producers (suc kid) kernels i j

and_or : (a b c : Bool) → (a && (b || c)) ≡ ((a && b) || (a && c))
and_or true b c = refl
and_or false b c = refl

module _ (n : ℕ) (producers : List (ValueId × KernelId)) (bounded : Bounded n producers) where
  link-same :
      (kid v : ℕ) (deps : Deps)
      → deps.value2producer ≡ producers
      → length deps.kernel_preds ≡ n
      → length deps.kernel_consumers ≡ n
      → kid < n
      → Linked (λ i j. kid == i && from producers kid v j) n deps (link kid v deps)
  link-same kid v deps same lp lc h =
      subst (λ q. Linked (λ i j. kid == i && from q kid v j) n deps (link kid v deps)) same
        (link-Linked n kid v deps lp lc h (subst (Bounded n) (sym same) bounded))

  link_inputs-Linked :
      (kid : KernelId) (inputs : List ValueId) (deps : Deps)
      → deps.value2producer ≡ producers
      → length deps.kernel_preds ≡ n
      → length deps.kernel_consumers ≡ n
      → kid < n
      → Linked
          (λ i j. kid == i && any_from producers kid inputs j)
          n
          deps
          (link_inputs kid inputs deps)
  unfolding link_inputs
  link_inputs-Linked kid [] deps same lp lc h = record {
    after = deps;
    runs = refl;
    same_producers = refl;
    preds_length = lp;
    consumers_length = lc;
    preds = λ i j. not_entered (kid == i) false (count_at i deps.kernel_preds j) refl;
    consumers = λ i j. not_entered (kid == i) false (count_at j deps.kernel_consumers i) refl;
  }
  link_inputs-Linked kid (v ∷ inputs) deps same lp lc h =
      let first = link-same kid v deps same lp lc h in
      let rest =
        link_inputs-Linked kid inputs first.after (first.same_producers ∙ same) first.preds_length
          first.consumers_length h in
      Linked-then (λ i j. kid == i && from producers kid v j)
        (λ i j. kid == i && any_from producers kid inputs j)
        (λ i j. kid == i && any_from producers kid (v ∷ inputs) j) n deps (link_inputs kid inputs)
        (link kid v deps) first rest
        (λ i j. and_or (kid == i) (from producers kid v j) (any_from producers kid inputs j))

  pub link_all-Linked :
      (kid : KernelId) (kernels : List Kernel) (deps : Deps)
      → deps.value2producer ≡ producers
      → length deps.kernel_preds ≡ n
      → length deps.kernel_consumers ≡ n
      → kid + length kernels ≤ n
      → Linked (linked_from producers kid kernels) n deps (link_all kid kernels deps)
  unfolding link_all
  link_all-Linked kid [] deps same lp lc h = record {
    after = deps;
    runs = refl;
    same_producers = refl;
    preds_length = lp;
    consumers_length = lc;
    preds = λ i j. refl;
    consumers = λ i j. refl;
  }
  link_all-Linked kid (kernel ∷ kernels) deps same lp lc h =
      let inputs = flatten kernel.inputs in
      let first = link_inputs-Linked kid inputs deps same lp lc (omega arith) in
      let rest =
        link_all-Linked (suc kid) kernels first.after (first.same_producers ∙ same)
          first.preds_length first.consumers_length (omega arith) in
      Linked-then (λ i j. kid == i && any_from producers kid inputs j)
        (linked_from producers (suc kid) kernels) (linked_from producers kid (kernel ∷ kernels)) n
        deps (link_all (suc kid) kernels) (link_inputs kid inputs deps) first rest (λ i j. refl)

linked_from-before :
    (producers : List (ValueId × KernelId)) (kid : KernelId) (kernels : List Kernel)
    (i j : KernelId)
    → i < kid
    → linked_from producers kid kernels i j ≡ false
linked_from-before producers kid [] i j h = refl
linked_from-before producers kid (kernel ∷ kernels) i j h =
    ground (arith, linked_from-before producers (suc kid) kernels i j)

first_only : (k : ℕ) (a : Bool) → ((k == k && a) || false) ≡ a
first_only k true = ground arith
first_only k false = ground arith

pub linked_from-get_elem? :
    (producers : List (ValueId × KernelId)) (kid : KernelId) (kernels : List Kernel)
    (i j m : KernelId) (kernel : Kernel)
    → i ≡ kid + m
    → get_elem? kernels m ≡ some kernel
    → linked_from producers kid kernels i j ≡ any_from producers i (flatten kernel.inputs) j
linked_from-get_elem? producers kid [] i j m kernel q e = cc
linked_from-get_elem? producers kid (k ∷ kernels) i j zero kernel q e =
    let same : k ≡ kernel = cc in
    let index : i ≡ kid = omega arith in
    rw (index, same, linked_from-before producers (suc kid) kernels kid j (omega arith))
      (first_only kid (any_from producers kid (flatten kernel.inputs) j))
linked_from-get_elem? producers kid (k ∷ kernels) i j (suc m) kernel q e =
    let rest = linked_from-get_elem? producers (suc kid) kernels i j m kernel (omega arith) e in
    let other : (kid == i) ≡ false = ground arith in rw (other, rest) refl

pub linked_from-beyond :
    (producers : List (ValueId × KernelId)) (kid : KernelId) (kernels : List Kernel)
    (i j : KernelId)
    → kid + length kernels ≤ i
    → linked_from producers kid kernels i j ≡ false
linked_from-beyond producers kid [] i j h = refl
linked_from-beyond producers kid (kernel ∷ kernels) i j h =
    ground (arith, linked_from-beyond producers (suc kid) kernels i j)
