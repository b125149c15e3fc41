-- ===== src/Schedule/Deps/Entries.antt =====
-- The entries of the producers and of the use counts of `Deps::new` in
-- src/schedule/scheduler/common.rs.
use my_nn_engine.Prelude.{
  ℕ, zero, suc, ◌+◌, ◌≤◌, ◌≡◌, refl, ◌∙◌, inl, inr, true, List, [], ◌∷◌, Option, none, some,
  >>=-eq-some, get_elem?, ◌==◌, if◌then◌else◌, arith, Bool-cases, Option-cases,
}
use my_nn_engine.Schedule.Ir.{ValueId, KernelId}
use my_nn_engine.Schedule.Kernels.{Kernel, flatten, contains}
use my_nn_engine.Schedule.Deps.{
  Deps, lookup, produce, produce_all, count_use, insert_at, link, link_inputs, link_all,
}

-- A producer of the value that is `p` or a later kernel.
abbrev pub FoundFrom : ℕ → Option KernelId → Type 0
FoundFrom p o = (q : KernelId) × (o ≡ some q) × (p ≤ q)

produce-lookup :
    (kid : KernelId) (outs : List ValueId) (producers : List (ValueId × KernelId)) (v : ValueId)
    → lookup v (produce kid outs producers)
      ≡ (if contains outs v then some kid else lookup v producers)
unfolding produce
produce-lookup kid [] producers v = refl
produce-lookup kid (out ∷ outs) producers v =
    ground (arith, produce-lookup kid outs ((out, kid) ∷ producers) v)

produce_all-keeps :
    (kid : KernelId) (kernels : List Kernel) (producers : List (ValueId × KernelId)) (v p : ℕ)
    → p ≤ kid
    → FoundFrom p (lookup v producers)
    → FoundFrom p (lookup v (produce_all kid kernels producers))
unfolding produce_all
produce_all-keeps kid [] producers v p l f = f
produce_all-keeps kid (kernel ∷ kernels) producers v p l (q, e, b) =
    let here = produce-lookup kid kernel.outputs producers v in
    produce_all-keeps (suc kid) kernels (produce kid kernel.outputs producers) v p (omega arith)
      (elim (Bool-cases (contains kernel.outputs v)) [
        | inl x ↦ (kid, here ∙ (rw (x) refl), l)
        | inr x ↦ (q, here ∙ (rw (x) e), b)
      ])

pub produce_all-finds :
    (kid : KernelId) (kernels : List Kernel) (producers : List (ValueId × KernelId)) (v j : ℕ)
    (kernel : Kernel)
    → get_elem? kernels j ≡ some kernel
    → contains kernel.outputs v ≡ true
    → FoundFrom (kid + j) (lookup v (produce_all kid kernels producers))
unfolding produce_all
produce_all-finds kid [] producers v j kernel e c = cc
produce_all-finds kid (first ∷ kernels) producers v zero kernel e c =
    let same : first ≡ kernel = cc in
    let inside : contains first.outputs v ≡ true = rw (same) c in
    let here = produce-lookup kid first.outputs producers v in
    produce_all-keeps (suc kid) kernels (produce kid first.outputs producers) v (kid + 0)
      (omega arith) (kid, here ∙ (rw (inside) refl), omega arith)
produce_all-finds kid (first ∷ kernels) producers v (suc j) kernel e c =
    let (q, f, l) =
      produce_all-finds (suc kid) kernels (produce kid first.outputs producers) v j kernel e c in
    (q, f, omega arith)

-- How often the value is used, as entered: 0 where it is not.
abbrev pub uses_in : List (ValueId × ℕ) → ValueId → ℕ
uses_in entries v = elim (lookup v entries) [ none ↦ 0 | some n ↦ n ]

-- How often it occurs in a list, and among the inputs of the kernels.
abbrev pub occurs : ValueId → List ValueId → ℕ
occurs v [] = 0
occurs v (w ∷ ws) = (if w == v then 1 else 0) + occurs v ws

abbrev pub occurs_all : ValueId → List Kernel → ℕ
occurs_all v [] = 0
occurs_all v (kernel ∷ kernels) = occurs v (flatten kernel.inputs) + occurs_all v kernels

count_use-uses_in :
    (w : ValueId) (entries : List (ValueId × ℕ)) (v : ValueId)
    → uses_in (count_use w entries) v ≡ uses_in entries v + (if w == v then 1 else 0)
unfolding count_use
count_use-uses_in w [] v = ground arith
count_use-uses_in w ((u, n) ∷ entries) v = ground (arith, count_use-uses_in w entries v)

link-uses_in :
    (kid : KernelId) (input : ValueId) (deps : Deps) {after : Deps}
    → link kid input deps ≡ some after
    → after.value_uses_count ≡ count_use input deps.value_uses_count
unfolding link
link-uses_in kid input deps h = elim (Option-cases (lookup input deps.value2producer)) [
  | inl e ↦ (let k = rw (link, e) at h in cc)
  | inr (prod, e) ↦ elim (Bool-cases (prod == kid)) [
    | inl x ↦ (let k = rw (link, e, x) at h in cc)
    | inr x ↦
        let k = rw (link, e, x) at h in
        let (preds, p, k1) = >>=-eq-some (insert_at kid prod deps.kernel_preds) _ k in
        let (consumers, c, k2) = >>=-eq-some (insert_at prod kid deps.kernel_consumers) _ k1 in cc
  ]
]

link_inputs-uses_in :
    (kid : KernelId) (inputs : List ValueId) (deps : Deps) {after : Deps}
    → link_inputs kid inputs deps ≡ some after
    → (v : ValueId)
    → uses_in after.value_uses_count v ≡ uses_in deps.value_uses_count v + occurs v inputs
unfolding link_inputs
link_inputs-uses_in kid [] deps {after} h v =
    let same : deps ≡ after = cc in rw (← same) (omega arith)
link_inputs-uses_in kid (input ∷ inputs) deps h v =
    let (next, e, k) = >>=-eq-some (link kid input deps) _ h in
    let rest = link_inputs-uses_in kid inputs next k v in
    let counted = link-uses_in kid input deps e in
    let here = count_use-uses_in input deps.value_uses_count v in
    let both : uses_in next.value_uses_count v
        ≡ uses_in deps.value_uses_count v + (if input == v then 1 else 0) =
      rw (counted) here in
    omega (arith, rest, both)

pub link_all-uses_in :
    (kid : KernelId) (kernels : List Kernel) (deps : Deps) {after : Deps}
    → link_all kid kernels deps ≡ some after
    → (v : ValueId)
    → uses_in after.value_uses_count v ≡ uses_in deps.value_uses_count v + occurs_all v kernels
unfolding link_all
link_all-uses_in kid [] deps {after} h v = let same : deps ≡ after = cc in rw (← same) (omega arith)
link_all-uses_in kid (kernel ∷ kernels) deps h v =
    let (next, e, k) = >>=-eq-some (link_inputs kid (flatten kernel.inputs) deps) _ h in
    let rest = link_all-uses_in (suc kid) kernels next k v in
    let here = link_inputs-uses_in kid (flatten kernel.inputs) deps e v in omega (arith, rest, here)
