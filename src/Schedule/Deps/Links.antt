-- ===== src/Schedule/Deps/Links.antt =====
-- The links of `Deps::new`: who precedes and who consumes whom.
use my_nn_engine.Prelude.{
  ℕ, zero, suc, ◌<◌, ◌≡◌, max, refl, ap, ◌∙◌, inl, inr, Bool, true, false, ◌&&◌, ◌||◌, List, [],
  ◌∷◌, Option, none, some, ◌>>=◌, length, ltb, ◌==◌, if◌then◌else◌, arith, Bool-cases, Option-cases,
}
use my_nn_engine.Schedule.Ir.{ValueId, KernelId}
use my_nn_engine.Schedule.Kernels.{contains}
use my_nn_engine.Schedule.Alloc.Counts.{count}
use my_nn_engine.Schedule.Deps.{Deps, lookup, count_use, insert_at, link}

-- How often a kernel stands in the set at `i`.
abbrev pub count_at : ℕ → List (List ℕ) → ℕ → ℕ
count_at i [] x = 0
count_at zero (set ∷ sets) x = count x set
count_at (suc i) (set ∷ sets) x = count_at i sets x

-- Entered once more, or not.
abbrev pub enter : Bool → ℕ → ℕ
enter true n = max 1 n
enter false n = n

pub contains-count : (set : List ℕ) (x : ℕ) → contains set x ≡ ltb 0 (count x set)
contains-count [] x = refl
contains-count (y ∷ set) x = ground (arith, contains-count set x)

record Inserted (i x : ℕ) (sets : List (List ℕ)) : Type 0 where
  sets_after : List (List ℕ)
  runs : insert_at i x sets ≡ some sets_after
  same_length : length sets_after ≡ length sets
  counts : (j y : ℕ) → count_at j sets_after y ≡ enter (i == j && x == y) (count_at j sets y)

Inserted-here :
    (x : ℕ) (set : List ℕ) (sets : List (List ℕ)) (j y : ℕ)
    → count_at j ((if contains set x then set else x ∷ set) ∷ sets) y
      ≡ enter (0 == j && x == y) (count_at j (set ∷ sets) y)
Inserted-here x set sets zero y = ground (arith, contains-count set x)
Inserted-here x set sets (suc j) y = ground arith

Inserted-later :
    (i x : ℕ) (set : List ℕ) (sets after : List (List ℕ))
    → ((j y : ℕ) → count_at j after y ≡ enter (i == j && x == y) (count_at j sets y))
    → (j y : ℕ)
    → count_at j (set ∷ after) y ≡ enter (suc i == j && x == y) (count_at j (set ∷ sets) y)
Inserted-later i x set sets after h zero y = ground arith
Inserted-later i x set sets after h (suc j) y = ground (arith, h j y)

insert_at-Inserted : (i x : ℕ) (sets : List (List ℕ)) → i < length sets → Inserted i x sets
unfolding insert_at
insert_at-Inserted i x [] h = absurd (omega arith)
insert_at-Inserted zero x (set ∷ sets) h = record {
  sets_after = (if contains set x then set else x ∷ set) ∷ sets;
  runs = refl;
  same_length = refl;
  counts = Inserted-here x set sets;
}
insert_at-Inserted (suc i) x (set ∷ sets) h =
    let rest = insert_at-Inserted i x sets (omega arith) in
    record {
      sets_after = set ∷ rest.sets_after;
      runs = rw (rest.runs) refl;
      same_length = omega (arith, rest.same_length);
      counts = Inserted-later i x set sets rest.sets_after rest.counts;
    }

-- An input of kernel `kid` is produced by the other kernel `j`.
abbrev pub from : List (ValueId × KernelId) → KernelId → ValueId → KernelId → Bool
from producers kid v j = elim (lookup v producers) [
  | none ↦ false
  | some p ↦ if p == kid then false else p == j
]

abbrev pub any_from : List (ValueId × KernelId) → KernelId → List ValueId → KernelId → Bool
any_from producers kid [] j = false
any_from producers kid (v ∷ vs) j = from producers kid v j || any_from producers kid vs j

-- The links of kernel `i` are entered for the kernels that `new_link` names, on both sides.
pub record Linked (new_link : KernelId → KernelId → Bool) (n : ℕ) (before : Deps) (o : Option Deps)
    : Type 0 where
  pub after : Deps
  pub runs : o ≡ some after
  pub same_producers : after.value2producer ≡ before.value2producer
  pub preds_length : length after.kernel_preds ≡ n
  pub consumers_length : length after.kernel_consumers ≡ n
  pub preds :
      (i j : ℕ)
      → count_at i after.kernel_preds j ≡ enter (new_link i j) (count_at i before.kernel_preds j)
  pub consumers :
      (i j : ℕ)
      → count_at j after.kernel_consumers i
        ≡ enter (new_link i j) (count_at j before.kernel_consumers i)

and_swap : (a b : Bool) → (a && b) ≡ (b && a)
and_swap true true = refl
and_swap true false = refl
and_swap false true = refl
and_swap false false = refl

-- Every producer is a kernel.
abbrev pub Bounded : ℕ → List (ValueId × KernelId) → Type 0
Bounded n producers = (v p : ℕ) → lookup v producers ≡ some p → p < n

module _ (producers : List (ValueId × KernelId)) (kid v : ℕ) where
  from-none : lookup v producers ≡ none → (j : ℕ) → from producers kid v j ≡ false
  from-none e j = rw (from, e) refl

  from_self :
      (p : ℕ)
      → lookup v producers ≡ some p
      → (p == kid) ≡ true
      → (j : ℕ) → from producers kid v j ≡ false
  from_self p e x j = rw (from, e, x) refl

  from-other :
      (p : ℕ)
      → lookup v producers ≡ some p
      → (p == kid) ≡ false
      → (j : ℕ) → from producers kid v j ≡ (p == j)
  from-other p e x j = rw (from, e, x) refl

pub not_entered : (a b : Bool) (n : ℕ) → b ≡ false → n ≡ enter (a && b) n
not_entered a b n e = ground arith

-- Nothing is entered but the use.
counted-Linked :
    (n kid v : ℕ) (deps : Deps)
    → length deps.kernel_preds ≡ n
    → length deps.kernel_consumers ≡ n
    → ((j : ℕ) → from deps.value2producer kid v j ≡ false)
    → link kid v deps ≡ some (record deps { value_uses_count = count_use v deps.value_uses_count })
    → Linked (λ i j. kid == i && from deps.value2producer kid v j) n deps (link kid v deps)
counted-Linked n kid v deps lp lc f r = record {
  after = record deps { value_uses_count = count_use v deps.value_uses_count };
  runs = r;
  same_producers = refl;
  preds_length = lp;
  consumers_length = lc;
  preds = λ i j.
      not_entered (kid == i) (from deps.value2producer kid v j) (count_at i deps.kernel_preds j)
        (f j);
  consumers = λ i j.
      not_entered (kid == i) (from deps.value2producer kid v j) (count_at j deps.kernel_consumers i)
        (f j);
}

entered-Linked :
    (n kid v p : ℕ) (deps : Deps)
    → length deps.kernel_preds ≡ n
    → length deps.kernel_consumers ≡ n
    → ((j : ℕ) → from deps.value2producer kid v j ≡ (p == j))
    → (m : Inserted kid p deps.kernel_preds) (r : Inserted p kid deps.kernel_consumers)
    → link kid v deps
      ≡ some (record deps {
        value_uses_count = count_use v deps.value_uses_count;
        kernel_preds = m.sets_after;
        kernel_consumers = r.sets_after;
      })
    → Linked (λ i j. kid == i && from deps.value2producer kid v j) n deps (link kid v deps)
entered-Linked n kid v p deps lp lc f m r ran = record {
  after = record deps {
    value_uses_count = count_use v deps.value_uses_count;
    kernel_preds = m.sets_after;
    kernel_consumers = r.sets_after;
  };
  runs = ran;
  same_producers = refl;
  preds_length = omega (arith, m.same_length);
  consumers_length = omega (arith, r.same_length);
  preds = λ i j. rw (f j) (m.counts i j);
  consumers = λ i j. rw (f j) (
      r.counts j i
      ∙ ap (λ b. enter b (count_at j deps.kernel_consumers i)) (and_swap (p == j) (kid == i)));
}

pub link-Linked :
    (n kid v : ℕ) (deps : Deps)
    → length deps.kernel_preds ≡ n
    → length deps.kernel_consumers ≡ n
    → kid < n
    → Bounded n deps.value2producer
    → Linked (λ i j. kid == i && from deps.value2producer kid v j) n deps (link kid v deps)
unfolding link
link-Linked n kid v deps lp lc h b = elim (Option-cases (lookup v deps.value2producer)) [
  | inl e ↦
      counted-Linked n kid v deps lp lc (from-none deps.value2producer kid v e) (rw (link, e) refl)
  | inr (p, e) ↦ elim (Bool-cases (p == kid)) [
    | inl x ↦
        counted-Linked n kid v deps lp lc (from_self deps.value2producer kid v p e x)
          (rw (link, e, x) refl)
    | inr x ↦
        let m = insert_at-Inserted kid p deps.kernel_preds (omega arith) in
        let r = insert_at-Inserted p kid deps.kernel_consumers (omega (arith, b v p e)) in
        entered-Linked n kid v p deps lp lc (from-other deps.value2producer kid v p e x) m r
          (rw (link, e, x, m.runs, r.runs) refl)
  ]
]

-- One step after another.
pub Linked-then :
    (f g h : KernelId → KernelId → Bool) (n : ℕ) (before : Deps) (step : Deps → Option Deps)
    (o : Option Deps)
    → (first : Linked f n before o) → (second : Linked g n first.after (step first.after))
    → ((i j : ℕ) → h i j ≡ (f i j || g i j))
    → Linked h n before (o >>= step)
Linked-then f g h n before step o first second e = record {
  after = second.after;
  runs = rw (first.runs) second.runs;
  same_producers = second.same_producers ∙ first.same_producers;
  preds_length = second.preds_length;
  consumers_length = second.consumers_length;
  preds = λ i j. ground (arith, first.preds i j, second.preds i j, e i j);
  consumers = λ i j. ground (arith, first.consumers i j, second.consumers i j, e i j);
}
