-- ===== src/Transform/Shape/Axes/Flags.antt =====
-- The flags of `Unsqueeze` and of `Squeeze` in src/transform/shape.rs, and the axes that they put in.
use my_nn_engine.Prelude.{
  ℕ, zero, suc, ◌≡◌, refl, ap, ◌∙◌, inl, inr, Bool, true, false, List, [], ◌∷◌, some, length,
  length-set, get_elem?, get_elem?-set_self, ltb→lt, set, map, ltb, Bool-cases,
}
use my_nn_engine.Graph.Operator.{TensorIndex, index}
use my_nn_engine.Transform.Attempt.{done, panic, check, Yields, Yields->>=}
use my_nn_engine.Transform.Shape.Axes.{mark_all, mark_ones, unmarked, inserted, is_empty}

-- What is inserted at the flags: a 1 at every flag, and all the sizes in order.
pub record Inserts (flags : List Bool) (dims : List ℕ) (r : (List ℕ × List ℕ) × List ℕ)
    : Type 0 where
  pub as_long : length r.0.0 ≡ length flags
  pub ones : (i : ℕ) → get_elem? flags i ≡ some true → get_elem? r.0.0 i ≡ some 1
  pub taken : is_empty r.1 ≡ true → unmarked flags r.0.0 ≡ dims

cons-ones :
    (b : Bool) (fs : List Bool) (d : ℕ) (ds : List ℕ)
    → (b ≡ true → d ≡ 1)
    → ((k : ℕ) → get_elem? fs k ≡ some true → get_elem? ds k ≡ some 1)
    → (i : ℕ) → get_elem? (b ∷ fs) i ≡ some true
    → get_elem? (d ∷ ds) i ≡ some 1
cons-ones b fs d ds h k zero e = let t : b ≡ true = cc in rw (h t) refl
cons-ones b fs d ds h k (suc i) e = k i e

is_empty-nil : (ds : List ℕ) → is_empty ds ≡ true → [] ≡ ds
is_empty-nil [] h = refl
is_empty-nil (d ∷ ds) h = cc

pub inserted-Inserts :
    (flags : List Bool) (dims strides : List ℕ)
    → Yields (Inserts flags dims) (inserted flags dims strides)
unfolding inserted
inserted-Inserts [] dims strides = record {
  as_long = refl;
  ones = λ i h. cc;
  taken = is_empty-nil dims;
}
inserted-Inserts (true ∷ flags) dims strides =
    Yields->>= (Inserts flags dims) (Inserts (true ∷ flags) dims) (inserted flags dims strides) _
      (inserted-Inserts flags dims strides)
      (λ r x. record {
        as_long = ap suc x.as_long;
        ones = cons-ones true flags 1 r.0.0 (λ e. refl) x.ones;
        taken = x.taken;
      })
inserted-Inserts (false ∷ flags) [] strides = tt
inserted-Inserts (false ∷ flags) (d ∷ dims) [] = tt
inserted-Inserts (false ∷ flags) (d ∷ dims) (s ∷ strides) =
    Yields->>= (Inserts flags dims) (Inserts (false ∷ flags) (d ∷ dims))
      (inserted flags dims strides) _ (inserted-Inserts flags dims strides)
      (λ r x. record {
        as_long = ap suc x.as_long;
        ones = cons-ones false flags d r.0.0 (λ e. cc) x.ones;
        taken = λ h. ap (λ l. d ∷ l) (x.taken h);
      })

get_elem?-set-true :
    (flags : List Bool) (i k : ℕ)
    → get_elem? flags k ≡ some true
    → get_elem? (set flags i true) k ≡ some true
get_elem?-set-true [] i k h = h
get_elem?-set-true (b ∷ flags) zero zero h = refl
get_elem?-set-true (b ∷ flags) zero (suc k) h = h
get_elem?-set-true (b ∷ flags) (suc i) zero h = h
get_elem?-set-true (b ∷ flags) (suc i) (suc k) h = get_elem?-set-true flags i k h

-- What is marked stays marked.
pub record Marks (flags out : List Bool) : Type 0 where
  pub same_length : length out ≡ length flags
  pub kept : (i : ℕ) → get_elem? flags i ≡ some true → get_elem? out i ≡ some true

pub check-done : {u : Unit {0}} (b : Bool) → check b ≡ done u → b ≡ true
check-done true h = refl
check-done false h = cc

pub mark_all-Marks :
    (is : List ℕ) (flags out : List Bool) → mark_all flags is ≡ done out → Marks flags out
unfolding mark_all
mark_all-Marks [] flags out h =
    let same : flags ≡ out = cc in rw (← same) (record { same_length = refl; kept = λ i h. h })
mark_all-Marks (i ∷ is) flags out h = elim (Bool-cases (ltb i (length flags))) [
  | inl e ↦
      let rest : mark_all (set flags i true) is ≡ done out = rw (e) at h in
      let m = mark_all-Marks is (set flags i true) out rest in
      record {
        same_length = m.same_length ∙ length-set flags i true;
        kept = λ k g. m.kept k (get_elem?-set-true flags i k g);
      }
  | inr e ↦ let no : panic ≡ done out = rw (e) at h in cc
]

-- Marking the axes again, where the sizes at them are 1, gives the same marks.
pub mark_ones-mark_all :
    (axes : List TensorIndex) (ds : List ℕ) (flags out : List Bool)
    → length flags ≡ length ds
    → ((i : ℕ) → get_elem? out i ≡ some true → get_elem? ds i ≡ some 1)
    → mark_all flags (map (λ a. index a (length ds)) axes) ≡ done out
    → mark_ones ds flags axes ≡ done out
unfolding mark_all mark_ones
mark_ones-mark_all [] ds flags out l ones h = h
mark_ones-mark_all (a ∷ axes) ds flags out l ones h =
    let i = index a (length ds) in
    elim (Bool-cases (ltb i (length flags))) [
      | inl e ↦
          let rest : mark_all (set flags i true) (map (λ a. index a (length ds)) axes) ≡ done out =
            rw (e) at h in
          let m = mark_all-Marks _ (set flags i true) out rest in
          let one =
            ones i (m.kept i (get_elem?-set_self flags i true (ltb→lt i (length flags) e))) in
          rw (one) (
            mark_ones-mark_all axes ds (set flags i true) out (length-set flags i true ∙ l) ones
              rest)
      | inr e ↦ let no : panic ≡ done out = rw (e) at h in cc
    ]

pub mark_all_first :
    (i : ℕ) (is : List ℕ) (flags out : List Bool)
    → mark_all flags (i ∷ is) ≡ done out
    → get_elem? out i ≡ some true
unfolding mark_all
mark_all_first i is flags out h = elim (Bool-cases (ltb i (length flags))) [
  | inl e ↦
      let rest : mark_all (set flags i true) is ≡ done out = rw (e) at h in
      (mark_all-Marks is (set flags i true) out rest).kept i
        (get_elem?-set_self flags i true (ltb→lt i (length flags) e))
  | inr e ↦ let no : panic ≡ done out = rw (e) at h in cc
]
