-- ===== src/Transform/Shape/Axes/Joined.antt =====
-- What Concat comes to in src/transform/shape.rs.
use my_nn_engine.Prelude.{
  ℕ, zero, suc, ◌+◌, ◌<◌, ◌≡◌, refl, ◌∙◌, ◌⊎◌, inl, inr, Bool, true, false, ◌&&◌, List, [], ◌∷◌,
  none, some, length, get_elem?, map, sum, ◌==◌, if◌then◌else◌, arith, Bool-cases,
}
use my_nn_engine.Tensor.Dims.{ResolvedTensorDims, ndim}
use my_nn_engine.Tensor.Types.{ResolvedTensorType, DataType}
use my_nn_engine.Tensor.Types
use my_nn_engine.Tensor.Broadcast.{TypeError, infer_error}
use my_nn_engine.Graph.Operator.{TensorIndex, index}
use my_nn_engine.Transform.Attempt.{Attempt, done, fail}
use my_nn_engine.Transform.Shape.Axes.{join, join_all, concat}

-- Whether two shapes agree outside of an axis, from position `i` on.
abbrev pub agree : ℕ → ℕ → ResolvedTensorDims → ResolvedTensorDims → Bool
agree axis i [] [] = true
agree axis i [] (_ ∷ _) = false
agree axis i (_ ∷ _) [] = false
agree axis i (d ∷ dims) (e ∷ others) =
    if i == axis then agree axis (suc i) dims others else d == e && agree axis (suc i) dims others

-- The sizes of two shapes, added at the axis.
abbrev pub added_at : ℕ → ℕ → ResolvedTensorDims → ResolvedTensorDims → ResolvedTensorDims
added_at axis i [] others = []
added_at axis i (d ∷ dims) [] = d ∷ dims
added_at axis i (d ∷ dims) (e ∷ others) =
    (if i == axis then d + e else d) ∷ added_at axis (suc i) dims others

join-agree :
    (axis i : ℕ) (dims others : ResolvedTensorDims)
    → length dims ≡ length others
    → join axis i dims others ≡ (
        if agree axis i dims others
        then done (added_at axis i dims others)
        else fail (infer_error "Concat: Different dim"))
unfolding join
join-agree axis i [] [] l = refl
join-agree axis i [] (e ∷ others) l = absurd (omega (arith, l))
join-agree axis i (d ∷ dims) [] l = absurd (omega (arith, l))
join-agree axis i (d ∷ dims) (e ∷ others) l =
    let rest = join-agree axis (suc i) dims others (omega (arith, l)) in
    elim (Bool-cases (i == axis)) [
      | inl x ↦ elim (Bool-cases (agree axis (suc i) dims others)) [
        | inl y ↦ rw (x, rest, y) refl
        | inr y ↦ rw (x, rest, y) refl
      ]
      | inr x ↦ elim (Bool-cases (d == e)) [
        | inl z ↦ elim (Bool-cases (agree axis (suc i) dims others)) [
          | inl y ↦ rw (x, z, rest, y) refl
          | inr y ↦ rw (x, z, rest, y) refl
        ]
        | inr z ↦ rw (x, z) refl
      ]
    ]

-- The size at an axis, 0 out of range.
abbrev pub size_at : ℕ → ResolvedTensorDims → ℕ
size_at k dims = elim (get_elem? dims k) [ none ↦ 0 | some d ↦ d ]

-- Whether every input has as many axes and agrees outside of the axis.
abbrev pub all_agree : ℕ → ResolvedTensorDims → List ResolvedTensorType → Bool
all_agree axis dims [] = true
all_agree axis dims (input ∷ inputs) =
    (ndim dims == ndim input.dims && agree axis 0 dims input.dims) && all_agree axis dims inputs

-- The sizes after joining: those of the first, but at the axis, where they are added up.
pub record IsJoined (axis : ℕ) (dims : ResolvedTensorDims) (inputs : List ResolvedTensorType)
    (joined : ResolvedTensorDims) : Type 0 where
  pub same_rank : length joined ≡ length dims
  pub elsewhere : (k : ℕ) → (k == axis) ≡ false → get_elem? joined k ≡ get_elem? dims k
  pub at_axis :
      axis < length dims
      → size_at axis joined ≡ size_at axis dims + sum (map (λ t. size_at axis t.dims) inputs)

added_at-length :
    (axis i : ℕ) (dims others : ResolvedTensorDims)
    → length (added_at axis i dims others) ≡ length dims
added_at-length axis i [] others = refl
added_at-length axis i (d ∷ dims) [] = refl
added_at-length axis i (d ∷ dims) (e ∷ others) =
    omega (arith, added_at-length axis (suc i) dims others)

added_at-elsewhere :
    (axis i k : ℕ) (dims others : ResolvedTensorDims)
    → (i + k == axis) ≡ false
    → get_elem? (added_at axis i dims others) k ≡ get_elem? dims k
added_at-elsewhere axis i k [] others h = refl
added_at-elsewhere axis i zero (d ∷ dims) [] h = refl
added_at-elsewhere axis i (suc k) (d ∷ dims) [] h = refl
added_at-elsewhere axis i zero (d ∷ dims) (e ∷ others) h =
    let ne : (i == axis) ≡ false = ground arith in rw (ne) refl
added_at-elsewhere axis i (suc k) (d ∷ dims) (e ∷ others) h =
    added_at-elsewhere axis (suc i) k dims others (ground arith)

added_at-axis :
    (axis i k : ℕ) (dims others : ResolvedTensorDims)
    → i + k ≡ axis
    → length dims ≡ length others
    → k < length dims
    → size_at k (added_at axis i dims others) ≡ size_at k dims + size_at k others
added_at-axis axis i k [] others h l b = absurd (omega arith)
added_at-axis axis i k (d ∷ dims) [] h l b = absurd (omega arith)
added_at-axis axis i zero (d ∷ dims) (e ∷ others) h l b =
    let eq : (i == axis) ≡ true = ground arith in rw (eq) refl
added_at-axis axis i (suc k) (d ∷ dims) (e ∷ others) h l b =
    added_at-axis axis (suc i) k dims others (omega arith) (omega arith) (omega arith)

agree-added_at :
    (axis i : ℕ) (dims others more : ResolvedTensorDims)
    → agree axis i (added_at axis i dims others) more ≡ agree axis i dims more
agree-added_at axis i [] others more = refl
agree-added_at axis i (d ∷ dims) [] more = refl
agree-added_at axis i (d ∷ dims) (e ∷ others) [] = refl
agree-added_at axis i (d ∷ dims) (e ∷ others) (m ∷ more) =
    let rest = agree-added_at axis (suc i) dims others more in
    elim (Bool-cases (i == axis)) [ inl x ↦ rw (x) rest | inr x ↦ rw (x, rest) refl ]

all_agree-added_at :
    (axis : ℕ) (dims others : ResolvedTensorDims) (inputs : List ResolvedTensorType)
    → all_agree axis (added_at axis 0 dims others) inputs ≡ all_agree axis dims inputs
all_agree-added_at axis dims others [] = refl
all_agree-added_at axis dims others (input ∷ inputs) =
    rw
      (
        added_at-length axis 0 dims others,
        agree-added_at axis 0 dims others input.dims,
        all_agree-added_at axis dims others inputs,
      )
      refl

IsJoined-cons :
    (axis : ℕ) (dims : ResolvedTensorDims) (input : ResolvedTensorType)
    (inputs : List ResolvedTensorType) (joined : ResolvedTensorDims)
    → length dims ≡ length input.dims
    → IsJoined axis (added_at axis 0 dims input.dims) inputs joined
    → IsJoined axis dims (input ∷ inputs) joined
IsJoined-cons axis dims input inputs joined l j =
    let same = added_at-length axis 0 dims input.dims in
    record {
      same_rank = j.same_rank ∙ same;
      elsewhere =
          λ k h. j.elsewhere k h ∙ added_at-elsewhere axis 0 k dims input.dims (ground arith);
      at_axis = λ b.
          let rest = j.at_axis (omega arith) in
          let first = added_at-axis axis 0 axis dims input.dims (omega arith) l b in
          omega (arith, rest, first);
    }

-- What joining comes to: sizes that are joined where the inputs agree, an error where they do not.
pub Joining : ℕ → ResolvedTensorDims → List ResolvedTensorType → Attempt ResolvedTensorDims → Type 0
Joining axis dims inputs m =
    ((all_agree axis dims inputs ≡ true)
      × (joined : ResolvedTensorDims) × (m ≡ done joined)
      × IsJoined axis dims inputs joined)
    ⊎ ((all_agree axis dims inputs ≡ false) × (e : TypeError) × (m ≡ fail e))

join_all-Joining :
    (axis : ℕ) (dims : ResolvedTensorDims) (inputs : List ResolvedTensorType)
    → Joining axis dims inputs (join_all axis dims inputs)
unfolding join_all Joining
join_all-Joining axis dims [] = inl (
  refl,
  dims,
  refl,
  record { same_rank = refl; elsewhere = λ k h. refl; at_axis = λ b. omega arith },
)
join_all-Joining axis dims (input ∷ inputs) = elim (Bool-cases (ndim dims == ndim input.dims)) [
  | inr x ↦ inr (rw (x) refl, infer_error "Concat: Different ranks", rw (x) refl)
  | inl x ↦
      let l : length dims ≡ length input.dims = ground arith in
      let here = join-agree axis 0 dims input.dims l in
      elim (Bool-cases (agree axis 0 dims input.dims)) [
        | inr y ↦ inr (rw (x, y) refl, infer_error "Concat: Different dim", rw (x, here, y) refl)
        | inl y ↦
            let next = added_at axis 0 dims input.dims in
            let same = all_agree-added_at axis dims input.dims inputs in
            elim (join_all-Joining axis next inputs) [
              | inl (a, joined, m, j) ↦ inl (
                rw (x, y, ← same) a,
                joined,
                rw (x, here, y) m,
                IsJoined-cons axis dims input inputs joined l j,
              )
              | inr (a, e, m) ↦ inr (rw (x, y, ← same) a, e, rw (x, here, y) m)
            ]
      ]
]

-- Concat of one or more inputs does not panic. Where every input has as many axes as the first
-- and agrees with it outside of the axis, it returns the type of the first with the sizes at the
-- axis added up; and otherwise it returns an error.
pub concat-outcome :
    (axis : TensorIndex) (first : ResolvedTensorType) (inputs : List ResolvedTensorType)
    → let i = index axis (ndim first.dims) in
      ((all_agree i first.dims inputs ≡ true)
        × (joined : ResolvedTensorDims) × (concat axis (first ∷ inputs)
            ≡ done (Types.new first.elem_type joined))
        × IsJoined i first.dims inputs joined)
      ⊎ ((all_agree i first.dims inputs ≡ false)
          × (e : TypeError) × (concat axis (first ∷ inputs) ≡ fail e))
unfolding concat Joining
concat-outcome axis first inputs =
    let i = index axis (ndim first.dims) in
    elim (join_all-Joining i first.dims inputs) [
      | inl (a, joined, m, j) ↦ inl (a, joined, rw (m) refl, j)
      | inr (a, e, m) ↦ inr (a, e, rw (m) refl)
    ]
