-- ===== src/Transform/Attempt.antt =====
-- What code of src/transform/shape.rs comes to: a value, an error that it returns, or a panic.
use my_nn_engine.Prelude.{
  ℕ, ◌≡◌, refl, subst, Bool, true, false, List, Option, none, some, get_elem?,
}
use my_nn_engine.Tensor.Broadcast.{TypeError, Result, ok, err}

pub data Attempt {ℓ} (A : Type ℓ) : Type ℓ where
  done : A → Attempt A
  fail : TypeError → Attempt A
  panic : Attempt A

infixl 5 ◌>>=◌ ◌>>◌
abbrev pub ◌>>=◌ {ℓ κ} : {A : Type ℓ} {B : Type κ} → Attempt A → (A → Attempt B) → Attempt B
done a >>= f = f a
fail e >>= f = fail e
panic >>= f = panic

abbrev pub ◌>>◌ {ℓ} : {B : Type ℓ} → Attempt (Unit {0}) → Attempt B → Attempt B
m >> k = m >>= λ _. k

-- `unwrap`, an index, or a call that may panic.
abbrev pub must {ℓ} : {A : Type ℓ} → Option A → Attempt A
must none = panic
must (some a) = done a

-- `ok_or(e)?`.
abbrev pub ok_or {ℓ} : {A : Type ℓ} → Option A → TypeError → Attempt A
ok_or none e = fail e
ok_or (some a) e = done a

-- `?`.
abbrev pub try_ok {ℓ} : {A : Type ℓ} → Result A → Attempt A
try_ok (ok a) = done a
try_ok (err e) = fail e

-- `assert!`.
abbrev pub check : Bool → Attempt (Unit {0})
check true = done tt
check false = panic

-- `v[i]`.
abbrev pub at {ℓ} : {A : Type ℓ} → List A → ℕ → Attempt A
at xs i = must (get_elem? xs i)

-- `P` holds of the value, where there is one.
abbrev pub Yields {ℓ κ} : {A : Type ℓ} → (A → Type κ) → Attempt A → Type κ
Yields P (done a) = P a
Yields P (fail e) = Unit
Yields P panic = Unit

pub Yields->>= {ℓ κ μ ν} :
    {A : Type ℓ} {B : Type κ} (P : A → Type μ) (Q : B → Type ν) (m : Attempt A) (f : A → Attempt B)
    → Yields P m
    → ((a : A) → P a → Yields Q (f a))
    → Yields Q (m >>= f)
Yields->>= P Q (done a) f h k = k a h
Yields->>= P Q (fail e) f h k = tt
Yields->>= P Q panic f h k = tt

pub Yields-eq {ℓ κ} :
    {A : Type ℓ} (P : A → Type κ) (m : Attempt A) {a : A} → Yields P m → m ≡ done a → P a
Yields-eq P (done b) {a} h e = let same : b ≡ a = cc in subst P same h
Yields-eq P (fail e) h k = cc
Yields-eq P panic h k = cc

pub >>=-eq-done {ℓ κ} :
    {A : Type ℓ} {B : Type κ} (m : Attempt A) (f : A → Attempt B) {b : B}
    → (m >>= f) ≡ done b
    → (a : A) × (m ≡ done a) × (f a ≡ done b)
>>=-eq-done (done a) f h = (a, refl, h)
>>=-eq-done (fail e) f h = cc
>>=-eq-done panic f h = cc

pub done_inj {ℓ} : {A : Type ℓ} {a b : A} → done a ≡ done b → a ≡ b
done_inj h = cc
