-- ===== src/Prelude/Numbers.antt =====
-- Division with remainder: a number is determined by its digits.
use Prim.Native.Nat.{ℕ, zero, suc, ◌+◌, ◌*◌, ◌/◌, ◌%◌, ◌<◌}
use mathlib.Core.Path.{◌≡◌, refl, ap}
use native.Mathlib.Nat.{div-add-mod, mod-lt, div-div-eq-div-mul}
use native.Mathlib.Omega.{arith}

digits_lt : (p i j a b : ℕ) → a < p → i < j → i * p + a < j * p + b
digits_lt p i j a b h k = grind arith

pub digits_eq : (p i j a b : ℕ) → a < p → b < p → i * p + a ≡ j * p + b → (i ≡ j) × (a ≡ b)
digits_eq p i j a b h k e =
    let same : i ≡ j = ground (arith, digits_lt p i j a b, digits_lt p j i b a) in
    (same, omega (arith, ap (λ (t : ℕ). t * p) same))

-- The quotient and the remainder of a number that is written with its digit.
pub div_mod_of_digits : (p m r : ℕ) → r < p → ((m * p + r) / p ≡ m) × ((m * p + r) % p ≡ r)
div_mod_of_digits p m r h =
    digits_eq p ((m * p + r) / p) m ((m * p + r) % p) r (mod-lt (m * p + r) (omega arith)) h
      (omega (arith, div-add-mod (m * p + r) p))

-- The last two digits of a number, at once and one after the other.
pub mod-mul : (k t q : ℕ) → 0 < t → 0 < q → k % (t * q) ≡ k % t + t * (k / t % q)
mod-mul k t q h h' =
    let low : k % t < t = mod-lt k h in
    let high : k / t % q < q = mod-lt (k / t) h' in
    let positive : 0 < t * q = grind arith in
    let small : k % t + t * (k / t % q) < t * q = grind arith in
    let regroup : k / (t * q) * (t * q) + k % (t * q)
        ≡ k / (t * q) * (t * q) + (k % t + t * (k / t % q)) =
      omega (
        arith,
        div-add-mod k t,
        div-add-mod k (t * q),
        ap (λ (x : ℕ). t * x) (div-add-mod (k / t) q),
        ap (λ (x : ℕ). t * q * x) (div-div-eq-div-mul k t q),
      ) in
    (digits_eq (t * q) (k / (t * q)) (k / (t * q)) (k % (t * q)) (k % t + t * (k / t % q))
      (mod-lt k positive) small regroup).1

pub mul-eq-one : (a b : ℕ) → a * b ≡ 1 → (a ≡ 1) × (b ≡ 1)
mul-eq-one zero b e = absurd (omega arith)
mul-eq-one (suc zero) b e = (refl, omega arith)
mul-eq-one (suc (suc a)) zero e = absurd (omega arith)
mul-eq-one (suc (suc a)) (suc b) e = absurd (omega arith)
