-- ===== src/Prelude/Int.antt =====
-- Signed integers over the native numbers, and the conversion to a `usize`.
use Prim.Native.Nat.{ℕ, ◌+◌, ◌-◌, ◌^◌, ◌%◌, min}
use my_nn_engine.Prelude.Tests.{leb, if◌then◌else◌}

-- `pos n` is n, and `negsuc n` is -(n + 1).
pub data ℤ : Type 0 where
  pos negsuc : ℕ → ℤ

-- `as usize`: a negative number wraps.
abbrev pub to_usize : ℤ → ℕ
to_usize (pos n) = n
to_usize (negsuc n) = 2 ^ 64 - (n + 1) % 2 ^ 64

-- `(rank as isize + x) as usize` for `x < 0`, and `x as usize` otherwise.
abbrev pub from_end : ℕ → ℤ → ℕ
from_end rank (pos n) = n
from_end rank (negsuc n) = if leb (n + 1) rank then rank - (n + 1) else rank + 2 ^ 64 - (n + 1)

-- `as isize` of a `usize`.
abbrev pub to_isize : ℕ → ℤ
to_isize n = if leb (2 ^ 63) n then negsuc (2 ^ 64 - n - 1) else pos n

infixl 20 ◌⊖◌ ◌-ℤ◌
-- A difference of naturals, and of integers.
abbrev pub ◌⊖◌ : ℕ → ℕ → ℤ
m ⊖ n = if leb n m then pos (m - n) else negsuc (n - m - 1)

abbrev pub ◌-ℤ◌ : ℤ → ℤ → ℤ
pos m -ℤ pos n = m ⊖ n
pos m -ℤ negsuc n = pos (m + n + 1)
negsuc m -ℤ pos n = negsuc (m + n)
negsuc m -ℤ negsuc n = n ⊖ m

-- `x.clamp(0, bound)`.
abbrev pub clamp : ℤ → ℕ → ℤ
clamp (pos n) bound = pos (min n bound)
clamp (negsuc n) bound = pos 0
