-- ===== src/Prelude/Int.antt =====
-- Signed integers, and the casts of Rust between words and signed integers of the same width.
use Prim.Native.Nat.{ℕ, ◌+◌, ◌-◌, ◌*◌, ◌≤◌, ◌<◌}
use mathlib.Core.Path.{◌≡◌}
use native.Mathlib.Omega.{arith}
use neu_rust.Prelude.Tests.{ltb, leb, if◌then◌else◌}

-- `negsuc n` is -(n + 1).
pub data ℤ : Type 0 where
  pos : ℕ → ℤ
  negsuc : ℕ → ℤ

abbrev pub pos_part : ℤ → ℕ
pos_part (pos n) = n
pos_part (negsuc n) = 0

abbrev pub neg_part : ℤ → ℕ
neg_part (pos n) = 0
neg_part (negsuc n) = n + 1

infix 50 ◌≤ℤ◌
abbrev pub ◌≤ℤ◌ : ℤ → ℤ → Type 0
a ≤ℤ b = pos_part a + neg_part b ≤ pos_part b + neg_part a

-- `as i64` and `as i32` of a word, by half of the range.
unfoldable pub as_signed : (half : ℕ) → ℕ → ℤ
as_signed half n = if ltb n half then pos n else negsuc (2 * half - 1 - n)

-- `as u64` and `as u32`.
unfoldable pub as_unsigned : (half : ℕ) → ℤ → ℕ
as_unsigned half (pos n) = n
as_unsigned half (negsuc n) = 2 * half - 1 - n

pub as_unsigned-as_signed : (half n : ℕ) → n < 2 * half → as_unsigned half (as_signed half n) ≡ n
unfolding as_unsigned as_signed
as_unsigned-as_signed half n h = ground arith

-- Below half of the range the cast keeps the order.
pub as_signed-le :
    (half m n : ℕ) → m < half → n < half → as_signed half m ≤ℤ as_signed half n → m ≤ n
unfolding as_signed
as_signed-le half m n hm hn h = ground arith

-- An integer less a natural number.
abbrev pub difference : ℤ → ℕ → ℤ
difference (pos m) n = if leb n m then pos (m - n) else negsuc (n - m - 1)
difference (negsuc m) n = negsuc (m + n)
