-- ===== src/Prelude/Float.antt =====
-- `f64` as its 64 bits. Comparisons are those of IEEE 754 on the bits; arithmetic, which needs
-- rounding, is an interface.
use Prim.Native.Nat.{ℕ, ◌%◌}
use mathlib.Core.Bool.{Bool, true, ◌&&◌, ◌||◌, not}
use neu_rust.Prelude.Tests.{ltb, leb, ◌==◌, if◌then◌else◌}

abbrev pub F64 : Type 0
F64 = ℕ

-- The bits below the sign.
abbrev pub magnitude : F64 → ℕ
magnitude x = x % 0x8000000000000000

abbrev pub is_negative : F64 → Bool
is_negative x = leb 0x8000000000000000 x

abbrev pub is_nan : F64 → Bool
is_nan x = ltb 0x7ff0000000000000 (magnitude x)

-- `is_finite`.
abbrev pub is_finite : F64 → Bool
is_finite x = ltb (magnitude x) 0x7ff0000000000000

-- `x <= y` on two values that are not NaN; the two zeros are equal.
abbrev pub ordered_le : F64 → F64 → Bool
ordered_le x y =
    if is_negative x
    then if is_negative y then leb (magnitude y) (magnitude x) else true
    else if is_negative y
    then (magnitude x == 0) && (magnitude y == 0)
    else leb (magnitude x) (magnitude y)

-- `x <= y`: false if either is NaN.
abbrev pub f64_le : F64 → F64 → Bool
f64_le x y = not (is_nan x) && (not (is_nan y) && ordered_le x y)

-- `x < y`.
abbrev pub f64_lt : F64 → F64 → Bool
f64_lt x y = not (is_nan x) && (not (is_nan y) && not (ordered_le y x))

-- `f64::min`: the other if one is NaN.
abbrev pub f64_min : F64 → F64 → F64
f64_min x y = if is_nan x then y else if is_nan y || ordered_le x y then x else y

-- `f64::max`.
abbrev pub f64_max : F64 → F64 → F64
f64_max x y = if is_nan x then y else if is_nan y || ordered_le y x then x else y

-- The rounded operations of the hardware, and the conversions of `as`.
pub record Arithmetic : Type 0 where
  pub add : F64 → F64 → F64
  pub sub : F64 → F64 → F64
  pub mul : F64 → F64 → F64
  pub div : F64 → F64 → F64
  pub sqrt : F64 → F64
  pub ln : F64 → F64
  pub of_nat : ℕ → F64
  pub to_nat : F64 → ℕ

-- `f32` is an interface as a whole.
pub record Single : Type 1 where
  pub F32 : Type 0
  pub zero32 : F32
  pub one32 : F32
  pub epsilon32 : F32
  pub of_nat32 : ℕ → F32
  pub of_f64 : F64 → F32
  pub add32 : F32 → F32 → F32
  pub sub32 : F32 → F32 → F32
  pub mul32 : F32 → F32 → F32
  pub div32 : F32 → F32 → F32
  pub sqrt32 : F32 → F32
  pub max32 : F32 → F32 → F32
  pub lt32 : F32 → F32 → Bool
  pub le32 : F32 → F32 → Bool
