-- ===== src/Prelude/Decimal.antt =====
-- Numbers as `format!` writes them.
use Prim.Native.Nat.{ℕ, zero, suc, ◌+◌, ◌/◌, ◌%◌}
use mathlib.Core.List.{[], ◌∷◌}
use neu_rust.Prelude.Tests.{ltb, if◌then◌else◌}
use neu_rust.Prelude.Text.{Str}

-- The digits of a number in front of a text, by the digits left: 20 are enough for 64 bits.
unfoldable pub digits_from : ℕ → ℕ → Str → Str
digits_from zero n rest = rest
digits_from (suc left) n rest =
    let more = digits_from left (n / 10) ((48 + n % 10) ∷ rest) in
    if ltb n 10 then (48 + n % 10) ∷ rest else more

abbrev pub show_u64 : ℕ → Str
show_u64 n = digits_from 20 n []
