-- ===== src/Prelude/Keys.antt =====
-- Equality of keys as an interface: Rust's `Eq`, by a Boolean test and its meaning.
use Prim.Native.Nat.{ℕ}
use mathlib.Core.Path.{◌≡◌, refl}
use mathlib.Core.Logic.{◌↔◌}
use mathlib.Core.Bool.{Bool, true}
use neu_rust.Prelude.Tests.{◌==◌, ==_iff}
use neu_rust.Prelude.Text.{Str, str_eq, str_eq_iff}

pub record Eq {ℓ} (A : Type ℓ) : Type ℓ where
  pub beq : A → A → Bool
  pub beq_iff : (a b : A) → (beq a b ≡ true) ↔ (a ≡ b)

instance abbrev pub nat_eq : Eq ℕ
nat_eq = record { beq = ◌==◌; beq_iff = ==_iff }

instance abbrev pub text_eq : Eq Str
text_eq = record { beq = str_eq; beq_iff = str_eq_iff }

pub beq_self {ℓ} : {A : Type ℓ} ⦃e : Eq A⦄ (a : A) → e.beq a a ≡ true
beq_self ⦃e⦄ a = (e.beq_iff a a).1 refl
