-- ===== src/Prelude/Unicode.antt =====
-- A `String` seen as its characters, each given by its UTF-8 bytes, and what Rust's tables of
-- Unicode say of them, which is an interface.
pub mod Boundaries
use Prim.Native.Nat.{ℕ, zero, suc, ◌-◌, ◌<◌, ◌≤◌}
use native.Mathlib.Omega.{arith}
use mathlib.Core.Path.{◌≡◌, refl, ap, ◌∙◌}
use mathlib.Core.Bool.{Bool, true, false, not, ◌&&◌, ◌||◌}
use mathlib.Core.Option.{Option, none, some}
use mathlib.Core.List.{List, [], ◌∷◌, ◌++◌, reverse}
use neu_rust.Prelude.Tests.{leb, ltb, ◌==◌, if◌then◌else◌}
use neu_rust.Prelude.Lists.{length, take, drop, get_elem?, All}
use neu_rust.Prelude.Text.{Str, concat}
use neu_rust.Prelude.{length-append}

-- The tables of Unicode: `to_lowercase` of a text, `is_alphanumeric` and `is_whitespace` of a
-- character.
pub record Unicode : Type 0 where
  pub to_lowercase : Str → Str
  pub is_alphanumeric : Str → Bool
  pub is_whitespace : Str → Bool

abbrev pub is_continuation : ℕ → Bool
is_continuation c = leb 0x80 c && ltb c 0xc0

-- `is_char_boundary`.
abbrev pub is_char_boundary : Str → ℕ → Bool
is_char_boundary s i = elim (get_elem? s i) [
  | none ↦ i == length s
  | some c ↦ (i == 0) || not (is_continuation c)
]

-- The bytes from one index up to another.
abbrev pub slice : Str → ℕ → ℕ → Str
slice s i j = take (j - i) (drop i s)

-- `&s[i..j]`, which panics (`none`) if the range is not one of whole characters.
abbrev pub str_slice : Str → ℕ → ℕ → Option Str
str_slice s i j =
    if leb i j && (leb j (length s) && (is_char_boundary s i && is_char_boundary s j))
    then some (slice s i j)
    else none

abbrev starts_inside : Str → Bool
starts_inside [] = false
starts_inside (b ∷ s) = is_continuation b

abbrev attach : ℕ → Bool → List Str → List Str
attach b true (c ∷ cs) = (b ∷ c) ∷ cs
attach b true [] = (b ∷ []) ∷ []
attach b false cs = (b ∷ []) ∷ cs

-- `chars`.
unfoldable pub chars : Str → List Str
chars [] = []
chars (b ∷ s) = attach b (starts_inside s) (chars s)

-- The byte at which the character with a number starts: `char_indices().nth(n)`, or the length.
abbrev pub byte_offset : List Str → ℕ → ℕ
byte_offset cs n = length (concat (take n cs))

concat-attach :
    (b : ℕ) (inside : Bool) (cs : List Str) → concat (attach b inside cs) ≡ b ∷ concat cs
concat-attach b true (c ∷ cs) = refl
concat-attach b true [] = refl
concat-attach b false cs = refl

-- The characters together are the text.
pub concat-chars : (s : Str) → concat (chars s) ≡ s
unfolding chars
concat-chars [] = refl
concat-chars (b ∷ s) =
    concat-attach b (starts_inside s) (chars s) ∙ ap (λ r. b ∷ r) (concat-chars s)

abbrev pub IsNonEmpty : Str → Type 0
IsNonEmpty c = 0 < length c

attach-All :
    (b : ℕ) (inside : Bool) (cs : List Str)
    → All IsNonEmpty cs
    → All IsNonEmpty (attach b inside cs)
attach-All b true (c ∷ cs) h = (omega arith, h.1)
attach-All b true [] h = (omega arith, tt)
attach-All b false cs h = (omega arith, h)

pub chars-All : (s : Str) → All IsNonEmpty (chars s)
unfolding chars
chars-All [] = tt
chars-All (b ∷ s) = attach-All b (starts_inside s) (chars s) (chars-All s)

-- A character starts no later than one after it, and before it if there is one between.
pub byte_offset-lt :
    (cs : List Str) (n k : ℕ)
    → All IsNonEmpty cs
    → n < k
    → k ≤ length cs
    → byte_offset cs n < byte_offset cs k
byte_offset-lt cs n zero h nk kl = absurd (omega arith)
byte_offset-lt [] n (suc k) h nk kl = absurd (omega arith)
byte_offset-lt (c ∷ cs) zero (suc k) h nk kl =
    let filled = h.0 in omega (arith, length-append c (concat (take k cs)))
byte_offset-lt (c ∷ cs) (suc n) (suc k) h nk kl = omega (
  arith,
  byte_offset-lt cs n k h.1 (omega arith) (omega arith),
  length-append c (concat (take n cs)),
  length-append c (concat (take k cs)),
)

pub byte_offset-le : (cs : List Str) (n : ℕ) → byte_offset cs n ≤ length (concat cs)
byte_offset-le cs zero = omega arith
byte_offset-le [] (suc n) = omega arith
byte_offset-le (c ∷ cs) (suc n) =
    omega (
      arith,
      byte_offset-le cs n,
      length-append c (concat (take n cs)),
      length-append c (concat cs),
    )

-- `split_whitespace`: the pieces between blanks that are not empty.
abbrev pub words_of : Unicode → Str → List Str → List Str
words_of u [] [] = []
words_of u (b ∷ word) [] = (b ∷ word) ∷ []
words_of u [] (c ∷ cs) = if u.is_whitespace c then words_of u [] cs else words_of u c cs
words_of u (b ∷ word) (c ∷ cs) =
    if u.is_whitespace c then (b ∷ word) ∷ words_of u [] cs else words_of u (b ∷ (word ++ c)) cs

abbrev pub split_whitespace : Unicode → Str → List Str
split_whitespace u s = words_of u [] (chars s)

abbrev pub skip_blanks : Unicode → List Str → List Str
skip_blanks u [] = []
skip_blanks u (c ∷ cs) = if u.is_whitespace c then skip_blanks u cs else c ∷ cs

-- `trim`, on characters.
abbrev pub trim_chars : Unicode → List Str → List Str
trim_chars u cs = reverse (skip_blanks u (reverse (skip_blanks u cs)))
