-- ===== src/Prelude/Unicode/Boundaries.antt =====
-- The characters of a text begin at the boundaries of characters.
use Prim.Native.Nat.{ℕ, zero, suc, ◌+◌, ◌≤◌}
use mathlib.Core.Path.{◌≡◌, refl, ap, ◌∙◌, subst}
use mathlib.Core.Bool.{Bool, true, false, not, ◌||◌}
use mathlib.Core.Option.{Option, none, some}
use mathlib.Core.List.{List, [], ◌∷◌, ◌++◌}
use native.Mathlib.Omega.{arith}
use neu_rust.Prelude.Lists.{length, take, get_elem?, All, length-append}
use neu_rust.Prelude.Text.{Str, concat}
use neu_rust.Prelude.Unicode.{
  chars, attach, starts_inside, is_continuation, byte_offset, is_char_boundary, concat-chars,
  byte_offset-le,
}
use neu_rust.Prelude.{◌==◌, Option-cases, inl, ==_iff, inr}

-- The first byte of a character is no continuation of one.
abbrev StartsWell : Str → Type 0
StartsWell c = (b : ℕ) × ((r : Str) × ((c ≡ b ∷ r) × (is_continuation b ≡ false)))

abbrev TailsWell : List Str → Type 0
TailsWell [] = Unit
TailsWell (c ∷ cs) = All StartsWell cs

attach-head :
    (b : ℕ) (inside : Bool) (cs : List Str)
    → (r : Str) × ((t : List Str) × (attach b inside cs ≡ (b ∷ r) ∷ t))
attach-head b true [] = ([], ([], refl))
attach-head b true (c ∷ cs) = (c, (cs, refl))
attach-head b false cs = ([], (cs, refl))

All-of_TailsWell :
    (b : ℕ) (r : Str) (t cs : List Str)
    → cs ≡ (b ∷ r) ∷ t
    → is_continuation b ≡ false
    → TailsWell cs
    → All StartsWell cs
All-of_TailsWell b r t [] same h w = tt
All-of_TailsWell b r t (c ∷ cs) same h w = ((b, (r, (cc same, h))), w)

attach-TailsWell :
    (b : ℕ) (inside : Bool) (cs : List Str)
    → (inside ≡ false → All StartsWell cs)
    → TailsWell cs
    → TailsWell (attach b inside cs)
attach-TailsWell b true [] h w = tt
attach-TailsWell b true (c ∷ cs) h w = w
attach-TailsWell b false cs h w = h refl

chars-TailsWell : (s : Str) → TailsWell (chars s)
unfolding chars
chars-TailsWell [] = tt
chars-TailsWell (b ∷ []) = tt
chars-TailsWell (b ∷ (c ∷ s)) =
    let (r, (t, same)) = attach-head c (starts_inside s) (chars s) in
    let rest = chars-TailsWell (c ∷ s) in
    attach-TailsWell b (is_continuation c) (chars (c ∷ s))
      (λ apart. All-of_TailsWell c r t (chars (c ∷ s)) same apart rest) rest

get_elem?-append : (s t : Str) (k : ℕ) → get_elem? (s ++ t) (length s + k) ≡ get_elem? t k
get_elem?-append [] t k = ap (get_elem? t) {x = 0 + k} {y = k} (omega arith)
get_elem?-append (b ∷ s) t k =
    ap (get_elem? (b ∷ (s ++ t))) {x = suc (length s) + k} {y = suc (length s + k)} (omega arith)
    ∙ get_elem?-append s t k

-- What stands at an index is not a continuation, if anything does.
abbrev StandsWell : Option ℕ → Type 0
StandsWell none = Unit
StandsWell (some b) = is_continuation b ≡ false

StandsWell-offset :
    (cs : List Str) (n : ℕ)
    → All StartsWell cs
    → StandsWell (get_elem? (concat cs) (byte_offset cs n))
StandsWell-offset [] zero h = tt
StandsWell-offset [] (suc n) h = tt
StandsWell-offset (c ∷ cs) zero h = let ((b, (r, (same, well))), rest) = h in rw (same) well
StandsWell-offset (c ∷ cs) (suc n) h =
    rw (length-append c (concat (take n cs)), get_elem?-append c (concat cs) (byte_offset cs n))
      (StandsWell-offset cs n h.1)

pub end_of_none : (s : Str) (i : ℕ) → get_elem? s i ≡ none → i ≤ length s → i ≡ length s
end_of_none [] i e h = omega arith
end_of_none (b ∷ s) zero e h = absurd (cc e)
end_of_none (b ∷ s) (suc i) e h = ap suc (end_of_none s i e (omega arith))

not_continuation :
    (i b : ℕ) → is_continuation b ≡ false → ((i == 0) || not (is_continuation b)) ≡ true
not_continuation i b h = ground arith

boundary_of-StandsWell :
    (s : Str) (i : ℕ) → i ≤ length s → StandsWell (get_elem? s i) → is_char_boundary s i ≡ true
boundary_of-StandsWell s i h w = elim (Option-cases (get_elem? s i)) [
  | inl nothing ↦
      rw (is_char_boundary, nothing) ((==_iff i (length s)).1 (end_of_none s i nothing h))
  | inr (b, here) ↦ rw (is_char_boundary, here) (not_continuation i b (rw here at w))
]

pub boundary-start : (s : Str) → is_char_boundary s 0 ≡ true
boundary-start [] = refl
boundary-start (b ∷ s) = refl

offset_boundary :
    (s : Str) (cs : List Str)
    → concat cs ≡ s
    → TailsWell cs
    → (n : ℕ) → is_char_boundary s (byte_offset cs n) ≡ true
offset_boundary s cs same w zero = boundary-start s
offset_boundary s [] same w (suc n) = boundary-start s
offset_boundary s (c ∷ cs) same w (suc n) =
    let off = byte_offset (c ∷ cs) (suc n) in
    let stands : StandsWell (get_elem? (concat (c ∷ cs)) off) =
      rw (length-append c (concat (take n cs)), get_elem?-append c (concat cs) (byte_offset cs n))
        (StandsWell-offset cs n w) in
    subst (λ t. is_char_boundary t off ≡ true) same
      (boundary_of-StandsWell (concat (c ∷ cs)) off (byte_offset-le (c ∷ cs) (suc n)) stands)

-- A character of a text begins, and the one before ends, at a boundary.
pub byte_offset-chars : (s : Str) (n : ℕ) → is_char_boundary s (byte_offset (chars s) n) ≡ true
byte_offset-chars s n = offset_boundary s (chars s) (concat-chars s) (chars-TailsWell s) n
