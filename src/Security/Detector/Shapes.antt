-- ===== src/Security/Detector/Shapes.antt =====
-- The shape of a resident number, byte by byte and apart from the code that looks for it.
use neu_rust.Prelude.{
  ◌≡◌, ◌≤◌, ◌<◌, ◌+◌, ◌-◌, ◌∷◌, ◌&&◌, [], some, true, zero, suc, refl, arith, ℕ, Bool, all, length,
  drop, take, get_elem?, Option-cases, inl, inr, leb, ltb, ltb→lt, lt→ltb, ◌==◌, ◌∙◌, and-left, ap,
  le→leb, sym, and-right, length-drop,
}
use neu_rust.Prelude.Text.{Str}
use neu_rust.Security.Scan.{digits, is_ascii_digit, byte_is}
use neu_rust.Security.Numbers.{is_ssn}

-- At a place of the text there is a byte with a property.
abbrev pub StandsAt : (ℕ → Type 0) → Str → ℕ → Type 0
StandsAt P text i = (b : ℕ) × (get_elem? text i ≡ some b) × P b

-- A byte from "0" to "9".
abbrev pub IsDigit : ℕ → Type 0
IsDigit b = (48 ≤ b) × (b ≤ 57)

-- Six digits, a dash, and seven digits of which the first is 1 to 4.
pub record IsSsn (text : Str) (i : ℕ) : Type 0 where
  pub birth : (k : ℕ) → k < 6 → StandsAt IsDigit text (i + k)
  pub dash : get_elem? text (i + 6) ≡ some 45
  pub sex : StandsAt (λ b. (49 ≤ b) × (b ≤ 52)) text (i + 7)
  pub serial : (k : ℕ) → k < 7 → StandsAt IsDigit text (i + 7 + k)

get_elem?-drop : (i k : ℕ) (s : Str) → get_elem? (drop i s) k ≡ get_elem? s (i + k)
get_elem?-drop zero k s = ap (get_elem? s) (omega arith)
get_elem?-drop (suc i) k [] = refl
get_elem?-drop (suc i) k (b ∷ s) =
    let one_more : suc (i + k) ≡ suc i + k = omega arith in
    get_elem?-drop i k s ∙ ap (get_elem? (b ∷ s)) one_more

get_elem?-lt : (s : Str) (i b : ℕ) → get_elem? s i ≡ some b → i < length s
get_elem?-lt [] i b h = absurd (ground arith)
get_elem?-lt (x ∷ s) zero b h = omega arith
get_elem?-lt (x ∷ s) (suc i) b h = omega (arith, get_elem?-lt s i b h)

take_of_all :
    (n : ℕ) (s : Str)
    → all is_ascii_digit (take n s) ≡ true
    → n ≤ length s
    → (k : ℕ) → k < n
    → StandsAt IsDigit s k
take_of_all zero s h fits k low = absurd (omega arith)
take_of_all (suc n) [] h fits k low = absurd (omega arith)
take_of_all (suc n) (b ∷ s) h fits zero low = (b, refl, (ground arith, ground arith))
take_of_all (suc n) (b ∷ s) h fits (suc k) low =
    take_of_all n s (ground arith) (omega arith) k (omega arith)

all_of_take :
    (n : ℕ) (s : Str)
    → ((k : ℕ) → k < n → StandsAt IsDigit s k)
    → all is_ascii_digit (take n s) ≡ true
all_of_take zero s h = refl
all_of_take (suc n) [] h = let (b, missing, rest) = h 0 (omega arith) in absurd (ground arith)
all_of_take (suc n) (b ∷ s) h =
    let (c, here, (low, high)) = h 0 (omega arith) in
    let rest = all_of_take n s (λ k fits. h (suc k) (omega arith)) in
    ground (arith, here, low, high, rest)

-- The code's test on a range is the property of each of its bytes.
digits_range :
    (text : Str) (i n j : ℕ)
    → i + n ≡ j
    → digits text i j ≡ all is_ascii_digit (take n (drop i text))
digits_range text i n j e =
    let count : j - i ≡ n = omega arith in ap (λ m. all is_ascii_digit (take m (drop i text))) count

digits-StandsAt :
    (text : Str) (i n j : ℕ)
    → i + n ≡ j
    → j ≤ length text
    → digits text i j ≡ true
    → (k : ℕ) → k < n
    → StandsAt IsDigit text (i + k)
digits-StandsAt text i n j e inside h k low =
    let (b, here, shape) =
      take_of_all n (drop i text) (sym (digits_range text i n j e) ∙ h)
        (omega (arith, length-drop i text)) k low in
    (b, sym (get_elem?-drop i k text) ∙ here, shape)

digits_of_StandsAt :
    (text : Str) (i n j : ℕ)
    → i + n ≡ j
    → ((k : ℕ) → k < n → StandsAt IsDigit text (i + k))
    → digits text i j ≡ true
digits_of_StandsAt text i n j e h =
    digits_range text i n j e
    ∙ all_of_take n (drop i text)
        (λ k low. let (b, here, shape) = h k low in (b, get_elem?-drop i k text ∙ here, shape))

byte_is-StandsAt :
    (p : ℕ → Bool) (text : Str) (i : ℕ)
    → byte_is p text i ≡ true
    → (b : ℕ) × (get_elem? text i ≡ some b) × (p b ≡ true)
byte_is-StandsAt p text i h = elim (Option-cases (get_elem? text i)) [
  | inl missing ↦ absurd (ground arith)
  | inr (b, here) ↦ (b, here, rw (here, byte_is) at h)
]

-- The test of the code is that shape.
pub is_ssn-IsSsn : (text : Str) (i : ℕ) → is_ssn text i ≡ true → IsSsn text i
is_ssn-IsSsn text i h =
    let inside : i + 13 < length text = ltb→lt _ _ (and-left _ _ h) in
    let h1 = and-right (ltb (i + 13) (length text)) _ h in
    let birth = and-left (digits text i (i + 6)) _ h1 in
    let h2 = and-right (digits text i (i + 6)) _ h1 in
    let (d, dash, is_dash) = byte_is-StandsAt (λ b. b == 45) text (i + 6) (and-left _ _ h2) in
    let h3 = and-right (byte_is (λ b. b == 45) text (i + 6)) _ h2 in
    let (g, sex, range) =
      byte_is-StandsAt (λ b. leb 49 b && leb b 52) text (i + 7)
        (and-right (digits text (i + 7) (i + 14)) _ h3) in
    record {
      birth = digits-StandsAt text i 6 (i + 6) refl (omega (arith, inside)) birth;
      dash = rw dash (ap some (ground arith));
      sex = (g, sex, (ground arith, ground arith));
      serial =
          digits-StandsAt text (i + 7) 7 (i + 14) (omega arith) (omega (arith, inside))
            (and-left _ _ h3);
    }

pub is_ssn_of_IsSsn : (text : Str) (i : ℕ) → IsSsn text i → is_ssn text i ≡ true
is_ssn_of_IsSsn text i v =
    let (last, here, shape) = v.serial 6 (omega arith) in
    let inside : i + 13 < length text = omega (arith, get_elem?-lt text (i + 7 + 6) last here) in
    let (g, sex, (low, high)) = v.sex in
    let birth = digits_of_StandsAt text i 6 (i + 6) refl v.birth in
    let serial = digits_of_StandsAt text (i + 7) 7 (i + 14) (omega arith) v.serial in
    rw
      (
        lt→ltb (i + 13) (length text) inside,
        birth,
        byte_is,
        v.dash,
        serial,
        sex,
        le→leb 49 g low,
        le→leb g 52 high,
      )
      refl
