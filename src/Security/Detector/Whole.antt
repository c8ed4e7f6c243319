-- ===== src/Security/Detector/Whole.antt =====
-- The matches of the detectors are made of whole characters.
use neu_rust.Prelude.{
  true, refl, inl, inr, arith, ◌≡◌, ◌≤◌, ◌<◌, ◌+◌, ◌-◌, ◌∷◌, [], zero, suc, some, ℕ, Bool,
  get_elem?, length, all, drop, take, and-right, ◌||◌, ◌∙◌, ◌==◌, List, ap, not, All, Option-cases,
  if-cases, and-left, ◌&&◌, leb→le, if-both, none, ltb,
}
use neu_rust.Security.Numbers.{
  is_ssn, ssn_step, grouped_step, is_grouped, is_landline, is_mobile, phone_step, plain_step,
  stands_alone, already_found, detect_card_numbers, detect_korean_ssn, detect_phone_numbers,
}
use neu_rust.Security.Scan.{
  korean_ssn, phone_number, card_number, PiiMatch, digits, is_ascii_digit, PiiType, byte_is,
  matched, scan_text,
}
use neu_rust.Prelude.Text.{Str}
use neu_rust.Prelude.Unicode.{is_char_boundary, is_continuation, Unicode, chars}
use neu_rust.Prelude.Float.{F64}
use mathlib.Core.Path.{subst}
use neu_rust.Security.Emails.{
  email_step, local_start, domain_end, char_is, is_char, has_valid_tld, detect_emails,
}
use neu_rust.Security.Detector.Laws.{email-Within}
use neu_rust.Security.Scan.Laws.{Within, scan_text-All}
use neu_rust.Security.Detector.{find_all}
use neu_rust.Prelude.Unicode.Boundaries.{byte_offset-chars}

-- A text is UTF-8 as far as it matters here: after an ASCII byte a character ends.
abbrev pub EndsAscii : Str → Type 0
EndsAscii text =
    (i b : ℕ) → get_elem? text i ≡ some b → b < 0x80 → is_char_boundary text (i + 1) ≡ true

-- The bounds of a match are those of characters of the text, and one is below the other.
abbrev pub IsPlaced : Str → PiiMatch → Type 0
IsPlaced text m =
    (m.start < m.end)
    × ((m.end ≤ length text)
        × ((is_char_boundary text m.start ≡ true) × (is_char_boundary text m.end ≡ true)))

abbrev IsCut : Str → PiiMatch → Type 0
IsCut text m = (is_char_boundary text m.start ≡ true) × (is_char_boundary text m.end ≡ true)

All-both :
    {A : Type 0} (P Q R : A → Type 0) (xs : List A)
    → ((x : A) → P x → Q x → R x)
    → All P xs
    → All Q xs
    → All R xs
All-both P Q R [] f h k = tt
All-both P Q R (x ∷ xs) f h k = (f x h.0 k.0, All-both P Q R xs f h.1 k.1)

get_elem?-drop : (a k : ℕ) (s : Str) → get_elem? (drop a s) k ≡ get_elem? s (a + k)
get_elem?-drop zero k s = ap (get_elem? s) (omega arith)
get_elem?-drop (suc a) k [] = refl
get_elem?-drop (suc a) k (b ∷ s) =
    get_elem?-drop a k s ∙ ap (get_elem? (b ∷ s)) {x = suc (a + k)} {y = suc a + k} (omega arith)

get_elem?-some : (s : Str) (i : ℕ) → i < length s → (b : ℕ) × (get_elem? s i ≡ some b)
get_elem?-some [] i h = absurd (omega arith)
get_elem?-some (b ∷ s) zero h = (b, refl)
get_elem?-some (b ∷ s) (suc i) h = get_elem?-some s i (omega arith)

-- What all bytes of a slice have, each of them has.
all-get :
    (p : ℕ → Bool) (n k : ℕ) (s : Str) (b : ℕ)
    → all p (take n s) ≡ true
    → k < n
    → get_elem? s k ≡ some b
    → p b ≡ true
all-get p zero k s b h kn e = absurd (omega arith)
all-get p (suc n) k [] b h kn e = absurd (ground arith)
all-get p (suc n) zero (c ∷ s) b h kn e = ground arith
all-get p (suc n) (suc k) (c ∷ s) b h kn e = all-get p n k s b (and-right (p c) _ h) (omega arith) e

digit_starts : (i b : ℕ) → is_ascii_digit b ≡ true → ((i == 0) || not (is_continuation b)) ≡ true
digit_starts i b d = ground arith

digit-lt : (b : ℕ) → is_ascii_digit b ≡ true → b < 0x80
digit-lt b d = ground arith

zero_is_digit : (b : ℕ) → (b == 48) ≡ true → is_ascii_digit b ≡ true
zero_is_digit b h = ground arith

byte_is-At :
    (p : ℕ → Bool) (text : Str) (i : ℕ)
    → byte_is p text i ≡ true
    → (b : ℕ) × ((get_elem? text i ≡ some b) × (p b ≡ true))
byte_is-At p text i h = elim (Option-cases (get_elem? text i)) [
  | inl none_there ↦ absurd (ground (arith, rw (byte_is, none_there) at h))
  | inr (b, here) ↦ (b, (here, rw (byte_is, here) at h))
]

module _ (text : Str) where
  digit_boundary :
      (i b : ℕ)
      → get_elem? text i ≡ some b
      → is_ascii_digit b ≡ true
      → is_char_boundary text i ≡ true
  digit_boundary i b e d = rw (is_char_boundary, e) (digit_starts i b d)

  digits-At :
      (i j k : ℕ)
      → digits text i j ≡ true
      → i ≤ k
      → k < j
      → j ≤ length text
      → (b : ℕ) × ((get_elem? text k ≡ some b) × (is_ascii_digit b ≡ true))
  digits-At i j k h ik kj jl =
      let (b, here) = get_elem?-some text k (omega arith) in
      (
        b,
        (
          here,
          all-get is_ascii_digit (j - i) (k - i) (drop i text) b h (omega arith)
              (get_elem?-drop i (k - i) text ∙ (ap (get_elem? text) (omega arith) ∙ here)),
        ),
      )

  -- A digit at a position.
  abbrev DigitAt : ℕ → Type 0
  DigitAt i = (b : ℕ) × ((get_elem? text i ≡ some b) × (is_ascii_digit b ≡ true))

  zero-DigitAt : (i : ℕ) → byte_is (λ b. b == 48) text i ≡ true → DigitAt i
  zero-DigitAt i h =
      let (b, (here, same)) = byte_is-At (λ b. b == 48) text i h in
      (b, (here, zero_is_digit b same))

  first_digit : (i j : ℕ) → digits text i j ≡ true → i < j → j ≤ length text → DigitAt i
  first_digit i j h ij jl = digits-At i j i h (omega arith) ij jl

  last_digit : (i j : ℕ) → digits text i j ≡ true → i < j → j ≤ length text → DigitAt (j - 1)
  last_digit i j h ij jl = digits-At i j (j - 1) h (omega arith) (omega arith) jl

  module _ (utf8_text : EndsAscii text) where
    -- A match that begins and ends with a digit.
    digits-IsPlaced :
        (kind : PiiType) (confidence : F64) (i j : ℕ)
        → i < j
        → j ≤ length text
        → DigitAt i
        → DigitAt (j - 1)
        → All (IsPlaced text) (matched kind confidence text i j ∷ [])
    digits-IsPlaced kind confidence i j ij jl (b, (first, b_digit)) (c, (last, c_digit)) =
        let behind : j - 1 + 1 ≡ j = omega arith in
        let end = utf8_text (j - 1) c last (digit-lt c c_digit) in
        (
          (
            ij,
            (
              jl,
              (
                digit_boundary i b first b_digit,
                subst (λ k. is_char_boundary text k ≡ true) behind end,
              ),
            ),
          ),
          tt,
        )

    -- What a round adds is made of whole characters.
    abbrev AddsPlaced : List PiiMatch × ℕ → Type 0
    AddsPlaced r = All (IsPlaced text) r.0

    ssn-Placed :
        (found : List PiiMatch) (i : ℕ)
        → i + 14 ≤ length text
        → All (IsPlaced text) (ssn_step text found i).0
    ssn-Placed found i h =
        if-cases (All (IsPlaced text)) (is_ssn text i)
          (λ m.
            let front : digits text i (i + 6) ≡ true = ground arith in
            let back : digits text (i + 7) (i + 14) ≡ true = ground arith in
            digits-IsPlaced korean_ssn 0x3feb333333333333 i (i + 14) (omega arith) h
              (first_digit i (i + 6) front (omega arith) (omega arith))
              (last_digit (i + 7) (i + 14) back (omega arith) h))
          (λ _. tt)

    mobile-Placed :
        (i : ℕ)
        → is_mobile text i ≡ true
        → All (IsPlaced text) (matched phone_number 0x3feccccccccccccd text i (i + 13) ∷ [])
    mobile-Placed i m =
        let inside = leb→le (i + 13) (length text) (and-left _ _ m) in
        let front : byte_is (λ b. b == 48) text i ≡ true = ground arith in
        let back : digits text (i + 9) (i + 13) ≡ true = ground arith in
        digits-IsPlaced phone_number 0x3feccccccccccccd i (i + 13) (omega arith) inside
          (zero-DigitAt i front) (last_digit (i + 9) (i + 13) back (omega arith) inside)

    landline-Placed :
        (i : ℕ)
        → is_landline text i ≡ true
        → All (IsPlaced text) (matched phone_number 0x3fe999999999999a text i (i + 11) ∷ [])
    landline-Placed i m =
        let inside = leb→le (i + 11) (length text) (and-left _ _ m) in
        let front : byte_is (λ b. b == 48) text i ≡ true = ground arith in
        let back : digits text (i + 7) (i + 11) ≡ true = ground arith in
        digits-IsPlaced phone_number 0x3fe999999999999a i (i + 11) (omega arith) inside
          (zero-DigitAt i front) (last_digit (i + 7) (i + 11) back (omega arith) inside)

    phone-Placed :
        (found : List PiiMatch) (i : ℕ) → i + 1 ≤ length text → AddsPlaced (phone_step text found i)
    phone-Placed found i h =
        if-cases AddsPlaced (is_mobile text i) (mobile-Placed i)
          (λ _. if-cases AddsPlaced (is_landline text i) (landline-Placed i) (λ _. tt))

    grouped-Placed_by :
        (separator : ℕ) (confidence : F64) (i : ℕ)
        → i + 19 ≤ length text
        → is_grouped separator text i ≡ true
        → All (IsPlaced text) (matched card_number confidence text i (i + 19) ∷ [])
    grouped-Placed_by separator confidence i h m =
        let back : digits text (i + 15) (i + 19) ≡ true = ground arith in
        digits-IsPlaced card_number confidence i (i + 19) (omega arith) h
          (first_digit i (i + 4) (and-left _ _ m) (omega arith) (omega arith))
          (last_digit (i + 15) (i + 19) back (omega arith) h)

    grouped-Placed :
        (found : List PiiMatch) (i : ℕ)
        → i + 19 ≤ length text
        → AddsPlaced (grouped_step text found i)
    grouped-Placed found i h =
        if-cases AddsPlaced (is_grouped 45 text i) (grouped-Placed_by 45 0x3feccccccccccccd i h)
          (λ _.
            if-cases AddsPlaced (is_grouped 32 text i && stands_alone text i (i + 19))
              (λ m. grouped-Placed_by 32 0x3feb333333333333 i h (and-left _ _ m)) (λ _. tt))

    plain-Placed :
        (found : List PiiMatch) (i : ℕ)
        → i + 16 ≤ length text
        → AddsPlaced (plain_step text found i)
    plain-Placed found i h =
        if-cases AddsPlaced (digits text i (i + 16) && stands_alone text i (i + 16))
          (λ m. if-both (All (IsPlaced text)) (already_found found i) tt (
            digits-IsPlaced card_number 0x3fe8000000000000 i (i + 16) (omega arith) h
              (first_digit i (i + 16) (and-left _ _ m) (omega arith) h)
              (last_digit i (i + 16) (and-left _ _ m) (omega arith) h)))
          (λ _. tt)

    -- The bounds of an address are the beginnings of characters.
    email-Placed :
        (u : Unicode) (found : List PiiMatch) (i : ℕ)
        → i + 1 ≤ length (chars text)
        → AddsPlaced (email_step u text (chars text) found i)
    email-Placed u found i h =
        let cs = chars text in
        let first = local_start u cs i in
        let (end, last_dot) = domain_end u (drop (i + 1) cs) (i + 1) none in
        All-both (Within text) (IsCut text) (IsPlaced text) (email_step u text cs found i).0
          (λ m (a, (b, _)) (c, d). (a, (b, (c, d)))) (email-Within text u found i h)
          (if-both {A = List PiiMatch × ℕ} (λ r. All (IsCut text) r.0)
            ((char_is u (is_char 64) cs i && ltb 0 i)
              && (ltb first i && (ltb (i + 1) end && has_valid_tld u cs last_dot end)))
            ((byte_offset-chars text first, byte_offset-chars text end), tt) tt)

    numbers-Placed :
        (found : List PiiMatch)
        → All (IsPlaced text) found
        → All (IsPlaced text) (detect_card_numbers text found)
    unfolding detect_card_numbers
    numbers-Placed found h =
        let len = length text in
        scan_text-All (plain_step text) 16 len (IsPlaced text) plain-Placed (suc len) 0
          (scan_text (suc len) (grouped_step text) 19 len 0 found)
          (scan_text-All (grouped_step text) 19 len (IsPlaced text) grouped-Placed (suc len) 0 found
            h)

    -- The matches of the detectors have the bounds of characters.
    pub find_all-IsPlaced : (u : Unicode) → All (IsPlaced text) (find_all u text)
    unfolding find_all detect_korean_ssn detect_phone_numbers detect_emails
    find_all-IsPlaced u =
        let len = length text in
        let count = length (chars text) in
        let ssn = detect_korean_ssn text [] in
        let phones = detect_phone_numbers text ssn in
        numbers-Placed (detect_emails u text phones) (
          scan_text-All (email_step u text (chars text)) 1 count (IsPlaced text) (email-Placed u)
            (suc count) 0 phones
            (scan_text-All (phone_step text) 1 len (IsPlaced text) phone-Placed (suc len) 0 ssn
              (scan_text-All (ssn_step text) 14 len (IsPlaced text) ssn-Placed (suc len) 0 [] tt)))
