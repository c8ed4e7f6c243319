-- ===== src/Security/Numbers.antt =====
-- The detectors of numbers in security/pii_detector.rs: resident registration numbers, telephone
-- numbers and numbers of cards.
use neu_rust.Prelude.{
  ◌+◌, ◌-◌, ◌∷◌, ◌&&◌, ◌||◌, [], suc, List, ℕ, Bool, any, length, not, leb, ltb, ◌==◌,
  if◌then◌else◌,
}
use neu_rust.Prelude.Text.{Str}
use neu_rust.Security.Scan.{
  scan_text, PiiMatch, Step, digits, matched, byte_is, card_number, korean_ssn, phone_number,
  is_ascii_digit,
}

abbrev pub is_ssn : Str → ℕ → Bool
is_ssn text i =
    ltb (i + 13) (length text)
    && (digits text i (i + 6)
        && (byte_is (λ b. b == 45) text (i + 6)
            && (digits text (i + 7) (i + 14) && byte_is (λ b. leb 49 b && leb b 52) text (i + 7))))

abbrev pub ssn_step : Str → Step
ssn_step text found i = (
  if is_ssn text i then matched korean_ssn 0x3feb333333333333 text i (i + 14) ∷ [] else [],
  i + 1,
)

unfoldable pub detect_korean_ssn : Str → List PiiMatch → List PiiMatch
unfolding scan_text
detect_korean_ssn text found =
    scan_text (suc (length text)) (ssn_step text) 14 (length text) 0 found

abbrev pub is_mobile : Str → ℕ → Bool
is_mobile text i =
    leb (i + 13) (length text)
    && (byte_is (λ b. b == 48) text i
        && (byte_is (λ b. b == 49) text (i + 1)
            && (byte_is (λ b. b == 48) text (i + 2)
                && (byte_is (λ b. b == 45) text (i + 3)
                    && (digits text (i + 4) (i + 8)
                        && (byte_is (λ b. b == 45) text (i + 8)
                            && digits text (i + 9) (i + 13)))))))

abbrev pub is_landline : Str → ℕ → Bool
is_landline text i =
    leb (i + 11) (length text)
    && (byte_is (λ b. b == 48) text i
        && (byte_is is_ascii_digit text (i + 1)
            && (byte_is (λ b. b == 45) text (i + 2)
                && (digits text (i + 3) (i + 6)
                    && (byte_is (λ b. b == 45) text (i + 6) && digits text (i + 7) (i + 11))))))

abbrev pub phone_step : Str → Step
phone_step text found i =
    if is_mobile text i
    then (matched phone_number 0x3feccccccccccccd text i (i + 13) ∷ [], i + 13)
    else if is_landline text i
    then (matched phone_number 0x3fe999999999999a text i (i + 11) ∷ [], i + 11)
    else ([], i + 1)

unfoldable pub detect_phone_numbers : Str → List PiiMatch → List PiiMatch
unfolding scan_text
detect_phone_numbers text found =
    scan_text (suc (length text)) (phone_step text) 1 (length text) 0 found

-- Four groups of four digits, with a byte between them.
abbrev pub is_grouped : ℕ → Str → ℕ → Bool
is_grouped separator text i =
    digits text i (i + 4)
    && (byte_is (λ b. b == separator) text (i + 4)
        && (digits text (i + 5) (i + 9)
            && (byte_is (λ b. b == separator) text (i + 9)
                && (digits text (i + 10) (i + 14)
                    && (byte_is (λ b. b == separator) text (i + 14)
                        && digits text (i + 15) (i + 19))))))

-- No digit stands right before `i` or at `j`.
abbrev pub stands_alone : Str → ℕ → ℕ → Bool
stands_alone text i j =
    ((i == 0) || not (byte_is is_ascii_digit text (i - 1)))
    && (leb (length text) j || not (byte_is is_ascii_digit text j))

abbrev pub grouped_step : Str → Step
grouped_step text found i =
    if is_grouped 45 text i
    then (matched card_number 0x3feccccccccccccd text i (i + 19) ∷ [], i + 19)
    else if is_grouped 32 text i && stands_alone text i (i + 19)
    then (matched card_number 0x3feb333333333333 text i (i + 19) ∷ [], i + 19)
    else ([], i + 1)

abbrev pub already_found : List PiiMatch → ℕ → Bool
already_found found j = any (λ m. leb m.start j && leb (j + 16) m.end) found

abbrev pub plain_step : Str → Step
plain_step text found j =
    if digits text j (j + 16) && stands_alone text j (j + 16)
    then (
      if already_found found j
          then []
          else matched card_number 0x3fe8000000000000 text j (j + 16) ∷ [],
      j + 16,
    )
    else ([], j + 1)

unfoldable pub detect_card_numbers : Str → List PiiMatch → List PiiMatch
unfolding scan_text
detect_card_numbers text found =
    scan_text (suc (length text)) (plain_step text) 16 (length text) 0
      (scan_text (suc (length text)) (grouped_step text) 19 (length text) 0 found)
