-- ===== src/Security/Detector.antt =====
-- The detector of personal data, `PiiDetector` of security/pii_detector.rs: the detectors one after
-- the other, then the context of each match.
pub mod Laws
pub mod Shapes
pub mod Whole
use neu_rust.Prelude.{
  ◌+◌, ◌-◌, ◌∷◌, [], none, some, List, ℕ, Option, any, min, length, if◌then◌else◌,
}
use mathlib.Core.Option
use neu_rust.Prelude.Float.{Arithmetic, F64, f64_min}
use neu_rust.Prelude.Text.{Str, utf8, contains}
use neu_rust.Security.Numbers.{detect_korean_ssn, detect_phone_numbers, detect_card_numbers}
use neu_rust.Prelude.Unicode.{Unicode, str_slice}
use neu_rust.Security.Scan.{PiiMatch}
use neu_rust.Security.Emails.{detect_emails}

abbrev pub context_keywords : List Str
context_keywords =
    utf8 "주민번호"
    ∷ utf8 "주민등록번호"
    ∷ utf8 "전화번호"
    ∷ utf8 "핸드폰"
    ∷ utf8 "휴대폰"
    ∷ utf8 "이메일"
    ∷ utf8 "카드번호"
    ∷ utf8 "신용카드"
    ∷ utf8 "계좌번호"
    ∷ []

unfoldable pub find_all : Unicode → Str → List PiiMatch
unfolding detect_korean_ssn detect_phone_numbers detect_emails detect_card_numbers
find_all u text =
    detect_card_numbers text
      (detect_emails u text (detect_phone_numbers text (detect_korean_ssn text [])))

module _ (f : Arithmetic) where
  abbrev pub boost : Str → PiiMatch → PiiMatch
  boost window m =
      if any (contains window) context_keywords
      then record m {
        confidence = f64_min (f.add m.confidence 0x3fb999999999999a) 0x3ff0000000000000;
      }
      else m

  -- The bytes around a match; `none` if the window cuts a character, where the code panics.
  abbrev pub window_of : Str → PiiMatch → Option Str
  window_of text m = str_slice text (m.start - 50) (min (m.end + 50) (length text))

  unfoldable pub validate_context : Str → List PiiMatch → Option (List PiiMatch)
  validate_context text [] = some []
  validate_context text (m ∷ ms) = elim (window_of text m) [
    | none ↦ none
    | some window ↦ Option.map (λ rest. boost window m ∷ rest) (validate_context text ms)
  ]

  unfoldable pub detect : Unicode → Str → Option (List PiiMatch)
  unfolding validate_context find_all
  detect u text = validate_context text (find_all u text)

-- `max_pattern_length_tokens`.
abbrev pub max_pattern_length_tokens : ℕ
max_pattern_length_tokens = 7
