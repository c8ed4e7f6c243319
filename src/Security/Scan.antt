-- ===== src/Security/Scan.antt =====
-- What the detectors of security/pii_detector.rs share: matches, tests on bytes, and the loop that
-- goes through a text. A text is its bytes; a slice that ends next to an ASCII byte is one of whole
-- characters, so only the window of the context can panic.
pub mod Laws
use neu_rust.Prelude.{◌+◌, ◌++◌, ◌&&◌, zero, suc, none, some, List, ℕ, Bool, all, get_elem?, leb}
use mathlib.Core.Bool.{true, false}
use neu_rust.Prelude.Text.{Str, utf8}
use neu_rust.Prelude.Float.{F64}
use neu_rust.Prelude.Unicode.{slice}

pub data PiiType : Type 0 where
  korean_ssn phone_number email card_number : PiiType

-- `Display`.
abbrev pub pii_type_text : PiiType → Str
pii_type_text korean_ssn = utf8 "korean_ssn"
pii_type_text phone_number = utf8 "phone_number"
pii_type_text email = utf8 "email"
pii_type_text card_number = utf8 "card_number"

pub record PiiMatch : Type 0 where
  pub pii_type : PiiType
  pub start : ℕ
  pub end : ℕ
  pub matched_text : Str
  pub confidence : F64

abbrev pub is_ascii_digit : ℕ → Bool
is_ascii_digit b = leb 48 b && leb b 57

-- `bytes[i..j].iter().all(is_ascii_digit)`.
abbrev pub digits : Str → ℕ → ℕ → Bool
digits text i j = all is_ascii_digit (slice text i j)

-- A test of `bytes[i]`.
abbrev pub byte_is : (ℕ → Bool) → Str → ℕ → Bool
byte_is p text i = elim (get_elem? text i) [ none ↦ false | some b ↦ p b ]

abbrev pub matched : PiiType → F64 → Str → ℕ → ℕ → PiiMatch
matched kind confidence text i j = record {
  pii_type = kind;
  start = i;
  end = j;
  matched_text = slice text i j;
  confidence = confidence;
}

-- One round of a loop: what it adds at a position, and the next position.
abbrev pub Step : Type 0
Step = List PiiMatch → ℕ → List PiiMatch × ℕ

-- `while i + width <= len`, with the matches found so far.
unfoldable pub scan_text : ℕ → Step → (width len i : ℕ) → List PiiMatch → List PiiMatch
scan_text zero step width len i found = found
scan_text (suc fuel) step width len i found = elim (leb (i + width) len) [
  | true ↦ let (new, next) = step found i in scan_text fuel step width len next (found ++ new)
  | false ↦ found
]
