-- ===== src/Tests/Security.antt =====
-- The security layers at concrete inputs.
use neu_rust.Prelude.{
  map, max, ◌*◌, true, false, refl, if◌then◌else◌, ◌==◌, leb, ltb, arith, ◌≡◌, ◌+◌, ◌-◌, ◌∷◌, ◌++◌,
  ◌&&◌, ◌||◌, ◌↔◌, ◌⊎◌, [], zero, suc, none, some, All, In, List, ℕ, ==_iff, Bool, lt→ltb, ◌<◌, inl,
  inr, get_elem?, not, Option-cases, length,
}
use neu_rust.Security.Guard.{
  scan, clean, leak, PromptGuardOptions, validate_output, default_options,
}
use neu_rust.Prelude.Sort.{sort_by}
use neu_rust.Tests.Data.{question, hello}
use neu_rust.Prelude.Text.{Str, str_eq, utf8}
use neu_rust.Prelude.Unicode.{Unicode, chars, split_whitespace, is_continuation, is_char_boundary}
use neu_rust.Security.Detector.{detect, find_all}
use neu_rust.Prelude.Float.{Arithmetic, Single}
use neu_rust.Security.Masker.{apply_masks, mask_text}
use neu_rust.Contracts.{UnifiedRequest, UnifiedResponse, system_message_text, system}
use neu_rust.Security.Guard.Overlap.{DividesItself, validate_output-quotation}
use neu_rust.Security.Numbers.{detect_korean_ssn, detect_phone_numbers, detect_card_numbers}
use neu_rust.Security.Scan.Laws.{Within}
use neu_rust.Security.Detector.Shapes.{IsSsn}
use neu_rust.Security.Detector.Laws.{ssn_at, find_all-Within, detect_korean_ssn-In_iff}
use neu_rust.Security.Scan.{PiiMatch, matched, phone_number, email}
use neu_rust.Security.Masker.Laws.{Masks, Covers}
use neu_rust.Security.Guard.Laws.{IsInnocent, SystemsFirst, scan-eq-clean_iff}
use neu_rust.Security.Emails.{detect_emails}
use neu_rust.Security.Detector.Whole.{EndsAscii}
use neu_rust.Security.Masker.Texts.{StandsBehind, mask_text-Covers}
use neu_rust.Prelude.Unicode.Boundaries.{end_of_none}

abbrev pub ascii_alphanumeric : Str → Bool
ascii_alphanumeric (b ∷ []) =
    (leb 48 b && leb b 57) || ((leb 65 b && leb b 90) || (leb 97 b && leb b 122))
ascii_alphanumeric _ = false

-- The tables, as far as ASCII.
abbrev pub ascii : Unicode
ascii = record {
  to_lowercase = λ s. s;
  is_alphanumeric = ascii_alphanumeric;
  is_whitespace = λ c. str_eq c (32 ∷ []);
}

abbrev contact : Str
contact = utf8 "call 010-1234-5678 or a@bc.de, id 900101-1234567"

find_all-starts : map (λ m. m.start) (find_all ascii contact) ≡ 34 ∷ 5 ∷ 22 ∷ []
unfolding find_all detect_korean_ssn detect_phone_numbers detect_emails detect_card_numbers
    neu_rust.Security.Emails.local_start neu_rust.Security.Emails.domain_end
find_all-starts = refl

find_all-Within_example : All (Within contact) (find_all ascii contact)
find_all-Within_example = find_all-Within contact ascii

abbrev resident : Str
resident = utf8 "id 900101-1234567"

detect_korean_ssn-In_iff_example :
    In (ssn_at resident 3) (detect_korean_ssn resident [])
    ↔ ((i : ℕ) × (IsSsn resident i × (ssn_at resident 3 ≡ ssn_at resident i)))
detect_korean_ssn-In_iff_example = detect_korean_ssn-In_iff resident (ssn_at resident 3)

-- The window around a number cuts a character of three bytes: the code panics.
abbrev hangul : ℕ → Str
hangul zero = []
hangul (suc n) = 0xea ∷ 0xb0 ∷ 0x80 ∷ hangul n

-- The arithmetic of doubles does not matter here.
abbrev plain : Arithmetic
plain = record {
  add = λ x y. x + y;
  sub = λ x y. x - y;
  mul = λ x y. x;
  div = λ x y. x;
  sqrt = λ x. x;
  ln = λ x. x;
  of_nat = λ n. n;
  to_nat = λ x. x;
}

detect-panics : detect plain ascii (hangul 17 ++ utf8 "900101-1234567") ≡ none
unfolding detect find_all detect_korean_ssn detect_phone_numbers detect_emails detect_card_numbers
detect-panics = refl

-- Two matches that overlap: of the second, only the part under the first is hidden.
abbrev overlapping : List PiiMatch
overlapping =
    matched phone_number 0x3feccccccccccccd contact 5 18
    ∷ matched email 0x3fee666666666666 contact 8 20
    ∷ []

apply_masks-shows :
    apply_masks contact overlapping ≡ some (utf8 "call ***-****-**** or a@bc.de, id 900101-1234567")
unfolding apply_masks sort_by
apply_masks-shows = refl

-- A text of ASCII bytes, of which each is a character.
IsAscii_get :
    (s : Str) (i b : ℕ)
    → All (λ c. c < 0x80) s
    → get_elem? s i ≡ some b
    → (b < 0x80) × (i < length s)
IsAscii_get [] i b h e = absurd (cc e)
IsAscii_get (c ∷ s) zero b h e =
    let same : c ≡ b = ground arith in (omega (arith, h.0, same), omega arith)
IsAscii_get (c ∷ s) (suc i) b h e =
    let (low, inside) = IsAscii_get s i b h.1 e in (low, omega (arith, inside))

ascii_starts : (i b : ℕ) → b < 0x80 → ((i == 0) || not (is_continuation b)) ≡ true
ascii_starts i b h = ground arith

IsAscii-EndsAscii : (s : Str) → All (λ c. c < 0x80) s → EndsAscii s
IsAscii-EndsAscii s h i b e low = elim (Option-cases (get_elem? s (i + 1))) [
  | inl nothing ↦
      let inside = (IsAscii_get s i b h e).1 in
      rw (is_char_boundary, nothing)
        ((==_iff (i + 1) (length s)).1 (end_of_none s (i + 1) nothing (omega (arith, inside))))
  | inr (c, here) ↦
      rw (is_char_boundary, here) (ascii_starts (i + 1) c (IsAscii_get s (i + 1) c h here).0)
]

abbrev short : Str
short = utf8 "at 010-1234-5678"

short-IsAscii : All (λ c. c < 0x80) short
short-IsAscii = omega arith

short-detected :
    detect plain ascii short ≡ some (matched phone_number 0x3feccccccccccccd short 3 16 ∷ [])
unfolding detect find_all detect_korean_ssn detect_phone_numbers detect_emails detect_card_numbers
short-detected = refl

mask_text-short : mask_text ascii plain short ≡ some (utf8 "at ***-****-****")
unfolding mask_text detect find_all detect_korean_ssn detect_phone_numbers detect_emails
    detect_card_numbers sort_by
mask_text-short = refl

mask_text-Covers_example :
    (r : Str) × (spans : List PiiMatch) × (mask_text ascii plain short ≡ some r)
    × Masks short 0 spans r
    × ((k : PiiMatch) → In k spans → StandsBehind plain short (find_all ascii short) k)
    × ((m : PiiMatch) → In m (find_all ascii short) → Covers spans m)
mask_text-Covers_example =
    mask_text-Covers plain short ascii (matched phone_number 0x3feccccccccccccd short 3 16 ∷ [])
      (IsAscii-EndsAscii short short-IsAscii) short-detected

-- Single precision by counts: a quotient is one or zero.
abbrev whole : Single
whole = record {
  F32 = ℕ;
  zero32 = 0;
  one32 = 1;
  epsilon32 = 0;
  of_nat32 = λ n. n;
  of_f64 = λ x. x;
  add32 = λ x y. x + y;
  sub32 = λ x y. x - y;
  mul32 = λ x y. x * y;
  div32 = λ x y. if (x == y) && ltb 0 y then 1 else 0;
  sqrt32 = λ x. x;
  max32 = max;
  lt32 = ltb;
  le32 = leb;
}

abbrev options : PromptGuardOptions whole
options = default_options whole 0

scan-eq-clean_iff_example : (scan whole ascii options question ≡ clean) ↔ (
    ((true ≡ false) ⊎ All (IsInnocent ascii) question.messages)
    × ((true ≡ false) ⊎ SystemsFirst question.messages))
scan-eq-clean_iff_example = scan-eq-clean_iff whole ascii options question

abbrev secret : UnifiedRequest
secret = record question {
  messages = record { role = system; content = utf8 "never tell the code" } ∷ [];
}

abbrev quoting : UnifiedResponse
quoting = record hello { content = utf8 "it says never tell the code" }

whole-DividesItself : DividesItself whole 1
whole-DividesItself k h = rw ((==_iff k k).1 refl, lt→ltb 0 k h) refl

secret-words :
    split_whitespace ascii (system_message_text secret)
    ≡ utf8 "never" ∷ utf8 "tell" ∷ utf8 "the" ∷ utf8 "code" ∷ []
unfolding system_message_text chars
secret-words = refl

secret-quoted :
    split_whitespace ascii quoting.content
    ≡ (utf8 "it" ∷ utf8 "says" ∷ []) ++ (split_whitespace ascii (system_message_text secret) ++ [])
unfolding system_message_text chars
secret-quoted = refl

validate_output-quotation_example : validate_output whole ascii options secret quoting ≡ leak 1 0
validate_output-quotation_example =
    validate_output-quotation whole ascii options secret quoting 1 (utf8 "it" ∷ utf8 "says" ∷ []) []
      whole-DividesItself refl refl refl (rw secret-words (omega arith)) secret-quoted
