-- ===== src/Security/Emails.antt =====
-- The detector of addresses in security/pii_detector.rs, which goes through the characters.
use neu_rust.Prelude.{
  ◌+◌, ◌-◌, ◌∷◌, ◌&&◌, ◌||◌, [], zero, suc, none, some, ℕ, List, Bool, Option, drop, get_elem?,
  take, length, all, leb, ltb, if◌then◌else◌,
}
use mathlib.Core.Bool.{false}
use neu_rust.Prelude.Unicode.{Unicode, chars, byte_offset}
use neu_rust.Prelude.Text.{Str, str_eq}
use neu_rust.Security.Scan.{scan_text, Step, PiiMatch, matched, email}

abbrev pub is_char : ℕ → Str → Bool
is_char b c = str_eq c (b ∷ [])

module _ (u : Unicode) where
  abbrev pub is_domain_char : Str → Bool
  is_domain_char c = u.is_alphanumeric c || (is_char 46 c || is_char 45 c)

  abbrev pub is_local_char : Str → Bool
  is_local_char c =
      u.is_alphanumeric c || (is_char 46 c || (is_char 95 c || (is_char 45 c || is_char 43 c)))

  abbrev pub char_is : (Str → Bool) → List Str → ℕ → Bool
  char_is p cs i = elim (get_elem? cs i) [ none ↦ false | some c ↦ p c ]

  -- The loop that moves `local_start` back.
  unfoldable pub local_start : List Str → ℕ → ℕ
  local_start cs zero = zero
  local_start cs (suc i) =
      let before = local_start cs i in if char_is is_local_char cs i then before else suc i

  -- The loop that moves `domain_end` on, over what is left, with the position of the last dot.
  unfoldable pub domain_end : List Str → ℕ → Option ℕ → ℕ × Option ℕ
  domain_end [] i last_dot = (i, last_dot)
  domain_end (c ∷ cs) i last_dot =
      let rest = domain_end cs (i + 1) (if is_char 46 c then some i else last_dot) in
      if is_domain_char c then rest else (i, last_dot)

  -- `is_ascii_alphabetic`.
  abbrev pub is_ascii_alphabetic : Str → Bool
  is_ascii_alphabetic (b ∷ []) = (leb 65 b && leb b 90) || (leb 97 b && leb b 122)
  is_ascii_alphabetic _ = false

  abbrev pub has_valid_tld : List Str → Option ℕ → ℕ → Bool
  has_valid_tld cs none end = false
  has_valid_tld cs (some dot) end =
      let tld = take (end - (dot + 1)) (drop (dot + 1) cs) in
      leb 2 (length tld) && all is_ascii_alphabetic tld

  abbrev pub email_step : Str → List Str → Step
  email_step text cs found i =
      let first = local_start cs i in
      let (end, last_dot) = domain_end (drop (i + 1) cs) (i + 1) none in
      if (char_is (is_char 64) cs i && ltb 0 i)
        && (ltb first i && (ltb (i + 1) end && has_valid_tld cs last_dot end))
      then (
        matched email 0x3fee666666666666 text (byte_offset cs first) (byte_offset cs end) ∷ [],
        end,
      )
      else ([], i + 1)

  unfoldable pub detect_emails : Str → List PiiMatch → List PiiMatch
  unfolding scan_text chars
  detect_emails text found =
      scan_text (suc (length (chars text))) (email_step text (chars text)) 1 (length (chars text)) 0
        found
