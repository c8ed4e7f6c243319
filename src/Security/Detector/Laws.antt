-- ===== src/Security/Detector/Laws.antt =====
-- Where the detector's matches lie, and which resident numbers it finds.
use neu_rust.Prelude.{
  if◌then◌else◌, true, inl, arith, refl, ◌≤◌, ◌<◌, ◌+◌, ◌∷◌, ◌&&◌, [], suc, some, List, ℕ, Option,
  length, All, if-both, if-cases, leb→le, and-left, none, drop, ltb, ap, ltb→lt, length-drop, ◌≡◌,
  ◌↔◌, In, All-In, Bool,
}
use neu_rust.Security.Numbers.{
  is_ssn, detect_korean_ssn, detect_phone_numbers, detect_card_numbers, grouped_step, phone_step,
  plain_step, ssn_step, is_grouped, is_mobile, stands_alone, already_found, is_landline,
}
use neu_rust.Security.Scan.{
  PiiType, PiiMatch, matched, digits, korean_ssn, card_number, phone_number, email, scan_text,
}
use neu_rust.Prelude.Text.{Str}
use neu_rust.Prelude.Float.{F64}
use neu_rust.Prelude.Unicode.{
  Unicode, chars, concat-chars, byte_offset, byte_offset-lt, chars-All, byte_offset-le,
}
use neu_rust.Security.Detector.{find_all}
use neu_rust.Security.Detector.Shapes.{IsSsn, is_ssn-IsSsn, is_ssn_of_IsSsn}
use neu_rust.Security.Emails.{
  domain_end, detect_emails, is_domain_char, email_step, is_char, local_start, char_is,
  has_valid_tld,
}
use neu_rust.Security.Scan.Laws.{Within, scan_text-All, In-scan_text-step}

third-and_fourth :
    (a b c d e : Bool) → ((a && b) && (c && (d && e))) ≡ true → (c ≡ true) × (d ≡ true)
third-and_fourth a b c d e h = ground arith

matched-Within :
    (kind : PiiType) (confidence : F64) (text : Str) (i j : ℕ)
    → i < j
    → j ≤ length text
    → All (Within text) (matched kind confidence text i j ∷ [])
matched-Within kind confidence text i j ij jl = ((ij, (jl, refl)), tt)

-- What a round adds lies in the text.
abbrev Adds : Str → List PiiMatch × ℕ → Type 0
Adds text r = All (Within text) r.0

module _ (text : Str) where
  ssn-Within :
      (found : List PiiMatch) (i : ℕ)
      → i + 14 ≤ length text
      → All (Within text) (ssn_step text found i).0
  ssn-Within found i h =
      if-both (All (Within text)) (is_ssn text i)
        (matched-Within korean_ssn 0x3feb333333333333 text i (i + 14) (omega arith) h) tt

  phone-Within :
      (found : List PiiMatch) (i : ℕ)
      → i + 1 ≤ length text
      → All (Within text) (phone_step text found i).0
  phone-Within found i h =
      if-cases (Adds text) (is_mobile text i)
        (λ m.
          matched-Within phone_number 0x3feccccccccccccd text i (i + 13) (omega arith)
            (leb→le (i + 13) (length text) (and-left _ _ m)))
        (λ _.
          if-cases (Adds text) (is_landline text i)
            (λ m.
              matched-Within phone_number 0x3fe999999999999a text i (i + 11) (omega arith)
                (leb→le (i + 11) (length text) (and-left _ _ m)))
            (λ _. tt))

  grouped-Within :
      (found : List PiiMatch) (i : ℕ)
      → i + 19 ≤ length text
      → All (Within text) (grouped_step text found i).0
  grouped-Within found i h =
      if-both (Adds text) (is_grouped 45 text i)
        (matched-Within card_number 0x3feccccccccccccd text i (i + 19) (omega arith) h)
        (if-both (Adds text) (is_grouped 32 text i && stands_alone text i (i + 19))
          (matched-Within card_number 0x3feb333333333333 text i (i + 19) (omega arith) h) tt)

  plain-Within :
      (found : List PiiMatch) (i : ℕ)
      → i + 16 ≤ length text
      → All (Within text) (plain_step text found i).0
  plain-Within found i h =
      if-both (Adds text) (digits text i (i + 16) && stands_alone text i (i + 16))
        (if-both (All (Within text)) (already_found found i) tt
          (matched-Within card_number 0x3fe8000000000000 text i (i + 16) (omega arith) h))
        tt

  module _ (u : Unicode) where
    domain_end-le :
        (cs : List Str) (i : ℕ) (last : Option ℕ) → (domain_end u cs i last).0 ≤ i + length cs
    unfolding domain_end
    domain_end-le [] i last = omega arith
    domain_end-le (c ∷ cs) i last =
        if-both {A = ℕ × Option ℕ} (λ r. r.0 ≤ i + suc (length cs)) (is_domain_char u c)
          (omega (arith, domain_end-le cs (i + 1) (if is_char 46 c then some i else last)))
          (omega arith)

    pub email-Within :
        (found : List PiiMatch) (i : ℕ)
        → i + 1 ≤ length (chars text)
        → All (Within text) (email_step u text (chars text) found i).0
    email-Within found i h =
        let cs = chars text in
        let first = local_start u cs i in
        let (end, last_dot) = domain_end u (drop (i + 1) cs) (i + 1) none in
        if-cases (Adds text)
          ((char_is u (is_char 64) cs i && ltb 0 i)
            && (ltb first i && (ltb (i + 1) end && has_valid_tld u cs last_dot end)))
          (λ m.
            let (before, after) =
              third-and_fourth (char_is u (is_char 64) cs i) (ltb 0 i) (ltb first i)
                (ltb (i + 1) end) (has_valid_tld u cs last_dot end) m in
            let whole = ap length (concat-chars text) in
            matched-Within email 0x3fee666666666666 text (byte_offset cs first) (byte_offset cs end)
              (byte_offset-lt cs first end (chars-All text)
                (omega (arith, ltb→lt first i before, ltb→lt (i + 1) end after))
                (omega
                  (arith, domain_end-le (drop (i + 1) cs) (i + 1) none, length-drop (i + 1) cs h)))
              (omega (arith, byte_offset-le cs end, whole)))
          (λ _. tt)

  ssn-All : All (Within text) (detect_korean_ssn text [])
  unfolding detect_korean_ssn
  ssn-All =
      scan_text-All (ssn_step text) 14 (length text) (Within text) ssn-Within (suc (length text)) 0
        [] tt

  phone-All :
      (found : List PiiMatch)
      → All (Within text) found
      → All (Within text) (detect_phone_numbers text found)
  unfolding detect_phone_numbers
  phone-All =
      scan_text-All (phone_step text) 1 (length text) (Within text) phone-Within (suc (length text))
        0

  email-All :
      (u : Unicode) (found : List PiiMatch)
      → All (Within text) found
      → All (Within text) (detect_emails u text found)
  unfolding detect_emails
  email-All u =
      let count = length (chars text) in
      scan_text-All (email_step u text (chars text)) 1 count (Within text) (email-Within u)
        (suc count) 0

  card-All :
      (found : List PiiMatch)
      → All (Within text) found
      → All (Within text) (detect_card_numbers text found)
  unfolding detect_card_numbers
  card-All found h =
      let len = length text in
      scan_text-All (plain_step text) 16 len (Within text) plain-Within (suc len) 0
        (scan_text (suc len) (grouped_step text) 19 len 0 found)
        (scan_text-All (grouped_step text) 19 len (Within text) grouped-Within (suc len) 0 found h)

  -- Whatever the text, each match that the four detectors find lies inside the text, is not
  -- empty, and its text is the part of the text between its bounds.
  pub find_all-Within : (u : Unicode) → All (Within text) (find_all u text)
  unfolding find_all
  find_all-Within u =
      let ssn = detect_korean_ssn text [] in
      let phones = detect_phone_numbers text ssn in
      card-All (detect_emails u text phones) (email-All u phones (phone-All ssn ssn-All))

  -- The match of a resident number at a position.
  abbrev pub ssn_at : ℕ → PiiMatch
  ssn_at i = matched korean_ssn 0x3feb333333333333 text i (i + 14)

  abbrev IsSsnMatch : PiiMatch → Type 0
  IsSsnMatch m = (i : ℕ) × ((is_ssn text i ≡ true) × (m ≡ ssn_at i))

  IsSsnMatch-step :
      (found : List PiiMatch) (i : ℕ)
      → i + 14 ≤ length text
      → All IsSsnMatch (ssn_step text found i).0
  IsSsnMatch-step found i h =
      if-cases (All IsSsnMatch) (is_ssn text i) (λ shape. ((i, (shape, refl)), tt)) (λ _. tt)

  -- The resident numbers that are found are those at all the positions of the text, overlapping
  -- ones too, at which six digits, a dash and seven digits stand, of which the first is 1 to 4.
  pub detect_korean_ssn-In_iff :
      (m : PiiMatch)
      → In m (detect_korean_ssn text []) ↔ ((i : ℕ) × (IsSsn text i × (m ≡ ssn_at i)))
  unfolding detect_korean_ssn
  detect_korean_ssn-In_iff m = (
    λ member.
        let (i, (shape, same)) =
          All-In IsSsnMatch m (detect_korean_ssn text [])
            (scan_text-All (ssn_step text) 14 (length text) IsSsnMatch IsSsnMatch-step
              (suc (length text)) 0 [] tt)
            member in
        (i, (is_ssn-IsSsn text i shape, same)),
    λ (i, (stands, same)).
        let shape = is_ssn_of_IsSsn text i stands in
        let inside = ltb→lt (i + 13) (length text) (and-left _ _ shape) in
        In-scan_text-step (ssn_step text) 14 (length text) (λ found k. refl) m i
          (omega (arith, inside)) (λ found. rw shape (inl same)) (suc (length text)) 0 []
          (omega arith) (omega (arith, inside)),
  )
