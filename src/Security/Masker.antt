-- ===== src/Security/Masker.antt =====
-- The masker of personal data, security/pii_masker.rs. What the audit log gets is left out.
pub mod Laws
pub mod Texts
use neu_rust.Prelude.{
  if◌then◌else◌, true, false, ◌+◌, ◌∷◌, ◌++◌, [], none, some, List, ℕ, Bool, Option, get_or,
  is_empty, leb, length,
}
use neu_rust.Prelude.Text.{Str, utf8, str_eq}
use neu_rust.Contracts.{UnifiedRequest, UnifiedResponse, Message}
use neu_rust.Security.Scan.{PiiType, korean_ssn, phone_number, email, card_number, PiiMatch}
use mathlib.Core.Option
use neu_rust.Prelude.Unicode.{Unicode, str_slice}
use neu_rust.Security.Detector.{max_pattern_length_tokens, detect}
use neu_rust.Prelude.Float.{Arithmetic}
use neu_rust.Prelude.Sort.{sort_by}

pub data Direction : Type 0 where
  request response bidirectional : Direction

abbrev pub from_str_config : Unicode → Str → Direction
from_str_config u s =
    let lowered = u.to_lowercase s in
    if str_eq lowered (utf8 "request")
    then request
    else if str_eq lowered (utf8 "response")
    then response
    else bidirectional

pub record PiiMasker : Type 0 where
  pub direction : Direction
  pub min_window_tokens : ℕ

abbrev pub new : Direction → PiiMasker
new direction = record { direction = direction; min_window_tokens = max_pattern_length_tokens + 20 }

-- `from_config`; reading a number is a parameter.
abbrev pub from_config : Unicode → (Str → Option ℕ) → Option Str → Option Str → PiiMasker
from_config u parse direction window = record {
  direction = from_str_config u (get_or direction (utf8 "bidirectional"));
  min_window_tokens = elim window [
    | none ↦ max_pattern_length_tokens + 20
    | some s ↦
        if str_eq s (utf8 "auto") then max_pattern_length_tokens + 20 else get_or (parse s) 50
  ];
}

abbrev pub mask_of : PiiType → Str
mask_of korean_ssn = utf8 "******-*******"
mask_of phone_number = utf8 "***-****-****"
mask_of email = utf8 "****@****.***"
mask_of card_number = utf8 "****-****-****-****"

abbrev pub starts_before : PiiMatch → PiiMatch → Bool
starts_before a b = leb a.start b.start

-- What comes after `last_end`, masked; `none` where a slice panics.
unfoldable pub mask_from : Str → ℕ → List PiiMatch → Option Str
mask_from text last_end [] = str_slice text last_end (length text)
mask_from text last_end (m ∷ ms) = elim (leb last_end m.start) [
  | true ↦ elim (str_slice text last_end m.start) [
    | none ↦ none
    | some before ↦
        Option.map (λ rest. before ++ (mask_of m.pii_type ++ rest)) (mask_from text m.end ms)
  ]
  | false ↦ mask_from text last_end ms
]

unfoldable pub apply_masks : Str → List PiiMatch → Option Str
unfolding mask_from
apply_masks text matches =
    if is_empty matches then some text else mask_from text 0 (sort_by starts_before matches)

module _ (u : Unicode) (f : Arithmetic) where
  unfoldable pub mask_text : Str → Option Str
  unfolding detect apply_masks
  mask_text text = elim (detect f u text) [
    | none ↦ none
    | some matches ↦ if is_empty matches then some text else apply_masks text matches
  ]

  unfoldable pub mask_messages : List Message → Option (List Message)
  unfolding mask_text
  mask_messages [] = some []
  mask_messages (m ∷ ms) = elim (mask_text m.content) [
    | none ↦ none
    | some masked ↦ Option.map (λ rest. record m { content = masked } ∷ rest) (mask_messages ms)
  ]

  -- `none` where the layer panics.
  unfoldable pub on_request : PiiMasker → UnifiedRequest → Option UnifiedRequest
  unfolding mask_messages
  on_request s r = elim s.direction [
    | response ↦ some r
    | _ ↦ Option.map (λ ms. record r { messages = ms }) (mask_messages r.messages)
  ]

  unfoldable pub on_response : PiiMasker → UnifiedResponse → Option UnifiedResponse
  unfolding mask_text
  on_response s a = elim s.direction [
    | request ↦ some a
    | _ ↦ Option.map (λ masked. record a { content = masked }) (mask_text a.content)
  ]
