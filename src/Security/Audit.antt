-- ===== src/Security/Audit.antt =====
-- The audit log, security/audit_logger.rs: the entries that each call writes, in order, with their
-- fields; and the entries of a text that is masked, security/pii_masker.rs.
use neu_rust.Prelude.{◌∷◌, [], map, List, ℕ, Option}
use mathlib.Core.Option
use neu_rust.Prelude.Text.{Str, utf8}
use neu_rust.Prelude.Float.{Arithmetic, Single, F64}
use neu_rust.Prelude.Unicode.{Unicode}
use neu_rust.Security.Scan.{PiiType, PiiMatch}
use neu_rust.Security.Detector.{detect}

pub data AuditEntry (s : Single) : Type 0 where
  pii_detected : PiiType → F64 → Str → AuditEntry s
  injection_attempt : (pattern_text origin : Str) → AuditEntry s
  output_leak : (overlap_ratio threshold : s.F32) → AuditEntry s
  stream_masking : ℕ → AuditEntry s

module _ (s : Single) where
  abbrev pub log_pii_detection : List PiiMatch → Str → List (AuditEntry s)
  log_pii_detection matches context =
      map (λ m. pii_detected m.pii_type m.confidence context) matches

  abbrev pub log_injection_attempt : Str → Str → List (AuditEntry s)
  log_injection_attempt pattern_text origin = injection_attempt pattern_text origin ∷ []

  abbrev pub log_output_leak : s.F32 → s.F32 → List (AuditEntry s)
  log_output_leak overlap_ratio threshold = output_leak overlap_ratio threshold ∷ []

  abbrev pub log_stream_masking : ℕ → List (AuditEntry s)
  log_stream_masking pii_count = stream_masking pii_count ∷ []

  -- What `mask_text` writes; `none` where the detector panics.
  abbrev pub mask_text_log : Unicode → Arithmetic → Str → Option (List (AuditEntry s))
  mask_text_log u f text =
      Option.map (λ ms. log_pii_detection ms (utf8 "text_masking")) (detect f u text)
