-- ===== src/Security.antt =====
-- The security layers, crates/neurust-intel/src/security: the detector of personal data, the
-- masker, the guard against prompt injection and the audit log.
pub mod Scan
pub mod Numbers
pub mod Emails
pub mod Detector
pub mod Masker
pub mod Audit
pub mod Guard
