-- ===== src/Security/Scan/Laws.antt =====
-- What the loop of the detectors keeps, and that it comes by every position.
use neu_rust.Prelude.{
  inl, inr, Bool-cases, arith, ◌≡◌, ◌≤◌, ◌<◌, ◌+◌, ◌++◌, ◌==◌, zero, suc, ℕ, length, List, All, In,
  leb, le→leb, All-append, In-append-left, In-append-right, leb→le, sym, ==_iff,
}
use neu_rust.Prelude.Text.{Str}
use neu_rust.Security.Scan.{Step, PiiMatch, scan_text}
use neu_rust.Prelude.Unicode.{slice}
use mathlib.Core.Path.{subst}

-- A match lies inside the text, is not empty, and has the text of its place.
abbrev pub Within : Str → PiiMatch → Type 0
Within text m =
    (m.start < m.end) × ((m.end ≤ length text) × (m.matched_text ≡ slice text m.start m.end))

module _ (step : Step) (width len : ℕ) where
  -- The loop keeps what each of its rounds keeps.
  pub scan_text-All :
      (P : PiiMatch → Type 0)
      → ((found : List PiiMatch) (i : ℕ) → i + width ≤ len → All P (step found i).0)
      → (fuel i : ℕ) (found : List PiiMatch) → All P found
      → All P (scan_text fuel step width len i found)
  unfolding scan_text
  scan_text-All P keeps zero i found h = h
  scan_text-All P keeps (suc fuel) i found h = elim (Bool-cases (leb (i + width) len)) [
    | inl inside ↦
        rw (inside, scan_text)
          (scan_text-All P keeps fuel (step found i).1 (found ++ (step found i).0) (
            All-append P found (step found i).0 h
              (keeps found i (omega (arith, leb→le (i + width) len inside)))))
    | inr outside ↦ rw (outside, scan_text) h
  ]

  -- What is found stays found.
  pub In-scan_text :
      (m : PiiMatch) (fuel i : ℕ) (found : List PiiMatch)
      → In m found
      → In m (scan_text fuel step width len i found)
  unfolding scan_text
  In-scan_text m zero i found h = h
  In-scan_text m (suc fuel) i found h = elim (Bool-cases (leb (i + width) len)) [
    | inl inside ↦
        rw (inside, scan_text)
          (In-scan_text m fuel (step found i).1 (found ++ (step found i).0)
            (In-append-left m found (step found i).0 h))
    | inr outside ↦ rw (outside, scan_text) h
  ]

  -- A loop that goes on by one has what its round adds at any position, if it has fuel for it.
  pub In-scan_text-step :
      ((found : List PiiMatch) (i : ℕ) → (step found i).1 ≡ i + 1)
      → (m : PiiMatch) (j : ℕ) → j + width ≤ len
      → ((found : List PiiMatch) → In m (step found j).0)
      → (fuel i : ℕ) (found : List PiiMatch) → i ≤ j
      → j < i + fuel
      → In m (scan_text fuel step width len i found)
  unfolding scan_text
  In-scan_text-step next m j inside here zero i found ij jf = absurd (omega arith)
  In-scan_text-step next m j inside here (suc fuel) i found ij jf =
      rw (le→leb (i + width) len (omega arith), scan_text)
        (elim (Bool-cases (i == j)) [
          | inl same ↦ In-scan_text m fuel (step found i).1 (found ++ (step found i).0) (
              In-append-right m found (step found i).0
                (subst (λ k. In m (step found k).0) (sym ((==_iff i j).0 same)) (here found)))
          | inr other ↦ rw (next found i) (
              In-scan_text-step next m j inside here fuel (i + 1) (found ++ (step found i).0)
                (ground arith) (omega arith))
        ])
