-- ===== src/Security/Masker/Laws.antt =====
-- What a masked text looks like, and that no match shows its first byte.
use neu_rust.Prelude.{
  true, false, inl, inr, Bool-cases, arith, refl, ◌≡◌, ◌≤◌, ◌<◌, ◌∷◌, ◌++◌, ◌⊎◌, [], none, some,
  List, get_elem?, ℕ, In, length, ==_iff, All, le→leb, leb, leb→le, All-In, take_of_length-le, ◌-◌,
}
use neu_rust.Prelude.Text.{Str}
use neu_rust.Security.Scan.{PiiMatch}
use neu_rust.Prelude.Unicode.{is_char_boundary, slice, str_slice}
use neu_rust.Security.Masker.{mask_from, mask_of, starts_before, apply_masks}
use neu_rust.Prelude.Sort.{
  IsSorted, IsOrder, sort_by, All-sort_by, sort_by-IsSorted, In-of_In-sort_by, In-sort_by,
}
use mathlib.Core.Path.{subst}
use neu_rust.Security.Detector.Whole.{IsPlaced}

-- What is shown of a text from a position on, when some spans are hidden: what lies before a
-- span, the mask of its kind in its place, and so on.
pub data Masks (text : Str) : ℕ → List PiiMatch → Str → Type 0 where
  shown : (i : ℕ) → Masks text i [] (slice text i (length text))
  hidden :
      (i : ℕ) (m : PiiMatch) (ms : List PiiMatch) (r : Str)
      → i ≤ m.start
      → Masks text m.end ms r
      → Masks text i (m ∷ ms) (slice text i m.start ++ (mask_of m.pii_type ++ r))

-- One of the spans has the first byte of the match.
abbrev pub Covers : List PiiMatch → PiiMatch → Type 0
Covers spans m = (k : PiiMatch) × (In k spans × ((k.start ≤ m.start) × (m.start < k.end)))

get_elem?-end : (text : Str) → get_elem? text (length text) ≡ none
get_elem?-end [] = refl
get_elem?-end (b ∷ s) = get_elem?-end s

boundary-end : (text : Str) → is_char_boundary text (length text) ≡ true
boundary-end text =
    rw (is_char_boundary, get_elem?-end text) ((==_iff (length text) (length text)).1 refl)

str_slice-eq-some :
    (text : Str) (i j : ℕ)
    → i ≤ j
    → j ≤ length text
    → is_char_boundary text i ≡ true
    → is_char_boundary text j ≡ true
    → str_slice text i j ≡ some (slice text i j)
str_slice-eq-some text i j ij jl bi bj = rw (le→leb i j ij, le→leb j (length text) jl, bi, bj) refl

boundary-start : (text : Str) → is_char_boundary text 0 ≡ true
boundary-start [] = refl
boundary-start (b ∷ s) = refl

slice-all : (text : Str) → slice text 0 (length text) ≡ text
slice-all text = take_of_length-le (length text - 0) text (omega arith)

not_leb : (a b : ℕ) → leb a b ≡ false → b < a
not_leb a b h = ground arith

starts_before-IsOrder : IsOrder starts_before
starts_before-IsOrder = record { total = λ a b. ground arith; trans = λ a b c p q. ground arith }

cons-Within :
    (m : PiiMatch) (spans ms : List PiiMatch)
    → ((k : PiiMatch) → In k spans → In k ms)
    → (k : PiiMatch) → In k (m ∷ spans)
    → In k (m ∷ ms)
cons-Within m spans ms inside k (inl here) = inl here
cons-Within m spans ms inside k (inr later) = inr (inside k later)

-- Behind a span that is hidden, what starts before its end is hidden by it.
cover_first :
    (i : ℕ) (m : PiiMatch) (ms spans : List PiiMatch)
    → m.start < m.end
    → All (λ k. starts_before m k ≡ true) ms
    → ((k : PiiMatch) → In k ms → (k.start < m.end) ⊎ Covers spans k)
    → (k : PiiMatch) → In k (m ∷ ms)
    → (k.start < i) ⊎ Covers (m ∷ spans) k
cover_first i m ms spans filled after covers k (inl here) =
    inr (rw here (m, (inl refl, (omega arith, filled))))
cover_first i m ms spans filled after covers k (inr later) = elim (covers k later) [
  | inl early ↦
      let order = All-In (λ j. starts_before m j ≡ true) k ms after later in
      inr (m, (inl refl, (leb→le m.start k.start order, early)))
  | inr (j, (member, bounds)) ↦ inr (j, (inr member, bounds))
]

module _ (text : Str) where
  -- What `mask_from` gives from a position on.
  abbrev Result : ℕ → List PiiMatch → Type 0
  Result i ms =
      (r : Str) × ((spans : List PiiMatch) × ((mask_from text i ms ≡ some r)
          × (Masks text i spans r
              × (((k : PiiMatch) → In k spans → In k ms)
                  × ((m : PiiMatch) → In m ms → (m.start < i) ⊎ Covers spans m)))))

  mask_from-Result :
      (i : ℕ) (ms : List PiiMatch)
      → i ≤ length text
      → is_char_boundary text i ≡ true
      → All (IsPlaced text) ms
      → IsSorted starts_before ms
      → Result i ms
  unfolding mask_from
  mask_from-Result i [] il bi placed sorted = (
    slice text i (length text),
    (
      [],
      (
        str_slice-eq-some text i (length text) il (omega arith) bi (boundary-end text),
        (shown i, ((λ k h. absurd h), (λ m h. absurd h))),
      ),
    ),
  )
  mask_from-Result i (m ∷ ms) il bi placed sorted = elim (Bool-cases (leb i m.start)) [
    | inl apart ↦
        let (start-end, (end-len, (b_start, b_end))) = placed.0 in
        let im = leb→le i m.start apart in
        let (r, (spans, (gives, (masks, (inside, covers))))) =
          mask_from-Result m.end ms end-len b_end placed.1 sorted.1 in
        let before = str_slice-eq-some text i m.start im (omega arith) bi b_start in
        (
          slice text i m.start ++ (mask_of m.pii_type ++ r),
          (
            m ∷ spans,
            (
              rw (mask_from, apart, before, gives) refl,
              (
                hidden i m spans r im masks,
                (cons-Within m spans ms inside, cover_first i m ms spans start-end sorted.0 covers),
              ),
            ),
          ),
        )
    | inr overlap ↦
        let (r, (spans, (gives, (masks, (inside, covers))))) =
          mask_from-Result i ms il bi placed.1 sorted.1 in
        (
          r,
          (
            spans,
            (
              rw (mask_from, overlap) gives,
              (
                masks,
                (
                  (λ k h. inr (inside k h)),
                  (λ k h. elim h [
                    | inl here ↦ inl (rw here (not_leb i m.start overlap))
                    | inr later ↦ covers k later
                  ]),
                ),
              ),
            ),
          ),
        )
  ]

-- Of matches that each have the bounds of characters of the text, the masker hides a part: it
-- does not panic, what it gives is the text with the mask of its kind in place of each span that
-- it hides, the spans are among the matches, and of every match the first byte is hidden.
pub apply_masks-Covers :
    (text : Str) (ms : List PiiMatch)
    → All (IsPlaced text) ms
    → (r : Str) × ((spans : List PiiMatch) × ((apply_masks text ms ≡ some r)
          × (Masks text 0 spans r
              × (((k : PiiMatch) → In k spans → In k ms)
                  × ((m : PiiMatch) → In m ms → Covers spans m)))))
unfolding apply_masks
apply_masks-Covers text [] placed = (
  text,
  (
    [],
    (refl, (subst (Masks text 0 []) (slice-all text) (shown 0), ((λ k h. h), (λ m h. absurd h)))),
  ),
)
apply_masks-Covers text (m ∷ ms) placed =
    let sorted = sort_by starts_before (m ∷ ms) in
    let (r, (spans, (gives, (masks, (inside, covers))))) =
      mask_from-Result text 0 sorted (omega arith) (boundary-start text)
        (All-sort_by starts_before (IsPlaced text) (m ∷ ms) placed)
        (sort_by-IsSorted starts_before starts_before-IsOrder (m ∷ ms)) in
    (
      r,
      (
        spans,
        (
          gives,
          (
            masks,
            (
              (λ k h. In-of_In-sort_by starts_before k (m ∷ ms) (inside k h)),
              (λ k h. elim (covers k (In-sort_by starts_before k (m ∷ ms) h)) [
                | inl before ↦ absurd (omega arith)
                | inr covered ↦ covered
              ]),
            ),
          ),
        ),
      ),
    )
