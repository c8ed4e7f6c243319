-- ===== src/Security/Masker/Texts.antt =====
-- The masker behind the detector: what is found in a text is hidden in it.
use neu_rust.Prelude.{
  refl, inl, inr, ◌≡◌, ◌∷◌, [], some, List, All, In, Option-cases, if-both, any, ◌∙◌, arith, none,
  Option,
}
use mathlib.Core.Option
use neu_rust.Prelude.Float.{Arithmetic}
use neu_rust.Prelude.Text.{Str, contains}
use neu_rust.Security.Scan.{PiiMatch}
use neu_rust.Security.Detector.{
  validate_context, boost, window_of, context_keywords, detect, find_all,
}
use neu_rust.Security.Detector.Whole.{IsPlaced, EndsAscii, find_all-IsPlaced}
use neu_rust.Security.Masker.{mask_text, apply_masks}
use neu_rust.Prelude.Unicode.{Unicode}
use neu_rust.Security.Masker.Laws.{Masks, Covers, apply_masks-Covers}
use mathlib.Core.Path.{subst}

-- The same place of a text, with the same kind of data.
abbrev pub SamePlace : PiiMatch → PiiMatch → Type 0
SamePlace k m = (k.start ≡ m.start) × (k.end ≡ m.end) × (k.pii_type ≡ m.pii_type)

boost-SamePlace : (f : Arithmetic) (window : Str) (m : PiiMatch) → SamePlace (boost f window m) m
boost-SamePlace f window m =
    if-both {A = PiiMatch} (λ k. SamePlace k m) (any (contains window) context_keywords)
      (refl, refl, refl) (refl, refl, refl)

boost-IsPlaced :
    (f : Arithmetic) (window text : Str) (m : PiiMatch)
    → IsPlaced text m
    → IsPlaced text (boost f window m)
boost-IsPlaced f window text m h =
    if-both {A = PiiMatch} (IsPlaced text) (any (contains window) context_keywords) h h

-- The matches with their context stand for those without, at the same places.
module _ (f : Arithmetic) (text : Str) where
  abbrev StandsFor : List PiiMatch → PiiMatch → Type 0
  StandsFor found m = (k : PiiMatch) × In k found × SamePlace k m

  abbrev pub StandsBehind : List PiiMatch → PiiMatch → Type 0
  StandsBehind ms k = (m : PiiMatch) × In m ms × SamePlace k m

  abbrev IsSound : List PiiMatch → Option (List PiiMatch) → Type 0
  IsSound ms none = Unit
  IsSound ms (some found) =
      All (IsPlaced text) found
      × ((m : PiiMatch) → In m ms → StandsFor found m)
      × ((k : PiiMatch) → In k found → StandsBehind ms k)

  IsSound-more :
      (m : PiiMatch) (window : Str) (ms : List PiiMatch) (o : Option (List PiiMatch))
      → IsPlaced text m
      → IsSound ms o
      → IsSound (m ∷ ms) (Option.map (λ rest. boost f window m ∷ rest) o)
  IsSound-more m window ms none h k = tt
  IsSound-more m window ms (some rest) h (placed, forward, backward) = (
    (boost-IsPlaced f window text m h, placed),
    λ j member. elim member [
      | inl here ↦ (boost f window m, inl refl, rw here (boost-SamePlace f window m))
      | inr later ↦ let (i, inside, same) = forward j later in (i, inr inside, same)
    ],
    λ j member. elim member [
      | inl here ↦ (m, inl refl, rw here (boost-SamePlace f window m))
      | inr later ↦ let (i, inside, same) = backward j later in (i, inr inside, same)
    ],
  )

  validate_context-IsSound :
      (ms : List PiiMatch) → All (IsPlaced text) ms → IsSound ms (validate_context f text ms)
  unfolding validate_context
  validate_context-IsSound [] h = (tt, λ m member. absurd member, λ k member. absurd member)
  validate_context-IsSound (m ∷ ms) h = elim (Option-cases (window_of f text m)) [
    | inl cut ↦ rw (validate_context, cut) tt
    | inr (window, whole) ↦
        rw (validate_context, whole)
          (IsSound-more m window ms (validate_context f text ms) h.0
            (validate_context-IsSound ms h.1))
  ]

  mask_text_of :
      (u : Unicode) (found : List PiiMatch)
      → detect f u text ≡ some found
      → mask_text u f text ≡ apply_masks text found
  unfolding mask_text apply_masks
  mask_text_of u [] detected = rw (mask_text, detected) refl
  mask_text_of u (m ∷ ms) detected = rw (mask_text, detected) refl

  -- Unless the detector panics on a window that cuts a character, a text in which a character
  -- ends after each ASCII byte is masked: the result is the text in which some of the matches that
  -- the detectors find, apart from each other and in order, are each replaced from their start to
  -- their end by the mask of their kind, and all the rest is shown as it is. Every match either is
  -- replaced or begins inside one that is.
  pub mask_text-Covers :
      (u : Unicode) (found : List PiiMatch)
      → EndsAscii text
      → detect f u text ≡ some found
      → (r : Str) × (spans : List PiiMatch) × (mask_text u f text ≡ some r)
        × Masks text 0 spans r
        × ((k : PiiMatch) → In k spans → StandsBehind (find_all u text) k)
        × ((m : PiiMatch) → In m (find_all u text) → Covers spans m)
  unfolding detect
  mask_text-Covers u found whole detected =
      let sound = validate_context-IsSound (find_all u text) (find_all-IsPlaced text whole u) in
      let (placed, forward, backward) = subst (IsSound (find_all u text)) detected sound in
      let (r, (spans, (gives, (masks, (among, covers))))) = apply_masks-Covers text found placed in
      (
        r,
        spans,
        mask_text_of u found detected ∙ gives,
        masks,
        λ k member. backward k (among k member),
        λ m member.
            let (k, inside, (start, end, kind)) = forward m member in
            let (j, (hidden_by, (low, high))) = covers k inside in
            (j, (hidden_by, (omega (arith, start), omega (arith, start)))),
      )
