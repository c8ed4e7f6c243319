-- ===== src/Security/Guard/Overlap.antt =====
-- That the guard sees a system prompt that is quoted.
use neu_rust.Security.Guard.{
  distinct_ngrams, word_windows, overlap_count, validate_output, ratio, leak, compute_ngram_overlap,
  PromptGuardOptions, has_ngram, ngram_eq,
}
use neu_rust.Prelude.{
  true, false, inl, inr, Bool-cases, arith, refl, ◌≡◌, ◌∷◌, ◌++◌, ◌↔◌, [], Bool, List, ap, sym, ◌≤◌,
  ◌∙◌, zero, suc, ℕ, In, length, take, and-left, leb, leb→le, and-right, le→leb, length-append, ◌<◌,
  filter, is_empty, ltb, is_empty_of_positive, positive_of_In,
}
use neu_rust.Contracts.{UnifiedRequest, UnifiedResponse, system_message_text}
use neu_rust.Prelude.Unicode.{Unicode, split_whitespace, chars}
use neu_rust.Prelude.Float.{Single}
use mathlib.Core.Path.{subst}
use neu_rust.Prelude.Text.{Str, str_eq_iff, str_eq}

ngram_eq_refl : (g : List Str) → ngram_eq g g ≡ true
ngram_eq_refl [] = refl
ngram_eq_refl (w ∷ g) = rw ((str_eq_iff w w).1 refl, ngram_eq_refl g) refl

ngram_eq→eq : (g h : List Str) → ngram_eq g h ≡ true → g ≡ h
ngram_eq→eq [] [] e = refl
ngram_eq→eq [] (w ∷ h) e = absurd (ground arith)
ngram_eq→eq (v ∷ g) [] e = absurd (ground arith)
ngram_eq→eq (v ∷ g) (w ∷ h) e =
    let head = (str_eq_iff v w).0 (and-left (str_eq v w) (ngram_eq g h) e) in
    let tail = ngram_eq→eq g h (and-right (str_eq v w) (ngram_eq g h) e) in rw (head, tail) refl

has_ngram_iff : (gs : List (List Str)) (g : List Str) → (has_ngram gs g ≡ true) ↔ In g gs
has_ngram_iff [] g = (λ h. absurd (ground arith), λ h. absurd h)
has_ngram_iff (x ∷ gs) g = elim (Bool-cases (ngram_eq g x)) [
  | inl same ↦ (λ h. inl (ngram_eq→eq g x same), λ h. rw same refl)
  | inr other ↦ rw other (
    λ h. inr ((has_ngram_iff gs g).0 h),
    λ h. elim h [
      | inl here ↦ absurd (differ g x here other)
      | inr later ↦ (has_ngram_iff gs g).1 later
    ],
  )
]
  where
    differ : (g x : List Str) → g ≡ x → ngram_eq g x ≡ false → ⊥
    differ g x same other = ground (arith, ngram_eq_refl x, rw same at other)

-- A set has the items of its list.
In-distinct_iff : (g : List Str) (gs : List (List Str)) → In g (distinct_ngrams gs) ↔ In g gs
In-distinct_iff g [] = (λ h. h, λ h. h)
In-distinct_iff g (x ∷ gs) = elim (Bool-cases (has_ngram gs x)) [
  | inl twice ↦ rw twice (
    λ h. inr ((In-distinct_iff g gs).0 h),
    λ h. elim h [
      | inl here ↦
          (In-distinct_iff g gs).1 (subst (λ y. In y gs) (sym here) ((has_ngram_iff gs x).0 twice))
      | inr later ↦ (In-distinct_iff g gs).1 later
    ],
  )
  | inr once ↦ rw once (
    λ h. elim h [ inl here ↦ inl here | inr later ↦ inr ((In-distinct_iff g gs).0 later) ],
    λ h. elim h [ inl here ↦ inl here | inr later ↦ inr ((In-distinct_iff g gs).1 later) ],
  )
]

take-append : {A : Type 0} (n : ℕ) (xs ys : List A) → n ≤ length xs → take n (xs ++ ys) ≡ take n xs
take-append zero xs ys h = refl
take-append (suc n) [] ys h = absurd (omega arith)
take-append (suc n) (x ∷ xs) ys h = ap (λ zs. x ∷ zs) (take-append n xs ys (omega arith))

-- The word_windows of a part are word_windows of the whole.
In-windows_append :
    (n : ℕ) (g : List Str) (xs ys : List Str)
    → In g (word_windows n xs)
    → In g (word_windows n (xs ++ ys))
In-windows_append n g [] ys h = absurd h
In-windows_append n g (x ∷ xs) ys h = elim (Bool-cases (leb n (length (x ∷ xs)))) [
  | inl fits ↦
      let short = leb→le n (length (x ∷ xs)) fits in
      let longer = le→leb n (length (x ∷ (xs ++ ys))) (omega (arith, length-append xs ys)) in
      rw longer (elim (rw fits at h) [
        | inl here ↦ inl (here ∙ sym (take-append n (x ∷ xs) ys short))
        | inr later ↦ inr (In-windows_append n g xs ys later)
      ])
  | inr short ↦ absurd (rw short at h)
]

In-word_windows-le :
    (n : ℕ) (g : List Str) (xs : List Str) → In g (word_windows n xs) → n ≤ length xs
In-word_windows-le n g [] h = absurd h
In-word_windows-le n g (x ∷ xs) h = elim (Bool-cases (leb n (length (x ∷ xs)))) [
  | inl fits ↦ leb→le n (length (x ∷ xs)) fits
  | inr short ↦ absurd (rw short at h)
]

In-windows_behind :
    (n : ℕ) (g : List Str) (xs ys : List Str)
    → In g (word_windows n ys)
    → In g (word_windows n (xs ++ ys))
In-windows_behind n g [] ys h = h
In-windows_behind n g (x ∷ xs) ys h = elim (Bool-cases (leb n (length (x ∷ (xs ++ ys))))) [
  | inl fits ↦ rw fits (inr (In-windows_behind n g xs ys h))
  | inr short ↦ absurd (ground (arith, In-word_windows-le n g ys h, length-append xs ys))
]

length-filter_all :
    {A : Type 0} (p : A → Bool) (xs : List A) → ((x : A) → In x xs → p x ≡ true) → filter p xs ≡ xs
length-filter_all p [] h = refl
length-filter_all p (x ∷ xs) h =
    rw (h x (inl refl)) (ap (λ zs. x ∷ zs) (length-filter_all p xs (λ y m. h y (inr m))))

-- A text whose words contain those of the prompt in a row has all its n-grams.
overlap_count-quotation :
    (n : ℕ) (before source after : List Str)
    → overlap_count n source (before ++ (source ++ after))
      ≡ length (distinct_ngrams (word_windows n source))
unfolding overlap_count
overlap_count-quotation n before source after =
    let target = before ++ (source ++ after) in
    ap length (
      length-filter_all (has_ngram (distinct_ngrams (word_windows n target)))
        (distinct_ngrams (word_windows n source))
        (λ g m. (has_ngram_iff (distinct_ngrams (word_windows n target)) g).1 (
          (In-distinct_iff g (word_windows n target)).1 (
            In-windows_behind n g before (source ++ after) (
              In-windows_append n g source after
                ((In-distinct_iff g (word_windows n source)).0 m))))))

-- Laws of the arithmetic on which a full overlap rests: a positive count divided by itself is one.
abbrev pub DividesItself : (s : Single) → s.F32 → Type 0
DividesItself s one = (k : ℕ) → 0 < k → s.div32 (s.of_nat32 k) (s.of_nat32 k) ≡ one

-- A text that is long enough has an n-gram.
distinct_ngrams-positive :
    (n : ℕ) (source : List Str)
    → 0 < n
    → n ≤ length source
    → 0 < length (distinct_ngrams (word_windows n source))
distinct_ngrams-positive n [] np h = absurd (omega arith)
distinct_ngrams-positive n (w ∷ ws) np h =
    let first : In (take n (w ∷ ws)) (word_windows n (w ∷ ws)) =
      rw (le→leb n (length (w ∷ ws)) h) (inl refl) in
    positive_of_In (take n (w ∷ ws)) (distinct_ngrams (word_windows n (w ∷ ws)))
      ((In-distinct_iff (take n (w ∷ ws)) (word_windows n (w ∷ ws))).1 first)

compute_ngram_overlap-quotation :
    (s : Single) (one : s.F32) (n : ℕ) (before source after : List Str)
    → DividesItself s one
    → 0 < n
    → n ≤ length source
    → compute_ngram_overlap s source (before ++ (source ++ after)) n ≡ one
unfolding compute_ngram_overlap
compute_ngram_overlap-quotation s one n before source after self np long =
    let filled = distinct_ngrams-positive n source np long in
    let enough : ltb (length source) n ≡ false = ground arith in
    rw
      (
        enough,
        is_empty_of_positive (distinct_ngrams (word_windows n source)) filled,
        overlap_count-quotation n before source after,
      )
      (self (length (distinct_ngrams (word_windows n source))) filled)

words_of_empty : (u : Unicode) (t : Str) → 0 < length (split_whitespace u t) → is_empty t ≡ false
unfolding chars
words_of_empty u [] h = absurd (omega arith)
words_of_empty u (b ∷ t) h = refl

-- With the check of outputs turned on and a threshold that is a ratio below one, an answer in
-- which the words of the system prompt stand in a row, four or more, is reported as a leak, with
-- an overlap of one. Dividing a positive count by itself is taken to give one.
pub validate_output-quotation :
    (s : Single) (u : Unicode) (config : PromptGuardOptions s) (r : UnifiedRequest)
    (a : UnifiedResponse) (one : s.F32) (before after : List Str)
    → DividesItself s one
    → config.output_validation ≡ true
    → config.output_overlap_mode ≡ ratio
    → s.lt32 config.output_overlap_threshold one ≡ true
    → 4 ≤ length (split_whitespace u (system_message_text r))
    → split_whitespace u a.content ≡ before ++ (split_whitespace u (system_message_text r) ++ after)
    → validate_output s u config r a ≡ leak one config.output_overlap_threshold
unfolding validate_output
validate_output-quotation s u config r a one before after self on mode below long quoted =
    let words = split_whitespace u (system_message_text r) in
    let overlap : compute_ngram_overlap s words (split_whitespace u a.content) 4 ≡ one =
      rw quoted
        (compute_ngram_overlap-quotation s one 4 before words after self (omega arith) long) in
    rw (on, words_of_empty u (system_message_text r) (omega arith), mode, overlap, below) refl
