-- ===== src/Security/Guard/Laws.antt =====
-- What the guard lets through.
use neu_rust.Prelude.{
  if◌then◌else◌, true, false, inl, inr, Bool-cases, arith, refl, ◌≡◌, ◌∷◌, ◌++◌, ◌↔◌, [], Bool,
  List, All, ap, ◌&&◌, ◌⊎◌, any, sym,
}
use neu_rust.Security.Guard.{
  clean, injection, role_violation, ScanResult, scan, role_loop, check_role_boundary, scan_input,
  PromptGuardOptions, is_suspicious, normalize_for_detection, injection_patterns,
}
use neu_rust.Contracts.{Message, UnifiedRequest, is_system, is_user}
use neu_rust.Prelude.Unicode.{Unicode}
use neu_rust.Prelude.Float.{Single}
use mathlib.Core.Path.{subst}
use neu_rust.Prelude.Text.{contains}

abbrev IsOther : Message → Type 0
IsOther m = is_system m.role ≡ false

-- System messages, if any, come first.
abbrev pub SystemsFirst : List Message → Type 0
SystemsFirst ms =
    (systems : List Message) × ((others : List Message) × ((ms ≡ systems ++ others)
        × (All (λ m. is_system m.role ≡ true) systems
            × All (λ m. is_system m.role ≡ false) others)))

-- Which result is the clean one.
abbrev is_clean : ScanResult → Bool
is_clean clean = true
is_clean injection = false
is_clean role_violation = false

role_loop_seen : (ms : List Message) → (is_clean (role_loop true ms) ≡ true) ↔ All IsOther ms
unfolding role_loop
role_loop_seen [] = (λ h. tt, λ h. refl)
role_loop_seen (m ∷ ms) = elim (Bool-cases (is_system m.role)) [
  | inl leads ↦ rw (leads, role_loop) (ground arith)
  | inr other ↦ rw (other, role_loop) (ground (arith, role_loop_seen ms))
]

role_loop-SystemsFirst :
    (ms : List Message) → is_clean (role_loop false ms) ≡ true → SystemsFirst ms
unfolding role_loop
role_loop-SystemsFirst [] h = ([], ([], (refl, (tt, tt))))
role_loop-SystemsFirst (m ∷ ms) h = elim (Bool-cases (is_system m.role)) [
  | inl leads ↦
      let (systems, (others, (same, (all_systems, all_others)))) =
        role_loop-SystemsFirst ms (rw (leads, role_loop) at h) in
      (m ∷ systems, (others, (ap (λ xs. m ∷ xs) same, ((leads, all_systems), all_others))))
  | inr other ↦
      ([], (m ∷ ms, (refl, (tt, (other, (role_loop_seen ms).0 (rw (other, role_loop) at h))))))
]

SystemsFirst-role_loop :
    (systems others : List Message)
    → All (λ m. is_system m.role ≡ true) systems
    → All IsOther others
    → is_clean (role_loop false (systems ++ others)) ≡ true
unfolding role_loop
SystemsFirst-role_loop [] [] h k = refl
SystemsFirst-role_loop [] (m ∷ ms) h k = rw (k.0, role_loop) ((role_loop_seen ms).1 k.1)
SystemsFirst-role_loop (m ∷ ms) others h k =
    rw (h.0, role_loop) (SystemsFirst-role_loop ms others h.1 k)

is_clean_iff : (x : ScanResult) → (is_clean x ≡ true) ↔ (x ≡ clean)
is_clean_iff clean = (λ h. refl, λ h. refl)
is_clean_iff injection = (λ h. absurd (ground arith), λ h. ap is_clean h)
is_clean_iff role_violation = (λ h. absurd (ground arith), λ h. ap is_clean h)

any-eq-false_iff :
    {A : Type 0} (p : A → Bool) (xs : List A) → (any p xs ≡ false) ↔ All (λ x. p x ≡ false) xs
any-eq-false_iff p [] = (λ h. tt, λ h. refl)
any-eq-false_iff p (x ∷ xs) = ground (arith, any-eq-false_iff p xs)

and-eq-false_iff : (a b : Bool) → ((a && b) ≡ false) ↔ ((a ≡ false) ⊎ (b ≡ false))
and-eq-false_iff true b = ground arith
and-eq-false_iff false b = ground arith

-- A message that is not of a user, or in which no pattern stands once it is normalized.
abbrev pub IsInnocent : Unicode → Message → Type 0
IsInnocent u m =
    (is_user m.role ≡ false)
    ⊎ All (λ p. contains (normalize_for_detection u m.content) p ≡ false) injection_patterns

IsInnocent-iff : (u : Unicode) (m : Message) → (is_suspicious u m ≡ false) ↔ IsInnocent u m
IsInnocent-iff u m =
    let seen = contains (normalize_for_detection u m.content) in
    let (to, from) = and-eq-false_iff (is_user m.role) (any seen injection_patterns) in
    let (each, none_of) = any-eq-false_iff seen injection_patterns in
    (
      λ h. elim (to h) [ inl role ↦ inl role | inr absent ↦ inr (each absent) ],
      λ h. elim h [ inl role ↦ from (inl role) | inr absent ↦ from (inr (none_of absent)) ],
    )

scan_input_iff :
    (u : Unicode) (ms : List Message) → (is_clean (scan_input u ms) ≡ true) ↔ All (IsInnocent u) ms
unfolding scan_input
scan_input_iff u [] = (λ h. tt, λ h. refl)
scan_input_iff u (m ∷ ms) = elim (Bool-cases (is_suspicious u m)) [
  | inl bad ↦ (λ h. absurd (ground arith), λ h. absurd (ground (arith, (IsInnocent-iff u m).1 h.0)))
  | inr fine ↦ rw fine (
    λ h. ((IsInnocent-iff u m).0 fine, (scan_input_iff u ms).0 h),
    λ h. (scan_input_iff u ms).1 h.1,
  )
]

check_role_boundary_iff :
    (r : UnifiedRequest) → (is_clean (check_role_boundary r) ≡ true) ↔ SystemsFirst r.messages
unfolding check_role_boundary
check_role_boundary_iff r = (
  role_loop-SystemsFirst r.messages,
  λ (systems, (others, (same, (h, k)))).
      subst (λ ms. is_clean (role_loop false ms) ≡ true) (sym same)
        (SystemsFirst-role_loop systems others h k),
)

two_checks :
    (a b : Bool) (x y : ScanResult)
    → (is_clean (
          if a
          then elim x [ clean ↦ (if b then y else clean) | failed ↦ failed ]
          else (if b then y else clean))
        ≡ true)
      ↔ (((a ≡ false) ⊎ (is_clean x ≡ true)) × ((b ≡ false) ⊎ (is_clean y ≡ true)))
two_checks true true clean y = ground arith
two_checks true true injection y = ground arith
two_checks true true role_violation y = ground arith
two_checks true false clean y = ground arith
two_checks true false injection y = ground arith
two_checks true false role_violation y = ground arith
two_checks false true x y = ground arith
two_checks false false x y = ground arith

either : {A B C : Type 0} → (B → C) → A ⊎ B → A ⊎ C
either f (inl a) = inl a
either f (inr b) = inr (f b)

-- The scan passes a request exactly if, as far as the checks are turned on, none of the patterns
-- stands in the normalized text of a message of a user, and the system messages come first.
pub scan-eq-clean_iff :
    (s : Single) (u : Unicode) (config : PromptGuardOptions s) (r : UnifiedRequest)
    → (scan s u config r ≡ clean) ↔ (
        ((config.input_scanning ≡ false) ⊎ All (IsInnocent u) r.messages)
        × ((config.role_boundary ≡ false) ⊎ SystemsFirst r.messages))
unfolding scan
scan-eq-clean_iff s u config r =
    let (parts, whole) =
      two_checks config.input_scanning config.role_boundary (scan_input u r.messages)
        (check_role_boundary r) in
    let (result, clear) = is_clean_iff (scan s u config r) in
    let (input, innocent) = scan_input_iff u r.messages in
    let (roles, first) = check_role_boundary_iff r in
    (
      λ h. let (a, b) = parts (clear h) in (either input a, either roles b),
      λ (a, b). result (whole (either innocent a, either first b)),
    )
