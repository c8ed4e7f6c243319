-- ===== src/Gateway/Auth/Laws.antt =====
-- Who gets through.
use neu_rust.Prelude.{
  ◌≡◌, ◌∷◌, ◌||◌, ◌↔◌, ◌⊎◌, if◌then◌else◌, [], arith, inl, true, false, some, Bool, List, Option,
  is_empty, In, is_some, any, inr, none, Option-cases, Bool-cases, min, length,
}
use neu_rust.Gateway.Auth.{
  Verdict, auth_middleware, match_key, ApiKeyEntry, pass, HttpRequest, unauthorized, ClientIdentity,
  is_open_path, extract_token, identity, validate_key, valid, is_char_boundary, invalid, panicked,
}
use neu_rust.Prelude.Text.{Str, str_eq, str_eq_iff, utf8}

match_key-eq-some :
    (keys : List ApiKeyEntry) (t : Str) (start : Option ApiKeyEntry) (k : ApiKeyEntry)
    → match_key keys t start ≡ some k
    → (start ≡ some k) ⊎ (In k keys × (k.key ≡ t))
unfolding match_key
match_key-eq-some [] t start k h = inl h
match_key-eq-some (x ∷ keys) t start k h = ground (
  arith,
  match_key-eq-some keys t (if str_eq x.key t then some x else start) k h,
  str_eq_iff x.key t,
)

match_key-is_some :
    (keys : List ApiKeyEntry) (t : Str) (start : Option ApiKeyEntry)
    → is_some (match_key keys t start) ≡ (is_some start || any (λ k. str_eq k.key t) keys)
unfolding match_key
match_key-is_some [] t start = ground arith
match_key-is_some (x ∷ keys) t start =
    ground (arith, match_key-is_some keys t (if str_eq x.key t then some x else start))

abbrev pub is_pass : Verdict → Bool
is_pass (pass who) = true
is_pass (unauthorized message) = false

-- A request gets through with an identity only if its token is the key of a configured entry with
-- that name and limit.
pub auth_middleware-genuine :
    (keys : List ApiKeyEntry) (q : HttpRequest) (who : ClientIdentity)
    → auth_middleware (some keys) q ≡ pass (some who)
    → (k : ApiKeyEntry) × In k keys × (extract_token q ≡ some k.key) × (who ≡ identity k)
unfolding auth_middleware
auth_middleware-genuine keys q who h = elim (Option-cases (extract_token q)) [
  | inl missing ↦ absurd (ground arith)
  | inr (t, found) ↦ elim (Option-cases (match_key keys t none)) [
    | inl refused ↦ absurd (ground arith)
    | inr (k, matched) ↦ elim (match_key-eq-some keys t none k matched) [
      | inl start ↦ absurd (ground arith)
      | inr (listed, same) ↦ (k, listed, ground arith, ground arith)
    ]
  ]
]

-- With keys configured, a request gets through exactly if it asks for one of the three open paths
-- or carries a configured key.
pub auth_middleware-pass_iff :
    (keys : List ApiKeyEntry) (q : HttpRequest)
    → is_empty keys ≡ false
    → (is_pass (auth_middleware (some keys) q) ≡ true) ↔ (
        (is_open_path q.path ≡ true)
        ⊎ ((t : Str) × (extract_token q ≡ some t) × (any (λ k. str_eq k.key t) keys ≡ true)))
unfolding auth_middleware
auth_middleware-pass_iff keys q some_key = elim (Option-cases (extract_token q)) [
  | inl missing ↦ (λ h. ground arith, λ h. ground arith)
  | inr (t, found) ↦
      let known = match_key-is_some keys t none in
      (
        λ h. elim (Bool-cases (is_open_path q.path)) [
          | inl open_path ↦ inl open_path
          | inr closed ↦ inr (t, found, ground arith)
        ],
        λ h. ground arith,
      )
]

-- `validate_key` of the manager: with no keys configured everybody is "anonymous"; otherwise a
-- configured key gives the name of an entry with that key, and any other key is invalid or, if its
-- fourth byte ends inside a character, a panic, where warnings are logged.
pub validate_key-cases :
    (keys : List ApiKeyEntry) (key : Str)
    → ((is_empty keys ≡ true) × (validate_key keys key ≡ valid (utf8 "anonymous")))
      ⊎ ((k : ApiKeyEntry) × In k keys × (k.key ≡ key) × (validate_key keys key ≡ valid k.name))
      ⊎ ((is_empty keys ≡ false)
          × (any (λ k. str_eq k.key key) keys ≡ false)
          × (validate_key keys key
              ≡ (if is_char_boundary key (min (length key) 4) then invalid else panicked)))
unfolding validate_key
validate_key-cases keys key = elim (Bool-cases (is_empty keys)) [
  | inl none_set ↦ inl (none_set, ground arith)
  | inr some_set ↦ inr (elim (Option-cases (match_key keys key none)) [
    | inl refused ↦ inr (some_set, ground (arith, match_key-is_some keys key none), ground arith)
    | inr (k, matched) ↦ elim (match_key-eq-some keys key none k matched) [
      | inl start ↦ absurd (ground arith)
      | inr (listed, same) ↦ inl (k, listed, same, ground arith)
    ]
  ])
]
