-- ===== src/Gateway/Auth.antt =====
-- Authentication: middleware/auth.rs, and `AuthManager` of crates/neurust-core/src/auth/mod.rs.
pub mod Laws
pub mod Manager
use neu_rust.Prelude.{
  ◌∷◌, ◌&&◌, ◌||◌, ◌==◌, if◌then◌else◌, [], none, some, List, Option, ℕ, Bool, get_or, is_empty,
  reverse, get_elem?, leb, min, length, ltb, not,
}
use mathlib.Core.Option
use neu_rust.Prelude.Text.{Str, str_eq, strip_prefix, utf8}
use neu_rust.Prelude.Unicode.{is_char_boundary}

pub record ApiKeyEntry : Type 0 where
  pub key : Str
  pub name : Str
  pub rate_limit : Option ℕ

pub record ClientIdentity : Type 0 where
  pub name : Str
  pub rate_limit : Option ℕ

-- The parts of a request that the middleware reads: the path, and the two headers as far as they
-- are text (`to_str` succeeds).
pub record HttpRequest : Type 0 where
  pub path : Str
  pub authorization : Option Str
  pub x_api_key : Option Str

-- Blanks that `trim` takes off; a header's text has no others.
abbrev pub is_blank : ℕ → Bool
is_blank c = (c == 32) || (leb 9 c && leb c 13)

abbrev pub trim_start : Str → Str
trim_start [] = []
trim_start (c ∷ s) = if is_blank c then trim_start s else c ∷ s

abbrev pub trim : Str → Str
trim s = reverse (trim_start (reverse (trim_start s)))

abbrev pub bearer : Option Str → Option Str
bearer none = none
bearer (some value) = strip_prefix value (utf8 "Bearer ")

unfoldable pub extract_token : HttpRequest → Option Str
extract_token q = elim (bearer q.authorization) [
  | some token ↦ some (trim token)
  | none ↦ Option.map trim q.x_api_key
]

-- The loop over all keys; the last that is equal stays.
unfoldable pub match_key : List ApiKeyEntry → Str → Option ApiKeyEntry → Option ApiKeyEntry
match_key [] t matched = matched
match_key (k ∷ ks) t matched = match_key ks t (if str_eq k.key t then some k else matched)

pub data Verdict : Type 0 where
  pass : Option ClientIdentity → Verdict
  unauthorized : Str → Verdict

abbrev pub is_open_path : Str → Bool
is_open_path p =
    str_eq p (utf8 "/health/live")
    || (str_eq p (utf8 "/health/ready") || str_eq p (utf8 "/metrics"))

abbrev pub identity : ApiKeyEntry → ClientIdentity
identity k = record { name = k.name; rate_limit = k.rate_limit }

abbrev pub invalid_key : Str
invalid_key = utf8 "Invalid API key. Check your authentication credentials."

abbrev pub missing_key : Str
missing_key =
    utf8 "Missing API key. Provide via 'Authorization: Bearer <key>' or 'x-api-key' header."

-- Whether the request goes on, and the identity that it carries then.
unfoldable pub auth_middleware : Option (List ApiKeyEntry) → HttpRequest → Verdict
unfolding match_key
auth_middleware configured q =
    let keys = get_or configured [] in
    if is_empty keys
    then pass none
    else if is_open_path q.path
    then pass none
    else elim (extract_token q) [
      | none ↦ unauthorized missing_key
      | some t ↦ elim (match_key keys t none) [
        | some k ↦ pass (some (identity k))
        | none ↦ unauthorized invalid_key
      ]
    ]

-- `AuthManager::validate_key`. The warning of a refusal slices the key at byte 4, or at its end if
-- it is shorter: a panic, if that is inside a character. The level of the logging is taken to let
-- warnings through; else the slice is not made.
pub data Validation : Type 0 where
  valid : Str → Validation
  invalid : Validation
  panicked : Validation

unfoldable pub validate_key : List ApiKeyEntry → Str → Validation
unfolding match_key
validate_key keys key =
    if is_empty keys then valid (utf8 "anonymous") else elim (match_key keys key none) [
      | some k ↦ valid k.name
      | none ↦ if is_char_boundary key (min (length key) 4) then invalid else panicked
    ]
