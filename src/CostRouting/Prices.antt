-- ===== src/CostRouting/Prices.antt =====
-- The prices of the models, router/price_db.rs. The file is read elsewhere; its models are given.
use mathlib.Core.Option
use neu_rust.Prelude.{◌∷◌, [], List, ℕ, Option, length}
use neu_rust.Prelude.Keys.{text_eq, nat_eq}
use neu_rust.Prelude.Maps
use neu_rust.Prelude.Float.{Arithmetic, F64}
use neu_rust.Prelude.Text.{Str, utf8}

pub record ModelPrice : Type 0 where
  pub input_per_1k : F64
  pub output_per_1k : F64
  pub provider : Str

pub record RawModelEntry : Type 0 where
  pub provider : Str
  pub input_per_1m_tokens : F64
  pub output_per_1m_tokens : F64
  pub context_window : Option ℕ

abbrev pub PriceDb : Type 0
PriceDb = List (Str × ModelPrice)

abbrev pub price : Str → F64 → F64 → ModelPrice
price provider input output = record {
  input_per_1k = input;
  output_per_1k = output;
  provider = provider;
}

-- `load`, given the models of the file.
unfoldable pub load_prices : Arithmetic → List (Str × RawModelEntry) → PriceDb
load_prices ar [] = []
load_prices ar ((name, entry) ∷ models) =
    (
      name,
      price entry.provider (ar.div entry.input_per_1m_tokens 0x408f400000000000)
          (ar.div entry.output_per_1m_tokens 0x408f400000000000),
    )
    ∷ load_prices ar models

abbrev pub load_embedded : PriceDb
load_embedded =
    (utf8 "gpt-4o", price (utf8 "openai") 0x3f647ae147ae147b 0x3f847ae147ae147b)
    ∷ (utf8 "gpt-4o-mini", price (utf8 "openai") 0x3f23a92a30553261 0x3f43a92a30553261)
    ∷ (utf8 "gpt-4.1", price (utf8 "openai") 0x3f60624dd2f1a9fc 0x3f80624dd2f1a9fc)
    ∷ (utf8 "gpt-4.1-mini", price (utf8 "openai") 0x3f3a36e2eb1c432d 0x3f5a36e2eb1c432d)
    ∷ (utf8 "gpt-4.1-nano", price (utf8 "openai") 0x3f1a36e2eb1c432d 0x3f3a36e2eb1c432d)
    ∷ (utf8 "claude-opus-4-6", price (utf8 "anthropic") 0x3f8eb851eb851eb8 0x3fb3333333333333)
    ∷ (
      utf8 "claude-sonnet-4-20250514",
      price (utf8 "anthropic") 0x3f689374bc6a7efa 0x3f8eb851eb851eb8,
    )
    ∷ (
      utf8 "claude-haiku-4-5-20251001",
      price (utf8 "anthropic") 0x3f4a36e2eb1c432d 0x3f70624dd2f1a9fc,
    )
    ∷ []

unfoldable pub get_price : PriceDb → Str → Option ModelPrice
get_price db model = Maps.lookup model db

unfoldable pub estimate_cost : Arithmetic → PriceDb → Str → ℕ → ℕ → Option F64
unfolding get_price
estimate_cost ar db model input_tokens output_tokens =
    Option.map
      (λ p.
        ar.add (ar.mul (ar.div (ar.of_nat input_tokens) 0x408f400000000000) p.input_per_1k)
          (ar.mul (ar.div (ar.of_nat output_tokens) 0x408f400000000000) p.output_per_1k))
      (get_price db model)

abbrev pub price_count : PriceDb → ℕ
price_count db = length db
