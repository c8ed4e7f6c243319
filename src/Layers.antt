-- ===== src/Layers.antt =====
-- The layers of crates/neurust-intel as layers of the pipeline: observability/budget_manager.rs,
-- observability/cost_tracker.rs and security/pii_masker.rs, over a state that they share with the
-- providers. A panic of a layer ends its call; here it is an error of the layer.
pub mod Accounting
pub mod Steps
use neu_rust.Prelude.{if◌then◌else◌, none, some, Option, Bool, ℕ, List, map}
use neu_rust.Prelude.Text.{Str, utf8}
use neu_rust.Prelude.Float.{Arithmetic}
use neu_rust.Prelude.Unicode.{Unicode}
use neu_rust.Contracts.{Value, UnifiedResponse}
use neu_rust.Observability.Budget
use neu_rust.Observability.Budget.{BudgetManagerConfig}
use neu_rust.Observability.Tracker.{track}
use neu_rust.Routing.Pipeline.{Layer}
use neu_rust.Routing.Provider.{Provider}
use neu_rust.Security.Masker
use neu_rust.Security.Masker.{PiiMasker}
use neu_rust.Stores.EventStore.{EventStore}

-- The spending in millionths of a dollar, the store of events, and the world behind the providers.
pub record Shared (E S : Type 0) : Type 0 where
  pub spend_micro : ℕ
  pub store : E
  pub world : S

-- A provider sees the world alone.
abbrev pub behind : {E S : Type 0} → Provider S → Provider (Shared E S)
behind p = record {
  name = p.name;
  supported_models = p.supported_models;
  complete = λ r s. let (a, world) = p.complete r s.world in (a, record s { world = world });
  complete_stream =
      λ r s. let (a, world) = p.complete_stream r s.world in (a, record s { world = world });
  health_check =
      λ s. let (health, world) = p.health_check s.world in (health, record s { world = world });
}

module _ {E S : Type 0} (ar : Arithmetic) where
  -- `refusal` is the text of the error, with the amount of the limit.
  abbrev pub budget_layer : BudgetManagerConfig → (refusal : Str) → Layer (Shared E S)
  budget_layer config refusal = record {
    name = utf8 "budget-manager";
    on_request = λ r s.
        let (r', allowed) = Budget.on_request ar config s.spend_micro r in
        (if allowed then none else some refusal, r', s);
    on_response =
        λ r a s. (none, a, record s { spend_micro = Budget.on_response ar config s.spend_micro a });
  }

  abbrev pub tracked :
      UnifiedResponse → Shared E S → Option E → Option Str × UnifiedResponse × Shared E S
  tracked a s none = (some (utf8 "store"), a, s)
  tracked a s (some t) = (none, a, record s { store = t })

  -- The tracker, at a time in milliseconds.
  abbrev pub tracker_layer : (as_bool : Value → Option Bool) → EventStore E → ℕ → Layer (Shared E S)
  tracker_layer as_bool store now = record {
    name = utf8 "cost-tracker";
    on_request = λ r s. (none, r, s);
    on_response = λ r a s. tracked a s (track ar as_bool store now r a s.store);
  }

  -- What a call of the masker leaves, by its result.
  abbrev pub masked : {A : Type 0} → A → Shared E S → Option A → Option Str × A × Shared E S
  masked x s none = (some (utf8 "panic"), x, s)
  masked x s (some y) = (none, y, s)

  abbrev pub masker_layer : Unicode → PiiMasker → Layer (Shared E S)
  masker_layer u masker = record {
    name = utf8 "pii-masker";
    on_request = λ r s. masked r s (Masker.on_request u ar masker r);
    on_response = λ r a s. masked a s (Masker.on_response u ar masker a);
  }
