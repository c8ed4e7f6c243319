-- ===== src/StartUp/Config.antt =====
-- The sections of the configuration file, contracts.rs of the core crate, as they are after reading.
use neu_rust.Prelude.{List, Bool, Option, ℕ}
use neu_rust.Prelude.Text.{Str}
use neu_rust.Prelude.Float.{F64}
use neu_rust.CostRouting.Auctioneer.{CostRouterConfig}
use neu_rust.Gateway.Auth.{ApiKeyEntry}
use neu_rust.Routing.Provider.{ProviderConfig}

pub record ServerConfig : Type 0 where
  pub address : Str
  pub graceful_shutdown_sec : Option ℕ
  pub max_stream_buffer_tokens : Option ℕ

pub record CacheWarmingConfig : Type 0 where
  pub enabled : Bool
  pub dump_path : Option Str
  pub dump_interval_sec : Option ℕ
  pub max_warm_entries : Option ℕ

pub record ExactCacheConfig : Type 0 where
  pub enabled : Bool
  pub max_entries : Option ℕ
  pub ttl_sec : Option ℕ
  pub warming : Option CacheWarmingConfig

pub record SemanticCacheConfig : Type 0 where
  pub enabled : Bool
  pub similarity_threshold : Option F64
  pub eviction : Option Str
  pub multiturn_strategy : Option Str

pub record TieredCacheConfig : Type 0 where
  pub exact_cache : Option ExactCacheConfig
  pub semantic_cache : Option SemanticCacheConfig

pub record IntelligenceConfig : Type 0 where
  pub tiered_cache : Option TieredCacheConfig
  pub cost_router : Option CostRouterConfig

pub record PiiConfig : Type 0 where
  pub enabled : Bool
  pub detection_level : Option Str
  pub direction : Option Str
  pub min_window_tokens : Option Str

-- The threshold is the 32 bits of a float.
pub record PromptGuardConfig : Type 0 where
  pub input_scanning : Option Bool
  pub role_boundary : Option Bool
  pub output_validation : Option Bool
  pub output_overlap_mode : Option Str
  pub output_overlap_threshold : Option ℕ

pub record SecurityConfig : Type 0 where
  pub pii_masking : Option PiiConfig
  pub prompt_guard : Option PromptGuardConfig

pub record StoreConfig : Type 0 where
  pub store_type : Option Str
  pub sqlite_path : Option Str
  pub postgres_url : Option Str

pub record CostForecasterConfig : Type 0 where
  pub enabled : Bool
  pub confidence_interval : Option F64
  pub forecast_horizon_days : Option ℕ

pub record ObservabilityConfig : Type 0 where
  pub store : Option StoreConfig
  pub cost_forecaster : Option CostForecasterConfig

pub record JwtConfig : Type 0 where
  pub secret_env : Str
  pub issuer : Option Str

pub record AuthConfig : Type 0 where
  pub api_keys : Option (List ApiKeyEntry)
  pub jwt : Option JwtConfig

pub record NeuRustConfig : Type 0 where
  pub server : ServerConfig
  pub providers : List ProviderConfig
  pub intelligence : Option IntelligenceConfig
  pub security : Option SecurityConfig
  pub observability : Option ObservabilityConfig
  pub auth : Option AuthConfig
