-- ===== src/Config/Defs.antt =====
-- core/config/manager.go: the types of the configuration, and the defaults.
use chukrun.Base.{ℕ, String, Bool, true, false, List, [], ◌∷◌, ◌%◌, ◌==◌, Option}
use chukrun.Base.Int.{ℤ, pos, half64}
use chukrun.Base.Dict.{Dict}
use chukrun.Errors.{GoError}

pub record ConcurrencyConfig : Type 0 where
  pub global_limit : ℤ
  pub queue_size : ℤ

pub record RuntimeConfig : Type 0 where
  pub environment : String
  pub log_level : String
  pub startup_timeout_ms : ℤ
  pub shutdown_timeout_ms : ℤ
  pub concurrency : ConcurrencyConfig

pub record ProviderConfig : Type 0 where
  pub name : String
  pub kind : String
  pub api_key : String
  pub timeout_ms : ℤ

pub record MiddlewareConfig : Type 0 where
  pub order : List String

pub record LifecycleConfig : Type 0 where
  pub restart_cooldown_ms : ℤ
  pub accept_when_degraded : Bool
  pub expose_internal_errors : Bool

pub record LoggingRedactionConfig : Type 0 where
  pub enabled : Bool

pub record LoggingConfig : Type 0 where
  pub level : String
  pub format : String
  pub sinks : List String
  pub file_path : String
  pub otlp_endpoint : String
  pub redaction : LoggingRedactionConfig

pub record TracingSamplingConfig : Type 0 where
  pub default_rate : ℕ
  pub priority_overrides : Dict ℕ

pub record TracingConfig : Type 0 where
  pub exporter : String
  pub endpoint : String
  pub sampling : TracingSamplingConfig

pub record MetricsConfig : Type 0 where
  pub exporter : String
  pub endpoint : String

pub record TelemetryConfig : Type 0 where
  pub metrics : MetricsConfig
  pub tracing : TracingConfig

pub record ConfigData : Type 0 where
  pub runtime : RuntimeConfig
  pub lifecycle : LifecycleConfig
  pub providers : List ProviderConfig
  pub middleware : MiddlewareConfig
  pub logging : LoggingConfig
  pub telemetry : TelemetryConfig
  pub debug_mode : Bool
  pub debug_mode_acknowledge_production_risk : Bool

-- `GetDefaultConfig`. The bits are those of 0.1, 1 and 0.5.
unfoldable pub get_default_config : ConfigData
get_default_config = record {
  runtime = record {
    environment = "development";
    log_level = "info";
    startup_timeout_ms = pos 10000;
    shutdown_timeout_ms = pos 15000;
    concurrency = record { global_limit = pos 10000; queue_size = pos 5000 };
  };
  lifecycle = record {
    restart_cooldown_ms = pos 1000;
    accept_when_degraded = true;
    expose_internal_errors = false;
  };
  providers = [];
  middleware = record { order = "logging" ∷ "metrics" ∷ [] };
  logging = record {
    level = "info";
    format = "json";
    sinks = "stdout" ∷ [];
    file_path = "";
    otlp_endpoint = "";
    redaction = record { enabled = true };
  };
  telemetry = record {
    metrics = record { exporter = "prometheus"; endpoint = ":9090" };
    tracing = record {
      exporter = "otlp";
      endpoint = "https://collector.internal:4317";
      sampling = record {
        default_rate = 4591870180066957722;
        priority_overrides = ("critical", 4607182418800017408) ∷ ("high", 4602678819172646912) ∷ [];
      };
    };
  };
  debug_mode = false;
  debug_mode_acknowledge_production_risk = false;
}

-- `x == 0` for a `float64` of these bits: both zeros.
abbrev pub is_zero_float : ℕ → Bool
is_zero_float bits = bits % half64 == 0

-- What the code calls. `get_env` gives "" for a variable that is not set, `atoi` nothing on an
-- error, `replace_all` applies a function to each match of the secret's pattern and its key.
pub record Machine : Type 0 where
  pub get_env : String → String
  pub atoi : String → Option ℤ
  pub to_lower : String → String
  pub quote : String → String
  pub has_suffix : String → String → Bool
  pub match_secret : String → Bool
  pub replace_all : (String → String → String) → String → String
  pub open_file : String → GoError
  pub read_all : String → String × GoError
  pub unmarshal_yaml : String → ConfigData → ConfigData × GoError
  pub unmarshal_json : String → ConfigData → ConfigData × GoError
