-- ===== src/Config/Overrides.antt =====
-- core/config/manager.go: the values of the process environment and of the code. A list is a value: in
-- the code the configuration shares its list of providers with the overrides it was taken from.
use chukrun.Base.{String, Bool, not, ◌&&◌, List, [], ◌∷◌, Option, none, some, str_eq, if◌then◌else◌}
use chukrun.Base.Int.{ℤ, pos, eqb_ℤ}
use chukrun.Config.Defs.{LifecycleConfig, ConfigData, is_zero_float, Machine}

-- A value that another one replaces unless that is the zero value.
abbrev pub text_or : String → String → String
text_or kept new = if str_eq new "" then kept else new

abbrev pub int_or : ℤ → ℤ → ℤ
int_or kept new = if eqb_ℤ new (pos 0) then kept else new

abbrev pub list_or {ℓ} : {A : Type ℓ} → List A → List A → List A
list_or kept [] = kept
list_or kept (x ∷ xs) = x ∷ xs

module _ (m : Machine) where
  -- `InterpolateSecrets`.
  unfoldable pub interpolate_secrets : String → String
  interpolate_secrets =
      m.replace_all (λ whole key. if str_eq (m.get_env key) "" then whole else m.get_env key)

  -- `getEnvInt`, of the value that the variable replaces.
  unfoldable pub get_env_int : String → Option ℤ
  get_env_int key = if str_eq (m.get_env key) "" then none else m.atoi (m.get_env key)

  abbrev env_text : String → String → String
  env_text key kept = text_or kept (m.get_env key)

  abbrev pub or_kept : ℤ → Option ℤ → ℤ
  or_kept kept none = kept
  or_kept kept (some n) = n

  abbrev env_bool : String → Bool → Bool
  env_bool key kept =
      if str_eq (m.get_env key) "" then kept else str_eq (m.to_lower (m.get_env key)) "true"

  -- `overrideFromEnv`.
  unfoldable pub override_from_env : ConfigData → ConfigData
  unfolding get_env_int
  override_from_env cfg =
      let rt = cfg.runtime in
      let lc = cfg.lifecycle in
      record cfg {
        runtime = record {
          environment = env_text "RUNTIME_ENVIRONMENT" rt.environment;
          log_level = env_text "RUNTIME_LOG_LEVEL" rt.log_level;
          startup_timeout_ms =
              or_kept rt.startup_timeout_ms (get_env_int "RUNTIME_STARTUP_TIMEOUT");
          shutdown_timeout_ms =
              or_kept rt.shutdown_timeout_ms (get_env_int "RUNTIME_SHUTDOWN_TIMEOUT");
          concurrency = record {
            global_limit = or_kept rt.concurrency.global_limit (get_env_int "RUNTIME_GLOBAL_LIMIT");
            queue_size = or_kept rt.concurrency.queue_size (get_env_int "RUNTIME_QUEUE_SIZE");
          };
        };
        lifecycle = record {
          restart_cooldown_ms =
              or_kept lc.restart_cooldown_ms (get_env_int "LIFECYCLE_RESTART_COOLDOWN");
          accept_when_degraded = env_bool "LIFECYCLE_ACCEPT_WHEN_DEGRADED" lc.accept_when_degraded;
          expose_internal_errors =
              env_bool "LIFECYCLE_EXPOSE_INTERNAL_ERRORS" lc.expose_internal_errors;
        };
        debug_mode = env_bool "RUNTIME_DEBUG_MODE" cfg.debug_mode;
        debug_mode_acknowledge_production_risk =
            env_bool "RUNTIME_DEBUG_MODE_ACKNOWLEDGE_PRODUCTION_RISK"
              cfg.debug_mode_acknowledge_production_risk;
      }

-- `applyRuntimeOverrides`.
unfoldable pub apply_runtime_overrides : ConfigData → ConfigData → ConfigData
apply_runtime_overrides cfg over =
    let rt = cfg.runtime in
    let new = over.runtime in
    record cfg {
      runtime = record {
        environment = text_or rt.environment new.environment;
        log_level = text_or rt.log_level new.log_level;
        startup_timeout_ms = int_or rt.startup_timeout_ms new.startup_timeout_ms;
        shutdown_timeout_ms = int_or rt.shutdown_timeout_ms new.shutdown_timeout_ms;
        concurrency = record {
          global_limit = int_or rt.concurrency.global_limit new.concurrency.global_limit;
          queue_size = int_or rt.concurrency.queue_size new.concurrency.queue_size;
        };
      };
    }

abbrev is_zero_lifecycle : LifecycleConfig → Bool
is_zero_lifecycle lc =
    eqb_ℤ lc.restart_cooldown_ms (pos 0)
    && (not lc.accept_when_degraded && not lc.expose_internal_errors)

-- `applyLifecycleOverrides`.
unfoldable pub apply_lifecycle_overrides : ConfigData → ConfigData → ConfigData
apply_lifecycle_overrides cfg over =
    let lc = over.lifecycle in
    record cfg {
      lifecycle = if is_zero_lifecycle lc then cfg.lifecycle else record lc {
        restart_cooldown_ms = int_or cfg.lifecycle.restart_cooldown_ms lc.restart_cooldown_ms;
      };
      providers = list_or cfg.providers over.providers;
      middleware = record { order = list_or cfg.middleware.order over.middleware.order };
    }

-- `applyLoggingOverrides`.
unfoldable pub apply_logging_overrides : ConfigData → ConfigData → ConfigData
apply_logging_overrides cfg over =
    let lg = cfg.logging in
    let new = over.logging in
    record cfg {
      logging = record {
        level = text_or lg.level new.level;
        format = text_or lg.format new.format;
        sinks = list_or lg.sinks new.sinks;
        file_path = text_or lg.file_path new.file_path;
        otlp_endpoint = text_or lg.otlp_endpoint new.otlp_endpoint;
        redaction = record { enabled = new.redaction.enabled };
      };
    }

-- `applyTelemetryOverrides`.
unfoldable pub apply_telemetry_overrides : ConfigData → ConfigData → ConfigData
apply_telemetry_overrides cfg over =
    let kept = cfg.telemetry in
    let new = over.telemetry in
    let rate = new.tracing.sampling.default_rate in
    record cfg {
      telemetry = record {
        metrics = record {
          exporter = text_or kept.metrics.exporter new.metrics.exporter;
          endpoint = text_or kept.metrics.endpoint new.metrics.endpoint;
        };
        tracing = record {
          exporter = text_or kept.tracing.exporter new.tracing.exporter;
          endpoint = text_or kept.tracing.endpoint new.tracing.endpoint;
          sampling = record {
            default_rate = if is_zero_float rate then kept.tracing.sampling.default_rate else rate;
            priority_overrides =
                list_or kept.tracing.sampling.priority_overrides
                  new.tracing.sampling.priority_overrides;
          };
        };
      };
    }

-- `applyCodeOverrides`.
unfoldable pub apply_code_overrides : ConfigData → Option ConfigData → ConfigData
unfolding apply_runtime_overrides apply_lifecycle_overrides apply_logging_overrides
    apply_telemetry_overrides
apply_code_overrides cfg none = cfg
apply_code_overrides cfg (some over) =
    record (apply_telemetry_overrides
      (apply_logging_overrides (apply_lifecycle_overrides (apply_runtime_overrides cfg over) over)
        over)
      over) {
        debug_mode = over.debug_mode;
        debug_mode_acknowledge_production_risk = over.debug_mode_acknowledge_production_risk;
      }
