-- ===== src/Config/Sources.antt =====
-- Where the values of a loaded configuration come from (core/config/manager.go).
use chukrun.Base.{
  subst, ◌∙◌, ◌≡◌, ◌≢◌, refl, sym, ap, ◌⊎◌, inl, inr, String, List, [], ◌∷◌, Option, none, some,
  arith, str_eq, if◌then◌else◌,
}
use mathlib.Core.Option.{some-injective}
use chukrun.Base.Int.{ℤ, pos, eqb_ℤ}
use chukrun.Errors.{nil_cases, GoError, nil}
use chukrun.Config.{
  RuntimeConfig, ConfigData, Machine, text_or, int_or, or_kept, get_env_int, override_from_env,
  apply_code_overrides, apply_runtime_overrides, apply_lifecycle_overrides, apply_logging_overrides,
  apply_telemetry_overrides, interpolate_providers, assemble, load_from_file, validate, load_config,
  get_default_config,
}
use chukrun.Config.Validity.{IsConfig, validate_iff}

-- The value of the first source that gives one.
abbrev pub first_given {ℓ} : {A : Type ℓ} → List (Option A) → A → A
first_given [] last = last
first_given (none ∷ sources) last = first_given sources last
first_given (some a ∷ sources) last = a

-- What a text or a number gives: nothing when it is the zero value.
abbrev pub given_text : String → Option String
given_text s = if str_eq s "" then none else some s

abbrev pub given_int : ℤ → Option ℤ
given_int n = if eqb_ℤ n (pos 0) then none else some n

abbrev pub code_runtime {ℓ} :
    {A : Type ℓ} → (RuntimeConfig → Option A) → Option ConfigData → Option A
code_runtime read none = none
code_runtime read (some over) = read over.runtime

-- Every setting of the runtime comes from the code, else from the process environment, else from
-- the configuration `file`.
abbrev pub IsLayered : Machine → Option ConfigData → ConfigData → RuntimeConfig → Type 0
IsLayered m over file rt =
    (rt.environment
      ≡ first_given
          (code_runtime (λ r. given_text r.environment) over
            ∷ given_text (m.get_env "RUNTIME_ENVIRONMENT")
            ∷ [])
          file.runtime.environment)
    × (rt.log_level
        ≡ first_given
            (code_runtime (λ r. given_text r.log_level) over
              ∷ given_text (m.get_env "RUNTIME_LOG_LEVEL")
              ∷ [])
            file.runtime.log_level)
    × (rt.startup_timeout_ms
        ≡ first_given
            (code_runtime (λ r. given_int r.startup_timeout_ms) over
              ∷ get_env_int m "RUNTIME_STARTUP_TIMEOUT"
              ∷ [])
            file.runtime.startup_timeout_ms)
    × (rt.shutdown_timeout_ms
        ≡ first_given
            (code_runtime (λ r. given_int r.shutdown_timeout_ms) over
              ∷ get_env_int m "RUNTIME_SHUTDOWN_TIMEOUT"
              ∷ [])
            file.runtime.shutdown_timeout_ms)
    × (rt.concurrency.global_limit
        ≡ first_given
            (code_runtime (λ r. given_int r.concurrency.global_limit) over
              ∷ get_env_int m "RUNTIME_GLOBAL_LIMIT"
              ∷ [])
            file.runtime.concurrency.global_limit)
    × (rt.concurrency.queue_size
        ≡ first_given
            (code_runtime (λ r. given_int r.concurrency.queue_size) over
              ∷ get_env_int m "RUNTIME_QUEUE_SIZE"
              ∷ [])
            file.runtime.concurrency.queue_size)

layered_text :
    (file env code : String)
    → text_or (text_or file env) code ≡ first_given (given_text code ∷ given_text env ∷ []) file
layered_text file env code = ground arith

layered_env_text :
    (file env : String) → text_or file env ≡ first_given (none ∷ given_text env ∷ []) file
layered_env_text file env = ground arith

layered_int :
    (m : Machine) (file code : ℤ) (env : Option ℤ)
    → int_or (or_kept m file env) code ≡ first_given (given_int code ∷ env ∷ []) file
layered_int m file code none = ground arith
layered_int m file code (some n) = ground arith

layered_env_int :
    (m : Machine) (file : ℤ) (env : Option ℤ)
    → or_kept m file env ≡ first_given (none ∷ env ∷ []) file
layered_env_int m file none = refl
layered_env_int m file (some n) = refl

assemble-IsLayered :
    (m : Machine) (over : Option ConfigData) (file : ConfigData)
    → IsLayered m over file (ConfigData.runtime (assemble m over file))
unfolding override_from_env apply_code_overrides interpolate_providers apply_runtime_overrides
    apply_lifecycle_overrides apply_logging_overrides apply_telemetry_overrides
assemble-IsLayered m none file = (
  layered_env_text file.runtime.environment (m.get_env "RUNTIME_ENVIRONMENT"),
  layered_env_text file.runtime.log_level (m.get_env "RUNTIME_LOG_LEVEL"),
  layered_env_int m file.runtime.startup_timeout_ms (get_env_int m "RUNTIME_STARTUP_TIMEOUT"),
  layered_env_int m file.runtime.shutdown_timeout_ms (get_env_int m "RUNTIME_SHUTDOWN_TIMEOUT"),
  layered_env_int m file.runtime.concurrency.global_limit (get_env_int m "RUNTIME_GLOBAL_LIMIT"),
  layered_env_int m file.runtime.concurrency.queue_size (get_env_int m "RUNTIME_QUEUE_SIZE"),
)
assemble-IsLayered m (some over) file = (
  layered_text file.runtime.environment (m.get_env "RUNTIME_ENVIRONMENT") over.runtime.environment,
  layered_text file.runtime.log_level (m.get_env "RUNTIME_LOG_LEVEL") over.runtime.log_level,
  layered_int m file.runtime.startup_timeout_ms over.runtime.startup_timeout_ms
      (get_env_int m "RUNTIME_STARTUP_TIMEOUT"),
  layered_int m file.runtime.shutdown_timeout_ms over.runtime.shutdown_timeout_ms
      (get_env_int m "RUNTIME_SHUTDOWN_TIMEOUT"),
  layered_int m file.runtime.concurrency.global_limit over.runtime.concurrency.global_limit
      (get_env_int m "RUNTIME_GLOBAL_LIMIT"),
  layered_int m file.runtime.concurrency.queue_size over.runtime.concurrency.queue_size
      (get_env_int m "RUNTIME_QUEUE_SIZE"),
)

loaded :
    (m : Machine) (path : String) (over : Option ConfigData)
    → ((cfg : ConfigData) × (file : ConfigData) × (load_config m path over ≡ (some cfg, nil))
        × (validate m cfg ≡ nil)
        × (load_from_file m path get_default_config ≡ (file, nil))
        × (cfg ≡ assemble m over file))
      ⊎ ((err : GoError) × (load_config m path over ≡ (none, err)) × (err ≢ nil))
unfolding load_config
loaded m path over =
    let read = load_from_file m path get_default_config in
    let cfg = assemble m over read.0 in
    elim (nil_cases read.1) [
      | inr (failed, bad) ↦ inr (read.1, rw failed refl, bad)
      | inl (fine, no_err) ↦ elim (nil_cases (validate m cfg)) [
        | inl (valid, no_bad) ↦ inl (cfg, read.0, rw (fine, valid) refl, no_bad, cc, refl)
        | inr (invalid, bad) ↦ inr (validate m cfg, rw (fine, invalid) refl, bad)
      ]
    ]

-- Loading ends in a valid configuration and no error, or in an error and no configuration. In the
-- configuration every setting of the runtime is that of the code's overrides unless it is zero
-- there, else that of the process environment if it is set and a number where one is needed, else
-- that of the file, or of the defaults where the file says nothing.
pub load_config_lem :
    (m : Machine) (path : String) (over : Option ConfigData)
    → ((cfg : ConfigData) × (file : ConfigData) × (load_config m path over ≡ (some cfg, nil))
        × IsConfig m cfg
        × (load_from_file m path get_default_config ≡ (file, nil))
        × IsLayered m over file cfg.runtime)
      ⊎ ((err : GoError) × (load_config m path over ≡ (none, err)) × (err ≢ nil))
load_config_lem m path over = elim (loaded m path over) [
  | inr failed ↦ inr failed
  | inl (cfg, file, e, valid, read, built) ↦ inl (
    cfg,
    file,
    e,
    (validate_iff m cfg).0 valid,
    read,
    subst (λ c. IsLayered m over file (ConfigData.runtime c)) (sym built)
        (assemble-IsLayered m over file),
  )
]

flags_of_code :
    (m : Machine) (over file : ConfigData)
    → (ConfigData.debug_mode (assemble m (some over) file) ≡ over.debug_mode)
      × ((assemble m (some over) file).logging.redaction.enabled ≡ over.logging.redaction.enabled)
unfolding override_from_env apply_code_overrides interpolate_providers apply_runtime_overrides
    apply_lifecycle_overrides apply_logging_overrides apply_telemetry_overrides
flags_of_code m over file = (refl, refl)

-- Overrides that are given by the code decide debug mode and the redaction of the logs in every
-- configuration that is loaded, whatever the environment, the file and the defaults say: overrides
-- that leave these out turn both off.
pub code_decides_flags :
    (m : Machine) (path : String) (over cfg : ConfigData)
    → load_config m path (some over) ≡ (some cfg, nil)
    → (cfg.debug_mode ≡ over.debug_mode)
      × (cfg.logging.redaction.enabled ≡ over.logging.redaction.enabled)
code_decides_flags m path over cfg e = elim (loaded m path (some over)) [
  | inr (err, e', bad) ↦ absurd (bad (sym (ap (λ q. q.1) (sym e ∙ e'))))
  | inl (cfg', file, e', valid, read, built) ↦
      let same : cfg ≡ assemble m (some over) file =
        some-injective _ _ (ap (λ q. q.0) (sym e ∙ e')) ∙ built in
      subst
        (λ c.
          (ConfigData.debug_mode c ≡ over.debug_mode)
          × (c.logging.redaction.enabled ≡ over.logging.redaction.enabled))
        (sym same) (flags_of_code m over file)
]
