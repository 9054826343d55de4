-- ===== src/Config/Check.antt =====
-- core/config/manager.go: the check of a configuration.
use chukrun.Base.{
  ℕ, suc, String, Bool, false, not, ◌&&◌, List, [], ◌∷◌, ◌++◌, str_eq, any, if◌then◌else◌,
}
use chukrun.Base.Int.{pos, leb_ℤ, ltb_ℤ}
use chukrun.Base.Text.{◌<>◌, join, show_ℕ, show_ℤ}
use chukrun.Errors.{GoError, nil, new_error, config}
use chukrun.Config.Defs.{ProviderConfig, ConfigData, Machine}

module _ (m : Machine) where
  -- An error of the check, where its condition holds.
  abbrev pub complain : Bool → String → List String
  complain bad message = if bad then message ∷ [] else []

  abbrev pub is_valid_level : String → Bool
  is_valid_level level = any (str_eq level) ("debug" ∷ "info" ∷ "warn" ∷ "error" ∷ "fatal" ∷ [])

  -- `validateRuntime`.
  unfoldable pub validate_runtime : ConfigData → List String → List String
  validate_runtime c errs =
      let rt = c.runtime in
      errs
      ++ (complain (not (is_valid_level (m.to_lower rt.log_level)))
            ("invalid log_level: " <> m.quote rt.log_level)
          ++ (complain (leb_ℤ rt.startup_timeout_ms (pos 0))
                ("startup_timeout_ms must be positive, got: " <> show_ℤ rt.startup_timeout_ms)
              ++ (complain (leb_ℤ rt.shutdown_timeout_ms (pos 0))
                    ("shutdown_timeout_ms must be positive, got: " <> show_ℤ rt.shutdown_timeout_ms)
                  ++ (complain (leb_ℤ rt.concurrency.global_limit (pos 0)) (
                        "global_limit must be positive, got: "
                        <> show_ℤ rt.concurrency.global_limit)
                      ++ complain (ltb_ℤ rt.concurrency.queue_size (pos 0)) (
                          "queue_size must be non-negative, got: "
                          <> show_ℤ rt.concurrency.queue_size)))))

  -- `validateLifecycle`.
  unfoldable pub validate_lifecycle : ConfigData → List String → List String
  validate_lifecycle c errs =
      errs
      ++ complain (leb_ℤ c.lifecycle.restart_cooldown_ms (pos 0))
          ("restart_cooldown_ms must be positive, got: " <> show_ℤ c.lifecycle.restart_cooldown_ms)

  -- The loop of `validateProviders`, from the index `i`.
  unfoldable pub validate_each : ℕ → List ProviderConfig → List String
  validate_each i [] = []
  validate_each i (p ∷ rest) =
      let at = "provider[" <> (show_ℕ i <> "]") in
      complain (str_eq p.name "") (at <> ".name cannot be empty")
      ++ (complain (str_eq p.kind "") (at <> ".type cannot be empty")
          ++ (complain (m.match_secret p.api_key) (
                at
                <> (" API key secret placeholder "
                    <> (m.quote p.api_key <> " could not be resolved")))
              ++ validate_each (suc i) rest))

  unfoldable pub validate_providers : ConfigData → List String → List String
  unfolding validate_each
  validate_providers c errs = errs ++ validate_each 0 c.providers

  -- `validateDebugMode`.
  unfoldable pub validate_debug_mode : ConfigData → List String → List String
  validate_debug_mode c errs =
      errs
      ++ complain
          (c.debug_mode
            && (str_eq (m.to_lower c.runtime.environment) "production"
                && not c.debug_mode_acknowledge_production_risk))
          ("debug mode is enabled in production environment without acknowledgment of risk "
            <> "(debug_mode_acknowledge_production_risk: true)")

  abbrev pub report : List String → GoError
  report [] = nil
  report (e ∷ errs) =
      new_error config ("configuration validation failed: " <> join "; " (e ∷ errs)) false nil

  -- `Validate`.
  unfoldable pub validate : ConfigData → GoError
  unfolding validate_runtime validate_lifecycle validate_providers validate_debug_mode
  validate c =
      report (
        validate_debug_mode c (validate_providers c (validate_lifecycle c (validate_runtime c []))))
