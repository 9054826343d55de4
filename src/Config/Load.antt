-- ===== src/Config/Load.antt =====
-- core/config/manager.go: `LoadConfig`.
use chukrun.Base.{String, false, not, ◌||◌, Option, none, some, map, str_eq, if◌then◌else◌}
use chukrun.Base.Text.{◌<>◌}
use chukrun.Errors.{GoError, nil, new_error, config, is_nil}
use chukrun.Config.Defs.{ProviderConfig, ConfigData, get_default_config, Machine}
use chukrun.Config.Overrides.{override_from_env, interpolate_secrets, apply_code_overrides}
use chukrun.Config.Check.{validate}

module _ (m : Machine) where
  -- `loadFromFile`.
  unfoldable pub load_from_file : String → ConfigData → ConfigData × GoError
  load_from_file path cfg =
      let err = m.open_file path in
      let (bytes, read_err) = m.read_all path in
      let (from_yaml, yaml_err) = m.unmarshal_yaml bytes cfg in
      let (from_json, json_err) = m.unmarshal_json bytes cfg in
      if str_eq path ""
      then (cfg, nil)
      else if not (is_nil err)
      then (cfg, new_error config ("failed to open config file: " <> path) false err)
      else if not (is_nil read_err)
      then (cfg, new_error config "failed to read config file" false read_err)
      else if m.has_suffix path ".yaml" || m.has_suffix path ".yml"
      then if is_nil yaml_err
        then (from_yaml, nil)
        else (from_yaml, new_error config "failed to parse YAML config file" false yaml_err)
      else if is_nil json_err
      then (from_json, nil)
      else (from_json, new_error config "failed to parse JSON config file" false json_err)

  -- The loop of `LoadConfig` over the providers.
  unfoldable pub interpolate_providers : ConfigData → ConfigData
  interpolate_providers cfg = record cfg {
    providers =
        map {A = ProviderConfig} (λ p. record p { api_key = interpolate_secrets m p.api_key })
          cfg.providers;
  }

  -- What `LoadConfig` builds from what the file left, before the check.
  abbrev pub assemble : Option ConfigData → ConfigData → ConfigData
  assemble over cfg = interpolate_providers (apply_code_overrides (override_from_env m cfg) over)

  -- `LoadConfig`.
  unfoldable pub load_config : String → Option ConfigData → Option ConfigData × GoError
  load_config path over =
      let (from_file, err) = load_from_file path get_default_config in
      let cfg = assemble over from_file in
      let bad = validate m cfg in
      if not (is_nil err) then (none, err) else if is_nil bad then (some cfg, nil) else (none, bad)
