-- ===== src/Tests/Configs.antt =====
-- The configuration at concrete inputs.
use chukrun.Base.{◌≡◌, refl, ◌↔◌, ◌≢◌, ◌⊎◌, false, none, some, str_eq, if◌then◌else◌}
use chukrun.Base.Int.{pos}
use chukrun.Errors.{GoError, nil}
use chukrun.Config.{ConfigData, Machine, get_default_config, validate, load_config, load_from_file}
use chukrun.Config.Validity.{IsConfig, validate_iff}
use chukrun.Config.Sources.{IsLayered, load_config_lem}

-- A machine with one variable set, no file, and texts that are in lower case already.
abbrev pub machine : Machine
machine = record {
  get_env = λ key. if str_eq key "RUNTIME_STARTUP_TIMEOUT" then "77" else "";
  atoi = λ s. if str_eq s "77" then some (pos 77) else none;
  to_lower = λ s. s;
  quote = λ s. s;
  has_suffix = λ s suffix. false;
  match_secret = λ s. false;
  replace_all = λ f s. s;
  open_file = λ path. nil;
  read_all = λ path. ("", nil);
  unmarshal_yaml = λ bytes cfg. (cfg, nil);
  unmarshal_json = λ bytes cfg. (cfg, nil);
}

validate_iff_example :
    (validate machine get_default_config ≡ nil) ↔ IsConfig machine get_default_config
validate_iff_example = validate_iff machine get_default_config

pub default_is_valid : validate machine get_default_config ≡ nil
unfolding validate get_default_config
default_is_valid = refl

load_config_lem_example :
    ((cfg : ConfigData) × (file : ConfigData) × (load_config machine "" none ≡ (some cfg, nil))
      × IsConfig machine cfg
      × (load_from_file machine "" get_default_config ≡ (file, nil))
      × IsLayered machine none file cfg.runtime)
    ⊎ ((err : GoError) × (load_config machine "" none ≡ (none, err)) × (err ≢ nil))
load_config_lem_example = load_config_lem machine "" none
