-- ===== src/Telemetry/Globals.antt =====
-- The settings of the process that core/telemetry keeps in global variables: the debug mode, the
-- sampling rates and the choice of traces (telemetry.go), the log level and the sinks (logger.go).
-- A rate is the 64 bits of its `float64`. A sink is its kind with its settings: what `Write` does is
-- left out, and `Close` changes nothing but the file of a file sink.
use chukrun.Base.{
  ℕ, ◌+◌, ◌^◌, String, Bool, true, false, ◌&&◌, ◌||◌, List, [], ◌∷◌, ◌++◌, Option, none, some, ltb,
  leb, if◌then◌else◌,
}
use chukrun.Base.Dict.{Dict, lookup, insert}
use chukrun.Config.{is_zero_float}
use chukrun.Telemetry.Logger.{LogLevel, level_info}

pub data Sink : Type 0 where
  stdout_sink : Bool → Sink
  file_sink : String → Bool → Sink
  otlp_sink : String → Sink

pub record Globals : Type 0 where
  pub log_level : LogLevel
  pub sinks : List Sink
  pub debug_mode : Bool
  pub sample_rate : ℕ
  pub priority_overrides : Dict ℕ

-- The bits of 1, and of the infinity above every number.
abbrev pub one_bits : ℕ
one_bits = 4607182418800017408

abbrev pub infinity_bits : ℕ
infinity_bits = 9218868437227405312

abbrev sign_bit : ℕ
sign_bit = 2 ^ 63

-- The variables as the process starts.
abbrev pub initial_globals : Globals
initial_globals = record {
  log_level = level_info;
  sinks = [];
  debug_mode = false;
  sample_rate = 4591870180066957722;
  priority_overrides = ("critical", one_bits) ∷ ("high", 4602678819172646912) ∷ [];
}

abbrev pub set_log_level : LogLevel → Globals → Globals
set_log_level level g = record g { log_level = level }

-- `RegisterLogSink`.
abbrev pub register_log_sink : Sink → Globals → Globals
register_log_sink sink g = record g { sinks = g.sinks ++ sink ∷ [] }

-- `ClearLogSinks`.
abbrev pub clear_log_sinks : Globals → Globals
clear_log_sinks g = record g { sinks = [] }

-- `SetDebugMode`.
abbrev pub set_debug_mode : Bool → Globals → Globals
set_debug_mode enabled g = record g { debug_mode = enabled }

-- `SetGlobalSamplingRate`.
abbrev pub set_global_sampling_rate : ℕ → Globals → Globals
set_global_sampling_rate rate g = record g { sample_rate = rate }

-- `SetPriorityOverride`; `strings.ToLower` is a parameter.
abbrev pub set_priority_override : (String → String) → String → ℕ → Globals → Globals
set_priority_override to_lower priority rate g = record g {
  priority_overrides = insert (to_lower priority) rate g.priority_overrides;
}

-- `GetPriorityOverride`.
abbrev pub get_priority_override : (String → String) → String → Globals → Option ℕ
get_priority_override to_lower priority g = lookup (to_lower priority) g.priority_overrides

-- `rate >= 1.0`, `rate <= 0.0` and `draw < rate` of a draw that is not negative. A rate that is not a
-- number passes none of them.
abbrev pub at_least_one : ℕ → Bool
at_least_one bits = leb one_bits bits && leb bits infinity_bits

abbrev pub at_most_zero : ℕ → Bool
at_most_zero bits = is_zero_float bits || (leb sign_bit bits && leb bits (sign_bit + infinity_bits))

abbrev pub is_below : ℕ → ℕ → Bool
is_below draw bits = ltb draw bits && leb bits infinity_bits

-- The rate of the priority, if it has one.
abbrev pub or_rate : ℕ → Option ℕ → ℕ
or_rate rate none = rate
or_rate rate (some r) = r

-- `shouldSampleTrace`, of the priority of the context and the random number that it would draw.
unfoldable pub should_sample_trace : (String → String) → String → ℕ → Globals → Bool
should_sample_trace to_lower priority draw g =
    let rate = or_rate g.sample_rate (get_priority_override to_lower priority g) in
    if g.debug_mode
    then true
    else if at_least_one rate
    then true
    else if at_most_zero rate
    then false
    else is_below draw rate
