-- ===== src/Runtime/Defs.antt =====
-- The runtime's state (core/runtime.go), its construction (core/bootstrap.go), and what a call of it
-- can end in. The kinds of providers (`P`), of the state that middlewares share (`S`), of loggers
-- (`L`) and of telemetries (`T`) are the caller's. A pointer that may be nil is an Option. The
-- lifecycle manager is one object, which the engine shares: the runtime's field is that object, and
-- stands for the engine's.
use chukrun.Base.{ℕ, String, Bool, List, [], ◌∷◌, ◌++◌, Option, none, some}
use chukrun.Config.{ConfigData}
use chukrun.Errors.{GoError}
use chukrun.Events.Bus.{Bus, Clock}
use chukrun.Execution.Manager.State.{ExecutionManager}
use chukrun.Execution.Registry.{Provider, Registry}
use chukrun.Lifecycle.{LifecycleManager, new_lifecycle_manager}
use chukrun.Middleware.Types.{Middleware}
use chukrun.Middleware.Pipeline.{Pipeline}
use chukrun.Telemetry.Globals.{Globals}

-- The execution manager with its channel `shutdownChan`: `loop_stopped` once it was closed, when
-- `schedulerLoop` returns.
pub record Engine : Type 0 where
  pub manager : ExecutionManager
  pub loop_stopped : Bool

-- A part that the caller chose, or the one that the runtime makes.
pub data Part (A : Type 0) : Type 0 where
  custom : A → Part A
  built_in : Part A

pub record CoreRuntime (P S L T : Type 0) : Type 0 where
  pub cfg : Option ConfigData
  pub config_file : String
  pub overrides : Option ConfigData
  pub lifecycle : LifecycleManager
  pub execution : Option Engine
  pub registry : Option (Registry P)
  pub pipeline : Option (Pipeline S)
  pub events : Option Bus
  pub logger : Option (Part L)
  pub telemetry : Option (Part T)
  pub providers : List (Option (Provider P))
  pub middlewares : List (Option (Middleware S))
  pub globals : Globals

-- What a call finds around it: the clock at each reading, the identifiers of the events that it
-- publishes, a bound on the dead letters that a publication may cause and
-- which log files open.
pub record Host : Type 0 where
  pub time : ℕ → ℕ
  pub clock : ℕ → Clock
  pub fuel : ℕ
  pub opens : String → Bool

-- How far a call is, or what it has ended in, with the runtime that it leaves.
pub data Outcome (R : Type 0) : Type 0 where
  goes_on : R → Outcome R
  returned : GoError → R → Outcome R
  panicked : String → R → Outcome R
  out_of_fuel : R → Outcome R
  still_draining : R → Outcome R

-- The statements after one that lets the call go on.
abbrev pub and_then : {R : Type 0} → Outcome R → (R → Outcome R) → Outcome R
and_then (goes_on r) next = next r
and_then (returned err r) next = returned err r
and_then (panicked why r) next = panicked why r
and_then (out_of_fuel r) next = out_of_fuel r
and_then (still_draining r) next = still_draining r

-- The runtime that a call leaves.
abbrev pub left : {R : Type 0} → Outcome R → R
left (goes_on r) = r
left (returned err r) = r
left (panicked why r) = r
left (out_of_fuel r) = r
left (still_draining r) = r

module _ (P S L T : Type 0) where
  -- `Option`, by its constructors `WithConfigFile`, `WithConfigOverrides`, `WithLogger`,
  -- `WithTelemetry`, `WithProvider` and `WithMiddleware`.
  pub data RuntimeOption : Type 0 where
    with_config_file : String → RuntimeOption
    with_config_overrides : Option ConfigData → RuntimeOption
    with_logger : Option L → RuntimeOption
    with_telemetry : Option T → RuntimeOption
    with_provider : Option (Provider P) → RuntimeOption
    with_middleware : Option (Middleware S) → RuntimeOption

abbrev pub chosen : {A : Type 0} → Option A → Option (Part A)
chosen none = none
chosen (some a) = some (custom a)

module _ {P S L T : Type 0} where
  unfoldable pub apply_option : RuntimeOption P S L T → CoreRuntime P S L T → CoreRuntime P S L T
  apply_option (with_config_file path) r = record r { config_file = path }
  apply_option (with_config_overrides overrides) r = record r { overrides = overrides }
  apply_option (with_logger logger) r = record r { logger = chosen logger }
  apply_option (with_telemetry tel) r = record r { telemetry = chosen tel }
  apply_option (with_provider p) r = record r { providers = r.providers ++ p ∷ [] }
  apply_option (with_middleware m) r = record r { middlewares = r.middlewares ++ m ∷ [] }

  unfoldable pub apply_options :
      List (RuntimeOption P S L T) → CoreRuntime P S L T → CoreRuntime P S L T
  apply_options [] r = r
  apply_options (opt ∷ opts) r = apply_options opts (apply_option opt r)

  abbrev pub bare_runtime : ℕ → Globals → CoreRuntime P S L T
  bare_runtime now globals = record {
    cfg = none;
    config_file = "";
    overrides = none;
    lifecycle = new_lifecycle_manager now;
    execution = none;
    registry = none;
    pipeline = none;
    events = none;
    logger = none;
    telemetry = none;
    providers = [];
    middlewares = [];
    globals = globals;
  }

  -- `NewRuntime`.
  unfoldable pub new_runtime : ℕ → Globals → List (RuntimeOption P S L T) → CoreRuntime P S L T
  unfolding apply_options
  new_runtime now globals opts = apply_options opts (bare_runtime now globals)
