-- ===== src/Tests/Runtimes.antt =====
-- The runtime at concrete inputs.
use chukrun.Base.{ℕ, ◌≡◌, refl, inl, true, false, [], ◌∷◌, none, some}
use chukrun.Base.Int.{pos}
use chukrun.Config.{Machine, get_default_config, load_config, load_from_file}
use chukrun.Config.Validity.{validate_iff}
use chukrun.Errors.{GoError, nil, plain_error, new_error, config}
use chukrun.Events.Bus.{new_in_process_event_bus}
use chukrun.Context.Priority.{normal}
use chukrun.Execution.Scheduler.{enqueue, new_priority_scheduler}
use chukrun.Execution.Manager.State.{ExecRef, ExecutionManager, active_count, new_execution_manager}
use chukrun.Lifecycle.{
  State, LifecycleManager, ready, failed, booting, stopped, new_lifecycle_manager,
  check_restart_cooldown,
}
use chukrun.Telemetry.Logger.{Texts}
use chukrun.Telemetry.Globals.{initial_globals}
use chukrun.Runtime.Defs.{
  Engine, CoreRuntime, Host, returned, panicked, left, with_config_file, apply_options,
  apply_option, new_runtime,
}
use chukrun.Middleware.Pipeline
use chukrun.Runtime.Boot.{register_all, initialize, restart}
use chukrun.Runtime.Serve.{tick, shutdown}
use chukrun.Runtime.Steps.{nil_pointer, closed_channel}
use chukrun.Runtime.Booting.{Booted, IsUp, initialize-Booted}
use chukrun.Runtime.Stuck.{failed_load_panics, second_restart_panics}
use chukrun.Runtime.Abandoning.{queued_are_abandoned}
use chukrun.Runtime.Calls.{made, after, initializes}
use chukrun.Runtime.Sound.{IsSound, Reached-IsSound}
use chukrun.Tests.Configs.{machine, default_is_valid}

-- A machine on which no file opens.
abbrev no_files : Machine
no_files = record machine { open_file = λ path. plain_error "no such file" }

abbrev texts : Texts
texts = record { to_lower = λ s. s; contains = λ s part. false }

abbrev host : Host
host = record {
  time = λ n. 5;
  clock = λ n. record { now = pos 5; fresh_id = "evt-1" };
  fuel = 0;
  opens = λ path. true;
}

abbrev Plain : Type 0
Plain = CoreRuntime ℕ ℕ ℕ ℕ

abbrev fresh : Plain
fresh = new_runtime 3 initial_globals []

abbrev with_file : Plain
with_file = new_runtime 3 initial_globals (with_config_file "app.yaml" ∷ [])

initialize-Booted_example : Booted machine fresh.execution (initialize machine texts host fresh)
unfolding new_runtime apply_options new_lifecycle_manager
initialize-Booted_example = initialize-Booted machine texts host fresh refl tt

Reached-IsSound_example : IsSound machine (left (initialize machine texts host fresh))
Reached-IsSound_example =
    Reached-IsSound machine texts
      (after fresh (left (initialize machine texts host fresh)) made (initializes host))

-- The engine of a runtime that has failed, and the runtime.
abbrev lifecycle_in : State → LifecycleManager
lifecycle_in s = record (new_lifecycle_manager 3) { state_val = s }

abbrev engine : Engine
engine = record {
  manager = new_execution_manager (lifecycle_in ready) (pos 2) (pos 10);
  loop_stopped = false;
}

-- The manager with an execution in its queue.
abbrev queued_ref : ExecRef
queued_ref = record {
  address = 0;
  id = "exec-1";
  provider_ref = "openai-primary";
  priority = normal;
}

abbrev with_queue : ExecutionManager
with_queue = record engine.manager {
  scheduler = enqueue (λ r. r.priority) queued_ref new_priority_scheduler;
}

abbrev in_state : State → Plain
in_state s = record with_file {
  lifecycle = lifecycle_in s;
  cfg = some get_default_config;
  registry = some [];
  pipeline = some [];
  events = some new_in_process_event_bus;
  execution = some engine;
}

abbrev load_error : GoError
load_error =
    new_error config "failed to open config file: app.yaml" false (plain_error "no such file")

cannot_load : load_config no_files "app.yaml" none ≡ (none, load_error)
unfolding load_config load_from_file
cannot_load = refl

failed_load_panics_example :
    (r1 : Plain) × (initialize no_files texts host with_file ≡ returned load_error r1)
    × (r1.lifecycle.state_val ≡ failed)
    × ((h' : Host)
        → (r2 : Plain) × (restart no_files texts h' r1 ≡ panicked nil_pointer r2)
          × (r2.lifecycle.state_val ≡ failed)
          × (r2.events ≡ none))
unfolding new_runtime apply_options new_lifecycle_manager apply_option
failed_load_panics_example =
    failed_load_panics no_files texts host with_file load_error refl refl cannot_load (λ e. cc)

second_restart_panics_example :
    (r1 : Plain) × (restart no_files texts host (in_state failed) ≡ returned load_error r1)
    × (r1.lifecycle.state_val ≡ failed)
    × ((h' : Host)
        → (check_restart_cooldown (h'.time 0) r1.lifecycle).1 ≡ nil
        → (r2 : Plain) × (restart no_files texts h' r1 ≡ panicked closed_channel r2)
          × (r2.lifecycle.state_val ≡ booting))
unfolding new_runtime apply_options new_lifecycle_manager apply_option new_in_process_event_bus
    check_restart_cooldown
second_restart_panics_example =
    second_restart_panics no_files texts host (in_state failed) new_in_process_event_bus engine
      load_error refl refl refl refl refl cannot_load (λ e. cc) refl

default-IsUp : IsUp machine (in_state ready)
unfolding new_runtime apply_options apply_option register_all Pipeline.validate
default-IsUp = record {
  config = get_default_config;
  configures = refl;
  valid = (validate_iff machine get_default_config).0 default_is_valid;
  bus = new_in_process_event_bus;
  publishes = refl;
  reg = [];
  registers = refl;
  registered = refl;
  mws = [];
  given = refl;
  wraps = refl;
  checked = refl;
  engine = engine;
  runs = refl;
  loops = refl;
}

queued_are_abandoned_example :
    (r' : Plain) × (shutdown host (tick with_queue ∷ []) (in_state ready) ≡ returned nil r')
    × (r'.lifecycle.state_val ≡ stopped)
    × (r'.execution ≡ some (record { manager = with_queue; loop_stopped = true }))
unfolding new_in_process_event_bus active_count new_execution_manager
queued_are_abandoned_example =
    queued_are_abandoned host machine (in_state ready) with_queue [] (inl refl) default-IsUp refl
      refl
