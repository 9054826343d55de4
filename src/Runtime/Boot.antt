-- ===== src/Runtime/Boot.antt =====
-- `Initialize` and `Restart` (core/runtime.go). Both run under the runtime's mutex. The context is
-- without a trace and only reaches the publications.
use chukrun.Base.{
  ℕ, String, Bool, true, false, not, List, [], ◌∷◌, Option, none, some, str_eq, if◌then◌else◌,
}
use chukrun.Base.Dict.{Dict}
use chukrun.Config.{ConfigData, Machine, load_config}
use chukrun.Errors.{GoError, nil, new_error, internal, is_nil}
use chukrun.Events.Bus.{
  Bus, Event, Payload, event, value, Delivery, delivered, send_on_closed, out_of_fuel, publish,
  new_in_process_event_bus,
}
use chukrun.Execution.Types.{null, other_value}
use chukrun.Execution.Manager.State.{new_execution_manager}
use chukrun.Execution.Registry.{Provider, Registry, register}
use chukrun.Lifecycle.{
  State, uninitialized, booting, ready, failed, same_state, transition, configure,
  check_restart_cooldown,
}
use chukrun.Middleware.Pipeline.{validate}
use chukrun.Telemetry.Logger.{Texts, parse_level}
use chukrun.Telemetry.Globals.{
  Globals, stdout_sink, file_sink, otlp_sink, set_log_level, register_log_sink, clear_log_sinks,
  set_debug_mode, set_global_sampling_rate, set_priority_override,
}
use chukrun.Runtime.Defs.{
  Engine, CoreRuntime, Host, built_in, Outcome, goes_on, returned, panicked, and_then,
}

-- The loop over the priority overrides of the configuration.
unfoldable pub override_priorities : (String → String) → Dict ℕ → Globals → Globals
override_priorities to_lower [] g = g
override_priorities to_lower ((k, rate) ∷ rest) g =
    override_priorities to_lower rest (set_priority_override to_lower k rate g)

-- One name of the loop over the sinks.
unfoldable pub register_sink : Host → Machine → ConfigData → String → Globals → Globals
register_sink h m cfg name g =
    let is_json = str_eq (m.to_lower cfg.logging.format) "json" in
    let path = cfg.logging.file_path in
    let endpoint = cfg.logging.otlp_endpoint in
    if str_eq (m.to_lower name) "stdout"
    then register_log_sink (stdout_sink is_json) g
    else if str_eq (m.to_lower name) "file"
    then if not (str_eq path "")
      then if h.opens path then register_log_sink (file_sink path is_json) g else g
      else g
    else if str_eq (m.to_lower name) "otlp"
    then if not (str_eq endpoint "") then register_log_sink (otlp_sink endpoint) g else g
    else g

unfoldable pub register_sinks : Host → Machine → ConfigData → List String → Globals → Globals
unfolding register_sink
register_sinks h m cfg [] g = g
register_sinks h m cfg (name ∷ names) g =
    register_sinks h m cfg names (register_sink h m cfg name g)

-- `configureLoggerAndTelemetry`.
unfoldable pub configure_logger_and_telemetry :
    Host → Machine → Texts → ConfigData → Globals → Globals
unfolding override_priorities register_sinks
configure_logger_and_telemetry h m t cfg g =
    let sampling = cfg.telemetry.tracing.sampling in
    let levelled = clear_log_sinks (set_log_level (parse_level t cfg.logging.level) g) in
    let sampled =
      set_global_sampling_rate sampling.default_rate (set_debug_mode cfg.debug_mode levelled) in
    register_sinks h m cfg cfg.logging.sinks
      (override_priorities m.to_lower sampling.priority_overrides sampled)

-- An event of the runtime: a type, a time, and a payload or none.
abbrev pub runtime_event : Host → ℕ → String → Payload → Event
runtime_event h n ty payload = event "" ty "" (some (h.clock n).now) payload "" ""

-- The loop over the providers: it stops at the first that `Register` refuses.
unfoldable pub register_all :
    {P : Type 0} → List (Option (Provider P)) → Registry P → Registry P × GoError
register_all [] reg = (reg, nil)
register_all (p ∷ ps) reg =
    let (reg', err) = register p reg in
    let rest = register_all ps reg' in if is_nil err then rest else (reg', err)

abbrev pub already_initialized : String
already_initialized = "runtime already initialized or initialization in progress"

abbrev pub not_failed : String
not_failed = "cannot restart: runtime is not in FAILED state"

-- The middlewares before the first one that is nil, and whether one is.
unfoldable pub leading : {A : Type 0} → List (Option A) → List A × Bool
leading [] = ([], false)
leading (none ∷ ms) = ([], true)
leading (some a ∷ ms) = let (before, stops) = leading ms in (a ∷ before, stops)

-- What is there, or what is made.
abbrev pub or_given : {A : Type 0} → A → Option A → A
or_given made none = made
or_given made (some a) = a

module _ {P S L T : Type 0} where
  abbrev pub delivery_on : CoreRuntime P S L T → Bus → Delivery → Outcome (CoreRuntime P S L T)
  delivery_on r bus (delivered made) =
      goes_on (record r { events = some (record bus { made = made }) })
  delivery_on r bus send_on_closed = panicked "send on closed channel" r
  delivery_on r bus out_of_fuel = Outcome.out_of_fuel r

  -- `_ = r.events.Publish(ctx, ...)`: its error is dropped, and a nil bus panics.
  unfoldable pub announce :
      Host → ℕ → String → Payload → CoreRuntime P S L T → Outcome (CoreRuntime P S L T)
  announce h n ty payload r = elim r.events [
    | none ↦ panicked "nil pointer dereference" r
    | some bus ↦
        delivery_on r bus (publish (h.clock n) h.fuel none (runtime_event h n ty payload) bus).1
  ]

  -- `if err := r.lifecycle.Transition(to); err != nil { return err }`.
  unfoldable pub move_to : ℕ → State → CoreRuntime P S L T → Outcome (CoreRuntime P S L T)
  move_to now to r =
      let (lm, err) = transition now to r.lifecycle in
      let r' = record r { lifecycle = lm } in if is_nil err then goes_on r' else returned err r'

  -- `_ = r.lifecycle.Transition(lifecycle.StateFailed); return err`.
  abbrev pub fail : ℕ → GoError → CoreRuntime P S L T → Outcome (CoreRuntime P S L T)
  fail now err r = returned err (record r { lifecycle = (transition now failed r.lifecycle).0 })

  -- `Shutdown` of the execution manager, where there is one: a channel is closed once.
  abbrev pub stop_of : CoreRuntime P S L T → Option Engine → Outcome (CoreRuntime P S L T)
  stop_of r none = goes_on r
  stop_of r (some e) =
      if e.loop_stopped
      then panicked "close of closed channel" r
      else goes_on (record r { execution = some (record e { loop_stopped = true }) })

  unfoldable pub stop_engine : CoreRuntime P S L T → Outcome (CoreRuntime P S L T)
  stop_engine r = stop_of r r.execution

  -- The parts that `Initialize` makes where there is none, and `Restart` in any case.
  abbrev pub keep_parts : CoreRuntime P S L T → CoreRuntime P S L T
  keep_parts r = record r {
    logger = some (or_given built_in r.logger);
    events = some (or_given new_in_process_event_bus r.events);
    telemetry = some (or_given built_in r.telemetry);
  }

  abbrev pub replace_parts : CoreRuntime P S L T → CoreRuntime P S L T
  replace_parts r = record r {
    logger = some built_in;
    events = some new_in_process_event_bus;
    telemetry = some built_in;
  }

  unfoldable pub register_providers : ℕ → CoreRuntime P S L T → Outcome (CoreRuntime P S L T)
  unfolding register_all
  register_providers now r =
      let (reg, err) = register_all r.providers [] in
      let r' = record r { registry = some reg } in
      if is_nil err then goes_on r' else fail now err r'

  -- `Validate` reads the middlewares in order, and a nil one panics.
  unfoldable pub set_pipeline : ℕ → CoreRuntime P S L T → Outcome (CoreRuntime P S L T)
  unfolding leading
  set_pipeline now r =
      let (mws, stops) = leading r.middlewares in
      let err = validate mws in
      if not (is_nil err)
      then fail now err r
      else if stops
      then panicked "nil pointer dereference" r
      else goes_on (record r { pipeline = some mws })

  abbrev pub start_engine : ConfigData → CoreRuntime P S L T → CoreRuntime P S L T
  start_engine cfg r =
      let limits = cfg.runtime.concurrency in
      record r {
        execution = some (record {
          manager = new_execution_manager r.lifecycle limits.global_limit limits.queue_size;
          loop_stopped = false;
        });
      }

  module _ (m : Machine) (t : Texts) (h : Host) where
    abbrev pub configured : ConfigData → CoreRuntime P S L T → CoreRuntime P S L T
    configured cfg r = record r {
      cfg = some cfg;
      lifecycle =
          configure cfg.lifecycle.restart_cooldown_ms cfg.lifecycle.accept_when_degraded
            r.lifecycle;
      globals = configure_logger_and_telemetry h m t cfg r.globals;
    }

    -- From "runtime.starting" to the end.
    unfoldable pub assemble_parts : ConfigData → CoreRuntime P S L T → Outcome (CoreRuntime P S L T)
    unfolding register_providers set_pipeline
    assemble_parts cfg r = and_then (announce h 1 "runtime.starting" (value null) r) (λ r1.
        and_then (register_providers (h.time 2) r1) (λ r2.
          and_then (set_pipeline (h.time 2) r2) (λ r3.
            and_then (move_to (h.time 3) ready (start_engine cfg r3)) (λ r4.
              and_then (announce h 4 "runtime.ready" (value null) r4) (λ r5. returned nil r5)))))

    -- What both calls do in BOOTING, with the parts as `parts` sets them.
    unfoldable pub load_and_assemble :
        (CoreRuntime P S L T → CoreRuntime P S L T)
        → CoreRuntime P S L T
        → Outcome (CoreRuntime P S L T)
    unfolding assemble_parts
    load_and_assemble parts r =
        let (loaded, err) = load_config m r.config_file r.overrides in
        if not (is_nil err) then fail (h.time 1) err r else elim loaded [
          | none ↦ panicked "nil pointer dereference" r
          | some cfg ↦ assemble_parts cfg (parts (configured cfg r))
        ]

    -- `Initialize`.
    unfoldable pub initialize : CoreRuntime P S L T → Outcome (CoreRuntime P S L T)
    unfolding load_and_assemble
    initialize r =
        if not (same_state r.lifecycle.state_val uninitialized)
        then returned (new_error internal already_initialized false nil) r
        else and_then (move_to (h.time 0) booting r) (load_and_assemble keep_parts)

    -- `Restart`.
    unfoldable pub restart : CoreRuntime P S L T → Outcome (CoreRuntime P S L T)
    unfolding load_and_assemble
    restart r =
        let (lm, err) = check_restart_cooldown (h.time 0) r.lifecycle in
        let checked = record r { lifecycle = lm } in
        let payload = value (other_value "reason: cooldown_active") in
        if not (same_state r.lifecycle.state_val failed)
        then returned (new_error internal not_failed false nil) r
        else if not (is_nil err)
        then and_then (announce h 0 "runtime.restart_rejected" payload checked)
            (λ r1. returned err r1)
        else and_then (announce h 0 "runtime.restart_requested" (value null) checked) (λ r1.
          and_then (move_to (h.time 0) booting r1)
            (λ r2. and_then (stop_engine r2) (load_and_assemble replace_parts)))
