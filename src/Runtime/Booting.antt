-- ===== src/Runtime/Booting.antt =====
-- What the boot of `Initialize` and `Restart` ends in (core/runtime.go).
use chukrun.Base.{
  ◌≡◌, refl, ◌∙◌, ap, ◌≢◌, inl, inr, String, true, false, Bool-cases, List, [], ◌∷◌, ◌++◌, map,
  Option, none, some, Option-cases,
}
use chukrun.Config.{ConfigData, Machine}
use chukrun.Config.Validity.{IsConfig}
use chukrun.Config.Sources.{load_config_lem}
use chukrun.Errors.{GoError, nil, nil_cases}
use chukrun.Events.Bus.{Bus, value, new_in_process_event_bus}
use chukrun.Execution.Types.{null}
use chukrun.Execution.Manager.State.{new_execution_manager}
use chukrun.Execution.Registry.{Registry}
use chukrun.Lifecycle.{
  LifecycleManager, uninitialized, booting, ready, failed, same_state, valid_target, configure,
}
use chukrun.Middleware.Types.{Middleware}
use chukrun.Middleware.Pipeline.{Pipeline, validate}
use chukrun.Telemetry.Logger.{Texts}
use chukrun.Runtime.Defs.{Engine, CoreRuntime, Host, Outcome, returned, panicked, and_then}
use chukrun.Runtime.Boot.{
  announce, move_to, leading, register_all, register_providers, set_pipeline, start_engine,
  configured, assemble_parts, load_and_assemble, initialize, keep_parts, replace_parts,
}
use chukrun.Runtime.Steps.{moves, fails}
use chukrun.Runtime.Quiet.{IsQuiet, new-IsQuiet, announce_quiet}

-- Nothing has subscribed to the bus, if there is one.
abbrev pub IsSilent : Option Bus → Type 0
IsSilent none = Unit
IsSilent (some bus) = IsQuiet bus

-- The middlewares before the first that is nil.
leading_all :
    {A : Type 0} → (ms : List (Option A)) → (leading ms).1 ≡ false → ms ≡ map some (leading ms).0
unfolding leading
leading_all [] e = refl
leading_all (none ∷ ms) e = cc
leading_all (some a ∷ ms) e = ap (λ rest. some a ∷ rest) (leading_all ms e)

leading_stops :
    {A : Type 0}
    → (ms : List (Option A)) → (leading ms).1 ≡ true
    → (rest : List (Option A)) × (ms ≡ map some (leading ms).0 ++ none ∷ rest)
unfolding leading
leading_stops [] e = cc
leading_stops (none ∷ ms) e = (ms, refl)
leading_stops (some a ∷ ms) e =
    let (rest, split) = leading_stops ms e in (rest, ap (λ after. some a ∷ after) split)

-- An engine as it is made for a configuration: no slot is taken and nothing is queued.
abbrev pub IsFresh : ConfigData → Engine → Type 0
IsFresh cfg e =
    (lm : LifecycleManager) × (e.manager
      ≡ new_execution_manager lm cfg.runtime.concurrency.global_limit
          cfg.runtime.concurrency.queue_size)

module _ {P S L T : Type 0} where
  -- Everything that a runtime needs to serve is there: a configuration that is valid, a bus, the
  -- registry with all providers, the pipeline of all middlewares, none of them nil and their
  -- dependencies met, and an
  -- engine whose loop runs.
  pub record IsUp (m : Machine) (r : CoreRuntime P S L T) : Type 0 where
    pub config : ConfigData
    pub configures : r.cfg ≡ some config
    pub valid : IsConfig m config
    pub bus : Bus
    pub publishes : r.events ≡ some bus
    pub reg : Registry P
    pub registers : r.registry ≡ some reg
    pub registered : register_all r.providers [] ≡ (reg, nil)
    pub mws : Pipeline S
    pub given : r.middlewares ≡ map some mws
    pub wraps : r.pipeline ≡ some mws
    pub checked : validate mws ≡ nil
    pub engine : Engine
    pub runs : r.execution ≡ some engine
    pub loops : engine.loop_stopped ≡ false

  -- How a boot that began with the engine `old` ends.
  pub data Booted (m : Machine) (old : Option Engine) : Outcome (CoreRuntime P S L T) → Type 0 where
    is_up :
        (r : CoreRuntime P S L T)
        → r.lifecycle.state_val ≡ ready
        → (up : IsUp m r) → IsFresh up.config up.engine
        → IsSilent r.events
        → Booted m old (returned nil r)
    is_down :
        (err : GoError) (r : CoreRuntime P S L T)
        → err ≢ nil
        → r.lifecycle.state_val ≡ failed
        → r.execution ≡ old
        → IsSilent r.events
        → Booted m old (returned err r)
    is_stuck :
        (why : String) (r : CoreRuntime P S L T) (mws : Pipeline S)
        (ms : List (Option (Middleware S)))
        → r.middlewares ≡ map some mws ++ none ∷ ms
        → validate mws ≡ nil
        → r.lifecycle.state_val ≡ booting
        → r.execution ≡ old
        → IsSilent r.events
        → Booted m old (panicked why r)

  module _ (m : Machine) (t : Texts) (h : Host) where
    -- The last steps, with the registry and the pipeline set.
    opens :
        (cfg : ConfigData) (old : Option Engine) (r : CoreRuntime P S L T) (bus : Bus)
        (reg : Registry P) (mws : Pipeline S)
        → r.lifecycle.state_val ≡ booting
        → r.cfg ≡ some cfg
        → IsConfig m cfg
        → r.events ≡ some bus
        → IsQuiet bus
        → register_all r.providers [] ≡ (reg, nil)
        → r.middlewares ≡ map some mws
        → validate mws ≡ nil
        → let r' = record r { registry = some reg; pipeline = some mws } in
          Booted m old (
            and_then (move_to (h.time 3) ready (start_engine cfg r')) (λ r4.
              and_then (announce h 4 "runtime.ready" (value null) r4) (λ r5. returned nil r5)))
    unfolding valid_target
    opens cfg old r bus reg mws at configures valid publishes quiet registered given checked =
        let r' = record r { registry = some reg; pipeline = some mws } in
        let (lm, here, e) = moves (h.time 3) booting ready (start_engine cfg r') at refl refl in
        let up = record (start_engine cfg r') { lifecycle = lm } in
        rw (e, announce_quiet h 4 "runtime.ready" (value null) up bus publishes quiet)
          (is_up up here
            (record {
              config = cfg;
              configures = configures;
              valid = valid;
              bus = bus;
              publishes = publishes;
              reg = reg;
              registers = refl;
              registered = registered;
              mws = mws;
              given = given;
              wraps = refl;
              checked = checked;
              engine = _;
              runs = refl;
              loops = refl;
            })
            (_, refl) (rw publishes quiet))

    assemble_parts-Booted :
        (cfg : ConfigData) (old : Option Engine) (r : CoreRuntime P S L T) (bus : Bus)
        → r.lifecycle.state_val ≡ booting
        → r.cfg ≡ some cfg
        → IsConfig m cfg
        → r.events ≡ some bus
        → IsQuiet bus
        → r.execution ≡ old
        → Booted m old (assemble_parts m t h cfg r)
    unfolding assemble_parts register_providers set_pipeline
    assemble_parts-Booted cfg old r bus at configures valid publishes quiet same =
        let (reg, err) = register_all r.providers [] in
        let (mws, stops) = leading r.middlewares in
        let silent : IsSilent r.events = rw publishes quiet in
        rw (announce_quiet h 1 "runtime.starting" (value null) r bus publishes quiet)
          (elim (nil_cases err) [
            | inr (bad, some_err) ↦
                rw (assemble_parts, register_providers, bad)
                  (is_down err _ some_err (fails (h.time 2) r at) same silent)
            | inl (fine, no_err) ↦ elim (nil_cases (validate mws)) [
              | inr (invalid, some_err) ↦
                  rw (fine, invalid)
                    (is_down (validate mws) _ some_err (fails (h.time 2) r at) same silent)
              | inl (checks, no_bad) ↦ elim (Bool-cases stops) [
                | inl nil_one ↦
                    let (ms, split) = leading_stops r.middlewares nil_one in
                    rw (fine, checks, nil_one) (is_stuck _ _ mws ms split no_bad at same silent)
                | inr given ↦
                    rw (fine, checks, given)
                      (opens cfg old r bus reg mws at configures valid publishes quiet
                        (ap (λ e. (reg, e)) no_err) (leading_all r.middlewares given) no_bad)
              ]
            ]
          ])

    -- What the boot needs of the function that sets the parts: a bus to which nothing subscribed,
    -- and the rest as it was.
    pub record SetsParts (parts : CoreRuntime P S L T → CoreRuntime P S L T)
        (r : CoreRuntime P S L T) : Type 0 where
      pub bus : Bus
      pub publishes : (parts r).events ≡ some bus
      pub quiet : IsQuiet bus
      pub same_cfg : (parts r).cfg ≡ r.cfg
      pub same_lifecycle : (parts r).lifecycle ≡ r.lifecycle
      pub same_execution : (parts r).execution ≡ r.execution

    pub load_and_assemble-Booted :
        (parts : CoreRuntime P S L T → CoreRuntime P S L T) (r : CoreRuntime P S L T)
        → r.lifecycle.state_val ≡ booting
        → IsSilent r.events
        → ((cfg : ConfigData) → SetsParts parts (configured m t h cfg r))
        → Booted m r.execution (load_and_assemble m t h parts r)
    unfolding load_and_assemble configure
    load_and_assemble-Booted parts r at silent sets =
        elim (load_config_lem m r.config_file r.overrides) [
          | inr (err, e, bad) ↦ rw e (elim (nil_cases err) [
            | inl (fine, none_) ↦ absurd (bad none_)
            | inr (some_text, some_err) ↦
                rw some_text (is_down err _ bad (fails (h.time 1) r at) refl silent)
          ])
          | inl (cfg, file, e, valid, read, layers) ↦
              let s = sets cfg in
              rw e (
                assemble_parts-Booted cfg r.execution (parts (configured m t h cfg r)) s.bus
                  (ap (λ (lm : LifecycleManager). lm.state_val) s.same_lifecycle ∙ at) s.same_cfg
                  valid s.publishes s.quiet s.same_execution)
        ]

    -- `Initialize` makes what the caller did not give, and only a quiet bus is kept.
    keeps : (r : CoreRuntime P S L T) → IsSilent r.events → SetsParts keep_parts r
    keeps r silent = elim (Option-cases r.events) [
      | inl no_bus ↦ record {
        bus = new_in_process_event_bus;
        publishes = rw no_bus refl;
        quiet = new-IsQuiet;
        same_cfg = refl;
        same_lifecycle = refl;
        same_execution = refl;
      }
      | inr (bus, there) ↦ record {
        bus = bus;
        publishes = rw there refl;
        quiet = rw there at silent;
        same_cfg = refl;
        same_lifecycle = refl;
        same_execution = refl;
      }
    ]

    pub replaces : (r : CoreRuntime P S L T) → SetsParts replace_parts r
    replaces r = record {
      bus = new_in_process_event_bus;
      publishes = refl;
      quiet = new-IsQuiet;
      same_cfg = refl;
      same_lifecycle = refl;
      same_execution = refl;
    }

    -- `Initialize` of a runtime that is UNINITIALIZED, however it was configured, and to whose bus,
    -- if it has one, nothing subscribed, ends in one of three ways. It returns no error, the runtime
    -- is READY and everything that it needs to serve is there, with an engine that is as it was
    -- made for the configuration. Or it returns an error, the runtime is FAILED and its engine is
    -- the one from before. Or it panics in BOOTING, with the engine from before: then one of the
    -- middlewares is nil, and those before it pass the check of the pipeline.
    pub initialize-Booted :
        (r : CoreRuntime P S L T)
        → r.lifecycle.state_val ≡ uninitialized
        → IsSilent r.events
        → Booted m r.execution (initialize m t h r)
    unfolding initialize valid_target
    initialize-Booted r at silent =
        let (lm, here, e) = moves (h.time 0) uninitialized booting r at refl refl in
        let fresh : same_state r.lifecycle.state_val uninitialized ≡ true = rw at refl in
        rw (fresh, e)
          (load_and_assemble-Booted keep_parts (record r { lifecycle = lm }) here silent
            (λ cfg. keeps (configured m t h cfg (record r { lifecycle = lm })) silent))
