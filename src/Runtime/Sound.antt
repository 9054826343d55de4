-- ===== src/Runtime/Sound.antt =====
-- The invariant of the runtime over any sequence of calls (core/runtime.go).
use chukrun.Base.{
  ℕ, subst, ◌≡◌, refl, sym, ◌∙◌, ap, ◌≢◌, ◌⊎◌, inl, inr, String, List, [], ◌∷◌, Option, none, some,
  arith, Bool-cases,
}
use chukrun.Config.{Machine}
use chukrun.Execution.Types.{ExecutionRequest}
use chukrun.Execution.Manager.State.{ExecutionManager}
use chukrun.Execution.Manager.Submit.{submit}
use chukrun.Execution.Manager.Submitting.{submit-Submitted}
use chukrun.Lifecycle.{
  State, LifecycleManager, uninitialized, booting, ready, draining, stopped, failed, same_state,
  new_lifecycle_manager,
}
use chukrun.Lifecycle.Graph.{same_state_eq}
use chukrun.Runtime.Shifts.{Shift, stays, serves, breaks, report-Shift, Submitted-Shift}
use chukrun.Runtime.Calls.{
  IsOver, RuntimeCall, initializes, restarts, shuts_down, executes, reports, works, Reached, made,
  after,
}
use chukrun.Telemetry.Logger.{Texts}
use chukrun.Telemetry.Globals.{Globals}
use chukrun.Runtime.Defs.{
  Engine, CoreRuntime, Host, Outcome, left, RuntimeOption, with_config_file, with_config_overrides,
  with_logger, with_telemetry, with_provider, with_middleware, apply_option, apply_options,
  new_runtime,
}
use chukrun.Runtime.Boot.{initialize}
use chukrun.Runtime.Serve.{Wakeup, execute, execute_on, manager_of, shutdown, set_manager, managed}
use chukrun.Runtime.Booting.{IsUp, IsSilent, Booted, is_up, is_down, is_stuck, initialize-Booted}
use chukrun.Runtime.Restarting.{
  Restarted, not_failed, no_bus, cooling, closed_twice, boots, restart-Restarted,
}
use chukrun.Runtime.Draining.{IsServing, ShutDown, refused, drains, stops, shutdown-ShutDown}

not_serving : (s : State) → (s ≡ failed) ⊎ ((s ≡ booting) ⊎ (s ≡ stopped)) → IsServing s → ⊥
not_serving s down serving = grind arith

not_draining : (s : State) → (s ≡ failed) ⊎ ((s ≡ booting) ⊎ (s ≡ stopped)) → s ≢ draining
not_draining s down e = grind arith

unstarted : (s : State) → s ≡ uninitialized → IsServing s → ⊥
unstarted s at serving = grind arith

module _ {P S L T : Type 0} where
  -- While the runtime serves, all that it needs is there; nothing subscribed to its bus; and no call
  -- leaves it in DRAINING.
  pub record IsSound (m : Machine) (r : CoreRuntime P S L T) : Type 0 where
    pub served : IsServing r.lifecycle.state_val → IsUp m r
    pub silent : IsSilent r.events
    pub settled : r.lifecycle.state_val ≢ draining

  -- A runtime that does not serve.
  down-IsSound :
      (m : Machine) (r : CoreRuntime P S L T)
      → (r.lifecycle.state_val ≡ failed)
        ⊎ ((r.lifecycle.state_val ≡ booting) ⊎ (r.lifecycle.state_val ≡ stopped))
      → IsSilent r.events
      → IsSound m r
  down-IsSound m r down silent = record {
    served = λ serving. absurd (not_serving r.lifecycle.state_val down serving);
    silent = silent;
    settled = not_draining r.lifecycle.state_val down;
  }

  changed-IsUp :
      (m : Machine) (r : CoreRuntime P S L T) (lm : LifecycleManager) (x : Option Engine)
      → ((e : Engine)
          → r.execution ≡ some e
          → (e' : Engine) × (x ≡ some e') × (e'.loop_stopped ≡ e.loop_stopped))
      → IsUp m r
      → IsUp m (record r { lifecycle = lm; execution = x })
  changed-IsUp m r lm x same u =
      let (e', there, loop) = same u.engine u.runs in
      record {
        config = u.config;
        configures = u.configures;
        valid = u.valid;
        bus = u.bus;
        publishes = u.publishes;
        reg = u.reg;
        registers = u.registers;
        registered = u.registered;
        mws = u.mws;
        given = u.given;
        wraps = u.wraps;
        checked = u.checked;
        engine = e';
        runs = there;
        loops = loop ∙ u.loops;
      }

  -- A change of the lifecycle and of the engine's manager keeps a sound runtime sound.
  shifted-IsSound :
      (m : Machine) (r : CoreRuntime P S L T) (lm : LifecycleManager) (x : Option Engine)
      → IsSound m r
      → Shift r.lifecycle.state_val lm.state_val
      → ((e : Engine)
          → r.execution ≡ some e
          → (e' : Engine) × (x ≡ some e') × (e'.loop_stopped ≡ e.loop_stopped))
      → IsSound m (record r { lifecycle = lm; execution = x })
  shifted-IsSound m r lm x s (stays _ e) same = record {
    served = λ serving. changed-IsUp m r lm x same (s.served (subst IsServing e serving));
    silent = s.silent;
    settled = λ d. s.settled (sym e ∙ d);
  }
  shifted-IsSound m r lm x s (serves _ serving settled) same = record {
    served = λ _. changed-IsUp m r lm x same (s.served serving);
    silent = s.silent;
    settled = settled;
  }
  shifted-IsSound m r lm x s (breaks _ e) same = down-IsSound m _ (inl e) s.silent

  execute_on-IsSound :
      (m : Machine) (now : ℕ) (generated : String) (req : ExecutionRequest)
      (r : CoreRuntime P S L T) (x : Option Engine)
      → r.execution ≡ x
      → IsSound m r
      → IsSound m (execute_on now generated req r x).0
  execute_on-IsSound m now generated req r none there s = s
  execute_on-IsSound m now generated req r (some e) there s =
      let em = (submit now generated req (manager_of r e)).0 in
      shifted-IsSound m r em.lifecycle (some (record e { manager = em })) s
        (Submitted-Shift (submit-Submitted now generated req (manager_of r e)))
        (λ e' also. (_, refl, same_loop e e' (sym there ∙ also)))
    where
      same_loop : (a b : Engine) → some a ≡ some b → a.loop_stopped ≡ b.loop_stopped
      same_loop a b e = cc

  works-IsSound :
      (m : Machine) (em : ExecutionManager) (r : CoreRuntime P S L T)
      → IsSound m r
      → IsSound m (set_manager em r)
  works-IsSound m em r s =
      shifted-IsSound m r r.lifecycle (managed em r.execution) s (stays _ refl)
        (λ e there. (record e { manager = em }, rw there refl, refl))

  Booted-IsSound :
      (m : Machine) {x : Option Engine} {out : Outcome (CoreRuntime P S L T)}
      → Booted m x out
      → IsSound m (left out)
  Booted-IsSound m (is_up r at up fresh silent) = record {
    served = λ _. up;
    silent = silent;
    settled = λ d. ready_drains (sym at ∙ d);
  }
    where
      ready_drains : ready ≢ draining
      ready_drains e = cc
  Booted-IsSound m (is_down err r bad at same silent) = down-IsSound m r (inl at) silent
  Booted-IsSound m (is_stuck why r mws ms split valid at same silent) =
      down-IsSound m r (inr (inl at)) silent

  Restarted-IsSound :
      (m : Machine) (now : ℕ) (r : CoreRuntime P S L T) {out : Outcome (CoreRuntime P S L T)}
      → IsSound m r
      → Restarted m now r out
      → IsSound m (left out)
  Restarted-IsSound m now r s (not_failed err bad other) = s
  Restarted-IsSound m now r s (no_bus why r' at missing here still) =
      down-IsSound m r' (inl here) (rw still tt)
  Restarted-IsSound m now r s (cooling err r' bad at early unchanged same events) =
      down-IsSound m r' (inl (ap (λ (lm : LifecycleManager). lm.state_val) unchanged ∙ at))
        (rw events s.silent)
  Restarted-IsSound m now r s (closed_twice why r' e at waited there over here events) =
      down-IsSound m r' (inr (inl here)) (rw events s.silent)
  Restarted-IsSound m now r s (boots out at waited booted) = Booted-IsSound m booted

  ShutDown-IsSound :
      (m : Machine) (r : CoreRuntime P S L T) {out : Outcome (CoreRuntime P S L T)}
      → IsSound m r
      → ShutDown r out
      → IsOver out
      → IsSound m (left out)
  ShutDown-IsSound m r s (refused err bad) over = s
  ShutDown-IsSound m r s (drains r' serving here silent) over = absurd over
  ShutDown-IsSound m r s (stops r' serving here halted silent) over =
      down-IsSound m r' (inr (inr here)) silent

  module _ (m : Machine) (t : Texts) where
    initialize-IsSound :
        (h : Host) (r : CoreRuntime P S L T) → IsSound m r → IsSound m (left (initialize m t h r))
    unfolding initialize
    initialize-IsSound h r s = elim (Bool-cases (same_state r.lifecycle.state_val uninitialized)) [
      | inr later ↦ rw later s
      | inl fresh ↦ Booted-IsSound m (
          initialize-Booted m t h r (same_state_eq r.lifecycle.state_val uninitialized fresh)
            s.silent)
    ]

    call-IsSound : {r r' : CoreRuntime P S L T} → RuntimeCall m t r r' → IsSound m r → IsSound m r'
    unfolding execute
    call-IsSound (initializes h) s = initialize-IsSound h _ s
    call-IsSound {r = r} (restarts h) s =
        Restarted-IsSound m (h.time 0) r s (restart-Restarted m t h r s.silent)
    call-IsSound {r = r} (shuts_down h wakeups over) s =
        ShutDown-IsSound m r s (shutdown-ShutDown h wakeups r m s.served s.silent s.settled) over
    call-IsSound {r = r} (executes now generated req) s =
        execute_on-IsSound m now generated req r r.execution refl s
    call-IsSound {r = r} (reports now component ok fatal err) s =
        shifted-IsSound m r _ r.execution s (report-Shift now component ok fatal err r.lifecycle)
          (λ e there. (e, there, refl))
    call-IsSound {r = r} (works em) s = works-IsSound m em r s

    -- An option chooses a part, and changes neither the lifecycle nor the bus.
    apply_option_same :
        (opt : RuntimeOption P S L T) (r : CoreRuntime P S L T)
        → ((apply_option opt r).lifecycle ≡ r.lifecycle) × ((apply_option opt r).events ≡ r.events)
    unfolding apply_option
    apply_option_same (with_config_file path) r = (refl, refl)
    apply_option_same (with_config_overrides overrides) r = (refl, refl)
    apply_option_same (with_logger logger) r = (refl, refl)
    apply_option_same (with_telemetry tel) r = (refl, refl)
    apply_option_same (with_provider p) r = (refl, refl)
    apply_option_same (with_middleware mw) r = (refl, refl)

    apply_options-IsSound :
        (opts : List (RuntimeOption P S L T)) (r : CoreRuntime P S L T)
        → r.lifecycle.state_val ≡ uninitialized
        → r.events ≡ none
        → IsSound m (apply_options opts r)
    unfolding apply_options
    apply_options-IsSound [] r at missing = record {
      served = λ serving. absurd (unstarted r.lifecycle.state_val at serving);
      silent = rw missing tt;
      settled = λ d. cc;
    }
    apply_options-IsSound (opt ∷ opts) r at missing =
        let (lifecycle, events) = apply_option_same opt r in
        apply_options-IsSound opts (apply_option opt r)
          (ap (λ (lm : LifecycleManager). lm.state_val) lifecycle ∙ at) (events ∙ missing)

    -- Whatever calls, reports and work of the engine a runtime has seen since `NewRuntime`: while
    -- it is READY, RUNNING or DEGRADED, its configuration is valid, all its providers are
    -- registered, its pipeline has all middlewares with their dependencies met, its bus is there
    -- and the loop of its engine runs; nothing has subscribed to its bus; and no call that came to
    -- an end leaves it in DRAINING.
    pub Reached-IsSound :
        {now : ℕ} {g : Globals} {opts : List (RuntimeOption P S L T)} {r : CoreRuntime P S L T}
        → Reached m t now g opts r
        → IsSound m r
    unfolding new_runtime new_lifecycle_manager
    Reached-IsSound {opts = opts} made = apply_options-IsSound opts _ refl refl
    Reached-IsSound (after r r' reached call) = call-IsSound call (Reached-IsSound reached)

    -- `Shutdown` never panics: of every runtime that `NewRuntime` and any calls, reports and work of
    -- the engine have left, it refuses with an error, is still draining, or ends with no error, in
    -- STOPPED and with the loop of the engine stopped.
    pub reached_shuts_down :
        {now : ℕ} {g : Globals} {opts : List (RuntimeOption P S L T)} {r : CoreRuntime P S L T}
        → Reached m t now g opts r
        → (h : Host) (wakeups : List Wakeup) → ShutDown r (shutdown h wakeups r)
    reached_shuts_down {r = r} reached h wakeups =
        let s = Reached-IsSound reached in
        shutdown-ShutDown h wakeups r m s.served s.silent s.settled
