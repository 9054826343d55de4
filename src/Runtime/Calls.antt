-- ===== src/Runtime/Calls.antt =====
-- Any sequence of calls of the runtime (core/runtime.go), of reports to its lifecycle and of changes
-- that the engine's goroutines make. `Initialize`, `Restart` and `Shutdown` hold the runtime's mutex,
-- so a call stands for all that it does; only a `Shutdown` that has come to an end is one, since no
-- other can begin before, and while it drains neither a report nor a submission changes anything.
-- `Stream` reaches the runtime's state through the same `Submit` as `Execute`.
use chukrun.Base.{ℕ, String, Bool, List}
use chukrun.Config.{Machine}
use chukrun.Errors.{GoError}
use chukrun.Execution.Types.{ExecutionRequest}
use chukrun.Execution.Manager.State.{ExecutionManager}
use chukrun.Lifecycle.{report_component_health}
use chukrun.Telemetry.Logger.{Texts}
use chukrun.Telemetry.Globals.{Globals}
use chukrun.Runtime.Defs.{
  CoreRuntime, Host, Outcome, returned, panicked, left, RuntimeOption, new_runtime,
}
use chukrun.Runtime.Boot.{initialize, restart}
use chukrun.Runtime.Serve.{Wakeup, execute, shutdown, set_manager}

-- A call that came to an end.
abbrev pub IsOver : {R : Type 0} → Outcome R → Type 0
IsOver (returned err r) = Unit
IsOver (panicked why r) = Unit
IsOver out = ⊥

module _ {P S L T : Type 0} where
  module _ (m : Machine) (t : Texts) where
    -- One call that came to an end, a report, or a change of the engine.
    pub data RuntimeCall (r : CoreRuntime P S L T) : CoreRuntime P S L T → Type 0 where
      initializes : (h : Host) → RuntimeCall r (left (initialize m t h r))
      restarts : (h : Host) → RuntimeCall r (left (restart m t h r))
      shuts_down :
          (h : Host) (wakeups : List Wakeup)
          → IsOver (shutdown h wakeups r)
          → RuntimeCall r (left (shutdown h wakeups r))
      executes :
          (now : ℕ) (generated : String) (req : ExecutionRequest)
          → RuntimeCall r (execute now generated req r).0
      reports :
          (now : ℕ) (component : String) (ok fatal : Bool) (err : GoError)
          → RuntimeCall r (record r {
            lifecycle = report_component_health now component ok fatal err r.lifecycle;
          })
      works : (em : ExecutionManager) → RuntimeCall r (set_manager em r)

    pub data Reached (now : ℕ) (g : Globals) (opts : List (RuntimeOption P S L T))
        : CoreRuntime P S L T → Type 0 where
      made : Reached now g opts (new_runtime now g opts)
      after :
          (r r' : CoreRuntime P S L T)
          → Reached now g opts r
          → RuntimeCall r r'
          → Reached now g opts r'
