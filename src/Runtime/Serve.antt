-- ===== src/Runtime/Serve.antt =====
-- `Execute`, `Health` and `Shutdown` (core/runtime.go).
use chukrun.Base.{
  ℕ, String, Bool, true, false, List, [], ◌∷◌, length, Option, none, some, ◌==◌, if◌then◌else◌,
}
use chukrun.Base.Dict.{insert}
use chukrun.Base.Text.{◌<>◌, show_ℕ}
use chukrun.Errors.{nil, new_error, internal}
use chukrun.Events.Bus.{value}
use chukrun.Execution.Types.{null, ExecutionRequest}
use chukrun.Execution.Manager.State.{ExecRef, ExecutionManager, active_count}
use chukrun.Execution.Manager.Submit.{Answer, submit}
use chukrun.Execution.Registry.{list}
use chukrun.Lifecycle.{
  draining, stopped, same_state, transition, HealthStatus, healthy, health_status,
}
use chukrun.Runtime.Defs.{
  Engine, CoreRuntime, Host, Outcome, goes_on, returned, still_draining, and_then,
}
use chukrun.Runtime.Boot.{announce, move_to, stop_engine}

-- What ends an iteration of the loop of `Shutdown`: a tick, with the engine's manager as the runs have
-- left it by then, the deadline, or the end of the context.
pub data Wakeup : Type 0 where
  tick : ExecutionManager → Wakeup
  deadline : Wakeup
  ctx_done : Wakeup

abbrev pub managed : ExecutionManager → Option Engine → Option Engine
managed em none = none
managed em (some e) = some (record e { manager = em })

-- `r.execution == nil || r.execution.ActiveCount() == 0`.
abbrev pub is_idle : Option Engine → Bool
is_idle none = true
is_idle (some e) = active_count e.manager == 0

abbrev pub already_shutdown : String
already_shutdown = "runtime already shutdown"

abbrev pub not_initialized : String
not_initialized = "runtime execution engine not initialized"

module _ {P S L T : Type 0} where
  -- The engine's manager, whose lifecycle is the runtime's.
  abbrev pub manager_of : CoreRuntime P S L T → Engine → ExecutionManager
  manager_of r e = record e.manager { lifecycle = r.lifecycle }

  abbrev pub with_engine : CoreRuntime P S L T → Engine → ExecutionManager → CoreRuntime P S L T
  with_engine r e em = record r {
    lifecycle = em.lifecycle;
    execution = some (record e { manager = em });
  }

  -- `Execute` up to its call of `Wait` for the execution that is answered.
  abbrev pub execute_on :
      ℕ
      → String
      → ExecutionRequest
      → CoreRuntime P S L T
      → Option Engine
      → CoreRuntime P S L T × Answer ExecRef
  execute_on now generated req r none = (r, (none, new_error internal not_initialized false nil))
  execute_on now generated req r (some e) =
      let (em, answer) = submit now generated req (manager_of r e) in (with_engine r e em, answer)

  unfoldable pub execute :
      ℕ → String → ExecutionRequest → CoreRuntime P S L T → CoreRuntime P S L T × Answer ExecRef
  execute now generated req r = execute_on now generated req r r.execution

  abbrev pub registered_count : CoreRuntime P S L T → ℕ
  registered_count r = elim r.registry [ none ↦ 0 | some reg ↦ length (list reg) ]

  -- `Health`.
  unfoldable pub health : ℕ → CoreRuntime P S L T → HealthStatus
  health now r =
      let status = health_status r.lifecycle in
      record status {
        components =
            insert "registry"
              (record {
                state = healthy;
                details = show_ℕ (registered_count r) <> " registered";
                fatal = true;
                last_error = "";
                checked_at = now;
              })
              status.components;
      }

  abbrev pub set_manager : ExecutionManager → CoreRuntime P S L T → CoreRuntime P S L T
  set_manager em r = record r { execution = managed em r.execution }

  -- The loop, by what wakes it; the warning at the deadline goes to the logger.
  unfoldable pub drain : List Wakeup → CoreRuntime P S L T → Outcome (CoreRuntime P S L T)
  drain [] r = still_draining r
  drain (tick em ∷ rest) r =
      let r' = set_manager em r in
      let later = drain rest r' in if is_idle r'.execution then goes_on r' else later
  drain (deadline ∷ rest) r = goes_on r
  drain (ctx_done ∷ rest) r = goes_on r

  -- `Shutdown`.
  unfoldable pub shutdown : Host → List Wakeup → CoreRuntime P S L T → Outcome (CoreRuntime P S L T)
  unfolding drain
  shutdown h wakeups r =
      if same_state r.lifecycle.state_val stopped
      then returned (new_error internal already_shutdown false nil) r
      else and_then (move_to (h.time 0) draining r) (λ r1. and_then (stop_engine r1) (λ r2.
        and_then (announce h 1 "runtime.shutdown_started" (value null) r2) (λ r3.
          and_then (drain wakeups r3) (λ r4.
            let ended = record r4 { lifecycle = (transition (h.time 2) stopped r4.lifecycle).0 } in
            and_then (announce h 3 "runtime.shutdown_completed" (value null) ended)
              (λ r5. returned nil r5)))))
