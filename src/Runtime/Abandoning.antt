-- ===== src/Runtime/Abandoning.antt =====
-- What `Shutdown` (core/runtime.go) does not wait for: the executions that are queued.
use chukrun.Base.{◌≡◌, refl, inl, inr, true, false, List, ◌∷◌, some}
use chukrun.Config.{Machine}
use chukrun.Errors.{nil}
use chukrun.Events.Bus.{value}
use chukrun.Execution.Types.{null}
use chukrun.Execution.Manager.State.{ExecutionManager, active_count}
use chukrun.Lifecycle.{State, draining, stopped, same_state, valid_target, transition}
use chukrun.Lifecycle.Graph.{transition-Entered}
use chukrun.Runtime.Defs.{Engine, CoreRuntime, Host, goes_on, returned}
use chukrun.Runtime.Boot.{move_to}
use chukrun.Runtime.Serve.{Wakeup, tick, drain, shutdown, set_manager, is_idle}
use chukrun.Runtime.Steps.{stop_open}
use chukrun.Runtime.Quiet.{IsQuiet, announce_quiet}
use chukrun.Runtime.Booting.{IsUp, IsSilent}
use chukrun.Runtime.Draining.{IsServing}

serving_live : (s : State) → IsServing s → same_state s stopped ≡ false
serving_live s (inl e) = rw e refl
serving_live s (inr (inl e)) = rw e refl
serving_live s (inr (inr e)) = rw e refl

serving_away : (s : State) → IsServing s → same_state s draining ≡ false
serving_away s (inl e) = rw e refl
serving_away s (inr (inl e)) = rw e refl
serving_away s (inr (inr e)) = rw e refl

serving_drains : (s : State) → IsServing s → valid_target s draining ≡ true
unfolding valid_target
serving_drains s (inl e) = rw e refl
serving_drains s (inr (inl e)) = rw e refl
serving_drains s (inr (inr e)) = rw e refl

module _ {P S L T : Type 0} where
  first_tick :
      (em : ExecutionManager) (rest : List Wakeup) (r : CoreRuntime P S L T) (e : Engine)
      → r.execution ≡ some e
      → active_count em ≡ 0
      → drain (tick em ∷ rest) r ≡ goes_on (set_manager em r)
  unfolding drain
  first_tick em rest r e there idle = rw there (rw (idle, is_idle) refl)

  -- A shutdown of a runtime that serves, with everything that it needs and a bus to which nothing
  -- subscribed, ends at the first tick that finds no run, however many executions are queued: it
  -- returns no error, the runtime is STOPPED, the loop that would schedule them is stopped, and the
  -- queue, the waiters and the executions are as the tick found them.
  pub queued_are_abandoned :
      (h : Host) (m : Machine) (r : CoreRuntime P S L T) (em : ExecutionManager)
      (rest : List Wakeup)
      → IsServing r.lifecycle.state_val
      → IsUp m r
      → IsSilent r.events
      → active_count em ≡ 0
      → (r' : CoreRuntime P S L T) × (shutdown h (tick em ∷ rest) r ≡ returned nil r')
        × (r'.lifecycle.state_val ≡ stopped)
        × (r'.execution ≡ some (record { manager = em; loop_stopped = true }))
  unfolding shutdown move_to valid_target
  queued_are_abandoned h m r em rest serving u silent idle =
      let quiet : IsQuiet u.bus = rw u.publishes at silent in
      let live : same_state r.lifecycle.state_val stopped ≡ false =
        serving_live r.lifecycle.state_val serving in
      let entered =
        transition-Entered (h.time 0) draining r.lifecycle
          (serving_away r.lifecycle.state_val serving)
          (serving_drains r.lifecycle.state_val serving) in
      let r1 : CoreRuntime P S L T = record r {
        lifecycle = (transition (h.time 0) draining r.lifecycle).0;
      } in
      let r2 : CoreRuntime P S L T = record r1 {
        execution = some (record u.engine { loop_stopped = true });
      } in
      let r3 : CoreRuntime P S L T = set_manager em r2 in
      let ended : CoreRuntime P S L T = record r3 {
        lifecycle = (transition (h.time 2) stopped r3.lifecycle).0;
      } in
      let stops =
        transition-Entered (h.time 2) stopped r3.lifecycle (rw entered.0.at refl)
          (rw entered.0.at refl) in
      (
        ended,
        rw
            (
              live,
              entered.1,
              stop_open r1 u.engine u.runs u.loops,
              announce_quiet h 1 "runtime.shutdown_started" (value null) r2 u.bus u.publishes quiet,
              first_tick em rest r2 (record u.engine { loop_stopped = true }) refl idle,
              announce_quiet h 3 "runtime.shutdown_completed" (value null) ended u.bus u.publishes
                  quiet,
            )
            refl,
        stops.0.at,
        refl,
      )
