-- ===== src/Execution/Manager/System.antt =====
-- The execution manager with everything that runs at once (core/execution/manager.go): the callers
-- of `Submit`, `Cancel` and `Wait`, the loop that schedules, and the goroutines of the runs. A step is
-- what one of them does between two points at which another may act: the halves of `Submit`, a round
-- of `scheduleNext` (only its loop takes slots, so the test of the semaphore still holds when it
-- does), the start of a run, a run's writes to its own execution, and its end. A call that is refused
-- changes nothing and is no step.
pub mod Places
pub mod Ends
pub mod Changes
pub mod Once
pub mod Races
use mathlib.Core.List.{Memᴰ}
use chukrun.Base.{ℕ, String, List, [], ◌∷◌, Option, some, ◌≡◌, ◌<◌}
use chukrun.Base.Int.{ℤ}
use chukrun.Errors.{GoError}
use chukrun.Lifecycle.{LifecycleManager}
use chukrun.Execution.Types.{ExecutionRequest, ExecutionResult, Execution}
use chukrun.Execution.Manager.State.{
  ExecRef, ExecutionManager, Published, with_execution, publish, drop_run, release_slots,
  notify_waiters,
}
use chukrun.Execution.Manager.Submit.{admit, enqueue_admitted, wait_register}
use chukrun.Execution.Manager.Cancel.{cancel}
use chukrun.Execution.Manager.Schedule.{schedule_rounds}
use chukrun.Execution.Manager.Streams.{end_run}
use chukrun.Execution.Manager.Run.{begin_run, conclude_run, recover_panic, fail_unresolved}

-- The manager, and the calls of `Submit` that stand between their halves.
pub record System : Type 0 where
  pub manager : ExecutionManager
  pub admitted : List ExecRef

abbrev pub with_manager : System → ExecutionManager → System
with_manager sys em = record sys { manager = em }

-- The run at this reference holds a slot.
abbrev pub IsRunning : System → ExecRef → Type 0
IsRunning sys ref = Memᴰ ref sys.manager.runs

pub data SystemStep : System → System → Type 0 where
  admitting :
      (now : ℕ) (generated : String) (req : ExecutionRequest) (ref : ExecRef) (sys : System)
      → (admit now generated req sys.manager).1.0 ≡ some ref
      → SystemStep sys (record sys {
        manager = (admit now generated req sys.manager).0;
        admitted = ref ∷ sys.admitted;
      })
  enqueueing :
      (now : ℕ) (ref : ExecRef) (sys : System)
      → Memᴰ ref sys.admitted
      → SystemStep sys (record sys {
        manager = enqueue_admitted now ref sys.manager;
        admitted = drop_run ref.address sys.admitted;
      })
  scheduling :
      (sys : System)
      → sys.manager.sem < sys.manager.sem_cap
      → SystemStep sys (with_manager sys (schedule_rounds 1 sys.manager))
  beginning :
      (now : ℕ) (ref : ExecRef) (sys : System)
      → IsRunning sys ref
      → SystemStep sys (with_manager sys (begin_run now ref sys.manager))
  working :
      (f : Execution → Execution) (published : List Published) (ref : ExecRef) (sys : System)
      → IsRunning sys ref
      → SystemStep sys (
          with_manager sys
            (record (with_execution ref.address f sys.manager) { published = published }))
  concluding :
      (now : ℕ) (duration : ℤ) (err : GoError) (res : Option ExecutionResult) (e : Execution)
      (ref : ExecRef) (sys : System)
      → IsRunning sys ref
      → SystemStep sys (with_manager sys (conclude_run now duration err res e ref sys.manager))
  panicking :
      (now : ℕ) (panic : String) (ref : ExecRef) (sys : System)
      → IsRunning sys ref
      → SystemStep sys (with_manager sys (recover_panic now panic ref sys.manager))
  -- The end of a run whose provider is missing, or that is streamed.
  ending :
      (f : Execution → Execution) (topic : String) (now : ℕ) (ref : ExecRef) (sys : System)
      → IsRunning sys ref
      → SystemStep sys (with_manager sys (end_run f topic now ref sys.manager))
  cancelling :
      (now : ℕ) (id : String) (sys : System)
      → SystemStep sys (with_manager sys (cancel now id sys.manager).0)
  registering :
      (id : String) (sys : System)
      → SystemStep sys (with_manager sys (wait_register id sys.manager).0)
  receiving :
      (signals : ℕ) (sys : System)
      → SystemStep sys (with_manager sys (record sys.manager { schedule_signal = signals }))
  elsewhere :
      (lifecycle : LifecycleManager) (sys : System)
      → SystemStep sys (with_manager sys (record sys.manager { lifecycle = lifecycle }))

-- Any number of steps.
pub data Steps : System → System → Type 0 where
  done : {sys : System} → Steps sys sys
  then_step : {a b c : System} → Steps a b → SystemStep b c → Steps a c
