-- ===== src/Execution/Manager/Schedule.antt =====
-- `scheduleNext` (core/execution/manager.go).
use chukrun.Base.{ℕ, zero, suc, ◌-◌, Bool, true, false, none, some, str_eq, if◌then◌else◌}
use chukrun.Base.Int.{pos, leb_ℤ}
use chukrun.Base.Dict.{lookup}
use chukrun.Execution.Scheduler.{dequeue}
use chukrun.Execution.Manager.State.{ExecRef, ExecutionManager, active_of, launch}

-- The test that `scheduleNext` hands to `Dequeue`: the provider's limit, if it has one, is not
-- reached.
unfoldable pub can_schedule : ExecutionManager → ExecRef → Bool
can_schedule em ref =
    if str_eq ref.provider_ref "" then true else elim (lookup ref.provider_ref em.provider_limits) [
      | none ↦ true
      | some limit ↦ if leb_ℤ (pos limit) (active_of em ref.provider_ref) then false else true
    ]

-- The loop, by the slots that are free: it returns where `len(em.sem) >= cap(em.sem)`, and each
-- round that goes on takes a slot.
unfoldable pub schedule_rounds : ℕ → ExecutionManager → ExecutionManager
schedule_rounds zero em = em
schedule_rounds (suc free) em =
    let (out, scheduler) = dequeue (can_schedule em) em.scheduler in
    let em' = record em { scheduler = scheduler } in
    elim out [ none ↦ em' | some ref ↦ schedule_rounds free (launch ref em') ]

unfoldable pub schedule_next : ExecutionManager → ExecutionManager
schedule_next em = schedule_rounds (em.sem_cap - em.sem) em
