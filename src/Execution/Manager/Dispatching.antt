-- ===== src/Execution/Manager/Dispatching.antt =====
-- What a call of `scheduleNext` achieves.
use chukrun.Base.{
  ℕ, zero, suc, ◌+◌, ◌-◌, ◌≤◌, ◌≡◌, refl, sym, inl, inr, subst, Bool, true, Option, none, some,
  arith, Option-cases, All,
}
use chukrun.Context.Priority.{priority_order}
use chukrun.Execution.Scheduler.{PriorityScheduler, dequeue, queue_of, or_empty}
use chukrun.Base.Dict.{lookup}
use chukrun.Execution.Scheduler.Dispatch.{
  Dequeued, by_credit, by_refill, nothing, dequeue-Dequeued, Blocked,
}
use chukrun.Execution.Manager.State.{ExecRef, ExecutionManager, launch}
use chukrun.Execution.Manager.Schedule.{can_schedule, schedule_rounds, schedule_next}
use chukrun.Execution.Manager.Slots.{SlotsHeld, launch-SlotsHeld}

module _ {E : Type 0} (can : E → Bool) (ps : PriorityScheduler E) where
  Dequeued-passes :
      {r : Option E × PriorityScheduler E} (e : E) → r.0 ≡ some e → Dequeued can ps r → can e ≡ true
  Dequeued-passes e h (by_credit {e = x} s first) = cc (s.taken.passes)
  Dequeued-passes e h (by_refill {e = x} _ s first) = cc (s.taken.passes)
  Dequeued-passes e h (nothing _ _ _ _) = cc

  Dequeued-idle :
      {r : Option E × PriorityScheduler E}
      → r.0 ≡ none
      → Dequeued can ps r
      → All (λ p. Blocked can (queue_of r.1 p)) priority_order
  Dequeued-idle h (by_credit s first) = cc
  Dequeued-idle h (by_refill _ s first) = cc
  Dequeued-idle h (nothing same _ _ blocked) =
      subst (λ m. All (λ p. Blocked can (or_empty (lookup p m))) priority_order) (sym same) blocked

-- The test does not look at the scheduler.
can_schedule-scheduler :
    (em : ExecutionManager) (scheduler : PriorityScheduler ExecRef)
    → can_schedule (record em { scheduler = scheduler }) ≡ can_schedule em
unfolding can_schedule
can_schedule-scheduler em scheduler = refl

pub schedule_rounds-SlotsHeld :
    (free : ℕ) (em : ExecutionManager)
    → SlotsHeld em
    → em.sem + free ≤ em.sem_cap
    → SlotsHeld (schedule_rounds free em)
unfolding schedule_rounds launch
schedule_rounds-SlotsHeld zero em s room = s
schedule_rounds-SlotsHeld (suc free) em s room =
    let (out, scheduler) = dequeue (can_schedule em) em.scheduler in
    let em' = record em { scheduler = scheduler } in
    let s' : SlotsHeld em' = record {
      held = s.held;
      capped = s.capped;
      counted = s.counted;
      limited = s.limited;
    } in
    elim (Option-cases out) [
      | inl empty ↦ rw (empty, schedule_rounds) s'
      | inr (ref, found) ↦
          rw (found, schedule_rounds)
            (schedule_rounds-SlotsHeld free (launch ref em')
              (launch-SlotsHeld em' ref s' (omega arith) (
                rw (can_schedule-scheduler em scheduler) (
                  Dequeued-passes (can_schedule em) em.scheduler ref found
                    (dequeue-Dequeued (can_schedule em) em.scheduler))))
              (omega arith))
    ]

-- `scheduleNext` keeps the accounts of the slots: it never launches a run past the semaphore's
-- capacity or past a provider's limit, and counts each run that it launches.
pub schedule_next-SlotsHeld : (em : ExecutionManager) → SlotsHeld em → SlotsHeld (schedule_next em)
unfolding schedule_next
schedule_next-SlotsHeld em s =
    schedule_rounds-SlotsHeld (em.sem_cap - em.sem) em s (omega (arith, s.capped))

-- Nothing more can be started: the slots are used up, or no queued execution of the five classes
-- may run.
pub data IsBusy (em : ExecutionManager) : Type 0 where
  full : em.sem ≡ em.sem_cap → IsBusy em
  idle : All (λ p. Blocked (can_schedule em) (queue_of em.scheduler p)) priority_order → IsBusy em

schedule_rounds-IsBusy :
    (free : ℕ) (em : ExecutionManager)
    → em.sem + free ≡ em.sem_cap
    → IsBusy (schedule_rounds free em)
unfolding schedule_rounds launch
schedule_rounds-IsBusy zero em room = full (omega arith)
schedule_rounds-IsBusy (suc free) em room =
    let (out, scheduler) = dequeue (can_schedule em) em.scheduler in
    elim (Option-cases out) [
      | inl empty ↦
          rw (empty, schedule_rounds)
            (idle (
              rw (can_schedule-scheduler em scheduler) (
                Dequeued-idle (can_schedule em) em.scheduler empty
                  (dequeue-Dequeued (can_schedule em) em.scheduler))))
      | inr (ref, found) ↦
          rw (found, schedule_rounds)
            (schedule_rounds-IsBusy free (launch ref (record em { scheduler = scheduler }))
              (omega arith))
    ]

-- `scheduleNext` is work conserving: from no more slots in use than there are, when it returns,
-- every slot is taken, or no queued execution of the five classes passes the test on its provider's
-- limit.
pub schedule_next-IsBusy : (em : ExecutionManager) → em.sem ≤ em.sem_cap → IsBusy (schedule_next em)
unfolding schedule_next
schedule_next-IsBusy em h = schedule_rounds-IsBusy (em.sem_cap - em.sem) em (omega arith)
