-- ===== src/Tests/Systems.antt =====
-- The engine with everything that runs at once, at concrete inputs.
use mathlib.Core.List.{Memᴰ}
use chukrun.Base.{◌<◌, arith, ◌≡◌, refl, inl, [], ◌∷◌, some, get_elem?}
use chukrun.Base.Int.{pos}
use chukrun.Base.Dict.{lookup}
use chukrun.Execution.Types.{is_terminal_state, pending, queued, running, Execution}
use chukrun.Execution.Scheduler.{
  size, new_priority_scheduler, dequeue, credit_pass, has_turn, enqueue, find_and_remove,
  take_first,
}
use chukrun.Execution.Manager.Attempts.{resume_execution}
use chukrun.Execution.Manager.State.{
  with_execution, new_execution_manager, drop_run, signal, launch, notify_waiters,
}
use chukrun.Execution.Manager.Submit.{new_execution, admit, enqueue_admitted}
use chukrun.Execution.Manager.Schedule.{can_schedule, schedule_rounds}
use chukrun.Execution.Manager.Run.{begin_run}
use chukrun.Errors.{nil}
use chukrun.Execution.Manager.Cancel.{cancel}
use chukrun.Execution.Manager.Cancelling.{CancelledWaiting}
use chukrun.Execution.Manager.System.{
  System, admitting, enqueueing, scheduling, beginning, cancelling, Steps, done, then_step,
}
use chukrun.Execution.Manager.System.Places.{IsSystem}
use chukrun.Execution.Manager.System.Once.{new_system, reached-IsSystem}
use chukrun.Execution.Manager.System.Races.{GoesOn, cancel_overtaken}
use chukrun.Lifecycle.{is_ready}
use chukrun.Tests.Running.{request, ready_lifecycle, the_ref}

abbrev start : System
start = new_system ready_lifecycle (pos 2) (pos 10)

abbrev let_through : System
let_through = record {
  manager = (admit 7 "exec-2" request start.manager).0;
  admitted = the_ref ∷ [];
}

abbrev in_queue : System
in_queue = record { manager = enqueue_admitted 8 the_ref let_through.manager; admitted = [] }

abbrev taken : System
taken = record { manager = schedule_rounds 1 in_queue.manager; admitted = [] }

-- A submission, in its two halves, a round of the scheduler, a cancellation, and the start of the
-- run that was cancelled.
abbrev begun : System
begun = record { manager = begin_run 10 the_ref (cancel 9 "exec-1" taken.manager).0; admitted = [] }

submission : Steps start in_queue
unfolding admit is_ready new_execution_manager size new_priority_scheduler drop_run
submission =
    then_step (then_step done (admitting 7 "exec-2" request the_ref start refl))
      (enqueueing 8 the_ref let_through (Memᴰ.head refl))

-- The run that was cancelled holds its slot.
abbrev told : System
told = record { manager = (cancel 9 "exec-1" taken.manager).0; admitted = [] }

one_free : in_queue.manager.sem < in_queue.manager.sem_cap
unfolding enqueue_admitted admit new_execution_manager signal is_ready size new_priority_scheduler
one_free = omega arith

still_held : Memᴰ the_ref told.manager.runs
unfolding schedule_rounds cancel enqueue_admitted admit lookup dequeue credit_pass has_turn signal
    is_ready new_execution_manager size new_priority_scheduler enqueue find_and_remove take_first
    can_schedule launch is_terminal_state notify_waiters
still_held = Memᴰ.head refl

dispatch : Steps start begun
dispatch =
    then_step
      (then_step (then_step submission (scheduling in_queue one_free))
        (cancelling 9 "exec-1" taken))
      (beginning 10 the_ref told still_held)

reached-IsSystem_example : IsSystem begun
reached-IsSystem_example = reached-IsSystem ready_lifecycle (pos 2) (pos 10) dispatch

-- The execution that `Submit` has let through.
abbrev waiting : Execution
waiting = new_execution 7 "exec-1" request

let_through_known : lookup "exec-1" let_through.manager.executions ≡ some 0
unfolding lookup admit is_ready new_execution_manager size new_priority_scheduler
let_through_known = refl

let_through_stored : get_elem? let_through.manager.store 0 ≡ some waiting
unfolding admit is_ready new_execution_manager size new_priority_scheduler
let_through_stored = refl

waiting_pending : waiting.state ≡ pending
unfolding new_execution
waiting_pending = refl

cancel_overtaken_example :
    let em' = (cancel 9 "exec-1" let_through.manager).0 in
    ((cancel 9 "exec-1" let_through.manager).1 ≡ nil)
    × CancelledWaiting 9 "exec-1" 0 waiting let_through.manager em'
    × ((e' : Execution) × GoesOn 9 the_ref (begin_run 10 the_ref em') e' × (e'.state ≡ running))
    × ((e' : Execution) × GoesOn 9 the_ref (with_execution 0 resume_execution em') e'
        × (e'.state ≡ running))
    × ((e' : Execution) × GoesOn 9 the_ref (enqueue_admitted 10 the_ref em') e'
        × (e'.state ≡ queued))
cancel_overtaken_example =
    cancel_overtaken 9 the_ref let_through.manager waiting let_through_known let_through_stored
      (inl waiting_pending) 10
