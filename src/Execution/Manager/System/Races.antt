-- ===== src/Execution/Manager/System/Races.antt =====
-- What a cancellation cannot stop (core/execution/manager.go): `Cancel` of an execution that was not
-- enqueued yet, or was taken from the queue and has not begun, or waits for its next attempt, marks it
-- and wakes its waiters, but the other goroutine goes on.
use chukrun.Base.{ℕ, ◌≡◌, refl, true, some, get_elem?, get_elem?-modify, Bool-cases, inl, inr}
use chukrun.Base.Dict.{lookup}
use chukrun.Errors.{nil}
use chukrun.Lifecycle.{same_state, ready}
use chukrun.Execution.Types.{Execution, running, queued}
use chukrun.Execution.Manager.State.{ExecRef, ExecutionManager, signal, with_execution}
use chukrun.Execution.Manager.Attempts.{resume_execution}
use chukrun.Execution.Manager.Cancel.{cancel, cancelled_result}
use chukrun.Execution.Manager.Cancelling.{IsWaiting, CancelledWaiting, cancel-CancelledWaiting}
use chukrun.Execution.Manager.Submit.{enqueue_admitted}
use chukrun.Execution.Manager.Run.{begin_run}

-- The execution goes on with the result and the time of its cancellation.
abbrev pub GoesOn : ℕ → ExecRef → ExecutionManager → Execution → Type 0
GoesOn at ref em e =
    (get_elem? em.store ref.address ≡ some e)
    × (e.result ≡ some (cancelled_result ref.id))
    × (e.completed_at ≡ some at)

begin_run-GoesOn :
    (first now : ℕ) (ref : ExecRef) (em : ExecutionManager) (e : Execution)
    → GoesOn first ref em e
    → (e' : Execution) × GoesOn first ref (begin_run now ref em) e' × (e'.state ≡ running)
unfolding begin_run
begin_run-GoesOn first now ref em e (at, r, done) = (
  record e { state = running; started_at = some now; cancel_func = true },
  (get_elem?-modify ref.address _ _ (get_elem?-modify ref.address _ em.store at), r, done),
  refl,
)

enqueue_admitted-GoesOn :
    (first now : ℕ) (ref : ExecRef) (em : ExecutionManager) (e : Execution)
    → GoesOn first ref em e
    → (e' : Execution) × GoesOn first ref (enqueue_admitted now ref em) e' × (e'.state ≡ queued)
unfolding enqueue_admitted signal
enqueue_admitted-GoesOn first now ref em e (at, r, done) =
    let e' : Execution = record e { state = queued } in
    elim (Bool-cases (same_state em.lifecycle.state_val ready)) [
      | inl first ↦
          rw (enqueue_admitted, first)
            (e', (get_elem?-modify ref.address _ em.store at, r, done), refl)
      | inr later ↦
          rw (enqueue_admitted, later)
            (e', (get_elem?-modify ref.address _ em.store at, r, done), refl)
    ]

-- `Cancel` of an execution that is PENDING, QUEUED or RETRYING succeeds: the execution is CANCELLED
-- with the result that says so and the time, its id is removed from the queue, and its waiters are
-- woken and forgotten. But neither is the context of its run cancelled, nor the goroutine stopped: a run that was launched and had not begun makes it RUNNING when it begins, a
-- run that waits for its next attempt makes it RUNNING when the delay is over, and a `Submit` that
-- had let it through makes it QUEUED when it goes on; each leaves the result and the time of the
-- cancellation in it.
pub cancel_overtaken :
    (now : ℕ) (ref : ExecRef) (em : ExecutionManager) (e : Execution)
    → lookup ref.id em.executions ≡ some ref.address
    → get_elem? em.store ref.address ≡ some e
    → IsWaiting e.state
    → (later : ℕ)
    → let em' = (cancel now ref.id em).0 in
      ((cancel now ref.id em).1 ≡ nil)
      × CancelledWaiting now ref.id ref.address e em em'
      × ((e' : Execution) × GoesOn now ref (begin_run later ref em') e' × (e'.state ≡ running))
      × ((e' : Execution) × GoesOn now ref (with_execution ref.address resume_execution em') e'
          × (e'.state ≡ running))
      × ((e' : Execution) × GoesOn now ref (enqueue_admitted later ref em') e'
          × (e'.state ≡ queued))
unfolding resume_execution
cancel_overtaken now ref em e known at waiting later =
    let em' = (cancel now ref.id em).0 in
    let (succeeds, c) = cancel-CancelledWaiting now ref.id ref.address em e known at waiting in
    let goes_on : GoesOn now ref em' c.left = (c.stored, c.answered, c.stamped) in
    (
      succeeds,
      c,
      begin_run-GoesOn now later ref _ _ goes_on,
      (
        resume_execution c.left,
        (get_elem?-modify ref.address resume_execution em'.store c.stored, c.answered, c.stamped),
        refl,
      ),
      enqueue_admitted-GoesOn now later ref _ _ goes_on,
    )
