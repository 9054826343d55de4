-- ===== src/Execution/Manager/Cancel.antt =====
-- `Cancel` (core/execution/manager.go).
use chukrun.Base.{ℕ, String, true, false, none, some, if◌then◌else◌, get_elem?}
use chukrun.Base.Dict.{lookup}
use chukrun.Errors.{GoError, nil, new_error, validation}
use chukrun.Execution.Scheduler.{remove}
use chukrun.Execution.Types.{
  ExecutionState, pending, queued, running, retrying, ExecutionResult, cancelled, status_cancelled,
  zero_result, is_terminal_state,
}
use chukrun.Execution.Manager.State.{ExecutionManager, with_execution, publish, notify_waiters}

unfoldable pub cancelled_result : String → ExecutionResult
cancelled_result id = record zero_result {
  id = id;
  status = status_cancelled;
  state = cancelled;
  error = some (record {
    category = "cancelled";
    message = "execution cancelled by caller before running";
    retryable = false;
  });
}

-- The branch for an execution that is PENDING, QUEUED or RETRYING.
unfoldable pub cancel_waiting : ℕ → String → ℕ → ExecutionManager → ExecutionManager
unfolding cancelled_result
cancel_waiting now id address em =
    let removed = record em { scheduler = (remove (λ r. r.id) id em.scheduler).1 } in
    let marked =
      with_execution address
        (λ e. record e {
          state = cancelled;
          completed_at = some now;
          result = some (cancelled_result id);
        })
        removed in
    notify_waiters id (publish "execution.cancelled" id now marked)

-- The branch for an execution that is RUNNING: its context is cancelled, if it has one yet.
unfoldable pub cancel_running : ℕ → ExecutionManager → ExecutionManager
cancel_running address em =
    with_execution address (λ e. if e.cancel_func then record e { context_cancelled = true } else e)
      em

unfoldable pub cancel_in : ExecutionState → ℕ → String → ℕ → ExecutionManager → ExecutionManager
unfolding cancel_waiting cancel_running
cancel_in pending now id address em = cancel_waiting now id address em
cancel_in queued now id address em = cancel_waiting now id address em
cancel_in retrying now id address em = cancel_waiting now id address em
cancel_in running now id address em = cancel_running address em
cancel_in _ now id address em = em

unfoldable pub cancel : ℕ → String → ExecutionManager → ExecutionManager × GoError
unfolding cancel_in
cancel now id em = elim (lookup id em.executions) [
  | none ↦ (em, new_error validation "execution not found" false nil)
  | some address ↦ elim (get_elem? em.store address) [
    | none ↦ (em, nil)
    | some e ↦
        if is_terminal_state e.state then (em, nil) else (cancel_in e.state now id address em, nil)
  ]
]
