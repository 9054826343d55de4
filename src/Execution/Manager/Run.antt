-- ===== src/Execution/Manager/Run.antt =====
-- `translateError`, `handleResult`, `publishOutcomeEvents` and `runExecution` (core/execution/
-- manager.go), for a request that is not streamed. A panic in them is caught by the deferred
-- function of `runExecution`, `recover_panic`.
use chukrun.Base.{
  ℕ, String, Bool, true, false, ◌||◌, ◌∷◌, Option, none, some, length, if◌then◌else◌, get_elem?,
}
use chukrun.Base.Int.{ℤ, pos, ◌-ℤ◌}
use chukrun.Base.Text.{◌<>◌}
use chukrun.Errors.{
  GoError, nil, platform_error, ErrorCategory, timeout, cancelled, ExecutionError, error_text,
  to_execution_error,
}
use chukrun.Execution.Types.{
  ExecutionState, ExecutionStatus, running, status_succeeded, status_failed, status_cancelled,
  status_timed_out, status_unset, ExecutionResult, Execution, zero_result, is_unset,
}
use chukrun.Execution.Registry.{Registry, Provider, resolve}
use chukrun.Execution.Manager.State.{
  ExecRef, ExecutionManager, with_execution, publish, release_slots, notify_waiters,
}
use chukrun.Execution.Manager.Attempts.{RunState}

-- The `switch platErr.Category` of `translateError`.
unfoldable pub outcome_of_category : ErrorCategory → ExecutionState × ExecutionStatus
outcome_of_category timeout = (ExecutionState.timed_out, status_timed_out)
outcome_of_category cancelled = (ExecutionState.cancelled, status_cancelled)
outcome_of_category _ = (ExecutionState.failed, status_failed)

-- `translateError` of an error that is not nil.
unfoldable pub translate_error : GoError → ExecutionState × ExecutionStatus × ExecutionError
unfolding outcome_of_category
translate_error (platform_error category message retryable cause) =
    let (state, status) = outcome_of_category category in
    (state, status, to_execution_error (platform_error category message retryable cause))
translate_error err = (ExecutionState.failed, status_failed, to_execution_error err)

-- `executionResult.Error != nil || (Status != "" && Status != StatusSucceeded)`.
unfoldable pub is_short_circuit : ExecutionResult → Bool
is_short_circuit r =
    elim r.error [ some _ ↦ true | none ↦ false ]
    || elim r.status [ status_unset ↦ false | status_succeeded ↦ false | _ ↦ true ]

abbrev pub retry_count : Execution → ℤ
retry_count e = pos (length e.attempts) -ℤ pos 1

-- The three endings of `handleResult`.
unfoldable pub short_circuited : ℤ → ExecutionResult → Execution → Execution
short_circuited duration r e =
    let state = if is_unset r.state then ExecutionState.failed else r.state in
    record e { state = state; result = some (record r { state = state; duration = duration }) }

unfoldable pub succeeded_with : ℤ → ExecutionResult → Execution → Execution
succeeded_with duration r e = record e {
  state = ExecutionState.succeeded;
  result = some (record r {
    state = ExecutionState.succeeded;
    status = status_succeeded;
    attempt_count = pos (length e.attempts);
    retry_count = retry_count e;
    attempts = e.attempts;
    duration = duration;
  });
}

unfoldable pub failed_with : ℤ → GoError → Execution → Execution
unfolding translate_error
failed_with duration err e =
    let (state, status, error) = translate_error err in
    record e {
      state = state;
      result = some (record zero_result {
        id = e.id;
        status = status;
        state = state;
        error = some error;
        duration = duration;
        attempt_count = pos (length e.attempts);
        retry_count = retry_count e;
        attempts = e.attempts;
      });
    }

-- `handleResult`; `none` is the panic of `lastErr.Error()` where the error and the result are nil.
unfoldable pub handle_result :
    ℕ → ℤ → GoError → Option ExecutionResult → Execution → Option Execution
unfolding is_short_circuit short_circuited succeeded_with failed_with
handle_result now duration nil (some r) e =
    let ended = record e { completed_at = some now } in
    some (
      if is_short_circuit r
      then short_circuited duration r ended
      else succeeded_with duration r ended)
handle_result now duration nil none e = none
handle_result now duration err res e =
    some (failed_with duration err (record e { completed_at = some now }))

-- The topic of `publishOutcomeEvents`; `none` is the panic of its `default` where the result has no
-- error.
unfoldable pub outcome_topic : Execution → Option String
outcome_topic e = elim e.state [
  | ExecutionState.succeeded ↦ some "execution.succeeded"
  | ExecutionState.timed_out ↦ some "execution.timed_out"
  | ExecutionState.cancelled ↦ some "execution.cancelled"
  | _ ↦ elim e.result [
    | none ↦ none
    | some r ↦ elim r.error [ none ↦ none | some _ ↦ some "execution.failed" ]
  ]
]

-- The deferred function of `runExecution`, after a panic with a text.
unfoldable pub panic_result : String → String → ExecutionResult
panic_result id panic = record zero_result {
  id = id;
  status = status_failed;
  state = ExecutionState.failed;
  error =
      some (record {
        category = "internal";
        message = "internal panic: " <> panic;
        retryable = false;
      });
}

-- The message of its call of `logger.Fatal`.
unfoldable pub panic_message : String → String → String
panic_message id panic = "panic recovered in execution " <> id <> ": " <> panic

-- The slots and the waiters come before the call of `logger.Fatal`; the manager has a logger.
unfoldable pub recover_panic : ℕ → String → ExecRef → ExecutionManager → ExecutionManager
unfolding panic_result panic_message
recover_panic now panic ref em =
    let marked =
      with_execution ref.address
        (λ e. record e {
          state = ExecutionState.failed;
          completed_at = some now;
          result = some (panic_result ref.id panic);
        })
        em in
    record (notify_waiters ref.id (release_slots ref marked)) {
      fatals = panic_message ref.id panic ∷ em.fatals;
    }

-- The beginning of `runExecution`, up to the context of the run.
unfoldable pub begin_run : ℕ → ExecRef → ExecutionManager → ExecutionManager
begin_run now ref em =
    with_execution ref.address (λ e. record e { cancel_func = true })
      (publish "execution.started" ref.id now
        (with_execution ref.address (λ e. record e { state = running; started_at = some now }) em))

-- The branch of `runExecution` where the provider is not found.
unfoldable pub unresolved_result : String → GoError → ExecutionResult
unresolved_result id err = record zero_result {
  id = id;
  status = status_failed;
  state = ExecutionState.failed;
  error = some (record {
    category = "internal";
    message = "failed to resolve provider: " <> error_text err;
    retryable = false;
  });
}

unfoldable pub fail_unresolved : ℕ → GoError → ExecRef → ExecutionManager → ExecutionManager
unfolding unresolved_result
fail_unresolved now err ref em =
    let marked =
      with_execution ref.address
        (λ e. record e {
          state = ExecutionState.failed;
          completed_at = some now;
          result = some (unresolved_result ref.id err);
        })
        em in
    notify_waiters ref.id (release_slots ref (publish "execution.failed" ref.id now marked))

-- The end of `runExecution`: `handleResult`, `publishOutcomeEvents`, and the slots and the waiters.
unfoldable pub publish_outcome : ℕ → Execution → ExecRef → ExecutionManager → ExecutionManager
publish_outcome now e ref em = elim (outcome_topic e) [
  | some topic ↦ notify_waiters ref.id (release_slots ref (publish topic ref.id now em))
  | none ↦ recover_panic now "nil pointer dereference" ref em
]

unfoldable pub conclude_run :
    ℕ
    → ℤ
    → GoError
    → Option ExecutionResult
    → Execution
    → ExecRef
    → ExecutionManager
    → ExecutionManager
conclude_run now duration err res e ref em = elim (handle_result now duration err res e) [
  | some e' ↦ publish_outcome now e' ref (with_execution ref.address (λ _. e') em)
  | none ↦ recover_panic now "nil pointer dereference" ref em
]

-- The handler that `runExecution` calls: `executeAttempts` inside the pipeline.
abbrev pub RunHandler : Type 0
RunHandler = RunState → RunState × Option ExecutionResult × GoError

-- `runExecution` as a whole, with nothing else running meanwhile: `chained` is the handler that the
-- pipeline makes, `now` the times of its start and of its end.
unfoldable pub run_execution :
    {P : Type 0}
    → Registry P
    → (Provider P → RunHandler)
    → ℕ
    → ℕ
    → ExecRef
    → ExecutionManager
    → ExecutionManager
run_execution registry chained now later ref em =
    let begun = begin_run now ref em in
    let (found, err) = resolve ref.provider_ref registry in
    elim found [
      | none ↦ fail_unresolved later err ref begun
      | some p ↦ elim (get_elem? begun.store ref.address) [
        | none ↦ begun
        | some e ↦
            let (s, res, last) = chained p (record { exec = e; published = begun.published }) in
            conclude_run later (pos later -ℤ pos now) last res s.exec ref
              (record begun { published = s.published })
      ]
    ]
