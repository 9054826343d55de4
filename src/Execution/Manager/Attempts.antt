-- ===== src/Execution/Manager/Attempts.antt =====
-- `resolvePolicies`, `waitBackoff`, `runSingleAttempt`, `isRetryable` and `executeAttempts`
-- (core/execution/manager.go): the attempts of one run. What the provider, the clock and the
-- contexts do in the run is its `World`: for each attempt the winner of its `select` statements.
-- Token usage and cost go to telemetry alone.
use chukrun.Base.{
  ℕ, zero, suc, String, Bool, true, false, not, ◌||◌, List, [], ◌∷◌, ◌++◌, Option, none, some, ltb,
  if◌then◌else◌,
}
use chukrun.Base.Int.{pos, pos_part, ltb_ℤ}
use chukrun.Errors.{
  GoError, nil, platform_error, new_error, timeout, is_nil, to_execution_error, ExecutionError,
}
use chukrun.Execution.Types.{
  RetryPolicy, TimeoutPolicy, exponential, ExecutionRequest, ExecutionResult, Execution, Attempt,
  retrying, running,
}
use chukrun.Execution.Manager.State.{Published}

-- `waitBackoff`: the delay passes, or the context of the run ends with an error.
pub data Waited : Type 0 where
  delay_passed : Waited
  interrupted : GoError → Waited

-- `runSingleAttempt`: the provider returns a result and an error, or the attempt's context ends;
-- then `run_over` says whether the run's context has ended too. Both come with the time and the
-- latter with the context's error.
pub data Attempted : Type 0 where
  returned : Option ExecutionResult → GoError → ℕ → Attempted
  context_done : (run_over : Bool) → GoError → ℕ → Attempted

pub record World : Type 0 where
  pub waits : ℕ → Waited
  pub attempts : ℕ → Attempted
  pub starts : ℕ → ℕ
  pub provider_name : String

-- The execution and the events of the run.
pub record RunState : Type 0 where
  pub exec : Execution
  pub published : List Published

abbrev pub default_retry_policy : RetryPolicy
default_retry_policy = record {
  max_attempts = pos 3;
  backoff_strategy = exponential;
  base_delay = pos 200000000;
  max_delay = pos 30000000000;
  jitter = true;
  retryable_check = none;
}

-- `resolvePolicies`.
unfoldable pub resolve_retry : ExecutionRequest → RetryPolicy
resolve_retry req = elim req.retry_policy [ none ↦ default_retry_policy | some p ↦ p ]

unfoldable pub resolve_timeout : ExecutionRequest → TimeoutPolicy
resolve_timeout req = elim req.timeout_policy [
  | none ↦ record {
    total = if ltb_ℤ (pos 0) req.timeout then req.timeout else pos 60000000000;
    per_attempt = pos 0;
  }
  | some p ↦ p
]

-- `waitBackoff` up to its `select`: the state is RETRYING and the retry is announced.
unfoldable pub start_backoff : ℕ → RunState → RunState
start_backoff now s = record {
  exec = record s.exec { state = retrying };
  published =
      record { topic = "execution.retrying"; execution_id = s.exec.id; at = now } ∷ s.published;
}

-- The branch of its `select` for the delay: the execution is RUNNING again.
unfoldable pub resume_execution : Execution → Execution
resume_execution e = record e { state = running }

unfoldable pub end_backoff : RunState → RunState
unfolding resume_execution
end_backoff s = record s { exec = resume_execution s.exec }

unfoldable pub wait_backoff : Waited → ℕ → RunState → RunState × GoError
unfolding start_backoff end_backoff
wait_backoff delay_passed now s = (end_backoff (start_backoff now s), nil)
wait_backoff (interrupted err) now s = (start_backoff now s, err)

-- What an attempt comes to.
unfoldable pub attempt_result : Attempted → Option ExecutionResult × GoError
attempt_result (returned res nil ended) = (res, nil)
attempt_result (returned res err ended) = (none, err)
attempt_result (context_done true cause ended) =
    (none, new_error timeout "execution exceeded configured deadline" false cause)
attempt_result (context_done false cause ended) =
    (none, new_error timeout "per-attempt timeout exceeded" true cause)

abbrev pub ended_at : Attempted → ℕ
ended_at (returned _ _ ended) = ended
ended_at (context_done _ _ ended) = ended

abbrev pub error_record : GoError → Option ExecutionError
error_record nil = none
error_record err = some (to_execution_error err)

-- `runSingleAttempt`.
unfoldable pub run_single_attempt :
    World → ℕ → RunState → RunState × Option ExecutionResult × GoError
unfolding attempt_result
run_single_attempt w attempt s =
    let outcome = w.attempts attempt in
    let (res, err) = attempt_result outcome in
    let current : Attempt = record {
      number = pos attempt;
      started_at = w.starts attempt;
      ended_at = some (ended_at outcome);
      error = error_record err;
      provider_ref = w.provider_name;
    } in
    (record s { exec = record s.exec { attempts = s.exec.attempts ++ current ∷ [] } }, res, err)

-- `isRetryable`.
abbrev pub retryable_by_kind : GoError → Bool
retryable_by_kind (platform_error _ _ retryable _) = retryable
retryable_by_kind _ = true

unfoldable pub is_retryable : GoError → RetryPolicy → Bool
is_retryable nil policy = false
is_retryable err policy = elim policy.retryable_check [
  | none ↦ retryable_by_kind err
  | some check ↦ check err
]

-- `if attempt > 1 { waitBackoff … }`.
unfoldable pub before_attempt : World → ℕ → RunState → RunState × GoError
before_attempt w attempt s =
    if ltb 1 attempt then wait_backoff (w.waits attempt) (w.starts attempt) s else (s, nil)

-- The loop `AttemptLoop`, by the rounds that are left, with its three variables.
unfoldable pub attempt_loop :
    World
    → RetryPolicy
    → ℕ
    → ℕ
    → RunState
    → Option ExecutionResult
    → GoError
    → RunState × Option ExecutionResult × GoError
attempt_loop w policy zero attempt s res last = (s, res, last)
attempt_loop w policy (suc rounds) attempt s res last =
    let (ready, waited) = before_attempt w attempt s in
    let (after, res', err) = run_single_attempt w attempt ready in
    let again = attempt_loop w policy rounds (suc attempt) after res' err in
    if not (is_nil waited)
    then (ready, res, waited)
    else if is_nil err || not (is_retryable err policy)
    then (after, res', err)
    else again

-- `executeAttempts`.
unfoldable pub execute_attempts :
    World → RetryPolicy → RunState → RunState × Option ExecutionResult × GoError
unfolding attempt_loop
execute_attempts w policy s = attempt_loop w policy (pos_part policy.max_attempts) 1 s none nil
