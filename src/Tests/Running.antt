-- ===== src/Tests/Running.antt =====
-- The execution manager at concrete inputs.
use chukrun.Base.{
  ℕ, zero, suc, ◌+◌, ◌≤◌, ◌<◌, ◌≡◌, refl, inl, true, false, List, [], ◌∷◌, none, some, arith,
  length,
}
use chukrun.Base.Int.{pos}
use chukrun.Base.Dict.{lookup}
use chukrun.Context.Priority.{normal, high}
use chukrun.Errors.{GoError, nil, platform_error, provider}
use chukrun.Lifecycle.{LifecycleManager, new_lifecycle_manager}
use chukrun.Execution.Types.{
  ExecutionState, queued, running, null, ExecutionRequest, ExecutionResult, Execution, RetryPolicy,
  constant, zero_result, status_succeeded,
}
use chukrun.Execution.Registry.{Provider, Registry}
use chukrun.Execution.Scheduler.{standard_weights}
use chukrun.Execution.Manager.State.{ExecRef, ExecutionManager}
use chukrun.Execution.Manager.Submit.{submit}
use chukrun.Execution.Manager.Overshooting.{admit_all, enqueue_each, enqueue_each-admit_all}
use chukrun.Execution.Scheduler.{size}
use chukrun.Lifecycle.{is_ready}
use chukrun.Execution.Manager.Submitting.{Submitted, submit-Submitted}
use chukrun.Execution.Manager.Schedule.{schedule_next}
use chukrun.Execution.Manager.Slots.{SlotsHeld, Holding}
use chukrun.Execution.Manager.Dispatching.{schedule_next-SlotsHeld, IsBusy, schedule_next-IsBusy}
use chukrun.Execution.Manager.Attempts.{
  World, Attempted, Waited, returned, delay_passed, RunState, execute_attempts, resume_execution,
  is_retryable,
}
use chukrun.Execution.Manager.Retrying.{
  recorded, GoesOn, Decides, error_of, result_of, first_decision,
}
use chukrun.Execution.Manager.Run.{RunHandler}
use chukrun.Execution.Manager.Answers.{Handled}
use chukrun.Execution.Manager.Outcome.{handle_result-Handled}

abbrev pub request : ExecutionRequest
request = record {
  id = "exec-1";
  provider_ref = "openai-primary";
  payload = null;
  priority = "";
  retry_policy = none;
  timeout_policy = none;
  metadata = none;
  parent_id = none;
  timeout = pos 0;
}

abbrev pub execution_in : ExecutionState → Execution
execution_in s = record {
  id = "exec-1";
  request = request;
  state = s;
  priority = normal;
  created_at = 1;
  started_at = none;
  completed_at = none;
  attempts = [];
  result = none;
  parent_id = none;
  cancel_func = false;
  context_cancelled = false;
}

abbrev pub the_ref : ExecRef
the_ref = record { address = 0; id = "exec-1"; provider_ref = "openai-primary"; priority = normal }

abbrev pub ready_lifecycle : LifecycleManager
ready_lifecycle = record {
  state_val = chukrun.Lifecycle.ready;
  since = 0;
  reason = "";
  components = [];
  last_restart = 0;
  cooldown_ms = pos 1000;
  degraded_ready = true;
}

-- A manager with two slots, some of them held, and the execution in a state, with one waiter.
abbrev pub manager_with : ExecutionState → List ExecRef → List ExecRef → ExecutionManager
manager_with s runs queue = record {
  lifecycle = ready_lifecycle;
  sem = length runs;
  sem_cap = 2;
  queue_cap = 10;
  store = execution_in s ∷ [];
  executions = ("exec-1", 0) ∷ [];
  waiters = ("exec-1", 4 ∷ []) ∷ [];
  next_channel = 5;
  closed = [];
  scheduler = record {
    queues = (normal, queue) ∷ [];
    weights = standard_weights;
    current_credits = standard_weights;
  };
  schedule_signal = 0;
  provider_active = [];
  provider_limits = ("openai-primary", 500) ∷ [];
  runs = runs;
  published = [];
  fatals = [];
}

pub idle-SlotsHeld :
    (s : ExecutionState) (queue : List ExecRef) → SlotsHeld (manager_with s [] queue)
unfolding lookup
idle-SlotsHeld s queue = record {
  held = refl;
  capped = omega arith;
  counted = λ p named. refl;
  limited = λ p limit named found. omega arith;
}

submit-Submitted_example :
    Submitted 7 "exec-2" request
      (manager_with running [] [])
      (submit 7 "exec-2" request (manager_with running [] []))
submit-Submitted_example = submit-Submitted 7 "exec-2" request (manager_with running [] [])

enqueue_each-admit_all_example :
    let (em', refs) =
      admit_all 7 (("exec-2", request) ∷ ("exec-3", request) ∷ []) (manager_with running [] []) in
    size (ExecutionManager.scheduler (enqueue_each 7 refs em'))
    ≡ size (ExecutionManager.scheduler (manager_with running [] [])) + 2
unfolding is_ready size
enqueue_each-admit_all_example =
    enqueue_each-admit_all 7 (("exec-2", request) ∷ ("exec-3", request) ∷ [])
      (manager_with running [] []) refl (omega arith) ((λ e. cc), ((λ e. cc), tt))

schedule_next-SlotsHeld_example : SlotsHeld (schedule_next (manager_with queued [] (the_ref ∷ [])))
schedule_next-SlotsHeld_example =
    schedule_next-SlotsHeld (manager_with queued [] (the_ref ∷ []))
      (idle-SlotsHeld queued (the_ref ∷ []))

schedule_next-IsBusy_example : IsBusy (schedule_next (manager_with queued [] (the_ref ∷ [])))
schedule_next-IsBusy_example =
    schedule_next-IsBusy (manager_with queued [] (the_ref ∷ [])) (omega arith)

-- The first attempt fails with an error that may be retried, the second succeeds.
abbrev answer : ExecutionResult
answer = record zero_result { status = status_succeeded }

abbrev outage : GoError
outage = platform_error provider "unavailable" true nil

abbrev attempts_of : ℕ → Attempted
attempts_of zero = returned none outage 5
attempts_of (suc zero) = returned none outage 5
attempts_of (suc (suc n)) = returned (some answer) nil 9

abbrev world : World
world = record {
  waits = λ n. delay_passed;
  attempts = attempts_of;
  starts = λ n. n;
  provider_name = "openai-primary";
}

abbrev three_attempts : RetryPolicy
three_attempts = record {
  max_attempts = pos 3;
  backoff_strategy = constant;
  base_delay = pos 0;
  max_delay = pos 0;
  jitter = false;
  retryable_check = none;
}

abbrev started : RunState
started = record { exec = execution_in running; published = [] }

goes : GoesOn world three_attempts 1
unfolding chukrun.Execution.Manager.Attempts.attempt_result is_retryable
goes = record { fails = refl; retried = refl; waited = refl }

second-Decides : Decides world three_attempts 2
unfolding chukrun.Execution.Manager.Attempts.attempt_result
second-Decides = inl refl

first-GoesOn : (i : ℕ) → 1 ≤ i → i < 2 → GoesOn world three_attempts i
first-GoesOn zero low high = absurd (omega arith)
first-GoesOn (suc zero) low high = goes
first-GoesOn (suc (suc i)) low high = absurd (omega arith)

first_decision_example :
    let (s', res, err) = execute_attempts world three_attempts started in
    (recorded s' ≡ recorded started + 2) × (res ≡ result_of world 2) × (err ≡ error_of world 2)
first_decision_example =
    first_decision world three_attempts started 2 (omega arith) (omega arith) first-GoesOn
      second-Decides

handle_result-Handled_example : Handled 9 (pos 8) outage none (execution_in running)
handle_result-Handled_example =
    handle_result-Handled 9 (pos 8) outage none (execution_in running) (inl refl)

-- The provider's run holds a slot, and its waiter waits.
abbrev pub holding : ExecutionManager
holding = record (manager_with running (the_ref ∷ []) []) {
  provider_active = ("openai-primary", pos 1) ∷ [];
}

pub holding-SlotsHeld : SlotsHeld holding
unfolding lookup
holding-SlotsHeld = record {
  held = refl;
  capped = omega arith;
  counted = λ p named. ground arith;
  limited = λ p limit named found. ground arith;
}

pub the_ref-Holding : Holding the_ref holding.runs
the_ref-Holding = inl refl

abbrev pub one_provider : Registry ℕ
one_provider = ("openai-primary", record { name = "openai-primary"; self = 1 }) ∷ []

abbrev pub handler : Provider ℕ → RunHandler
handler p s = (s, some answer, nil)
