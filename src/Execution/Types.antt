-- ===== src/Execution/Types.antt =====
-- core/execution/execution.go: the records that the engine and the middlewares exchange.
-- Go's `int` and `time.Duration` are ℤ, a `time.Time` is a number of nanoseconds, a pointer that may
-- be nil is an `Option`, and a float64 is its 64-bit pattern (`math.Float64bits`), whose arithmetic
-- the model takes from outside. A payload or an output (`any`) keeps what the program looks at:
-- whether it is nil, a text, or a map with a prompt, and how `%v` prints it.
use chukrun.Base.{ℕ, String, Bool, true, false, List, [], Option, none}
use chukrun.Base.Dict.{Dict}
use chukrun.Base.Int.{ℤ, pos}
use chukrun.Context.Priority.{PriorityClass}
use chukrun.Errors.{GoError, ExecutionError}

abbrev pub Float64 : Type 0
Float64 = ℕ

-- The empty text is `unset`; a provider or a middleware may set any other text.
pub data ExecutionState : Type 0 where
  pending queued running retrying succeeded failed cancelled timed_out unset : ExecutionState
  other_state : String → ExecutionState

pub data ExecutionStatus : Type 0 where
  status_succeeded status_failed status_cancelled status_timed_out status_unset : ExecutionStatus
  other_status : String → ExecutionStatus

pub data BackoffStrategy : Type 0 where
  constant linear exponential : BackoffStrategy
  other_strategy : String → BackoffStrategy

pub record RetryPolicy : Type 0 where
  pub max_attempts : ℤ
  pub backoff_strategy : BackoffStrategy
  pub base_delay : ℤ
  pub max_delay : ℤ
  pub jitter : Bool
  pub retryable_check : Option (GoError → Bool)

pub record TimeoutPolicy : Type 0 where
  pub total : ℤ
  pub per_attempt : ℤ

pub record TokenUsage : Type 0 where
  pub prompt_tokens : ℤ
  pub completion_tokens : ℤ
  pub total_tokens : ℤ

-- `m["prompt"]` of a map payload.
pub data Prompt : Type 0 where
  no_prompt : Prompt
  text_prompt : String → Prompt
  other_prompt : Prompt

pub data Value : Type 0 where
  null : Value
  text : String → Value
  object : Prompt → String → Value
  other_value : String → Value

pub record ExecutionRequest : Type 0 where
  pub id : String
  pub provider_ref : String
  pub payload : Value
  pub priority : PriorityClass
  pub retry_policy : Option RetryPolicy
  pub timeout_policy : Option TimeoutPolicy
  pub metadata : Option (Dict String)
  pub parent_id : Option String
  pub timeout : ℤ

pub record Attempt : Type 0 where
  pub number : ℤ
  pub started_at : ℕ
  pub ended_at : Option ℕ
  pub error : Option ExecutionError
  pub provider_ref : String

pub record ExecutionResult : Type 0 where
  pub id : String
  pub status : ExecutionStatus
  pub state : ExecutionState
  pub output : Value
  pub error : Option ExecutionError
  pub token_usage : Option TokenUsage
  pub cost : Option Float64
  pub duration : ℤ
  pub attempt_count : ℤ
  pub retry_count : ℤ
  pub attempts : List Attempt

-- `ExecutionResult` with every field at its zero value.
abbrev pub zero_result : ExecutionResult
zero_result = record {
  id = "";
  status = status_unset;
  state = unset;
  output = null;
  error = none;
  token_usage = none;
  cost = none;
  duration = pos 0;
  attempt_count = pos 0;
  retry_count = pos 0;
  attempts = [];
}

-- `cancel_func` says whether `CancelFunc` is set. Calling it cancels the context of the run, which
-- `context_cancelled` shows.
pub record Execution : Type 0 where
  pub id : String
  pub request : ExecutionRequest
  pub state : ExecutionState
  pub priority : PriorityClass
  pub created_at : ℕ
  pub started_at : Option ℕ
  pub completed_at : Option ℕ
  pub attempts : List Attempt
  pub result : Option ExecutionResult
  pub parent_id : Option String
  pub cancel_func : Bool
  pub context_cancelled : Bool

-- `==` with the empty state.
abbrev pub is_unset : ExecutionState → Bool
is_unset unset = true
is_unset _ = false

-- `isTerminalState` (core/execution/manager.go).
unfoldable pub is_terminal_state : ExecutionState → Bool
is_terminal_state succeeded = true
is_terminal_state failed = true
is_terminal_state cancelled = true
is_terminal_state timed_out = true
is_terminal_state _ = false

-- `extractPrompt` (core/execution/manager.go).
unfoldable pub extract_prompt : Value → String
extract_prompt null = ""
extract_prompt (text s) = s
extract_prompt (object (text_prompt s) printed) = s
extract_prompt (object _ printed) = printed
extract_prompt (other_value printed) = printed
