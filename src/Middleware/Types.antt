-- ===== src/Middleware/Types.antt =====
-- The `Handler` of core/execution/execution.go, the interface `Middleware` and the answers of the
-- middlewares. A handler works on a state `S` that stands for all that handlers share; a middleware
-- that keeps a state of its own finds it there through a `Slot`.
use chukrun.Base.{String, Bool, ◌≡◌, List, Option, none, some}
use chukrun.Base.Dict.{lookup}
use chukrun.Context.Layers.{Ctx}
use chukrun.Errors.{GoError}
use chukrun.Execution.Types.{
  ExecutionRequest, ExecutionResult, ExecutionState, status_failed, zero_result,
}

abbrev pub Capability : Type 0
Capability = String

pub data FailureMode : Type 0 where
  fail_closed fail_open : FailureMode

abbrev pub Handler : Type 0 → Type 0
Handler S = Ctx → ExecutionRequest → S → S × Option ExecutionResult × GoError

pub record Middleware (S : Type 0) : Type 0 where
  pub name : String
  pub dependencies : List Capability
  pub provides : List Capability
  pub failure_mode : FailureMode
  pub handle : Handler S → Handler S

-- A part `M` of the shared state: reading gives what was written last.
pub record Slot (S M : Type 0) : Type 0 where
  pub read : S → M
  pub write : M → S → S
  pub read-write : (m : M) (s : S) → read (write m s) ≡ m

-- `req.Metadata[key]`, the empty text where there is none.
abbrev pub or_empty_text : Option String → String
or_empty_text none = ""
or_empty_text (some s) = s

abbrev pub metadata_of : ExecutionRequest → String → Option String
metadata_of req key = elim req.metadata [ none ↦ none | some m ↦ lookup key m ]

-- The failed result that a middleware answers with.
abbrev pub refusal : ExecutionRequest → String → String → Bool → ExecutionResult
refusal req category message retryable = record zero_result {
  id = req.id;
  status = status_failed;
  state = ExecutionState.failed;
  error = some (record { category = category; message = message; retryable = retryable });
}
