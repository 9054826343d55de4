-- ===== src/Errors.antt =====
-- core/errors/error.go: the structured errors that every component returns.
-- A Go `error` is `GoError`: `nil`, a `*PlatformError` with its cause, or an error of another type,
-- of which the program reads the text alone.
use chukrun.Base.{◌≡◌, refl, ◌≢◌, ◌⊎◌, inl, inr, String, Bool, true, false}
use chukrun.Base.Text.{◌<>◌}

pub data ErrorCategory : Type 0 where
  config provider timeout cancelled validation internal saturation auth : ErrorCategory
  other_category : String → ErrorCategory

-- `string(category)`.
unfoldable pub category_string : ErrorCategory → String
category_string config = "config"
category_string provider = "provider"
category_string timeout = "timeout"
category_string cancelled = "cancelled"
category_string validation = "validation"
category_string internal = "internal"
category_string saturation = "saturation"
category_string auth = "auth"
category_string (other_category s) = s

pub data GoError : Type 0 where
  nil : GoError
  platform_error : ErrorCategory → String → Bool → GoError → GoError
  plain_error : String → GoError

-- `NewError`.
abbrev pub new_error : ErrorCategory → String → Bool → GoError → GoError
new_error category message retryable cause = platform_error category message retryable cause

-- `err.Error()`. On `nil` it panics; its callers that may hold `nil` test first.
unfoldable pub error_text : GoError → String
unfolding category_string
error_text nil = ""
error_text (plain_error s) = s
error_text (platform_error category message retryable nil) =
    "[" <> category_string category <> "] " <> message
error_text (platform_error category message retryable (plain_error s)) =
    "[" <> category_string category <> "] " <> message <> ": " <> s
error_text (platform_error category message retryable (platform_error c m r e)) =
    "["
    <> category_string category
    <> "] "
    <> message
    <> ": "
    <> error_text (platform_error c m r e)

-- `Unwrap`.
unfoldable pub unwrap : GoError → GoError
unwrap (platform_error category message retryable cause) = cause
unwrap _ = nil

abbrev pub is_nil : GoError → Bool
is_nil nil = true
is_nil _ = false

pub record ExecutionError : Type 0 where
  pub category : String
  pub message : String
  pub retryable : Bool

-- `ToExecutionError` of an error that is not nil (of nil the program makes no `ExecutionError`).
unfoldable pub to_execution_error : GoError → ExecutionError
unfolding category_string error_text
to_execution_error nil = record { category = "internal"; message = ""; retryable = false }
to_execution_error (platform_error category message retryable cause) = record {
  category = category_string category;
  message = message;
  retryable = retryable;
}
to_execution_error (plain_error s) = record {
  category = "internal";
  message = s;
  retryable = false;
}

-- An error is nil or not, as the test says.
pub nil_cases :
    (err : GoError) → ((is_nil err ≡ true) × (err ≡ nil)) ⊎ ((is_nil err ≡ false) × (err ≢ nil))
nil_cases nil = inl (refl, refl)
nil_cases (platform_error category message retryable cause) = inr (refl, λ e. cc)
nil_cases (plain_error message) = inr (refl, λ e. cc)
