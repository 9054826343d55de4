-- ===== src/Telemetry/Logger.antt =====
-- core/telemetry/logger.go: levels, fields, and the way of an entry to the queue of the sinks. The
-- sinks and the goroutine that empties the queue are left out, and so is a call after the queue was
-- closed. A context is not nil. `strings.ToLower` and `strings.Contains` are parameters.
pub mod Redaction
use chukrun.Base.{
  ℕ, suc, String, Bool, true, false, not, ◌&&◌, ◌||◌, List, [], ◌∷◌, ◌++◌, Option, none, some,
  length, str_eq, ltb, any, if◌then◌else◌,
}
use chukrun.Base.Int.{ℤ}
use chukrun.Errors.{
  GoError, nil, platform_error, plain_error, ErrorCategory, category_string, error_text, is_nil,
}
use chukrun.Execution.Types.{Value}
use chukrun.Context.Layers.{
  Ctx, UserLayer, get_trace_id, get_session_id, get_execution_id, get_attempt_number, get_user_id,
}
use chukrun.Context.Derive.{is_sensitive_key}

-- The value of a field; `error_value nil` and `any_value null` stand for a value that is nil.
pub data FieldValue : Type 0 where
  text_value : String → FieldValue
  int_value : ℤ → FieldValue
  bool_value : Bool → FieldValue
  error_value : GoError → FieldValue
  any_value : Value → FieldValue

pub record Field : Type 0 where
  pub key : String
  pub field_value : FieldValue
  pub marked_sensitive : Bool
  pub marked_error : Bool

-- A field of a key and a value, with no mark.
abbrev pub field : String → FieldValue → Field
field key v = record { key = key; field_value = v; marked_sensitive = false; marked_error = false }

-- `SensitiveField` and `ErrorField`.
abbrev pub sensitive_field : String → FieldValue → Field
sensitive_field key v = record {
  key = key;
  field_value = v;
  marked_sensitive = true;
  marked_error = false;
}

abbrev pub error_field : GoError → Field
error_field err = record {
  key = "error";
  field_value = error_value err;
  marked_sensitive = false;
  marked_error = true;
}

pub data LogLevel : Type 0 where
  level_debug level_info level_warn level_error level_fatal : LogLevel

-- The number of a level.
abbrev pub rank : LogLevel → ℕ
rank level_debug = 0
rank level_info = 1
rank level_warn = 2
rank level_error = 3
rank level_fatal = 4

-- `String` of a level.
unfoldable pub level_string : LogLevel → String
level_string level_debug = "DEBUG"
level_string level_info = "INFO"
level_string level_warn = "WARN"
level_string level_error = "ERROR"
level_string level_fatal = "FATAL"

pub record Texts : Type 0 where
  pub to_lower : String → String
  pub contains : String → String → Bool

-- `ParseLevel`.
unfoldable pub parse_level : Texts → String → LogLevel
parse_level t s =
    let lower = t.to_lower s in
    if str_eq lower "debug"
    then level_debug
    else if str_eq lower "warn"
    then level_warn
    else if str_eq lower "error"
    then level_error
    else if str_eq lower "fatal"
    then level_fatal
    else level_info

pub record LogEntry : Type 0 where
  pub timestamp : ℤ
  pub level : LogLevel
  pub message : String
  pub fields : List Field

-- `hasField`.
unfoldable pub has_field : List Field → String → Bool
has_field fields key = any (λ f. str_eq f.key key) fields

-- `addEnrichedField`.
unfoldable pub add_enriched_field : List Field → List Field → String → String → List Field
add_enriched_field enriched entry_fields key val =
    if has_field entry_fields key
    then enriched
    else if str_eq val ""
    then enriched
    else enriched ++ field key (text_value val) ∷ []

abbrev org_of : Option UserLayer → String
org_of none = ""
org_of (some ul) = ul.org_id

-- `enrich`.
unfoldable pub enrich : Ctx → List Field → List Field
unfolding has_field add_enriched_field
enrich ctx entry_fields =
    let with_trace = add_enriched_field [] entry_fields "trace_id" (get_trace_id ctx) in
    let with_session =
      add_enriched_field with_trace entry_fields "session_id" (get_session_id ctx) in
    let with_execution =
      add_enriched_field with_session entry_fields "execution_id" (get_execution_id ctx) in
    let with_attempt =
      if has_field entry_fields "attempt_number"
      then with_execution
      else with_execution ++ field "attempt_number" (int_value (get_attempt_number ctx)) ∷ [] in
    let with_user = add_enriched_field with_attempt entry_fields "user_id" (get_user_id ctx) in
    add_enriched_field with_user entry_fields "tenant_id" (org_of ctx.user) ++ entry_fields

abbrev cause_field : GoError → List Field
cause_field cause =
    if is_nil cause then [] else field "error.cause" (text_value (error_text cause)) ∷ []

-- `expandSingleError`.
unfoldable pub expand_single_error : GoError → List Field
expand_single_error (platform_error category message retryable cause) =
    field "error.category" (text_value (category_string category))
    ∷ field "error.retryable" (bool_value retryable)
    ∷ field "error.message" (text_value message)
    ∷ cause_field cause
expand_single_error err =
    field "error.category" (text_value "internal")
    ∷ field "error.retryable" (bool_value false)
    ∷ field "error.message" (text_value (error_text err))
    ∷ []

-- The error in a field, where `f.Value.(error)` finds one.
abbrev pub error_in : FieldValue → GoError
error_in (error_value err) = err
error_in _ = nil

-- `expandErrors`.
unfoldable pub expand_errors : List Field → List Field
unfolding expand_single_error
expand_errors [] = []
expand_errors (f ∷ rest) =
    let others = expand_errors rest in
    if (f.marked_error || str_eq f.key "error") && not (is_nil (error_in f.field_value))
    then expand_single_error (error_in f.field_value) ++ others
    else f ∷ others

-- The test of `redact`.
unfoldable pub is_sensitive : Texts → Ctx → Field → Bool
is_sensitive t ctx f =
    let lower = t.to_lower f.key in
    f.marked_sensitive
    || (any (str_eq lower) ("api_key" ∷ "secret" ∷ "password" ∷ "authorization" ∷ [])
        || (t.contains lower "key" || (t.contains lower "secret" || is_sensitive_key ctx f.key)))

abbrev pub redacted : Field → Field
redacted f = sensitive_field f.key (text_value "[REDACTED]")

-- `redact`.
unfoldable pub redact : Texts → Ctx → List Field → List Field
redact t ctx [] = []
redact t ctx (f ∷ rest) =
    let others = redact t ctx rest in
    if is_sensitive t ctx f then redacted f ∷ others else f ∷ others

-- The global state of the logs: the queue, how many entries were dropped, and the active level;
-- `exited` once a fatal entry has ended the process.
pub record Logs : Type 0 where
  pub queue : List LogEntry
  pub queue_size : ℕ
  pub dropped : ℕ
  pub current_level : LogLevel
  pub exited : Bool

abbrev pub set_global_log_level : LogLevel → Logs → Logs
set_global_log_level level logs = record logs { current_level = level }

-- The last select of `log`: the entry is sent if there is room.
unfoldable pub send_entry : LogEntry → Logs → Logs
send_entry entry logs =
    if ltb (length logs.queue) logs.queue_size
    then record logs { queue = logs.queue ++ entry ∷ [] }
    else logs

-- The select before: the oldest entry goes, if there is one.
abbrev pub drop_oldest_entry : List LogEntry → Logs → Logs
drop_oldest_entry [] logs = logs
drop_oldest_entry (oldest ∷ rest) logs = record logs { queue = rest; dropped = suc logs.dropped }

unfoldable pub submit_entry : LogEntry → Logs → Logs
unfolding send_entry
submit_entry entry logs =
    if ltb (length logs.queue) logs.queue_size
    then record logs { queue = logs.queue ++ entry ∷ [] }
    else if ltb (rank entry.level) 2
    then record logs { dropped = suc logs.dropped }
    else send_entry entry (drop_oldest_entry logs.queue logs)

-- The entry that `log` makes.
unfoldable pub make_entry : Texts → ℤ → Ctx → List Field → LogLevel → String → List Field → LogEntry
unfolding enrich expand_errors redact
make_entry t now ctx own level msg fields = record {
  timestamp = now;
  level = level;
  message = msg;
  fields = redact t ctx (expand_errors (enrich ctx own ++ fields));
}

-- `log`, of a logger with its own fields.
unfoldable pub log : Texts → ℤ → Ctx → List Field → LogLevel → String → List Field → Logs → Logs
unfolding make_entry submit_entry
log t now ctx own level msg fields logs =
    let submitted = submit_entry (make_entry t now ctx own level msg fields) logs in
    if ltb (rank level) (rank logs.current_level)
    then logs
    else if ltb (rank level) 4
    then submitted
    else record submitted { exited = true }
