-- ===== src/Tests/Logs.antt =====
-- The logger at a concrete input: a full queue with room for one entry.
use chukrun.Base.{◌≡◌, refl, true, false, List, [], ◌∷◌, str_eq}
use chukrun.Base.Int.{pos}
use chukrun.Base.Dict.{lookup}
use chukrun.Context.Layers.{Ctx}
use chukrun.Context.Derive.{is_sensitive_key, new_root_context}
use chukrun.Errors.{plain_error, error_text}
use chukrun.Telemetry.Logger.{
  Field, FieldValue, field, text_value, level_info, Texts, LogEntry, Logs, sensitive_field,
  error_field, bool_value, expand_single_error, expand_errors, redact, is_sensitive,
}

abbrev texts : Texts
texts = record { to_lower = λ s. s; contains = λ s part. str_eq s part }

abbrev first_entry : LogEntry
first_entry = record { timestamp = pos 1; level = level_info; message = "first"; fields = [] }

abbrev full_logs : Logs
full_logs = record {
  queue = first_entry ∷ [];
  queue_size = 1;
  dropped = 0;
  current_level = level_info;
  exited = false;
}

abbrev root : Ctx
root = new_root_context "node" "1"

abbrev secrets : List Field
secrets = field "password" (text_value "hunter2") ∷ []

abbrev values : List Field → List FieldValue
values [] = []
values (f ∷ rest) = f.field_value ∷ values rest

password_hidden : values (redact texts root secrets) ≡ text_value "[REDACTED]" ∷ []
unfolding redact is_sensitive
password_hidden = refl

-- A mark is enough to hide a value.
abbrev marked : List Field
marked = sensitive_field "note" (text_value "hunter2") ∷ []

mark_hides : values (redact texts root marked) ≡ text_value "[REDACTED]" ∷ []
unfolding redact is_sensitive
mark_hides = refl

-- The mark of an error is lost when the error is expanded, and its text is shown.
abbrev marked_failure : List Field
marked_failure = record (error_field (plain_error "hunter2")) { marked_sensitive = true } ∷ []

expansion_drops_mark :
    values (redact texts root (expand_errors marked_failure))
    ≡ text_value "internal" ∷ bool_value false ∷ text_value "hunter2" ∷ []
unfolding redact is_sensitive expand_errors expand_single_error error_text is_sensitive_key lookup
    new_root_context
expansion_drops_mark = refl
