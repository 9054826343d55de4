-- ===== src/Context/Derive.antt =====
-- The derivations of a request context (core/context/context.go). `time.Now()` is an argument, and
-- so is the session store where a derivation uses it. Of the standard library's `WithDeadline` the
-- model has what it documents: the earlier of the two deadlines is the context's. Copies of maps are
-- values here.
pub mod Metadata
pub mod Lineage
use Prim.Native.String.{len}
use chukrun.Base.{
  ℕ, ◌+◌, ◌-◌, String, Bool, true, false, List, [], ◌∷◌, Option, none, some, str_eq, ltb,
  if◌then◌else◌,
}
use chukrun.Base.Int.{ℤ, pos, ◌+ℤ◌, ltb_ℤ}
use chukrun.Base.Dict.{Dict, lookup, insert}
use chukrun.Base.Text.{◌<>◌}
use chukrun.Context.Layers.{
  CostBudget, RuntimeLayer, SessionLayer, RequestLayer, Ctx, get_execution_id, get_trace_id,
  layer_metadata,
}
use chukrun.Context.Priority.{PriorityClass}
use chukrun.Context.Session.{SessionStore, get_or_create}
use chukrun.Errors.{GoError, nil, plain_error}
use chukrun.Execution.Types.{Value}

-- `NewRootContext`.
unfoldable pub new_root_context : String → String → Ctx
new_root_context instance_id version = record {
  runtime = some (record { instance_id = instance_id; version = version });
  user = none;
  session = none;
  request = none;
  compat_session_id = none;
  compat_user_id = none;
  compat_trace_id = none;
  compat_execution_id = none;
  sensitive = [];
  expires = none;
}

-- `context.WithDeadline`.
unfoldable pub earlier : ℤ → Option ℤ → ℤ
earlier d none = d
earlier d (some p) = if ltb_ℤ p d then p else d

abbrev pub with_deadline : ℤ → Ctx → Ctx
with_deadline d ctx = record ctx { expires = some (earlier d ctx.expires) }

-- `WithSession`.
unfoldable pub with_session : ℤ → Ctx → String → String → SessionStore → SessionStore × Ctx
with_session now ctx session_id user_id ss =
    let (ss', state) = get_or_create now session_id ss in
    (
      ss',
      record ctx {
        session =
            some (record { session_id = session_id; session_user = user_id; state = some state });
        compat_session_id = some session_id;
        compat_user_id = if str_eq user_id "" then ctx.compat_user_id else some user_id;
      },
    )

abbrev inherited_budget : Option RequestLayer → Option CostBudget
inherited_budget none = none
inherited_budget (some parent) = parent.cost_budget

-- `WithExecution`.
unfoldable pub with_execution : ℤ → Ctx → String → ℤ → PriorityClass → Ctx
with_execution now ctx execution_id deadline priority =
    let timed = ltb_ℤ (pos 0) deadline in
    let requested : ℤ = if timed then now +ℤ deadline else pos 0 in
    let derived = if timed then with_deadline requested ctx else ctx in
    let trace_id =
      if str_eq (get_trace_id ctx) "" then "tr-" <> execution_id else get_trace_id ctx in
    record derived {
      request = some (record {
        execution_id = execution_id;
        parent_execution_id = get_execution_id ctx;
        trace_id = trace_id;
        deadline = requested;
        priority = priority;
        cost_budget = inherited_budget ctx.request;
        attempt = pos 1;
        metadata = some (layer_metadata ctx.request);
      });
      compat_trace_id = some trace_id;
      compat_execution_id = some execution_id;
    }

-- The deadline that `WithChildExecution` chooses.
unfoldable pub child_deadline : ℤ → Option ℤ → Option ℤ → Option ℤ
unfolding earlier
child_deadline now (some timeout) parent = some (earlier (now +ℤ timeout) parent)
child_deadline now none parent = parent

abbrev or_zero_time : Option ℤ → ℤ
or_zero_time none = pos 0
or_zero_time (some d) = d

abbrev inherited_priority : Option RequestLayer → PriorityClass
inherited_priority none = ""
inherited_priority (some parent) = parent.priority

-- `WithChildExecution`.
unfoldable pub with_child_execution : ℤ → Ctx → String → Option ℤ → Ctx
unfolding child_deadline earlier
with_child_execution now ctx child_id timeout =
    let chosen = child_deadline now timeout ctx.expires in
    record ctx {
      expires = elim chosen [ none ↦ ctx.expires | some d ↦ some (earlier d ctx.expires) ];
      request = some (record {
        execution_id = child_id;
        parent_execution_id = get_execution_id ctx;
        trace_id = get_trace_id ctx;
        deadline = or_zero_time chosen;
        priority = inherited_priority ctx.request;
        cost_budget = inherited_budget ctx.request;
        attempt = pos 1;
        metadata = some (layer_metadata ctx.request);
      });
      compat_execution_id = some child_id;
    }

-- `WithAttempt`.
unfoldable pub with_attempt : Ctx → ℤ → Ctx
with_attempt ctx attempt = elim ctx.request [
  | none ↦ ctx
  | some parent ↦ record ctx {
    request =
        some (record parent { attempt = attempt; metadata = some (layer_metadata (some parent)) });
  }
]

-- A request layer with every field at its zero value.
abbrev pub zero_layer : RequestLayer
zero_layer = record {
  execution_id = "";
  parent_execution_id = "";
  trace_id = "";
  deadline = pos 0;
  priority = "";
  cost_budget = none;
  attempt = pos 0;
  metadata = some [];
}

abbrev pub layer_or_zero : Option RequestLayer → RequestLayer
layer_or_zero none = zero_layer
layer_or_zero (some layer) = layer

-- The bytes of all keys and values, and of one entry.
abbrev pub entry_size : String → String → ℕ
entry_size key value = len key + len value

unfoldable pub metadata_size : Dict String → ℕ
metadata_size [] = 0
metadata_size ((key, value) ∷ rest) = entry_size key value + metadata_size rest

abbrev pub old_entry_size : String → Dict String → ℕ
old_entry_size key metadata = elim (lookup key metadata) [
  | none ↦ 0
  | some value ↦ entry_size key value
]

-- The limit of `WithMetadata`, in bytes.
abbrev pub metadata_limit : ℕ
metadata_limit = 4096

-- `WithMetadata`. What an entry replaces is counted in the size, so the subtraction is exact.
unfoldable pub with_metadata : Ctx → String → String → Ctx × GoError
with_metadata ctx key value =
    let metadata = layer_metadata ctx.request in
    let size = metadata_size metadata - old_entry_size key metadata + entry_size key value in
    if ltb metadata_limit size then (ctx, plain_error "metadata size limit exceeded") else (
      record ctx {
        request =
            some
              (record (layer_or_zero ctx.request) { metadata = some (insert key value metadata) });
      },
      nil,
    )

-- `WithCostBudget`.
unfoldable pub with_cost_budget : Ctx → CostBudget → Ctx
with_cost_budget ctx budget = record ctx {
  request = some (record (layer_or_zero ctx.request) {
    cost_budget = some budget;
    metadata = some (layer_metadata ctx.request);
  });
}

-- `WithSensitiveKey`, `IsSensitiveKey` and `WithSensitiveVariable` of a value that prints as a text.
unfoldable pub with_sensitive_key : Ctx → String → Ctx
with_sensitive_key ctx key = record ctx { sensitive = insert key true ctx.sensitive }

unfoldable pub is_sensitive_key : Ctx → String → Bool
is_sensitive_key ctx key = elim (lookup key ctx.sensitive) [ none ↦ false | some b ↦ b ]

unfoldable pub with_sensitive_variable : Ctx → String → String → Ctx
unfolding with_metadata with_sensitive_key
with_sensitive_variable ctx key printed = with_sensitive_key (with_metadata ctx key printed).0 key
