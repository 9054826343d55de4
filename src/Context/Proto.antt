-- ===== src/Context/Proto.antt =====
-- core/context/serialization.go: contexts as messages. A deadline is in nanoseconds here and in
-- milliseconds in the message. A message that is nil is left out. The amount spent of a budget lies
-- in a memory of cells, of which `next_cell` is free.
pub mod Crossing
pub mod Losses
use chukrun.Base.{
  ℕ, ◌/◌, ◌*◌, suc, String, Bool, true, false, List, [], ◌∷◌, Option, none, some, str_eq, ◌==◌,
  if◌then◌else◌,
}
use chukrun.Base.Int.{ℤ, pos, negsuc, ◌-ℤ◌, leb_ℤ, ltb_ℤ, wrap64, ◌*ℤ◌}
use chukrun.Base.Dict.{Dict}
use chukrun.Context.Layers.{
  FloatOps, CostBudget, Spent, Ctx, RequestLayer, spent, add_spent, with_user, get_session_id,
  get_user_id, get_execution_id, get_parent_execution_id, get_trace_id, get_priority,
  get_cost_budget, layer_metadata,
}
use chukrun.Context.Priority.{PriorityClass, critical, high, normal, low, background}
use chukrun.Context.Session.{SessionStore}
use chukrun.Context.Derive.{
  new_root_context, with_session, with_execution, with_cost_budget, with_metadata,
}

pub record CostBudgetProto : Type 0 where
  pub limit : ℕ
  pub spent : ℕ
  pub currency : String

pub record ContextProto : Type 0 where
  pub session_id : String
  pub user_id : String
  pub execution_id : String
  pub parent_execution_id : String
  pub trace_id : String
  pub deadline_unix_ms : ℤ
  pub priority : ℕ
  pub metadata : Dict String
  pub cost_budget : Option CostBudgetProto

-- `mapPriorityToInt` and `mapIntToPriority`.
unfoldable pub priority_to_int : PriorityClass → ℕ
priority_to_int p =
    if str_eq p critical
    then 4
    else if str_eq p high
    then 3
    else if str_eq p normal
    then 2
    else if str_eq p low
    then 1
    else if str_eq p background
    then 0
    else 2

unfoldable pub int_to_priority : ℕ → PriorityClass
int_to_priority n =
    if n == 4
    then critical
    else if n == 3
    then high
    else if n == 2
    then normal
    else if n == 1
    then low
    else if n == 0
    then background
    else normal

-- `d.UnixNano() / int64(time.Millisecond)`, which truncates towards zero.
abbrev pub nanos : ℕ
nanos = 1000000

unfoldable pub to_millis : ℤ → ℤ
to_millis (pos n) = pos (n / nanos)
to_millis (negsuc n) = pos 0 -ℤ pos (suc n / nanos)

abbrev budget_to_proto : FloatOps → Spent → Option CostBudget → Option CostBudgetProto
budget_to_proto f memory none = none
budget_to_proto f memory (some cb) =
    some (record { limit = cb.limit; spent = spent f memory cb; currency = cb.currency })

abbrev deadline_to_proto : Option ℤ → ℤ
deadline_to_proto none = pos 0
deadline_to_proto (some d) = to_millis d

-- `ToProto`.
unfoldable pub to_proto : FloatOps → Spent → Ctx → ContextProto
unfolding priority_to_int
to_proto f memory ctx = record {
  session_id = get_session_id ctx;
  user_id = get_user_id ctx;
  execution_id = get_execution_id ctx;
  parent_execution_id = get_parent_execution_id ctx;
  trace_id = get_trace_id ctx;
  deadline_unix_ms = deadline_to_proto ctx.expires;
  priority = priority_to_int (get_priority ctx);
  metadata = layer_metadata ctx.request;
  cost_budget = budget_to_proto f memory (get_cost_budget ctx);
}

-- `parseDeadline`: how long there is until the deadline.
unfoldable pub parse_deadline : ℤ → ℤ → ℤ
parse_deadline now deadline_ms =
    let left = wrap64 (deadline_ms *ℤ pos nanos) -ℤ now in
    if leb_ℤ deadline_ms (pos 0) then pos 0 else if ltb_ℤ left (pos 0) then pos 0 else left

-- The session store and the memory of the budgets.
pub record Shared : Type 0 where
  pub store : SessionStore
  pub memory : Spent
  pub next_cell : ℕ

-- The identity of a message.
unfoldable pub identify : ℤ → ContextProto → Ctx → Shared → Shared × Ctx
identify now proto ctx w =
    let (store, with_id) = with_session now ctx proto.session_id proto.user_id w.store in
    if str_eq proto.session_id ""
    then if str_eq proto.user_id "" then (w, ctx) else (w, with_user ctx proto.user_id "" [])
    else (record w { store = store }, with_id)

abbrev pub or_kept : String → String → String
or_kept kept new = if str_eq new "" then kept else new

-- What `FromProto` writes into the layer that `WithExecution` made.
unfoldable pub restore_ids : ContextProto → Ctx → Ctx
restore_ids proto ctx = elim ctx.request [
  | none ↦ ctx
  | some req ↦ record ctx {
    request = some (record req {
      parent_execution_id = or_kept req.parent_execution_id proto.parent_execution_id;
      trace_id = or_kept req.trace_id proto.trace_id;
    });
  }
]

unfoldable pub restore_execution : ℤ → ContextProto → Ctx → Ctx
unfolding restore_ids parse_deadline int_to_priority
restore_execution now proto ctx =
    let deadline = parse_deadline now proto.deadline_unix_ms in
    if str_eq proto.execution_id ""
    then ctx
    else restore_ids proto
        (with_execution now ctx proto.execution_id deadline (int_to_priority proto.priority))

-- `NewCostBudget`, and `AddSpent` to it.
unfoldable pub restore_budget : FloatOps → Option CostBudgetProto → Ctx → Shared → Shared × Ctx
restore_budget f none ctx w = (w, ctx)
restore_budget f (some p) ctx w =
    let cb : CostBudget = record {
      limit = p.limit;
      spent_bits = some w.next_cell;
      currency = p.currency;
    } in
    let fresh : Spent = λ i. if i == w.next_cell then f.zero_f else w.memory i in
    (
      record w { memory = add_spent f p.spent cb fresh; next_cell = suc w.next_cell },
      with_cost_budget ctx cb,
    )

-- The loop over the metadata of a message; the errors are dropped.
unfoldable pub restore_metadata : Dict String → Ctx → Ctx
restore_metadata [] ctx = ctx
restore_metadata ((key, value) ∷ rest) ctx = restore_metadata rest (with_metadata ctx key value).0

-- `FromProto`, for a manager of this instance and version.
unfoldable pub from_proto : FloatOps → ℤ → String → String → ContextProto → Shared → Shared × Ctx
unfolding identify restore_execution restore_budget restore_metadata
from_proto f now instance_id version proto w =
    let (w1, c1) = identify now proto (new_root_context instance_id version) w in
    let (w2, c2) = restore_budget f proto.cost_budget (restore_execution now proto c1) w1 in
    (w2, restore_metadata proto.metadata c2)
