-- ===== src/Context/Layers.antt =====
-- The layers of a request context (core/context/context.go): what `ctx.Value` finds for each key,
-- nearest derivation first, so a derived context is a copy with one layer replaced. The nil context
-- is left out; every getter answers it as it answers a context with no layer. The amount spent of a
-- budget is a `*uint64` that derived contexts share; the memory it points to is `Spent`.
use chukrun.Base.{
  ℕ, String, Bool, true, ◌||◌, [], ◌∷◌, Option, none, some, str_eq, ◌==◌, if◌then◌else◌,
}
use chukrun.Base.Dict.{Dict, lookup}
use chukrun.Base.Int.{ℤ, pos}
use chukrun.Context.Priority.{PriorityClass, normal}

-- The arithmetic of float64 on its 64-bit patterns: Go's operators, and `strconv.ParseFloat`.
pub record FloatOps : Type 0 where
  pub zero_f : ℕ
  pub one_f : ℕ
  pub add_f : ℕ → ℕ → ℕ
  pub sub_f : ℕ → ℕ → ℕ
  pub mul_f : ℕ → ℕ → ℕ
  pub lt_f : ℕ → ℕ → Bool
  pub le_f : ℕ → ℕ → Bool
  pub parse_f : String → Option ℕ

pub record CostBudget : Type 0 where
  pub limit : ℕ
  pub spent_bits : Option ℕ
  pub currency : String

pub record RuntimeLayer : Type 0 where
  pub instance_id : String
  pub version : String

pub record UserLayer : Type 0 where
  pub user_id : String
  pub org_id : String
  pub claims : Dict String

-- `state` is the address of the session's variables, which every context of the session shares.
pub record SessionLayer : Type 0 where
  pub session_id : String
  pub session_user : String
  pub state : Option ℕ

-- A `deadline` of 0 is the zero time.
pub record RequestLayer : Type 0 where
  pub execution_id : String
  pub parent_execution_id : String
  pub trace_id : String
  pub deadline : ℤ
  pub priority : PriorityClass
  pub cost_budget : Option CostBudget
  pub attempt : ℤ
  pub metadata : Option (Dict String)

-- `expires` is what `ctx.Deadline()` answers, and `sensitive` the set of sensitive keys.
pub record Ctx : Type 0 where
  pub runtime : Option RuntimeLayer
  pub user : Option UserLayer
  pub session : Option SessionLayer
  pub request : Option RequestLayer
  pub compat_session_id : Option String
  pub compat_user_id : Option String
  pub compat_trace_id : Option String
  pub compat_execution_id : Option String
  pub sensitive : Dict Bool
  pub expires : Option ℤ

abbrev pub Spent : Type 0
Spent = ℕ → ℕ

-- The claims that `WithUser` does not keep.
abbrev pub is_secret : String → Bool
is_secret k = str_eq k "token" || (str_eq k "password" || (str_eq k "secret" || str_eq k "jwt"))

unfoldable pub filter_claims : Dict String → Dict String
filter_claims [] = []
filter_claims ((k, v) ∷ claims) =
    let rest = filter_claims claims in if is_secret k then rest else (k, v) ∷ rest

-- `WithUser`.
unfoldable pub with_user : Ctx → String → String → Dict String → Ctx
with_user ctx user_id org_id claims = record ctx {
  user = some (record { user_id = user_id; org_id = org_id; claims = filter_claims claims });
  compat_user_id = some user_id;
}

abbrev pub or_else : Option String → String
or_else none = ""
or_else (some s) = s

-- `GetSessionID`, `GetUserID`, `GetTraceID`, `GetExecutionID` and the other accessors.
unfoldable pub get_session_id : Ctx → String
get_session_id ctx = elim ctx.session [
  | some sl ↦ sl.session_id
  | none ↦ or_else ctx.compat_session_id
]

unfoldable pub get_user_id : Ctx → String
get_user_id ctx = elim ctx.user [
  | some ul ↦ ul.user_id
  | none ↦ elim ctx.session [ some sl ↦ sl.session_user | none ↦ or_else ctx.compat_user_id ]
]

unfoldable pub get_trace_id : Ctx → String
get_trace_id ctx = elim ctx.request [ some req ↦ req.trace_id | none ↦ or_else ctx.compat_trace_id ]

unfoldable pub get_execution_id : Ctx → String
get_execution_id ctx = elim ctx.request [
  | some req ↦ req.execution_id
  | none ↦ or_else ctx.compat_execution_id
]

unfoldable pub get_parent_execution_id : Ctx → String
get_parent_execution_id ctx = elim ctx.request [ some req ↦ req.parent_execution_id | none ↦ "" ]

unfoldable pub get_priority : Ctx → PriorityClass
get_priority ctx = elim ctx.request [ some req ↦ req.priority | none ↦ normal ]

unfoldable pub get_attempt_number : Ctx → ℤ
get_attempt_number ctx = elim ctx.request [ some req ↦ req.attempt | none ↦ pos 1 ]

abbrev pub or_empty_map : Option (Dict String) → Dict String
or_empty_map none = []
or_empty_map (some m) = m

-- The metadata of a layer and of a context; a nil map reads as an empty one.
abbrev pub layer_metadata : Option RequestLayer → Dict String
layer_metadata none = []
layer_metadata (some req) = or_empty_map req.metadata

unfoldable pub get_metadata : Ctx → String → Option String
get_metadata ctx key = lookup key (layer_metadata ctx.request)

-- `GetSession`.
abbrev pub get_session : Ctx → Option ℕ
get_session ctx = elim ctx.session [ none ↦ none | some sl ↦ sl.state ]

-- `GetCostBudget`.
abbrev pub get_cost_budget : Ctx → Option CostBudget
get_cost_budget ctx = elim ctx.request [ none ↦ none | some layer ↦ layer.cost_budget ]

-- `Spent`, `AddSpent` (with no other write between its load and its swap) and `TryReserve`.
unfoldable pub spent : FloatOps → Spent → CostBudget → ℕ
spent f memory cb = elim cb.spent_bits [ none ↦ f.zero_f | some address ↦ memory address ]

unfoldable pub add_spent : FloatOps → ℕ → CostBudget → Spent → Spent
add_spent f amount cb memory = elim cb.spent_bits [
  | none ↦ memory
  | some address ↦ λ i. if i == address then f.add_f (memory address) amount else memory i
]

unfoldable pub try_reserve : FloatOps → ℕ → CostBudget → Spent → Bool
unfolding spent
try_reserve f amount cb memory = elim cb.spent_bits [
  | none ↦ true
  | some address ↦
      if f.le_f cb.limit f.zero_f
      then true
      else f.le_f (f.add_f (spent f memory cb) amount) cb.limit
]
