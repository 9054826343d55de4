-- ===== src/Middleware/CostGuard.antt =====
-- core/middleware/costguard.go.
use chukrun.Base.{ℕ, false, [], ◌∷◌, none, some, if◌then◌else◌}
use chukrun.Context.Layers.{FloatOps, Spent, get_cost_budget, try_reserve}
use chukrun.Errors.{nil}
use chukrun.Execution.Types.{ExecutionRequest}
use chukrun.Middleware.Types.{Middleware, Handler, Slot, fail_closed, metadata_of, refusal}

-- The estimate of a request: the one in its metadata if it can be read.
unfoldable pub estimate_of : FloatOps → ℕ → ExecutionRequest → ℕ
estimate_of f default_estimate req = elim (metadata_of req "cost_estimate") [
  | none ↦ default_estimate
  | some text ↦ elim (f.parse_f text) [ none ↦ default_estimate | some parsed ↦ parsed ]
]

module _ {S : Type 0} where
  -- `(*CostGuardMiddleware).Handle`.
  unfoldable pub guard_cost : FloatOps → Slot S Spent → ℕ → Handler S → Handler S
  unfolding estimate_of
  guard_cost f memory default_estimate next ctx req s = elim (get_cost_budget ctx) [
    | none ↦ next ctx req s
    | some budget ↦
        if try_reserve f (estimate_of f default_estimate req) budget (memory.read s)
        then next ctx req s
        else (s, some (refusal req "saturation" "cost budget exceeded" false), nil)
  ]

  unfoldable pub cost_guard : FloatOps → Slot S Spent → ℕ → Middleware S
  cost_guard f memory default_estimate = record {
    name = "CostGuard";
    dependencies = "authenticated" ∷ [];
    provides = "budget_reserved" ∷ [];
    failure_mode = fail_closed;
    handle = guard_cost f memory default_estimate;
  }
