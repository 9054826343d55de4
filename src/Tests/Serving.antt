-- ===== src/Tests/Serving.antt =====
-- The middlewares and the topics at concrete inputs.
use chukrun.Base.{
  ℕ, zero, suc, ◌+◌, ◌-◌, ◌*◌, ◌≤◌, ◌<◌, min, ◌≡◌, refl, ◌≢◌, ◌⊎◌, inl, inr, ◌↔◌, String, Bool,
  true, false, not, ◌&&◌, List, [], ◌∷◌, ◌++◌, Option, none, some, arith, ltb, leb, str_eq,
}
use chukrun.Context.Layers.{FloatOps, Ctx}
use chukrun.Errors.{nil, is_nil}
use chukrun.Execution.Types.{text, ExecutionRequest, ExecutionResult, zero_result, status_succeeded}
use chukrun.Middleware.Types.{Handler, Middleware}
use chukrun.Middleware.Pipeline.{Pipeline, validate, has, check_dependencies, add_provided}
use chukrun.Middleware.Pipeline.Order.{Fault, offered, validate-Fault}
use chukrun.Middleware.Auth.{Verifier, authorization, authenticate, authorize}
use chukrun.Middleware.Auth.Gate.{Refused, Passed, gate}
use chukrun.Middleware.RateLimit.{new_limiter}
use chukrun.Middleware.RateLimit.Burst.{Exact, passed, burst}
use chukrun.Events.Topics.{match_topic}
use chukrun.Events.Topics.Matching.{MatchesTopic, match_topic_iff}

abbrev request : ExecutionRequest
request = record {
  id = "exec-1";
  provider_ref = "openai-primary";
  payload = text "hello";
  priority = "Critical";
  retry_policy = none;
  timeout_policy = none;
  metadata = some (("auth-token", "t0") ∷ []);
  parent_id = none;
  timeout = chukrun.Base.Int.pos 0;
}

abbrev no_context : Ctx
no_context = record {
  runtime = none;
  user = none;
  session = none;
  request = none;
  compat_session_id = none;
  compat_user_id = none;
  compat_trace_id = none;
  compat_execution_id = none;
  sensitive = [];
  expires = none;
}

abbrev verifier : Verifier
verifier token = ("ann", "acme", ("role", "admin") ∷ [], nil)

abbrev answer : ExecutionResult
answer = record zero_result { status = status_succeeded }

abbrev core : Handler ℕ
core ctx req s = (s, some answer, nil)

gate_example :
    let result = authenticate {S = ℕ} verifier (authorize core) no_context request 5 in
    Refused request 5 result ⊎ Passed verifier core no_context request 5 result
gate_example = gate verifier core no_context request 5

abbrev unordered : Pipeline ℕ
unordered = authorization ∷ []

unordered_rejected : is_nil (validate unordered) ≡ false
unfolding validate has authorization check_dependencies add_provided
unordered_rejected = refl

validate-Fault_example : (is_nil (validate unordered) ≡ false) ↔ (
    (before : Pipeline ℕ) × (mw : Middleware ℕ) × (after : Pipeline ℕ) × (unordered
      ≡ before ++ mw ∷ after)
    × Fault (λ d. has d (offered before)) mw)
validate-Fault_example = validate-Fault unordered

-- Whole numbers in place of the patterns of float64.
abbrev whole : FloatOps
whole = record {
  zero_f = 0;
  one_f = 1;
  add_f = ◌+◌;
  sub_f = ◌-◌;
  mul_f = ◌*◌;
  lt_f = ltb;
  le_f = leb;
  parse_f = λ s. none;
}

abbrev elapsed : ℕ → ℕ → ℕ
elapsed first last = last - first

whole-Exact : Exact whole elapsed 5 3
whole-Exact = record {
  of_ℕ = λ n. n;
  one = refl;
  no_time = λ t. omega arith;
  add_zero = λ n le. omega arith;
  sub_one = λ n less. omega arith;
  less = λ a b la lb. refl;
}

burst_example : passed whole elapsed 9 "ann" 7 (new_limiter 5 (whole-Exact.of_ℕ 3)) ≡ min 7 3
burst_example = burst whole elapsed 5 3 whole-Exact "ann" 9 7 (omega arith)

match_topic_iff_example :
    (match_topic "execution.*" "execution.queued" ≡ true)
    ↔ MatchesTopic "execution.*" "execution.queued"
match_topic_iff_example = match_topic_iff "execution.*" "execution.queued"
