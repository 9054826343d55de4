-- ===== src/Middleware/RateLimit.antt =====
-- core/middleware/ratelimit.go: a token bucket for each user.
pub mod Burst
use chukrun.Base.{
  ℕ, ◌-◌, String, Bool, true, false, List, [], ◌∷◌, Option, none, some, str_eq, if◌then◌else◌,
}
use chukrun.Base.Dict.{Dict, lookup, insert}
use chukrun.Context.Layers.{FloatOps, Ctx, get_user_id}
use chukrun.Errors.{GoError, nil}
use chukrun.Execution.Types.{ExecutionRequest}
use chukrun.Middleware.Types.{Middleware, Handler, Slot, fail_open, refusal}

pub record TokenBucket : Type 0 where
  pub tokens : ℕ
  pub last_tick : ℕ

pub record Limiter : Type 0 where
  pub buckets : Dict TokenBucket
  pub rate : ℕ
  pub capacity : ℕ

-- `NewRateLimitingMiddleware`.
abbrev pub new_limiter : ℕ → ℕ → Limiter
new_limiter rate capacity = record { buckets = []; rate = rate; capacity = capacity }

-- The part of `Handle` under the lock, at a time: whether a token was taken. `seconds` is
-- `now.Sub(last).Seconds()`. A new bucket is full and was ticked at `first`, the earlier of the two
-- clock readings.
unfoldable pub bucket_of : ℕ → String → Limiter → TokenBucket
bucket_of first user m = elim (lookup user m.buckets) [
  | none ↦ record { tokens = m.capacity; last_tick = first }
  | some bucket ↦ bucket
]

unfoldable pub refill_tokens : FloatOps → (ℕ → ℕ → ℕ) → ℕ → Limiter → TokenBucket → ℕ
refill_tokens f seconds now m bucket =
    let tokens = f.add_f bucket.tokens (f.mul_f (seconds bucket.last_tick now) m.rate) in
    if f.lt_f m.capacity tokens then m.capacity else tokens

unfoldable pub take_token : FloatOps → (ℕ → ℕ → ℕ) → ℕ → ℕ → String → Limiter → Limiter × Bool
unfolding bucket_of refill_tokens
take_token f seconds first now user m =
    let tokens = refill_tokens f seconds now m (bucket_of first user m) in
    let keep : ℕ → Limiter = λ left. record m {
      buckets = insert user (record { tokens = left; last_tick = now }) m.buckets;
    } in
    if f.lt_f tokens f.one_f then (keep tokens, false) else (keep (f.sub_f tokens f.one_f), true)

-- `Handle`, with the two clock readings of the call.
unfoldable pub rate_limit :
    {S : Type 0} → FloatOps → (ℕ → ℕ → ℕ) → Slot S Limiter → (S → ℕ × ℕ) → Handler S → Handler S
unfolding take_token
rate_limit f seconds slot clock next ctx req s =
    let user = get_user_id ctx in
    let (first, now) = clock s in
    let (m, allowed) = take_token f seconds first now user (slot.read s) in
    if str_eq user ""
    then next ctx req s
    else if allowed
    then next ctx req (slot.write m s)
    else (slot.write m s, some (refusal req "saturation" "rate limit exceeded" true), nil)

unfoldable pub rate_limiting :
    {S : Type 0} → FloatOps → (ℕ → ℕ → ℕ) → Slot S Limiter → (S → ℕ × ℕ) → Middleware S
rate_limiting f seconds slot clock = record {
  name = "RateLimiting";
  dependencies = "authenticated" ∷ [];
  provides = "rate_limit_checked" ∷ [];
  failure_mode = fail_open;
  handle = rate_limit f seconds slot clock;
}
