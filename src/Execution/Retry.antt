-- ===== src/Execution/Retry.antt =====
-- core/execution/retry.go: the delay before a retry, in nanoseconds.
pub mod Bounds
use chukrun.Base.{
  ℕ, zero, suc, ◌-◌, ◌*◌, Bool, true, false, ◌&&◌, Option, none, some, ltb, if◌then◌else◌,
}
use chukrun.Base.Int.{ℤ, pos, pos_part, ◌*ℤ◌, ltb_ℤ, leb_ℤ, wrap64}
use chukrun.Execution.Types.{
  BackoffStrategy, constant, linear, exponential, other_strategy, RetryPolicy,
}

-- The loop `for i := 1; i < attempt; i++` over the multiplier, by the rounds that are left.
unfoldable pub grow : ℕ → ℕ → ℕ
grow zero multiplier = multiplier
grow (suc rounds) multiplier =
    let rest = grow rounds (multiplier * 2) in
    if ltb 1000000 (multiplier * 2) then 1000000 else rest

-- The `switch policy.BackoffStrategy`; a product of durations wraps at 64 bits.
unfoldable pub base_backoff : BackoffStrategy → ℤ → ℕ → ℤ
base_backoff constant base attempt = base
base_backoff linear base attempt = wrap64 (base *ℤ pos attempt)
base_backoff exponential base attempt = wrap64 (base *ℤ pos (grow (attempt - 1) 1))
base_backoff (other_strategy _) base attempt = base

-- `if attempt <= 0 { attempt = 1 }`.
abbrev pub at_least_one : ℤ → ℕ
at_least_one attempt = if leb_ℤ attempt (pos 0) then 1 else pos_part attempt

abbrev pub cap_delay : ℤ → ℤ → ℤ
cap_delay max_delay delay =
    if ltb_ℤ (pos 0) max_delay && ltb_ℤ max_delay delay then max_delay else delay

-- `CalculateBackoff`; `intn n` is what `globalRand.Intn(n)` returns in the call.
unfoldable pub calculate_backoff : (ℕ → ℕ) → Option RetryPolicy → ℤ → ℤ
calculate_backoff intn none attempt = pos 0
calculate_backoff intn (some policy) attempt =
    let delay =
      cap_delay policy.max_delay
        (base_backoff policy.backoff_strategy policy.base_delay (at_least_one attempt)) in
    if policy.jitter && ltb_ℤ (pos 0) delay then pos (intn (pos_part delay)) else delay
