-- ===== src/Execution/Retry/Bounds.antt =====
-- How long a retry waits: the growth of the delay, its cap, and where 64 bits do not hold it.
use native.Mathlib.Nat.{pow-suc, mul-le-mul_left}
use chukrun.Base.{
  ℕ, zero, suc, ◌-◌, ◌*◌, ◌^◌, ◌≤◌, ◌<◌, ◌≡◌, ap, ◌∙◌, min, ◌&&◌, Bool, true, false, some, arith,
  if◌then◌else◌,
}
use chukrun.Base.Int.{
  ℤ, pos, negsuc, pos_part, ◌*ℤ◌, ltb_ℤ, wrap64, ◌≤ℤ◌, half64, mod64, wrap64_pos,
}
use chukrun.Execution.Types.{exponential, RetryPolicy}
use chukrun.Execution.Retry.{grow, base_backoff, at_least_one, cap_delay, calculate_backoff}

-- What `Intn` documents: a value below its positive argument.
abbrev pub IsIntn : (ℕ → ℕ) → Type 0
IsIntn intn = (n : ℕ) → 0 < n → intn n < n

cap_delay-le : (m d : ℤ) → ltb_ℤ (pos 0) m ≡ true → cap_delay m d ≤ℤ m
cap_delay-le m d h = ground arith

-- Jitter only shortens a delay.
jittered-le :
    (intn : ℕ → ℕ) (jitter : Bool) (m d : ℤ)
    → IsIntn intn
    → d ≤ℤ m
    → (if jitter && ltb_ℤ (pos 0) d then pos (intn (pos_part d)) else d) ≤ℤ m
jittered-le intn jitter m d random h = ground (arith, random (pos_part d))

-- A positive `MaxDelay` bounds the delay of every strategy and attempt, with jitter or without,
-- and even where the product of base and multiplier wraps.
pub backoff_capped :
    (intn : ℕ → ℕ) (policy : RetryPolicy) (attempt : ℤ)
    → IsIntn intn
    → ltb_ℤ (pos 0) policy.max_delay ≡ true
    → calculate_backoff intn (some policy) attempt ≤ℤ policy.max_delay
unfolding calculate_backoff
backoff_capped intn policy attempt random positive =
    let base = base_backoff policy.backoff_strategy policy.base_delay (at_least_one attempt) in
    jittered-le intn policy.jitter policy.max_delay (cap_delay policy.max_delay base) random
      (cap_delay-le policy.max_delay base positive)

two_pow_positive : (r : ℕ) → 0 < 2 ^ r
two_pow_positive zero = omega arith
two_pow_positive (suc r) = omega (arith, pow-suc 2 r, two_pow_positive r)

double_pow : (m r : ℕ) → m * 2 ^ suc r ≡ m * 2 * 2 ^ r
double_pow m r = omega (arith, ap (λ t. m * t) (pow-suc 2 r))

-- The multiplier doubles with every attempt up to a million.
grow-min : (rounds m : ℕ) → m ≤ 1000000 → grow rounds m ≡ min (m * 2 ^ rounds) 1000000
unfolding grow
grow-min zero m h = omega arith
grow-min (suc rounds) m h = ground (
  arith,
  double_pow m rounds,
  mul-le-mul_left (m * 2) (two_pow_positive rounds),
  grow-min rounds (m * 2),
)

pos-mul : (a b : ℕ) → pos a *ℤ pos b ≡ pos (a * b)
unfolding ◌*ℤ◌
pos-mul a b = ground arith

attempt_number : (n : ℕ) → at_least_one (pos (suc n)) ≡ suc n
attempt_number n = ground arith

grow_from_one : (n : ℕ) → grow n 1 ≡ min (2 ^ n) 1000000
grow_from_one n = omega (arith, grow-min n 1)

exponential_base :
    (b n : ℕ)
    → base_backoff exponential (pos b) (at_least_one (pos (suc n)))
      ≡ wrap64 (pos (b * min (2 ^ n) 1000000))
unfolding base_backoff
exponential_base b n =
    let last : suc n - 1 ≡ n = omega arith in
    rw (attempt_number n, last, grow_from_one n, pos-mul b (min (2 ^ n) 1000000))

-- The upper half of the 64-bit patterns stands for the negative numbers.
wrap64_high : (k : ℕ) → half64 ≤ k → k < mod64 → wrap64 (pos k) ≡ negsuc (mod64 - 1 - k)
unfolding wrap64
wrap64_high k h l = ground arith

scaled-le : (b k : ℕ) → b * min k 1000000 ≤ b * 1000000
scaled-le b k = mul-le-mul_left b (omega arith)

unjittered :
    (intn : ℕ → ℕ) (policy : RetryPolicy) (attempt d : ℤ)
    → policy.jitter ≡ false
    → base_backoff policy.backoff_strategy policy.base_delay (at_least_one attempt) ≡ d
    → calculate_backoff intn (some policy) attempt ≡ cap_delay policy.max_delay d
unfolding calculate_backoff
unjittered intn policy attempt d plain e = rw (e, plain)

-- A negative delay is neither capped nor jittered.
negative_stays :
    (intn : ℕ → ℕ) (policy : RetryPolicy) (attempt : ℤ) (k : ℕ)
    → base_backoff policy.backoff_strategy policy.base_delay (at_least_one attempt) ≡ negsuc k
    → ltb_ℤ (calculate_backoff intn (some policy) attempt) (pos 0) ≡ true
unfolding calculate_backoff
negative_stays intn policy attempt k e = rw e (ground arith)

-- Without jitter, a retry of an exponential policy waits the base delay times 2 ^ (attempt - 1), at
-- most a million times, cut to `MaxDelay` if that is positive: exactly so while a million times the
-- base delay fits an int64.
pub exponential_backoff :
    (intn : ℕ → ℕ) (policy : RetryPolicy) (b n : ℕ)
    → policy.backoff_strategy ≡ exponential
    → policy.base_delay ≡ pos b
    → policy.jitter ≡ false
    → b * 1000000 < half64
    → calculate_backoff intn (some policy) (pos (suc n))
      ≡ cap_delay policy.max_delay (pos (b * min (2 ^ n) 1000000))
exponential_backoff intn policy b n strategy base plain fits =
    unjittered intn policy (pos (suc n)) (pos (b * min (2 ^ n) 1000000)) plain (
      rw (strategy, base)
        (exponential_base b n ∙ wrap64_pos _ (omega (arith, scaled-le b (2 ^ n)))))

-- A base delay from 2 ^ 63 / 10 ^ 6 nanoseconds up to twice that (some 2.6 to 5.1 hours) overflows
-- int64 from the 21st attempt on: the delay is negative, whatever the cap and the jitter, so the
-- retry is made at once.
pub backoff_overflows :
    (intn : ℕ → ℕ) (policy : RetryPolicy) (b n : ℕ)
    → policy.backoff_strategy ≡ exponential
    → policy.base_delay ≡ pos b
    → half64 ≤ b * 1000000
    → b * 1000000 < mod64
    → 1000000 ≤ 2 ^ n
    → ltb_ℤ (calculate_backoff intn (some policy) (pos (suc n))) (pos 0) ≡ true
backoff_overflows intn policy b n strategy base over under late =
    let million : min (2 ^ n) 1000000 ≡ 1000000 = omega arith in
    negative_stays intn policy (pos (suc n)) (mod64 - 1 - b * 1000000) (
      rw (strategy, base)
        (exponential_base b n ∙ rw million (wrap64_high (b * 1000000) over under)))
