-- ===== src/Tests/Scheduling.antt =====
-- The scheduler, the retry delays and the registry at concrete inputs.
use mathlib.Core.List.{Memᴰ}
use chukrun.Base.{
  ℕ, ◌*◌, ◌^◌, min, ◌≡◌, refl, zero, suc, ap, String, Bool, true, false, List, [], ◌∷◌, none, some,
  arith, length,
}
use chukrun.Base.Int.{pos, ltb_ℤ}
use chukrun.Base.Dict.{lookup}
use chukrun.Context.Priority.{PriorityClass, critical, low}
use chukrun.Errors.{nil}
use chukrun.Execution.Types.{RetryPolicy, exponential}
use chukrun.Execution.Retry.{calculate_backoff, cap_delay}
use chukrun.Execution.Retry.Bounds.{IsIntn, exponential_backoff, backoff_overflows}
use chukrun.Execution.Registry.{Provider, register}
use chukrun.Execution.Registry.Names.{IsKeyed}
use chukrun.Execution.Scheduler.{PriorityScheduler, dequeue, standard_weights}
use chukrun.Execution.Scheduler.Dispatch.{Dequeued, dequeue-Dequeued}
use chukrun.Execution.Scheduler.Progress.{IsWeighted, serve, head_is_served}

-- An item is its name and its class.
abbrev Item : Type 0
Item = String × PriorityClass

abbrev class_of : Item → PriorityClass
class_of e = e.1

abbrev name_of : Item → String
name_of e = e.0

abbrev urgent : Item
urgent = ("a", critical)

abbrev patient : Item
patient = ("b", low)

-- Both are queued, and all credits are full.
abbrev two_queued : PriorityScheduler Item
two_queued = record {
  queues = (critical, urgent ∷ []) ∷ (low, patient ∷ []) ∷ [];
  weights = standard_weights;
  current_credits = standard_weights;
}

abbrev anyone : Item → Bool
anyone _ = true

two_queued-IsWeighted : IsWeighted two_queued
unfolding lookup
two_queued-IsWeighted = record { standard = refl; bounded = omega arith }

-- That many rounds in each of which another urgent item arrives.
abbrev busy_rounds : ℕ → List (List Item)
busy_rounds zero = []
busy_rounds (suc n) = (("c", critical) ∷ []) ∷ busy_rounds n

busy_rounds-length : (n : ℕ) → length (busy_rounds n) ≡ n
busy_rounds-length zero = refl
busy_rounds-length (suc n) = ap suc (busy_rounds-length n)

dequeue-Dequeued_example : Dequeued anyone two_queued (dequeue anyone two_queued)
dequeue-Dequeued_example = dequeue-Dequeued anyone two_queued

head_is_served_example : Memᴰ patient (serve class_of (busy_rounds 62) two_queued)
unfolding lookup
head_is_served_example =
    head_is_served class_of (busy_rounds 62) low patient [] two_queued two_queued-IsWeighted
      (Memᴰ.tail (Memᴰ.tail (Memᴰ.tail (Memᴰ.head refl)))) refl
      (omega (arith, busy_rounds-length 62))

abbrev provider_a : Provider ℕ
provider_a = record { name = "openai-primary"; self = 7 }

empty-IsKeyed : IsKeyed {P = ℕ} []
unfolding lookup
empty-IsKeyed name p e = cc

registered : (register (some provider_a) []).1 ≡ nil
unfolding register lookup
registered = refl

abbrev lowest : ℕ → ℕ
lowest n = 0

lowest-IsIntn : IsIntn lowest
lowest-IsIntn n positive = positive

-- 200 milliseconds, at most 30 seconds.
abbrev policy_of : ℕ → Bool → RetryPolicy
policy_of base jitter = record {
  max_attempts = pos 30;
  backoff_strategy = exponential;
  base_delay = pos base;
  max_delay = pos 30000000000;
  jitter = jitter;
  retryable_check = none;
}

exponential_backoff_example :
    calculate_backoff lowest (some (policy_of 200000000 false)) (pos 4)
    ≡ cap_delay (pos 30000000000) (pos (200000000 * min (2 ^ 3) 1000000))
exponential_backoff_example =
    exponential_backoff lowest (policy_of 200000000 false) 200000000 3 refl refl refl (omega arith)

-- Three hours.
backoff_overflows_example :
    ltb_ℤ (calculate_backoff lowest (some (policy_of 10800000000000 true)) (pos 21)) (pos 0) ≡ true
backoff_overflows_example =
    backoff_overflows lowest (policy_of 10800000000000 true) 10800000000000 20 refl refl
      (omega arith) (omega arith) (omega arith)
