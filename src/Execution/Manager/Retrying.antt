-- ===== src/Execution/Manager/Retrying.antt =====
-- How many attempts a run makes, and which of them decides its result.
use chukrun.Base.{
  ℕ, zero, suc, ◌+◌, ◌≤◌, ◌<◌, ◌≡◌, refl, ◌⊎◌, inl, inr, true, false, Option, none, length,
  length-append, arith, Bool-cases, ltb, ltb→lt, ◌==◌, ==_iff,
}
use chukrun.Base.Int.{pos_part}
use chukrun.Errors.{GoError, nil, is_nil}
use chukrun.Execution.Types.{RetryPolicy, ExecutionResult}
use chukrun.Execution.Manager.Attempts.{
  World, RunState, Waited, delay_passed, interrupted, wait_backoff, before_attempt,
  run_single_attempt, attempt_result, is_retryable, attempt_loop, execute_attempts,
}

-- The attempts that are on record.
abbrev pub recorded : RunState → ℕ
recorded s = length s.exec.attempts

wait_backoff-recorded :
    (o : Waited) (now : ℕ) (s : RunState) → recorded (wait_backoff o now s).0 ≡ recorded s
unfolding wait_backoff
wait_backoff-recorded delay_passed now s = refl
wait_backoff-recorded (interrupted err) now s = refl

before_attempt-recorded :
    (w : World) (attempt : ℕ) (s : RunState) → recorded (before_attempt w attempt s).0 ≡ recorded s
unfolding before_attempt
before_attempt-recorded w attempt s =
    ground (arith, wait_backoff-recorded (w.waits attempt) (w.starts attempt) s)

run_single_attempt-recorded :
    (w : World) (attempt : ℕ) (s : RunState)
    → recorded (run_single_attempt w attempt s).0 ≡ recorded s + 1
unfolding run_single_attempt
run_single_attempt-recorded w attempt s = length-append s.exec.attempts _

attempt_loop-recorded :
    (w : World) (policy : RetryPolicy) (rounds attempt : ℕ) (s : RunState)
    (res : Option ExecutionResult) (last : GoError)
    → recorded (attempt_loop w policy rounds attempt s res last).0 ≤ recorded s + rounds
unfolding attempt_loop
attempt_loop-recorded w policy zero attempt s res last = omega arith
attempt_loop-recorded w policy (suc rounds) attempt s res last =
    let (ready, waited) = before_attempt w attempt s in
    let (after, res', err) = run_single_attempt w attempt ready in
    ground (
      arith,
      before_attempt-recorded w attempt s,
      run_single_attempt-recorded w attempt ready,
      attempt_loop-recorded w policy rounds (suc attempt) after res' err,
    )

-- A run never makes more attempts than `MaxAttempts`, whatever the provider, the contexts and the
-- retry check do.
pub attempts_bounded :
    (w : World) (policy : RetryPolicy) (s : RunState)
    → recorded (execute_attempts w policy s).0 ≤ recorded s + pos_part policy.max_attempts
unfolding execute_attempts
attempts_bounded w policy s =
    attempt_loop-recorded w policy (pos_part policy.max_attempts) 1 s none nil

-- Attempt `n` comes to this error, and this result.
abbrev pub error_of : World → ℕ → GoError
error_of w n = (attempt_result (w.attempts n)).1

abbrev pub result_of : World → ℕ → Option ExecutionResult
result_of w n = (attempt_result (w.attempts n)).0

-- It is not the last: its error may be retried, and the delay after it passes.
pub record GoesOn (w : World) (policy : RetryPolicy) (n : ℕ) : Type 0 where
  pub fails : is_nil (error_of w n) ≡ false
  pub retried : is_retryable (error_of w n) policy ≡ true
  pub waited : w.waits (suc n) ≡ delay_passed

-- It decides the run: it succeeds, or its error is not retried.
abbrev pub Decides : World → RetryPolicy → ℕ → Type 0
Decides w policy n = (error_of w n ≡ nil) ⊎ (is_retryable (error_of w n) policy ≡ false)

-- The wait before an attempt, if there is one, does not end the run.
abbrev Ready : World → ℕ → Type 0
Ready w n = 1 < n → w.waits n ≡ delay_passed

before_attempt-Ready :
    (w : World) (n : ℕ) (s : RunState) → Ready w n → is_nil (before_attempt w n s).1 ≡ true
unfolding before_attempt wait_backoff
before_attempt-Ready w n s ready = elim (Bool-cases (ltb 1 n)) [
  | inl again ↦ rw (again, ready (ltb→lt 1 n again)) refl
  | inr first ↦ rw first refl
]

-- The parts of one round.
module _ (w : World) (policy : RetryPolicy) (attempt : ℕ) (s : RunState) where
  abbrev after : RunState
  after = (run_single_attempt w attempt (before_attempt w attempt s).0).0

  after-recorded : recorded after ≡ recorded s + 1
  after-recorded = omega (
    arith,
    run_single_attempt-recorded w attempt (before_attempt w attempt s).0,
    before_attempt-recorded w attempt s,
  )

  round-GoesOn :
      (rounds : ℕ) (res : Option ExecutionResult) (last : GoError)
      → Ready w attempt
      → GoesOn w policy attempt
      → attempt_loop w policy (suc rounds) attempt s res last
        ≡ attempt_loop w policy rounds
            (suc attempt)
            after
            (result_of w attempt)
            (error_of w attempt)
  unfolding attempt_loop run_single_attempt
  round-GoesOn rounds res last ready on =
      rw (before_attempt-Ready w attempt s ready, on.fails, on.retried) refl

  round-Decides :
      (rounds : ℕ) (res : Option ExecutionResult) (last : GoError)
      → Ready w attempt
      → Decides w policy attempt
      → attempt_loop w policy (suc rounds) attempt s res last
        ≡ (after, result_of w attempt, error_of w attempt)
  unfolding attempt_loop run_single_attempt
  round-Decides rounds res last ready ends =
      rw (before_attempt-Ready w attempt s ready) (ground arith)

attempt_loop_decided :
    (w : World) (policy : RetryPolicy) (rounds attempt n : ℕ) (s : RunState)
    (res : Option ExecutionResult) (last : GoError)
    → Ready w attempt
    → attempt ≤ n
    → n < attempt + rounds
    → ((i : ℕ) → attempt ≤ i → i < n → GoesOn w policy i)
    → Decides w policy n
    → let out = attempt_loop w policy rounds attempt s res last in
      (recorded out.0 + attempt ≡ recorded s + n + 1)
      × (out.1 ≡ result_of w n)
      × (out.2 ≡ error_of w n)
attempt_loop_decided w policy zero attempt n s res last ready low high goes ends =
    absurd (omega arith)
attempt_loop_decided w policy (suc rounds) attempt n s res last ready low high goes ends =
    elim (Bool-cases (attempt == n)) [
      | inl here ↦
          let e : attempt ≡ n = (==_iff attempt n).0 here in
          rw (round-Decides w policy attempt s rounds res last ready (rw e ends))
            (omega (arith, after-recorded w policy attempt s), rw e, rw e)
      | inr further ↦
          let below : attempt < n = ground arith in
          let on = goes attempt (omega arith) below in
          let (count, result, error) =
            attempt_loop_decided w policy rounds (suc attempt) n (after w policy attempt s)
              (result_of w attempt) (error_of w attempt) (λ _. on.waited) below (omega arith)
              (λ i l h. goes i (omega arith) h) ends in
          rw (round-GoesOn w policy attempt s rounds res last ready on)
            (omega (arith, count, after-recorded w policy attempt s), result, error)
    ]

-- The first attempt that succeeds, or fails with an error that is not retried, decides the run, if
-- `MaxAttempts` reaches it and every delay before it passes: the run makes exactly so many attempts,
-- and answers with that attempt's result and error.
pub first_decision :
    (w : World) (policy : RetryPolicy) (s : RunState) (n : ℕ)
    → 1 ≤ n
    → n ≤ pos_part policy.max_attempts
    → ((i : ℕ) → 1 ≤ i → i < n → GoesOn w policy i)
    → Decides w policy n
    → let (s', res, err) = execute_attempts w policy s in
      (recorded s' ≡ recorded s + n) × (res ≡ result_of w n) × (err ≡ error_of w n)
unfolding execute_attempts
first_decision w policy s n low high goes ends =
    let (count, result, error) =
      attempt_loop_decided w policy (pos_part policy.max_attempts) 1 n s none nil
        (λ h. absurd (omega arith)) low (omega arith) goes ends in
    (omega arith, result, error)
