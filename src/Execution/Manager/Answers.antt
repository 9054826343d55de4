-- ===== src/Execution/Manager/Answers.antt =====
-- How `handleResult` ends an execution (core/execution/manager.go), said without its tests, and the
-- lemmas on its three endings.
use chukrun.Base.{
  ℕ, ◌≡◌, refl, ◌≢◌, ◌⊎◌, inl, inr, String, Bool, true, false, length, Option, none, some,
  Option-cases,
}
use chukrun.Base.Int.{ℤ, pos, ◌-ℤ◌}
use chukrun.Errors.{
  GoError, nil, platform_error, plain_error, is_nil, ErrorCategory, config, provider, timeout,
  cancelled, validation, internal, saturation, auth, other_category, to_execution_error,
}
use chukrun.Execution.Types.{
  ExecutionState, ExecutionStatus, unset, status_unset, status_succeeded, status_failed,
  status_cancelled, status_timed_out, other_status, ExecutionResult, Execution, is_terminal_state,
  is_unset,
}
use chukrun.Execution.Manager.Run.{
  handle_result, is_short_circuit, outcome_of_category, short_circuited, succeeded_with,
}

-- The execution has ended: the time is on record, and its result shows its state.
pub record Settled (now : ℕ) (duration : ℤ) (before after : Execution) (result : ExecutionResult)
    : Type 0 where
  pub stamped : after.completed_at ≡ some now
  pub kept : after.result ≡ some result
  pub agrees : result.state ≡ after.state
  pub timed : result.duration ≡ duration
  pub same_attempts : after.attempts ≡ before.attempts

-- The attempts are on record in the result.
pub record Counted (e : Execution) (result : ExecutionResult) : Type 0 where
  pub count : result.attempt_count ≡ pos (length e.attempts)
  pub retries : result.retry_count ≡ pos (length e.attempts) -ℤ pos 1
  pub all : result.attempts ≡ e.attempts

-- How an error ends an execution.
pub data EndsAs : GoError → ExecutionState → ExecutionStatus → Type 0 where
  times_out :
      (m : String) (retryable : Bool) (cause : GoError)
      → EndsAs (platform_error timeout m retryable cause) ExecutionState.timed_out status_timed_out
  is_cancelled :
      (m : String) (retryable : Bool) (cause : GoError)
      → EndsAs
          (platform_error cancelled m retryable cause)
          ExecutionState.cancelled
          status_cancelled
  fails :
      (c : ErrorCategory) (m : String) (retryable : Bool) (cause : GoError)
      → c ≢ timeout
      → c ≢ cancelled
      → EndsAs (platform_error c m retryable cause) ExecutionState.failed status_failed
  fails_plainly : (m : String) → EndsAs (plain_error m) ExecutionState.failed status_failed

-- An error: the result is a new one, with the error in it.
pub record FailedBy (err : GoError) (before after : Execution) (result : ExecutionResult)
    : Type 0 where
  pub ends : EndsAs err after.state result.status
  pub named : result.id ≡ before.id
  pub reported : result.error ≡ some (to_execution_error err)
  pub counted : Counted before result

-- What a result carries beside its state.
pub record SameAnswer (r result : ExecutionResult) : Type 0 where
  pub id : result.id ≡ r.id
  pub output : result.output ≡ r.output
  pub error : result.error ≡ r.error
  pub tokens : result.token_usage ≡ r.token_usage
  pub cost : result.cost ≡ r.cost

-- A result without an error and with no status but that of a success.
abbrev pub IsGood : ExecutionResult → Type 0
IsGood r = (r.error ≡ none) × ((r.status ≡ status_unset) ⊎ (r.status ≡ status_succeeded))

-- A result: a good one is stored as a success; any other keeps its status, and its state, which is
-- FAILED where it has none.
pub data AnsweredBy (r : ExecutionResult) (before after : Execution) (result : ExecutionResult)
    : Type 0 where
  succeeds :
      IsGood r
      → after.state ≡ ExecutionState.succeeded
      → result.status ≡ status_succeeded
      → Counted before result
      → AnsweredBy r before after result
  cut_short :
      ¬ IsGood r
      → ((r.state ≡ unset) × (after.state ≡ ExecutionState.failed))
        ⊎ ((r.state ≢ unset) × (after.state ≡ r.state))
      → result.status ≡ r.status
      → AnsweredBy r before after result

abbrev pub Ended :
    GoError → Option ExecutionResult → Execution → Execution → ExecutionResult → Type 0
Ended nil none before after result = ⊥
Ended nil (some r) before after result = AnsweredBy r before after result × SameAnswer r result
Ended err res before after result =
    FailedBy err before after result × (is_terminal_state after.state ≡ true)

-- The error and the result of a run that are not both nil.
abbrev pub Answered : GoError → Option ExecutionResult → Type 0
Answered err res = (is_nil err ≡ false) ⊎ (res ≢ none)

abbrev pub Handled : ℕ → ℤ → GoError → Option ExecutionResult → Execution → Type 0
Handled now duration err res e =
    (e' : Execution) × (result : ExecutionResult) × (handle_result now duration err res e ≡ some e')
    × Settled now duration e e' result
    × Ended err res e e' result

unset_cases :
    (s : ExecutionState)
    → ((s ≡ unset) × (is_unset s ≡ true)) ⊎ ((s ≢ unset) × (is_unset s ≡ false))
unset_cases unset = inl (refl, refl)
unset_cases ExecutionState.pending = inr ((λ e. cc), refl)
unset_cases ExecutionState.queued = inr ((λ e. cc), refl)
unset_cases ExecutionState.running = inr ((λ e. cc), refl)
unset_cases ExecutionState.retrying = inr ((λ e. cc), refl)
unset_cases ExecutionState.succeeded = inr ((λ e. cc), refl)
unset_cases ExecutionState.failed = inr ((λ e. cc), refl)
unset_cases ExecutionState.cancelled = inr ((λ e. cc), refl)
unset_cases ExecutionState.timed_out = inr ((λ e. cc), refl)
unset_cases (ExecutionState.other_state s) = inr ((λ e. cc), refl)

status_cases :
    (s : ExecutionStatus)
    → let test : Bool = elim s [ status_unset ↦ false | status_succeeded ↦ false | _ ↦ true ] in
      (((s ≡ status_unset) ⊎ (s ≡ status_succeeded)) × (test ≡ false))
      ⊎ (¬ ((s ≡ status_unset) ⊎ (s ≡ status_succeeded)) × (test ≡ true))
status_cases status_unset = inl (inl refl, refl)
status_cases status_succeeded = inl (inr refl, refl)
status_cases status_failed = inr ((λ e. elim e [ inl x ↦ cc | inr x ↦ cc ]), refl)
status_cases status_cancelled = inr ((λ e. elim e [ inl x ↦ cc | inr x ↦ cc ]), refl)
status_cases status_timed_out = inr ((λ e. elim e [ inl x ↦ cc | inr x ↦ cc ]), refl)
status_cases (other_status t) = inr ((λ e. elim e [ inl x ↦ cc | inr x ↦ cc ]), refl)

pub IsGood-cases :
    (r : ExecutionResult)
    → (IsGood r × (is_short_circuit r ≡ false)) ⊎ (¬ IsGood r × (is_short_circuit r ≡ true))
unfolding is_short_circuit
IsGood-cases r = elim (Option-cases r.error) [
  | inr (err, failed_by) ↦ inr ((λ good. cc (good.0)), rw failed_by refl)
  | inl no_error ↦ elim (status_cases r.status) [
    | inl (good, test) ↦ inl ((no_error, good), rw no_error test)
    | inr (bad, test) ↦ inr ((λ good. bad good.1), rw no_error test)
  ]
]

pub short_answer :
    (now : ℕ) (duration : ℤ) (r : ExecutionResult) (e : Execution)
    → ¬ IsGood r
    → is_short_circuit r ≡ true
    → Handled now duration nil (some r) e
unfolding handle_result short_circuited
short_answer now duration r e bad cut = (
  short_circuited duration r (record e { completed_at = some now }),
  _,
  rw cut refl,
  record { stamped = refl; kept = refl; agrees = refl; timed = refl; same_attempts = refl },
  (
    cut_short bad
        (elim (unset_cases r.state) [
          | inl (none_yet, test) ↦ inl (none_yet, rw test refl)
          | inr (set, test) ↦ inr (set, rw test refl)
        ])
        refl,
    record { id = refl; output = refl; error = refl; tokens = refl; cost = refl },
  ),
)

pub good_answer :
    (now : ℕ) (duration : ℤ) (r : ExecutionResult) (e : Execution)
    → IsGood r
    → is_short_circuit r ≡ false
    → Handled now duration nil (some r) e
unfolding handle_result succeeded_with
good_answer now duration r e good plain = (
  succeeded_with duration r (record e { completed_at = some now }),
  _,
  rw plain refl,
  record { stamped = refl; kept = refl; agrees = refl; timed = refl; same_attempts = refl },
  (
    succeeds good refl refl (record { count = refl; retries = refl; all = refl }),
    record { id = refl; output = refl; error = refl; tokens = refl; cost = refl },
  ),
)

pub category_is_terminal : (c : ErrorCategory) → is_terminal_state (outcome_of_category c).0 ≡ true
unfolding outcome_of_category is_terminal_state
category_is_terminal timeout = refl
category_is_terminal cancelled = refl
category_is_terminal config = refl
category_is_terminal provider = refl
category_is_terminal validation = refl
category_is_terminal internal = refl
category_is_terminal saturation = refl
category_is_terminal auth = refl
category_is_terminal (other_category s) = refl

pub category_EndsAs :
    (c : ErrorCategory) (m : String) (retryable : Bool) (cause : GoError)
    → EndsAs
        (platform_error c m retryable cause)
        (outcome_of_category c).0
        (outcome_of_category c).1
unfolding outcome_of_category
category_EndsAs timeout m b cause = times_out m b cause
category_EndsAs cancelled m b cause = is_cancelled m b cause
category_EndsAs config m b cause = fails config m b cause (λ e. cc) (λ e. cc)
category_EndsAs provider m b cause = fails provider m b cause (λ e. cc) (λ e. cc)
category_EndsAs validation m b cause = fails validation m b cause (λ e. cc) (λ e. cc)
category_EndsAs internal m b cause = fails internal m b cause (λ e. cc) (λ e. cc)
category_EndsAs saturation m b cause = fails saturation m b cause (λ e. cc) (λ e. cc)
category_EndsAs auth m b cause = fails auth m b cause (λ e. cc) (λ e. cc)
category_EndsAs (other_category s) m b cause =
    fails (other_category s) m b cause (λ e. cc) (λ e. cc)
