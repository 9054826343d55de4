-- ===== src/Execution/Manager/Submit.antt =====
-- `Submit`, `Get` and `Wait` (core/execution/manager.go). `Submit` checks for room and stores the
-- execution under `execMu`, and enqueues it after it has unlocked: two steps, between which other
-- goroutines may run. So it is with the check and the registration of `Wait`.
use chukrun.Base.{
  ℕ, suc, String, false, not, [], ◌∷◌, ◌++◌, Option, none, some, leb, length, str_eq, if◌then◌else◌,
  get_elem?,
}
use chukrun.Base.Dict.{lookup, insert}
use chukrun.Base.Text.{◌<>◌}
use chukrun.Context.Priority.{normal}
use chukrun.Errors.{GoError, nil, new_error, internal, validation, saturation}
use chukrun.Execution.Scheduler.{size, enqueue, or_empty}
use chukrun.Execution.Types.{
  ExecutionRequest, ExecutionResult, Execution, pending, queued, is_terminal_state,
}
use chukrun.Execution.Manager.State.{ExecRef, ExecutionManager, with_execution, publish, signal}
use chukrun.Lifecycle.{State, is_ready, same_state, state_string, transition}

-- What a call of the engine returns: a value, unless there is an error.
abbrev pub Answer {ℓ} : Type ℓ → Type ℓ
Answer A = Option A × GoError

-- `if req.ID == ""`, with the identifier that would be generated.
abbrev pub request_id : String → ExecutionRequest → String
request_id generated req = if str_eq req.id "" then generated else req.id

abbrev pub request_priority : ExecutionRequest → String
request_priority req = if str_eq req.priority "" then normal else req.priority

unfoldable pub new_execution : ℕ → String → ExecutionRequest → Execution
new_execution now id req = record {
  id = id;
  request = record req { id = id };
  state = pending;
  priority = request_priority req;
  created_at = now;
  started_at = none;
  completed_at = none;
  attempts = [];
  result = none;
  parent_id = req.parent_id;
  cancel_func = false;
  context_cancelled = false;
}

-- Up to the first unlock: the checks, and the entry in the map of executions.
unfoldable pub admit :
    ℕ → String → ExecutionRequest → ExecutionManager → ExecutionManager × Answer ExecRef
admit now generated req em =
    let id = request_id generated req in
    if not (is_ready em.lifecycle)
    then (
      em,
      (
        none,
        new_error internal
            ("cannot accept execution request: runtime is not ready (current state: "
              <> state_string em.lifecycle.state_val
              <> ")")
            false nil,
      ),
    )
    else if str_eq req.provider_ref ""
    then (em, (none, new_error validation "provider_ref cannot be empty" false nil))
    else if leb em.queue_cap (size em.scheduler)
    then (em, (none, new_error saturation "execution queue is full" false nil))
    else (
      record em {
        store = em.store ++ new_execution now id req ∷ [];
        executions = insert id (length em.store) em.executions;
      },
      (
        some (record {
          address = length em.store;
          id = id;
          provider_ref = req.provider_ref;
          priority = request_priority req;
        }),
        nil,
      ),
    )

-- `if em.lifecycle.GetState() == StateReady` at the end of `Submit`.
abbrev pub first_work : ℕ → ExecutionManager → ExecutionManager
first_work now em =
    if same_state em.lifecycle.state_val State.ready
    then record em { lifecycle = (transition now State.running em.lifecycle).0 }
    else em

-- The rest of `Submit`.
unfoldable pub enqueue_admitted : ℕ → ExecRef → ExecutionManager → ExecutionManager
enqueue_admitted now ref em =
    let queued_em = with_execution ref.address (λ e. record e { state = queued }) em in
    let enqueued = record queued_em {
      scheduler = enqueue (λ r. r.priority) ref queued_em.scheduler;
    } in
    first_work now (signal (publish "execution.queued" ref.id now enqueued))

unfoldable pub submit :
    ℕ → String → ExecutionRequest → ExecutionManager → ExecutionManager × Answer ExecRef
unfolding admit enqueue_admitted
submit now generated req em =
    let (em', answer) = admit now generated req em in
    elim answer.0 [
      | none ↦ (em', answer)
      | some ref ↦ (enqueue_admitted now ref em', (some ref, nil))
    ]

-- `Get`.
unfoldable pub get : String → ExecutionManager → Answer ℕ
get id em = elim (lookup id em.executions) [
  | none ↦ (none, new_error validation "execution not found" false nil)
  | some address ↦ (some address, nil)
]

-- The first half of `Wait`: an error, the result of an execution that has ended, or the need to
-- wait.
pub data WaitView : Type 0 where
  unknown : GoError → WaitView
  ended : Option ExecutionResult → WaitView
  must_wait : WaitView

unfoldable pub wait_check : String → ExecutionManager → WaitView
wait_check id em = elim (lookup id em.executions) [
  | none ↦ unknown (new_error validation "execution not found" false nil)
  | some address ↦ elim (get_elem? em.store address) [
    | none ↦ must_wait
    | some e ↦ if is_terminal_state e.state then ended e.result else must_wait
  ]
]

-- The second half of `Wait` up to its `select`: a new channel among the waiters.
unfoldable pub wait_register : String → ExecutionManager → ExecutionManager × ℕ
wait_register id em = (
  record em {
    waiters = insert id (or_empty (lookup id em.waiters) ++ em.next_channel ∷ []) em.waiters;
    next_channel = suc em.next_channel;
  },
  em.next_channel,
)
