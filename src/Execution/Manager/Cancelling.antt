-- ===== src/Execution/Manager/Cancelling.antt =====
-- `Cancel` (core/execution/manager.go) of an execution that waits, and what can follow it.
use chukrun.Base.{
  ℕ, ◌≡◌, refl, ◌∙◌, ◌⊎◌, inl, inr, String, false, ◌++◌, none, some, get_elem?, get_elem?-modify,
  eq_refl,
}
use chukrun.Base.Dict.{lookup, lookup-delete}
use chukrun.Errors.{nil}
use chukrun.Execution.Scheduler.{or_empty, remove}
use chukrun.Execution.Types.{
  ExecutionState, pending, queued, retrying, running, cancelled, Execution, is_terminal_state,
}
use chukrun.Execution.Manager.State.{ExecutionManager, with_execution, notify_waiters}
use chukrun.Execution.Manager.Cancel.{cancel, cancel_in, cancel_waiting, cancelled_result}
use chukrun.Execution.Manager.Attempts.{resume_execution}

abbrev pub IsWaiting : ExecutionState → Type 0
IsWaiting s = (s ≡ pending) ⊎ ((s ≡ queued) ⊎ (s ≡ retrying))

-- What `Cancel` leaves of a waiting execution `e` at `address`.
pub record CancelledWaiting (now : ℕ) (id : String) (address : ℕ) (e : Execution)
    (before after : ExecutionManager) : Type 0 where
  pub left : Execution
  pub stored : get_elem? after.store address ≡ some left
  pub is_cancelled : left.state ≡ cancelled
  pub stamped : left.completed_at ≡ some now
  pub answered : left.result ≡ some (cancelled_result id)
  pub not_signalled : left.context_cancelled ≡ e.context_cancelled
  pub unqueued : after.scheduler ≡ (remove (λ r. r.id) id before.scheduler).1
  pub woken : after.closed ≡ or_empty (lookup id before.waiters) ++ before.closed
  pub forgotten : lookup id after.waiters ≡ none
  pub same_runs : after.runs ≡ before.runs

waiting_lem :
    (now : ℕ) (id : String) (address : ℕ) (em : ExecutionManager) (e : Execution)
    → get_elem? em.store address ≡ some e
    → CancelledWaiting now id address e em (cancel_waiting now id address em)
unfolding cancel_waiting notify_waiters
waiting_lem now id address em e at = record {
  left = _;
  stored = get_elem?-modify address _ em.store at;
  is_cancelled = refl;
  stamped = refl;
  answered = refl;
  not_signalled = refl;
  unqueued = refl;
  woken = refl;
  forgotten = lookup-delete id id em.waiters ∙ rw (eq_refl id) refl;
  same_runs = refl;
}

cancel_in_waiting :
    (s : ExecutionState) (now : ℕ) (id : String) (address : ℕ) (em : ExecutionManager)
    → IsWaiting s
    → (is_terminal_state s ≡ false)
      × (cancel_in s now id address em ≡ cancel_waiting now id address em)
unfolding cancel_in is_terminal_state
cancel_in_waiting s now id address em (inl e) = rw e (refl, refl)
cancel_in_waiting s now id address em (inr (inl e)) = rw e (refl, refl)
cancel_in_waiting s now id address em (inr (inr e)) = rw e (refl, refl)

-- Cancelling an execution that is PENDING, QUEUED or RETRYING succeeds. The execution is CANCELLED
-- with the result that says so and the time, its id is removed from the queue, and its waiters are
-- woken and forgotten. The context of the run is not cancelled, and a run that has its slots keeps
-- them.
pub cancel-CancelledWaiting :
    (now : ℕ) (id : String) (address : ℕ) (em : ExecutionManager) (e : Execution)
    → lookup id em.executions ≡ some address
    → get_elem? em.store address ≡ some e
    → IsWaiting e.state
    → ((cancel now id em).1 ≡ nil) × CancelledWaiting now id address e em (cancel now id em).0
unfolding cancel
cancel-CancelledWaiting now id address em e known at waiting =
    let (open_state, branch) = cancel_in_waiting e.state now id address em waiting in
    rw (cancel, known, at, open_state, branch) (refl, waiting_lem now id address em e at)

-- A run that waits for its next attempt is not stopped by `Cancel`: when the delay is over, the
-- execution that `Cancel` ended is RUNNING again, although its waiters were told.
pub cancel_undone :
    (now : ℕ) (id : String) (address : ℕ) (em : ExecutionManager) (e : Execution)
    → lookup id em.executions ≡ some address
    → get_elem? em.store address ≡ some e
    → e.state ≡ retrying
    → let after = with_execution address resume_execution (cancel now id em).0 in
      (e' : Execution) × (get_elem? after.store address ≡ some e')
      × (e'.state ≡ running)
      × (e'.completed_at ≡ some now)
      × (e'.context_cancelled ≡ e.context_cancelled)
      × (lookup id after.waiters ≡ none)
unfolding resume_execution
cancel_undone now id address em e known at r =
    let c = (cancel-CancelledWaiting now id address em e known at (inr (inr r))).1 in
    (
      resume_execution c.left,
      get_elem?-modify address resume_execution (cancel now id em).0.store c.stored,
      refl,
      c.stamped,
      c.not_signalled,
      c.forgotten,
    )
