-- ===== src/Runtime/Shifts.antt =====
-- What a report to the lifecycle (core/lifecycle/manager.go) and a submission (core/execution/manager.go)
-- do to the state of the runtime.
use chukrun.Base.{
  ℕ, ◌≡◌, refl, sym, ◌∙◌, ◌≢◌, inl, inr, String, Bool, true, false, ◌||◌, List, [], ◌∷◌, Bool-cases,
}
use chukrun.Errors.{GoError}
use chukrun.Execution.Types.{ExecutionRequest}
use chukrun.Execution.Manager.State.{ExecRef, ExecutionManager}
use chukrun.Execution.Manager.Submit.{Answer}
use chukrun.Execution.Manager.Submitting.{
  Submitted, not_ready, no_provider, queue_full, accepted, once_submitted,
}
use chukrun.Lifecycle.{
  State, LifecycleManager, is_ready, ready, running, degraded, draining, stopped, failed,
  same_state, recovered, remaining_errors, report_component_health, handle_component_recovery,
}
use chukrun.Lifecycle.Graph.{same_state_eq}
use chukrun.Lifecycle.Health.{failure_target, report_failure}
use chukrun.Runtime.Draining.{IsServing}

-- What a report or a submission does to the state.
pub data Shift (s : State) : State → Type 0 where
  stays : (s' : State) → s' ≡ s → Shift s s'
  serves : (s' : State) → IsServing s → s' ≢ draining → Shift s s'
  breaks : (s' : State) → s' ≡ failed → Shift s s'

failure-Shift : (s : State) (fatal : Bool) → Shift s (failure_target s fatal)
failure-Shift State.ready true = breaks failed refl
failure-Shift State.ready false = serves degraded (inl refl) (λ e. cc)
failure-Shift State.running true = breaks failed refl
failure-Shift State.running false = serves degraded (inr (inl refl)) (λ e. cc)
failure-Shift State.degraded true = breaks failed refl
failure-Shift State.booting true = breaks failed refl
failure-Shift s fatal = stays _ refl

recovered-Shift :
    (now : ℕ) (lm : LifecycleManager) (errs : List String)
    → lm.state_val ≡ degraded
    → Shift lm.state_val (recovered now lm errs).state_val
unfolding recovered
recovered-Shift now lm [] at = serves running (inr (inr at)) (λ e. cc)
recovered-Shift now lm (e ∷ errs) at = stays lm.state_val refl

recovery-Shift :
    (now : ℕ) (s : State) (lm : LifecycleManager)
    → lm.state_val ≡ s
    → Shift s (handle_component_recovery now s lm).state_val
unfolding handle_component_recovery
recovery-Shift now s lm at = elim (Bool-cases (same_state s degraded)) [
  | inl here ↦
      rw (here, sym at)
        (recovered-Shift now lm (remaining_errors lm.components)
          (at ∙ same_state_eq s degraded here))
  | inr away ↦ rw away (stays lm.state_val at)
]

pub report-Shift :
    (now : ℕ) (component : String) (ok fatal : Bool) (err : GoError) (lm : LifecycleManager)
    → Shift lm.state_val (report_component_health now component ok fatal err lm).state_val
unfolding report_component_health
report-Shift now component false fatal err lm =
    rw ((report_failure now component fatal err lm).0) (failure-Shift lm.state_val fatal)
report-Shift now component true fatal err lm =
    elim (Bool-cases (same_state lm.state_val draining || same_state lm.state_val stopped)) [
      | inl over ↦ rw over (stays lm.state_val refl)
      | inr live ↦ rw live (recovery-Shift now lm.state_val _ refl)
    ]

-- What an accepted submission does to a state in which it was accepted.
submitted-Shift :
    (lm : LifecycleManager) (s' : State)
    → is_ready lm ≡ true
    → s' ≡ once_submitted lm.state_val
    → Shift lm.state_val s'
unfolding is_ready
submitted-Shift lm s' up e = elim (Bool-cases (same_state lm.state_val ready)) [
  | inl first ↦
      serves s' (inl (same_state_eq lm.state_val ready first))
        (λ d. running_drains (sym (rw first at e) ∙ d))
  | inr later ↦ stays s' (rw later at e)
]
  where
    running_drains : running ≢ draining
    running_drains e = cc

pub Submitted-Shift :
    {now : ℕ} {generated : String} {req : ExecutionRequest} {em : ExecutionManager}
    {r : ExecutionManager × Answer ExecRef}
    → Submitted now generated req em r
    → Shift em.lifecycle.state_val r.0.lifecycle.state_val
Submitted-Shift (not_ready message down) = stays _ refl
Submitted-Shift (no_provider message unnamed) = stays _ refl
Submitted-Shift (queue_full message full) = stays _ refl
Submitted-Shift {em = em} (accepted {em' = em'} a) =
    submitted-Shift em.lifecycle em'.lifecycle.state_val a.was_ready a.moved
