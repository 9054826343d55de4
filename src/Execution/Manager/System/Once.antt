-- ===== src/Execution/Manager/System/Once.antt =====
-- The invariant of the engine with everything that runs at once: the accounts of the slots hold, and
-- every execution stands at one place at most.
use chukrun.Base.{
  ℕ, ◌≡◌, refl, sym, ap, ◌∙◌, ◌⊎◌, inl, inr, String, [], ◌∷◌, Option, none, some, length-modify,
  arith, leb, str_eq, Bool-cases,
}
use mathlib.Core.Option.{some-injective}
use chukrun.Base.Dict.{lookup}
use chukrun.Base.Int.{ℤ}
use chukrun.Errors.{nil}
use chukrun.Lifecycle.{LifecycleManager, is_ready}
use chukrun.Execution.Types.{ExecutionRequest}
use chukrun.Execution.Scheduler.{new_priority_scheduler, size}
use chukrun.Execution.Manager.State.{new_execution_manager, ExecRef, ExecutionManager}
use chukrun.Execution.Manager.Submit.{admit, wait_register}
use chukrun.Execution.Manager.Submitting.{ref_of}
use chukrun.Execution.Manager.Overshooting.{admitted}
use chukrun.Execution.Manager.Run.{begin_run}
use chukrun.Execution.Manager.System.{
  System, SystemStep, admitting, enqueueing, scheduling, beginning, working, concluding, panicking,
  ending, cancelling, registering, receiving, elsewhere, Steps, done, then_step,
}
use chukrun.Execution.Manager.System.Places.{IsSystem}
use chukrun.Execution.Manager.System.Ends.{finish-IsSystem, recover-IsSystem, conclude_run-IsSystem}
use chukrun.Execution.Manager.System.Changes.{
  schedule_rounds-IsSystem, enqueue_admitted-IsSystem, beside-IsSystem, cancel-IsSystem,
  admitted-IsSystem,
}

pub admit_cases :
    (now : ℕ) (generated : String) (req : ExecutionRequest) (em : ExecutionManager)
    → ((admit now generated req em).1.0 ≡ none)
      ⊎ (admit now generated req em
          ≡ (admitted now generated req em, (some (ref_of generated req em), nil)))
unfolding admit
admit_cases now generated req em = elim (Bool-cases (is_ready em.lifecycle)) [
  | inr down ↦ inl (rw (admit, down) refl)
  | inl up ↦ elim (Bool-cases (str_eq req.provider_ref "")) [
    | inl unnamed ↦ inl (rw (admit, up, unnamed) refl)
    | inr named ↦ elim (Bool-cases (leb em.queue_cap (size em.scheduler))) [
      | inl full ↦ inl (rw (admit, up, named, full) refl)
      | inr room ↦ inr (rw (admit, up, named, room) refl)
    ]
  ]
]

admit-IsSystem :
    (sys : System)
    → IsSystem sys
    → (now : ℕ) (generated : String) (req : ExecutionRequest) (ref : ExecRef)
    → (admit now generated req sys.manager).1.0 ≡ some ref
    → IsSystem (record sys {
      manager = (admit now generated req sys.manager).0;
      admitted = ref ∷ sys.admitted;
    })
admit-IsSystem sys inv now generated req ref passes =
    elim (admit_cases now generated req sys.manager) [
      | inl refused ↦ absurd (none_some (sym refused ∙ passes))
      | inr e ↦
          let same : ref_of generated req sys.manager ≡ ref =
            some-injective _ _ (ap (λ r. r.1.0) (sym e) ∙ passes) in
          rw (e, sym same) (admitted-IsSystem sys inv now generated req)
    ]
  where
    none_some : {x : ExecRef} → ◌≡◌ {A = Option ExecRef} none (some x) → ⊥
    none_some e = cc

-- One step keeps the accounts of the slots and the places.
step-IsSystem : {a b : System} → SystemStep a b → IsSystem a → IsSystem b
unfolding begin_run wait_register
step-IsSystem (admitting now generated req ref sys e) inv =
    admit-IsSystem sys inv now generated req ref e
step-IsSystem (enqueueing now ref sys m) inv = enqueue_admitted-IsSystem sys inv now ref m
step-IsSystem (scheduling sys free) inv = schedule_rounds-IsSystem sys inv free
step-IsSystem (beginning now ref sys m) inv =
    beside-IsSystem sys inv _ refl refl refl refl refl
      (length-modify ref.address _ _ ∙ length-modify ref.address _ _) (λ a. omega arith)
step-IsSystem (working f published ref sys m) inv =
    beside-IsSystem sys inv _ refl refl refl refl refl (length-modify ref.address f _)
      (λ a. omega arith)
step-IsSystem (concluding now duration err res e ref sys m) inv =
    conclude_run-IsSystem sys inv now duration err res e ref m
step-IsSystem (panicking now panic ref sys m) inv =
    recover-IsSystem sys inv now panic ref sys.manager.store sys.manager.published m refl
step-IsSystem (ending f topic now ref sys m) inv =
    finish-IsSystem sys inv ref _ _ m (length-modify ref.address f _)
step-IsSystem (cancelling now id sys) inv = cancel-IsSystem sys inv now id
step-IsSystem (registering id sys) inv =
    beside-IsSystem sys inv _ refl refl refl refl refl refl (λ a. omega arith)
step-IsSystem (receiving signals sys) inv =
    beside-IsSystem sys inv _ refl refl refl refl refl refl (λ a. omega arith)
step-IsSystem (elsewhere lifecycle sys) inv =
    beside-IsSystem sys inv _ refl refl refl refl refl refl (λ a. omega arith)

Steps-IsSystem : {a b : System} → IsSystem a → Steps a b → IsSystem b
Steps-IsSystem inv done = inv
Steps-IsSystem inv (then_step steps step) = step-IsSystem step (Steps-IsSystem inv steps)

-- An engine as `NewExecutionManager` makes it, when no call of `Submit` is under way.
abbrev pub new_system : LifecycleManager → ℤ → ℤ → System
new_system lifecycle global_limit queue_size = record {
  manager = new_execution_manager lifecycle global_limit queue_size;
  admitted = [];
}

new_system-IsSystem :
    (lifecycle : LifecycleManager) (global_limit queue_size : ℤ)
    → IsSystem (new_system lifecycle global_limit queue_size)
unfolding new_execution_manager new_priority_scheduler lookup
new_system-IsSystem lifecycle global_limit queue_size = record {
  slots = record {
    held = refl;
    capped = omega arith;
    counted = λ p named. refl;
    limited = λ p limit named found. omega arith;
  };
  once = λ a. omega arith;
}

-- Whatever interleaving of submissions, scheduling, runs and cancellations an engine made by
-- `NewExecutionManager` has seen, the semaphore counts the runs and stays within its capacity, no
-- provider has more runs than its limit, and every execution stands at one place at most: between
-- the halves of its submission, in the queue, or in a run.
pub reached-IsSystem :
    (lifecycle : LifecycleManager) (global_limit queue_size : ℤ) {sys : System}
    → Steps (new_system lifecycle global_limit queue_size) sys
    → IsSystem sys
reached-IsSystem lifecycle global_limit queue_size steps =
    Steps-IsSystem (new_system-IsSystem lifecycle global_limit queue_size) steps
