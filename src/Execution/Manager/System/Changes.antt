-- ===== src/Execution/Manager/System/Changes.antt =====
-- What the scheduler, the halves of `Submit` and `Cancel` keep of the accounts of the engine
-- (core/execution/manager.go).
use mathlib.Core.List.{Memᴰ}
use chukrun.Base.{
  ℕ, ◌≤◌, ◌<◌, ◌≡◌, refl, sym, ap, ◌∙◌, inl, inr, String, List, [], ◌∷◌, length, length-append,
  length-modify, arith, Bool-cases, Option-cases, get_elem?,
}
use chukrun.Base.Dict.{lookup}
use chukrun.Lifecycle.{LifecycleManager, ready, same_state}
use chukrun.Execution.Types.{ExecutionRequest, Execution, ExecutionState, is_terminal_state}
use chukrun.Execution.Scheduler.{dequeue, enqueue, size}
use chukrun.Execution.Scheduler.Dispatch.{held}
use chukrun.Execution.Scheduler.Contents.{dequeue_conserves, enqueue_conserves}
use chukrun.Execution.Manager.State.{
  ExecRef, ExecutionManager, Published, signal, launch, drop_run, notify_waiters,
}
use chukrun.Execution.Manager.Schedule.{can_schedule, schedule_rounds}
use chukrun.Execution.Manager.Submit.{enqueue_admitted, new_execution, request_id}
use chukrun.Execution.Manager.Submitting.{ref_of}
use chukrun.Execution.Manager.Overshooting.{admitted}
use chukrun.Execution.Manager.Cancel.{cancel, cancel_in, cancel_waiting, cancel_running}
use chukrun.Execution.Manager.Dispatching.{schedule_rounds-SlotsHeld}
use chukrun.Execution.Manager.System.{System, with_manager}
use chukrun.Execution.Manager.System.Places.{
  is_at, IsSystem, count-drop_run, Memᴰ-Holding, remove-held, kept, few_admitted,
}

module _ (sys : System) (inv : IsSystem sys) where
  pub schedule_rounds-IsSystem :
      sys.manager.sem < sys.manager.sem_cap
      → IsSystem (with_manager sys (schedule_rounds 1 sys.manager))
  unfolding schedule_rounds launch
  schedule_rounds-IsSystem free =
      let held_same = schedule_rounds-SlotsHeld 1 sys.manager inv.slots (omega arith) in
      let taken =
        λ (a : ℕ). dequeue_conserves (is_at a) (can_schedule sys.manager) sys.manager.scheduler in
      elim (Option-cases (dequeue (can_schedule sys.manager) sys.manager.scheduler).0) [
        | inl empty ↦
            kept sys inv _ held_same (rw (schedule_rounds, empty) refl)
              (λ a. rw (schedule_rounds, empty) omega (arith, rw empty at (taken a)))
        | inr (ref, found) ↦
            kept sys inv _ held_same (rw (schedule_rounds, found, launch) refl)
              (λ a. rw (schedule_rounds, found, launch) omega (arith, rw found at (taken a)))
      ]

  -- The second half of `Submit`, whatever it does to the lifecycle and the signals.
  enqueued-IsSystem :
      (lifecycle : LifecycleManager) (signals : ℕ) (store : List Execution)
      (published : List Published) (ref : ExecRef)
      → Memᴰ ref sys.admitted
      → length store ≡ length sys.manager.store
      → IsSystem (record {
        manager = record sys.manager {
          lifecycle = lifecycle;
          schedule_signal = signals;
          store = store;
          published = published;
          scheduler = enqueue (λ r. r.priority) ref sys.manager.scheduler;
        };
        admitted = drop_run ref.address sys.admitted;
      })
  enqueued-IsSystem lifecycle signals store published ref m same =
      let h = Memᴰ-Holding ref sys.admitted m (few_admitted sys inv ref.address) in
      let s = inv.slots in
      kept sys inv _
        (record { held = s.held; capped = s.capped; counted = s.counted; limited = s.limited }) same
        (λ a. omega (
          arith,
          count-drop_run (is_at a) ref sys.admitted h,
          enqueue_conserves (is_at a) (λ r. r.priority) ref sys.manager.scheduler,
        ))

  pub enqueue_admitted-IsSystem :
      (now : ℕ) (ref : ExecRef)
      → Memᴰ ref sys.admitted
      → IsSystem (record sys {
        manager = enqueue_admitted now ref sys.manager;
        admitted = drop_run ref.address sys.admitted;
      })
  unfolding enqueue_admitted signal
  enqueue_admitted-IsSystem now ref m =
      elim (Bool-cases (same_state sys.manager.lifecycle.state_val ready)) [
        | inl first ↦
            rw (enqueue_admitted, first)
              (enqueued-IsSystem _ _ _ _ ref m (length-modify ref.address _ _))
        | inr later ↦
            rw (enqueue_admitted, later)
              (enqueued-IsSystem _ _ _ _ ref m (length-modify ref.address _ _))
      ]

  -- A change of the store, of what is published and of fields that no account reads.
  pub beside-IsSystem :
      (em : ExecutionManager)
      → em.sem ≡ sys.manager.sem
      → em.sem_cap ≡ sys.manager.sem_cap
      → em.provider_active ≡ sys.manager.provider_active
      → em.provider_limits ≡ sys.manager.provider_limits
      → em.runs ≡ sys.manager.runs
      → length em.store ≡ length sys.manager.store
      → ((a : ℕ) → held (is_at a) em.scheduler ≤ held (is_at a) sys.manager.scheduler)
      → IsSystem (with_manager sys em)
  beside-IsSystem em sem cap active limits runs size fewer =
      let s = inv.slots in
      kept sys inv _
        (record {
          held = sem ∙ s.held ∙ sym (ap length runs);
          capped = omega (arith, s.capped);
          counted = λ p named. rw (active, runs) (s.counted p named);
          limited =
              λ p limit named found. rw runs (s.limited p limit named (rw (sym limits) found));
        })
        size (λ a. rw runs omega (arith, fewer a))

  cancel_waiting-IsSystem :
      (now : ℕ) (id : String) (address : ℕ)
      → IsSystem (with_manager sys (cancel_waiting now id address sys.manager))
  unfolding cancel_waiting notify_waiters
  cancel_waiting-IsSystem now id address =
      beside-IsSystem _ refl refl refl refl refl (length-modify address _ _)
        (λ a. remove-held (is_at a) id sys.manager.scheduler)

  cancel_in-IsSystem :
      (state : ExecutionState) (now : ℕ) (id : String) (address : ℕ)
      → IsSystem (with_manager sys (cancel_in state now id address sys.manager))
  unfolding cancel_in cancel_running
  cancel_in-IsSystem ExecutionState.pending now id address = cancel_waiting-IsSystem now id address
  cancel_in-IsSystem ExecutionState.queued now id address = cancel_waiting-IsSystem now id address
  cancel_in-IsSystem ExecutionState.retrying now id address = cancel_waiting-IsSystem now id address
  cancel_in-IsSystem ExecutionState.running now id address =
      beside-IsSystem _ refl refl refl refl refl (length-modify address _ _) (λ a. omega arith)
  cancel_in-IsSystem state now id address = inv

  pub cancel-IsSystem :
      (now : ℕ) (id : String) → IsSystem (with_manager sys (cancel now id sys.manager).0)
  unfolding cancel
  cancel-IsSystem now id = elim (Option-cases (lookup id sys.manager.executions)) [
    | inl unknown ↦ rw (cancel, unknown) inv
    | inr (address, known) ↦ elim (Option-cases (get_elem? sys.manager.store address)) [
      | inl no_object ↦ rw (cancel, known, no_object) inv
      | inr (e, at) ↦ elim (Bool-cases (is_terminal_state e.state)) [
        | inl over ↦ rw (cancel, known, at, over) inv
        | inr going ↦ rw (cancel, known, at, going) (cancel_in-IsSystem e.state now id address)
      ]
    ]
  ]

  -- The first half of a `Submit` that is let through: the address is new.
  pub admitted-IsSystem :
      (now : ℕ) (generated : String) (req : ExecutionRequest)
      → IsSystem (record {
        manager = admitted now generated req sys.manager;
        admitted = ref_of generated req sys.manager ∷ sys.admitted;
      })
  admitted-IsSystem now generated req =
      let s = inv.slots in
      let longer =
        length-append sys.manager.store (new_execution now (request_id generated req) req ∷ []) in
      record {
        slots = record {
          held = s.held;
          capped = s.capped;
          counted = s.counted;
          limited = s.limited;
        };
        once = λ a. rw longer ground (arith, inv.once a);
      }
