-- ===== src/Execution/Manager/System/Ends.antt =====
-- The ends of a run (core/execution/manager.go) and the places of executions.
use chukrun.Base.{
  ℕ, ◌≡◌, refl, ◌∙◌, inl, inr, String, List, Option, length, length-modify, arith, Option-cases,
}
use chukrun.Base.Int.{ℤ}
use chukrun.Errors.{GoError}
use chukrun.Execution.Types.{ExecutionResult, Execution}
use chukrun.Execution.Manager.State.{ExecRef, Published, signal, release_slots, notify_waiters}
use chukrun.Execution.Manager.Outcome.{Fataled, finish_with}
use chukrun.Execution.Manager.Run.{
  conclude_run, recover_panic, panic_message, publish_outcome, handle_result, outcome_topic,
}
use chukrun.Execution.Manager.System.{System, with_manager, IsRunning}
use chukrun.Execution.Manager.System.Places.{is_at, IsSystem, count-drop_run, kept, running}

module _ (sys : System) (inv : IsSystem sys) where
  -- The end of a run, with whatever it wrote and published before.
  finish_with-IsSystem :
      (ref : ExecRef) (store : List Execution) (published : List Published) (fatals : List String)
      → Fataled ref.id sys.manager.fatals fatals
      → IsRunning sys ref
      → length store ≡ length sys.manager.store
      → IsSystem (
          with_manager sys
            (record (notify_waiters ref.id
              (release_slots ref (record sys.manager { store = store; published = published }))) {
                fatals = fatals;
              }))
  unfolding notify_waiters release_slots signal
  finish_with-IsSystem ref store published fatals fatal m same =
      let h = running sys inv ref m in
      let f = finish_with ref sys.manager store published fatals fatal inv.slots h in
      kept sys inv _ f.slots same
        (λ a. omega (arith, count-drop_run (is_at a) ref sys.manager.runs h))

  pub finish-IsSystem :
      (ref : ExecRef) (store : List Execution) (published : List Published)
      → IsRunning sys ref
      → length store ≡ length sys.manager.store
      → IsSystem (
          with_manager sys (
            notify_waiters ref.id
              (release_slots ref (record sys.manager { store = store; published = published }))))
  unfolding notify_waiters release_slots signal
  finish-IsSystem ref store published m same =
      finish_with-IsSystem ref store published sys.manager.fatals (inl refl) m same

  pub recover-IsSystem :
      (now : ℕ) (panic : String) (ref : ExecRef) (store : List Execution)
      (published : List Published)
      → IsRunning sys ref
      → length store ≡ length sys.manager.store
      → IsSystem (
          with_manager sys (
            recover_panic now panic ref
              (record sys.manager { store = store; published = published })))
  unfolding recover_panic panic_message
  recover-IsSystem now panic ref store published m same =
      finish_with-IsSystem ref _ published _ (inr (panic, refl)) m
        (length-modify ref.address _ store ∙ same)

  pub publish_outcome-IsSystem :
      (now : ℕ) (e : Execution) (ref : ExecRef) (store : List Execution)
      → IsRunning sys ref
      → length store ≡ length sys.manager.store
      → IsSystem
          (with_manager sys (publish_outcome now e ref (record sys.manager { store = store })))
  unfolding publish_outcome
  publish_outcome-IsSystem now e ref store m same = elim (Option-cases (outcome_topic e)) [
    | inl no_topic ↦
        rw (publish_outcome, no_topic)
          (recover-IsSystem now _ ref store sys.manager.published m same)
    | inr (topic, found) ↦ rw (publish_outcome, found) (finish-IsSystem ref store _ m same)
  ]

  pub conclude_run-IsSystem :
      (now : ℕ) (duration : ℤ) (err : GoError) (res : Option ExecutionResult) (e : Execution)
      (ref : ExecRef)
      → IsRunning sys ref
      → IsSystem (with_manager sys (conclude_run now duration err res e ref sys.manager))
  unfolding conclude_run
  conclude_run-IsSystem now duration err res e ref m =
      elim (Option-cases (handle_result now duration err res e)) [
        | inl panic ↦
            rw (conclude_run, panic)
              (recover-IsSystem now _ ref sys.manager.store sys.manager.published m refl)
        | inr (e', ok) ↦
            rw (conclude_run, ok)
              (publish_outcome-IsSystem now e' ref _ m (length-modify ref.address _ _))
      ]
