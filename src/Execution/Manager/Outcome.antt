-- ===== src/Execution/Manager/Outcome.antt =====
-- What a run leaves behind: the final state and result, the slots and the waiters.
use chukrun.Base.{
  ℕ, ◌≡◌, refl, ◌∙◌, ◌⊎◌, inl, inr, String, true, List, ◌∷◌, ◌++◌, Option, none, some, arith,
  Option-cases, get_elem?, get_elem?-modify, eq_refl,
}
use chukrun.Base.Int.{ℤ}
use chukrun.Base.Text.{◌<>◌}
use chukrun.Base.Dict.{lookup, lookup-delete}
use chukrun.Errors.{GoError, nil, platform_error, plain_error}
use chukrun.Execution.Scheduler.{or_empty}
use chukrun.Execution.Types.{running, ExecutionResult, Execution, is_terminal_state}
use chukrun.Execution.Registry.{Registry, Provider, resolve}
use chukrun.Execution.Manager.State.{
  ExecRef, Published, ExecutionManager, signal, release_slots, notify_waiters, drop_run,
}
use chukrun.Execution.Manager.Slots.{SlotsHeld, Holding, release-SlotsHeld}
use chukrun.Execution.Manager.Run.{
  handle_result, outcome_topic, publish_outcome, conclude_run, recover_panic, panic_message,
  begin_run, fail_unresolved, run_execution, RunHandler, translate_error, failed_with,
}
use chukrun.Execution.Manager.Answers.{
  fails_plainly, Answered, Handled, IsGood-cases, good_answer, short_answer, category_EndsAs,
  category_is_terminal,
}

-- What `handleResult` does. Of an error and a result that are not both nil it ends the execution:
-- the time and the duration are recorded and no attempt is lost. An error ends it TIMED_OUT for the
-- category of a timeout, CANCELLED for that of a cancellation and FAILED for any other, with a new
-- result that holds the error and the attempts. A result without an error and without a status but
-- that of a success ends it SUCCEEDED, with the attempts. Any other result keeps its status, and
-- gives the execution its own state, or FAILED where it has none. Output, error, tokens and cost
-- of a result are kept, and the result shows the execution's state.
pub handle_result-Handled :
    (now : ℕ) (duration : ℤ) (err : GoError) (res : Option ExecutionResult) (e : Execution)
    → Answered err res
    → Handled now duration err res e
unfolding handle_result failed_with translate_error is_terminal_state
handle_result-Handled now duration nil none e a = elim a [
  | inl x ↦ ground arith
  | inr n ↦ elim (n refl) [ ]
]
handle_result-Handled now duration nil (some r) e a = elim (IsGood-cases r) [
  | inl (good, plain) ↦ good_answer now duration r e good plain
  | inr (bad, cut) ↦ short_answer now duration r e bad cut
]
handle_result-Handled now duration (plain_error s) res e a = (
  _,
  _,
  refl,
  record { stamped = refl; kept = refl; agrees = refl; timed = refl; same_attempts = refl },
  (
    record {
      ends = fails_plainly s;
      named = refl;
      reported = refl;
      counted = record { count = refl; retries = refl; all = refl };
    },
    refl,
  ),
)
handle_result-Handled now duration (platform_error c m b cause) res e a = (
  _,
  _,
  refl,
  record { stamped = refl; kept = refl; agrees = refl; timed = refl; same_attempts = refl },
  (
    record {
      ends = category_EndsAs c m b cause;
      named = refl;
      reported = refl;
      counted = record { count = refl; retries = refl; all = refl };
    },
    category_is_terminal c,
  ),
)

-- A run calls `logger.Fatal` not at all, or once, for a panic that it recovered from.
abbrev pub Fataled : String → List String → List String → Type 0
Fataled id before after =
    (after ≡ before)
    ⊎ ((panic : String) × (after
          ≡ ("panic recovered in execution " <> id <> ": " <> panic) ∷ before))

-- What every way out of a run does to the manager: the run gives its slots back once, and the
-- waiters of the execution are woken and forgotten.
pub record Finished (ref : ExecRef) (before after : ExecutionManager) : Type 0 where
  pub slots : SlotsHeld after
  pub ended : after.runs ≡ drop_run ref.address before.runs
  pub woken : after.closed ≡ or_empty (lookup ref.id before.waiters) ++ before.closed
  pub forgotten : lookup ref.id after.waiters ≡ none
  pub same_queue : after.scheduler ≡ before.scheduler
  pub fatal : Fataled ref.id before.fatals after.fatals

-- The store and the published events do not matter to it.
pub finish_with :
    (ref : ExecRef) (em : ExecutionManager) (store : List Execution) (published : List Published)
    (fatals : List String)
    → Fataled ref.id em.fatals fatals
    → SlotsHeld em
    → Holding ref em.runs
    → Finished ref em
        (record (notify_waiters ref.id
          (release_slots ref (record em { store = store; published = published }))) {
            fatals = fatals;
          })
unfolding notify_waiters release_slots signal
finish_with ref em store published fatals fatal s h =
    let r = release-SlotsHeld em ref s h in
    record {
      slots = record { held = r.held; capped = r.capped; counted = r.counted; limited = r.limited };
      ended = refl;
      woken = refl;
      forgotten = lookup-delete ref.id ref.id em.waiters ∙ rw (eq_refl ref.id) refl;
      same_queue = refl;
      fatal = fatal;
    }

pub finish :
    (ref : ExecRef) (em : ExecutionManager) (store : List Execution) (published : List Published)
    → SlotsHeld em
    → Holding ref em.runs
    → Finished ref em (
        notify_waiters ref.id
          (release_slots ref (record em { store = store; published = published })))
unfolding notify_waiters release_slots signal
finish ref em store published s h = finish_with ref em store published em.fatals (inl refl) s h

recover-Finished :
    (now : ℕ) (text : String) (ref : ExecRef) (em : ExecutionManager) (store : List Execution)
    (published : List Published)
    → SlotsHeld em
    → Holding ref em.runs
    → Finished ref em
        (recover_panic now text ref (record em { store = store; published = published }))
unfolding recover_panic panic_message
recover-Finished now text ref em store published s h =
    finish_with ref em _ published _ (inr (text, refl)) s h

outcome-Finished :
    (now : ℕ) (e : Execution) (ref : ExecRef) (em : ExecutionManager) (store : List Execution)
    (published : List Published)
    → SlotsHeld em
    → Holding ref em.runs
    → Finished ref em
        (publish_outcome now e ref (record em { store = store; published = published }))
unfolding publish_outcome
outcome-Finished now e ref em store published s h = elim (Option-cases (outcome_topic e)) [
  | inl no_topic ↦
      rw (publish_outcome, no_topic) (recover-Finished now _ ref em store published s h)
  | inr (topic, found) ↦ rw (publish_outcome, found) (finish ref em store _ s h)
]

conclude-Finished :
    (now : ℕ) (duration : ℤ) (err : GoError) (res : Option ExecutionResult) (e : Execution)
    (ref : ExecRef) (em : ExecutionManager) (store : List Execution) (published : List Published)
    → SlotsHeld em
    → Holding ref em.runs
    → Finished ref em (
        conclude_run now duration err res e ref
          (record em { store = store; published = published }))
unfolding conclude_run
conclude-Finished now duration err res e ref em store published s h =
    elim (Option-cases (handle_result now duration err res e)) [
      | inl panic ↦ rw (conclude_run, panic) (recover-Finished now _ ref em store published s h)
      | inr (e', ok) ↦ rw (conclude_run, ok) (outcome-Finished now e' ref em _ published s h)
    ]

begun_store :
    (now : ℕ) (ref : ExecRef) (em : ExecutionManager) (e : Execution)
    → get_elem? em.store ref.address ≡ some e
    → get_elem? (begin_run now ref em).store ref.address
      ≡ some (record e { state = running; started_at = some now; cancel_func = true })
unfolding begin_run
begun_store now ref em e at =
    get_elem?-modify ref.address _ _ (get_elem?-modify ref.address _ em.store at)

pub run_execution-Finished :
    {P : Type 0} (registry : Registry P) (chained : Provider P → RunHandler) (now later : ℕ)
    (ref : ExecRef) (em : ExecutionManager) (e : Execution)
    → SlotsHeld em
    → Holding ref em.runs
    → get_elem? em.store ref.address ≡ some e
    → Finished ref em (run_execution registry chained now later ref em)
unfolding run_execution begin_run fail_unresolved
run_execution-Finished registry chained now later ref em e s h at =
    elim (Option-cases (resolve ref.provider_ref registry).0) [
      | inl missing ↦ rw (run_execution, missing) (finish ref em _ _ s h)
      | inr (p, found) ↦
          rw (run_execution, found, begun_store now ref em e at)
            (conclude-Finished later _ _ _ _ ref em _ _ s h)
    ]
