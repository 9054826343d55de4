-- ===== src/Execution/Manager/Submitting.antt =====
-- What `Submit` (core/execution/manager.go) answers and leaves.
use chukrun.Base.{
  if◌then◌else◌, ℕ, ◌+◌, ◌≤◌, ◌<◌, ◌≡◌, refl, ◌≢◌, inl, inr, String, Bool, true, false, [], ◌∷◌,
  ◌++◌, none, some, arith, length, leb, str_eq, Bool-cases, modify, leb→le, eq_iff, get_elem?,
  get_elem?-modify, get_elem?-append_self,
}
use chukrun.Base.Dict.{lookup, insert, lookup-insert_self, ne_of_str_eq}
use chukrun.Errors.{nil, platform_error, internal, validation, saturation}
use chukrun.Lifecycle.{
  State, LifecycleManager, is_ready, ready, running, same_state, valid_target, transition,
}
use chukrun.Lifecycle.Graph.{same_state_eq, transition-Entered}
use chukrun.Execution.Types.{ExecutionRequest, queued}
use chukrun.Execution.Scheduler.{size, enqueue}
use chukrun.Execution.Scheduler.Dispatch.{held}
use chukrun.Execution.Scheduler.Contents.{given, enqueue_conserves, size-held}
use chukrun.Execution.Manager.State.{ExecRef, ExecutionManager, publish, signal}
use chukrun.Execution.Manager.Submit.{
  Answer, submit, admit, enqueue_admitted, new_execution, request_id, request_priority,
}

-- The reference to what a request becomes.
abbrev pub ref_of : String → ExecutionRequest → ExecutionManager → ExecRef
ref_of generated req em = record {
  address = length em.store;
  id = request_id generated req;
  provider_ref = req.provider_ref;
  priority = request_priority req;
}

-- The first execution that is accepted makes a READY runtime RUNNING.
abbrev pub once_submitted : State → State
once_submitted s = if same_state s ready then running else s

-- An accepted request: the runtime took it and there was room; the execution is new on the store,
-- QUEUED, found under its id, queued once with everything that was, and the queue is within its
-- capacity.
pub record Accepted (now : ℕ) (ref : ExecRef) (req : ExecutionRequest)
    (before after : ExecutionManager) : Type 0 where
  pub was_ready : is_ready before.lifecycle ≡ true
  pub has_provider : req.provider_ref ≢ ""
  pub known : lookup ref.id after.executions ≡ some ref.address
  pub stored :
      get_elem? after.store ref.address
      ≡ some (record (new_execution now ref.id req) { state = queued })
  pub queued_once :
      (f : ExecRef → Bool) → held f after.scheduler ≡ given f (some ref) + held f before.scheduler
  pub within : size after.scheduler ≤ before.queue_cap
  pub same_runs : after.runs ≡ before.runs
  pub same_sem : after.sem ≡ before.sem
  pub moved : after.lifecycle.state_val ≡ once_submitted before.lifecycle.state_val

pub data Submitted (now : ℕ) (generated : String) (req : ExecutionRequest) (em : ExecutionManager)
    : ExecutionManager × Answer ExecRef → Type 0 where
  not_ready :
      (m : String)
      → is_ready em.lifecycle ≡ false
      → Submitted now generated req em (em, (none, platform_error internal m false nil))
  no_provider :
      (m : String)
      → req.provider_ref ≡ ""
      → Submitted now generated req em (em, (none, platform_error validation m false nil))
  queue_full :
      (m : String)
      → em.queue_cap ≤ size em.scheduler
      → Submitted now generated req em (em, (none, platform_error saturation m false nil))
  accepted :
      {em' : ExecutionManager}
      → Accepted now (ref_of generated req em) req em em'
      → Submitted now generated req em (em', (some (ref_of generated req em), nil))

size_after :
    (ref : ExecRef) (em : ExecutionManager)
    → leb em.queue_cap (size em.scheduler) ≡ false
    → size (enqueue (λ r. r.priority) ref em.scheduler) ≤ em.queue_cap
size_after ref em room = omega (
  arith,
  leb_false em.queue_cap (size em.scheduler) room,
  size-held (enqueue (λ r. r.priority) ref em.scheduler),
  size-held em.scheduler,
  enqueue_conserves (λ _. true) (λ r. r.priority) ref em.scheduler,
)
  where
    leb_false : (a b : ℕ) → leb a b ≡ false → b < a
    leb_false a b h = ground arith

-- The manager after `Submit` of an accepted request, but for its lifecycle.
abbrev queued_manager : ℕ → ExecRef → ExecutionRequest → ExecutionManager → ExecutionManager
queued_manager now ref req em = signal (
    publish "execution.queued" ref.id now (record em {
      store =
          modify ref.address (λ e. record e { state = queued })
            (em.store ++ new_execution now ref.id req ∷ []);
      executions = insert ref.id (length em.store) em.executions;
      scheduler = enqueue (λ r. r.priority) ref em.scheduler;
    }))

accept_with :
    (lifecycle : LifecycleManager) (now : ℕ) (generated : String) (req : ExecutionRequest)
    (em : ExecutionManager)
    → is_ready em.lifecycle ≡ true
    → str_eq req.provider_ref "" ≡ false
    → leb em.queue_cap (size em.scheduler) ≡ false
    → lifecycle.state_val ≡ once_submitted em.lifecycle.state_val
    → Accepted now
        (ref_of generated req em)
        req
        em
        (record (queued_manager now (ref_of generated req em) req em) { lifecycle = lifecycle })
unfolding signal
accept_with lifecycle now generated req em up named room moved =
    let ref = ref_of generated req em in
    record {
      was_ready = up;
      has_provider = ne_of_str_eq req.provider_ref "" named;
      known = lookup-insert_self ref.id (length em.store) em.executions;
      stored =
          get_elem?-modify (length em.store) (λ e. record e { state = queued }) _
            (get_elem?-append_self em.store (new_execution now ref.id req));
      queued_once = λ f. enqueue_conserves f (λ r. r.priority) ref em.scheduler;
      within = size_after ref em room;
      same_runs = refl;
      same_sem = refl;
      moved = moved;
    }

starts :
    (now : ℕ) (lm : LifecycleManager)
    → lm.state_val ≡ ready
    → (transition now running lm).0.state_val ≡ running
unfolding valid_target
starts now lm at = (transition-Entered now running lm (rw at refl) (rw at refl)).0.at

accept :
    (now : ℕ) (generated : String) (req : ExecutionRequest) (em : ExecutionManager)
    → is_ready em.lifecycle ≡ true
    → str_eq req.provider_ref "" ≡ false
    → leb em.queue_cap (size em.scheduler) ≡ false
    → Accepted now (ref_of generated req em) req em (
        enqueue_admitted now (ref_of generated req em) (record em {
          store = em.store ++ new_execution now (request_id generated req) req ∷ [];
          executions = insert (request_id generated req) (length em.store) em.executions;
        }))
unfolding enqueue_admitted signal
accept now generated req em up named room =
    elim (Bool-cases (same_state em.lifecycle.state_val ready)) [
      | inl first ↦
          rw (enqueue_admitted, first)
            (accept_with (transition now running em.lifecycle).0 now generated req em up named room
              (rw first (starts now em.lifecycle (same_state_eq _ ready first))))
      | inr later ↦
          rw (enqueue_admitted, later)
            (accept_with em.lifecycle now generated req em up named room (rw later refl))
    ]

-- `Submit` after `admit`.
after_admit : ℕ → ExecutionManager × Answer ExecRef → ExecutionManager × Answer ExecRef
after_admit now r = elim r.1.0 [
  | none ↦ r
  | some ref ↦ (enqueue_admitted now ref r.0, (some ref, nil))
]

submit_after :
    (now : ℕ) (generated : String) (req : ExecutionRequest) (em : ExecutionManager)
    → submit now generated req em ≡ after_admit now (admit now generated req em)
unfolding submit after_admit
submit_after now generated req em = refl

-- `Submit` refuses, with the manager as it was, while the runtime is not ready, or the request
-- names no provider, or the queue is full; otherwise it accepts the request.
pub submit-Submitted :
    (now : ℕ) (generated : String) (req : ExecutionRequest) (em : ExecutionManager)
    → Submitted now generated req em (submit now generated req em)
unfolding admit after_admit
submit-Submitted now generated req em =
    rw (submit_after now generated req em) (elim (Bool-cases (is_ready em.lifecycle)) [
      | inr not_yet ↦ rw (admit, not_yet) (not_ready _ not_yet)
      | inl up ↦ elim (Bool-cases (str_eq req.provider_ref "")) [
        | inl empty ↦ rw (admit, up, empty) (no_provider _ ((eq_iff req.provider_ref "").0 empty))
        | inr named ↦ elim (Bool-cases (leb em.queue_cap (size em.scheduler))) [
          | inl full ↦
              rw (admit, up, named, full)
                (queue_full _ (leb→le em.queue_cap (size em.scheduler) full))
          | inr room ↦
              rw (admit, up, named, room) (accepted (accept now generated req em up named room))
        ]
      ]
    ])
