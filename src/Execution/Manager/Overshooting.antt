-- ===== src/Execution/Manager/Overshooting.antt =====
-- Several calls of `Submit` at once (core/execution/manager.go): it looks at the length of the queue
-- under `execMu`, but enqueues after it has unlocked, so all of them may have looked before the first
-- one enqueues.
use chukrun.Base.{
  ℕ, suc, ◌+◌, ◌<◌, ◌≡◌, refl, ap, ◌≢◌, inl, inr, String, true, false, List, [], ◌∷◌, ◌++◌, some,
  none, arith, length, leb, All, Bool-cases,
}
use chukrun.Base.Dict.{insert, str_eq_of_ne}
use chukrun.Errors.{nil}
use chukrun.Lifecycle.{is_ready, ready, same_state}
use chukrun.Execution.Types.{ExecutionRequest}
use chukrun.Execution.Scheduler.{size, enqueue}
use chukrun.Execution.Scheduler.Contents.{enqueue_conserves, size-held}
use chukrun.Execution.Manager.State.{ExecRef, ExecutionManager, signal}
use chukrun.Execution.Manager.Submit.{Answer, admit, enqueue_admitted, new_execution, request_id}
use chukrun.Execution.Manager.Submitting.{ref_of}

-- The requests with the identifiers that are generated for them.
abbrev pub Requests : Type 0
Requests = List (String × ExecutionRequest)

abbrev after_first :
    ExecutionManager × Answer ExecRef
    → (ExecutionManager → ExecutionManager × List ExecRef)
    → ExecutionManager × List ExecRef
after_first (em, (none, err)) rest = rest em
after_first (em, (some ref, err)) rest = ((rest em).0, ref ∷ (rest em).1)

-- The first halves of the calls, one after another, and what they let through.
unfoldable pub admit_all : ℕ → Requests → ExecutionManager → ExecutionManager × List ExecRef
admit_all now [] em = (em, [])
admit_all now ((generated, req) ∷ rest) em =
    after_first (admit now generated req em) (admit_all now rest)

-- The second halves.
unfoldable pub enqueue_each : ℕ → List ExecRef → ExecutionManager → ExecutionManager
enqueue_each now [] em = em
enqueue_each now (ref ∷ rest) em = enqueue_each now rest (enqueue_admitted now ref em)

enqueue_admitted-size :
    (now : ℕ) (ref : ExecRef) (em : ExecutionManager)
    → size (ExecutionManager.scheduler (enqueue_admitted now ref em)) ≡ size em.scheduler + 1
unfolding enqueue_admitted signal
enqueue_admitted-size now ref em =
    let grows = enqueue_conserves (λ _. true) (λ r. r.priority) ref em.scheduler in
    let before = size-held em.scheduler in
    let after = size-held (enqueue (λ r. r.priority) ref em.scheduler) in
    elim (Bool-cases (same_state em.lifecycle.state_val ready)) [
      | inl first ↦ rw (enqueue_admitted, first) omega arith
      | inr later ↦ rw (enqueue_admitted, later) omega arith
    ]

enqueue_each-size :
    (now : ℕ) (refs : List ExecRef) (em : ExecutionManager)
    → size (ExecutionManager.scheduler (enqueue_each now refs em)) ≡ size em.scheduler + length refs
unfolding enqueue_each
enqueue_each-size now [] em = omega arith
enqueue_each-size now (ref ∷ rest) em = omega (
  arith,
  enqueue_each-size now rest (enqueue_admitted now ref em),
  enqueue_admitted-size now ref em,
)

-- The manager after the first half of a call that is let through.
abbrev pub admitted : ℕ → String → ExecutionRequest → ExecutionManager → ExecutionManager
admitted now generated req em = record em {
  store = em.store ++ new_execution now (request_id generated req) req ∷ [];
  executions = insert (request_id generated req) (length em.store) em.executions;
}

pub admit-passes :
    (now : ℕ) (generated : String) (req : ExecutionRequest) (em : ExecutionManager)
    → is_ready em.lifecycle ≡ true
    → leb em.queue_cap (size em.scheduler) ≡ false
    → req.provider_ref ≢ ""
    → admit now generated req em
      ≡ (admitted now generated req em, (some (ref_of generated req em), nil))
unfolding admit
admit-passes now generated req em up room named =
    rw (admit, up, str_eq_of_ne req.provider_ref "" named, room) refl

admit_all-passes :
    (now : ℕ) (requests : Requests) (em : ExecutionManager)
    → is_ready em.lifecycle ≡ true
    → leb em.queue_cap (size em.scheduler) ≡ false
    → All (λ r. ExecutionRequest.provider_ref r.1 ≢ "") requests
    → (length (admit_all now requests em).1 ≡ length requests)
      × (ExecutionManager.scheduler (admit_all now requests em).0 ≡ em.scheduler)
unfolding admit_all
admit_all-passes now [] em up room named = (refl, refl)
admit_all-passes now ((generated, req) ∷ rest) em up room named =
    let later = admit_all-passes now rest (admitted now generated req em) up room named.1 in
    rw (admit-passes now generated req em up room named.0) (ap suc later.0, later.1)

leb_of_lt : (a b : ℕ) → a < b → leb b a ≡ false
leb_of_lt a b h = ground arith

-- With a runtime that is ready and room for one execution, any number of requests that name a
-- provider are all let through when each call looks at the queue before the first one enqueues, and
-- the queue grows by all of them, past its capacity when they are more than the room that there was.
pub enqueue_each-admit_all :
    (now : ℕ) (requests : Requests) (em : ExecutionManager)
    → is_ready em.lifecycle ≡ true
    → size em.scheduler < em.queue_cap
    → All (λ r. ExecutionRequest.provider_ref r.1 ≢ "") requests
    → let (em', refs) = admit_all now requests em in
      size (ExecutionManager.scheduler (enqueue_each now refs em'))
      ≡ size em.scheduler + length requests
enqueue_each-admit_all now requests em up room named =
    let (em', refs) = admit_all now requests em in
    let (all_pass, same) =
      admit_all-passes now requests em up (leb_of_lt (size em.scheduler) em.queue_cap room) named in
    let same_size : size em'.scheduler ≡ size em.scheduler = ap size same in
    omega (arith, enqueue_each-size now refs em')
