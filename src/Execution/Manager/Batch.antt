-- ===== src/Execution/Manager/Batch.antt =====
-- `SubmitBatch` (core/execution/manager.go): the requests of a batch are submitted one after another,
-- and the first that is refused breaks the batch off.
use chukrun.Base.{
  ℕ, ◌+◌, ◌≡◌, refl, ap, ◌≢◌, String, true, List, [], ◌∷◌, ◌++◌, Option, none, some, arith, length,
}
use chukrun.Base.Dict.{Dict, insert}
use chukrun.Errors.{GoError, nil}
use chukrun.Execution.Types.{ExecutionRequest}
use chukrun.Execution.Scheduler.{size}
use chukrun.Execution.Scheduler.Contents.{size-held}
use chukrun.Execution.Manager.State.{ExecRef, ExecutionManager}
use chukrun.Execution.Manager.Submit.{Answer, submit}
use chukrun.Execution.Manager.Submitting.{
  Submitted, not_ready, no_provider, queue_full, accepted, Accepted, ref_of, submit-Submitted,
}

-- A request with the time of its `Submit` and the identifier that would be generated for it.
pub record BatchItem : Type 0 where
  pub now : ℕ
  pub generated : String
  pub req : ExecutionRequest

pub record Batch : Type 0 where
  pub id : String
  pub executions : List ExecRef

abbrev pub metadata_or_empty : Option (Dict String) → Dict String
metadata_or_empty none = []
metadata_or_empty (some m) = m

-- The loop's writes to the metadata of a request.
abbrev pub in_batch : String → ExecutionRequest → ExecutionRequest
in_batch batch_id req = record req {
  metadata = some (insert "batch_id" batch_id (metadata_or_empty req.metadata));
}

abbrev pub add_first : ExecRef → ExecutionManager × Answer Batch → ExecutionManager × Answer Batch
add_first ref (em, (none, err)) = (em, (none, err))
add_first ref (em, (some b, err)) = (em, (some (record b { executions = ref ∷ b.executions }), err))

-- What follows a call of `Submit` in the loop.
abbrev pub go_on :
    ExecutionManager × Answer ExecRef
    → (ExecutionManager → ExecutionManager × Answer Batch)
    → ExecutionManager × Answer Batch
go_on (em, (none, err)) rest = (em, (none, err))
go_on (em, (some ref, err)) rest = add_first ref (rest em)

-- The loop of `SubmitBatch`, with the batch that it comes to.
unfoldable pub submit_batch :
    String → List BatchItem → ExecutionManager → ExecutionManager × Answer Batch
submit_batch batch_id [] em = (em, (some (record { id = batch_id; executions = [] }), nil))
submit_batch batch_id (item ∷ rest) em =
    go_on (submit item.now item.generated (in_batch batch_id item.req) em)
      (λ em'. submit_batch batch_id rest em')

-- A whole batch, or one that was broken off: the requests before some item make a whole batch, and
-- that item is refused in the state that they leave, which is the state in the end.
pub data Batched (batch_id : String) (items : List BatchItem) (em : ExecutionManager)
    : ExecutionManager × Answer Batch → Type 0 where
  whole :
      (em' : ExecutionManager) (b : Batch)
      → b.id ≡ batch_id
      → length b.executions ≡ length items
      → size em'.scheduler ≡ size em.scheduler + length items
      → Batched batch_id items em (em', (some b, nil))
  broken_off :
      (em' : ExecutionManager) (err : GoError) (b : Batch) (before : List BatchItem)
      (item : BatchItem) (after : List BatchItem)
      → items ≡ before ++ item ∷ after
      → submit_batch batch_id before em ≡ (em', (some b, nil))
      → submit item.now item.generated (in_batch batch_id item.req) em' ≡ (em', (none, err))
      → err ≢ nil
      → size em'.scheduler ≡ size em.scheduler + length before
      → Batched batch_id items em (em', (none, err))

add_first-Batched :
    (batch_id : String) (item : BatchItem) (rest : List BatchItem) (ref : ExecRef)
    (em em' : ExecutionManager) {r : ExecutionManager × Answer Batch}
    → submit item.now item.generated (in_batch batch_id item.req) em ≡ (em', (some ref, nil))
    → size em'.scheduler ≡ size em.scheduler + 1
    → Batched batch_id rest em' r
    → Batched batch_id (item ∷ rest) em (add_first ref r)
unfolding submit_batch
add_first-Batched batch_id item rest ref em em' first grows (whole last b named many sum) =
    whole last (record b { executions = ref ∷ b.executions }) named (omega arith) (omega arith)
add_first-Batched batch_id item rest ref em em' first grows
      (broken_off last err b before refused after split whole_before refusal bad sum) =
    broken_off last err (record b { executions = ref ∷ b.executions }) (item ∷ before) refused after
      (ap (λ items. item ∷ items) split) (rw (submit_batch, first, whole_before) refl) refusal bad
      (omega arith)

Accepted-grows :
    (now : ℕ) (generated : String) (req : ExecutionRequest) (em em' : ExecutionManager)
    → Accepted now (ref_of generated req em) req em em'
    → size em'.scheduler ≡ size em.scheduler + 1
Accepted-grows now generated req em em' a =
    omega (arith, a.queued_once (λ _. true), size-held em.scheduler, size-held em'.scheduler)

first_step :
    (batch_id : String) (item : BatchItem) (rest : List BatchItem) (em : ExecutionManager)
    {r : ExecutionManager × Answer ExecRef}
    → ((em' : ExecutionManager) → Batched batch_id rest em' (submit_batch batch_id rest em'))
    → submit item.now item.generated (in_batch batch_id item.req) em ≡ r
    → Submitted item.now item.generated (in_batch batch_id item.req) em r
    → Batched batch_id (item ∷ rest) em (go_on r (λ em'. submit_batch batch_id rest em'))
unfolding submit_batch
first_step batch_id item rest em later first (not_ready m down) =
    broken_off em _ _ [] item rest refl refl first (λ e. cc) (omega arith)
first_step batch_id item rest em later first (no_provider m unnamed) =
    broken_off em _ _ [] item rest refl refl first (λ e. cc) (omega arith)
first_step batch_id item rest em later first (queue_full m no_room) =
    broken_off em _ _ [] item rest refl refl first (λ e. cc) (omega arith)
first_step batch_id item rest em later first (accepted {em' = em'} a) =
    let req = in_batch batch_id item.req in
    add_first-Batched batch_id item rest (ref_of item.generated req em) em em' first
      (Accepted-grows item.now item.generated req em em' a) (later em')

-- A batch is queued as a whole, and answered with as many executions as it has requests, or broken
-- off at the first request that is refused: the requests before it are queued as a batch of their
-- own would be, that request is refused in the state they leave, nothing after it is submitted, and
-- the answer is its error and no execution.
pub submit_batch-Batched :
    (batch_id : String) (items : List BatchItem) (em : ExecutionManager)
    → Batched batch_id items em (submit_batch batch_id items em)
unfolding submit_batch
submit_batch-Batched batch_id [] em = whole em _ refl refl (omega arith)
submit_batch-Batched batch_id (item ∷ rest) em =
    first_step batch_id item rest em (λ em'. submit_batch-Batched batch_id rest em') refl
      (submit-Submitted item.now item.generated (in_batch batch_id item.req) em)
