-- ===== src/Execution/Scheduler.antt =====
-- core/execution/scheduler.go: a weighted priority scheduler. The queued items stand for pointers
-- to executions; `class_of` reads `exec.Priority` and `id_of` reads `exec.ID`, which nobody writes
-- once an execution is queued. Each operation runs under the scheduler's mutex. A credit is only
-- lowered where it is positive (tested in the first loop, just refilled in the last), so subtraction
-- on ℕ is exact.
pub mod Dispatch
pub mod Contents
pub mod Credits
pub mod Progress
use chukrun.Base.{
  ℕ, ◌+◌, ◌-◌, String, Bool, true, false, ◌&&◌, List, [], ◌∷◌, ◌++◌, Option, none, some, length,
  ltb, str_eq, if◌then◌else◌,
}
use chukrun.Base.Dict.{Dict, lookup, insert}
use chukrun.Context.Priority.{
  PriorityClass, critical, high, normal, low, background, priority_order,
}

pub record PriorityScheduler (E : Type 0) : Type 0 where
  pub queues : Dict (List E)
  pub weights : Dict ℕ
  pub current_credits : Dict ℕ

-- A missing key reads as the zero value.
abbrev pub or_empty {ℓ} : {A : Type ℓ} → Option (List A) → List A
or_empty none = []
or_empty (some q) = q

abbrev pub or_zero : Option ℕ → ℕ
or_zero none = 0
or_zero (some n) = n

abbrev pub standard_weights : Dict ℕ
standard_weights = (critical, 16) ∷ (high, 8) ∷ (normal, 4) ∷ (low, 2) ∷ (background, 1) ∷ []

-- The loop `for k, v := range weights { currentCredits[k] = v }`.
unfoldable pub refill : Dict ℕ → Dict ℕ → Dict ℕ
refill [] credits = credits
refill ((k, v) ∷ weights) credits = refill weights (insert k v credits)

-- `Enqueue`: an execution with no class goes to the normal queue.
unfoldable pub enqueue_class : PriorityClass → PriorityClass
enqueue_class p = if str_eq p "" then normal else p

module _ {E : Type 0} where
  -- `NewPriorityScheduler`.
  unfoldable pub new_priority_scheduler : PriorityScheduler E
  unfolding refill insert
  new_priority_scheduler = record {
    queues = [];
    weights = standard_weights;
    current_credits = refill standard_weights [];
  }

  abbrev pub queue_of : PriorityScheduler E → PriorityClass → List E
  queue_of ps p = or_empty (lookup p ps.queues)

  abbrev pub credit_of : PriorityScheduler E → PriorityClass → ℕ
  credit_of ps p = or_zero (lookup p ps.current_credits)

  unfoldable pub enqueue : (E → PriorityClass) → E → PriorityScheduler E → PriorityScheduler E
  unfolding enqueue_class
  enqueue class_of e ps =
      let p = enqueue_class (class_of e) in
      record ps { queues = insert p (queue_of ps p ++ e ∷ []) ps.queues }

  -- The first item that passes the test, and the queue without it.
  unfoldable pub take_first : (E → Bool) → List E → Option (E × List E)
  take_first can [] = none
  take_first can (e ∷ q) =
      let rest = take_first can q in
      if can e then some (e, q) else elim rest [ none ↦ none | some (x, r) ↦ some (x, e ∷ r) ]

  -- `findAndRemove`. A nil test lets every execution through: it is `λ _. true`.
  unfoldable pub find_and_remove :
      PriorityClass → (E → Bool) → PriorityScheduler E → Option (E × PriorityScheduler E)
  find_and_remove p can ps = elim (take_first can (queue_of ps p)) [
    | none ↦ none
    | some (e, rest) ↦ some (
      e,
      record ps {
        queues = insert p rest ps.queues;
        current_credits = insert p (credit_of ps p - 1) ps.current_credits;
      },
    )
  ]

  -- `len(ps.queues[p]) > 0 && ps.currentCredits[p] > 0`.
  unfoldable pub has_turn : PriorityScheduler E → PriorityClass → Bool
  has_turn ps p = ltb 0 (length (queue_of ps p)) && ltb 0 (credit_of ps p)

  -- The first loop of `Dequeue`: classes with queued items and credit left.
  unfoldable pub credit_pass :
      (E → Bool) → List PriorityClass → PriorityScheduler E → Option (E × PriorityScheduler E)
  credit_pass can [] ps = none
  credit_pass can (p ∷ order) ps =
      let later = credit_pass can order ps in
      if has_turn ps p
      then elim (find_and_remove p can ps) [ none ↦ later | some r ↦ some r ]
      else later

  -- The last loop of `Dequeue`.
  unfoldable pub open_pass :
      (E → Bool) → List PriorityClass → PriorityScheduler E → Option (E × PriorityScheduler E)
  open_pass can [] ps = none
  open_pass can (p ∷ order) ps =
      let later = open_pass can order ps in
      elim (find_and_remove p can ps) [ none ↦ later | some r ↦ some r ]

  unfoldable pub has_candidates : Dict (List E) → Bool
  has_candidates [] = false
  has_candidates ((_, []) ∷ m) = has_candidates m
  has_candidates ((_, _ ∷ _) ∷ m) = true

  abbrev pub refilled : PriorityScheduler E → PriorityScheduler E
  refilled ps = record ps { current_credits = refill ps.weights ps.current_credits }

  -- `Dequeue`: the execution that it returns, if any, and the scheduler that it leaves.
  unfoldable pub dequeue : (E → Bool) → PriorityScheduler E → Option E × PriorityScheduler E
  dequeue can ps = elim (credit_pass can priority_order ps) [
    | some (e, ps') ↦ (some e, ps')
    | none ↦
        if has_candidates ps.queues
        then elim (open_pass can priority_order (refilled ps)) [
          | some (e, ps') ↦ (some e, ps')
          | none ↦ (none, refilled ps)
        ]
        else (none, ps)
  ]

  -- The loops of `Remove`, over the queues in the order in which they are listed.
  unfoldable pub remove_from : (E → String) → String → Dict (List E) → Bool × Dict (List E)
  unfolding take_first
  remove_from id_of id [] = (false, [])
  remove_from id_of id ((p, q) ∷ m) =
      let (found, m') = remove_from id_of id m in
      elim (take_first (λ e. str_eq (id_of e) id) q) [
        | some (_, rest) ↦ (true, (p, rest) ∷ m)
        | none ↦ (found, (p, q) ∷ m')
      ]

  unfoldable pub remove : (E → String) → String → PriorityScheduler E → Bool × PriorityScheduler E
  unfolding remove_from
  remove id_of id ps =
      let (found, queues) = remove_from id_of id ps.queues in (found, record ps { queues = queues })

  unfoldable pub size_from : Dict (List E) → ℕ
  size_from [] = 0
  size_from ((_, q) ∷ m) = length q + size_from m

  unfoldable pub size : PriorityScheduler E → ℕ
  unfolding size_from
  size ps = size_from ps.queues
