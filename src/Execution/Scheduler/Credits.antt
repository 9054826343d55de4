-- ===== src/Execution/Scheduler/Credits.antt =====
-- The credits of the scheduler (core/execution/scheduler.go) and what one call of `Dequeue` does to
-- them: it serves the head of a class or brings it nearer to its turn.
use mathlib.Core.List.{Memᴰ}
use chukrun.Base.{
  ℕ, ◌+◌, ◌-◌, ◌<◌, ◌≡◌, refl, sym, ap, subst, ◌∙◌, ◌⊎◌, inl, inr, Bool, true, false, List, [], ◌∷◌,
  ◌++◌, Option, some, All, arith, Bool-cases, str_eq, eq_iff, if◌then◌else◌, ◌==◌,
}
use chukrun.Base.Dict.{Dict, lookup, insert, lookup-insert}
use chukrun.Context.Priority.{
  each_class, PriorityClass, critical, high, normal, low, background, priority_order,
}
use chukrun.Execution.Scheduler.{
  PriorityScheduler, or_zero, queue_of, credit_of, refill, refilled, standard_weights,
}
use chukrun.Execution.Scheduler.Dispatch.{
  Taken, Serves, Spent, Blocked, Dequeued, by_credit, by_refill, nothing,
}

abbrev pub credit_in : Dict ℕ → PriorityClass → ℕ
credit_in credits p = or_zero (lookup p credits)

-- The credit that the five classes have together.
abbrev pub total : Dict ℕ → ℕ
total credits =
    credit_in credits critical
    + credit_in credits high
    + credit_in credits normal
    + credit_in credits low
    + credit_in credits background

pub total-insert :
    (n : ℕ) (credits : Dict ℕ) (p : PriorityClass)
    → Memᴰ p priority_order
    → total (insert p n credits) + credit_in credits p ≡ total credits + n
total-insert n credits =
    each_class (λ p. total (insert p n credits) + credit_in credits p ≡ total credits + n)
      (simp lookup-insert (omega arith)) (simp lookup-insert (omega arith))
      (simp lookup-insert (omega arith)) (simp lookup-insert (omega arith))
      (simp lookup-insert (omega arith))

pub credit_in-refill :
    (credits : Dict ℕ) (p : PriorityClass)
    → Memᴰ p priority_order
    → credit_in (refill standard_weights credits) p ≡ credit_in standard_weights p
unfolding refill lookup
credit_in-refill credits =
    each_class (λ p. credit_in (refill standard_weights credits) p ≡ credit_in standard_weights p)
      (simp lookup-insert) (simp lookup-insert) (simp lookup-insert) (simp lookup-insert)
      (simp lookup-insert)

pub total-refill : (credits : Dict ℕ) → total (refill standard_weights credits) ≡ 31
unfolding refill
total-refill credits = simp lookup-insert

weight_positive : (p : PriorityClass) → Memᴰ p priority_order → 0 < credit_in standard_weights p
unfolding lookup
weight_positive =
    each_class (λ p. 0 < credit_in standard_weights p) (omega arith) (omega arith) (omega arith)
      (omega arith) (omega arith)

All-at {κ} :
    (P : PriorityClass → Type κ) (order : List PriorityClass) (p : PriorityClass)
    → All P order
    → Memᴰ p order
    → P p
All-at P [] p all m = elim m [ ]
All-at P (r ∷ order) p (here, later) (Memᴰ.head e) = subst P (sym e) here
All-at P (r ∷ order) p (here, later) (Memᴰ.tail m) = All-at P order p later m

module _ {E : Type 0} where
  -- How many calls of `Dequeue` may still pass by the class: the credit that is left, and a full
  -- round more if the class has none of it.
  abbrev pub potential : PriorityScheduler E → PriorityClass → ℕ
  potential ps p =
      if credit_of ps p == 0 then total ps.current_credits + 31 else total ps.current_credits

  abbrev pub anyone : E → Bool
  anyone _ = true

  -- With a test that everyone passes, the first of the queue is taken.
  Taken-first :
      (q : List E) (e x : E) (rest q' : List E)
      → Taken anyone q e rest
      → q ≡ x ∷ q'
      → (e ≡ x) × (rest ≡ q')
  Taken-first q e x rest q' t h = first t.skipped t.before t.after t.blocked
    where
      first :
          (skipped : List E)
          → q ≡ skipped ++ e ∷ t.later
          → rest ≡ skipped ++ t.later
          → Blocked anyone skipped
          → (e ≡ x) × (rest ≡ q')
      first [] before after b = (cc, cc)
      first (y ∷ ys) before after b = cc (b.0)

  pub Serves-total :
      (can : E → Bool) (b : Bool) (ps : PriorityScheduler E) (e : E) (ps' : PriorityScheduler E)
      → (s : Serves can b ps e ps') → 0 < credit_of ps s.class
      → total ps'.current_credits + 1 ≡ total ps.current_credits
  Serves-total can b ps e ps' s funded =
      rw s.credits_after
        (omega (arith, total-insert (credit_of ps s.class - 1) ps.current_credits s.class s.known))

  -- One pass of the queues: it serves the head of the class, or takes one credit of another class.
  Serves-head :
      (b : Bool) (ps : PriorityScheduler E) (p : PriorityClass) (x : E) (q : List E) (e : E)
      (ps' : PriorityScheduler E)
      → queue_of ps p ≡ x ∷ q
      → (s : Serves anyone b ps e ps') → 0 < credit_of ps s.class
      → (e ≡ x)
        ⊎ ((queue_of ps' p ≡ x ∷ q)
            × (total ps'.current_credits + 1 ≡ total ps.current_credits)
            × (credit_of ps' p ≡ credit_of ps p))
  Serves-head b ps p x q e ps' h s funded = elim (Bool-cases (str_eq s.class p)) [
    | inl same ↦
        let here : queue_of ps s.class ≡ x ∷ q = ap (queue_of ps) ((eq_iff s.class p).0 same) ∙ h in
        inl (Taken-first _ e x s.rest q s.taken here).0
    | inr other ↦ inr (
      rw (s.queues_after, lookup-insert s.class p s.rest ps.queues, other) h,
      Serves-total anyone b ps e ps' s funded,
      rw
          (
            s.credits_after,
            lookup-insert s.class p (credit_of ps s.class - 1) ps.current_credits,
            other,
          )
          refl,
    )
  ]

  -- One call: it serves the head of the class, or it comes nearer to doing so.
  pub data Nearer (ps : PriorityScheduler E) (p : PriorityClass) (x : E) (q : List E)
      : Option E × PriorityScheduler E → Type 0 where
    served : (e : E) {ps' : PriorityScheduler E} → e ≡ x → Nearer ps p x q (some e, ps')
    passed :
        (e : E) {ps' : PriorityScheduler E}
        → queue_of ps' p ≡ x ∷ q
        → potential ps' p < potential ps p
        → ps'.weights ≡ ps.weights
        → Nearer ps p x q (some e, ps')

  credit-Nearer :
      (ps : PriorityScheduler E) (p : PriorityClass) (x : E) (q : List E) (e : E)
      (ps' : PriorityScheduler E)
      → queue_of ps p ≡ x ∷ q
      → Serves anyone true ps e ps'
      → Nearer ps p x q (some e, ps')
  credit-Nearer ps p x q e ps' h s = elim (Serves-head true ps p x q e ps' h s (s.funded refl)) [
    | inl head ↦ served e head
    | inr (stays, spent, same) ↦ passed e stays (ground arith) s.weights_after
  ]

  not-Blocked :
      (x : E) (q : List E) (ps : PriorityScheduler E) (p : PriorityClass)
      → queue_of ps p ≡ x ∷ q
      → Blocked anyone (queue_of ps p)
      → ⊥
  not-Blocked x q ps p h b = cc ((subst (Blocked anyone) h b).0)

  Spent-zero :
      (x : E) (q : List E) (ps : PriorityScheduler E) (p : PriorityClass)
      → queue_of ps p ≡ x ∷ q
      → Spent anyone ps p
      → credit_of ps p ≡ 0
  Spent-zero x q ps p h (inl b) = absurd (not-Blocked x q ps p h b)
  Spent-zero x q ps p h (inr z) = z

  pub refilled_credit :
      (ps : PriorityScheduler E) (p : PriorityClass)
      → ps.weights ≡ standard_weights
      → Memᴰ p priority_order
      → 0 < credit_of (refilled ps) p
  refilled_credit ps p standard known =
      rw (standard, credit_in-refill ps.current_credits p known) (weight_positive p known)

  refill-Nearer :
      (ps : PriorityScheduler E) (p : PriorityClass) (x : E) (q : List E) (e : E)
      (ps' : PriorityScheduler E)
      → ps.weights ≡ standard_weights
      → Memᴰ p priority_order
      → queue_of ps p ≡ x ∷ q
      → All (Spent anyone ps) priority_order
      → Serves anyone false (refilled ps) e ps'
      → Nearer ps p x q (some e, ps')
  refill-Nearer ps p x q e ps' standard known h spent s =
      let broke = Spent-zero x q ps p h (All-at (Spent anyone ps) priority_order p spent known) in
      let full : total (refilled ps).current_credits ≡ 31 =
        rw standard (total-refill ps.current_credits) in
      let fresh = refilled_credit ps p standard known in
      elim (Serves-head false (refilled ps) p x q e ps' h s
        (refilled_credit ps s.class standard s.known)) [
          | inl head ↦ served e head
          | inr (stays, less, same) ↦ passed e stays (ground arith) s.weights_after
        ]

  pub dequeue-Nearer :
      (ps : PriorityScheduler E) (p : PriorityClass) (x : E) (q : List E)
      {r : Option E × PriorityScheduler E}
      → ps.weights ≡ standard_weights
      → Memᴰ p priority_order
      → queue_of ps p ≡ x ∷ q
      → Dequeued anyone ps r
      → Nearer ps p x q r
  dequeue-Nearer ps p x q standard known h (by_credit s first) = credit-Nearer ps p x q _ _ h s
  dequeue-Nearer ps p x q standard known h (by_refill spent s first) =
      refill-Nearer ps p x q _ _ standard known h spent s
  dequeue-Nearer ps p x q standard known h (nothing _ _ _ blocked) = absurd (
      not-Blocked x q ps p h
        (All-at (λ c. Blocked anyone (queue_of ps c)) priority_order p blocked known))
