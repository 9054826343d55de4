-- ===== src/Execution/Scheduler/Progress.antt =====
-- No class starves: the weights bound how long the head of a queue waits.
use mathlib.Core.List.{Memᴰ}
use chukrun.Base.{
  ◌<◌, ◌≤◌, ◌≡◌, refl, sym, ◌∙◌, inl, inr, String, Bool, true, false, List, [], ◌∷◌, ◌++◌, Option,
  none, some, length, arith, Bool-cases, str_eq,
}
use chukrun.Context.Priority.{each_class, PriorityClass, priority_order}
use chukrun.Execution.Scheduler.{
  PriorityScheduler, queue_of, dequeue, enqueue, enqueue_class, remove, new_priority_scheduler,
  refilled, standard_weights,
}
use chukrun.Execution.Scheduler.Dispatch.{Dequeued, by_credit, by_refill, nothing, dequeue-Dequeued}
use chukrun.Execution.Scheduler.Contents.{enqueue_appends}
use chukrun.Execution.Scheduler.Credits.{
  refilled_credit, total, total-refill, potential, anyone, Serves-total, Nearer, served, passed,
  dequeue-Nearer,
}

module _ {E : Type 0} where
  enqueue_keeps_head :
      (class_of : E → PriorityClass) (e : E) (ps : PriorityScheduler E) (p : PriorityClass) (x : E)
      (q : List E)
      → queue_of ps p ≡ x ∷ q
      → (q' : List E) × (queue_of (enqueue class_of e ps) p ≡ x ∷ q')
  enqueue_keeps_head class_of e ps p x q h =
      elim (Bool-cases (str_eq (enqueue_class (class_of e)) p)) [
        | inl same ↦ (q ++ e ∷ [], enqueue_appends class_of e ps p ∙ rw (same, h))
        | inr other ↦ (q, enqueue_appends class_of e ps p ∙ rw (other, h))
      ]

  -- New executions arrive.
  unfoldable pub enqueue_all :
      (E → PriorityClass) → List E → PriorityScheduler E → PriorityScheduler E
  enqueue_all class_of [] ps = ps
  enqueue_all class_of (e ∷ es) ps = enqueue_all class_of es (enqueue class_of e ps)

  abbrev add_given : Option E → List E → List E
  add_given none es = es
  add_given (some e) es = e ∷ es

  -- The executions given out over rounds: in each some arrive, and `Dequeue` is called once, with a
  -- free slot for everyone.
  unfoldable pub serve : (E → PriorityClass) → List (List E) → PriorityScheduler E → List E
  serve class_of [] ps = []
  serve class_of (arrivals ∷ rounds) ps =
      let (out, ps') = dequeue anyone (enqueue_all class_of arrivals ps) in
      add_given out (serve class_of rounds ps')

  enqueue_all_keeps :
      (class_of : E → PriorityClass) (es : List E) (ps : PriorityScheduler E) (p : PriorityClass)
      (x : E) (q : List E)
      → queue_of ps p ≡ x ∷ q
      → (q' : List E) × (queue_of (enqueue_all class_of es ps) p ≡ x ∷ q')
        × (potential (enqueue_all class_of es ps) p ≡ potential ps p)
        × ((enqueue_all class_of es ps).weights ≡ ps.weights)
  unfolding enqueue_all enqueue
  enqueue_all_keeps class_of [] ps p x q h = (q, h, refl, refl)
  enqueue_all_keeps class_of (e ∷ es) ps p x q h =
      let (q', h') = enqueue_keeps_head class_of e ps p x q h in
      enqueue_all_keeps class_of es (enqueue class_of e ps) p x q' h'

  serve_step :
      (class_of : E → PriorityClass) (rounds : List (List E)) (x : E) (p : PriorityClass)
      (q : List E) (ps : PriorityScheduler E) {r : Option E × PriorityScheduler E}
      → ((q' : List E)
          → (ps' : PriorityScheduler E) → queue_of ps' p ≡ x ∷ q'
          → ps'.weights ≡ ps.weights
          → potential ps' p < potential ps p
          → Memᴰ x (serve class_of rounds ps'))
      → Nearer ps p x q r
      → Memᴰ x (add_given r.0 (serve class_of rounds r.1))
  serve_step class_of rounds x p q ps later (served e same) = Memᴰ.head (sym same)
  serve_step class_of rounds x p q ps later (passed e stays less kept) =
      Memᴰ.tail (later q _ stays kept less)

  potential_positive :
      (ps : PriorityScheduler E) (p : PriorityClass) → Memᴰ p priority_order → 0 < potential ps p
  potential_positive ps =
      each_class (λ p. 0 < potential ps p) (ground arith) (ground arith) (ground arith)
        (ground arith) (ground arith)

  serve_reaches :
      (class_of : E → PriorityClass) (rounds : List (List E)) (p : PriorityClass) (x : E)
      (q : List E) (ps : PriorityScheduler E)
      → ps.weights ≡ standard_weights
      → Memᴰ p priority_order
      → queue_of ps p ≡ x ∷ q
      → potential ps p ≤ length rounds
      → Memᴰ x (serve class_of rounds ps)
  unfolding serve
  serve_reaches class_of [] p x q ps standard known h enough =
      absurd (omega (arith, potential_positive ps p known))
  serve_reaches class_of (arrivals ∷ rounds) p x q ps standard known h enough =
      let (q', h', same, kept) = enqueue_all_keeps class_of arrivals ps p x q h in
      let ps' = enqueue_all class_of arrivals ps in
      serve_step class_of rounds x p q' ps'
        (λ q'' next stays weights less.
          serve_reaches class_of rounds p x q'' next (weights ∙ kept ∙ standard) known stays
            (omega arith))
        (dequeue-Nearer ps' p x q' (kept ∙ standard) known h' (dequeue-Dequeued anyone ps'))

  -- The scheduler between two calls: the weights that it was made with, and no more credit than
  -- they give.
  pub record IsWeighted (ps : PriorityScheduler E) : Type 0 where
    pub standard : ps.weights ≡ standard_weights
    pub bounded : total ps.current_credits ≤ 31

  new-IsWeighted : IsWeighted new_priority_scheduler
  unfolding new_priority_scheduler
  new-IsWeighted = record { standard = refl; bounded = rw (total-refill []) (omega arith) }

  Dequeued-IsWeighted :
      (can : E → Bool) (ps : PriorityScheduler E) {r : Option E × PriorityScheduler E}
      → IsWeighted ps
      → Dequeued can ps r
      → IsWeighted r.1
  Dequeued-IsWeighted can ps w (by_credit s first) = record {
    standard = s.weights_after ∙ w.standard;
    bounded = omega (arith, Serves-total can true ps _ _ s (s.funded refl), w.bounded);
  }
  Dequeued-IsWeighted can ps w (by_refill _ s first) =
      let full : total (refilled ps).current_credits ≡ 31 =
        rw w.standard (total-refill ps.current_credits) in
      record {
        standard = s.weights_after ∙ w.standard;
        bounded = omega (
          arith,
          Serves-total can false (refilled ps) _ _ s
              (refilled_credit ps s.class w.standard s.known),
        );
      }
  Dequeued-IsWeighted can ps w (nothing _ kept (inl same) _) = record {
    standard = kept ∙ w.standard;
    bounded = rw same w.bounded;
  }
  Dequeued-IsWeighted can ps w (nothing _ kept (inr full) _) = record {
    standard = kept ∙ w.standard;
    bounded = rw (full, w.standard, total-refill ps.current_credits) (omega arith);
  }

  -- Every operation of a scheduler keeps its weights, and never leaves it with more credit than
  -- they add up to.
  pub operations-IsWeighted :
      (can : E → Bool) (class_of : E → PriorityClass) (id_of : E → String) (id : String) (e : E)
      (ps : PriorityScheduler E)
      → IsWeighted ps
      → IsWeighted (enqueue class_of e ps)
        × IsWeighted (dequeue can ps).1
        × IsWeighted (remove id_of id ps).1
  unfolding enqueue remove
  operations-IsWeighted can class_of id_of id e ps w = (
    record { standard = w.standard; bounded = w.bounded },
    Dequeued-IsWeighted can ps w (dequeue-Dequeued can ps),
    record { standard = w.standard; bounded = w.bounded },
  )

  -- No class starves where every execution may run: the head of the queue of any of the five
  -- classes is given out within 62 rounds in each of which `Dequeue` is called once with a test that
  -- lets all through, whatever arrives meanwhile in whatever class, if the scheduler has its
  -- standard weights and no more credit than they give.
  pub head_is_served :
      (class_of : E → PriorityClass) (rounds : List (List E)) (p : PriorityClass) (x : E)
      (q : List E) (ps : PriorityScheduler E)
      → IsWeighted ps
      → Memᴰ p priority_order
      → queue_of ps p ≡ x ∷ q
      → 62 ≤ length rounds
      → Memᴰ x (serve class_of rounds ps)
  head_is_served class_of rounds p x q ps w known h enough =
      serve_reaches class_of rounds p x q ps w.standard known h (ground arith)
