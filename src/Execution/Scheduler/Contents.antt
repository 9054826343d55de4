-- ===== src/Execution/Scheduler/Contents.antt =====
-- The scheduler neither loses nor invents an execution.
use chukrun.Base.{
  ℕ, ◌+◌, ◌≡◌, refl, ap, inl, inr, String, Bool, true, false, List, [], ◌∷◌, ◌++◌, Option, none,
  some, length, All, arith, str_eq, eq_iff, if◌then◌else◌,
}
use chukrun.Base.Dict.{Dict, lookup-insert}
use chukrun.Context.Priority.{PriorityClass}
use chukrun.Execution.Scheduler.{
  PriorityScheduler, queue_of, dequeue, enqueue, enqueue_class, remove, remove_from, size,
  size_from,
}
use chukrun.Execution.Scheduler.Dispatch.{
  count, count_queues, held, count-append, count_queues-insert, Taken, take_first_cases, Serves,
  Dequeued, by_credit, by_refill, nothing, dequeue-Dequeued,
}

module _ {E : Type 0} where
  abbrev pub given : (E → Bool) → Option E → ℕ
  given f none = 0
  given f (some e) = count f (e ∷ [])

  Taken-count :
      (f can : E → Bool) (q : List E) (e : E) (rest : List E)
      → Taken can q e rest
      → count f q ≡ count f (e ∷ []) + count f rest
  Taken-count f can q e rest t =
      rw (t.before, t.after)
        (omega (arith, count-append f t.skipped (e ∷ t.later), count-append f t.skipped t.later))

  Serves-held :
      (f can : E → Bool) (b : Bool) (ps : PriorityScheduler E) (e : E) (ps' : PriorityScheduler E)
      → Serves can b ps e ps'
      → held f ps ≡ count f (e ∷ []) + held f ps'
  Serves-held f can b ps e ps' s = rw s.queues_after (
      omega (
        arith,
        count_queues-insert f s.class s.rest ps.queues,
        Taken-count f can (queue_of ps s.class) e s.rest s.taken,
      ))

  Dequeued-held :
      (f can : E → Bool) (ps : PriorityScheduler E) {r : Option E × PriorityScheduler E}
      → Dequeued can ps r
      → held f ps ≡ given f r.0 + held f r.1
  Dequeued-held f can ps (by_credit s first) = Serves-held f can _ ps _ _ s
  Dequeued-held f can ps (by_refill _ s first) = Serves-held f can _ _ _ _ s
  Dequeued-held f can ps (nothing e _ _ _) = rw e (omega arith)

  -- `Dequeue` conserves the queued executions: under every test, as many are held before as are
  -- given out and held after.
  pub dequeue_conserves :
      (f can : E → Bool) (ps : PriorityScheduler E)
      → let (out, ps') = dequeue can ps in held f ps ≡ given f out + held f ps'
  dequeue_conserves f can ps = Dequeued-held f can ps (dequeue-Dequeued can ps)

  -- `Enqueue` puts the execution at the end of the queue of its class, of the normal class if it
  -- has none, and leaves every other queue as it was.
  pub enqueue_appends :
      (class_of : E → PriorityClass) (e : E) (ps : PriorityScheduler E) (p : PriorityClass)
      → queue_of (enqueue class_of e ps) p
        ≡ (if str_eq (enqueue_class (class_of e)) p then queue_of ps p ++ e ∷ [] else queue_of ps p)
  unfolding enqueue
  enqueue_appends class_of e ps p =
      let c = enqueue_class (class_of e) in
      ground (arith, eq_iff c p, lookup-insert c p (queue_of ps c ++ e ∷ []) ps.queues)

  pub enqueue_conserves :
      (f : E → Bool) (class_of : E → PriorityClass) (e : E) (ps : PriorityScheduler E)
      → held f (enqueue class_of e ps) ≡ given f (some e) + held f ps
  unfolding enqueue
  enqueue_conserves f class_of e ps =
      let p = enqueue_class (class_of e) in
      omega (
        arith,
        count_queues-insert f p (queue_of ps p ++ e ∷ []) ps.queues,
        count-append f (queue_of ps p) (e ∷ []),
      )

  size_from-count : (m : Dict (List E)) → size_from m ≡ count_queues (λ _. true) m
  unfolding size_from
  size_from-count [] = refl
  size_from-count ((_, q) ∷ m) = omega (arith, size_from-count m, length-count q)
    where
      length-count : (q : List E) → length q ≡ count (λ _. true) q
      length-count [] = refl
      length-count (x ∷ q) = omega (arith, length-count q)

  -- `Size` is the number of the queued executions.
  pub size-held : (ps : PriorityScheduler E) → size ps ≡ held (λ _. true) ps
  unfolding size
  size-held ps = size_from-count ps.queues

  -- What `Remove` did to the queues.
  pub data Removed (id_of : E → String) (id : String) (old : Dict (List E))
      : Bool × Dict (List E) → Type 0 where
    gone :
        (e : E) {new : Dict (List E)}
        → id_of e ≡ id
        → ((f : E → Bool) → count_queues f old ≡ given f (some e) + count_queues f new)
        → Removed id_of id old (true, new)
    absent :
        {new : Dict (List E)}
        → new ≡ old
        → All (λ entry. All (λ e. str_eq (id_of e) id ≡ false) entry.1) old
        → Removed id_of id old (false, new)

  Removed-cons :
      (id_of : E → String) (id : String) (p : String) (q : List E) (m : Dict (List E))
      {r : Bool × Dict (List E)}
      → All (λ e. str_eq (id_of e) id ≡ false) q
      → Removed id_of id m r
      → Removed id_of id ((p, q) ∷ m) (r.0, (p, q) ∷ r.1)
  Removed-cons id_of id p q m others (gone e same less) = gone e same (λ f. omega (arith, less f))
  Removed-cons id_of id p q m others (absent same none_there) =
      absent (ap (◌∷◌ (p, q)) same) (others, none_there)

  remove_from-Removed :
      (id_of : E → String) (id : String) (m : Dict (List E))
      → Removed id_of id m (remove_from id_of id m)
  unfolding remove_from
  remove_from-Removed id_of id [] = absent refl tt
  remove_from-Removed id_of id ((p, q) ∷ m) = elim (take_first_cases (λ e. str_eq (id_of e) id) q) [
    | inl (missing, others) ↦
        rw (missing, remove_from)
          (Removed-cons id_of id p q m others (remove_from-Removed id_of id m))
    | inr (e, rest, found, t) ↦
        rw (found, remove_from)
          (gone e ((eq_iff (id_of e) id).0 t.passes)
            (λ f. omega (arith, Taken-count f _ q e rest t)))
  ]

  -- `Remove` takes out exactly one execution with the identifier and answers true; or no queued
  -- execution has it, and it changes nothing and answers false.
  pub remove-Removed :
      (id_of : E → String) (id : String) (ps : PriorityScheduler E)
      → Removed id_of id ps.queues ((remove id_of id ps).0, (remove id_of id ps).1.queues)
  unfolding remove
  remove-Removed id_of id ps = remove_from-Removed id_of id ps.queues
