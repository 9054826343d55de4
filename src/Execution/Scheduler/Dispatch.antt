-- ===== src/Execution/Scheduler/Dispatch.antt =====
-- How one call of `Dequeue` ends: the case analysis behind the properties of the scheduler.
use mathlib.Core.List.{Memᴰ}
use chukrun.Base.{
  ℕ, ◌+◌, ◌-◌, ◌<◌, ◌≡◌, refl, ap, sym, ◌⊎◌, inl, inr, Bool, true, false, List, [], ◌∷◌, ◌++◌,
  Option, none, some, All, arith, Bool-cases, if◌then◌else◌,
}
use chukrun.Base.Dict.{Dict, lookup, insert}
use chukrun.Context.Priority.{PriorityClass, priority_order}
use chukrun.Execution.Scheduler.{
  PriorityScheduler, or_empty, queue_of, credit_of, refilled, take_first, find_and_remove,
  credit_pass, open_pass, has_candidates, has_turn, dequeue,
}

-- The classes, the most urgent first.
abbrev pub urgency : List PriorityClass
urgency = "Critical" ∷ "High" ∷ "Normal" ∷ "Low" ∷ "Background" ∷ []

-- A class of an order is the first one: all before it satisfy the condition that passes them over.
abbrev pub First : (PriorityClass → Type 0) → List PriorityClass → PriorityClass → Type 0
First P order class =
    (before : List PriorityClass) × (after : List PriorityClass) × (order ≡ before ++ class ∷ after)
    × All P before

First-here :
    (P : PriorityClass → Type 0) (p class : PriorityClass) (order : List PriorityClass)
    → class ≡ p
    → First P (p ∷ order) class
First-here P p class order e = ([], order, ap (λ q. q ∷ order) (sym e), tt)

First-later :
    (P : PriorityClass → Type 0) (p class : PriorityClass) (order : List PriorityClass)
    → P p
    → First P order class
    → First P (p ∷ order) class
First-later P p class order passed (before, after, split, all) =
    (p ∷ before, after, ap (λ rest. p ∷ rest) split, (passed, all))

-- Every class of an order stands in the full order.
abbrev Within : List PriorityClass → Type 0
Within order = (p : PriorityClass) → Memᴰ p order → Memᴰ p priority_order

Within-tail : (p : PriorityClass) (order : List PriorityClass) → Within (p ∷ order) → Within order
Within-tail p order within q m = within q (Memᴰ.tail m)

module _ {E : Type 0} where
  -- How many items pass a test. Two schedulers hold the same items, as often, if they agree under
  -- every test.
  abbrev pub count : (E → Bool) → List E → ℕ
  count f [] = 0
  count f (x ∷ xs) = (if f x then 1 else 0) + count f xs

  abbrev pub count_queues : (E → Bool) → Dict (List E) → ℕ
  count_queues f [] = 0
  count_queues f ((_, q) ∷ m) = count f q + count_queues f m

  abbrev pub held : (E → Bool) → PriorityScheduler E → ℕ
  held f ps = count_queues f ps.queues

  pub count-append : (f : E → Bool) (xs ys : List E) → count f (xs ++ ys) ≡ count f xs + count f ys
  count-append f [] ys = omega arith
  count-append f (x ∷ xs) ys = omega (arith, count-append f xs ys)

  -- Replacing the queue of a class.
  pub count_queues-insert :
      (f : E → Bool) (p : PriorityClass) (q : List E) (m : Dict (List E))
      → count_queues f (insert p q m) + count f (or_empty (lookup p m))
        ≡ count_queues f m + count f q
  unfolding insert lookup
  count_queues-insert f p q [] = omega arith
  count_queues-insert f p q ((j, w) ∷ m) = ground (arith, count_queues-insert f p q m)

  -- What `take_first` finds: the first item that passes, with those that it skipped.
  pub record Taken (can : E → Bool) (q : List E) (e : E) (rest : List E) : Type 0 where
    pub skipped : List E
    pub later : List E
    pub before : q ≡ skipped ++ e ∷ later
    pub after : rest ≡ skipped ++ later
    pub passes : can e ≡ true
    pub blocked : All (λ x. can x ≡ false) skipped

  pub take_first_cases :
      (can : E → Bool) (q : List E)
      → ((take_first can q ≡ none) × All (λ x. can x ≡ false) q)
        ⊎ ((e : E) × (rest : List E) × (take_first can q ≡ some (e, rest)) × Taken can q e rest)
  unfolding take_first
  take_first_cases can [] = inl (refl, tt)
  take_first_cases can (x ∷ q) = elim (Bool-cases (can x)) [
    | inl passes ↦ inr (
      x,
      q,
      rw passes,
      record {
        skipped = [];
        later = q;
        before = refl;
        after = refl;
        passes = passes;
        blocked = tt;
      },
    )
    | inr blocked ↦ elim (take_first_cases can q) [
      | inl (e, all) ↦ inl (rw (blocked, e), (blocked, all))
      | inr (y, rest, e, t) ↦ inr (
        y,
        x ∷ rest,
        rw (blocked, e),
        record {
          skipped = x ∷ t.skipped;
          later = t.later;
          before = ap (◌∷◌ x) t.before;
          after = ap (◌∷◌ x) t.after;
          passes = t.passes;
          blocked = (blocked, t.blocked);
        },
      )
    ]
  ]

  -- What a successful pass does: it takes the first item that passes from one of the five classes,
  -- which had credit where `credited` says so, lowers the credit of that class by one, and touches
  -- nothing else.
  pub record Serves (can : E → Bool) (credited : Bool) (ps : PriorityScheduler E) (e : E)
      (ps' : PriorityScheduler E) : Type 0 where
    pub class : PriorityClass
    pub rest : List E
    pub known : Memᴰ class priority_order
    pub taken : Taken can (queue_of ps class) e rest
    pub funded : credited ≡ true → 0 < credit_of ps class
    pub queues_after : ps'.queues ≡ insert class rest ps.queues
    pub credits_after :
        ps'.current_credits ≡ insert class (credit_of ps class - 1) ps.current_credits
    pub weights_after : ps'.weights ≡ ps.weights

  abbrev pub Blocked : (E → Bool) → List E → Type 0
  Blocked can = All (λ x. can x ≡ false)

  find_and_remove_cases :
      (p : PriorityClass) (can : E → Bool) (ps : PriorityScheduler E)
      → Memᴰ p priority_order
      → ((find_and_remove p can ps ≡ none) × Blocked can (queue_of ps p))
        ⊎ ((e : E) × (ps' : PriorityScheduler E) × (find_and_remove p can ps ≡ some (e, ps'))
            × ((b : Bool)
                → (b ≡ true → 0 < credit_of ps p)
                → (s : Serves can b ps e ps') × (s.class ≡ p)))
  unfolding find_and_remove
  find_and_remove_cases p can ps known = elim (take_first_cases can (queue_of ps p)) [
    | inl (e, blocked) ↦ inl (rw (e, find_and_remove), blocked)
    | inr (x, rest, e, t) ↦ inr (
      x,
      _,
      rw (e, find_and_remove),
      λ b funded. (
        record {
          class = p;
          rest = rest;
          known = known;
          taken = t;
          funded = funded;
          queues_after = refl;
          credits_after = refl;
          weights_after = refl;
        },
        refl,
      ),
    )
  ]

  abbrev pub Spent : (E → Bool) → PriorityScheduler E → PriorityClass → Type 0
  Spent can ps p = Blocked can (queue_of ps p) ⊎ (credit_of ps p ≡ 0)

  has_turn-funded :
      (ps : PriorityScheduler E) (p : PriorityClass) → has_turn ps p ≡ true → 0 < credit_of ps p
  unfolding has_turn
  has_turn-funded ps p h = ground arith

  no_turn-Spent :
      (can : E → Bool) (ps : PriorityScheduler E) (p : PriorityClass) (q : List E)
      → queue_of ps p ≡ q
      → has_turn ps p ≡ false
      → Spent can ps p
  unfolding has_turn
  no_turn-Spent can ps p [] e h = inl (rw e tt)
  no_turn-Spent can ps p (x ∷ q) e h = inr (ground arith)

  credit_pass_cases :
      (can : E → Bool) (order : List PriorityClass) (ps : PriorityScheduler E)
      → Within order
      → ((credit_pass can order ps ≡ none) × All (Spent can ps) order)
        ⊎ ((e : E) × (ps' : PriorityScheduler E) × (credit_pass can order ps ≡ some (e, ps'))
            × (s : Serves can true ps e ps') × First (Spent can ps) order s.class)
  unfolding credit_pass
  credit_pass_cases can [] ps within = inl (refl, tt)
  credit_pass_cases can (p ∷ order) ps within =
      let later = credit_pass_cases can order ps (Within-tail p order within) in
      elim (Bool-cases (has_turn ps p)) [
        | inr idle ↦ elim later [
          | inl (e, all) ↦ inl (rw idle e, (no_turn-Spent can ps p _ refl idle, all))
          | inr (x, ps', e, serves, first) ↦ inr (
            x,
            ps',
            rw idle e,
            serves,
            First-later (Spent can ps) p serves.class order (no_turn-Spent can ps p _ refl idle)
                first,
          )
        ]
        | inl turn ↦ elim (find_and_remove_cases p can ps (within p (Memᴰ.head refl))) [
          | inr (x, ps', found, serves) ↦
              let (s, same) = serves true (λ _. has_turn-funded ps p turn) in
              inr (
                x,
                ps',
                rw (turn, found, credit_pass),
                s,
                First-here (Spent can ps) p s.class order same,
              )
          | inl (missing, blocked) ↦ elim later [
            | inl (e, all) ↦ inl (rw (turn, missing, credit_pass) e, (inl blocked, all))
            | inr (x, ps', e, serves, first) ↦ inr (
              x,
              ps',
              rw (turn, missing, credit_pass) e,
              serves,
              First-later (Spent can ps) p serves.class order (inl blocked) first,
            )
          ]
        ]
      ]

  open_pass_cases :
      (can : E → Bool) (order : List PriorityClass) (ps : PriorityScheduler E)
      → Within order
      → ((open_pass can order ps ≡ none) × All (λ p. Blocked can (queue_of ps p)) order)
        ⊎ ((e : E) × (ps' : PriorityScheduler E) × (open_pass can order ps ≡ some (e, ps'))
            × (s : Serves can false ps e ps') × First
                (λ p. Blocked can (queue_of ps p))
                order
                s.class)
  unfolding open_pass
  open_pass_cases can [] ps within = inl (refl, tt)
  open_pass_cases can (p ∷ order) ps within =
      elim (find_and_remove_cases p can ps (within p (Memᴰ.head refl))) [
        | inr (e, ps', found, serves) ↦
            let (s, same) = serves false (λ h. cc) in
            inr (
              e,
              ps',
              rw (found, open_pass),
              s,
              First-here (λ p. Blocked can (queue_of ps p)) p s.class order same,
            )
        | inl (missing, blocked) ↦
            elim (open_pass_cases can order ps (Within-tail p order within)) [
              | inl (later, all) ↦ inl (rw (missing, open_pass) later, (blocked, all))
              | inr (e, ps', later, serves, first) ↦ inr (
                e,
                ps',
                rw (missing, open_pass) later,
                serves,
                First-later (λ p. Blocked can (queue_of ps p)) p serves.class order blocked first,
              )
            ]
      ]

  has_candidates-empty :
      (m : Dict (List E)) (p : PriorityClass)
      → has_candidates m ≡ false
      → or_empty (lookup p m) ≡ []
  unfolding has_candidates lookup
  has_candidates-empty [] p h = refl
  has_candidates-empty ((j, []) ∷ m) p h = ground (arith, has_candidates-empty m p h)
  has_candidates-empty ((j, x ∷ q) ∷ m) p h = cc

  -- The three ways that `Dequeue` ends.
  pub data Dequeued (can : E → Bool) (ps : PriorityScheduler E)
      : Option E × PriorityScheduler E → Type 0 where
    by_credit :
        {e : E} {ps' : PriorityScheduler E}
        → (s : Serves can true ps e ps') → First (Spent can ps) urgency s.class
        → Dequeued can ps (some e, ps')
    by_refill :
        {e : E} {ps' : PriorityScheduler E}
        → All (Spent can ps) urgency
        → (s : Serves can false (refilled ps) e ps')
        → First (λ p. Blocked can (queue_of (refilled ps) p)) urgency s.class
        → Dequeued can ps (some e, ps')
    nothing :
        {ps' : PriorityScheduler E}
        → ps'.queues ≡ ps.queues
        → ps'.weights ≡ ps.weights
        → (ps'.current_credits ≡ ps.current_credits)
          ⊎ (ps'.current_credits ≡ (refilled ps).current_credits)
        → All (λ p. Blocked can (queue_of ps p)) urgency
        → Dequeued can ps (none, ps')

  queues-Blocked :
      (can : E → Bool) (ps : PriorityScheduler E) (order : List PriorityClass)
      → has_candidates ps.queues ≡ false
      → All (λ p. Blocked can (queue_of ps p)) order
  queues-Blocked can ps [] h = tt
  queues-Blocked can ps (p ∷ order) h =
      (rw (has_candidates-empty ps.queues p h) tt, queues-Blocked can ps order h)

  -- `Dequeue` ends in one of three ways; the classes are looked at in the order Critical, High,
  -- Normal, Low, Background. Some class has credit and an execution that may run: of the first such
  -- class the first such execution is given out and one credit is taken. Every class is blocked or
  -- has no credit: all credits are refilled, and of the first class that has an execution that may
  -- run the first is given out. Nothing queued in the five classes may run: nothing is given out
  -- and the queues stay.
  pub dequeue-Dequeued :
      (can : E → Bool) (ps : PriorityScheduler E) → Dequeued can ps (dequeue can ps)
  unfolding dequeue
  dequeue-Dequeued can ps = elim (credit_pass_cases can priority_order ps (λ p m. m)) [
    | inr (e, ps', found, serves, first) ↦ rw (found, dequeue) (by_credit serves first)
    | inl (missing, spent) ↦ elim (Bool-cases (has_candidates ps.queues)) [
      | inr idle ↦
          rw (missing, idle, dequeue)
            (nothing refl refl (inl refl) (queues-Blocked can ps priority_order idle))
      | inl queued ↦ elim (open_pass_cases can priority_order (refilled ps) (λ p m. m)) [
        | inr (e, ps', found, serves, first) ↦
            rw (missing, queued, found, dequeue) (by_refill spent serves first)
        | inl (none_open, blocked) ↦
            rw (missing, queued, none_open, dequeue) (nothing refl refl (inr refl) blocked)
      ]
    ]
  ]
