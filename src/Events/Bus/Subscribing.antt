-- ===== src/Events/Bus/Subscribing.antt =====
-- Subscribing and unsubscribing (core/events/bus.go): the map of subscribers holds each open
-- subscription once, under its pattern, and no closed one.
use chukrun.Base.{
  ℕ, zero, suc, ◌+◌, ◌≤◌, ◌≡◌, refl, sym, ap, subst, ◌⊎◌, inl, inr, ◌≢◌, String, Bool, true, false,
  List, [], ◌∷◌, ◌++◌, Option, none, some, length, get_elem?, modify, arith, ==_iff, str_eq, eq_iff,
  eq_refl, ◌==◌, Bool-cases, if◌then◌else◌, get_elem?-modify,
}
use chukrun.Base.Dict.{Dict, lookup, insert, lookup-insert}
use chukrun.Events.Bus.{
  Event, HandlerResult, Subscription, Bus, new_subscription, or_no_subs, subscribe_filtered,
  without_first, close_and_remove, unsubscribe,
}

-- How often a subscription stands in a list, and in the whole map.
abbrev pub count : ℕ → List ℕ → ℕ
count at [] = 0
count at (x ∷ xs) = (if x == at then 1 else 0) + count at xs

abbrev pub total : ℕ → Dict (List ℕ) → ℕ
total at [] = 0
total at ((_, subs) ∷ rest) = count at subs + total at rest

abbrev pub under : ℕ → String → Dict (List ℕ) → ℕ
under at pattern subs = count at (or_no_subs (lookup pattern subs))

-- An open subscription stands in the map once, under its pattern; a closed one does not, nor does
-- a place where there is none.
abbrev pub Registered : Dict (List ℕ) → ℕ → Option Subscription → Type 0
Registered subs at none = total at subs ≡ 0
Registered subs at (some sub) =
    if sub.closed then total at subs ≡ 0 else (total at subs ≡ 1) × (under at sub.pattern subs ≡ 1)

abbrev pub IsRegistry : Bus → Type 0
IsRegistry bus = (at : ℕ) → Registered bus.subscribers at (get_elem? bus.made at)

count-append : (at : ℕ) (xs ys : List ℕ) → count at (xs ++ ys) ≡ count at xs + count at ys
count-append at [] ys = omega arith
count-append at (x ∷ xs) ys = omega (arith, count-append at xs ys)

-- Removing the first leaves one fewer of it, and the others.
count-without_first :
    (at other : ℕ) (xs : List ℕ)
    → 1 ≤ count at xs
    → count other (without_first at xs) + (if at == other then 1 else 0) ≡ count other xs
unfolding without_first
count-without_first at other [] h = absurd (omega arith)
count-without_first at other (x ∷ xs) h = elim (Bool-cases (x == at)) [
  | inl same ↦ ground arith
  | inr differ ↦
      let hyp = count-without_first at other xs (ground (arith, h, differ)) in ground (arith, hyp)
]

total-insert :
    (at : ℕ) (key : String) (new : List ℕ) (subs : Dict (List ℕ))
    → total at (insert key new subs) + under at key subs ≡ total at subs + count at new
unfolding insert lookup
total-insert at key new [] = omega arith
total-insert at key new ((name, old) ∷ rest) =
    let hyp = total-insert at key new rest in
    elim (Bool-cases (str_eq name key)) [
      | inl same ↦ rw same omega arith
      | inr differ ↦ rw differ omega arith
    ]

total-zero : (at : ℕ) (key : String) (subs : Dict (List ℕ)) → under at key subs ≤ total at subs
unfolding lookup
total-zero at key [] = omega arith
total-zero at key ((name, old) ∷ rest) =
    let hyp = total-zero at key rest in
    elim (Bool-cases (str_eq name key)) [
      | inl same ↦ rw same omega arith
      | inr differ ↦ rw differ omega arith
    ]

under-insert :
    (at : ℕ) (key pattern : String) (new : List ℕ) (subs : Dict (List ℕ))
    → under at pattern (insert key new subs)
      ≡ (if str_eq key pattern then count at new else under at pattern subs)
under-insert at key pattern new subs = elim (Bool-cases (str_eq key pattern)) [
  | inl same ↦ rw (lookup-insert, same) refl
  | inr differ ↦ rw (lookup-insert, differ) refl
]

Registered-once :
    (subs : Dict (List ℕ)) (at : ℕ) (sub : Subscription)
    → sub.closed ≡ false
    → Registered subs at (some sub)
    → (total at subs ≡ 1) × (under at sub.pattern subs ≡ 1)
Registered-once subs at sub is_open h =
    subst
      (λ c. if c then total at subs ≡ 0 else (total at subs ≡ 1) × (under at sub.pattern subs ≡ 1))
      is_open h

-- A write that keeps the number of a subscription in the list keeps the subscription registered.
Registered-insert :
    (at : ℕ) (key : String) (new : List ℕ) (subs : Dict (List ℕ)) (o : Option Subscription)
    → count at new ≡ under at key subs
    → Registered subs at o
    → Registered (insert key new subs) at o
Registered-insert at key new subs none kept h = omega (arith, total-insert at key new subs)
Registered-insert at key new subs (some sub) kept h = elim (Bool-cases sub.closed) [
  | inl closed ↦
      let gone : total at subs ≡ 0 =
        subst
          (λ c.
            if c then total at subs ≡ 0 else (total at subs ≡ 1) × (under at sub.pattern subs ≡ 1))
          closed h in
      rw closed omega (arith, total-insert at key new subs)
  | inr is_open ↦
      let there = Registered-once subs at sub is_open h in
      rw is_open (
        omega (arith, total-insert at key new subs),
        elim (Bool-cases (str_eq key sub.pattern)) [
          | inl same ↦
              let names : key ≡ sub.pattern = (eq_iff key sub.pattern).0 same in
              rw (under-insert at key sub.pattern new subs, same, kept, names) there.1
          | inr differ ↦ rw (under-insert at key sub.pattern new subs, differ) there.1
        ],
      )
]

module _ {A : Type 0} where
  get_elem?-push :
      (i : ℕ) (xs : List A) (x : A)
      → ((i ≢ length xs) × (get_elem? (xs ++ x ∷ []) i ≡ get_elem? xs i))
        ⊎ ((i ≡ length xs) × (get_elem? xs i ≡ none) × (get_elem? (xs ++ x ∷ []) i ≡ some x))
  get_elem?-push zero [] x = inr (refl, refl, refl)
  get_elem?-push (suc i) [] x = inl ((λ e. omega arith), refl)
  get_elem?-push zero (y ∷ xs) x = inl ((λ e. omega arith), refl)
  get_elem?-push (suc i) (y ∷ xs) x = elim (get_elem?-push i xs x) [
    | inl (differ, e) ↦ inl ((λ e'. differ (omega arith)), e)
    | inr (last, absent, e) ↦ inr (omega arith, absent, e)
  ]

  get_elem?-modify_other :
      (i j : ℕ) (f : A → A) (xs : List A) → i ≢ j → get_elem? (modify i f xs) j ≡ get_elem? xs j
  get_elem?-modify_other i j f [] ne = refl
  get_elem?-modify_other zero zero f (x ∷ xs) ne = absurd (ne refl)
  get_elem?-modify_other zero (suc j) f (x ∷ xs) ne = refl
  get_elem?-modify_other (suc i) zero f (x ∷ xs) ne = refl
  get_elem?-modify_other (suc i) (suc j) f (x ∷ xs) ne =
      get_elem?-modify_other i j f xs (λ e. ne (ap suc e))

count-other : (at x : ℕ) → x ≢ at → count at (x ∷ []) ≡ 0
count-other at x ne = ground (arith, ne)

count_self : (x : ℕ) → count x (x ∷ []) ≡ 1
count_self x = ground arith

pub subscribe_filtered-IsRegistry :
    (pattern : String) (predicate : Option (Event → Bool)) (handler : ℕ → Event → HandlerResult)
    (bus : Bus)
    → IsRegistry bus
    → IsRegistry (subscribe_filtered pattern predicate handler bus).0
unfolding subscribe_filtered
subscribe_filtered-IsRegistry pattern predicate handler bus registry at =
    let old = or_no_subs (lookup pattern bus.subscribers) in
    let new = length bus.made in
    let longer = count-append at old (new ∷ []) in
    elim (get_elem?-push at bus.made (new_subscription pattern predicate handler bus)) [
      | inl (differ, e) ↦ rw e (
          Registered-insert at pattern (old ++ new ∷ []) bus.subscribers (get_elem? bus.made at)
            (omega (arith, longer, count-other at new (λ e'. differ (sym e')))) (registry at))
      | inr (last, absent, e) ↦
          let gone : total at bus.subscribers ≡ 0 =
            subst (Registered bus.subscribers at) absent (registry at) in
          let mine : count at (new ∷ []) ≡ 1 = rw last (count_self new) in
          let none_here = total-zero at pattern bus.subscribers in
          rw e (
            omega (arith, total-insert at pattern (old ++ new ∷ []) bus.subscribers),
            rw (under-insert at pattern pattern (old ++ new ∷ []) bus.subscribers, eq_refl pattern)
                omega arith,
          )
    ]

close_and_remove-IsRegistry :
    (at : ℕ) (o : Option Subscription) (bus : Bus)
    → get_elem? bus.made at ≡ o
    → IsRegistry bus
    → IsRegistry (close_and_remove at o bus)
unfolding close_and_remove
close_and_remove-IsRegistry at none bus e registry = registry
close_and_remove-IsRegistry at (some sub) bus e registry = elim (Bool-cases sub.closed) [
  | inl closed ↦ rw closed registry
  | inr is_open ↦ rw is_open (λ other.
      let old = or_no_subs (lookup sub.pattern bus.subscribers) in
      let there : (total at bus.subscribers ≡ 1) × (under at sub.pattern bus.subscribers ≡ 1) =
        Registered-once bus.subscribers at sub is_open
          (subst (Registered bus.subscribers at) e (registry at)) in
      let fewer = count-without_first at other old (omega arith) in
      elim (Bool-cases (at == other)) [
        | inl same ↦
            subst
              (λ k.
                Registered (insert sub.pattern (without_first at old) bus.subscribers) k
                  (get_elem? (modify at (λ s. record s { closed = true }) bus.made) k))
              ((==_iff at other).0 same)
              (rw (get_elem?-modify at (λ s. record s { closed = true }) bus.made e) (
                let gone : count at (without_first at old) + 1 ≡ count at old =
                  ground (arith, count-without_first at at old (omega arith)) in
                omega (arith, total-insert at sub.pattern (without_first at old) bus.subscribers)))
        | inr differ ↦
            rw
              (get_elem?-modify_other at other (λ s. record s { closed = true }) bus.made
                (λ e'. absurd (ground (arith, differ))))
              (Registered-insert other sub.pattern (without_first at old) bus.subscribers
                (get_elem? bus.made other) (ground (arith, fewer, differ)) (registry other))
      ])
]

pub unsubscribe-IsRegistry : (at : ℕ) (bus : Bus) → IsRegistry bus → IsRegistry (unsubscribe at bus)
unfolding unsubscribe
unsubscribe-IsRegistry at bus = close_and_remove-IsRegistry at _ bus refl
