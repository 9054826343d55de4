-- ===== src/Events/Bus/Queues.antt =====
-- The queues of the subscriptions (core/events/bus.go): their weight in dead letters, their
-- capacities, and which subscriptions a publication finds.
use chukrun.Base.{
  ℕ, zero, suc, ◌+◌, ◌≤◌, ◌≡◌, refl, ap, ◌∙◌, sym, ◌⊎◌, inl, inr, String, Bool, false, List, [],
  ◌∷◌, ◌++◌, Option, none, some, length, length-append, get_elem?, modify, All, map, arith, str_eq,
  Bool-cases, if◌then◌else◌,
}
use mathlib.Core.Option.{some-injective}
use chukrun.Base.Dict.{Dict}
use chukrun.Events.Topics.{match_topic}
use chukrun.Events.Bus.{
  Event, topic, dead_letter_topic, Subscription, OverflowPolicy, drop_oldest, drop_newest, accepts,
  accepting, get_matching_subscribers,
}

-- Only an event that is not itself a dead letter causes one.
abbrev pub cost : Event → ℕ
cost ev = if str_eq (topic ev) dead_letter_topic then 0 else 1

abbrev pub queue_weight : List Event → ℕ
queue_weight [] = 0
queue_weight (ev ∷ rest) = cost ev + queue_weight rest

-- How many dead letters the queued events can still cause.
unfoldable pub weight : List Subscription → ℕ
weight [] = 0
weight (sub ∷ rest) = queue_weight sub.queue + weight rest

-- Every queue keeps to its capacity.
abbrev pub Fits : List Subscription → Type 0
Fits = All (λ sub. length sub.queue ≤ sub.capacity)

-- The pattern of each subscription, and whether it is closed.
abbrev pub faces : List Subscription → List (String × Bool)
faces = map (λ sub. (sub.pattern, sub.closed))

abbrev pub IsOpen : List (String × Bool) → ℕ → Type 0
IsOpen flags at = (pattern : String) × (get_elem? flags at ≡ some (pattern, false))

pub policy-cases : (p : OverflowPolicy) → (p ≡ drop_newest) ⊎ (p ≡ drop_oldest)
policy-cases drop_newest = inl refl
policy-cases drop_oldest = inr refl

pub head_is :
    (s : Subscription) (made : List Subscription) {sub : Subscription}
    → get_elem? (s ∷ made) 0 ≡ some sub
    → s ≡ sub
head_is s made e = cc

pub queue_weight-append :
    (xs ys : List Event) → queue_weight (xs ++ ys) ≡ queue_weight xs + queue_weight ys
queue_weight-append [] ys = omega arith
queue_weight-append (x ∷ xs) ys = omega (arith, queue_weight-append xs ys)

pub weight-modify :
    (at : ℕ) (f : Subscription → Subscription) (made : List Subscription) {sub : Subscription}
    → get_elem? made at ≡ some sub
    → weight (modify at f made) + queue_weight sub.queue
      ≡ weight made + queue_weight (Subscription.queue (f sub))
unfolding weight
weight-modify at f [] e = cc
weight-modify zero f (s ∷ made) e = rw (head_is s made e) omega arith
weight-modify (suc at) f (s ∷ made) e = omega (arith, weight-modify at f made e)

pub faces-modify :
    (at : ℕ) (f : Subscription → Subscription) (made : List Subscription)
    → ((s : Subscription)
        → (Subscription.closed (f s) ≡ s.closed) × (Subscription.pattern (f s) ≡ s.pattern))
    → faces (modify at f made) ≡ faces made
faces-modify at f [] same = refl
faces-modify zero f (s ∷ made) same = rw ((same s).0, (same s).1) refl
faces-modify (suc at) f (s ∷ made) same = rw (faces-modify at f made same) refl

pub Fits-modify :
    (at : ℕ) (f : Subscription → Subscription) (made : List Subscription) {sub : Subscription}
    → get_elem? made at ≡ some sub
    → length (Subscription.queue (f sub)) ≤ Subscription.capacity (f sub)
    → Fits made
    → Fits (modify at f made)
Fits-modify at f [] e fits all = tt
Fits-modify zero f (s ∷ made) e fits all = (rw (head_is s made e) fits, all.1)
Fits-modify (suc at) f (s ∷ made) e fits all = (all.0, Fits-modify at f made e fits all.1)

pub Fits-at :
    (at : ℕ) (made : List Subscription) {sub : Subscription}
    → get_elem? made at ≡ some sub
    → Fits made
    → length sub.queue ≤ sub.capacity
Fits-at at [] e all = cc
Fits-at zero (s ∷ made) e all = rw (sym (head_is s made e)) all.0
Fits-at (suc at) (s ∷ made) e all = Fits-at at made e all.1

pub faces-at :
    (at : ℕ) (made : List Subscription) {sub : Subscription}
    → get_elem? made at ≡ some sub
    → get_elem? (faces made) at ≡ some (sub.pattern, sub.closed)
faces-at at [] e = cc
faces-at zero (s ∷ made) e = rw (head_is s made e) refl
faces-at (suc at) (s ∷ made) e = faces-at at made e

pub open_of :
    (sub : Subscription) {pattern : String} {o : Option (String × Bool)}
    → o ≡ some (pattern, false)
    → o ≡ some (sub.pattern, sub.closed)
    → sub.closed ≡ false
open_of sub e e' = ap (λ q. q.1) (some-injective _ _ (sym e' ∙ e))

pub flags_absent :
    (at : ℕ) (made : List Subscription) → get_elem? made at ≡ none → IsOpen (faces made) at → ⊥
flags_absent at [] e (pattern, is_open) = cc
flags_absent zero (s ∷ made) e is_open = cc
flags_absent (suc at) (s ∷ made) e is_open = flags_absent at made e is_open

-- What sending the event to these subscriptions may add to the weight.
unfoldable pub spending : Event → List ℕ → ℕ
spending ev [] = 0
spending ev (at ∷ rest) = cost ev + spending ev rest

pub free_spending : (ev : Event) → cost ev ≡ 0 → (ats : List ℕ) → spending ev ats ≡ 0
unfolding spending
free_spending ev free [] = refl
free_spending ev free (at ∷ rest) = omega (arith, free_spending ev free rest)

pub spending-le-length : (ev : Event) (ats : List ℕ) → spending ev ats ≤ length ats
unfolding spending
spending-le-length ev [] = omega arith
spending-le-length ev (at ∷ rest) = ground (arith, spending-le-length ev rest)

-- Every subscription in the map of subscribers is open.
abbrev pub OpenIn : List (String × Bool) → Dict (List ℕ) → Type 0
OpenIn flags = All (λ entry. All (IsOpen flags) entry.1)

-- How many subscriptions the map of subscribers holds.
abbrev pub registered : Dict (List ℕ) → ℕ
registered [] = 0
registered ((_, subs) ∷ rest) = length subs + registered rest

pub All-append :
    (flags : List (String × Bool)) (xs ys : List ℕ)
    → All (IsOpen flags) xs
    → All (IsOpen flags) ys
    → All (IsOpen flags) (xs ++ ys)
All-append flags [] ys h k = k
All-append flags (x ∷ xs) ys h k = (h.0, All-append flags xs ys h.1 k)

pub accepting-IsOpen :
    (flags : List (String × Bool)) (ev : Event) (made : List Subscription) (ats : List ℕ)
    → All (IsOpen flags) ats
    → All (IsOpen flags) (accepting ev made ats) × (length (accepting ev made ats) ≤ length ats)
unfolding accepting
accepting-IsOpen flags ev made [] h = (tt, omega arith)
accepting-IsOpen flags ev made (at ∷ rest) h =
    let (opens, le) = accepting-IsOpen flags ev made rest h.1 in
    elim (Bool-cases (accepts ev (get_elem? made at))) [
      | inl hit ↦ rw hit ((h.0, opens), omega arith)
      | inr miss ↦ rw miss (opens, omega arith)
    ]

pub matching-IsOpen :
    (flags : List (String × Bool)) (ev : Event) (made : List Subscription) (subs : Dict (List ℕ))
    → OpenIn flags subs
    → All (IsOpen flags) (get_matching_subscribers ev made subs)
unfolding get_matching_subscribers
matching-IsOpen flags ev made [] h = tt
matching-IsOpen flags ev made ((pattern, ats) ∷ rest) h =
    let opens = matching-IsOpen flags ev made rest h.1 in
    elim (Bool-cases (match_topic pattern (topic ev))) [
      | inl hit ↦ rw hit (All-append flags _ _ (accepting-IsOpen flags ev made ats h.0).0 opens)
      | inr miss ↦ rw miss opens
    ]

pub matching-le-registered :
    (flags : List (String × Bool)) (ev : Event) (made : List Subscription) (subs : Dict (List ℕ))
    → OpenIn flags subs
    → length (get_matching_subscribers ev made subs) ≤ registered subs
unfolding get_matching_subscribers
matching-le-registered flags ev made [] h = omega arith
matching-le-registered flags ev made ((pattern, ats) ∷ rest) h =
    let le = matching-le-registered flags ev made rest h.1 in
    elim (Bool-cases (match_topic pattern (topic ev))) [
      | inl hit ↦ rw hit omega (
        arith,
        (accepting-IsOpen flags ev made ats h.0).1,
        length-append (accepting ev made ats) (get_matching_subscribers ev made rest),
      )
      | inr miss ↦ rw miss omega arith
    ]
