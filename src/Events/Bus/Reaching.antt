-- ===== src/Events/Bus/Reaching.antt =====
-- The states of the event bus (core/events/bus.go): any order of subscribing, unsubscribing,
-- publishing, configuring the queues and the topic rules, and rounds of the subscribers' loops, from
-- the bus that `NewInProcessEventBus` makes.
-- Each is one step: what runs between the halves of a publication is a theorem of its own.
use chukrun.Base.{
  ℕ, zero, suc, ◌+◌, ◌≤◌, ◌≡◌, refl, sym, ap, ◌∙◌, subst, inl, inr, String, Bool, true, false, List,
  [], ◌∷◌, ◌++◌, Option, none, some, length, get_elem?, get_elem?-modify, All, arith, Bool-cases,
  Option-cases, if◌then◌else◌,
}
use mathlib.Core.Option.{some-injective}
use chukrun.Base.Dict.{Dict}
use chukrun.Events.Bus.{
  Event, Clock, HandlerResult, OverflowPolicy, Subscription, Bus, new_in_process_event_bus,
  set_queue_capacity, set_overflow_policy, new_subscription, Delivery, delivered, send_on_closed,
  DeadLetters, send, enqueue, publish, subscribe_filtered, close_and_remove, unsubscribe, receive,
}
use chukrun.Events.Topics.{register_namespace, set_strict_mode}
use chukrun.Events.Bus.Queues.{
  weight, Fits, faces, IsOpen, OpenIn, registered, faces-at, Fits-at, Fits-modify,
}
use chukrun.Events.Bus.Publishing.{Sound, publish-Settles, receive-Settles}
use chukrun.Events.Bus.Sending.{Settles}
use chukrun.Events.Bus.Subscribing.{
  count, total, under, Registered, IsRegistry, subscribe_filtered-IsRegistry,
  unsubscribe-IsRegistry,
}

abbrev face_of : Option Subscription → Option (String × Bool)
face_of none = none
face_of (some sub) = some (sub.pattern, sub.closed)

get_elem?-faces :
    (at : ℕ) (made : List Subscription) → get_elem? (faces made) at ≡ face_of (get_elem? made at)
get_elem?-faces at [] = refl
get_elem?-faces zero (s ∷ made) = refl
get_elem?-faces (suc at) (s ∷ made) = get_elem?-faces at made

-- Being registered depends on the pattern and on whether the subscription is closed.
Registered-face :
    (subs : Dict (List ℕ)) (at : ℕ) (o o' : Option Subscription)
    → face_of o ≡ face_of o'
    → Registered subs at o
    → Registered subs at o'
Registered-face subs at none none e h = h
Registered-face subs at none (some sub) e h = cc
Registered-face subs at (some sub) none e h = cc
Registered-face subs at (some sub) (some sub') e h =
    let same = some-injective _ _ e in
    subst (λ f. if f.1 then total at subs ≡ 0 else (total at subs ≡ 1) × (under at f.0 subs ≡ 1))
      same h

IsRegistry-faces :
    (bus : Bus) (made : List Subscription)
    → faces made ≡ faces bus.made
    → IsRegistry bus
    → IsRegistry (record bus { made = made })
IsRegistry-faces bus made same registry at =
    Registered-face bus.subscribers at (get_elem? bus.made at) (get_elem? made at)
      (sym (get_elem?-faces at bus.made)
        ∙ ap (λ fs. get_elem? fs at) (sym same)
        ∙ get_elem?-faces at made)
      (registry at)

counted-IsOpen :
    (subs : Dict (List ℕ)) (made : List Subscription) (at : ℕ)
    → Registered subs at (get_elem? made at)
    → 1 ≤ total at subs
    → IsOpen (faces made) at
counted-IsOpen subs made at h counted = elim (Option-cases (get_elem? made at)) [
  | inl absent ↦
      let gone : total at subs ≡ 0 = subst (Registered subs at) absent h in absurd (omega arith)
  | inr (sub, e) ↦ elim (Bool-cases sub.closed) [
    | inl closed ↦
        let gone : total at subs ≡ 0 =
          subst
            (λ c.
              if c
              then total at subs ≡ 0
              else (total at subs ≡ 1) × (under at sub.pattern subs ≡ 1))
            closed (subst (Registered subs at) e h) in
        absurd (omega arith)
    | inr is_open ↦ (sub.pattern, faces-at at made e ∙ ap (λ c. some (sub.pattern, c)) is_open)
  ]
]

count_self_pos : (x : ℕ) (xs : List ℕ) → 1 ≤ count x (x ∷ xs)
count_self_pos x xs = ground arith

count-more : (at x : ℕ) (xs : List ℕ) → count at xs ≤ count at (x ∷ xs)
count-more at x xs = omega arith

All-IsOpen :
    (flags : List (String × Bool)) (ats : List ℕ)
    → ((at : ℕ) → 1 ≤ count at ats → IsOpen flags at)
    → All (IsOpen flags) ats
All-IsOpen flags [] h = tt
All-IsOpen flags (x ∷ xs) h = (
  h x (count_self_pos x xs),
  All-IsOpen flags xs (λ at le. h at (omega (arith, count-more at x xs))),
)

OpenIn-total :
    (flags : List (String × Bool)) (subs : Dict (List ℕ))
    → ((at : ℕ) → 1 ≤ total at subs → IsOpen flags at)
    → OpenIn flags subs
OpenIn-total flags [] h = tt
OpenIn-total flags ((pattern, ats) ∷ rest) h = (
  All-IsOpen flags ats (λ at le. h at (omega arith)),
  OpenIn-total flags rest (λ at le. h at (omega arith)),
)

IsRegistry-OpenIn : (bus : Bus) → IsRegistry bus → OpenIn (faces bus.made) bus.subscribers
IsRegistry-OpenIn bus registry =
    OpenIn-total (faces bus.made) bus.subscribers
      (λ at le. counted-IsOpen bus.subscribers bus.made at (registry at) le)

-- One operation. A publication and a round of a loop have fuel for the dead letters they may cause.
pub data BusStep : Bus → Bus → Type 0 where
  subscribing :
      (pattern : String) (predicate : Option (Event → Bool)) (handler : ℕ → Event → HandlerResult)
      (bus : Bus)
      → BusStep bus (subscribe_filtered pattern predicate handler bus).0
  unsubscribing : (at : ℕ) (bus : Bus) → BusStep bus (unsubscribe at bus)
  publishing :
      (clock : Clock) (fuel : ℕ) (trace : Option String) (ev : Event) (bus : Bus)
      (made : List Subscription)
      → weight bus.made + registered bus.subscribers ≤ fuel
      → (publish clock fuel trace ev bus).1 ≡ delivered made
      → BusStep bus (record bus { made = made })
  receiving :
      (clock : Clock) (fuel at : ℕ) (bus : Bus) (made : List Subscription)
      → weight bus.made ≤ fuel
      → receive clock fuel at bus ≡ delivered made
      → BusStep bus (record bus { made = made })
  setting_capacity : (capacity : ℕ) (bus : Bus) → BusStep bus (set_queue_capacity capacity bus)
  setting_policy :
      (policy : OverflowPolicy) (bus : Bus) → BusStep bus (set_overflow_policy policy bus)
  -- `RegisterNamespace`, refused ones included, and `SetStrictMode`.
  registering_namespace :
      (prefix owner : String) (bus : Bus)
      → BusStep bus (record bus { rules = (register_namespace prefix owner bus.rules).0 })
  setting_strict_mode :
      (strict : Bool) (bus : Bus)
      → BusStep bus (record bus { rules = set_strict_mode strict bus.rules })

pub data Reached : Bus → Type 0 where
  new : Reached new_in_process_event_bus
  after : {bus bus' : Bus} → Reached bus → BusStep bus bus' → Reached bus'

abbrev pub IsBus : Bus → Type 0
IsBus bus = IsRegistry bus × Fits bus.made

IsBus-Sound : (bus : Bus) → IsBus bus → Sound bus
IsBus-Sound bus (registry, fits) = (IsRegistry-OpenIn bus registry, fits)

settled_same :
    (bound : ℕ) (flags : List (String × Bool)) (d : Delivery) (made : List Subscription)
    → Settles bound flags d
    → d ≡ delivered made
    → (faces made ≡ flags) × Fits made
settled_same bound flags d made h e = let s = subst (Settles bound flags) e h in (s.1, s.2)

Fits-push :
    (made : List Subscription) (sub : Subscription)
    → length sub.queue ≤ sub.capacity
    → Fits made
    → Fits (made ++ sub ∷ [])
Fits-push [] sub le fits = (le, tt)
Fits-push (s ∷ made) sub le fits = (fits.0, Fits-push made sub le fits.1)

close_and_remove-Fits :
    (at : ℕ) (o : Option Subscription) (bus : Bus)
    → get_elem? bus.made at ≡ o
    → Fits bus.made
    → Fits (Bus.made (close_and_remove at o bus))
unfolding close_and_remove
close_and_remove-Fits at none bus e fits = fits
close_and_remove-Fits at (some sub) bus e fits = elim (Bool-cases sub.closed) [
  | inl closed ↦ rw closed fits
  | inr is_open ↦ rw is_open (
      Fits-modify at (λ s. record s { closed = true }) bus.made e (Fits-at at bus.made e fits) fits)
]

BusStep-IsBus : {bus bus' : Bus} → BusStep bus bus' → IsBus bus → IsBus bus'
unfolding subscribe_filtered unsubscribe
BusStep-IsBus (subscribing pattern predicate handler bus) (registry, fits) = (
  subscribe_filtered-IsRegistry pattern predicate handler bus registry,
  Fits-push bus.made (new_subscription pattern predicate handler bus) (omega arith) fits,
)
BusStep-IsBus (unsubscribing at bus) (registry, fits) =
    (unsubscribe-IsRegistry at bus registry, close_and_remove-Fits at _ bus refl fits)
BusStep-IsBus (publishing clock fuel trace ev bus made le e) (registry, fits) =
    let (same, fits') =
      settled_same _ (faces bus.made) _ made
        (publish-Settles clock fuel trace ev bus (IsBus-Sound bus (registry, fits)) le) e in
    (IsRegistry-faces bus made same registry, fits')
BusStep-IsBus (receiving clock fuel at bus made le e) (registry, fits) =
    let (same, fits') =
      settled_same _ (faces bus.made) _ made
        (receive-Settles clock fuel at bus (IsBus-Sound bus (registry, fits)) le) e in
    (IsRegistry-faces bus made same registry, fits')
BusStep-IsBus (setting_capacity capacity bus) is_bus = is_bus
BusStep-IsBus (setting_policy policy bus) is_bus = is_bus
BusStep-IsBus (registering_namespace prefix owner bus) is_bus = is_bus
BusStep-IsBus (setting_strict_mode strict bus) is_bus = is_bus

-- In every state of the bus the map of subscribers holds each open subscription once, under its
-- pattern, and no closed one, and no queue is longer than its capacity.
pub Reached-IsBus : {bus : Bus} → Reached bus → IsBus bus
unfolding new_in_process_event_bus
Reached-IsBus new = (λ at. refl, tt)
Reached-IsBus (after r step) = BusStep-IsBus step (Reached-IsBus r)

-- A publication that found an open subscription, and whose events are sent after that subscription
-- was unsubscribed, panics in the sender.
pub enqueue-unsubscribe :
    (dead : DeadLetters) (ev : Event) (at : ℕ) (bus : Bus) (sub : Subscription)
    → get_elem? bus.made at ≡ some sub
    → sub.closed ≡ false
    → enqueue dead ev at (Bus.made (unsubscribe at bus)) ≡ send_on_closed
unfolding enqueue unsubscribe close_and_remove send
enqueue-unsubscribe dead ev at bus sub e is_open =
    rw (e, is_open, get_elem?-modify at (λ s. record s { closed = true }) bus.made e) refl
