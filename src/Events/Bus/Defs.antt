-- ===== src/Events/Bus/Defs.antt =====
-- core/events/bus.go: events, subscriptions, the bus, and whom an event reaches.
use chukrun.Base.{
  ℕ, String, Bool, true, false, List, [], ◌∷◌, ◌++◌, Option, none, some, get_elem?, str_eq,
  if◌then◌else◌,
}
use chukrun.Base.Int.{ℤ}
use chukrun.Base.Dict.{Dict}
use chukrun.Execution.Types.{Value}
use chukrun.Events.Topics.{TopicRules, new_rules, match_topic}

-- `Event`, with no timestamp for the zero time, and the payload: any value, or a `DeadLetterEntry`
-- (event, subscriber, reason, error, time).
mutual
  pub data Event : Type 0 where
    event : String → String → String → Option ℤ → Payload → String → String → Event

  pub data Payload : Type 0 where
    value : Value → Payload
    dead_letter_entry : Event → ℕ → String → String → ℤ → Payload

abbrev pub topic : Event → String
topic (event t ty id at p trace source) = t

abbrev pub dead_letter_topic : String
dead_letter_topic = "eventbus.dead_letter"

-- The time and the identifier that is made from it.
pub record Clock : Type 0 where
  pub now : ℤ
  pub fresh_id : String

abbrev pub or_else : String → String → String
or_else s t = if str_eq s "" then t else s

abbrev pub or_now : ℤ → Option ℤ → ℤ
or_now now none = now
or_now now (some at) = at

-- `normalize`.
unfoldable pub normalize : Clock → Event → Event
normalize clock (event t ty id at p trace source) =
    event (or_else t ty) (or_else ty (or_else t ty)) (or_else id clock.fresh_id)
      (some (or_now clock.now at)) p trace source

-- The trace of the context, for an event that has none.
unfoldable pub traced : Option String → Event → Event
traced none ev = ev
traced (some tid) (event t ty id at p trace source) = event t ty id at p (or_else trace tid) source

pub data OverflowPolicy : Type 0 where
  drop_oldest : OverflowPolicy
  drop_newest : OverflowPolicy

-- What a call of a handler ends with.
pub data HandlerResult : Type 0 where
  handled : HandlerResult
  failed : String → HandlerResult
  panicked : String → HandlerResult

-- The handler is given the number of the attempt, since its calls may differ.
pub record Subscription : Type 0 where
  pub pattern : String
  pub predicate : Option (Event → Bool)
  pub handler : ℕ → Event → HandlerResult
  pub queue : List Event
  pub capacity : ℕ
  pub policy : OverflowPolicy
  pub closed : Bool

pub record Bus : Type 0 where
  pub rules : TopicRules
  pub subscribers : Dict (List ℕ)
  pub made : List Subscription
  pub queue_capacity : ℕ
  pub overflow_policy : OverflowPolicy

-- `NewInProcessEventBus`.
unfoldable pub new_in_process_event_bus : Bus
new_in_process_event_bus = record {
  rules = new_rules;
  subscribers = [];
  made = [];
  queue_capacity = 1000;
  overflow_policy = drop_oldest;
}

-- `SetQueueCapacity` of a capacity that is not negative; a negative one would make the next
-- subscription panic in `make`.
abbrev pub set_queue_capacity : ℕ → Bus → Bus
set_queue_capacity capacity bus = record bus { queue_capacity = capacity }

abbrev pub set_overflow_policy : OverflowPolicy → Bus → Bus
set_overflow_policy policy bus = record bus { overflow_policy = policy }

abbrev pub accepts : Event → Option Subscription → Bool
accepts ev none = false
accepts ev (some sub) = elim sub.predicate [ none ↦ true | some p ↦ p ev ]

unfoldable pub accepting : Event → List Subscription → List ℕ → List ℕ
accepting ev made [] = []
accepting ev made (at ∷ rest) =
    let others = accepting ev made rest in
    if accepts ev (get_elem? made at) then at ∷ others else others

-- `getMatchingSubscribers`.
unfoldable pub get_matching_subscribers : Event → List Subscription → Dict (List ℕ) → List ℕ
unfolding accepting
get_matching_subscribers ev made [] = []
get_matching_subscribers ev made ((pattern, subs) ∷ rest) =
    let others = get_matching_subscribers ev made rest in
    if match_topic pattern (topic ev) then accepting ev made subs ++ others else others
