-- ===== src/Events/Bus/Publish.antt =====
-- core/events/bus.go: `Publish`, `enqueue` and `deadLetter`.
use chukrun.Base.{
  ℕ, zero, suc, String, List, [], ◌∷◌, ◌++◌, Option, none, some, length, get_elem?, modify, str_eq,
  ltb, if◌then◌else◌,
}
use chukrun.Errors.{GoError, nil, is_nil}
use chukrun.Events.Topics.{validate_topic}
use chukrun.Events.Bus.Defs.{
  Bus, Clock, Event, Subscription, dead_letter_topic, get_matching_subscribers, normalize, topic,
  traced, event, dead_letter_entry, drop_oldest, drop_newest,
}

-- What a publication leaves: the subscriptions, a panic of the sender, or no fuel.
pub data Delivery : Type 0 where
  delivered : List Subscription → Delivery
  send_on_closed : Delivery
  out_of_fuel : Delivery

abbrev pub and_then : Delivery → (List Subscription → Delivery) → Delivery
and_then (delivered made) next = next made
and_then send_on_closed next = send_on_closed
and_then out_of_fuel next = out_of_fuel

-- `deadLetter`, of an event, a subscriber, a reason and an error.
abbrev pub DeadLetters : Type 0
DeadLetters = Event → ℕ → String → String → List Subscription → Delivery

abbrev pub push : Event → Subscription → Subscription
push ev sub = record sub { queue = sub.queue ++ ev ∷ [] }

abbrev pub set_queue : List Event → Subscription → Subscription
set_queue queue sub = record sub { queue = queue }

abbrev pub overflow_reason : String
overflow_reason = "queue_overflow"

module _ (dead : DeadLetters) where
  -- The oldest event leaves the queue, if there is one.
  unfoldable pub drop_head : ℕ → List Event → List Subscription → Delivery
  drop_head at [] made = delivered made
  drop_head at (oldest ∷ rest) made =
      dead oldest at overflow_reason "queue overflow, oldest dropped"
        (modify at (set_queue rest) made)

  -- A send that does not wait, and the dead letter when the queue is full.
  unfoldable pub send_or_dead :
      String → Event → ℕ → List Subscription → Option Subscription → Delivery
  send_or_dead why ev at made none = delivered made
  send_or_dead why ev at made (some sub) =
      if ltb (length sub.queue) sub.capacity
      then delivered (modify at (push ev) made)
      else dead ev at overflow_reason why made

  unfoldable pub drop_and_send : Event → ℕ → Subscription → List Subscription → Delivery
  unfolding drop_head send_or_dead
  drop_and_send ev at sub made =
      if ltb (length sub.queue) sub.capacity
      then delivered (modify at (push ev) made)
      else and_then (drop_head at sub.queue made)
          (λ made'. send_or_dead "queue is full after drop_oldest" ev at made' (get_elem? made' at))

  unfoldable pub send : Event → ℕ → List Subscription → Option Subscription → Delivery
  unfolding drop_and_send send_or_dead
  send ev at made none = delivered made
  send ev at made (some sub) = if sub.closed then send_on_closed else elim sub.policy [
    | drop_newest ↦ send_or_dead "queue is full (drop_newest)" ev at made (some sub)
    | drop_oldest ↦ drop_and_send ev at sub made
  ]

  -- `enqueue`.
  unfoldable pub enqueue : Event → ℕ → List Subscription → Delivery
  unfolding send
  enqueue ev at made = send ev at made (get_elem? made at)

  -- The loop of `Publish`.
  unfoldable pub enqueue_all : Event → List ℕ → List Subscription → Delivery
  unfolding enqueue
  enqueue_all ev [] made = delivered made
  enqueue_all ev (at ∷ rest) made = and_then (enqueue ev at made) (enqueue_all ev rest)

  -- The body of `Publish`, given the trace of the context.
  unfoldable pub publish_with :
      Clock → Bus → Option String → Event → List Subscription → GoError × Delivery
  unfolding enqueue_all traced normalize
  publish_with clock bus trace ev made =
      let ev' = normalize clock ev in
      let err = validate_topic (topic ev') bus.rules in
      if is_nil err
      then (
        nil,
        enqueue_all (traced trace ev')
            (get_matching_subscribers (traced trace ev') made bus.subscribers) made,
      )
      else (err, delivered made)

abbrev pub dead_letter_event : Clock → Event → ℕ → String → String → Event
dead_letter_event clock ev at reason err =
    event dead_letter_topic "" "" (some clock.now) (dead_letter_entry ev at reason err clock.now) ""
      ""

-- `deadLetter`: the error of the publication is dropped.
unfoldable pub dead_letter : Clock → Bus → ℕ → DeadLetters
unfolding publish_with
dead_letter clock bus zero ev at reason err made =
    if str_eq (topic ev) dead_letter_topic then delivered made else out_of_fuel
dead_letter clock bus (suc fuel) ev at reason err made =
    let published =
      (publish_with (dead_letter clock bus fuel) clock bus none
        (dead_letter_event clock ev at reason err) made).1 in
    if str_eq (topic ev) dead_letter_topic then delivered made else published

-- `Publish`.
unfoldable pub publish : Clock → ℕ → Option String → Event → Bus → GoError × Delivery
unfolding dead_letter
publish clock fuel trace ev bus =
    publish_with (dead_letter clock bus fuel) clock bus trace ev bus.made
