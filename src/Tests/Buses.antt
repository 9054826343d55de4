-- ===== src/Tests/Buses.antt =====
-- The event bus at concrete inputs: a subscriber of every topic with room for one event.
use chukrun.Base.{ℕ, ◌+◌, ◌≤◌, ◌≡◌, refl, String, false, List, [], ◌∷◌, none, arith}
use chukrun.Base.Int.{pos}
use chukrun.Execution.Types.{text}
use chukrun.Base.Dict.{lookup}
use chukrun.Base.Text.{split}
use chukrun.Events.Topics.{is_canonical, validate_topic, new_rules, match_topic}
use chukrun.Events.Bus.{
  Event, event, value, topic, Clock, normalize, HandlerResult, failed, drop_oldest, Subscription,
  Bus, new_in_process_event_bus, set_queue_capacity, Delivery, delivered, send_on_closed,
  dead_letter, enqueue, publish, subscribe_filtered, unsubscribe, get_matching_subscribers,
}
use chukrun.Events.Bus.Queues.{weight, registered}
use chukrun.Events.Bus.Publishing.{Sound, publish_ends}
use chukrun.Events.Bus.Reaching.{
  subscribing, setting_capacity, new, after, IsBus, Reached-IsBus, enqueue-unsubscribe,
}

abbrev clock : Clock
clock = record { now = pos 5; fresh_id = "evt-5" }

abbrev failing : ℕ → Event → HandlerResult
failing number ev = failed "no"

abbrev started : String → Event
started source = event "execution.started" "" "" none (value (text "e")) "" source

-- The subscriber's queue holds one event already.
abbrev watcher : Subscription
watcher = record {
  pattern = "*";
  predicate = none;
  handler = failing;
  queue = started "first" ∷ [];
  capacity = 1;
  policy = drop_oldest;
  closed = false;
}

abbrev full_bus : Bus
full_bus = record {
  rules = new_rules;
  subscribers = ("*", 0 ∷ []) ∷ [];
  made = watcher ∷ [];
  queue_capacity = 1;
  overflow_policy = drop_oldest;
}

full_bus-Sound : Sound full_bus
full_bus-Sound = (((("*", refl), tt), tt), (omega arith, tt))

publish_ends_example :
    (made : List Subscription) × (publish clock 2 none (started "second") full_bus
      ≡ (validate_topic (topic (normalize clock (started "second"))) new_rules, delivered made))
    × (weight made ≤ weight full_bus.made + registered full_bus.subscribers)
    × Sound (record full_bus { made = made })
unfolding weight
publish_ends_example =
    publish_ends clock 2 none (started "second") full_bus full_bus-Sound (omega arith)

-- The bus after a new capacity and one subscription.
abbrev small_bus : Bus
small_bus = (subscribe_filtered "*" none failing (set_queue_capacity 1 new_in_process_event_bus)).0

Reached-IsBus_example : IsBus small_bus
Reached-IsBus_example =
    Reached-IsBus (after (after new (setting_capacity 1 _)) (subscribing "*" none failing _))

enqueue-unsubscribe_example :
    enqueue (dead_letter clock full_bus 3) (started "second") 0 (Bus.made (unsubscribe 0 full_bus))
    ≡ send_on_closed
enqueue-unsubscribe_example =
    enqueue-unsubscribe (dead_letter clock full_bus 3) (started "second") 0 full_bus watcher refl
      refl

abbrev topics : List Event → List String
topics [] = []
topics (ev ∷ evs) = topic ev ∷ topics evs

abbrev queued_topics : Delivery → List String
queued_topics (delivered (sub ∷ rest)) = topics sub.queue
queued_topics _ = []

-- The oldest event is dropped, its dead letter takes the place, and so the new event is dropped as
-- well, for its own dead letter.
new_event_lost :
    queued_topics (publish clock 3 none (started "second") full_bus).1 ≡ "eventbus.dead_letter" ∷ []
unfolding publish validate_topic lookup new_rules split is_canonical get_matching_subscribers
    match_topic
new_event_lost = refl
