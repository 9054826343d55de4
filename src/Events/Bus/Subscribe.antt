-- ===== src/Events/Bus/Subscribe.antt =====
-- core/events/bus.go: `SubscribeFiltered`, the function that it returns, and the subscribers' loops.
use chukrun.Base.{
  ℕ, zero, suc, String, Bool, true, false, List, [], ◌∷◌, ◌++◌, Option, none, some, length,
  get_elem?, modify, ◌==◌, if◌then◌else◌,
}
use chukrun.Base.Dict.{lookup, insert}
use chukrun.Base.Text.{◌<>◌}
use chukrun.Events.Bus.Defs.{
  Bus, Clock, Event, HandlerResult, Subscription, handled, failed, panicked,
}
use chukrun.Events.Bus.Publish.{Delivery, dead_letter, set_queue, delivered}

abbrev pub or_no_subs : Option (List ℕ) → List ℕ
or_no_subs none = []
or_no_subs (some subs) = subs

abbrev pub new_subscription :
    String → Option (Event → Bool) → (ℕ → Event → HandlerResult) → Bus → Subscription
new_subscription pattern predicate handler bus = record {
  pattern = pattern;
  predicate = predicate;
  handler = handler;
  queue = [];
  capacity = bus.queue_capacity;
  policy = bus.overflow_policy;
  closed = false;
}

-- `SubscribeFiltered`, and `Subscribe` with no predicate: the bus and the new subscription.
unfoldable pub subscribe_filtered :
    String → Option (Event → Bool) → (ℕ → Event → HandlerResult) → Bus → Bus × ℕ
subscribe_filtered pattern predicate handler bus =
    let at = length bus.made in
    (
      record bus {
        subscribers =
            insert pattern (or_no_subs (lookup pattern bus.subscribers) ++ at ∷ []) bus.subscribers;
        made = bus.made ++ new_subscription pattern predicate handler bus ∷ [];
      },
      at,
    )

abbrev pub subscribe : String → (ℕ → Event → HandlerResult) → Bus → Bus × ℕ
subscribe pattern handler = subscribe_filtered pattern none handler

-- `append(subs[:i], subs[i+1:]...)` at the first subscription of the id.
unfoldable pub without_first : ℕ → List ℕ → List ℕ
without_first at [] = []
without_first at (sub ∷ rest) =
    let others = without_first at rest in if sub == at then rest else sub ∷ others

unfoldable pub close_and_remove : ℕ → Option Subscription → Bus → Bus
unfolding without_first
close_and_remove at none bus = bus
close_and_remove at (some sub) bus = if sub.closed then bus else record bus {
  subscribers =
      insert sub.pattern (without_first at (or_no_subs (lookup sub.pattern bus.subscribers)))
        bus.subscribers;
  made = modify at (λ s. record s { closed = true }) bus.made;
}

-- The function that `SubscribeFiltered` returns; it runs once.
unfoldable pub unsubscribe : ℕ → Bus → Bus
unfolding close_and_remove
unsubscribe at bus = close_and_remove at (get_elem? bus.made at) bus

-- The loop of `handleWithRecovery`: nothing, or the reason and the error of a dead letter.
unfoldable pub attempts : ℕ → ℕ → String → (ℕ → HandlerResult) → Option (String × String)
attempts zero number last call = some ("handler_error", last)
attempts (suc left) number last call = elim (call number) [
  | handled ↦ none
  | failed message ↦ attempts left (suc number) message call
  | panicked message ↦ some ("handler_panic", "handler panic: " <> message)
]

unfoldable pub settle :
    Clock → ℕ → Bus → Event → ℕ → Option (String × String) → List Subscription → Delivery
settle clock fuel bus ev at none made = delivered made
settle clock fuel bus ev at (some (reason, err)) made =
    dead_letter clock bus fuel ev at reason err made

-- `handleWithRecovery`.
unfoldable pub handle_with_recovery :
    Clock → ℕ → Bus → Event → ℕ → Subscription → List Subscription → Delivery
unfolding attempts settle
handle_with_recovery clock fuel bus ev at sub made =
    settle clock fuel bus ev at (attempts 3 0 "" (λ number. sub.handler number ev)) made

unfoldable pub receive_from :
    Clock → ℕ → Bus → ℕ → Subscription → List Event → List Subscription → Delivery
unfolding handle_with_recovery
receive_from clock fuel bus at sub [] made = delivered made
receive_from clock fuel bus at sub (ev ∷ rest) made =
    handle_with_recovery clock fuel bus ev at sub (modify at (set_queue rest) made)

unfoldable pub receive_at : Clock → ℕ → Bus → ℕ → Option Subscription → Delivery
unfolding receive_from
receive_at clock fuel bus at none = delivered bus.made
receive_at clock fuel bus at (some sub) = receive_from clock fuel bus at sub sub.queue bus.made

-- A round of the loop of `start`: the next event leaves the queue and is handled.
unfoldable pub receive : Clock → ℕ → ℕ → Bus → Delivery
unfolding receive_at
receive clock fuel at bus = receive_at clock fuel bus at (get_elem? bus.made at)
