-- ===== src/Events/Bus/Publishing.antt =====
-- Publishing on the bus (core/events/bus.go): it comes to an end, and what it keeps.
use chukrun.Base.{
  ℕ, zero, suc, ◌+◌, ◌≤◌, ◌≡◌, refl, ap, sym, subst, inl, inr, String, Bool, true, List, [], ◌∷◌,
  Option, none, some, length, get_elem?, modify, arith, str_eq, Bool-cases,
}
use chukrun.Errors.{GoError, nil, platform_error, plain_error, is_nil}
use chukrun.Events.Topics.{validate_topic}
use chukrun.Events.Bus.{
  Event, topic, dead_letter_topic, Clock, normalize, traced, Subscription, Bus,
  get_matching_subscribers, Delivery, delivered, send_on_closed, out_of_fuel, DeadLetters,
  set_queue, publish_with, dead_letter_event, dead_letter, publish, settle, attempts,
  handle_with_recovery, receive_from, receive_at, receive,
}
use chukrun.Events.Bus.Queues.{
  cost, queue_weight, weight, Fits, faces, weight-modify, faces-modify, Fits-modify, Fits-at,
  spending, free_spending, spending-le-length, OpenIn, registered, matching-IsOpen,
  matching-le-registered,
}
use chukrun.Events.Bus.Sending.{Settles, Settles-le, Ends, enqueue_all-Settles}

module _ (flags : List (String × Bool)) where
  publish_with-Settles :
      (bound : ℕ) (dead : DeadLetters)
      → Ends flags bound dead
      → (clock : Clock) (bus : Bus) (trace : Option String) (ev : Event) (made : List Subscription)
      → OpenIn flags bus.subscribers
      → (let sent = traced trace (normalize clock ev) in
          weight made + spending sent (get_matching_subscribers sent made bus.subscribers) ≤ bound)
      → faces made ≡ flags
      → Fits made
      → Settles
          (let sent = traced trace (normalize clock ev) in
            weight made + spending sent (get_matching_subscribers sent made bus.subscribers))
          flags
          (publish_with dead clock bus trace ev made).1
  unfolding publish_with
  publish_with-Settles bound dead ends clock bus trace ev made all_open le same fits =
      elim (Bool-cases (is_nil (validate_topic (topic (normalize clock ev)) bus.rules))) [
        | inl valid ↦ rw valid (
            enqueue_all-Settles flags bound dead ends (traced trace (normalize clock ev)) _ made
              (matching-IsOpen flags (traced trace (normalize clock ev)) made bus.subscribers
                all_open)
              le same fits)
        | inr invalid ↦ rw invalid (omega arith, same, fits)
      ]

  dead_letter-Ends :
      (clock : Clock) (bus : Bus) (fuel : ℕ)
      → OpenIn flags bus.subscribers
      → Ends flags fuel (dead_letter clock bus fuel)
  unfolding dead_letter
  dead_letter-Ends clock bus zero all_open ev at reason err made le same fits =
      elim (Bool-cases (str_eq (topic ev) dead_letter_topic)) [
        | inl dead ↦ rw dead (omega arith, same, fits)
        | inr live ↦ absurd (ground (arith, live))
      ]
  dead_letter-Ends clock bus (suc fuel) all_open ev at reason err made le same fits =
      elim (Bool-cases (str_eq (topic ev) dead_letter_topic)) [
        | inl dead ↦ rw dead (omega arith, same, fits)
        | inr live ↦
            let costs : cost ev ≡ 1 = rw live refl in
            let sent = traced none (normalize clock (dead_letter_event clock ev at reason err)) in
            let free =
              free_spending sent refl (get_matching_subscribers sent made bus.subscribers) in
            rw live (
              Settles-le _ _ flags _
                (publish_with-Settles fuel (dead_letter clock bus fuel)
                  (dead_letter-Ends clock bus fuel all_open) clock bus none
                  (dead_letter_event clock ev at reason err) made all_open (omega arith) same fits)
                (omega arith))
      ]

-- The subscriptions in the map are open, and the queues fit.
abbrev pub Sound : Bus → Type 0
Sound bus = OpenIn (faces bus.made) bus.subscribers × Fits bus.made

pub settled :
    (bound : ℕ) (flags : List (String × Bool)) (d : Delivery)
    → Settles bound flags d
    → (made : List Subscription) × (d ≡ delivered made)
      × ((weight made ≤ bound) × (faces made ≡ flags) × Fits made)
settled bound flags (delivered made) h = (made, refl, h)
settled bound flags send_on_closed h = absurd h
settled bound flags out_of_fuel h = absurd h

is_nil-eq : (err : GoError) → is_nil err ≡ true → nil ≡ err
is_nil-eq nil e = refl
is_nil-eq (platform_error category message retryable cause) e = cc
is_nil-eq (plain_error message) e = cc

publish_error :
    (clock : Clock) (fuel : ℕ) (trace : Option String) (ev : Event) (bus : Bus)
    → (publish clock fuel trace ev bus).0 ≡ validate_topic (topic (normalize clock ev)) bus.rules
unfolding publish publish_with
publish_error clock fuel trace ev bus =
    let err = validate_topic (topic (normalize clock ev)) bus.rules in
    elim (Bool-cases (is_nil err)) [
      | inl valid ↦ rw valid (is_nil-eq err valid)
      | inr invalid ↦ rw invalid refl
    ]

pair_eq :
    (p : GoError × Delivery) (err : GoError) (d : Delivery) → p.0 ≡ err → p.1 ≡ d → p ≡ (err, d)
pair_eq p err d e e' = cc

pub publish-Settles :
    (clock : Clock) (fuel : ℕ) (trace : Option String) (ev : Event) (bus : Bus)
    → Sound bus
    → weight bus.made + registered bus.subscribers ≤ fuel
    → Settles
        (weight bus.made + registered bus.subscribers)
        (faces bus.made)
        (publish clock fuel trace ev bus).1
unfolding publish
publish-Settles clock fuel trace ev bus (opens, fits) le =
    let flags = faces bus.made in
    let sent = traced trace (normalize clock ev) in
    let few = spending-le-length sent (get_matching_subscribers sent bus.made bus.subscribers) in
    let found = matching-le-registered flags sent bus.made bus.subscribers opens in
    Settles-le
      (weight bus.made + spending sent (get_matching_subscribers sent bus.made bus.subscribers)) _
      flags (publish_with (dead_letter clock bus fuel) clock bus trace ev bus.made).1
      (publish_with-Settles flags fuel (dead_letter clock bus fuel)
        (dead_letter-Ends flags clock bus fuel opens) clock bus trace ev bus.made opens
        (omega arith) refl fits)
      (omega arith)

-- On a bus whose registered subscriptions are open and whose queues fit, a publication comes to an
-- end and does not panic, whatever dead letters it causes, on fuel for every queued event that is
-- not a dead letter and every registered subscription. Its error is that of the check of the
-- topic, and afterwards the same holds of the bus.
pub publish_ends :
    (clock : Clock) (fuel : ℕ) (trace : Option String) (ev : Event) (bus : Bus)
    → Sound bus
    → weight bus.made + registered bus.subscribers ≤ fuel
    → (made : List Subscription) × (publish clock fuel trace ev bus
        ≡ (validate_topic (topic (normalize clock ev)) bus.rules, delivered made))
      × (weight made ≤ weight bus.made + registered bus.subscribers)
      × Sound (record bus { made = made })
publish_ends clock fuel trace ev bus sound le =
    let (made, is_delivered, (weighs, same, fits)) =
      settled _ (faces bus.made) _ (publish-Settles clock fuel trace ev bus sound le) in
    (
      made,
      pair_eq _ _ _ (publish_error clock fuel trace ev bus) is_delivered,
      weighs,
      (subst (λ fs. OpenIn fs bus.subscribers) (sym same) sound.0, fits),
    )

settle-Settles :
    (clock : Clock) (fuel : ℕ) (bus : Bus) (ev : Event) (at : ℕ) (o : Option (String × String))
    (made : List Subscription)
    → OpenIn (faces made) bus.subscribers
    → Fits made
    → weight made + cost ev ≤ fuel
    → Settles (weight made) (faces made) (settle clock fuel bus ev at o made)
unfolding settle
settle-Settles clock fuel bus ev at none made opens fits le = (omega arith, refl, fits)
settle-Settles clock fuel bus ev at (some (reason, err)) made opens fits le =
    dead_letter-Ends (faces made) clock bus fuel opens ev at reason err made le refl fits

receive_from-Settles :
    (clock : Clock) (fuel : ℕ) (bus : Bus) (at : ℕ) (sub : Subscription) (queue : List Event)
    → OpenIn (faces bus.made) bus.subscribers
    → Fits bus.made
    → get_elem? bus.made at ≡ some sub
    → sub.queue ≡ queue
    → weight bus.made ≤ fuel
    → Settles (weight bus.made) (faces bus.made) (receive_from clock fuel bus at sub queue bus.made)
unfolding receive_from handle_with_recovery
receive_from-Settles clock fuel bus at sub [] opens fits e is_queue le = (omega arith, refl, fits)
receive_from-Settles clock fuel bus at sub (ev ∷ rest) opens fits e is_queue le =
    let made = modify at (set_queue rest) bus.made in
    let same : faces made ≡ faces bus.made =
      faces-modify at (set_queue rest) bus.made (λ s. (refl, refl)) in
    let lighter = weight-modify at (set_queue rest) bus.made e in
    let weighs : queue_weight sub.queue ≡ cost ev + queue_weight rest = ap queue_weight is_queue in
    let long : length sub.queue ≡ suc (length rest) = ap length is_queue in
    subst
      (λ fs.
        Settles (weight bus.made) fs
          (settle clock fuel bus ev at (attempts 3 0 "" (λ number. sub.handler number ev)) made))
      same
      (Settles-le (weight made) (weight bus.made) (faces made)
        (settle clock fuel bus ev at (attempts 3 0 "" (λ number. sub.handler number ev)) made)
        (settle-Settles clock fuel bus ev at (attempts 3 0 "" (λ number. sub.handler number ev))
          made (subst (λ fs. OpenIn fs bus.subscribers) (sym same) opens)
          (Fits-modify at (set_queue rest) bus.made e (omega (arith, Fits-at at bus.made e fits))
            fits)
          (omega arith))
        (omega arith))

receive_at-Settles :
    (clock : Clock) (fuel at : ℕ) (bus : Bus) (o : Option Subscription)
    → get_elem? bus.made at ≡ o
    → Sound bus
    → weight bus.made ≤ fuel
    → Settles (weight bus.made) (faces bus.made) (receive_at clock fuel bus at o)
unfolding receive_at
receive_at-Settles clock fuel at bus none e (opens, fits) le = (omega arith, refl, fits)
receive_at-Settles clock fuel at bus (some sub) e (opens, fits) le =
    receive_from-Settles clock fuel bus at sub sub.queue opens fits e refl le

-- A round of a subscriber's loop comes to an end and does not panic, on fuel for the queued events
-- that are not dead letters: the event that it takes weighs no less than what it may cause.
pub receive-Settles :
    (clock : Clock) (fuel at : ℕ) (bus : Bus)
    → Sound bus
    → weight bus.made ≤ fuel
    → Settles (weight bus.made) (faces bus.made) (receive clock fuel at bus)
unfolding receive
receive-Settles clock fuel at bus = receive_at-Settles clock fuel at bus _ refl
