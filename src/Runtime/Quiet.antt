-- ===== src/Runtime/Quiet.antt =====
-- The runtime's own publications (core/runtime.go) while its bus has no subscriptions: the runtime
-- hands its bus to the engine only, which subscribes nothing.
use chukrun.Base.{ℕ, ◌≡◌, refl, ◌∙◌, ap, sym, inl, inr, String, [], Option, none, some, Bool-cases}
use chukrun.Errors.{is_nil}
use chukrun.Events.Bus.{
  Bus, Clock, Event, Payload, delivered, DeadLetters, publish_with, publish, enqueue_all,
  get_matching_subscribers, new_in_process_event_bus, dead_letter, normalize, topic,
}
use chukrun.Events.Topics.{validate_topic}
use chukrun.Runtime.Defs.{CoreRuntime, Host, goes_on, panicked}
use chukrun.Runtime.Boot.{announce, delivery_on, runtime_event}

-- Nothing has subscribed to the bus.
abbrev pub IsQuiet : Bus → Type 0
IsQuiet bus = bus.subscribers ≡ []

pub new-IsQuiet : IsQuiet new_in_process_event_bus
unfolding new_in_process_event_bus
new-IsQuiet = refl

delivery_quiet :
    (dead : DeadLetters) (clock : Clock) (bus : Bus) (trace : Option String) (ev : Event)
    → IsQuiet bus
    → (publish_with dead clock bus trace ev bus.made).1 ≡ delivered bus.made
unfolding publish_with get_matching_subscribers enqueue_all
delivery_quiet dead clock bus trace ev quiet =
    let ev' = normalize clock ev in
    elim (Bool-cases (is_nil (validate_topic (topic ev') bus.rules))) [
      | inl known ↦ rw (known, quiet) refl
      | inr unknown ↦ rw unknown refl
    ]

module _ {P S L T : Type 0} where
  announced :
      (h : Host) (n : ℕ) (ty : String) (payload : Payload) (r : CoreRuntime P S L T) (bus : Bus)
      → r.events ≡ some bus
      → announce h n ty payload r
        ≡ delivery_on r bus (publish (h.clock n) h.fuel none (runtime_event h n ty payload) bus).1
  unfolding announce
  announced h n ty payload r bus there = rw there refl

  pub announce_quiet :
      (h : Host) (n : ℕ) (ty : String) (payload : Payload) (r : CoreRuntime P S L T) (bus : Bus)
      → r.events ≡ some bus
      → IsQuiet bus
      → announce h n ty payload r ≡ goes_on r
  unfolding announce publish
  announce_quiet h n ty payload r bus there quiet =
      let sent =
        delivery_quiet (dead_letter (h.clock n) bus h.fuel) (h.clock n) bus none
          (runtime_event h n ty payload) quiet in
      announced h n ty payload r bus there
      ∙ ap (delivery_on r bus) sent
      ∙ ap (λ e. goes_on (record r { events = e })) (sym there)

  -- Without a bus the publication panics.
  pub announce_nil :
      (h : Host) (n : ℕ) (ty : String) (payload : Payload) (r : CoreRuntime P S L T)
      → r.events ≡ none
      → announce h n ty payload r ≡ panicked "nil pointer dereference" r
  unfolding announce
  announce_nil h n ty payload r no_bus = rw no_bus refl
