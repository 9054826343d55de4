-- ===== src/Events/Bus/Sending.antt =====
-- Sending to the subscriptions (core/events/bus.go): where the dead letters come to an end, so does
-- the sending of an event.
use chukrun.Base.{
  ℕ, suc, ◌+◌, ◌≤◌, ◌≡◌, refl, ap, ◌∙◌, sym, subst, inl, inr, String, Bool, true, false, List, [],
  ◌∷◌, Option, none, some, length, length-append, get_elem?, modify, All, arith, tests, ltb,
  Bool-cases, Option-cases,
}
use chukrun.Events.Bus.{
  Event, Subscription, Delivery, delivered, send_on_closed, out_of_fuel, and_then, DeadLetters,
  push, set_queue, drop_head, send_or_dead, drop_and_send, send, enqueue, enqueue_all,
}
use chukrun.Events.Bus.Queues.{
  cost, queue_weight, weight, Fits, faces, IsOpen, policy-cases, queue_weight-append, weight-modify,
  faces-modify, Fits-modify, Fits-at, faces-at, flags_absent, open_of, spending,
}

-- The publication comes to an end, with no panic; at most `bound` events that may cause dead
-- letters are queued then; no subscription was opened or closed, and every queue fits.
abbrev pub Settles : ℕ → List (String × Bool) → Delivery → Type 0
Settles bound flags (delivered made) = (weight made ≤ bound) × (faces made ≡ flags) × Fits made
Settles bound flags send_on_closed = ⊥
Settles bound flags out_of_fuel = ⊥

pub Settles-le :
    (a b : ℕ) (flags : List (String × Bool)) (d : Delivery)
    → Settles a flags d
    → a ≤ b
    → Settles b flags d
Settles-le a b flags (delivered made) h le = (omega arith, h.1, h.2)
Settles-le a b flags send_on_closed h le = h
Settles-le a b flags out_of_fuel h le = h

pub Settles-and_then :
    (a b : ℕ) (flags : List (String × Bool)) (d : Delivery) (next : List Subscription → Delivery)
    → Settles a flags d
    → ((made : List Subscription)
        → weight made ≤ a
        → faces made ≡ flags
        → Fits made
        → Settles b flags (next made))
    → Settles b flags (and_then d next)
Settles-and_then a b flags (delivered made) next h k = k made h.0 h.1 h.2
Settles-and_then a b flags send_on_closed next h k = absurd h
Settles-and_then a b flags out_of_fuel next h k = absurd h

module _ (flags : List (String × Bool)) where
  -- Dead letters come to an end where at most `bound` more can be caused.
  abbrev pub Ends : ℕ → DeadLetters → Type 0
  Ends bound dead =
      (ev : Event) (at : ℕ) (reason err : String) (made : List Subscription)
      → weight made + cost ev ≤ bound
      → faces made ≡ flags
      → Fits made
      → Settles (weight made) flags (dead ev at reason err made)

  module _ (bound : ℕ) (dead : DeadLetters) (ends : Ends bound dead) where
    push-Settles :
        (ev : Event) (at : ℕ) (made : List Subscription) (sub : Subscription)
        → get_elem? made at ≡ some sub
        → ltb (length sub.queue) sub.capacity ≡ true
        → faces made ≡ flags
        → Fits made
        → Settles (weight made + cost ev) flags (delivered (modify at (push ev) made))
    push-Settles ev at made sub e room same fits = (
      omega (arith, weight-modify at (push ev) made e, queue_weight-append sub.queue (ev ∷ [])),
      faces-modify at (push ev) made (λ s. (refl, refl)) ∙ same,
      Fits-modify at (push ev) made e (omega (tests, length-append sub.queue (ev ∷ []))) fits,
    )

    send_or_dead-Settles :
        (why : String) (ev : Event) (at : ℕ) (made : List Subscription) (o : Option Subscription)
        → get_elem? made at ≡ o
        → weight made + cost ev ≤ bound
        → faces made ≡ flags
        → Fits made
        → Settles (weight made + cost ev) flags (send_or_dead dead why ev at made o)
    unfolding send_or_dead
    send_or_dead-Settles why ev at made none e le same fits = (omega arith, same, fits)
    send_or_dead-Settles why ev at made (some sub) e le same fits =
        elim (Bool-cases (ltb (length sub.queue) sub.capacity)) [
          | inl room ↦ rw room (push-Settles ev at made sub e room same fits)
          | inr full ↦
              rw full (Settles-le _ _ flags _ (ends ev at _ _ made le same fits) (omega arith))
        ]

    drop_head-Settles :
        (at : ℕ) (queue : List Event) (made : List Subscription) (sub : Subscription)
        → get_elem? made at ≡ some sub
        → sub.queue ≡ queue
        → weight made ≤ bound
        → faces made ≡ flags
        → Fits made
        → Settles (weight made) flags (drop_head dead at queue made)
    unfolding drop_head
    drop_head-Settles at [] made sub e is_queue le same fits = (omega arith, same, fits)
    drop_head-Settles at (oldest ∷ rest) made sub e is_queue le same fits =
        let lighter = weight-modify at (set_queue rest) made e in
        let weighs : queue_weight sub.queue ≡ cost oldest + queue_weight rest =
          ap queue_weight is_queue in
        let long : length sub.queue ≡ suc (length rest) = ap length is_queue in
        Settles-le _ _ flags _
          (ends oldest at _ _ (modify at (set_queue rest) made) (omega arith)
            (faces-modify at (set_queue rest) made (λ s. (refl, refl)) ∙ same)
            (Fits-modify at (set_queue rest) made e (omega (arith, Fits-at at made e fits)) fits))
          (omega arith)

    drop_and_send-Settles :
        (ev : Event) (at : ℕ) (sub : Subscription) (made : List Subscription)
        → get_elem? made at ≡ some sub
        → weight made + cost ev ≤ bound
        → faces made ≡ flags
        → Fits made
        → Settles (weight made + cost ev) flags (drop_and_send dead ev at sub made)
    unfolding drop_and_send
    drop_and_send-Settles ev at sub made e le same fits =
        elim (Bool-cases (ltb (length sub.queue) sub.capacity)) [
          | inl room ↦ rw room (push-Settles ev at made sub e room same fits)
          | inr full ↦ rw full (
              Settles-and_then (weight made) _ flags _ _
                (drop_head-Settles at sub.queue made sub e refl (omega arith) same fits)
                (λ made' le' same' fits'.
                  Settles-le _ _ flags _
                    (send_or_dead-Settles _ ev at made' _ refl (omega arith) same' fits')
                    (omega arith)))
        ]

    send-Settles :
        (ev : Event) (at : ℕ) (made : List Subscription) (sub : Subscription)
        → get_elem? made at ≡ some sub
        → sub.closed ≡ false
        → weight made + cost ev ≤ bound
        → faces made ≡ flags
        → Fits made
        → Settles (weight made + cost ev) flags (send dead ev at made (some sub))
    unfolding send
    send-Settles ev at made sub e is_open le same fits = elim (policy-cases sub.policy) [
      | inl newest ↦
          rw (is_open, newest) (send_or_dead-Settles _ ev at made (some sub) e le same fits)
      | inr oldest ↦ rw (is_open, oldest) (drop_and_send-Settles ev at sub made e le same fits)
    ]

    open-sub :
        (at : ℕ) (made : List Subscription)
        → IsOpen (faces made) at
        → (sub : Subscription) × (get_elem? made at ≡ some sub) × (sub.closed ≡ false)
    open-sub at made is_open = elim (Option-cases (get_elem? made at)) [
      | inl absent ↦ absurd (flags_absent at made absent is_open)
      | inr (sub, e) ↦ (sub, e, open_of sub is_open.1 (faces-at at made e))
    ]

    enqueue-Settles :
        (ev : Event) (at : ℕ) (made : List Subscription)
        → IsOpen flags at
        → weight made + cost ev ≤ bound
        → faces made ≡ flags
        → Fits made
        → Settles (weight made + cost ev) flags (enqueue dead ev at made)
    unfolding enqueue
    enqueue-Settles ev at made is_open le same fits =
        let (sub, e, not_closed) =
          open-sub at made (subst (λ fs. IsOpen fs at) (sym same) is_open) in
        rw e (send-Settles ev at made sub e not_closed le same fits)

    pub enqueue_all-Settles :
        (ev : Event) (ats : List ℕ) (made : List Subscription)
        → All (IsOpen flags) ats
        → weight made + spending ev ats ≤ bound
        → faces made ≡ flags
        → Fits made
        → Settles (weight made + spending ev ats) flags (enqueue_all dead ev ats made)
    unfolding enqueue_all spending
    enqueue_all-Settles ev [] made all_open le same fits = (omega arith, same, fits)
    enqueue_all-Settles ev (at ∷ rest) made all_open le same fits =
        Settles-and_then (weight made + cost ev) _ flags _ _
          (enqueue-Settles ev at made all_open.0 (omega arith) same fits)
          (λ made' le' same' fits'.
            Settles-le _ _ flags _
              (enqueue_all-Settles ev rest made' all_open.1 (omega arith) same' fits')
              (omega arith))
