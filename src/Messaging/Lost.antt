-- ===== src/Messaging/Lost.antt =====
-- The relay of messaging/outbox.py to a queue that raises.
use expense_settlement_engin.Common.{ℕ, ◌≡◌, refl, inl, inr, List, [], ◌∷◌, Option-cases}
use expense_settlement_engin.Messaging.{
  EventType, Payload, OutboxEvent, Outbox, Put, refused, event_at, relay_loop, relay_all_pending,
}

module _ {Q : Type 0} where
  -- A queue that raises on every call.
  abbrev pub broken : ℕ → EventType → Payload → Q → Put Q
  broken n t p q = refused

  loop_broken :
      (count : ℕ) (pending : List ℕ) (events : List OutboxEvent) (q : Q)
      → relay_loop broken count pending events q
        ≡ record { count = count; outbox = record { events = events; pending = [] }; queue = q }
  unfolding relay_loop
  loop_broken count [] events q = refl
  loop_broken count (i ∷ pending) events q = elim (Option-cases (event_at i events)) [
    | inl missing ↦ rw (missing, relay_loop) (loop_broken count pending events q)
    | inr (e, found) ↦ rw (found, relay_loop) (loop_broken count pending events q)
  ]

  -- A relay to a queue that raises publishes nothing and keeps nothing pending: the events are not
  -- marked, and no later relay publishes them, whatever its queue does.
  pub refused_events_are_lost :
      (outbox : Outbox) (q : Q) (publish_later : ℕ → EventType → Payload → Q → Put Q)
      → let r = relay_all_pending broken outbox q in
        let later = relay_all_pending publish_later r.outbox q in
        (r.count ≡ 0)
        × (r.outbox.events ≡ outbox.events)
        × (later.count ≡ 0)
        × (later.queue ≡ q)
        × (later.outbox ≡ r.outbox)
  unfolding relay_all_pending relay_loop
  refused_events_are_lost outbox q publish_later =
      rw (loop_broken 0 outbox.pending outbox.events q) (refl, refl, refl, refl, refl)
