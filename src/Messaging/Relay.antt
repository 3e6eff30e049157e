-- ===== src/Messaging/Relay.antt =====
-- The relay of messaging/outbox.py to the in-memory queue of messaging/queue.py.
use expense_settlement_engin.Common.{
  ℕ, zero, suc, ◌+◌, ◌≤◌, ◌<◌, ◌≡◌, refl, sym, ap, ◌∙◌, subst, Bool, true, false, Option, none,
  some, List, [], ◌∷◌, ◌++◌, map, String, arith, length, length-append, lt→ltb, All, All-map,
}
use mathlib.Core.List.{map-append, append-nil, append_assoc}
use expense_settlement_engin.Messaging.{
  EventType, Payload, OutboxEvent, Outbox, Message, InMemoryQueue, queue_capacity, Put, put,
  publish, put_message, event_at, mark_published, Relayed, relay_loop, relay_all_pending,
}

-- What is pending is a position of an event.
abbrev pub ArePositions : List OutboxEvent → List ℕ → Type 0
ArePositions events pending = All (λ i. i < length events) pending

unfoldable pub payload_at : Option OutboxEvent → Option Payload
payload_at none = none
payload_at (some e) = some e.payload

unfoldable pub with_payload : Option Payload → List Payload → List Payload
with_payload none rest = rest
with_payload (some p) rest = p ∷ rest

-- What the events at the positions would tell a consumer, in order.
unfoldable pub pending_payloads : List OutboxEvent → List ℕ → List Payload
pending_payloads events [] = []
pending_payloads events (i ∷ pending) =
    with_payload (payload_at (event_at i events)) (pending_payloads events pending)

abbrev pub payloads : List Message → List Payload
payloads messages = map (λ m. m.payload) messages

-- What all the events tell, in order.
unfoldable pub all_payloads : List OutboxEvent → List Payload
all_payloads [] = []
all_payloads (e ∷ events) = e.payload ∷ all_payloads events

pub mark_published-all_payloads :
    (i : ℕ) (events : List OutboxEvent)
    → all_payloads (mark_published i events) ≡ all_payloads events
unfolding mark_published all_payloads
mark_published-all_payloads i [] = refl
mark_published-all_payloads zero (e ∷ events) = refl
mark_published-all_payloads (suc i) (e ∷ events) =
    ap (λ l. e.payload ∷ l) (mark_published-all_payloads i events)

pub event_at_found :
    (i : ℕ) (events : List OutboxEvent)
    → i < length events
    → (e : OutboxEvent) × (event_at i events ≡ some e)
unfolding event_at
event_at_found i [] lt = absurd (omega arith)
event_at_found zero (e ∷ events) lt = (e, refl)
event_at_found (suc i) (e ∷ events) lt = event_at_found i events (omega arith)

pub length-mark_published :
    (i : ℕ) (events : List OutboxEvent) → length (mark_published i events) ≡ length events
unfolding mark_published
length-mark_published i [] = refl
length-mark_published zero (e ∷ events) = refl
length-mark_published (suc i) (e ∷ events) = ap suc (length-mark_published i events)

-- Marking an event changes no payload.
payload_at-mark_published :
    (i j : ℕ) (events : List OutboxEvent)
    → payload_at (event_at j (mark_published i events)) ≡ payload_at (event_at j events)
unfolding event_at mark_published payload_at
payload_at-mark_published i j [] = refl
payload_at-mark_published zero zero (e ∷ events) = refl
payload_at-mark_published zero (suc j) (e ∷ events) = refl
payload_at-mark_published (suc i) zero (e ∷ events) = refl
payload_at-mark_published (suc i) (suc j) (e ∷ events) = payload_at-mark_published i j events

pub pending_payloads-mark_published :
    (i : ℕ) (events : List OutboxEvent) (pending : List ℕ)
    → pending_payloads (mark_published i events) pending ≡ pending_payloads events pending
unfolding pending_payloads
pending_payloads-mark_published i events [] = refl
pending_payloads-mark_published i events (j ∷ pending) =
    rw (payload_at-mark_published i j events, pending_payloads-mark_published i events pending)

unfoldable pub is_published_at : Option OutboxEvent → Bool
is_published_at none = false
is_published_at (some e) = e.is_published

-- The event at the position is marked as published.
abbrev pub IsPublished : List OutboxEvent → ℕ → Type 0
IsPublished events i = is_published_at (event_at i events) ≡ true

mark_published-IsPublished :
    (i : ℕ) (events : List OutboxEvent)
    → i < length events
    → IsPublished (mark_published i events) i
unfolding is_published_at event_at mark_published
mark_published-IsPublished i [] lt = absurd (omega arith)
mark_published-IsPublished zero (e ∷ events) lt = refl
mark_published-IsPublished (suc i) (e ∷ events) lt =
    mark_published-IsPublished i events (omega arith)

mark_published-keeps :
    (i j : ℕ) (events : List OutboxEvent)
    → IsPublished events j
    → IsPublished (mark_published i events) j
unfolding is_published_at event_at mark_published
mark_published-keeps i j [] h = h
mark_published-keeps zero zero (e ∷ events) h = refl
mark_published-keeps zero (suc j) (e ∷ events) h = h
mark_published-keeps (suc i) zero (e ∷ events) h = h
mark_published-keeps (suc i) (suc j) (e ∷ events) h = mark_published-keeps i j events h

pub publish_room :
    (uuid : String) (now : ℕ) (t : EventType) (p : Payload) (q : InMemoryQueue)
    → length q.queue < queue_capacity
    → publish uuid now t p q
      ≡ put (record q {
        queue = q.queue ++ record { id = uuid; event_type = t; payload = p; created_at = now } ∷ [];
      })
unfolding publish put_message
publish_room uuid now t p q room = rw (lt→ltb (length q.queue) queue_capacity room)

module _ (uuids : ℕ → String) (times : ℕ → ℕ) where
  abbrev pub publish_event : ℕ → EventType → Payload → InMemoryQueue → Put InMemoryQueue
  publish_event n = publish (uuids n) (times n)

  abbrev pub loop : ℕ → List ℕ → List OutboxEvent → InMemoryQueue → Relayed InMemoryQueue
  loop = relay_loop publish_event

  -- What a relay leaves that found room for all that was pending.
  record IsDelivered (count : ℕ) (pending : List ℕ) (events : List OutboxEvent) (q : InMemoryQueue)
      (r : Relayed InMemoryQueue) : Type 0 where
    counted : r.count ≡ count + length pending
    empty : r.outbox.pending ≡ []
    told : payloads r.queue.queue ≡ payloads q.queue ++ pending_payloads events pending
    marked : All (IsPublished r.outbox.events) pending
    keeps : (j : ℕ) → IsPublished events j → IsPublished r.outbox.events j

  pub loop-step :
      (count i : ℕ) (pending : List ℕ) (events : List OutboxEvent) (q q' : InMemoryQueue)
      (e : OutboxEvent)
      → event_at i events ≡ some e
      → publish_event count e.event_type e.payload q ≡ put q'
      → loop count (i ∷ pending) events q ≡ loop (count + 1) pending (mark_published i events) q'
  unfolding relay_loop
  loop-step count i pending events q q' e found p = rw (found, relay_loop) (rw p)

  loop-IsDelivered :
      (count : ℕ) (pending : List ℕ) (events : List OutboxEvent) (q : InMemoryQueue)
      → ArePositions events pending
      → length q.queue + length pending ≤ queue_capacity
      → IsDelivered count pending events q (loop count pending events q)
  unfolding relay_loop pending_payloads payload_at with_payload
  loop-IsDelivered count [] events q at room = record {
    counted = omega arith;
    empty = refl;
    told = sym (append-nil _);
    marked = tt;
    keeps = λ j h. h;
  }
  loop-IsDelivered count (i ∷ pending) events q at room =
      let (e, found) = event_at_found i events at.0 in
      let message : Message = record {
        id = uuids count;
        event_type = e.event_type;
        payload = e.payload;
        created_at = times count;
      } in
      let q' : InMemoryQueue = record q { queue = q.queue ++ message ∷ [] } in
      let d =
        loop-IsDelivered (count + 1) pending (mark_published i events) q'
          (All-map (λ j. j < length events) _ pending
            (λ j lt. omega (arith, length-mark_published i events)) at.1)
          (omega (arith, length-append q.queue (message ∷ []))) in
      subst (IsDelivered count (i ∷ pending) events q)
        (sym (loop-step count i pending events q q' e found (publish_room _ _ _ _ q (omega arith))))
        (record {
          counted = omega (arith, d.counted);
          empty = d.empty;
          told =
              d.told
              ∙ ap (λ l. l ++ pending_payloads (mark_published i events) pending)
                  (map-append (λ m. m.payload) q.queue (message ∷ []))
              ∙ append_assoc (payloads q.queue) (e.payload ∷ []) _
              ∙ rw (pending_payloads-mark_published i events pending, found, with_payload);
          marked = (d.keeps i (mark_published-IsPublished i events at.0), d.marked);
          keeps = λ j h. d.keeps j (mark_published-keeps i j events h);
        })

  -- A relay to a queue with room for all that is pending publishes every pending event, in the
  -- order in which the events were appended: it counts them, nothing stays pending, the queue has
  -- grown by their payloads, and each of them is marked.
  pub relay_delivers :
      (outbox : Outbox) (q : InMemoryQueue)
      → ArePositions outbox.events outbox.pending
      → length q.queue + length outbox.pending ≤ queue_capacity
      → let r = relay_all_pending publish_event outbox q in
        (r.count ≡ length outbox.pending)
        × (r.outbox.pending ≡ [])
        × (payloads r.queue.queue
            ≡ payloads q.queue ++ pending_payloads outbox.events outbox.pending)
        × All (IsPublished r.outbox.events) outbox.pending
  unfolding relay_all_pending
  relay_delivers outbox q at room =
      let d = loop-IsDelivered 0 outbox.pending outbox.events q at room in
      (omega (arith, d.counted), d.empty, d.told, d.marked)
