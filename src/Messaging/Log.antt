-- ===== src/Messaging/Log.antt =====
-- The outbox of messaging/outbox.py as a log: what `append` does to the events and to what is
-- pending.
use expense_settlement_engin.Common.{
  ℕ, zero, suc, ◌<◌, ◌≡◌, refl, ap, ◌⊎◌, none, some, Option, false, List, [], ◌∷◌, ◌++◌, String,
  arith, length, length-append, All-map, All-append, sym, ◌∙◌, inl, inr, Bool-cases, ltb,
}
use mathlib.Core.List.{map-append}
use expense_settlement_engin.Messaging.{
  EventType, Payload, OutboxEvent, Outbox, event_at, append, mark_published, publish, put_message,
  Put, put, refused, waits, InMemoryQueue, Message, queue_capacity,
}
use expense_settlement_engin.Messaging.Relay.{
  ArePositions, payload_at, with_payload, pending_payloads, all_payloads, payloads,
  mark_published-all_payloads, length-mark_published, pending_payloads-mark_published,
}

-- The outbox as it was, or with one more event.
unfoldable pub IsAppended : Outbox → Outbox → Type 0
IsAppended before after =
    (after ≡ before)
    ⊎ ((uuid : String) × (now : ℕ) × (t : EventType) × (aggregate : String) × (p : Payload) × (after
          ≡ append uuid now t aggregate p before))

pub event_at_last :
    (e : OutboxEvent) (events : List OutboxEvent)
    → event_at (length events) (events ++ e ∷ []) ≡ some e
unfolding event_at
event_at_last e [] = refl
event_at_last e (x ∷ events) = event_at_last e events

event_at_before :
    (i : ℕ) (e : OutboxEvent) (events : List OutboxEvent)
    → i < length events
    → event_at i (events ++ e ∷ []) ≡ event_at i events
unfolding event_at
event_at_before i e [] lt = absurd (omega arith)
event_at_before zero e (x ∷ events) lt = refl
event_at_before (suc i) e (x ∷ events) lt = event_at_before i e events (omega arith)

with_payload-snoc :
    (o : Option Payload) (l : List Payload) (p : Payload)
    → with_payload o (l ++ p ∷ []) ≡ with_payload o l ++ p ∷ []
unfolding with_payload
with_payload-snoc none l p = refl
with_payload-snoc (some x) l p = refl

pending_payloads-append :
    (e : OutboxEvent) (events : List OutboxEvent) (pending : List ℕ)
    → ArePositions events pending
    → pending_payloads (events ++ e ∷ []) (pending ++ length events ∷ [])
      ≡ pending_payloads events pending ++ e.payload ∷ []
unfolding pending_payloads payload_at with_payload
pending_payloads-append e events [] at = rw (event_at_last e events)
pending_payloads-append e events (i ∷ pending) at =
    let rest = pending_payloads-append e events pending at.1 in
    rw (event_at_before i e events at.0, rest)
      (with_payload-snoc (payload_at (event_at i events)) (pending_payloads events pending)
        e.payload)

all_payloads-append :
    (e : OutboxEvent) (events : List OutboxEvent)
    → all_payloads (events ++ e ∷ []) ≡ all_payloads events ++ e.payload ∷ []
unfolding all_payloads
all_payloads-append e [] = refl
all_payloads-append e (x ∷ events) = ap (λ l. x.payload ∷ l) (all_payloads-append e events)

-- `append` puts the payload at the end of the log and of what is pending.
pub append_lem :
    (uuid : String) (now : ℕ) (t : EventType) (aggregate : String) (p : Payload) (o : Outbox)
    → ArePositions o.events o.pending
    → let after = append uuid now t aggregate p o in
      ArePositions after.events after.pending
      × (all_payloads after.events ≡ all_payloads o.events ++ p ∷ [])
      × (pending_payloads after.events after.pending
          ≡ pending_payloads o.events o.pending ++ p ∷ [])
unfolding append
append_lem uuid now t aggregate p o at =
    let event : OutboxEvent = record {
      id = uuid;
      event_type = t;
      aggregate_id = aggregate;
      payload = p;
      is_published = false;
      created_at = now;
    } in
    let more = length-append o.events (event ∷ []) in
    (
      All-append (λ i. i < length (o.events ++ event ∷ [])) o.pending (length o.events ∷ [])
          (All-map _ _ o.pending (λ i lt. omega (arith, more)) at) (omega (arith, more), tt),
      all_payloads-append event o.events,
      pending_payloads-append event o.events o.pending at,
    )

-- What is not published: the event that the relay has in its hand, and what is pending.
abbrev pub unpublished : Option ℕ → List ℕ → List ℕ
unpublished none pending = pending
unpublished (some i) pending = i ∷ pending

-- The same with an event in the relay's hand.
pub append_held :
    (hand : Option ℕ) (uuid : String) (now : ℕ) (t : EventType) (aggregate : String) (p : Payload)
    (o : Outbox)
    → ArePositions o.events (unpublished hand o.pending)
    → let after = append uuid now t aggregate p o in
      ArePositions after.events (unpublished hand after.pending)
      × (all_payloads after.events ≡ all_payloads o.events ++ p ∷ [])
      × (pending_payloads after.events (unpublished hand after.pending)
          ≡ pending_payloads o.events (unpublished hand o.pending) ++ p ∷ [])
unfolding append
append_held none uuid now t aggregate p o at = append_lem uuid now t aggregate p o at
append_held (some i) uuid now t aggregate p o at =
    append_lem uuid now t aggregate p (record o { pending = i ∷ o.pending }) at

-- Marking the first of them takes it off, and leaves what the events tell.
pub mark_published_lem :
    (i : ℕ) (e : OutboxEvent) (events : List OutboxEvent) (pending : List ℕ)
    → event_at i events ≡ some e
    → ArePositions events (i ∷ pending)
    → let after = mark_published i events in
      ArePositions after pending
      × (all_payloads after ≡ all_payloads events)
      × (pending_payloads events (i ∷ pending) ≡ e.payload ∷ pending_payloads after pending)
unfolding pending_payloads payload_at with_payload
mark_published_lem i e events pending found at = (
  All-map (λ j. j < length events) _ pending (λ j lt. omega (arith, length-mark_published i events))
      at.1,
  mark_published-all_payloads i events,
  rw (found, pending_payloads-mark_published i events pending),
)

queue_of : InMemoryQueue → Put InMemoryQueue → List Message
queue_of q (put q') = q'.queue
queue_of q refused = q.queue
queue_of q waits = q.queue

-- A publish that returns has put the payload at the end of the queue.
pub publish_put :
    (uuid : String) (now : ℕ) (t : EventType) (p : Payload) (q q' : InMemoryQueue)
    → publish uuid now t p q ≡ put q'
    → payloads q'.queue ≡ payloads q.queue ++ p ∷ []
unfolding publish put_message queue_of
publish_put uuid now t p q q' e = elim (Bool-cases (ltb (length q.queue) queue_capacity)) [
  | inl room ↦
      let m : Message = record { id = uuid; event_type = t; payload = p; created_at = now } in
      let after : Path (Put InMemoryQueue) (put (record q { queue = q.queue ++ m ∷ [] })) (put q') =
        rw room at e in
      let queues : q.queue ++ m ∷ [] ≡ q'.queue = ap (queue_of q) after in
      ap payloads (sym queues) ∙ map-append (λ x. x.payload) q.queue (m ∷ [])
  | inr full ↦ let never : Path (Put InMemoryQueue) waits (put q') = rw full at e in cc
]
