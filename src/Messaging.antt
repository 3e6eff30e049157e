-- ===== src/Messaging.antt =====
-- messaging/outbox.py, messaging/queue.py and messaging/events.py: the outbox of events and the
-- in-memory queue. A uuid and a time that a method draws are arguments.
pub mod Relay
pub mod Lost
pub mod Clients
pub mod Streams
pub mod Events
pub mod Log
use expense_settlement_engin.Common.{
  ℕ, zero, suc, ◌+◌, Bool, true, false, Option, none, some, List, [], ◌∷◌, ◌++◌, String, length,
  if◌then◌else◌, leb, ltb,
}
use expense_settlement_engin.Common.Int.{ℤ}
use expense_settlement_engin.Common.Dict.{Dict, get_or, insert}
use expense_settlement_engin.DebtSimplifier.{Split}

pub data EventType : Type 0 where
  expense_created settlement_requested ledger_posted : EventType
  settlement_completed settlement_failed : EventType

-- The payload of an `EXPENSE_CREATED` event.
pub record ExpenseCreated : Type 0 where
  pub expense_id : String
  pub group_id : String
  pub payer_id : String
  pub total_cents : ℤ
  pub title : String
  pub splits : List Split
  pub idempotency_key : Option String

-- The payload of a `SETTLEMENT_COMPLETED` event, less its ratio and its times.
pub record SettlementCompleted : Type 0 where
  pub group_id : String
  pub settlement_count : ℕ
  pub total_settled_cents : ℤ
  pub checksum : String

pub data Payload : Type 0 where
  of_expense : ExpenseCreated → Payload
  of_request : String → String → Dict ℤ → Payload
  of_settlement : SettlementCompleted → Payload

pub record OutboxEvent : Type 0 where
  pub id : String
  pub event_type : EventType
  pub aggregate_id : String
  pub payload : Payload
  pub is_published : Bool
  pub created_at : ℕ

-- `_pending` holds the dicts of `_events` themselves: here their positions.
pub record Outbox : Type 0 where
  pub events : List OutboxEvent
  pub pending : List ℕ

abbrev pub empty_outbox : Outbox
empty_outbox = record { events = []; pending = [] }

-- `InMemoryOutbox.append`
unfoldable pub append : String → ℕ → EventType → String → Payload → Outbox → Outbox
append uuid now event_type aggregate_id payload outbox =
    let event : OutboxEvent = record {
      id = uuid;
      event_type = event_type;
      aggregate_id = aggregate_id;
      payload = payload;
      is_published = false;
      created_at = now;
    } in
    record {
      events = outbox.events ++ event ∷ [];
      pending = outbox.pending ++ length outbox.events ∷ [];
    }

-- A message of `InMemoryQueue`.
pub record Message : Type 0 where
  pub id : String
  pub event_type : EventType
  pub payload : Payload
  pub created_at : ℕ

pub record InMemoryQueue : Type 0 where
  pub queue : List Message
  pub dlq : List Message
  pub retry_counts : Dict ℕ

abbrev pub empty_queue : InMemoryQueue
empty_queue = record { queue = []; dlq = []; retry_counts = [] }

abbrev pub queue_capacity : ℕ
queue_capacity = 10000

abbrev pub max_retries : ℕ
max_retries = 3

-- How a call ends that may put a message: on a full queue it waits for a consumer; a queue of
-- another kind may raise.
pub data Put (Q : Type 0) : Type 0 where
  put : Q → Put Q
  refused : Put Q
  waits : Put Q

-- `await self._queue.put(message)`
unfoldable pub put_message : Message → InMemoryQueue → Put InMemoryQueue
put_message message q =
    if ltb (length q.queue) queue_capacity
    then put (record q { queue = q.queue ++ message ∷ [] })
    else waits

-- `InMemoryQueue.publish`
unfoldable pub publish : String → ℕ → EventType → Payload → InMemoryQueue → Put InMemoryQueue
unfolding put_message
publish uuid now event_type payload q =
    put_message (record { id = uuid; event_type = event_type; payload = payload; created_at = now })
      q

-- `consume_one`; `none` is the timeout on an empty queue.
unfoldable pub consume_one : InMemoryQueue → Option Message × InMemoryQueue
consume_one q = elim q.queue [
  | [] ↦ (none, q)
  | message ∷ rest ↦ (some message, record q { queue = rest })
]

-- `nack`
unfoldable pub nack : Message → InMemoryQueue → Put InMemoryQueue
unfolding put_message
nack message q =
    let count = get_or message.id 0 q.retry_counts + 1 in
    let counted : InMemoryQueue = record q {
      retry_counts = insert message.id count q.retry_counts;
    } in
    if leb max_retries count
    then put (record counted { dlq = q.dlq ++ message ∷ [] })
    else put_message message counted

abbrev pub dlq_length : InMemoryQueue → ℕ
dlq_length q = length q.dlq

abbrev pub qsize : InMemoryQueue → ℕ
qsize q = length q.queue

abbrev pub pending_count : Outbox → ℕ
pending_count outbox = length outbox.pending

abbrev pub all_events : Outbox → List OutboxEvent
all_events outbox = outbox.events

-- The event at a position, and `event["is_published"] = True`.
unfoldable pub event_at : ℕ → List OutboxEvent → Option OutboxEvent
event_at i [] = none
event_at zero (e ∷ events) = some e
event_at (suc i) (e ∷ events) = event_at i events

unfoldable pub mark_published : ℕ → List OutboxEvent → List OutboxEvent
mark_published i [] = []
mark_published zero (e ∷ events) = record e { is_published = true } ∷ events
mark_published (suc i) (e ∷ events) = e ∷ mark_published i events

pub record Relayed (Q : Type 0) : Type 0 where
  pub count : ℕ
  pub outbox : Outbox
  pub queue : Q

module _ {Q : Type 0} (publish_event : ℕ → EventType → Payload → Q → Put Q) where
  -- The loop of `relay_all_pending` over what is pending, up to a call that waits. A call that
  -- raises is only logged. What is pending is always a position of an event.
  unfoldable pub relay_loop : ℕ → List ℕ → List OutboxEvent → Q → Relayed Q
  relay_loop count [] events q = record {
    count = count;
    outbox = record { events = events; pending = [] };
    queue = q;
  }
  relay_loop count (i ∷ pending) events q = elim (event_at i events) [
    | none ↦ relay_loop count pending events q
    | some e ↦ elim (publish_event count e.event_type e.payload q) [
      | put q' ↦ relay_loop (count + 1) pending (mark_published i events) q'
      | refused ↦ relay_loop count pending events q
      | waits ↦ record {
        count = count;
        outbox = record { events = events; pending = pending };
        queue = q;
      }
    ]
  ]

  -- `relay_all_pending`
  unfoldable pub relay_all_pending : Outbox → Q → Relayed Q
  unfolding relay_loop event_at mark_published
  relay_all_pending outbox q = relay_loop 0 outbox.pending outbox.events q
