-- ===== src/Messaging/Clients.antt =====
-- `InMemoryQueue` of messaging/queue.py under any clients: what they publish, take, reject and keep, in
-- any order.
use expense_settlement_engin.Common.{
  ℕ, suc, ◌+◌, ◌≡◌, Option, some, List, [], ◌∷◌, ◌++◌, String, ◌==◌, length, if◌then◌else◌, leb,
}
use expense_settlement_engin.Common.Dict.{get_or, insert}
use expense_settlement_engin.Messaging.{
  EventType, Payload, Message, InMemoryQueue, empty_queue, Put, put, refused, waits, publish,
  consume_one, nack,
}

-- The queue, the messages that were published, those that a client has taken and not yet answered,
-- those that it has finished with, and the ids that were rejected, the last first.
pub record Exchange : Type 0 where
  pub queue : InMemoryQueue
  pub sent : List Message
  pub held : List Message
  pub finished : List Message
  pub rejected : List String

abbrev pub fresh : Exchange
fresh = record { queue = empty_queue; sent = []; held = []; finished = []; rejected = [] }

abbrev pub message : String → ℕ → EventType → Payload → Message
message uuid now t p = record { id = uuid; event_type = t; payload = p; created_at = now }

-- One call of a client, on a queue where the call does not wait.
pub data Call (x : Exchange) : Exchange → Type 0 where
  publishes :
      (uuid : String) (now : ℕ) (t : EventType) (p : Payload) (q : InMemoryQueue)
      → publish uuid now t p x.queue ≡ put q
      → Call x (record x { queue = q; sent = message uuid now t p ∷ x.sent })
  takes :
      (m : Message) (q : InMemoryQueue)
      → consume_one x.queue ≡ (some m, q)
      → Call x (record x { queue = q; held = m ∷ x.held })
  rejects :
      (before : List Message) (m : Message) (behind : List Message) (q : InMemoryQueue)
      → x.held ≡ before ++ m ∷ behind
      → nack m x.queue ≡ put q
      → Call x (record x { queue = q; held = before ++ behind; rejected = m.id ∷ x.rejected })
  finishes :
      (before : List Message) (m : Message) (behind : List Message)
      → x.held ≡ before ++ m ∷ behind
      → Call x (record x { held = before ++ behind; finished = m ∷ x.finished })

pub data Calls (x : Exchange) : Exchange → Type 0 where
  none_yet : Calls x x
  and_call : {y z : Exchange} → Calls x y → Call y z → Calls x z

-- What the messages count for together: with `f` that is 1 on some messages, how many those are.
abbrev pub tally : (Message → ℕ) → List Message → ℕ
tally f [] = 0
tally f (m ∷ l) = f m + tally f l

-- How often an id was rejected, and how many rejections were at least the third of their id.
abbrev pub times_in : String → List String → ℕ
times_in id [] = 0
times_in id (x ∷ l) = if x == id then suc (times_in id l) else times_in id l

abbrev pub third_rejections : List String → ℕ
third_rejections [] = 0
third_rejections (x ∷ l) =
    if leb 2 (times_in x l) then suc (third_rejections l) else third_rejections l

queue_after : InMemoryQueue → Put InMemoryQueue → InMemoryQueue
queue_after q (put q') = q'
queue_after q refused = q
queue_after q waits = q

abbrev counted : Message → InMemoryQueue → InMemoryQueue
counted m q = record q {
  retry_counts = insert m.id (get_or m.id 0 q.retry_counts + 1) q.retry_counts;
}

record IsKept (x : Exchange) : Type 0 where
  all :
      (f : Message → ℕ)
      → tally f x.sent
        ≡ tally f x.queue.queue + tally f x.held + tally f x.finished + tally f x.queue.dlq
  counts : (id : String) → get_or id 0 x.queue.retry_counts ≡ times_in id x.rejected
  dead : length x.queue.dlq ≡ third_rejections x.rejected
