-- ===== src/Messaging/Streams.antt =====
-- `RedisStreamQueue` of messaging/queue.py. The Redis client, json and the text of a time are
-- arguments. A payload is a dict of JSON values.
pub mod Log
use expense_settlement_engin.Common.{
  ℕ, ◌+◌, Option, none, some, List, [], ◌∷◌, ◌++◌, String, if◌then◌else◌, leb,
}
use expense_settlement_engin.Common.Dict.{Dict, get_or, insert}
use expense_settlement_engin.Idempotency.{Json}
use expense_settlement_engin.Messaging.{max_retries}

abbrev pub stream_name : String
stream_name = "expense-events"

abbrev pub dlq_stream : String
dlq_stream = "expense-events-dlq"

abbrev pub consumer_group : String
consumer_group = "settlement-workers"

-- An entry of a stream: its id, and its fields.
abbrev pub Entry : Type 0
Entry = String × Dict String

-- The calls of the client on the server's state; `none` is an exception: a group that exists already,
-- or one that does not exist. `xreadgroup` reads the entries of a stream that no consumer of the
-- group has been given.
pub record RedisClient (R : Type 0) : Type 0 where
  pub xgroup_create : String → String → R → Option R
  pub xadd : String → Dict String → R → String × R
  pub xreadgroup : String → String → String → ℕ → R → Option (List (String × List Entry) × R)
  pub xack : String → String → String → R → R

-- The JSON values of a payload: a number, and the text of a whole dict.
pub record Values (V : Type 0) : Type 0 where
  pub number : ℕ → V
  pub json : Json (Dict V)

-- A message that `consume_batch` returns.
pub record StreamMessage (V : Type 0) : Type 0 where
  pub id : String
  pub event_type : String
  pub payload : Dict V
  pub ts : String

module _ {V R : Type 0} (values : Values V) (redis : RedisClient R) where
  -- `ensure_group`; an exception is passed over.
  unfoldable pub ensure_group : R → R
  ensure_group r = elim (redis.xgroup_create stream_name consumer_group r) [
    | none ↦ r
    | some r' ↦ r'
  ]

  -- The fields of a published event; `ts` is the text of the time.
  abbrev pub event_fields : String → Dict V → String → Dict String
  event_fields event_type payload ts =
      ("event_type", event_type) ∷ ("payload", values.json.dumps payload) ∷ ("ts", ts) ∷ []

  unfoldable pub publish : String → Dict V → String → R → String × R
  publish event_type payload ts r = redis.xadd stream_name (event_fields event_type payload ts) r

  -- A message made of an entry; `none` is the `JSONDecodeError`.
  unfoldable pub read_entry : Entry → Option (StreamMessage V)
  read_entry (msg_id, fields) = elim (values.json.loads (get_or "payload" "{}" fields)) [
    | none ↦ none
    | some payload ↦ some (record {
      id = msg_id;
      event_type = get_or "event_type" "" fields;
      payload = payload;
      ts = get_or "ts" "" fields;
    })
  ]

  unfoldable pub read_entries : List Entry → Option (List (StreamMessage V))
  unfolding read_entry
  read_entries [] = some []
  read_entries (e ∷ entries) =
      let rest = read_entries entries in
      elim (read_entry e) [
        | none ↦ none
        | some m ↦ elim rest [ none ↦ none | some messages ↦ some (m ∷ messages) ]
      ]

  unfoldable pub read_streams : List (String × List Entry) → Option (List (StreamMessage V))
  unfolding read_entries
  read_streams [] = some []
  read_streams ((_, msgs) ∷ results) =
      let rest = read_streams results in
      elim (read_entries msgs) [
        | none ↦ none
        | some messages ↦ elim rest [ none ↦ none | some more ↦ some (messages ++ more) ]
      ]

  -- `consume_batch`; `block_ms` is how long the server waits for a first entry. `none` is an exception
  -- of the client, or the `JSONDecodeError`, when the server has given the entries.
  unfoldable pub consume_batch : String → ℕ → R → Option (List (StreamMessage V)) × R
  unfolding read_streams
  consume_batch consumer_id count r =
      elim (redis.xreadgroup consumer_group consumer_id stream_name count r) [
        | none ↦ (none, r)
        | some (results, r') ↦ (read_streams results, r')
      ]

  unfoldable pub ack : String → R → R
  ack message_id r = redis.xack stream_name consumer_group message_id r

  abbrev pub dlq_data : StreamMessage V → String → Dict String
  dlq_data message ts =
      ("original_id", message.id)
      ∷ ("event_type", message.event_type)
      ∷ ("payload", values.json.dumps message.payload)
      ∷ ("reason", "max_retries_exceeded")
      ∷ ("ts", ts)
      ∷ []

  unfoldable pub nack : StreamMessage V → ℕ → String → R → R
  unfolding publish ack
  nack message retry_count ts r =
      if leb max_retries retry_count
      then ack message.id (redis.xadd dlq_stream (dlq_data message ts) r).1
      else (let payload = insert "_retry_count" (values.number (retry_count + 1)) message.payload in
          ack message.id (publish message.event_type payload ts r).1)
