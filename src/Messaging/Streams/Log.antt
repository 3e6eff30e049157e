-- ===== src/Messaging/Streams/Log.antt =====
-- `RedisStreamQueue` of messaging/queue.py, over a client that keeps streams as logs.
use expense_settlement_engin.Common.{
  All, ℕ, suc, ◌+◌, ◌≤◌, ◌≡◌, refl, sym, ap, ◌∙◌, inl, inr, false, true, Bool, none, some,
  Option-cases, List, [], ◌∷◌, ◌++◌, String, arith, length, take, drop, take_all, drop_all, map,
  if◌then◌else◌, leb, ◌==◌, Bool-cases,
}
use mathlib.Core.List.{append-nil, append_assoc}
use expense_settlement_engin.Common.Dict.{Dict, lookup, insert}
use expense_settlement_engin.Messaging.{max_retries}
use expense_settlement_engin.Messaging.Streams.{
  stream_name, dlq_stream, consumer_group, Entry, RedisClient, Values, StreamMessage, event_fields,
  ensure_group, publish, read_entry, read_entries, read_streams, consume_batch, ack, dlq_data, nack,
}

-- The answer of `xreadgroup` on one stream: nothing, or the stream with its entries.
abbrev pub answer_of : String → List Entry → List (String × List Entry)
answer_of stream [] = []
answer_of stream (e ∷ entries) = (stream, e ∷ entries) ∷ []

-- What the documentation of Redis Streams says of the calls. `has_group group stream` tells whether
-- the group exists on the stream; then `waiting group stream` are the entries of the stream that the
-- group has not been given. Each group is given every entry, whatever the other groups read.
pub record IsStreamClient {R : Type 0} (redis : RedisClient R)
    (has_group : String → String → R → Bool) (waiting : String → String → R → List Entry)
    : Type 0 where
  pub creates :
      (group stream : String) (r after : R)
      → redis.xgroup_create stream group r ≡ some after
      → has_group group stream after ≡ true
  pub exists_already :
      (group stream : String) (r : R)
      → redis.xgroup_create stream group r ≡ none
      → has_group group stream r ≡ true
  pub adds :
      (group stream : String) (fields : Dict String) (r : R)
      → has_group group stream r ≡ true
      → let (id, after) = redis.xadd stream fields r in
        waiting group stream after ≡ waiting group stream r ++ (id, fields) ∷ []
  pub adds_apart :
      (group stream other : String) (fields : Dict String) (r : R)
      → (stream == other) ≡ false
      → waiting group other (redis.xadd stream fields r).1 ≡ waiting group other r
  pub adds_keeps :
      (group stream other : String) (fields : Dict String) (r : R)
      → has_group group other (redis.xadd stream fields r).1 ≡ has_group group other r
  pub reads :
      (group consumer stream : String) (count : ℕ) (r : R)
      → has_group group stream r ≡ true
      → (after : R) × (redis.xreadgroup group consumer stream count r
          ≡ some (answer_of stream (take count (waiting group stream r)), after))
        × (waiting group stream after ≡ drop count (waiting group stream r))
  pub reads_apart :
      (group other consumer stream : String) (count : ℕ) (r after : R)
      (answer : List (String × List Entry))
      → (group == other) ≡ false
      → redis.xreadgroup group consumer stream count r ≡ some (answer, after)
      → waiting other stream after ≡ waiting other stream r
  pub no_group :
      (group consumer stream : String) (count : ℕ) (r : R)
      → has_group group stream r ≡ false
      → redis.xreadgroup group consumer stream count r ≡ none
  pub acks :
      (group id stream other_group other : String) (r : R)
      → (waiting other_group other (redis.xack stream group id r) ≡ waiting other_group other r)
        × (has_group other_group other (redis.xack stream group id r)
            ≡ has_group other_group other r)

-- An event as it is published: its type, its payload, and the text of the time.
pub record Event (V : Type 0) : Type 0 where
  pub event_type : String
  pub payload : Dict V
  pub ts : String

module _ {V R : Type 0} (values : Values V) (redis : RedisClient R) where
  abbrev pub publish_events : List (Event V) → R → R
  publish_events [] r = r
  publish_events (e ∷ events) r =
      publish_events events (publish values redis e.event_type e.payload e.ts r).1

  abbrev pub event_of : StreamMessage V → Event V
  event_of m = record { event_type = m.event_type; payload = m.payload; ts = m.ts }

  module _ (has_group : String → String → R → Bool) (waiting : String → String → R → List Entry)
      (client : IsStreamClient redis has_group waiting) where
    -- What the workers' group has not been given of a stream.
    abbrev pub left_of : String → R → List Entry
    left_of stream r = waiting consumer_group stream r

    abbrev HasGroup : R → Type 0
    HasGroup r = has_group consumer_group stream_name r ≡ true

    -- After `ensure_group` the group exists.
    ensure_group-HasGroup : (r : R) → HasGroup (ensure_group values redis r)
    unfolding ensure_group
    ensure_group-HasGroup r =
        elim (Option-cases (redis.xgroup_create stream_name consumer_group r)) [
          | inl there ↦
              rw (there, ensure_group) (client.exists_already consumer_group stream_name r there)
          | inr (after, made) ↦
              rw (made, ensure_group) (client.creates consumer_group stream_name r after made)
        ]

    -- The text of the payload can be read back to it.
    abbrev pub Parses : Event V → Type 0
    Parses e = values.json.loads (values.json.dumps e.payload) ≡ some e.payload

    read_published :
        (id : String) (e : Event V)
        → Parses e
        → read_entry values redis (id, event_fields values redis e.event_type e.payload e.ts)
          ≡ some (record { id = id; event_type = e.event_type; payload = e.payload; ts = e.ts })
    unfolding read_entry lookup
    read_published id e parses = rw (parses, read_entry)

    -- What is read back of published events.
    record AreRead (events : List (Event V)) (r : R) : Type 0 where
      entries : List Entry
      messages : List (StreamMessage V)
      wait : left_of stream_name (publish_events events r) ≡ left_of stream_name r ++ entries
      read : read_entries values redis entries ≡ some messages
      events_are : map event_of messages ≡ events
      as_many : length entries ≡ length events

    publish_events-AreRead :
        (events : List (Event V)) (r : R) → HasGroup r → All Parses events → AreRead events r
    unfolding read_entries publish
    publish_events-AreRead [] r made parses = record {
      entries = [];
      messages = [];
      wait = sym (append-nil _);
      read = refl;
      events_are = refl;
      as_many = refl;
    }
    publish_events-AreRead (e ∷ events) r made parses =
        let fields = event_fields values redis e.event_type e.payload e.ts in
        let (id, after) = redis.xadd stream_name fields r in
        let kept : HasGroup after =
          client.adds_keeps consumer_group stream_name stream_name fields r ∙ made in
        let rest = publish_events-AreRead events after kept parses.1 in
        record {
          entries = (id, fields) ∷ rest.entries;
          messages =
              record { id = id; event_type = e.event_type; payload = e.payload; ts = e.ts }
              ∷ rest.messages;
          wait =
              rest.wait
              ∙ ap (λ l. l ++ rest.entries) (client.adds consumer_group stream_name fields r made)
              ∙ append_assoc (left_of stream_name r) ((id, fields) ∷ []) rest.entries;
          read = rw (read_published id e parses.0, rest.read, read_entries);
          events_are = ap (λ l. e ∷ l) rest.events_are;
          as_many = ap suc rest.as_many;
        }

    read_answer :
        (entries : List Entry) (messages : List (StreamMessage V))
        → read_entries values redis entries ≡ some messages
        → read_streams values redis (answer_of stream_name entries) ≡ some messages
    unfolding read_streams read_entries
    read_answer [] messages e = e
    read_answer (x ∷ entries) messages e = rw (e, read_streams) (ap some (append-nil messages))

    publish_events-HasGroup :
        (events : List (Event V)) (r : R) → HasGroup r → HasGroup (publish_events events r)
    unfolding publish
    publish_events-HasGroup [] r made = made
    publish_events-HasGroup (e ∷ events) r made =
        let fields = event_fields values redis e.event_type e.payload e.ts in
        publish_events-HasGroup events (redis.xadd stream_name fields r).1
          (client.adds_keeps consumer_group stream_name stream_name fields r ∙ made)

    -- Over a client that does as the documentation says: after `ensure_group`, when the workers' group
    -- has been given all that was on the stream, what is published, with payloads that JSON reads
    -- back, in any number up to the size of a batch, is what the next `consume_batch` returns, in the
    -- same order, with the same types, payloads and times, and nothing is left for the one after it.
    pub published_consumed :
        (events : List (Event V)) (consumer : String) (count : ℕ) (r : R)
        → left_of stream_name (ensure_group values redis r) ≡ []
        → length events ≤ count
        → All Parses events
        → let (answer, after) =
            consume_batch values redis consumer count
              (publish_events events (ensure_group values redis r)) in
          ((messages : List (StreamMessage V)) × (answer ≡ some messages)
            × (map event_of messages ≡ events))
          × (left_of stream_name after ≡ [])
    unfolding consume_batch
    published_consumed events consumer count r drained few parses =
        let ready = ensure_group values redis r in
        let made = ensure_group-HasGroup r in
        let p = publish_events-AreRead events ready made parses in
        let now = publish_events events ready in
        let wait : left_of stream_name now ≡ p.entries =
          p.wait ∙ ap (λ l. l ++ p.entries) drained in
        let fits : length p.entries ≤ count = omega (arith, p.as_many) in
        let c =
          client.reads consumer_group consumer stream_name count now
            (publish_events-HasGroup events ready made) in
        rw (c.1, consume_batch)
          (
            (
              p.messages,
              rw (wait, take_all count p.entries fits) (read_answer p.entries p.messages p.read),
              p.events_are,
            ),
            c.2 ∙ ap (drop count) wait ∙ drop_all count p.entries fits,
          )

    abbrev pub retried : StreamMessage V → ℕ → Dict V
    retried m n = insert "_retry_count" (values.number (n + 1)) m.payload

    -- `nack` puts a message that failed fewer than three times back on the stream, with its count
    -- one higher in the payload; later it goes to the dead-letter stream, under its id, and is not
    -- put back. No other entry of the two streams changes.
    pub nack_lem :
        (m : StreamMessage V) (n : ℕ) (ts : String) (r : R)
        → HasGroup r
        → has_group consumer_group dlq_stream r ≡ true
        → let after = nack values redis m n ts r in
          let again =
            redis.xadd stream_name (event_fields values redis m.event_type (retried m n) ts) r in
          let dead = redis.xadd dlq_stream (dlq_data values redis m ts) r in
          (left_of stream_name after ≡ (
            if leb max_retries n
            then left_of stream_name r
            else left_of stream_name r
              ++ (again.0, event_fields values redis m.event_type (retried m n) ts) ∷ []))
          × (left_of dlq_stream after ≡ (
              if leb max_retries n
              then left_of dlq_stream r ++ (dead.0, dlq_data values redis m ts) ∷ []
              else left_of dlq_stream r))
    unfolding nack publish ack
    nack_lem m n ts r made dead_made = elim (Bool-cases (leb max_retries n)) [
      | inl last ↦
          let fields = dlq_data values redis m ts in
          let added = (redis.xadd dlq_stream fields r).1 in
          rw (last, nack)
            (
              (client.acks consumer_group m.id stream_name consumer_group stream_name added).0
                  ∙ client.adds_apart consumer_group dlq_stream stream_name fields r refl,
              (client.acks consumer_group m.id stream_name consumer_group dlq_stream added).0
                  ∙ client.adds consumer_group dlq_stream fields r dead_made,
            )
      | inr more ↦
          let fields = event_fields values redis m.event_type (retried m n) ts in
          let added = (redis.xadd stream_name fields r).1 in
          rw (more, nack)
            (
              (client.acks consumer_group m.id stream_name consumer_group stream_name added).0
                  ∙ client.adds consumer_group stream_name fields r made,
              (client.acks consumer_group m.id stream_name consumer_group dlq_stream added).0
                  ∙ client.adds_apart consumer_group stream_name dlq_stream fields r refl,
            )
    ]
