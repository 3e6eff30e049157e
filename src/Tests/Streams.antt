-- ===== src/Tests/Streams.antt =====
-- messaging/queue.py and messaging/events.py: a client of streams in memory, an event, and clients of a queue.
use mathlib.Core.Option.{some-injective}
use expense_settlement_engin.Common.{
  Bool-cases, inl, inr, ap, subst, ℕ, suc, ◌≡◌, refl, true, false, Bool, none, some, Option, List,
  [], ◌∷◌, ◌++◌, String, arith, take, drop, map, if◌then◌else◌, eqb, ◌==◌, eq_refl,
}
use expense_settlement_engin.Common.Int.{pos}
use expense_settlement_engin.Common.Dict.{lookup, get_or, Dict}
use expense_settlement_engin.Common.Text.{str_ℤ}
use expense_settlement_engin.Idempotency.{Json}
use expense_settlement_engin.Messaging.{
  Message, InMemoryQueue, empty_queue, settlement_requested, of_request,
}
use expense_settlement_engin.Messaging.Clients.{Exchange, message}
use expense_settlement_engin.Messaging.Streams.{
  stream_name, consumer_group, Entry, RedisClient, Values, StreamMessage, ensure_group,
  consume_batch,
}
use expense_settlement_engin.Messaging.Streams.Log.{
  answer_of, IsStreamClient, Event, publish_events, event_of, published_consumed,
}
use expense_settlement_engin.Messaging.Events.{
  ledger_posted, base, Defaults, fields_of, to_json, from_json,
}
use expense_settlement_engin.Messaging.Events.Forms.{SameKeys, event_roundtrip}

-- One message is taken and rejected, and the other is taken and kept until it is finished with.
abbrev first_message : Message
first_message = message "m1" 0 settlement_requested (of_request "g" "ann" [])

abbrev second_message : Message
second_message = message "m2" 1 settlement_requested (of_request "h" "bob" [])

abbrev queue_with : List Message → Dict ℕ → InMemoryQueue
queue_with messages counts = record empty_queue { queue = messages; retry_counts = counts }

abbrev rejected_once : InMemoryQueue
rejected_once = queue_with (second_message ∷ first_message ∷ []) (("m1", 1) ∷ [])

abbrev exchanged : Exchange
exchanged = record {
  queue = queue_with (first_message ∷ []) (("m1", 1) ∷ []);
  sent = second_message ∷ first_message ∷ [];
  held = [];
  finished = second_message ∷ [];
  rejected = "m1" ∷ [];
}

-- A server that keeps what was added to each stream and what waits on it for each group, and counts
-- the ids.
record Server : Type 0 where
  next : ℕ
  log : String → List Entry
  groups : String → String → Bool
  streams : String → String → List Entry

abbrev set_at {ℓ} : {A : Type ℓ} → String → A → (String → A) → String → A
set_at key value f s = if key == s then value else f s

abbrev waiting : String → String → Server → List Entry
waiting group stream r = r.streams stream group

abbrev has_group : String → String → Server → Bool
has_group group stream r = r.groups stream group

abbrev with_group : String → String → Server → Server
with_group group stream r = record r {
  groups = set_at stream (set_at group true (r.groups stream)) r.groups;
  streams = set_at stream (set_at group (r.log stream) (r.streams stream)) r.streams;
}

abbrev after_read : String → String → ℕ → Server → Server
after_read group stream count r = record r {
  streams =
      set_at stream (set_at group (drop count (r.streams stream group)) (r.streams stream))
        r.streams;
}

abbrev memory : RedisClient Server
memory = record {
  xgroup_create =
      λ stream group r. if r.groups stream group then none else some (with_group group stream r);
  xadd = λ stream fields r.
      let entry : Entry = (str_ℤ (pos r.next), fields) in
      (
        entry.0,
        record r {
          next = suc r.next;
          log = set_at stream (r.log stream ++ entry ∷ []) r.log;
          streams = set_at stream (λ group. r.streams stream group ++ entry ∷ []) r.streams;
        },
      );
  xreadgroup = λ group consumer stream count r.
      if r.groups stream group
      then some
          (answer_of stream (take count (r.streams stream group)), after_read group stream count r)
      else none;
  xack = λ group id stream r. r;
}

memory-IsStreamClient : IsStreamClient memory has_group waiting
memory-IsStreamClient = record {
  creates = λ group stream r after made. elim (Bool-cases (r.groups stream group)) [
    | inl there ↦ let never : Path (Option Server) none (some after) = rw there at made in cc
    | inr missing ↦
        let same : Path (Option Server) (some (with_group group stream r)) (some after) =
          rw missing at made in
        subst (λ t. t.groups stream group ≡ true) (some-injective _ _ same)
          (rw (eq_refl stream, eq_refl group) refl)
  ];
  exists_already = λ group stream r made. elim (Bool-cases (r.groups stream group)) [
    | inl there ↦ there
    | inr missing ↦
        let never : Path (Option Server) (some (with_group group stream r)) none =
          rw missing at made in
        cc
  ];
  adds = λ group stream fields r there. rw (eq_refl stream);
  adds_apart = λ group stream other fields r apart. rw apart;
  adds_keeps = λ group stream other fields r. refl;
  reads = λ group consumer stream count r there.
      (after_read group stream count r, rw there refl, rw (eq_refl stream, eq_refl group) refl);
  reads_apart = λ group other consumer stream count r after answer apart read.
      elim (Bool-cases (r.groups stream group)) [
        | inl there ↦
            let same : Path (Option (List (String × List Entry) × Server))
                (some (
                  answer_of stream (take count (r.streams stream group)),
                  after_read group stream count r,
                ))
                (some (answer, after)) =
              rw there at read in
            subst (λ t. t.streams stream other ≡ r.streams stream other)
              (ap (λ p. p.1) (some-injective _ _ same)) (rw (eq_refl stream, apart) refl)
        | inr missing ↦
            let never : Path (Option (List (String × List Entry) × Server)) none
                (some (answer, after)) =
              rw missing at read in
            cc
      ];
  no_group = λ group consumer stream count r missing. rw missing;
  acks = λ group id stream other_group other r. (refl, refl);
}

abbrev five : Dict ℕ
five = ("amount", 5) ∷ []

abbrev six : Dict ℕ
six = ("amount", 6) ∷ []

-- JSON that tells two dicts apart.
abbrev two_dicts : Json (Dict ℕ)
two_dicts = record {
  dumps = λ d. if eqb (get_or "amount" 0 d) 5 then "five" else "six";
  loads = λ s. if s == "five" then some five else some six;
}

abbrev numbers : Values ℕ
numbers = record { number = λ n. n; json = two_dicts }

abbrev sent : List (Event ℕ)
sent =
    record { event_type = "EXPENSE_CREATED"; payload = five; ts = "1" }
    ∷ record { event_type = "SETTLEMENT_REQUESTED"; payload = six; ts = "2" }
    ∷ []

abbrev empty_server : Server
empty_server = record { next = 7; log = λ s. []; groups = λ s g. false; streams = λ s g. [] }

published_consumed_example :
    let (answer, after) =
      consume_batch numbers memory "worker-1" 10
        (publish_events numbers memory sent (ensure_group numbers memory empty_server)) in
    ((messages : List (StreamMessage ℕ)) × (answer ≡ some messages)
      × (map (event_of numbers memory) messages ≡ sent))
    × (waiting consumer_group stream_name after ≡ [])
unfolding lookup ensure_group
published_consumed_example =
    published_consumed numbers memory has_group waiting memory-IsStreamClient sent "worker-1" 10
      empty_server refl (omega arith) (refl, (refl, tt))

abbrev defaults : Defaults String
defaults = record {
  text = λ s. s;
  number = λ n. "n";
  empty_list = "[]";
  empty_dict = "{}";
  null = "null";
}

abbrev posted : Dict String
posted =
    ("event_id", "e1")
    ∷ ("event_type", "LEDGER_POSTED")
    ∷ ("created_at", "1.5")
    ∷ ("version", "1")
    ∷ ("journal_id", "j1")
    ∷ ("expense_id", "x1")
    ∷ ("group_id", "g")
    ∷ ("total_cents", "700")
    ∷ []

abbrev one_dict : Json (Dict String)
one_dict = record { dumps = λ d. "{}"; loads = λ s. some posted }

posted-keys : SameKeys (fields_of defaults ledger_posted "u" "now") posted
unfolding SameKeys fields_of
posted-keys = (refl, (refl, (refl, (refl, (refl, (refl, (refl, (refl, tt))))))))

event_roundtrip_example :
    (from_json one_dict (fields_of defaults ledger_posted "u" "now") (to_json one_dict posted)
      ≡ some posted)
    × (true ≡ true
        → from_json one_dict (fields_of defaults base "v" "now") (to_json one_dict posted) ≡ none)
event_roundtrip_example =
    event_roundtrip defaults one_dict ledger_posted "u" "v" "now" "now" posted posted-keys refl
