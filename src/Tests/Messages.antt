-- ===== src/Tests/Messages.antt =====
-- messaging/ and worker/worker.py: an outbox with two events, and a group with one expense.
use expense_settlement_engin.Common.{
  ℕ, ◌+◌, ◌≡◌, refl, none, [], ◌∷◌, ◌++◌, String, length, arith, All,
}
use expense_settlement_engin.Common.Int.{pos, ◌+ℤ◌, sum_by}
use expense_settlement_engin.Common.Text.{str_ℤ}
use expense_settlement_engin.Ledger.{Runtime, empty_ledger, get_account_balance}
use expense_settlement_engin.Ledger.Specs.{wallet}
use expense_settlement_engin.Store.{ExpenseRecord, empty_store, get_expenses_for_group}
use expense_settlement_engin.Cache.{empty_cache}
use expense_settlement_engin.Messaging.{
  EventType, expense_created, settlement_requested, Payload, of_request, Outbox, empty_outbox,
  append, InMemoryQueue, empty_queue, publish, Put, relay_all_pending,
}
use expense_settlement_engin.Messaging.Lost.{broken, refused_events_are_lost}
use expense_settlement_engin.Messaging.Relay.{
  pending_payloads, payloads, IsPublished, relay_delivers,
}
use expense_settlement_engin.ExpenseService.Consistency.{due_by}
use expense_settlement_engin.Worker.{WorkerState, WorkerDraws, handled, handle_settlement}
use expense_settlement_engin.Worker.Loop.{LoopState}
use expense_settlement_engin.Worker.Settle.{handle_settlement_pays, second_request_pays_again}

abbrev request : String → Payload
request g = of_request g "ann" []

abbrev two : Outbox
two =
    append "e2" 2 settlement_requested "h" (request "h")
      (append "e1" 1 settlement_requested "g" (request "g") empty_outbox)

two-filled : (length two.events ≡ 2) × (two.pending ≡ 0 ∷ 1 ∷ [])
unfolding append
two-filled = (refl, refl)

abbrev uuids : ℕ → String
uuids n = str_ℤ (pos n)

abbrev times : ℕ → ℕ
times n = n

relay_delivers_example :
    let r = relay_all_pending (λ n. publish (uuids n) (times n)) two empty_queue in
    (r.count ≡ length two.pending)
    × (r.outbox.pending ≡ [])
    × (payloads r.queue.queue
        ≡ payloads empty_queue.queue ++ pending_payloads two.events two.pending)
    × All (IsPublished r.outbox.events) two.pending
unfolding append
relay_delivers_example =
    relay_delivers uuids times two empty_queue (omega arith, (omega arith, tt)) (omega arith)

abbrev working : ℕ → EventType → Payload → InMemoryQueue → Put InMemoryQueue
working n = publish (uuids n) (times n)

refused_events_are_lost_example :
    let r = relay_all_pending broken two empty_queue in
    let later = relay_all_pending working r.outbox empty_queue in
    (r.count ≡ 0)
    × (r.outbox.events ≡ two.events)
    × (later.count ≡ 0)
    × (later.queue ≡ empty_queue)
    × (later.outbox ≡ r.outbox)
refused_events_are_lost_example = refused_events_are_lost two empty_queue working

abbrev pub dinner : ExpenseRecord
dinner = record {
  id = "e1";
  group_id = "g";
  payer_id = "ann";
  title = "Dinner";
  total_cents = pos 7;
  split_type = "EQUAL";
  status = "POSTED";
  idempotency_key = none;
  version = 0;
  journal_id = none;
  created_at = 1;
  splits =
      record { user_id = "ann"; amount_cents = pos 4 }
      ∷ record { user_id = "bob"; amount_cents = pos 3 }
      ∷ [];
}

abbrev pub idle : WorkerState
idle = record {
  store = record empty_store { expenses = ("e1", dinner) ∷ [] };
  ledger = empty_ledger;
  cache = empty_cache;
  outbox = empty_outbox;
}

abbrev plain : Runtime
plain = record { sha256 = λ s. s; str_time = λ t. "t" }

abbrev pub draws : WorkerDraws
draws = record {
  journal_ids = λ i k. str_ℤ (pos (i + k));
  journal_now = λ i. i;
  record_uuid = λ i. str_ℤ (pos i);
  record_created = λ i. i;
  record_executed = λ i. i;
  event_uuid = "event";
  event_now = 5;
}

handle_settlement_pays_example :
    let (answer, after) = handle_settlement plain draws "g" idle in
    (answer ≡ handled)
    × ((u : String)
        → get_account_balance (wallet u) after.ledger
          ≡ get_account_balance (wallet u) idle.ledger
            +ℤ sum_by (due_by u) (get_expenses_for_group "g" idle.store))
    × (after.store.expenses ≡ idle.store.expenses)
handle_settlement_pays_example = handle_settlement_pays plain draws "g" idle refl

second_request_pays_again_example :
    let first = (handle_settlement plain draws "g" idle).1 in
    let second = (handle_settlement plain draws "g" first).1 in
    let owed = sum_by (due_by "bob") (get_expenses_for_group "g" idle.store) in
    get_account_balance (wallet "bob") second.ledger
    ≡ get_account_balance (wallet "bob") idle.ledger +ℤ (owed +ℤ owed)
second_request_pays_again_example = second_request_pays_again plain draws draws "g" idle refl "bob"

abbrev pub busy : LoopState
busy = record {
  worker = idle;
  queue = record empty_queue {
    queue =
        record {
          id = "m1";
          event_type = settlement_requested;
          payload = request "g";
          created_at = 1;
        }
        ∷ record { id = "m2"; event_type = expense_created; payload = request "g"; created_at = 2 }
        ∷ [];
  };
  processed = 3;
  failed = 1;
}
