-- ===== src/System/Pipeline.antt =====
-- A settlement from the route of api/routes/groups.py through the outbox, the relay and the queue
-- to worker/worker.py.
use expense_settlement_engin.Common.{
  ℕ, ◌+◌, ◌≡◌, refl, false, some, [], ◌∷◌, ◌++◌, String, arith, length, ◌==◌,
}
use expense_settlement_engin.Common.Int.{◌+ℤ◌, sum_by}
use expense_settlement_engin.Common.Dict.{lookup}
use expense_settlement_engin.Ledger.{Runtime, get_account_balance}
use expense_settlement_engin.Ledger.Specs.{wallet}
use expense_settlement_engin.Store.{GroupRecord, get_expenses_for_group}
use expense_settlement_engin.Messaging.{
  EventType, Payload, OutboxEvent, Outbox, Message, InMemoryQueue, publish, relay_loop,
  relay_all_pending, append, settlement_requested, of_request,
}
use expense_settlement_engin.Messaging.Relay.{publish_room, loop-step}
use expense_settlement_engin.Messaging.Log.{event_at_last}
use expense_settlement_engin.ExpenseService.Service.{get_group_net_balances}
use expense_settlement_engin.ExpenseService.Consistency.{due_by}
use expense_settlement_engin.Worker.{WorkerDraws}
use expense_settlement_engin.Worker.Settle.{handle_settlement_pays}
use expense_settlement_engin.Worker.Loop.{group_of, handle_event, run_round, round-handles}
use expense_settlement_engin.Routes.Responses.{responded}
use expense_settlement_engin.Routes.Groups.{requested, settle_group}
use expense_settlement_engin.System.{
  System, with_engine, worker_view, from_worker, relay, from_relay,
}

-- The message that a relay makes of an event.
abbrev message_of : String → ℕ → EventType → Payload → Message
message_of uuid now t p = record { id = uuid; event_type = t; payload = p; created_at = now }

-- A relay of the only event that is pending, the last one, to an empty queue.
relay_one :
    (uuids : ℕ → String) (times : ℕ → ℕ) (uuid : String) (now : ℕ) (t : EventType)
    (aggregate : String) (p : Payload) (o : Outbox) (q : InMemoryQueue)
    → o.pending ≡ []
    → q.queue ≡ []
    → let r =
        relay_all_pending (λ n. publish (uuids n) (times n)) (append uuid now t aggregate p o) q in
      (r.queue.queue ≡ message_of (uuids 0) (times 0) t p ∷ []) × (r.outbox.pending ≡ [])
unfolding relay_all_pending append relay_loop
relay_one uuids times uuid now t aggregate p o q none_pending empty =
    let event : OutboxEvent = record {
      id = uuid;
      event_type = t;
      aggregate_id = aggregate;
      payload = p;
      is_published = false;
      created_at = now;
    } in
    let step =
      loop-step uuids times 0 (length o.events) [] (o.events ++ event ∷ []) q
        (record q { queue = q.queue ++ message_of (uuids 0) (times 0) t p ∷ [] }) event
        (event_at_last event o.events)
        (publish_room (uuids 0) (times 0) t p q (rw empty (omega arith))) in
    rw (none_pending, step) (rw empty, refl)

module _ (rt : Runtime) (uuid : String) (now : ℕ) (group_id by : String) (uuids : ℕ → String)
    (times : ℕ → ℕ) (draws : WorkerDraws) (later : ℕ) (s : System) where
  abbrev pub asked : System
  asked = with_engine (settle_group uuid now group_id by s.app.engine).1 s

  abbrev pub carried : System
  carried = from_relay (relay uuids times asked) asked

  abbrev pub settled : System
  settled = from_worker later (run_round rt draws (worker_view carried)) carried

  asked_found :
      (g : GroupRecord)
      → lookup group_id s.app.engine.store.groups ≡ some g
      → settle_group uuid now group_id by s.app.engine ≡ (
        responded
            (record { group_id = group_id; status = "QUEUED"; settlements = []; checksum = "" }),
        requested uuid now group_id by s.app.engine,
      )
  unfolding settle_group
  asked_found g found = rw (found, settle_group)

  -- What the worker makes of the one message, in a system where it is the queue.
  paid :
      (t : System) (net : Payload)
      → group_of net ≡ group_id
      → (group_id == "") ≡ false
      → t.queue.queue ≡ message_of (uuids 0) (times 0) settlement_requested net ∷ []
      → let after = from_worker later (run_round rt draws (worker_view t)) t in
        ((u : String)
          → get_account_balance (wallet u) after.worker_ledger
            ≡ get_account_balance (wallet u) t.worker_ledger
              +ℤ sum_by (due_by u) (get_expenses_for_group group_id t.app.engine.store))
        × (after.queue.queue ≡ [])
        × (after.processed ≡ t.processed + 1)
        × (after.failed ≡ t.failed)
  unfolding handle_event
  paid t net named_so named first =
      let m = message_of (uuids 0) (times 0) settlement_requested net in
      let round = round-handles rt draws m [] (worker_view t) first in
      let pays = handle_settlement_pays rt draws group_id (worker_view t).worker named in
      rw (round, named_so) (pays.1, refl, refl, refl)

  -- On a group that exists, with nothing pending and nothing in the queue: `settle_group` answers
  -- that the request is queued; the next relay and the next round of the worker then handle it
  -- without a failure, and move every wallet of the worker's ledger by what the expenses of the
  -- group make its user due.
  pub asked_settlement_is_paid :
      (g : GroupRecord)
      → lookup group_id s.app.engine.store.groups ≡ some g
      → (group_id == "") ≡ false
      → s.app.engine.outbox.pending ≡ []
      → s.queue.queue ≡ []
      → ((settle_group uuid now group_id by s.app.engine).0
          ≡ responded
              (record { group_id = group_id; status = "QUEUED"; settlements = []; checksum = "" }))
        × ((u : String)
            → get_account_balance (wallet u) settled.worker_ledger
              ≡ get_account_balance (wallet u) s.worker_ledger
                +ℤ sum_by (due_by u) (get_expenses_for_group group_id s.app.engine.store))
        × (settled.queue.queue ≡ [])
        × (settled.processed ≡ s.processed + 1)
        × (settled.failed ≡ s.failed)
  unfolding group_of
  asked_settlement_is_paid g found named none_pending empty =
      let e = asked_found g found in
      let net = of_request group_id by (get_group_net_balances group_id s.app.engine.store) in
      let one =
        relay_one uuids times uuid now settlement_requested group_id net s.app.engine.outbox s.queue
          none_pending empty in
      let after : System = with_engine (requested uuid now group_id by s.app.engine) s in
      let p = paid (from_relay (relay uuids times after) after) net refl named one.0 in
      rw e (refl, p.0, p.1, p.2, p.3)
