-- ===== src/System.antt =====
-- The running program: the routes of api/, the relay of messaging/outbox.py and the worker of
-- worker/worker.py, on the singletons that they share, as one system whose steps come in any order.
-- Nothing that a request awaits on the in-memory parts suspends it, so a request is one step.
-- The relay waits on a full queue, with the event that it has taken in its hand: taking an event and
-- publishing it are two steps.
pub mod Effects
pub mod Handler
pub mod Events
pub mod Ledgers
pub mod Groups
pub mod Pipeline
pub mod Relay
use expense_settlement_engin.Common.{
  ℕ, zero, suc, ◌+◌, ◌≤◌, ◌≡◌, Option, none, some, List, [], ◌∷◌, String, length,
}
use expense_settlement_engin.Ledger.{LedgerEngine, Runtime, empty_ledger}
use expense_settlement_engin.Store.{empty_store}
use expense_settlement_engin.Cache.{empty_cache}
use expense_settlement_engin.Idempotency.{Json}
use expense_settlement_engin.Messaging.{
  InMemoryQueue, empty_queue, empty_outbox, Outbox, OutboxEvent, event_at, mark_published, Put, put,
  publish, Relayed, relay_all_pending,
}
use expense_settlement_engin.ExpenseService.{Floats}
use expense_settlement_engin.ExpenseService.Service.{Engine}
use expense_settlement_engin.Worker.{WorkerState, WorkerDraws}
use expense_settlement_engin.Worker.Loop.{LoopState, run_round}
use expense_settlement_engin.Routes.{
  CreateExpenseRequest, ExpenseResponse, AppState, RequestDraws, create_expense_route,
}
use expense_settlement_engin.Routes.Responses.{GroupBalancesResponse}
use expense_settlement_engin.Routes.Groups.{create_group, add_member, settle_group}
use expense_settlement_engin.Routes.Users.{create_user}
use expense_settlement_engin.Routes.Balances.{get_balances}

-- The singletons: those of the routes, the worker's ledger and its counters, and the queue.
-- `hand` is the event that the relay has taken from the outbox and not yet published, by its
-- position. `clock` is the last time at which a journal was posted; no code reads it.
pub record System : Type 0 where
  pub app : AppState
  pub worker_ledger : LedgerEngine
  pub queue : InMemoryQueue
  pub hand : Option ℕ
  pub processed : ℕ
  pub failed : ℕ
  pub clock : ℕ

abbrev pub started : System
started = record {
  app = record {
    engine = record { store = empty_store; ledger = empty_ledger; outbox = empty_outbox };
    cache = empty_cache;
  };
  worker_ledger = empty_ledger;
  queue = empty_queue;
  hand = none;
  processed = 0;
  failed = 0;
  clock = 0;
}

-- What the program takes from outside.
pub record World (F : Type 0) : Type 0 where
  pub floats : Floats F
  pub rt : Runtime
  pub expense_json : Json ExpenseResponse
  pub balances_json : Json GroupBalancesResponse
  pub ticks : ℕ

abbrev pub with_engine : Engine → System → System
with_engine engine s = record s { app = record { engine = engine; cache = s.app.cache } }

abbrev pub with_outbox : Outbox → System → System
with_outbox outbox s =
    with_engine
      (record { store = s.app.engine.store; ledger = s.app.engine.ledger; outbox = outbox }) s

-- What the worker sees of the system.
abbrev pub worker_view : System → LoopState
worker_view s = record {
  worker = record {
    store = s.app.engine.store;
    ledger = s.worker_ledger;
    cache = s.app.cache;
    outbox = s.app.engine.outbox;
  };
  queue = s.queue;
  processed = s.processed;
  failed = s.failed;
}

-- The system after the worker changed what it sees.
abbrev pub from_worker : ℕ → LoopState → System → System
from_worker now l s = record {
  app = record {
    engine = record {
      store = l.worker.store;
      ledger = s.app.engine.ledger;
      outbox = l.worker.outbox;
    };
    cache = l.worker.cache;
  };
  worker_ledger = l.worker.ledger;
  queue = l.queue;
  hand = s.hand;
  processed = l.processed;
  failed = l.failed;
  clock = now;
}

abbrev pub relay : (ℕ → String) → (ℕ → ℕ) → System → Relayed InMemoryQueue
relay uuids times s =
    relay_all_pending (λ n. publish (uuids n) (times n)) s.app.engine.outbox s.queue

abbrev pub from_relay : Relayed InMemoryQueue → System → System
from_relay r s = record s {
  app = record {
    engine = record { store = s.app.engine.store; ledger = s.app.engine.ledger; outbox = r.outbox };
    cache = s.app.cache;
  };
  queue = r.queue;
}

-- The times at which a call of the worker posts its journals, from `since` until `now`.
pub record IsTimed (since now : ℕ) (times : ℕ → ℕ) : Type 0 where
  pub starts : since ≤ times 0
  pub onward : (i : ℕ) → times i ≤ times (suc i)
  pub ends : (i : ℕ) → times i ≤ now
  pub later : since ≤ now

-- One step of the relay, in the loop of `relay_all_pending`.
pub data RelayStep : System → System → Type 0 where
  -- `get_nowait` of the relay
  event_taken :
      (i : ℕ) (pending : List ℕ) (s : System)
      → s.hand ≡ none
      → s.app.engine.outbox.pending ≡ i ∷ pending
      → RelayStep s (
          with_outbox
            (record s.app.engine.outbox { pending = pending })
            (record s { hand = some i }))
  -- `publish` of the relay has found room in the queue.
  event_published :
      (uuid : String) (now i : ℕ) (e : OutboxEvent) (q : InMemoryQueue) (s : System)
      → s.hand ≡ some i
      → event_at i s.app.engine.outbox.events ≡ some e
      → publish uuid now e.event_type e.payload s.queue ≡ put q
      → RelayStep s (
          with_outbox
            (record s.app.engine.outbox { events = mark_published i s.app.engine.outbox.events })
            (record s { queue = q; hand = none }))

-- One step of the running program.
pub data Step {F : Type 0} (w : World F) : System → System → Type 0 where
  user_created :
      (uuid : String) (now : ℕ) (name email : String) (s : System)
      → Step w s (with_engine (create_user uuid now name email s.app.engine).1 s)
  group_created :
      (uuid : String) (now : ℕ) (name : String) (s : System)
      → Step w s (with_engine (create_group uuid now name s.app.engine).1 s)
  member_added :
      (group_id user_id : String) (s : System)
      → Step w s (with_engine (add_member group_id user_id s.app.engine).1 s)
  expense_requested :
      (draws : RequestDraws) (group_id : String) (header : Option String)
      (body : CreateExpenseRequest F) (s : System)
      → s.clock ≤ draws.service.journal_now
      → Step w s (record s {
        app =
            (create_expense_route w.floats w.rt w.expense_json w.ticks draws group_id header body
              s.app).1;
        clock = draws.service.journal_now;
      })
  balances_read :
      (now later : ℕ) (group_id : String) (s : System)
      → Step w s
          (record s { app = (get_balances w.balances_json w.ticks now later group_id s.app).1 })
  settlement_asked :
      (uuid : String) (now : ℕ) (group_id requested_by : String) (s : System)
      → Step w s (with_engine (settle_group uuid now group_id requested_by s.app.engine).1 s)
  relayed : {s t : System} → RelayStep s t → Step w s t
  worked :
      (draws : WorkerDraws) (now : ℕ) (s : System)
      → IsTimed s.clock now draws.journal_now
      → Step w s (from_worker now (run_round w.rt draws (worker_view s)) s)

-- The states that the program can be in, from a start with everything empty.
pub data Reachable {F : Type 0} (w : World F) : System → Type 0 where
  at_start : Reachable w started
  and_then : {s t : System} → Reachable w s → Step w s t → Reachable w t
