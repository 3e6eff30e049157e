-- ===== src/Lib.antt =====
-- Verification of the expense settlement engine: people of a group share expenses, a double-entry
-- ledger records who owes whom, and a worker pays the debts with few payments.
--
-- The parts, and how they interact.
-- - DebtSimplifier: core/debt_simplifier.py. `compute_net_balances` sums what expenses make every
--   user due; `simplify` matches the largest creditor with the largest debtor until a heap is empty.
--   Children: Heapq (the queue), Round (one round of the loop), Loop, Build (the heaps), Simplify,
--   Order (of the balances), Balances, Settle and AnyOrder (both functions together).
-- - Ledger: core/ledger_engine.py. Journals of debits and credits, one hash chain per account, and
--   the audit. Children: Specs and Audit are definitions (the two journals; verify_chain_integrity
--   and audit_report); the others prove: Accounts, Posting, Wallets, Journals, Settlements, Chain,
--   Verify, Exact, Run, Imbalance.
-- - Store: database/store.py. The dicts of users, groups, expenses and settlements; each method
--   holds the lock, so each is one step. Child: Idempotence.
-- - GroupService: services/group_service.py, over the store. Child: Members.
-- - Occ: core/occ.py. The retries, the versioned entity, and its balance store. Children: Retry,
--   and Interleaving, where calls of apply_delta on one entity run in any order of their steps.
-- - Messaging: messaging/outbox.py, messaging/queue.py and messaging/events.py. Children: Relay and
--   Lost (the relay to a queue with room, and to one that raises), Log (what the relay leaves of the
--   outbox), Clients (any use of the queue by its clients), Streams (`RedisStreamQueue`, over a
--   client that is an argument), Events (the dataclasses of events.py and their JSON form).
-- - Cache: cache/redis_client.py, the in-memory cache with times of expiry. Child: View.
-- - Idempotency: cache/idempotency.py, over the cache. Child: Protocol.
-- - ExpenseService: services/expense_service.py. `create_expense` checks and splits, posts a journal
--   to the ledger, stores the expense and appends an event to the outbox; the debts of a group are
--   the simplifier's answer on its stored expenses. Child Service holds create_expense and the
--   queries on the debts of a group; Conditions describes what it asks of an expense; Splits,
--   Create, Consistency and Debts prove.
-- - Worker: worker/worker.py. The handler of a settlement request reads the expenses of the group,
--   simplifies, posts settlements to a ledger of its own, saves them, drops cached answers and
--   appends an event. Children: Settle, and Loop, the consume loop.
-- - Routes: api/routes. The module itself is routes/expenses.py: the gate of the idempotency key,
--   the service, and the stored response; its child Expenses proves. Groups and Balances are
--   routes/groups.py, Users is routes/users.py and routes/ledger.py, Responses and Schemas are
--   schemas/schemas.py: the answers, and the validators in front of a route. Balances has Report,
--   Agreement and Staleness, Schemas has Replies, Accepted and Emails, which prove.
-- - System: all of it, as api/main.py runs it: the requests, the relay and the worker as steps of one
--   state, in any order. Children: Effects and Handler (what a request and a message do to the
--   state), Events, Ledgers, Groups, Pipeline, Relay (its whole call as steps).
-- - Common holds what the parts share: Boolean tests, lists, Python's integers (Int), a dict with
--   text keys in the order of insertion (Dict), texts (Text, Order), and lists in another order
--   (Reordered). Tests runs the models on inputs.
--
-- How state and operations correspond. A class is a record with the fields of its `__init__`, a
-- method a function of the same name from the state to its answer and the state after it; a raise is
-- an answer, beside the state that the code leaves then. The global singletons are explicit state.
-- Cents are integers without a bound, as in Python. Times are numbers of ticks.
--
-- Arguments that stand for what is outside: SHA-256 and the text of a time (Runtime), the uuids and
-- the readings of the clock that a call draws (`ids`, Draws, WorkerDraws), json (Json, Values),
-- fnmatch, lower, upper and strip of a text (Texts), the Redis client of the streams (RedisClient),
-- the values that a field of an event has by default, and the floating-point arithmetic of
-- percentages (Floats). heapq and sorted, which are the language's, are kept as insertion into a
-- sorted list.
--
-- Bounds and fuel. The matching loop runs on fuel: one more than the number of tuples in both heaps
-- (`enough`). Every round takes two tuples and puts back at most one, so this is enough. The
-- in-memory queue holds 10,000 messages (`queue_capacity`); on a full queue a call waits, and the
-- relay with it, in the middle of its loop: in System the relay takes an event in one step and
-- publishes it in another, which needs room. A third rejection is the last (`max_retries`). All
-- other loops are over lists. The field `clock` of System only orders the times of the steps; no code
-- reads it, and `hand` is the relay's local variable.
--
-- Not modelled: the set-up of the application in api/main.py and the choice of a Redis server in
-- place of the in-memory cache; the scripts, which are a demonstration and benchmarks, and the tests;
-- the daemons' threads, which only call the relay and the worker's round again; log lines, the
-- jitter and the sleep between retries; the amounts in dollars, the running times, ratios and texts
-- that results carry for display.
pub mod Common
pub mod DebtSimplifier
pub mod Ledger
pub mod Store
pub mod GroupService
pub mod Messaging
pub mod Cache
pub mod Idempotency
pub mod ExpenseService
pub mod Routes
pub mod System
pub mod Worker
pub mod Occ
mod Tests
