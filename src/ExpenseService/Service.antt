-- ===== src/ExpenseService/Service.antt =====
-- `create_expense`, `get_group_net_balances` and `get_simplified_debts` of
-- services/expense_service.py, on the store, the ledger and the outbox.
use expense_settlement_engin.Common.{ℕ, ◌+◌, ◌-◌, some, List, [], ◌∷◌, map, String, length, max}
use expense_settlement_engin.Common.Int.{ℤ}
use expense_settlement_engin.Common.Dict.{Dict, insert}
use expense_settlement_engin.DebtSimplifier.{
  Split, Transaction, Simplified, simplify, compute_net_balances,
}
use expense_settlement_engin.Ledger.{Journal, LedgerEngine, Runtime, returned, raised}
use expense_settlement_engin.Ledger.Specs.{post_expense_journal}
use expense_settlement_engin.Store.{
  ExpenseRecord, InMemoryStore, ExpenseData, get_group, get_expenses_for_group, member,
}
use expense_settlement_engin.Store
use expense_settlement_engin.Messaging.{Outbox, append, expense_created, ExpenseCreated, of_expense}
use expense_settlement_engin.ExpenseService.{
  valid, invalid, Floats, ExpenseArgs, ExpenseError, ledger_refused, checked_splits,
}

-- What the service works on.
pub record Engine : Type 0 where
  pub store : InMemoryStore
  pub ledger : LedgerEngine
  pub outbox : Outbox

-- What one call draws: the uuids of the journal, of the expense and of the event, and the times.
pub record Draws : Type 0 where
  pub journal_ids : ℕ → String
  pub expense_uuid : String
  pub event_uuid : String
  pub journal_now : ℕ
  pub expense_now : ℕ
  pub event_now : ℕ

pub data Created : Type 0 where
  created : ExpenseRecord → Created
  rejected : ExpenseError → Created

abbrev pub stored_data : {F : Type 0} → ExpenseArgs F → List Split → ExpenseData
stored_data a splits = record {
  group_id = a.group_id;
  payer_id = a.payer_id;
  title = a.title;
  total_cents = a.total_cents;
  split_type = a.split_type;
  splits = splits;
  idempotency_key = a.idempotency_key;
}

abbrev pub event_payload : {F : Type 0} → ExpenseArgs F → List Split → String → ExpenseCreated
event_payload a splits expense_id = record {
  expense_id = expense_id;
  group_id = a.group_id;
  payer_id = a.payer_id;
  total_cents = a.total_cents;
  title = a.title;
  splits = splits;
  idempotency_key = a.idempotency_key;
}

-- `expense.journal_id = ...` writes into the stored record, which is the one that is returned.
abbrev pub link_journal : String → ExpenseRecord → InMemoryStore → ExpenseRecord × InMemoryStore
link_journal journal_id expense store =
    let linked : ExpenseRecord = record expense { journal_id = some journal_id } in
    (linked, record store { expenses = insert expense.id linked store.expenses })

-- The rest of `create_expense`, once the journal is posted.
unfoldable pub store_expense :
    {F : Type 0}
    → Draws
    → ExpenseArgs F
    → List Split
    → Journal
    → LedgerEngine
    → Engine
    → Created × Engine
unfolding Store.create_expense append
store_expense draws a splits journal ledger e =
    let (expense, stored) =
      Store.create_expense draws.expense_uuid draws.expense_now (stored_data a splits) e.store in
    let (linked, store) = link_journal journal.journal_id expense stored in
    (
      created linked,
      record {
        store = store;
        ledger = ledger;
        outbox =
            append draws.event_uuid draws.event_now expense_created expense.id
              (of_expense (event_payload a splits expense.id)) e.outbox;
      },
    )

module _ {F : Type 0} (floats : Floats F) (rt : Runtime) (draws : Draws) where
  -- `create_expense`
  unfoldable pub create_expense : ExpenseArgs F → Engine → Created × Engine
  unfolding checked_splits store_expense
  create_expense a e = elim (checked_splits floats a e.store) [
    | invalid error ↦ (rejected error, e)
    | valid splits ↦
        let (outcome, ledger) =
          post_expense_journal rt draws.journal_ids draws.journal_now a.payer_id splits a.title
            e.ledger in
        elim outcome [
          | raised error ↦ (rejected (ledger_refused error), record e { ledger = ledger })
          | returned journal ↦ store_expense draws a splits journal ledger e
        ]
  ]

-- `[{"payer_id": e.payer_id, "splits": e.splits} for e in expenses]`
abbrev pub raw_transaction : ExpenseRecord → Transaction
raw_transaction e = record { payer_id = e.payer_id; splits = e.splits }

unfoldable pub get_group_net_balances : String → InMemoryStore → Dict ℤ
get_group_net_balances group_id store =
    compute_net_balances (map raw_transaction (get_expenses_for_group group_id store))

-- `sum(max(0, len(e.splits) - 1) for e in expenses)`; the subtraction stops at 0 here.
unfoldable pub pairwise_count : List ExpenseRecord → ℕ
pairwise_count [] = 0
pairwise_count (e ∷ expenses) = length e.splits - 1 + pairwise_count expenses

unfoldable pub get_simplified_debts : (String → String) → String → InMemoryStore → Simplified
unfolding get_group_net_balances pairwise_count
get_simplified_debts sha256 group_id store =
    let expenses = get_expenses_for_group group_id store in
    simplify sha256 (get_group_net_balances group_id store)
      (max (pairwise_count expenses) (length expenses))
