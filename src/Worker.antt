-- ===== src/Worker.antt =====
-- worker/worker.py: the handler of a settlement request.
-- The worker has a ledger of its own; store, cache and outbox are the shared ones. The handler of
-- an `EXPENSE_CREATED` event only writes a log line.
pub mod Settle
pub mod Loop
use expense_settlement_engin.Common.{
  ℕ, zero, suc, ◌+◌, true, Option, none, some, List, [], ◌∷◌, map, String, length, if◌then◌else◌,
  ◌==◌,
}
use expense_settlement_engin.Common.Int.{ℤ, pos, ◌+ℤ◌, sum_by}
use expense_settlement_engin.Common.Text.{◌⧺◌}
use expense_settlement_engin.DebtSimplifier.{
  Settlement, DebtSimplifierResult, Simplified, done, zero_sum_violation, out_of_fuel, simplify,
  compute_net_balances,
}
use expense_settlement_engin.Ledger.{LedgerEngine, LedgerError, Runtime, Outcome, returned, raised}
use expense_settlement_engin.Ledger.Specs.{post_settlement_journal}
use expense_settlement_engin.Store.{
  ExpenseRecord, InMemoryStore, SettlementRecord, get_expenses_for_group, save_settlements,
}
use expense_settlement_engin.Cache.{InMemoryCache, delete}
use expense_settlement_engin.Messaging.{
  Outbox, append, settlement_completed, SettlementCompleted, of_settlement,
}
use expense_settlement_engin.ExpenseService.Service.{raw_transaction}

pub record WorkerState : Type 0 where
  pub store : InMemoryStore
  pub ledger : LedgerEngine
  pub cache : InMemoryCache
  pub outbox : Outbox

-- What one call draws: for the settlement at a position the uuids of its journal, the uuid of its
-- record and the times; and the uuid and the time of the event.
pub record WorkerDraws : Type 0 where
  pub journal_ids : ℕ → ℕ → String
  pub journal_now : ℕ → ℕ
  pub record_uuid : ℕ → String
  pub record_created : ℕ → ℕ
  pub record_executed : ℕ → ℕ
  pub event_uuid : String
  pub event_now : ℕ

-- How the handler ends: it returns, or the error of a journal leaves it.
pub data Handled : Type 0 where
  handled : Handled
  journal_refused : LedgerError → Handled
  endless : Handled

module _ (rt : Runtime) (draws : WorkerDraws) where
  -- The journals of the loop over `result.settlements`, from position `i` on.
  unfoldable pub post_all : ℕ → List Settlement → LedgerEngine → Option LedgerError × LedgerEngine
  post_all i [] ledger = (none, ledger)
  post_all i (s ∷ settlements) ledger =
      let (outcome, ledger') =
        post_settlement_journal rt (draws.journal_ids i) (draws.journal_now i) s.payer_id s.payee_id
          s.amount_cents ("Settlement: " ⧺ s.payer_id ⧺ " -> " ⧺ s.payee_id) ledger in
      let rest = post_all (suc i) settlements ledger' in
      elim outcome [ returned _ ↦ rest | raised error ↦ (some error, ledger') ]

  -- The records of the same loop.
  unfoldable pub records_of : String → String → ℕ → List Settlement → List SettlementRecord
  records_of group_id checksum i [] = []
  records_of group_id checksum i (s ∷ settlements) =
      record {
        id = draws.record_uuid i;
        group_id = group_id;
        payer_id = s.payer_id;
        payee_id = s.payee_id;
        amount_cents = s.amount_cents;
        is_executed = true;
        algorithm = "MaxHeap-O(NlogN)";
        checksum = checksum;
        created_at = draws.record_created i;
        executed_at = some (draws.record_executed i);
      }
      ∷ records_of group_id checksum (suc i) settlements

  abbrev pub completed : String → DebtSimplifierResult → SettlementCompleted
  completed group_id result = record {
    group_id = group_id;
    settlement_count = length result.settlements;
    total_settled_cents = sum_by (λ s. s.amount_cents) result.settlements;
    checksum = result.checksum;
  }

  -- What follows the loop: save the records, drop the cached answers, announce.
  unfoldable pub finish_settlement :
      String → DebtSimplifierResult → LedgerEngine → WorkerState → WorkerState
  unfolding records_of delete append
  finish_settlement group_id result ledger w = record {
    store = save_settlements (records_of group_id result.checksum 0 result.settlements) w.store;
    ledger = ledger;
    cache =
        (delete ("group:" ⧺ group_id ⧺ ":debts")
          (delete ("group:" ⧺ group_id ⧺ ":balances") w.cache).1).1;
    outbox =
        append draws.event_uuid draws.event_now settlement_completed group_id
          (of_settlement (completed group_id result)) w.outbox;
  }

  unfoldable pub settle_result : String → DebtSimplifierResult → WorkerState → Handled × WorkerState
  unfolding post_all finish_settlement
  settle_result group_id result w =
      let (refusal, ledger) = post_all 0 result.settlements w.ledger in
      elim refusal [
        | some error ↦ (journal_refused error, record w { ledger = ledger })
        | none ↦ (handled, finish_settlement group_id result ledger w)
      ]

  -- `_handle_settlement`, on the expenses of the group.
  unfoldable pub settle_expenses : String → List ExpenseRecord → WorkerState → Handled × WorkerState
  unfolding settle_result
  settle_expenses group_id [] w = (handled, w)
  settle_expenses group_id (e ∷ expenses) w =
      let net = compute_net_balances (map raw_transaction (e ∷ expenses)) in
      elim (simplify rt.sha256 net (length (e ∷ expenses))) [
        | zero_sum_violation _ ↦ (handled, w)
        | out_of_fuel ↦ (endless, w)
        | done result ↦ settle_result group_id result w
      ]

  -- `_handle_settlement`
  unfoldable pub handle_settlement : String → WorkerState → Handled × WorkerState
  unfolding settle_expenses
  handle_settlement group_id w =
      if group_id == ""
      then (handled, w)
      else settle_expenses group_id (get_expenses_for_group group_id w.store) w
