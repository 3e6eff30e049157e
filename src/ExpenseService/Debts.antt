-- ===== src/ExpenseService/Debts.antt =====
-- `get_group_net_balances` and `get_simplified_debts` of services/expense_service.py.
use expense_settlement_engin.Common.{◌≡◌, refl, sym, ap, ◌∙◌, List, [], ◌∷◌, String, map}
use expense_settlement_engin.Common.Int.{pos, ◌+ℤ◌, sum_by}
use expense_settlement_engin.Common.Dict.{get_or}
use expense_settlement_engin.DebtSimplifier.{DebtSimplifierResult, done}
use expense_settlement_engin.DebtSimplifier.Round.{net_received}
use expense_settlement_engin.DebtSimplifier.Balances.{due_from, net_balance-eq-due}
use expense_settlement_engin.DebtSimplifier.Settle.{simplify_transactions}
use expense_settlement_engin.Store.{ExpenseRecord, InMemoryStore, get_expenses_for_group}
use expense_settlement_engin.ExpenseService.Consistency.{due_by}
use expense_settlement_engin.ExpenseService.Service.{
  raw_transaction, get_group_net_balances, get_simplified_debts,
}

pub sum_by-raw_transaction :
    (u : String) (l : List ExpenseRecord)
    → sum_by (due_from u) (map raw_transaction l) ≡ sum_by (due_by u) l
unfolding sum_by
sum_by-raw_transaction u [] = refl
sum_by-raw_transaction u (e ∷ l) = ap (λ t. due_by u e +ℤ t) (sum_by-raw_transaction u l)

-- `get_simplified_debts` never raises and always returns, and its settlements bring every user
-- exactly the net balance that `get_group_net_balances` shows, which is what the expenses of the
-- group make the user due.
pub simplified_debts-settle :
    (sha256 : String → String) (group_id : String) (store : InMemoryStore)
    → (r : DebtSimplifierResult) × (get_simplified_debts sha256 group_id store ≡ done r)
      × ((u : String)
          → (sum_by (net_received u) r.settlements
              ≡ get_or u (pos 0) (get_group_net_balances group_id store))
            × (get_or u (pos 0) (get_group_net_balances group_id store)
                ≡ sum_by (due_by u) (get_expenses_for_group group_id store)))
unfolding get_simplified_debts get_group_net_balances
simplified_debts-settle sha256 group_id store =
    let txs = map raw_transaction (get_expenses_for_group group_id store) in
    let (r, ends, pays) = simplify_transactions sha256 txs _ in
    (
      r,
      ends,
      λ u. (
        pays u ∙ sym (net_balance-eq-due txs u),
        net_balance-eq-due txs u ∙ sum_by-raw_transaction u (get_expenses_for_group group_id store),
      ),
    )
