-- ===== src/DebtSimplifier/Settle.antt =====
-- From raw transactions to settlements: `compute_net_balances`, then `simplify`, of
-- core/debt_simplifier.py.
use expense_settlement_engin.Common.{ℕ, ◌≡◌, ◌∙◌, List, String}
use expense_settlement_engin.Common.Int.{sum_by}
use expense_settlement_engin.DebtSimplifier.Round.{net_received}
use expense_settlement_engin.DebtSimplifier.Balances.{
  due_from, net_balances-HasDistinctKeys, net_balances_zero_sum, net_balance-eq-due,
}
use expense_settlement_engin.DebtSimplifier.Simplify.{simplify-settles}
use expense_settlement_engin.DebtSimplifier.{
  DebtSimplifierResult, done, simplify, Transaction, compute_net_balances,
}

-- On the net balances of any transactions `simplify` never raises and always returns, and its
-- settlements bring every user exactly what the user is owed by the transactions less what the
-- user owes.
pub simplify_transactions :
    (sha256 : String → String) (txs : List Transaction) (original : ℕ)
    → (r : DebtSimplifierResult) × (simplify sha256 (compute_net_balances txs) original ≡ done r)
      × ((u : String) → sum_by (net_received u) r.settlements ≡ sum_by (due_from u) txs)
simplify_transactions sha256 txs original =
    let (r, ends, pays) =
      simplify-settles sha256 (compute_net_balances txs) original (net_balances-HasDistinctKeys txs)
        (net_balances_zero_sum txs) in
    (r, ends, λ u. pays u ∙ net_balance-eq-due txs u)
