-- ===== src/Routes/Balances/Agreement.antt =====
-- `simplify_debts` of api/routes/groups.py beside `get_balances`, on the same expenses.
use expense_settlement_engin.Common.{
  ℕ, ◌+◌, ◌-◌, ◌≤◌, ◌<◌, ◌≡◌, ◌⊎◌, inl, inr, zero, none, refl, sym, ap, ◌∙◌, some, List, [], ◌∷◌,
  arith, String, length, map, suc, max,
}
use expense_settlement_engin.Common.Int.{ℤ, pos, ◌+ℤ◌, ◌-ℤ◌, sum_by}
use expense_settlement_engin.Common.Dict.{Dict, lookup}
use expense_settlement_engin.DebtSimplifier.Heapq.{length-heappush}
use expense_settlement_engin.DebtSimplifier.{
  Settlement, Matching, push_balance, build_heaps, compute_net_balances, Transaction, report,
}
use expense_settlement_engin.DebtSimplifier.Round.{net_received}
use expense_settlement_engin.DebtSimplifier.Build.{build_settlements}
use expense_settlement_engin.DebtSimplifier.Balances.{
  net_balances-HasDistinctKeys, net_balances_zero_sum, net_balance-eq-due,
}
use expense_settlement_engin.DebtSimplifier.Simplify.{empty, simplify-report, position-start}
use expense_settlement_engin.Store.{GroupRecord, truthy, get_expenses_for_group}
use expense_settlement_engin.Idempotency.{Json}
use expense_settlement_engin.Routes.{AppState}
use expense_settlement_engin.Routes.Balances.Staleness.{remembered, first_answer}
use expense_settlement_engin.ExpenseService.Service.{
  Engine, raw_transaction, get_group_net_balances, get_simplified_debts, pairwise_count,
}
use expense_settlement_engin.ExpenseService.Consistency.{due_by}
use expense_settlement_engin.ExpenseService.Debts.{sum_by-raw_transaction}
use expense_settlement_engin.Routes.Responses.{
  responded, GroupBalancesResponse, SettlementItem, settlement_items, SimplifyResponse,
}
use expense_settlement_engin.Routes.Groups.{with_group, simplify_debts, simplify_response}
use expense_settlement_engin.Routes.Balances.{entries_of, count_role, balances_result, get_balances}
use expense_settlement_engin.Routes.Balances.Report.{
  creditors_of, debtors_of, creditors-step, debtors-step,
}

-- Each creditor and each debtor is on a heap once.
push_balance-length :
    (k : String) (v : ℤ) (d : Dict ℤ) (m : Matching)
    → let m' = push_balance k v m in
      (length m'.creditors + creditors_of d ≡ length m.creditors + creditors_of ((k, v) ∷ d))
      × (length m'.debtors + debtors_of d ≡ length m.debtors + debtors_of ((k, v) ∷ d))
unfolding push_balance
push_balance-length k v d m = ground (
  arith,
  creditors-step k v d,
  debtors-step k v d,
  length-heappush (pos 0 -ℤ v, k) m.creditors,
  length-heappush (v, k) m.debtors,
)

build_heaps-lengths :
    (d : Dict ℤ) (m : Matching)
    → let m' = build_heaps d m in
      (length m'.creditors ≡ length m.creditors + creditors_of d)
      × (length m'.debtors ≡ length m.debtors + debtors_of d)
unfolding build_heaps entries_of count_role
build_heaps-lengths [] m = (omega arith, omega arith)
build_heaps-lengths ((k, v) ∷ d) m =
    let rest = build_heaps-lengths d (push_balance k v m) in
    let first = push_balance-length k v d m in
    (omega (arith, rest.0, first.0), omega (arith, rest.1, first.1))

-- What an item of the answer brings to a user.
abbrev pub item_received : String → SettlementItem → ℤ
item_received u i =
    net_received u
      (record { payer_id = i.payer_id; payee_id = i.payee_id; amount_cents = i.amount_cents })

items_received :
    (u : String) (l : List Settlement)
    → sum_by (item_received u) (settlement_items l) ≡ sum_by (net_received u) l
unfolding sum_by settlement_items
items_received u [] = refl
items_received u (s ∷ l) = ap (λ t. net_received u s +ℤ t) (items_received u l)

items-length : (l : List Settlement) → length (settlement_items l) ≡ length l
unfolding settlement_items
items-length [] = refl
items-length (s ∷ l) = ap suc (items-length l)

module _ (sha256 : String → String) (group_id : String) (e : Engine) where
  abbrev txs : List Transaction
  txs = map raw_transaction (get_expenses_for_group group_id e.store)

  -- The count of the payments without simplification.
  abbrev counted : ℕ
  counted =
      let expenses = get_expenses_for_group group_id e.store in
      max (pairwise_count expenses) (length expenses)

  -- The answer of `simplify_debts`, beside the balances computed from the stored expenses.
  debts_answered :
      (g : GroupRecord)
      → lookup group_id e.store.groups ≡ some g
      → let b = balances_result group_id e.store in
        (r : SimplifyResponse) × (simplify_debts sha256 group_id e ≡ responded r)
        × ((u : String)
            → sum_by (item_received u) r.settlements
              ≡ sum_by (due_by u) (get_expenses_for_group group_id e.store))
        × (length r.settlements ≤ b.total_creditors + b.total_debtors - 1)
        × (r.simplified_transaction_count ≡ length r.settlements)
  unfolding balances_result get_group_net_balances get_simplified_debts report simplify_debts
      with_group
  debts_answered g found =
      let net = compute_net_balances txs in
      let distinct = net_balances-HasDistinctKeys txs in
      let zero_sum = net_balances_zero_sum txs in
      let (out, ends, s) = simplify-report net distinct zero_sum sha256 counted in
      let sizes = build_heaps-lengths net empty in
      (
        simplify_response group_id (report sha256 net counted out),
        rw (found, with_group) (rw ends),
        λ u.
            items_received u out
            ∙ s.pays u
            ∙ position-start net distinct zero_sum u
            ∙ net_balance-eq-due txs u
            ∙ sum_by-raw_transaction u (get_expenses_for_group group_id e.store),
        omega (
          arith,
          s.count,
          sizes.0,
          sizes.1,
          items-length out,
          ap length (build_settlements net empty),
        ),
        sym (items-length out),
      )

none_or_fewer : (n k : ℕ) → n ≤ k - 1 → (n ≡ 0) ⊎ (n < k)
none_or_fewer zero k le = inl refl
none_or_fewer (suc n) k le = inr (omega arith)

-- On a group that exists, with nothing in the cache for it that is still alive, `get_balances` and
-- `simplify_debts` both answer, never with an error. The settlements bring every user what the
-- expenses of the group make the user due; there are none, or they are fewer than the creditors and
-- the debtors that `get_balances` counts; the answer reports their number.
pub simplify_debts_agrees :
    (sha256 : String → String) (json : Json GroupBalancesResponse) (ticks : ℕ) (group_id : String)
    (now later : ℕ) (st : AppState) (g : GroupRecord)
    → lookup group_id st.engine.store.groups ≡ some g
    → truthy (remembered json ticks group_id now st.cache) ≡ none
    → (b : GroupBalancesResponse) × (r : SimplifyResponse) × ((get_balances json ticks now later
          group_id st).0
        ≡ responded b)
      × (simplify_debts sha256 group_id st.engine ≡ responded r)
      × ((u : String)
          → sum_by (item_received u) r.settlements
            ≡ sum_by (due_by u) (get_expenses_for_group group_id st.engine.store))
      × ((length r.settlements ≡ 0) ⊎ (length r.settlements < b.total_creditors + b.total_debtors))
      × (r.simplified_transaction_count ≡ length r.settlements)
simplify_debts_agrees sha256 json ticks group_id now later st g found missed =
    let d = debts_answered sha256 group_id st.engine g found in
    let b = balances_result group_id st.engine.store in
    (
      b,
      d.0,
      ap (λ p. p.0) (first_answer json ticks group_id now later st g found missed),
      d.1,
      d.2,
      none_or_fewer (length d.0.settlements) (b.total_creditors + b.total_debtors) d.3,
      d.4,
    )
