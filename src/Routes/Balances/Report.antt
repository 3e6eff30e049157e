-- ===== src/Routes/Balances/Report.antt =====
-- `get_balances` and `simplify_debts` of api/routes/groups.py: what their answers say of the debts.
use expense_settlement_engin.Common.{
  ℕ, ◌≡◌, ◌↔◌, refl, sym, ◌∙◌, inl, inr, true, none, some, ap, List, [], ◌∷◌, arith, String, ◌==◌,
  map, suc, if◌then◌else◌, All, All-map, Bool-cases,
}
use expense_settlement_engin.Common.Int.{ℤ, pos, ◌≤ℤ◌, sum_by, int_laws, parts_of_eq, ltb_ℤ}
use expense_settlement_engin.Common.Dict.{Dict, lookup, get_or, get_or_found, lookup-entries}
use expense_settlement_engin.DebtSimplifier.{amount, compute_net_balances, Transaction}
use expense_settlement_engin.DebtSimplifier.Balances.{
  net_balances-HasDistinctKeys, net_balances_zero_sum, net_balance-eq-due,
}
use expense_settlement_engin.Store.{InMemoryStore, GroupRecord, truthy, get_expenses_for_group}
use expense_settlement_engin.Idempotency.{Json}
use expense_settlement_engin.Routes.{AppState}
use expense_settlement_engin.Routes.Responses.{responded, GroupBalancesResponse}
use expense_settlement_engin.Routes.Balances.Staleness.{remembered, first_answer}
use expense_settlement_engin.ExpenseService.Service.{raw_transaction, get_group_net_balances}
use expense_settlement_engin.ExpenseService.Consistency.{due_by}
use expense_settlement_engin.ExpenseService.Debts.{sum_by-raw_transaction}
use expense_settlement_engin.Routes.Balances.{
  role_of, entries_of, count_role, all_zero, balances_result, get_balances,
}

abbrev pub creditors_of : Dict ℤ → ℕ
creditors_of d = count_role "CREDITOR" (entries_of d)

abbrev pub debtors_of : Dict ℤ → ℕ
debtors_of d = count_role "DEBTOR" (entries_of d)

creditor_test : (v : ℤ) → (role_of v == "CREDITOR") ≡ ltb_ℤ (pos 0) v
unfolding role_of
creditor_test v = elim (Bool-cases (ltb_ℤ (pos 0) v)) [
  | inl more ↦ rw (more, role_of)
  | inr not_more ↦ elim (Bool-cases (ltb_ℤ v (pos 0))) [
    | inl less ↦ rw (not_more, less, role_of)
    | inr zero ↦ rw (not_more, zero, role_of)
  ]
]

debtor_test : (v : ℤ) → (role_of v == "DEBTOR") ≡ ltb_ℤ v (pos 0)
unfolding role_of
debtor_test v = elim (Bool-cases (ltb_ℤ (pos 0) v)) [
  | inl more ↦ rw (more, role_of) (sym (ground arith))
  | inr not_more ↦ elim (Bool-cases (ltb_ℤ v (pos 0))) [
    | inl less ↦ rw (not_more, less, role_of)
    | inr zero ↦ rw (not_more, zero, role_of)
  ]
]

pub creditors-step :
    (k : String) (v : ℤ) (d : Dict ℤ)
    → creditors_of ((k, v) ∷ d) ≡ (if ltb_ℤ (pos 0) v then suc (creditors_of d) else creditors_of d)
unfolding entries_of count_role
creditors-step k v d = rw (creditor_test v)

pub debtors-step :
    (k : String) (v : ℤ) (d : Dict ℤ)
    → debtors_of ((k, v) ∷ d) ≡ (if ltb_ℤ v (pos 0) then suc (debtors_of d) else debtors_of d)
unfolding entries_of count_role
debtors-step k v d = rw (debtor_test v)

-- Without a creditor no balance is above zero, so a sum of zero leaves only zeros.
without_creditors :
    (d : Dict ℤ)
    → creditors_of d ≡ 0
    → (sum_by amount d ≤ℤ pos 0) × (sum_by amount d ≡ pos 0 → all_zero (entries_of d) ≡ true)
unfolding entries_of all_zero sum_by
without_creditors [] h = (omega arith, λ e. refl)
without_creditors ((k, v) ∷ d) h =
    let (few, low) : (creditors_of d ≡ 0) × (v ≤ℤ pos 0) = ground (arith, creditors-step k v d) in
    let rest = without_creditors d few in
    (
      omega (int_laws, rest.0),
      λ e.
          let none_left : v ≡ pos 0 = omega (int_laws, rest.0, parts_of_eq _ _ e) in
          rw (none_left, rest.1 (omega (int_laws, rest.0, parts_of_eq _ _ e))),
    )

without_debtors :
    (d : Dict ℤ)
    → debtors_of d ≡ 0
    → (pos 0 ≤ℤ sum_by amount d) × (sum_by amount d ≡ pos 0 → all_zero (entries_of d) ≡ true)
unfolding entries_of all_zero sum_by
without_debtors [] h = (omega arith, λ e. refl)
without_debtors ((k, v) ∷ d) h =
    let (few, high) : (debtors_of d ≡ 0) × (pos 0 ≤ℤ v) = ground (arith, debtors-step k v d) in
    let rest = without_debtors d few in
    (
      omega (int_laws, rest.0),
      λ e.
          let none_left : v ≡ pos 0 = omega (int_laws, rest.0, parts_of_eq _ _ e) in
          rw (none_left, rest.1 (omega (int_laws, rest.0, parts_of_eq _ _ e))),
    )

zeros-count :
    (d : Dict ℤ) → all_zero (entries_of d) ≡ true → (creditors_of d ≡ 0) × (debtors_of d ≡ 0)
unfolding entries_of count_role all_zero
zeros-count [] h = (refl, refl)
zeros-count ((k, v) ∷ d) h = ground (arith, creditors-step k v d, debtors-step k v d, zeros-count d)

-- All entries are zero exactly when every user's balance is.
zeros-balance :
    (d : Dict ℤ) → all_zero (entries_of d) ≡ true → (u : String) → get_or u (pos 0) d ≡ pos 0
unfolding entries_of all_zero lookup
zeros-balance [] h u = refl
zeros-balance ((k, v) ∷ d) h u =
    let (here, there) : (v ≡ pos 0) × (all_zero (entries_of d) ≡ true) = ground arith in
    let rest = zeros-balance d there u in
    elim (Bool-cases (k == u)) [
      | inl same ↦ rw (same, get_or) here
      | inr other ↦ rw (other, get_or) rest
    ]

balance-zeros : (d : Dict ℤ) → All (λ e. e.1 ≡ pos 0) d → all_zero (entries_of d) ≡ true
unfolding entries_of all_zero
balance-zeros [] h = refl
balance-zeros ((k, v) ∷ d) h = rw (h.0, balance-zeros d h.1)

module _ (group_id : String) (store : InMemoryStore) where
  abbrev txs : List Transaction
  txs = map raw_transaction (get_expenses_for_group group_id store)

  abbrev net : Dict ℤ
  net = compute_net_balances txs

  settled-zero : ((u : String) → get_or u (pos 0) net ≡ pos 0) → all_zero (entries_of net) ≡ true
  settled-zero h = balance-zeros net (
      All-map (λ e. lookup e.0 net ≡ some e.1) _ net
        (λ e found. sym (get_or_found e.0 (pos 0) net found) ∙ h e.0)
        (lookup-entries net (net_balances-HasDistinctKeys txs)))

  -- The answer computed from the stored expenses.
  result_report :
      let r = balances_result group_id store in
      ((r.is_settled ≡ true)
        ↔ ((u : String) → sum_by (due_by u) (get_expenses_for_group group_id store) ≡ pos 0))
      × ((r.total_creditors ≡ 0) ↔ (r.is_settled ≡ true))
      × ((r.total_debtors ≡ 0) ↔ (r.is_settled ≡ true))
  unfolding balances_result get_group_net_balances
  result_report =
      let due_is = λ (u : String).
        net_balance-eq-due txs u
        ∙ sum_by-raw_transaction u (get_expenses_for_group group_id store) in
      let zero_sum = net_balances_zero_sum txs in
      (
        (
          λ settled u. sym (due_is u) ∙ zeros-balance net settled u,
          λ even. settled-zero (λ u. due_is u ∙ even u),
        ),
        (λ h. (without_creditors net h).1 zero_sum, λ settled. (zeros-count net settled).0),
        (λ h. (without_debtors net h).1 zero_sum, λ settled. (zeros-count net settled).1),
      )

-- On a group that exists, with nothing in the cache for it that is still alive, `get_balances` answers
-- with a report that calls the group settled exactly when its expenses make every user due nothing.
-- It counts no creditor exactly when the group is settled, and no debtor exactly when it is settled.
pub balances_report :
    (json : Json GroupBalancesResponse) (ticks : ℕ) (group_id : String) (now later : ℕ)
    (st : AppState) (g : GroupRecord)
    → lookup group_id st.engine.store.groups ≡ some g
    → truthy (remembered json ticks group_id now st.cache) ≡ none
    → (r : GroupBalancesResponse) × ((get_balances json ticks now later group_id st).0
        ≡ responded r)
      × ((r.is_settled ≡ true) ↔ (
          (u : String)
          → sum_by (due_by u) (get_expenses_for_group group_id st.engine.store) ≡ pos 0))
      × ((r.total_creditors ≡ 0) ↔ (r.is_settled ≡ true))
      × ((r.total_debtors ≡ 0) ↔ (r.is_settled ≡ true))
balances_report json ticks group_id now later st g found missed =
    let r = result_report group_id st.engine.store in
    (
      balances_result group_id st.engine.store,
      ap (λ p. p.0) (first_answer json ticks group_id now later st g found missed),
      r.0,
      r.1,
      r.2,
    )
