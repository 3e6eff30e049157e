-- ===== src/Tests/Balances.antt =====
-- api/routes/groups.py: the balances of a group with one dinner.
use expense_settlement_engin.Common.{
  ◌⊎◌, ◌<◌, ℕ, ◌+◌, ◌≡◌, ◌↔◌, refl, true, none, some, [], ◌∷◌, String, length, arith,
}
use expense_settlement_engin.Common.Int.{pos, sum_by}
use expense_settlement_engin.Common.Dict.{lookup, values}
use expense_settlement_engin.Store.{empty_store, of_group, get_expenses_for_group}
use expense_settlement_engin.Cache.{empty_cache, is_expired}
use expense_settlement_engin.Cache.View.{live}
use expense_settlement_engin.Idempotency.{Json}
use expense_settlement_engin.Messaging.{empty_outbox}
use expense_settlement_engin.Ledger.{empty_ledger}
use expense_settlement_engin.ExpenseService.Consistency.{due_by}
use expense_settlement_engin.ExpenseService.Service.{Engine}
use expense_settlement_engin.Worker.{handle_settlement}
use expense_settlement_engin.Routes.{
  CreateExpenseRequest, ExpenseResponse, AppState, resolve_key, service_args, create_expense_route,
  fmt_expense,
}
use expense_settlement_engin.Routes.Responses.{responded, GroupBalancesResponse, SimplifyResponse}
use expense_settlement_engin.Routes.Groups.{simplify_debts}
use expense_settlement_engin.Routes.Balances.{balances_result, get_balances}
use expense_settlement_engin.Routes.Balances.Report.{balances_report}
use expense_settlement_engin.Routes.Balances.Agreement.{item_received, simplify_debts_agrees}
use expense_settlement_engin.Routes.Balances.Staleness.{new_expense_unseen, settlement_refreshes}
use expense_settlement_engin.Tests.Requests.{plain, whole, house, at_once}
use expense_settlement_engin.Tests.Messages.{dinner, idle, draws}

abbrev pub dined : Engine
dined = record {
  store = record empty_store { groups = ("g", house) ∷ []; expenses = ("e1", dinner) ∷ [] };
  ledger = empty_ledger;
  outbox = empty_outbox;
}

house-found : lookup "g" dined.store.groups ≡ some house
unfolding lookup
house-found = refl

abbrev pub noon : AppState
noon = record { engine = dined; cache = empty_cache }

abbrev pub one_answer : Json GroupBalancesResponse
one_answer = record { dumps = λ r. "{}"; loads = λ s. some (balances_result "g" dined.store) }

abbrev pub one_expense : Json ExpenseResponse
one_expense = record { dumps = λ r. "{}"; loads = λ s. some (fmt_expense dinner) }

balances_report_example :
    (r : GroupBalancesResponse) × ((get_balances one_answer 10 0 1 "g" noon).0 ≡ responded r)
    × ((r.is_settled ≡ true)
        ↔ ((u : String) → sum_by (due_by u) (get_expenses_for_group "g" dined.store) ≡ pos 0))
    × ((r.total_creditors ≡ 0) ↔ (r.is_settled ≡ true))
    × ((r.total_debtors ≡ 0) ↔ (r.is_settled ≡ true))
unfolding live lookup
balances_report_example = balances_report one_answer 10 "g" 0 1 noon house house-found refl

simplify_debts_agrees_example :
    (b : GroupBalancesResponse) × (r : SimplifyResponse) × ((get_balances one_answer 10 0 1 "g"
        noon).0
      ≡ responded b)
    × (simplify_debts plain.sha256 "g" dined ≡ responded r)
    × ((u : String)
        → sum_by (item_received u) r.settlements
          ≡ sum_by (due_by u) (get_expenses_for_group "g" dined.store))
    × ((length r.settlements ≡ 0) ⊎ (length r.settlements < b.total_creditors + b.total_debtors))
    × (r.simplified_transaction_count ≡ length r.settlements)
unfolding live lookup
simplify_debts_agrees_example =
    simplify_debts_agrees plain.sha256 one_answer 10 "g" 0 1 noon house house-found refl

abbrev pub lunch : CreateExpenseRequest ℕ
lunch = record {
  payer_id = "bob";
  title = "Lunch";
  total_cents = pos 10;
  split_type = "EQUAL";
  splits = none;
  idempotency_key = none;
}

nothing-cached : live 1 "group:g:balances" empty_cache ≡ none
unfolding live is_expired lookup
nothing-cached = refl

lunch-keyless : (service_args "g" none lunch).idempotency_key ≡ none
unfolding service_args resolve_key
lunch-keyless = refl

new_expense_unseen_example :
    let r = balances_result "g" dined.store in
    let (first, kept) = get_balances one_answer 1 1 1 "g" noon in
    let (_, after) = create_expense_route whole plain one_expense 1 at_once "g" none lunch kept in
    (first ≡ responded r)
    × ((get_balances one_answer 1 50 51 "g" after).0 ≡ responded (record r { cached = true }))
new_expense_unseen_example =
    new_expense_unseen whole plain one_expense one_answer 1 1 1 50 51 "g" noon house at_once none
      lunch house-found (rw nothing-cached) (rw lunch-keyless) refl refl (omega arith) (omega arith)

dinner-found : get_expenses_for_group "g" idle.store ≡ dinner ∷ []
unfolding get_expenses_for_group of_group values
dinner-found = refl

settlement_refreshes_example :
    let after = (handle_settlement plain draws "g" idle).1 in
    (get_balances one_answer 1 3 4 "g" (record { engine = dined; cache = after.cache })).0
    ≡ responded (balances_result "g" dined.store)
settlement_refreshes_example =
    settlement_refreshes one_answer 1 plain draws "g" idle dinner [] 3 4 dined house refl
      dinner-found house-found
