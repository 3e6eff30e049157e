-- ===== src/Routes/Groups.antt =====
-- api/routes/groups.py, less the route of the balances, which is in Balances.
use expense_settlement_engin.Common.{ℕ, none, some, List, [], map, String}
use expense_settlement_engin.DebtSimplifier.{
  DebtSimplifierResult, zero_sum_violation, done, out_of_fuel,
}
use expense_settlement_engin.Store
use expense_settlement_engin.GroupService.{Answer, ok, error, get_members}
use expense_settlement_engin.GroupService
use expense_settlement_engin.Messaging.{append, settlement_requested, of_request}
use expense_settlement_engin.ExpenseService.Service.{
  Engine, get_group_net_balances, get_simplified_debts,
}
use expense_settlement_engin.Routes.Responses.{
  Http, responded, http_error, no_answer, UserResponse, GroupResponse, fmt_user, fmt_group,
  AddedMember, settlement_items, SimplifyResponse, SettleResponse,
}

unfoldable pub create_group : String → ℕ → String → Engine → Http GroupResponse × Engine
unfolding Store.create_group fmt_group
create_group uuid now name e =
    let (group, store) = Store.create_group uuid now name e.store in
    (responded (fmt_group group), record e { store = store })

-- `if not group: raise HTTPException(status_code=404, ...)`
unfoldable pub with_group : {A : Type 0} → String → Engine → Http A → Http A
with_group group_id e answer = elim (Store.get_group group_id e.store) [
  | none ↦ http_error 404
  | some _ ↦ answer
]

unfoldable pub get_group : String → Engine → Http GroupResponse
unfolding fmt_group
get_group group_id e = elim (Store.get_group group_id e.store) [
  | none ↦ http_error 404
  | some group ↦ responded (fmt_group group)
]

-- `add_member`; a `ValueError` of the service is 404.
unfoldable pub add_member : String → String → Engine → Http AddedMember × Engine
unfolding GroupService.add_member
add_member group_id user_id e =
    let (answer, store) = GroupService.add_member group_id user_id e.store in
    elim answer [
      | error _ ↦ (http_error 404, record e { store = store })
      | ok _ ↦ (
        responded (record { user_id = user_id; group_id = group_id }),
        record e { store = store },
      )
    ]

unfoldable pub list_members : String → Engine → List UserResponse
unfolding get_members fmt_user
list_members group_id e = map fmt_user (get_members group_id e.store)

abbrev pub simplify_response : String → DebtSimplifierResult → SimplifyResponse
simplify_response group_id result = record {
  group_id = group_id;
  settlements = settlement_items result.settlements;
  original_transaction_count = result.original_transaction_count;
  simplified_transaction_count = result.simplified_transaction_count;
  checksum = result.checksum;
}

-- `simplify_debts`; a `ZeroSumViolationError` would be answered by the handler for any exception.
unfoldable pub simplify_debts : (String → String) → String → Engine → Http SimplifyResponse
unfolding with_group get_simplified_debts settlement_items
simplify_debts sha256 group_id e =
    with_group group_id e (elim (get_simplified_debts sha256 group_id e.store) [
      | zero_sum_violation _ ↦ http_error 500
      | out_of_fuel ↦ no_answer
      | done result ↦ responded (simplify_response group_id result)
    ])

-- The event that `settle_group` appends.
abbrev pub requested : String → ℕ → String → String → Engine → Engine
requested uuid now group_id requested_by e = record e {
  outbox =
      append uuid now settlement_requested group_id
        (of_request group_id requested_by (get_group_net_balances group_id e.store)) e.outbox;
}

unfoldable pub settle_group : String → ℕ → String → String → Engine → Http SettleResponse × Engine
unfolding get_group_net_balances append
settle_group uuid now group_id requested_by e = elim (Store.get_group group_id e.store) [
  | none ↦ (http_error 404, e)
  | some _ ↦ (
    responded (record { group_id = group_id; status = "QUEUED"; settlements = []; checksum = "" }),
    requested uuid now group_id requested_by e,
  )
]
