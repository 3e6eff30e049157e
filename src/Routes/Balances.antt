-- ===== src/Routes/Balances.antt =====
-- `get_balances` of api/routes/groups.py, with its answer in the cache for 60 seconds.
pub mod Report
pub mod Agreement
pub mod Staleness
use expense_settlement_engin.Common.{
  ℕ, zero, suc, Bool, true, false, Option, none, some, List, [], ◌∷◌, String, if◌then◌else◌, ◌==◌,
}
use expense_settlement_engin.Common.Int.{ℤ, pos, ltb_ℤ, eqb_ℤ}
use expense_settlement_engin.Common.Dict.{Dict}
use expense_settlement_engin.Common.Text.{◌⧺◌}
use expense_settlement_engin.Store.{InMemoryStore, get_group, truthy}
use expense_settlement_engin.Cache.{InMemoryCache, get, set}
use expense_settlement_engin.Idempotency.{Json}
use expense_settlement_engin.ExpenseService.Service.{get_group_net_balances}
use expense_settlement_engin.Routes.{AppState}
use expense_settlement_engin.Routes.Responses.{
  Http, responded, http_error, BalanceEntry, GroupBalancesResponse,
}

abbrev pub balances_key : String → String
balances_key group_id = "group:" ⧺ group_id ⧺ ":balances"

abbrev pub balances_ttl : ℕ
balances_ttl = 60

unfoldable pub role_of : ℤ → String
role_of cents =
    if ltb_ℤ (pos 0) cents then "CREDITOR" else if ltb_ℤ cents (pos 0) then "DEBTOR" else "SETTLED"

-- The loop over `net.items()`.
unfoldable pub entries_of : Dict ℤ → List BalanceEntry
unfolding role_of
entries_of [] = []
entries_of ((uid, cents) ∷ net) =
    record { user_id = uid; net_cents = cents; role = role_of cents } ∷ entries_of net

-- `sum(1 for e in entries if e.role == role)`
unfoldable pub count_role : String → List BalanceEntry → ℕ
count_role role [] = 0
count_role role (e ∷ entries) =
    if e.role == role then suc (count_role role entries) else count_role role entries

-- `all(e.net_cents == 0 for e in entries)`
unfoldable pub all_zero : List BalanceEntry → Bool
all_zero [] = true
all_zero (e ∷ entries) = if eqb_ℤ e.net_cents (pos 0) then all_zero entries else false

unfoldable pub balances_result : String → InMemoryStore → GroupBalancesResponse
unfolding get_group_net_balances entries_of count_role all_zero
balances_result group_id store =
    let entries = entries_of (get_group_net_balances group_id store) in
    record {
      group_id = group_id;
      member_balances = entries;
      total_creditors = count_role "CREDITOR" entries;
      total_debtors = count_role "DEBTOR" entries;
      is_settled = all_zero entries;
      cached = false;
    }

module _ (json : Json GroupBalancesResponse) (ticks : ℕ) where
  -- The answer from what the cache holds; a text that is no JSON raises.
  unfoldable pub cached_answer : String → Http GroupBalancesResponse
  cached_answer raw = elim (json.loads raw) [
    | none ↦ http_error 400
    | some data_ ↦ responded (record data_ { cached = true })
  ]

  -- The answer computed anew, and kept in the cache.
  unfoldable pub fresh_answer : ℕ → String → AppState → Http GroupBalancesResponse × AppState
  unfolding balances_result set
  fresh_answer later group_id st = elim (get_group group_id st.engine.store) [
    | none ↦ (http_error 404, st)
    | some _ ↦
        let result = balances_result group_id st.engine.store in
        (
          responded result,
          record st {
            cache =
                (set ticks later (balances_key group_id) (json.dumps result) (some balances_ttl)
                  false st.cache).1;
          },
        )
  ]

  -- `get_balances`; the clock is read for the lookup, and for the new answer.
  unfoldable pub get_balances : ℕ → ℕ → String → AppState → Http GroupBalancesResponse × AppState
  unfolding get cached_answer fresh_answer
  get_balances now later group_id st =
      let (cached, cache) = get now (balances_key group_id) st.cache in
      elim (truthy cached) [
        | some raw ↦ (cached_answer raw, record st { cache = cache })
        | none ↦ fresh_answer later group_id (record st { cache = cache })
      ]
