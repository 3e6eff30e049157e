-- ===== src/Routes.antt =====
-- api/routes/expenses.py: the request that creates an expense, with its idempotency key.
pub mod Expenses
pub mod Responses
pub mod Groups
pub mod Balances
pub mod Users
pub mod Schemas
use expense_settlement_engin.Common.{ℕ, Option, none, some, List, [], ◌∷◌, map, String}
use expense_settlement_engin.Common.Int.{ℤ}
use expense_settlement_engin.DebtSimplifier.{Split}
use expense_settlement_engin.Ledger.{Runtime}
use expense_settlement_engin.Store.{ExpenseRecord, InMemoryStore, truthy, get_expenses_for_group}
use expense_settlement_engin.Cache.{InMemoryCache}
use expense_settlement_engin.Idempotency.{
  Json, Lock, acquired, duplicate, check_and_lock, store_response, release,
}
use expense_settlement_engin.ExpenseService.Service.{
  Engine, Draws, created, rejected, create_expense,
}
use expense_settlement_engin.ExpenseService.{Floats, SplitInput, ExpenseArgs, ExpenseError}

-- The body of the request, as the schema lets it through.
pub record CreateExpenseRequest (F : Type 0) : Type 0 where
  pub payer_id : String
  pub title : String
  pub total_cents : ℤ
  pub split_type : String
  pub splits : Option (List (SplitInput F))
  pub idempotency_key : Option String

-- The response, less the amount in dollars; `created_at` is the time and not its text.
pub record ExpenseResponse : Type 0 where
  pub id : String
  pub group_id : String
  pub payer_id : String
  pub title : String
  pub total_cents : ℤ
  pub split_type : String
  pub status : String
  pub splits : List Split
  pub idempotency_key : Option String
  pub journal_id : Option String
  pub created_at : ℕ

-- `_fmt_expense`
unfoldable pub fmt_expense : ExpenseRecord → ExpenseResponse
fmt_expense e = record {
  id = e.id;
  group_id = e.group_id;
  payer_id = e.payer_id;
  title = e.title;
  total_cents = e.total_cents;
  split_type = e.split_type;
  status = e.status;
  splits = e.splits;
  idempotency_key = e.idempotency_key;
  journal_id = e.journal_id;
  created_at = e.created_at;
}

pub record AppState : Type 0 where
  pub engine : Engine
  pub cache : InMemoryCache

-- A response, or an `HTTPException`: 409 for a duplicate, 400 for an error of the service.
pub data Reply : Type 0 where
  replied : ExpenseResponse → Reply
  still_processing : Reply
  bad_request : ExpenseError → Reply

-- What one request draws; the clock is read for the lock, twice, and for the stored response.
pub record RequestDraws : Type 0 where
  pub service : Draws
  pub lock_now : ℕ
  pub lock_later : ℕ
  pub store_now : ℕ

-- `x_idempotency_key or body.idempotency_key`
unfoldable pub resolve_key : Option String → Option String → Option String
resolve_key header in_body = elim (truthy header) [ none ↦ in_body | some k ↦ some k ]

-- `if body.splits:`
abbrev pub splits_or_none :
    {F : Type 0} → Option (List (SplitInput F)) → Option (List (SplitInput F))
splits_or_none none = none
splits_or_none (some []) = none
splits_or_none (some (d ∷ l)) = some (d ∷ l)

-- The arguments for the service.
unfoldable pub service_args :
    {F : Type 0} → String → Option String → CreateExpenseRequest F → ExpenseArgs F
unfolding resolve_key
service_args group_id header body = record {
  group_id = group_id;
  payer_id = body.payer_id;
  title = body.title;
  total_cents = body.total_cents;
  split_type = body.split_type;
  splits_input = splits_or_none body.splits;
  idempotency_key = resolve_key header body.idempotency_key;
}

module _ {F : Type 0} (floats : Floats F) (rt : Runtime) (json : Json ExpenseResponse)
    (ticks : ℕ) where
  -- The call of the service, and what follows it, without a key.
  unfoldable pub serve : RequestDraws → ExpenseArgs F → AppState → Reply × AppState
  unfolding create_expense fmt_expense
  serve draws a st =
      let (answer, engine) = create_expense floats rt draws.service a st.engine in
      elim answer [
        | created x ↦ (replied (fmt_expense x), record st { engine = engine })
        | rejected error ↦ (bad_request error, record st { engine = engine })
      ]

  -- The same under the lock of a key: the response is stored, or the key is released.
  unfoldable pub serve_locked : RequestDraws → String → ExpenseArgs F → AppState → Reply × AppState
  unfolding create_expense fmt_expense store_response release
  serve_locked draws key a st =
      let (answer, engine) = create_expense floats rt draws.service a st.engine in
      elim answer [
        | created x ↦ (
          replied (fmt_expense x),
          record {
            engine = engine;
            cache = store_response json ticks draws.store_now key (fmt_expense x) st.cache;
          },
        )
        | rejected error ↦
            (bad_request error, record { engine = engine; cache = release key st.cache })
      ]

  -- The gate of a key.
  unfoldable pub gate : RequestDraws → String → ExpenseArgs F → AppState → Reply × AppState
  unfolding check_and_lock serve_locked
  gate draws key a st =
      let (lock, cache) = check_and_lock json ticks draws.lock_now draws.lock_later key st.cache in
      elim lock [
        | duplicate (some response) ↦ (replied response, record st { cache = cache })
        | duplicate none ↦ (still_processing, record st { cache = cache })
        | acquired ↦ serve_locked draws key a (record st { cache = cache })
      ]

  -- `create_expense` of the route
  unfoldable pub create_expense_route :
      RequestDraws → String → Option String → CreateExpenseRequest F → AppState → Reply × AppState
  unfolding service_args gate serve
  create_expense_route draws group_id header body st =
      let a = service_args group_id header body in
      elim (truthy a.idempotency_key) [ none ↦ serve draws a st | some key ↦ gate draws key a st ]

-- `list_expenses`
unfoldable pub list_expenses : String → InMemoryStore → List ExpenseResponse
unfolding fmt_expense get_expenses_for_group
list_expenses group_id store = map fmt_expense (get_expenses_for_group group_id store)
