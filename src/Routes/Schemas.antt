-- ===== src/Routes/Schemas.antt =====
-- The validators of the requests of api/schemas/schemas.py, in front of the routes that create a
-- user, a group and an expense. A request that a validator rejects is answered with 422.
pub mod Replies
pub mod Accepted
pub mod Emails
use expense_settlement_engin.Common.{
  ℕ, Bool, true, false, Option, none, some, List, [], ◌∷◌, String, if◌then◌else◌, ltb, leb, eqb,
}
use Prim.Native.Char.{code}
use Prim.Native.String
use expense_settlement_engin.Common.Int.{ℤ, pos, ltb_ℤ}
use expense_settlement_engin.Ledger.{Runtime}
use expense_settlement_engin.Store.{member}
use expense_settlement_engin.Idempotency.{Json}
use expense_settlement_engin.ExpenseService.{Floats, SplitInput}
use expense_settlement_engin.ExpenseService.Service.{Engine}
use expense_settlement_engin.Routes.{
  CreateExpenseRequest, ExpenseResponse, AppState, Reply, RequestDraws, create_expense_route,
}
use expense_settlement_engin.Routes.Responses.{Http, http_error, UserResponse, GroupResponse}
use expense_settlement_engin.Routes.Users.{create_user}
use expense_settlement_engin.Routes.Groups.{create_group}

-- `str.lower`, `str.upper` and `str.strip`, which read Unicode's tables.
pub record Texts : Type 0 where
  pub lower : String → String
  pub upper : String → String
  pub strip : String → String

-- `"@" in v`
unfoldable pub has_at : String → Bool
has_at String.[] = false
has_at (String.◌∷◌ c s) = if eqb (code c) b'@' then true else has_at s

-- `min_length` and `max_length` of a field.
unfoldable pub fits_length : ℕ → ℕ → String → Bool
fits_length low high v = if leb low (String.count v) then leb (String.count v) high else false

-- `ge=1` and `total_must_be_positive`.
unfoldable pub total_must_be_positive : ℤ → Bool
total_must_be_positive v = if ltb_ℤ v (pos 1) then false else true

-- The body of a request for an expense, before it is validated.
pub record ExpenseBody (F : Type 0) : Type 0 where
  pub payer_id : String
  pub title : String
  pub total_cents : ℤ
  pub split_type : Option String
  pub splits : Option (List (SplitInput F))
  pub idempotency_key : Option String

module _ (texts : Texts) where
  -- `none` is the `ValueError`.
  unfoldable pub email_must_contain_at : String → Option String
  unfolding has_at
  email_must_contain_at v = if has_at v then some (texts.strip (texts.lower v)) else none

  unfoldable pub validate_split_type : String → Option String
  unfolding member
  validate_split_type v =
      let u = texts.upper v in
      if member u ("EQUAL" ∷ "EXACT" ∷ "PERCENTAGE" ∷ []) then some u else none

  -- A field that is left out takes its default, which is not validated.
  unfoldable pub split_type_or_default : Option String → Option String
  unfolding validate_split_type
  split_type_or_default none = some "EQUAL"
  split_type_or_default (some v) = validate_split_type v

  -- `CreateUserRequest`, then the route.
  unfoldable pub post_user : String → ℕ → String → String → Engine → Http UserResponse × Engine
  unfolding email_must_contain_at fits_length create_user
  post_user uuid now name email e =
      elim (if fits_length 1 255 name then email_must_contain_at email else none) [
        | none ↦ (http_error 422, e)
        | some valid_email ↦ create_user uuid now name valid_email e
      ]

  -- `CreateGroupRequest`, then the route.
  unfoldable pub post_group : String → ℕ → String → Engine → Http GroupResponse × Engine
  unfolding fits_length create_group
  post_group uuid now name e =
      if fits_length 1 255 name then create_group uuid now name e else (http_error 422, e)

  -- `CreateExpenseRequest`; `none` is a `ValidationError`.
  unfoldable pub validate_expense : {F : Type 0} → ExpenseBody F → Option (CreateExpenseRequest F)
  unfolding fits_length total_must_be_positive split_type_or_default
  validate_expense body =
      if (if fits_length 1 500 body.title then total_must_be_positive body.total_cents else false)
      then elim (split_type_or_default body.split_type) [
        | none ↦ none
        | some split_type ↦ some (record {
          payer_id = body.payer_id;
          title = body.title;
          total_cents = body.total_cents;
          split_type = split_type;
          splits = body.splits;
          idempotency_key = body.idempotency_key;
        })
      ]
      else none

  module _ {F : Type 0} (floats : Floats F) (rt : Runtime) (json : Json ExpenseResponse)
      (ticks : ℕ) where
    -- The route, behind its schema; `none` is 422.
    unfoldable pub post_expense :
        RequestDraws → String → Option String → ExpenseBody F → AppState → Option Reply × AppState
    unfolding validate_expense create_expense_route
    post_expense draws group_id header body st = elim (validate_expense body) [
      | none ↦ (none, st)
      | some request ↦
          let (reply, after) =
            create_expense_route floats rt json ticks draws group_id header request st in
          (some reply, after)
    ]
