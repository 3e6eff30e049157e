-- ===== src/Routes/Schemas/Accepted.antt =====
-- The expenses that api/schemas/schemas.py lets through to services/expense_service.py.
use expense_settlement_engin.Common.{
  ℕ, ◌≡◌, ◌≢◌, refl, sym, ap, ◌∙◌, inl, inr, Bool, true, false, Option, none, some, String, arith,
  if◌then◌else◌, Bool-cases, Option-cases,
}
use mathlib.Core.Option.{some-injective}
use expense_settlement_engin.Common.Int.{ℤ}
use expense_settlement_engin.Ledger.{Runtime}
use expense_settlement_engin.Store.{member}
use expense_settlement_engin.Idempotency.{Json}
use expense_settlement_engin.ExpenseService.{Floats, total_too_small, unknown_split_type}
use expense_settlement_engin.Routes.Schemas.{
  Texts, fits_length, validate_split_type, split_type_or_default, total_must_be_positive,
  ExpenseBody, validate_expense, post_expense,
}
use expense_settlement_engin.Routes.{
  CreateExpenseRequest, ExpenseResponse, AppState, bad_request, RequestDraws, create_expense_route,
}
use expense_settlement_engin.Routes.Schemas.Replies.{
  is_schema_error, is_allowed, route-Avoids, not_schema,
}

-- What a body that passes has, which is what the service is called with.
split_type-IsAllowed :
    (texts : Texts) (o : Option String) (v : String)
    → split_type_or_default texts o ≡ some v
    → is_allowed v ≡ true
unfolding split_type_or_default validate_split_type member
split_type-IsAllowed texts none v e = rw (sym (some-injective "EQUAL" v e))
split_type-IsAllowed texts (some o) v e = elim (Bool-cases (is_allowed (texts.upper o))) [
  | inl fine ↦ rw (sym (some-injective (texts.upper o) v (rw fine at e))) fine
  | inr bad ↦ cc (rw bad at e)
]

module _ {F : Type 0} where
  module _ (texts : Texts) where
    abbrev conditions : ExpenseBody F → Bool
    conditions body =
        if fits_length 1 500 body.title then total_must_be_positive body.total_cents else false

    abbrev request_of : ExpenseBody F → String → CreateExpenseRequest F
    request_of body split_type = record {
      payer_id = body.payer_id;
      title = body.title;
      total_cents = body.total_cents;
      split_type = split_type;
      splits = body.splits;
      idempotency_key = body.idempotency_key;
    }

    validated_parts :
        (body : ExpenseBody F) (r : CreateExpenseRequest F)
        → validate_expense texts body ≡ some r
        → (v : String) × (request_of body v ≡ r)
          × (conditions body ≡ true)
          × (split_type_or_default texts body.split_type ≡ some v)
    unfolding validate_expense
    validated_parts body r e = elim (Bool-cases (conditions body)) [
      | inr bad ↦ cc (rw bad at e)
      | inl fine ↦ elim (Option-cases (split_type_or_default texts body.split_type)) [
        | inl none_ ↦ cc (rw (fine, none_) at e)
        | inr (v, some_) ↦ (v, some-injective _ r (rw (fine, some_) at e), fine, some_)
      ]
    ]

    -- Behind its schema the route never answers with the service's errors for a total below one
    -- cent or for an unknown split type: whatever the body is, the schema has rejected it.
    pub schema_prevents :
        (floats : Floats F) (rt : Runtime) (json : Json ExpenseResponse) (ticks : ℕ)
        (draws : RequestDraws) (group_id : String) (header : Option String) (body : ExpenseBody F)
        (st : AppState)
        → let reply = (post_expense texts floats rt json ticks draws group_id header body st).0 in
          ((t : ℤ) → reply ≢ some (bad_request (total_too_small t)))
          × (reply ≢ some (bad_request unknown_split_type))
    unfolding post_expense is_schema_error total_must_be_positive
    schema_prevents floats rt json ticks draws group_id header body st =
        elim (Option-cases (validate_expense texts body)) [
          | inl rejected_ ↦ rw (rejected_, post_expense) ((λ t e. cc e), λ e. cc e)
          | inr (r, e) ↦
              let (v, same, fine, some_) = validated_parts body r e in
              let avoids =
                route-Avoids floats rt json ticks draws group_id header (request_of body v) st
                  (ground arith) (split_type-IsAllowed texts body.split_type v some_) in
              let is =
                ap (λ q. (create_expense_route floats rt json ticks draws group_id header q st).0)
                  same in
              rw (e, post_expense)
                (
                  (λ t bad.
                      not_schema floats rt json ticks draws (total_too_small t) avoids refl
                        (is ∙ some-injective _ _ bad)),
                  λ bad.
                      not_schema floats rt json ticks draws unknown_split_type avoids refl
                        (is ∙ some-injective _ _ bad),
                )
        ]
