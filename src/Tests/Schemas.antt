-- ===== src/Tests/Schemas.antt =====
-- api/schemas/schemas.py: bodies of requests, with the case of ASCII texts written out where needed.
use expense_settlement_engin.Common.{
  ℕ, ◌≡◌, ◌≢◌, refl, true, false, none, some, if◌then◌else◌, ◌==◌,
}
use expense_settlement_engin.Common.Int.{ℤ, pos}
use expense_settlement_engin.Common.Dict.{lookup, contains, insert}
use expense_settlement_engin.Store.{UserRecord, InMemoryStore, empty_store, member, email_taken}
use expense_settlement_engin.Store
use expense_settlement_engin.GroupService.Members.{EmailsDistinct}
use expense_settlement_engin.ExpenseService.{total_too_small, unknown_split_type}
use expense_settlement_engin.Routes.{CreateExpenseRequest, bad_request}
use expense_settlement_engin.Routes.Responses.{responded, http_error, UserResponse, fmt_user}
use expense_settlement_engin.Routes.Users.{create_user, get_user}
use expense_settlement_engin.Routes.Schemas.{
  Texts, has_at, fits_length, email_must_contain_at, validate_split_type, split_type_or_default,
  total_must_be_positive, ExpenseBody, validate_expense, post_user, post_expense,
}
use expense_settlement_engin.Routes.Schemas.Accepted.{schema_prevents}
use expense_settlement_engin.Routes.Schemas.Emails.{normal, second_signup_conflicts, signup_found}
use expense_settlement_engin.Tests.Requests.{plain, whole, at_once}
use expense_settlement_engin.Tests.Balances.{one_expense, dined, noon}

-- The texts that the bodies hold, in other case, and without the space.
abbrev ascii : Texts
ascii = record {
  lower = λ s. if s == "Ann@X.org " then "ann@x.org " else s;
  upper = λ s. if s == "exact" then "EXACT" else s;
  strip = λ s. if s == "ann@x.org " then "ann@x.org" else s;
}

abbrev tea : ExpenseBody ℕ
tea = record {
  payer_id = "ann";
  title = "Tea";
  total_cents = pos 7;
  split_type = some "exact";
  splits = none;
  idempotency_key = none;
}

abbrev tea_request : CreateExpenseRequest ℕ
tea_request = record {
  payer_id = "ann";
  title = "Tea";
  total_cents = pos 7;
  split_type = "EXACT";
  splits = none;
  idempotency_key = none;
}

program : Unit {0}
unfolding has_at fits_length email_must_contain_at validate_split_type split_type_or_default
    total_must_be_positive validate_expense member post_user create_user Store.create_user
    email_taken insert lookup fmt_user
program = tt

tea-valid : validate_expense ascii tea ≡ some tea_request
unfolding program
tea-valid = refl

abbrev void : ExpenseBody ℕ
void = record tea { total_cents = pos 0; split_type = some "LATER" }

schema_prevents_example :
    let reply = (post_expense ascii whole plain one_expense 1 at_once "g" none void noon).0 in
    ((t : ℤ) → reply ≢ some (bad_request (total_too_small t)))
    × (reply ≢ some (bad_request unknown_split_type))
schema_prevents_example = schema_prevents ascii whole plain one_expense 1 at_once "g" none void noon

texts-fit :
    (fits_length 1 255 "Ann" ≡ true)
    × (fits_length 1 255 "Other Ann" ≡ true)
    × (has_at "Ann@X.org " ≡ true)
    × (has_at "ann@x.org" ≡ true)
unfolding program
texts-fit = (refl, refl, refl, refl)

no_users : (contains "u1" dined.store.users ≡ false) × EmailsDistinct dined.store.users
unfolding program EmailsDistinct
no_users = (refl, tt)

second_signup_conflicts_example :
    let after = (post_user ascii "u1" 1 "Ann" "Ann@X.org " dined).1 in
    ((post_user ascii "u2" 2 "Other Ann" "ann@x.org" after).0 ≡ http_error 409)
    × EmailsDistinct after.store.users
second_signup_conflicts_example =
    second_signup_conflicts ascii "u1" "u2" 1 2 "Ann" "Other Ann" "Ann@X.org " "ann@x.org" dined
      texts-fit.0 texts-fit.1 texts-fit.2 texts-fit.3 refl no_users.0 no_users.1

abbrev ann : UserResponse
ann = record { id = "u1"; name = "Ann"; email = "ann@x.org"; version = 0; created_at = 1 }

ann-answered : (post_user ascii "u1" 1 "Ann" "Ann@X.org " dined).0 ≡ responded ann
unfolding program
ann-answered = refl

signup_found_example :
    (get_user "u1" (post_user ascii "u1" 1 "Ann" "Ann@X.org " dined).1 ≡ responded ann)
    × (ann.id ≡ "u1")
    × (ann.email ≡ normal ascii "Ann@X.org ")
signup_found_example = signup_found ascii "u1" 1 "Ann" "Ann@X.org " dined ann ann-answered
