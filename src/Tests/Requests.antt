-- ===== src/Tests/Requests.antt =====
-- api/routes/expenses.py: a request with a key, and the key again with another title.
use expense_settlement_engin.Common.{ℕ, ◌≡◌, refl, false, none, some, [], ◌∷◌, String, arith}
use expense_settlement_engin.Common.Int.{pos, ◌+ℤ◌, ◌-ℤ◌, sum_by}
use expense_settlement_engin.Common.Dict.{lookup, insert}
use expense_settlement_engin.Common.Text.{str_ℤ, join}
use expense_settlement_engin.Ledger.{
  Runtime, empty_ledger, make_hash, make_entry, make_entries, commit, first_bad_amount,
  post_journal,
}
use expense_settlement_engin.Ledger.Specs.{
  post_expense_journal, expense_specs, debtor_specs, debtors_total, closing_specs,
}
use expense_settlement_engin.Store.{
  GroupRecord, ExpenseRecord, empty_store, member, keyed_expense, truthy,
}
use expense_settlement_engin.Store
use expense_settlement_engin.Cache.{empty_cache, is_expired}
use expense_settlement_engin.Cache.View.{live}
use expense_settlement_engin.Idempotency.{Json, acquired, make_key, check_and_lock}
use expense_settlement_engin.Messaging.{empty_outbox, append}
use expense_settlement_engin.ExpenseService.Service.{
  Engine, Draws, Created, created, rejected, store_expense, create_expense,
}
use expense_settlement_engin.ExpenseService.{
  Floats, cents, payer_not_member, equal_from, split_equal, choose_splits, checked_splits,
}
use expense_settlement_engin.Routes.{
  CreateExpenseRequest, ExpenseResponse, fmt_expense, AppState, replied, bad_request, RequestDraws,
  resolve_key, service_args, create_expense_route,
}
use expense_settlement_engin.Routes.Expenses.{same_key_replays, rejected_can_retry}

program : Unit {0}
unfolding str_ℤ join make_hash make_entry make_entries commit first_bad_amount post_journal
    expense_specs debtor_specs closing_specs debtors_total post_expense_journal lookup insert sum_by
    ◌+ℤ◌ ◌-ℤ◌ member keyed_expense Store.create_expense append equal_from split_equal choose_splits
    checked_splits store_expense create_expense is_expired live resolve_key service_args fmt_expense
program = tt

abbrev pub plain : Runtime
plain = record { sha256 = λ s. s; str_time = λ t. "t" }

abbrev pub whole : Floats ℕ
whole = record { sum = λ l. 0; not_hundred = λ n. false; portion = λ t p. cents t }

abbrev pub house : GroupRecord
house = record {
  id = "g";
  name = "House";
  version = 2;
  created_at = 0;
  member_ids = "ann" ∷ "bob" ∷ [];
}

abbrev pub home : AppState
home = record {
  engine = record {
    store = record empty_store { groups = ("g", house) ∷ [] };
    ledger = empty_ledger;
    outbox = empty_outbox;
  };
  cache = empty_cache;
}

abbrev pub service_draws : Draws
service_draws = record {
  journal_ids = λ i. str_ℤ (pos i);
  expense_uuid = "e1";
  event_uuid = "e1";
  journal_now = 1;
  expense_now = 1;
  event_now = 1;
}

abbrev pub at_once : RequestDraws
at_once = record { service = service_draws; lock_now = 1; lock_later = 1; store_now = 2 }

abbrev pub later : RequestDraws
later = record { service = service_draws; lock_now = 30; lock_later = 31; store_now = 32 }

abbrev pub request : String → String → CreateExpenseRequest ℕ
request payer title = record {
  payer_id = payer;
  title = title;
  total_cents = pos 7;
  split_type = "EQUAL";
  splits = none;
  idempotency_key = some "key";
}

abbrev call : String → String → Created × Engine
call payer title =
    create_expense whole plain service_draws (service_args "g" none (request payer title))
      home.engine

dinner : ExpenseRecord
unfolding program
dinner = record {
  id = "e1";
  group_id = "g";
  payer_id = "ann";
  title = "Dinner";
  total_cents = pos 7;
  split_type = "EQUAL";
  status = "POSTED";
  idempotency_key = some "key";
  version = 0;
  journal_id = some "1";
  created_at = 1;
  splits =
      record { user_id = "ann"; amount_cents = pos 4 }
      ∷ record { user_id = "bob"; amount_cents = pos 3 }
      ∷ [];
}

dinner-created : call "ann" "Dinner" ≡ (created dinner, (call "ann" "Dinner").1)
unfolding program dinner
dinner-created = refl

ann-key : truthy (service_args "g" none (request "ann" "Dinner")).idempotency_key ≡ some "key"
unfolding program
ann-key = refl

supper-key :
    truthy (service_args "g" (some "key") (request "bob" "Supper")).idempotency_key ≡ some "key"
unfolding program
supper-key = refl

key-free : live 1 (make_key "key") empty_cache ≡ none
unfolding program
key-free = refl

-- The one response that this form can be read back to.
abbrev one_response : Json ExpenseResponse
one_response = record { dumps = λ r. "{}"; loads = λ s. some (fmt_expense dinner) }

same_key_replays_example :
    let (first, then_) =
      create_expense_route whole plain one_response 1 at_once "g" none
        (request "ann" "Dinner")
        home in
    let (second, last) =
      create_expense_route whole plain one_response 1 later "g"
        (some "key")
        (request "bob" "Supper")
        then_ in
    (first ≡ replied (fmt_expense dinner))
    × (then_.engine ≡ (call "ann" "Dinner").1)
    × (second ≡ replied (fmt_expense dinner))
    × (last.engine ≡ (call "ann" "Dinner").1)
same_key_replays_example =
    same_key_replays whole plain one_response 1 "g" "g" none (some "key") (request "ann" "Dinner")
      (request "bob" "Supper") "key" at_once later home dinner (call "ann" "Dinner").1 ann-key
      supper-key key-free dinner-created refl refl refl (omega arith) (omega arith) (omega arith)

stranger-key : truthy (service_args "g" none (request "eve" "Tea")).idempotency_key ≡ some "key"
unfolding program
stranger-key = refl

stranger-rejected : call "eve" "Tea" ≡ (rejected payer_not_member, home.engine)
unfolding program
stranger-rejected = refl

rejected_can_retry_example :
    let (answer, then_) =
      create_expense_route whole plain one_response 1 at_once "g" none (request "eve" "Tea") home in
    (answer ≡ bad_request payer_not_member)
    × (then_.engine ≡ home.engine)
    × ((now later : ℕ) → (check_and_lock one_response 1 now later "key" then_.cache).0 ≡ acquired)
rejected_can_retry_example =
    rejected_can_retry whole plain one_response 1 "g" none (request "eve" "Tea") "key" at_once home
      payer_not_member home.engine stranger-key key-free stranger-rejected
