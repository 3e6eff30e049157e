-- ===== src/Tests/Expenses.antt =====
-- services/expense_service.py: a dinner of 7 cents of two members, and the same key again.
use expense_settlement_engin.Common.{
  ℕ, suc, ◌≡◌, ◌⊎◌, refl, false, none, some, List, [], ◌∷◌, map, String, arith, length, All,
}
use expense_settlement_engin.Common.Int.{pos, ◌+ℤ◌, ◌-ℤ◌, sum_by}
use expense_settlement_engin.Common.Dict.{lookup, contains, insert, values}
use expense_settlement_engin.Common.Text.{str_ℤ, join}
use expense_settlement_engin.DebtSimplifier.{Split}
use expense_settlement_engin.DebtSimplifier.Balances.{due}
use expense_settlement_engin.Ledger.{
  Runtime, empty_ledger, get_account_balance, balance_from, first_bad_amount, post_journal, commit,
  make_entries, make_entry, make_hash,
}
use expense_settlement_engin.Ledger.Specs.{
  wallet, post_expense_journal, expense_specs, debtor_specs, debtors_total, closing_specs,
}
use expense_settlement_engin.Ledger.Journals.{OwesCent}
use expense_settlement_engin.Store.{
  GroupRecord, ExpenseRecord, InMemoryStore, empty_store, member, keyed_expense, existing_expense,
  get_expenses_for_group,
}
use expense_settlement_engin.Store
use expense_settlement_engin.Messaging.{empty_outbox, append}
use expense_settlement_engin.ExpenseService.Service.{
  Engine, Draws, created, rejected, store_expense, create_expense,
}
use expense_settlement_engin.ExpenseService.{
  Floats, cents, ExpenseArgs, valid, split_equal, equal_from, choose_splits, checked_splits,
  ExpenseError, amount_of,
}
use expense_settlement_engin.ExpenseService.Splits.{
  user_of, IsShare, split_equal_fair, checked_splits_sum,
}
use expense_settlement_engin.ExpenseService.Create.{Accepts, create_expense_outcome}
use expense_settlement_engin.ExpenseService.Consistency.{
  IsConsistent, expenses_due, create_expense-IsConsistent, repeated_key_posts_again,
}

program : Unit {0}
unfolding str_ℤ join make_hash make_entry make_entries commit first_bad_amount post_journal
    expense_specs debtor_specs closing_specs debtors_total post_expense_journal get_account_balance
    balance_from lookup insert values sum_by ◌+ℤ◌ ◌-ℤ◌ member keyed_expense Store.create_expense
    append equal_from split_equal choose_splits checked_splits store_expense create_expense
    IsConsistent
program = tt

abbrev plain : Runtime
plain = record { sha256 = λ s. s; str_time = λ t. "t" }

-- Whole numbers in the place of floats: the splits below are equal ones.
abbrev whole : Floats ℕ
whole = record { sum = λ l. 0; not_hundred = λ n. false; portion = λ t p. cents t }

abbrev house : GroupRecord
house = record {
  id = "g";
  name = "House";
  version = 2;
  created_at = 0;
  member_ids = "ann" ∷ "bob" ∷ [];
}

abbrev home : Engine
home = record {
  store = record empty_store { groups = ("g", house) ∷ [] };
  ledger = empty_ledger;
  outbox = empty_outbox;
}

abbrev draws : String → Draws
draws uuid = record {
  journal_ids = λ i. str_ℤ (pos i);
  expense_uuid = uuid;
  event_uuid = uuid;
  journal_now = 1;
  expense_now = 1;
  event_now = 1;
}

abbrev dinner : ExpenseArgs ℕ
dinner = record {
  group_id = "g";
  payer_id = "ann";
  title = "Dinner";
  total_cents = pos 7;
  split_type = "EQUAL";
  splits_input = none;
  idempotency_key = some "key";
}

abbrev shares : List Split
shares =
    record { user_id = "ann"; amount_cents = pos 4 }
    ∷ record { user_id = "bob"; amount_cents = pos 3 }
    ∷ []

split_equal_fair_example :
    (splits : List Split) × (split_equal (pos 7) ("ann" ∷ "bob" ∷ []) ≡ valid splits)
    × (map user_of splits ≡ "ann" ∷ "bob" ∷ [])
    × (sum_by amount_of splits ≡ pos 7)
    × All (IsShare 3) splits
split_equal_fair_example = split_equal_fair 7 "ann" ("bob" ∷ [])

home-shares : checked_splits whole dinner home.store ≡ valid shares
unfolding program
home-shares = refl

checked_splits_sum_example : sum_by amount_of shares ≡ pos 7
checked_splits_sum_example = checked_splits_sum whole dinner home.store shares home-shares

create_expense_outcome_example :
    (Accepts whole plain (draws "e1") dinner home
      × ((x : ExpenseRecord) × (after : Engine) × (create_expense whole plain
              (draws "e1")
              dinner
              home
            ≡ (created x, after))))
    ⊎ ((¬ Accepts whole plain (draws "e1") dinner home)
        × ((x : ExpenseError) × (create_expense whole plain (draws "e1") dinner home
              ≡ (rejected x, home))))
create_expense_outcome_example = create_expense_outcome whole plain (draws "e1") dinner home

home-IsConsistent : IsConsistent home
unfolding program
home-IsConsistent u = refl

dinner-new : existing_expense (some "key") home.store ≡ none
unfolding program
dinner-new = refl

dinner-free : contains "e1" home.store.expenses ≡ false
unfolding program
dinner-free = refl

abbrev dined : Engine
dined = (create_expense whole plain (draws "e1") dinner home).1

create_expense-IsConsistent_example : IsConsistent dined
create_expense-IsConsistent_example =
    create_expense-IsConsistent whole plain (draws "e1") dinner home dinner-new dinner-free
      home-IsConsistent

dined_expense : ExpenseRecord
unfolding program
dined_expense = record {
  id = "e1";
  group_id = "g";
  payer_id = "ann";
  title = "Dinner";
  total_cents = pos 7;
  split_type = "EQUAL";
  status = "POSTED";
  idempotency_key = some "key";
  version = 0;
  journal_id = some "1";
  created_at = 1;
  splits = shares;
}

dined-found : existing_expense (some "key") dined.store ≡ some dined_expense
unfolding program dined_expense
dined-found = refl

dined-own : lookup dined_expense.id dined.store.expenses ≡ some dined_expense
unfolding program dined_expense
dined-own = refl

dined-shares : checked_splits whole dinner dined.store ≡ valid shares
unfolding program
dined-shares = refl

shares-OwesCent : All (OwesCent "ann") shares
shares-OwesCent = ((λ _. omega arith), ((λ _. omega arith), tt))

repeated_key_posts_again_example :
    let after = (create_expense whole plain (draws "e2") dinner dined).1 in
    ((u : String)
      → (get_account_balance (wallet u) after.ledger
          ≡ get_account_balance (wallet u) dined.ledger +ℤ sum_by (due u "ann") shares)
        × (expenses_due u after.store ≡ expenses_due u dined.store))
    × (length after.outbox.events ≡ suc (length dined.outbox.events))
repeated_key_posts_again_example =
    repeated_key_posts_again whole plain (draws "e2") dinner dined shares dined_expense dined-shares
      shares-OwesCent dined-found dined-own
