-- ===== src/Tests/Stores.antt =====
-- database/store.py and services/group_service.py on one small group.
use expense_settlement_engin.Common.{◌≡◌, refl, some, [], ◌∷◌, String}
use expense_settlement_engin.Common.Int.{pos}
use expense_settlement_engin.Common.Dict.{lookup, insert}
use expense_settlement_engin.Store.{
  GroupRecord, InMemoryStore, empty_store, email_taken, create_user, create_group, add_member,
  ExpenseData, create_expense,
}
use expense_settlement_engin.Store.Idempotence.{create_expense-create_expense}
use expense_settlement_engin.GroupService.{users_of, get_members}
use expense_settlement_engin.GroupService
use expense_settlement_engin.GroupService.Members.{EmailsDistinct, AllGroups}

program : Unit {0}
unfolding email_taken create_user create_group lookup insert GroupService.add_member add_member
    users_of get_members EmailsDistinct AllGroups create_expense
program = tt

abbrev with_ann : InMemoryStore
with_ann = (create_user "u1" 1 "Ann" "ann@home" empty_store).1

abbrev with_house : InMemoryStore
with_house = (create_group "g1" 2 "House" with_ann).1

with_ann-EmailsDistinct : EmailsDistinct with_ann.users
unfolding program
with_ann-EmailsDistinct = (refl, tt)

house-AllGroups : AllGroups with_house
unfolding program
house-AllGroups = (record { once = tt; counted = refl; known = tt }, tt)

abbrev moved_in : InMemoryStore
moved_in = (add_member "g1" "u1" with_house).1

abbrev house : GroupRecord
house = record { id = "g1"; name = "House"; version = 1; created_at = 2; member_ids = "u1" ∷ [] }

moved_in-AllGroups : AllGroups moved_in
unfolding program
moved_in-AllGroups = (record { once = (refl, tt); counted = refl; known = (refl, tt) }, tt)

moved_in-found : lookup "g1" moved_in.groups ≡ some house
unfolding program
moved_in-found = refl

abbrev bill : String → ExpenseData
bill title = record {
  group_id = "g1";
  payer_id = "u1";
  title = title;
  total_cents = pos 9;
  split_type = "EQUAL";
  splits = record { user_id = "u1"; amount_cents = pos 9 } ∷ [];
  idempotency_key = some "key";
}

create_expense-create_expense_example :
    let (expense, after) = create_expense "e1" 4 (bill "tea") moved_in in
    create_expense "e2" 5 (bill "coffee") after ≡ (expense, after)
create_expense-create_expense_example =
    create_expense-create_expense "e1" "e2" 4 5 (bill "tea") (bill "coffee") "key" moved_in refl
      refl
