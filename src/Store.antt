-- ===== src/Store.antt =====
-- database/store.py: the in-memory store. Every method runs under one lock, so it is one step.
-- A uuid and a time that a method draws are arguments; times are numbers of ticks. The dicts hold
-- the records themselves: what the code writes into a record it got from the store is an update of
-- the store here.
pub mod Idempotence
use expense_settlement_engin.Common.{
  ℕ, suc, ◌+◌, Bool, true, false, Option, none, some, List, [], ◌∷◌, ◌++◌, map, String,
  if◌then◌else◌, ◌==◌,
}
use expense_settlement_engin.Common.Int.{ℤ}
use expense_settlement_engin.Common.Dict.{Dict, lookup, contains, insert, values}
use expense_settlement_engin.DebtSimplifier.{Split}

pub record UserRecord : Type 0 where
  pub id : String
  pub name : String
  pub email : String
  pub version : ℕ
  pub created_at : ℕ

pub record GroupRecord : Type 0 where
  pub id : String
  pub name : String
  pub version : ℕ
  pub created_at : ℕ
  pub member_ids : List String

pub record ExpenseRecord : Type 0 where
  pub id : String
  pub group_id : String
  pub payer_id : String
  pub title : String
  pub total_cents : ℤ
  pub split_type : String
  pub status : String
  pub idempotency_key : Option String
  pub version : ℕ
  pub journal_id : Option String
  pub created_at : ℕ
  pub splits : List Split

pub record SettlementRecord : Type 0 where
  pub id : String
  pub group_id : String
  pub payer_id : String
  pub payee_id : String
  pub amount_cents : ℤ
  pub is_executed : Bool
  pub algorithm : String
  pub checksum : String
  pub created_at : ℕ
  pub executed_at : Option ℕ

pub record InMemoryStore : Type 0 where
  pub users : Dict UserRecord
  pub groups : Dict GroupRecord
  pub expenses : Dict ExpenseRecord
  pub settlements : Dict SettlementRecord
  pub idempotency_keys : Dict String

abbrev pub empty_store : InMemoryStore
empty_store = record {
  users = [];
  groups = [];
  expenses = [];
  settlements = [];
  idempotency_keys = [];
}

-- `x in xs`, on texts.
unfoldable pub member : String → List String → Bool
member x [] = false
member x (y ∷ ys) = if y == x then true else member x ys

-- The loop of `create_user` that looks for the email.
unfoldable pub email_taken : String → Dict UserRecord → Bool
email_taken email [] = false
email_taken email ((_, u) ∷ d) = if u.email == email then true else email_taken email d

-- `create_user`; `none` is the `ValueError`.
unfoldable pub create_user :
    String → ℕ → String → String → InMemoryStore → Option UserRecord × InMemoryStore
create_user uuid now name email store =
    if email_taken email store.users
    then (none, store)
    else (let user : UserRecord = record {
      id = uuid;
      name = name;
      email = email;
      version = 0;
      created_at = now;
    } in
        (some user, record store { users = insert uuid user store.users }))

abbrev pub get_user : String → InMemoryStore → Option UserRecord
get_user user_id store = lookup user_id store.users

abbrev pub list_users : InMemoryStore → List UserRecord
list_users store = values store.users

unfoldable pub create_group : String → ℕ → String → InMemoryStore → GroupRecord × InMemoryStore
create_group uuid now name store =
    let group : GroupRecord = record {
      id = uuid;
      name = name;
      version = 0;
      created_at = now;
      member_ids = [];
    } in
    (group, record store { groups = insert uuid group store.groups })

abbrev pub get_group : String → InMemoryStore → Option GroupRecord
get_group group_id store = lookup group_id store.groups

-- What `add_member` writes into the group.
unfoldable pub join_group : String → GroupRecord → GroupRecord
unfolding member
join_group user_id grp =
    if member user_id grp.member_ids
    then grp
    else record grp { member_ids = grp.member_ids ++ user_id ∷ []; version = grp.version + 1 }

unfoldable pub add_member : String → String → InMemoryStore → Bool × InMemoryStore
unfolding join_group
add_member group_id user_id store = elim (lookup group_id store.groups) [
  | none ↦ (false, store)
  | some grp ↦
      (true, record store { groups = insert group_id (join_group user_id grp) store.groups })
]

-- `if key`: neither `None` nor the empty text.
abbrev pub truthy : Option String → Option String
truthy none = none
truthy (some k) = if k == "" then none else some k

-- The arguments of `create_expense`.
pub record ExpenseData : Type 0 where
  pub group_id : String
  pub payer_id : String
  pub title : String
  pub total_cents : ℤ
  pub split_type : String
  pub splits : List Split
  pub idempotency_key : Option String

abbrev pub new_expense : String → ℕ → ExpenseData → ExpenseRecord
new_expense uuid now d = record {
  id = uuid;
  group_id = d.group_id;
  payer_id = d.payer_id;
  title = d.title;
  total_cents = d.total_cents;
  split_type = d.split_type;
  status = "POSTED";
  idempotency_key = d.idempotency_key;
  version = 0;
  journal_id = none;
  created_at = now;
  splits = d.splits;
}

-- The idempotency check: the expense that the key stands for.
unfoldable pub keyed_expense : Option String → InMemoryStore → Option ExpenseRecord
keyed_expense none store = none
keyed_expense (some k) store = elim (lookup k store.idempotency_keys) [
  | none ↦ none
  | some existing_id ↦ lookup existing_id store.expenses
]

abbrev pub existing_expense : Option String → InMemoryStore → Option ExpenseRecord
existing_expense key store = keyed_expense (truthy key) store

unfoldable pub create_expense :
    String → ℕ → ExpenseData → InMemoryStore → ExpenseRecord × InMemoryStore
create_expense uuid now d store = elim (existing_expense d.idempotency_key store) [
  | some existing ↦ (existing, store)
  | none ↦ (
    new_expense uuid now d,
    record store {
      expenses = insert uuid (new_expense uuid now d) store.expenses;
      idempotency_keys = elim (truthy d.idempotency_key) [
        | none ↦ store.idempotency_keys
        | some k ↦ insert k uuid store.idempotency_keys
      ];
    },
  )
]

unfoldable pub of_group : String → List ExpenseRecord → List ExpenseRecord
of_group group_id [] = []
of_group group_id (e ∷ es) =
    if e.group_id == group_id then e ∷ of_group group_id es else of_group group_id es

unfoldable pub get_expenses_for_group : String → InMemoryStore → List ExpenseRecord
unfolding of_group
get_expenses_for_group group_id store = of_group group_id (values store.expenses)

unfoldable pub save_all : List SettlementRecord → Dict SettlementRecord → Dict SettlementRecord
save_all [] d = d
save_all (s ∷ records) d = save_all records (insert s.id s d)

abbrev pub save_settlements : List SettlementRecord → InMemoryStore → InMemoryStore
save_settlements records store = record store { settlements = save_all records store.settlements }

unfoldable pub settlements_of : String → List SettlementRecord → List SettlementRecord
settlements_of group_id [] = []
settlements_of group_id (s ∷ l) =
    if s.group_id == group_id then s ∷ settlements_of group_id l else settlements_of group_id l

abbrev pub get_settlements_for_group : String → InMemoryStore → List SettlementRecord
get_settlements_for_group group_id store = settlements_of group_id (values store.settlements)

unfoldable pub mark_settlement_executed : String → ℕ → InMemoryStore → InMemoryStore
mark_settlement_executed settlement_id now store = elim (lookup settlement_id store.settlements) [
  | none ↦ store
  | some s ↦ record store {
    settlements =
        insert settlement_id (record s { is_executed = true; executed_at = some now })
          store.settlements;
  }
]
