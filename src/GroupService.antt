-- ===== src/GroupService.antt =====
-- services/group_service.py: users and groups, over the store. The log lines are left out.
pub mod Members
use expense_settlement_engin.Common.{ℕ, Bool, Option, none, some, List, [], ◌∷◌, String}
use expense_settlement_engin.Store.{
  UserRecord, GroupRecord, InMemoryStore, get_user, list_users, get_group,
}
use expense_settlement_engin.Store

-- The two `ValueError`s of `add_member`.
pub data GroupError : Type 0 where
  group_not_found user_not_found : GroupError

pub data Answer (A : Type 0) : Type 0 where
  ok : A → Answer A
  error : GroupError → Answer A

unfoldable pub add_member : String → String → InMemoryStore → Answer Bool × InMemoryStore
add_member group_id user_id store = elim (get_group group_id store) [
  | none ↦ (error group_not_found, store)
  | some _ ↦ elim (get_user user_id store) [
    | none ↦ (error user_not_found, store)
    | some _ ↦ let (result, after) = Store.add_member group_id user_id store in (ok result, after)
  ]
]

-- The loop of `get_members`.
unfoldable pub users_of : List String → InMemoryStore → List UserRecord
users_of [] store = []
users_of (uid ∷ uids) store =
    let rest = users_of uids store in
    elim (get_user uid store) [ none ↦ rest | some user ↦ user ∷ rest ]

unfoldable pub get_members : String → InMemoryStore → List UserRecord
unfolding users_of
get_members group_id store = elim (get_group group_id store) [
  | none ↦ []
  | some group ↦ users_of group.member_ids store
]
