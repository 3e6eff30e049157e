-- ===== src/GroupService/Members.antt =====
-- services/group_service.py and database/store.py: invariants of users and groups.
use expense_settlement_engin.Common.{
  ℕ, ◌≡◌, refl, sym, ap, ◌∙◌, subst, inl, inr, ◌⊎◌, true, false, Bool, none, some, List, [], ◌∷◌,
  ◌++◌, arith, String, length, length-append, if◌then◌else◌, ◌==◌, eq_iff, eq_refl, All, All-append,
  Bool-cases, Option-cases,
}
use expense_settlement_engin.Common.Dict.{
  Dict, lookup, contains, insert, All-insert, All-lookup, contains_found, contains_absent,
}
use expense_settlement_engin.Store.{
  UserRecord, GroupRecord, InMemoryStore, email_taken, create_user, create_group, member,
  join_group, get_user, get_group,
}
use expense_settlement_engin.Store
use expense_settlement_engin.GroupService.{
  Answer, ok, error, group_not_found, user_not_found, add_member, users_of, get_members,
}

-- No email belongs to two users.
unfoldable pub EmailsDistinct : Dict UserRecord → Type 0
EmailsDistinct [] = Unit
EmailsDistinct ((_, u) ∷ d) = (email_taken u.email d ≡ false) × EmailsDistinct d

email_taken-insert :
    (email k : String) (u : UserRecord) (d : Dict UserRecord)
    → contains k d ≡ false
    → email_taken email (insert k u d) ≡ (if email_taken email d then true else u.email == email)
unfolding email_taken insert lookup
email_taken-insert email k u [] fresh = ground arith
email_taken-insert email k u ((j, w) ∷ d) fresh = ground (arith, email_taken-insert email k u d)

insert-EmailsDistinct :
    (k : String) (u : UserRecord) (d : Dict UserRecord)
    → contains k d ≡ false
    → email_taken u.email d ≡ false
    → EmailsDistinct d
    → EmailsDistinct (insert k u d)
unfolding email_taken insert lookup EmailsDistinct
insert-EmailsDistinct k u [] fresh new h = (refl, tt)
insert-EmailsDistinct k u ((j, w) ∷ d) fresh new h = ground (
  arith,
  eq_iff w.email u.email,
  eq_iff u.email w.email,
  email_taken-insert w.email k u d,
  insert-EmailsDistinct k u d,
)

-- After `create_user` with an id that is not in use, whether it returned or raised, the email
-- belongs to a user, and still no email belongs to two.
pub create_user-EmailsDistinct :
    (uuid : String) (now : ℕ) (name email : String) (store : InMemoryStore)
    → contains uuid store.users ≡ false
    → EmailsDistinct store.users
    → let after = (create_user uuid now name email store).1 in
      (email_taken email after.users ≡ true) × EmailsDistinct after.users
unfolding create_user
create_user-EmailsDistinct uuid now name email store fresh h =
    elim (Bool-cases (email_taken email store.users)) [
      | inl taken ↦ rw taken (taken, h)
      | inr new ↦ rw new (
        email_taken-insert email uuid _ store.users fresh ∙ rw (new, eq_refl email),
        insert-EmailsDistinct uuid _ store.users fresh new h,
      )
    ]

-- A group's members are listed once, each is a user, and the version counts the additions.
abbrev pub ListedOnce : List String → Type 0
ListedOnce [] = Unit
ListedOnce (x ∷ xs) = (member x xs ≡ false) × ListedOnce xs

pub record IsGroup (users : Dict UserRecord) (g : GroupRecord) : Type 0 where
  pub once : ListedOnce g.member_ids
  pub counted : g.version ≡ length g.member_ids
  pub known : All (λ m. contains m users ≡ true) g.member_ids

unfoldable pub AllGroups : InMemoryStore → Type 0
AllGroups store = All (λ e. IsGroup store.users e.1) store.groups

member_append :
    (x y : String) (ys : List String)
    → member y (ys ++ x ∷ []) ≡ (if member y ys then true else x == y)
unfolding member
member_append x y [] = ground arith
member_append x y (z ∷ zs) = ground (arith, member_append x y zs)

ListedOnce-snoc :
    (x : String) (xs : List String)
    → member x xs ≡ false
    → ListedOnce xs
    → ListedOnce (xs ++ x ∷ [])
unfolding member
ListedOnce-snoc x [] new h = (refl, tt)
ListedOnce-snoc x (y ∷ ys) new h =
    ground (arith, member_append x y ys, eq_iff x y, eq_iff y x, ListedOnce-snoc x ys)

join_group-IsGroup :
    (users : Dict UserRecord) (u : String) (g : GroupRecord)
    → contains u users ≡ true
    → IsGroup users g
    → IsGroup users (join_group u g)
unfolding join_group
join_group-IsGroup users u g known h = elim (Bool-cases (member u g.member_ids)) [
  | inl there ↦ rw (there, join_group) h
  | inr new ↦
      rw (new, join_group)
        (record {
          once = ListedOnce-snoc u g.member_ids new h.once;
          counted = omega (arith, h.counted, length-append g.member_ids (u ∷ []));
          known =
              All-append (λ m. contains m users ≡ true) g.member_ids (u ∷ []) h.known (known, tt);
        })
]

module _ (group_id user_id : String) (store : InMemoryStore) where
  -- How a call of `add_member` may end.
  abbrev pub AddsMember : Answer Bool × InMemoryStore → Type 0
  AddsMember (answer, after) =
      AllGroups after
      × (((answer ≡ ok true) × (contains user_id store.users ≡ true))
          ⊎ ((answer ≡ error group_not_found)
              × (contains group_id store.groups ≡ false)
              × (after ≡ store))
          ⊎ ((answer ≡ error user_not_found)
              × (contains user_id store.users ≡ false)
              × (after ≡ store)))

  add_member_no_group :
      lookup group_id store.groups ≡ none
      → add_member group_id user_id store ≡ (error group_not_found, store)
  unfolding add_member
  add_member_no_group e = rw (e, add_member)

  module _ (g : GroupRecord) (found : lookup group_id store.groups ≡ some g) where
    add_member_no_user :
        lookup user_id store.users ≡ none
        → add_member group_id user_id store ≡ (error user_not_found, store)
    unfolding add_member
    add_member_no_user e = rw (found, add_member) (rw e)

    add_member_joins :
        (u : UserRecord)
        → lookup user_id store.users ≡ some u
        → add_member group_id user_id store
          ≡ (ok true, record store { groups = insert group_id (join_group user_id g) store.groups })
    unfolding add_member Store.add_member
    add_member_joins u e = rw (found, add_member) (rw e (rw (found, Store.add_member)))

  -- `add_member` of the service keeps every group well formed: its members are users, each listed
  -- once, and its version is their number. It raises, and changes nothing, when the group is
  -- missing or the user is; otherwise it returns true.
  pub add_member-AllGroups : AllGroups store → AddsMember (add_member group_id user_id store)
  unfolding AllGroups
  add_member-AllGroups h = elim (Option-cases (lookup group_id store.groups)) [
    | inl no_group ↦
        subst AddsMember (sym (add_member_no_group no_group))
          (h, inr (inl (refl, contains_absent group_id store.groups no_group, refl)))
    | inr (g, found) ↦ elim (Option-cases (lookup user_id store.users)) [
      | inl no_user ↦
          subst AddsMember (sym (add_member_no_user g found no_user))
            (h, inr (inr (refl, contains_absent user_id store.users no_user, refl)))
      | inr (u, known) ↦ subst AddsMember (sym (add_member_joins g found u known)) (
        All-insert (IsGroup store.users) group_id (join_group user_id g) store.groups
            (join_group-IsGroup store.users user_id g (contains_found user_id store.users known)
              (All-lookup (IsGroup store.users) group_id store.groups h found))
            h,
        inl (refl, contains_found user_id store.users known),
      )
    ]
  ]

users_of-length :
    (uids : List String) (store : InMemoryStore)
    → All (λ m. contains m store.users ≡ true) uids
    → length (users_of uids store) ≡ length uids
unfolding users_of
users_of-length [] store h = refl
users_of-length (m ∷ uids) store h = ground (arith, users_of-length uids store h.1)

get_members-eq :
    (group_id : String) (store : InMemoryStore) (g : GroupRecord)
    → lookup group_id store.groups ≡ some g
    → get_members group_id store ≡ users_of g.member_ids store
unfolding get_members
get_members-eq group_id store g found = rw (found, get_members)

-- In a store whose groups are well formed `get_members` leaves no member out: it returns as many
-- users as the version of the group counts.
pub get_members-length :
    (group_id : String) (store : InMemoryStore) (g : GroupRecord)
    → AllGroups store
    → lookup group_id store.groups ≡ some g
    → length (get_members group_id store) ≡ g.version
unfolding AllGroups
get_members-length group_id store g h found =
    let w = All-lookup (IsGroup store.users) group_id store.groups h found in
    ap length (get_members-eq group_id store g found)
    ∙ users_of-length g.member_ids store w.known
    ∙ sym w.counted
