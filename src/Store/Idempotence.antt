-- ===== src/Store/Idempotence.antt =====
-- database/store.py: calls that are made again.
use expense_settlement_engin.Common.{
  ℕ, ◌≡◌, sym, ap, ◌∙◌, inl, inr, true, false, Option, none, some, List, [], ◌∷◌, ◌++◌, arith,
  String, eq_refl, Option-cases,
}
use expense_settlement_engin.Common.Dict.{lookup, insert, lookup-insert_self, insert-insert}
use expense_settlement_engin.Store.{
  GroupRecord, ExpenseRecord, InMemoryStore, member, join_group, add_member, truthy, ExpenseData,
  new_expense, keyed_expense, existing_expense, create_expense,
}

member-snoc : (x : String) (xs : List String) → member x (xs ++ x ∷ []) ≡ true
unfolding member
member-snoc x [] = rw (eq_refl x)
member-snoc x (y ∷ ys) = ground (arith, member-snoc x ys)

join_group-join_group :
    (u : String) (g : GroupRecord) → join_group u (join_group u g) ≡ join_group u g
unfolding join_group
join_group-join_group u g = ground (arith, member-snoc u g.member_ids)

module _ (group_id user_id : String) (store : InMemoryStore) where
  add_member_missing :
      lookup group_id store.groups ≡ none → add_member group_id user_id store ≡ (false, store)
  unfolding add_member
  add_member_missing e = rw (e, add_member)

  add_member_found :
      (g : GroupRecord)
      → lookup group_id store.groups ≡ some g
      → add_member group_id user_id store
        ≡ (true, record store { groups = insert group_id (join_group user_id g) store.groups })
  unfolding add_member
  add_member_found g e = rw (e, add_member)

-- Adding a member who has just been added, to a group that exists or not, gives the same answer
-- and changes nothing: no second entry, no new version.
pub add_member-add_member :
    (group_id user_id : String) (store : InMemoryStore)
    → let (answer, after) = add_member group_id user_id store in
      add_member group_id user_id after ≡ (answer, after)
add_member-add_member group_id user_id store = elim (Option-cases (lookup group_id store.groups)) [
  | inl missing ↦ let same = add_member_missing group_id user_id store missing in rw same same
  | inr (g, found) ↦
      let g' = join_group user_id g in
      let after : InMemoryStore = record store { groups = insert group_id g' store.groups } in
      rw (add_member_found group_id user_id store g found) (
        add_member_found group_id user_id after g' (lookup-insert_self group_id g' store.groups)
        ∙ rw (join_group-join_group, insert-insert))
]

module _ (uuid : String) (now : ℕ) (d : ExpenseData) (store : InMemoryStore) where
  create_expense_existing :
      (e : ExpenseRecord)
      → existing_expense d.idempotency_key store ≡ some e
      → create_expense uuid now d store ≡ (e, store)
  unfolding create_expense
  create_expense_existing e found = rw (found, create_expense)

  module _ (k : String) (key : truthy d.idempotency_key ≡ some k) where
    abbrev stored : InMemoryStore
    stored = record store {
      expenses = insert uuid (new_expense uuid now d) store.expenses;
      idempotency_keys = insert k uuid store.idempotency_keys;
    }

    create_expense_new :
        existing_expense d.idempotency_key store ≡ none
        → create_expense uuid now d store ≡ (new_expense uuid now d, stored)
    unfolding create_expense
    create_expense_new fresh = rw (fresh, create_expense) (rw (key, truthy))

existing-same_key :
    (key key' : Option String) (store : InMemoryStore)
    → truthy key ≡ truthy key'
    → existing_expense key store ≡ existing_expense key' store
existing-same_key key key' store e = ap (λ k. keyed_expense k store) e

existing-stored :
    (uuid : String) (now : ℕ) (d : ExpenseData) (store : InMemoryStore) (k : String)
    (key : truthy d.idempotency_key ≡ some k)
    → existing_expense d.idempotency_key (stored uuid now d store k key)
      ≡ some (new_expense uuid now d)
unfolding keyed_expense
existing-stored uuid now d store k key =
    rw (key, lookup-insert_self k uuid store.idempotency_keys, keyed_expense)
      (lookup-insert_self uuid (new_expense uuid now d) store.expenses)

-- A second `create_expense` with the same idempotency key, whatever its other arguments, returns
-- the expense that the first call returned and leaves the store as the first call left it.
pub create_expense-create_expense :
    (uuid uuid' : String) (now now' : ℕ) (d d' : ExpenseData) (k : String) (store : InMemoryStore)
    → truthy d.idempotency_key ≡ some k
    → truthy d'.idempotency_key ≡ some k
    → let (expense, after) = create_expense uuid now d store in
      create_expense uuid' now' d' after ≡ (expense, after)
create_expense-create_expense uuid uuid' now now' d d' k store e e' =
    let same = λ (s : InMemoryStore).
      existing-same_key d'.idempotency_key d.idempotency_key s (e' ∙ sym e) in
    elim (Option-cases (existing_expense d.idempotency_key store)) [
      | inl fresh ↦ rw (create_expense_new uuid now d store k e fresh) (
          create_expense_existing uuid' now' d' _ (new_expense uuid now d)
            (same _ ∙ existing-stored uuid now d store k e))
      | inr (x, found) ↦
          rw (create_expense_existing uuid now d store x found)
            (create_expense_existing uuid' now' d' store x (same store ∙ found))
    ]
