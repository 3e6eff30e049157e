-- ===== src/ExpenseService.antt =====
-- services/expense_service.py: the splits and the checks of an expense. What is done with an
-- expense that passes them is in Service. The decorator `occ_retry` of `create_expense` retries on a
-- conflict, which nothing below raises: its one call is the body.
pub mod Service
pub mod Splits
pub mod Conditions
pub mod Create
pub mod Consistency
pub mod Debts
use expense_settlement_engin.Common.{
  ℕ, suc, ◌+◌, ◌-◌, ◌/◌, ◌%◌, Bool, true, false, Option, none, some, List, [], ◌∷◌, ◌++◌, map,
  String, length, if◌then◌else◌, ltb, max, ◌==◌,
}
use expense_settlement_engin.Common.Int.{ℤ, pos, negsuc, ◌+ℤ◌, ◌-ℤ◌, ltb_ℤ, eqb_ℤ, sum_by}
use expense_settlement_engin.Common.Dict.{Dict, insert}
use expense_settlement_engin.DebtSimplifier.{
  Split, Transaction, Simplified, simplify, compute_net_balances,
}
use expense_settlement_engin.Ledger.{
  Journal, LedgerEngine, LedgerError, Runtime, Outcome, returned, raised,
}
use expense_settlement_engin.Ledger.Specs.{post_expense_journal}
use expense_settlement_engin.Store.{
  ExpenseRecord, InMemoryStore, ExpenseData, get_group, get_expenses_for_group, member,
}
use expense_settlement_engin.Store
use expense_settlement_engin.Messaging.{Outbox, append, expense_created, ExpenseCreated, of_expense}

-- The errors of `create_expense`, with the values that a text shows where they are integers.
pub data ExpenseError : Type 0 where
  total_too_small : ℤ → ExpenseError
  group_not_found group_has_no_members payer_not_member splits_missing : ExpenseError
  exact_sum_differs : ℤ → ℤ → ExpenseError
  percentages_not_hundred unknown_split_type : ExpenseError
  key_error : String → ExpenseError
  zero_division : ExpenseError
  not_a_number number_too_large : ExpenseError
  ledger_refused : LedgerError → ExpenseError

pub data Checked (A : Type 0) : Type 0 where
  valid : A → Checked A
  invalid : ExpenseError → Checked A

-- Python's `a // n` and `a % n`, for a positive `n`.
abbrev pub floor_div : ℤ → ℕ → ℤ
floor_div (pos a) n = pos (a / n)
floor_div (negsuc a) n = negsuc (a / n)

abbrev pub floor_mod : ℤ → ℕ → ℕ
floor_mod (pos a) n = a % n
floor_mod (negsuc a) n = n - 1 - a % n

-- The loop of `_split_equal`, from user `i` on.
unfoldable pub equal_from : ℤ → ℕ → ℕ → List String → List Split
equal_from base remainder i [] = []
equal_from base remainder i (uid ∷ user_ids) =
    record { user_id = uid; amount_cents = base +ℤ (if ltb i remainder then pos 1 else pos 0) }
    ∷ equal_from base remainder (suc i) user_ids

-- `_split_equal`
unfoldable pub split_equal : ℤ → List String → Checked (List Split)
unfolding equal_from
split_equal total_cents [] = invalid zero_division
split_equal total_cents (uid ∷ uids) =
    let n = length (uid ∷ uids) in
    valid (equal_from (floor_div total_cents n) (floor_mod total_cents n) 0 (uid ∷ uids))

-- The floating-point numbers, with what the code does with them: the sum from 0, the test
-- `abs(total - 100.0) > 0.01`, and `int(total_cents * percentage / 100)`. Neither test catches a NaN,
-- and `int` raises a `ValueError` on one; it raises an `OverflowError` on an infinity, and so does
-- the product on a total that is too large for a float.
pub data Portion : Type 0 where
  cents : ℤ → Portion
  nan overflow : Portion

pub record Floats (F : Type 0) : Type 0 where
  pub sum : List F → F
  pub not_hundred : F → Bool
  pub portion : ℤ → F → Portion

-- One dict of `splits_input`; only the user is always there.
pub record SplitInput (F : Type 0) : Type 0 where
  pub user_id : String
  pub amount_cents : Option ℤ
  pub percentage : Option F

-- What `[d[key] for d in splits_input]` reads; `none` is the `KeyError`.
unfoldable pub read_all :
    {F A : Type 0} → (SplitInput F → Option A) → List (SplitInput F) → Option (List (String × A))
read_all field [] = some []
read_all field (d ∷ l) =
    let rest = read_all field l in
    elim (field d) [
      | none ↦ none
      | some a ↦ elim rest [ none ↦ none | some items ↦ some ((d.user_id, a) ∷ items) ]
    ]

abbrev pub to_split : String × ℤ → Split
to_split d = record { user_id = d.0; amount_cents = d.1 }

abbrev pub amount_of : Split → ℤ
amount_of s = s.amount_cents

-- `_split_exact`
unfoldable pub split_exact : {F : Type 0} → List (SplitInput F) → ℤ → Checked (List Split)
unfolding read_all sum_by
split_exact splits_input total_cents = elim (read_all (λ d. d.amount_cents) splits_input) [
  | none ↦ invalid (key_error "amount_cents")
  | some ds ↦
      let splits = map to_split ds in
      let given = sum_by amount_of splits in
      if eqb_ℤ given total_cents
      then valid splits
      else invalid (exact_sum_differs given total_cents)
]

abbrev pub prepend : Split → Checked (List Split) → Checked (List Split)
prepend s (valid splits) = valid (s ∷ splits)
prepend s (invalid error) = invalid error

module _ {F : Type 0} (floats : Floats F) where
  -- The loop of `_split_percentage`.
  unfoldable pub percentage_from : ℤ → ℤ → List (String × F) → Checked (List Split)
  percentage_from total_cents allocated [] = valid []
  percentage_from total_cents allocated ((uid, p) ∷ []) =
      valid (record { user_id = uid; amount_cents = total_cents -ℤ allocated } ∷ [])
  percentage_from total_cents allocated ((uid, p) ∷ q ∷ l) = elim (floats.portion total_cents p) [
    | nan ↦ invalid not_a_number
    | overflow ↦ invalid number_too_large
    | cents amt ↦
        prepend (record { user_id = uid; amount_cents = amt })
          (percentage_from total_cents (allocated +ℤ amt) (q ∷ l))
  ]

  -- `_split_percentage`
  unfoldable pub split_percentage : List (SplitInput F) → ℤ → Checked (List Split)
  unfolding read_all percentage_from
  split_percentage percentages total_cents = elim (read_all (λ d. d.percentage) percentages) [
    | none ↦ invalid (key_error "percentage")
    | some ps ↦
        if floats.not_hundred (floats.sum (map (λ p. p.1) ps))
        then invalid percentages_not_hundred
        else percentage_from total_cents (pos 0) ps
  ]

-- The arguments of `create_expense`.
pub record ExpenseArgs (F : Type 0) : Type 0 where
  pub group_id : String
  pub payer_id : String
  pub title : String
  pub total_cents : ℤ
  pub split_type : String
  pub splits_input : Option (List (SplitInput F))
  pub idempotency_key : Option String

module _ {F : Type 0} (floats : Floats F) where
  -- `if not splits_input` raises, for `None` and for the empty list.
  abbrev pub with_input :
      (List (SplitInput F) → Checked (List Split))
      → Option (List (SplitInput F))
      → Checked (List Split)
  with_input f none = invalid splits_missing
  with_input f (some []) = invalid splits_missing
  with_input f (some (d ∷ l)) = f (d ∷ l)

  unfoldable pub choose_splits : ExpenseArgs F → List String → Checked (List Split)
  unfolding split_equal split_exact split_percentage
  choose_splits a member_ids =
      if a.split_type == "EQUAL"
      then split_equal a.total_cents member_ids
      else if a.split_type == "EXACT"
      then with_input (λ l. split_exact l a.total_cents) a.splits_input
      else if a.split_type == "PERCENTAGE"
      then with_input (λ l. split_percentage floats l a.total_cents) a.splits_input
      else invalid unknown_split_type

  -- The checks of `create_expense`, up to the splits.
  unfoldable pub checked_splits : ExpenseArgs F → InMemoryStore → Checked (List Split)
  unfolding member choose_splits
  checked_splits a store =
      if ltb_ℤ a.total_cents (pos 1)
      then invalid (total_too_small a.total_cents)
      else elim (get_group a.group_id store) [
        | none ↦ invalid group_not_found
        | some group ↦ elim group.member_ids [
          | [] ↦ invalid group_has_no_members
          | _ ∷ _ ↦
              if member a.payer_id group.member_ids
              then choose_splits a group.member_ids
              else invalid payer_not_member
        ]
      ]
