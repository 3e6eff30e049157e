-- ===== src/ExpenseService/Conditions.antt =====
-- What services/expense_service.py asks of an expense, written without its functions: the payer, the
-- group, and the shares of the three kinds of split.
pub mod Shares
pub mod Checks
use expense_settlement_engin.Common.{
  ℕ, suc, ◌/◌, ◌%◌, ◌≡◌, ◌⊎◌, false, Option, some, List, [], ◌∷◌, ◌++◌, map, String, length, take,
  drop,
}
use expense_settlement_engin.Common.Int.{ℤ, pos, ◌+ℤ◌, ◌-ℤ◌, ◌≤ℤ◌, sum_by}
use expense_settlement_engin.Common.Dict.{lookup}
use expense_settlement_engin.DebtSimplifier.{Split}
use expense_settlement_engin.Store.{InMemoryStore, GroupRecord}
use expense_settlement_engin.ExpenseService.{
  cents, to_split, Floats, amount_of, SplitInput, ExpenseArgs,
}

abbrev pub share : ℕ → String → Split
share amount uid = record { user_id = uid; amount_cents = pos amount }

-- Every user gets the quotient, and the first users one cent more, as many as the remainder.
abbrev pub equal_shares : ℕ → List String → List Split
equal_shares t members =
    let q = t / length members in
    let r = t % length members in
    map (share (suc q)) (take r members) ++ map (share q) (drop r members)

module _ {F A : Type 0} (field : SplitInput F → Option A) where
  -- Every dict has the field, and these are its users and values.
  unfoldable pub Reads : List (SplitInput F) → List (String × A) → Type 0
  Reads [] [] = Unit
  Reads [] (_ ∷ _) = ⊥
  Reads (d ∷ l) [] = ⊥
  Reads (d ∷ l) ((u, a) ∷ ds) = (d.user_id ≡ u) × (field d ≡ some a) × Reads l ds

module _ {F : Type 0} (floats : Floats F) (total : ℤ) where
  -- The shares by percentages when `allocated` cents are given away: each but the last is its
  -- portion of the total, and the last is what is left.
  unfoldable pub IsRounded : ℤ → List (String × F) → List Split → Type 0
  IsRounded allocated [] splits = splits ≡ []
  IsRounded allocated ((uid, p) ∷ []) splits =
      splits ≡ record { user_id = uid; amount_cents = total -ℤ allocated } ∷ []
  IsRounded allocated ((uid, p) ∷ q ∷ l) splits =
      (amount : ℤ) × (others : List Split) × (floats.portion total p ≡ cents amount)
      × (splits ≡ record { user_id = uid; amount_cents = amount } ∷ others)
      × IsRounded (allocated +ℤ amount) (q ∷ l) others

-- `splits` are the shares of the arguments' kind: equal ones, those of the input, or its percentages.
pub data IsSplit {F : Type 0} (floats : Floats F) (a : ExpenseArgs F) (members : List String)
    : List Split → Type 0 where
  equally :
      (t : ℕ)
      → a.split_type ≡ "EQUAL"
      → a.total_cents ≡ pos t
      → IsSplit floats a members (equal_shares t members)
  exactly :
      (d : SplitInput F) (l : List (SplitInput F)) (ds : List (String × ℤ))
      → a.split_type ≡ "EXACT"
      → a.splits_input ≡ some (d ∷ l)
      → Reads (λ d. d.amount_cents) (d ∷ l) ds
      → sum_by amount_of (map to_split ds) ≡ a.total_cents
      → IsSplit floats a members (map to_split ds)
  by_percentage :
      (d : SplitInput F) (l : List (SplitInput F)) (ps : List (String × F)) (splits : List Split)
      → a.split_type ≡ "PERCENTAGE"
      → a.splits_input ≡ some (d ∷ l)
      → Reads (λ d. d.percentage) (d ∷ l) ps
      → floats.not_hundred (floats.sum (map (λ p. p.1) ps)) ≡ false
      → IsRounded floats a.total_cents (pos 0) ps splits
      → IsSplit floats a members splits

-- The user is among the members.
abbrev pub IsAmong : String → List String → Type 0
IsAmong x [] = ⊥
IsAmong x (y ∷ ys) = (y ≡ x) ⊎ IsAmong x ys

module _ {F : Type 0} (floats : Floats F) (a : ExpenseArgs F) (store : InMemoryStore) where
  -- What the code asks for before it posts a journal for `splits`: a total of at least one cent, a
  -- group that exists with the payer among its members, and shares of the arguments' kind.
  pub record IsProper (splits : List Split) : Type 0 where
    pub enough : pos 1 ≤ℤ a.total_cents
    pub group : GroupRecord
    pub exists : lookup a.group_id store.groups ≡ some group
    pub among : IsAmong a.payer_id group.member_ids
    pub shares : IsSplit floats a group.member_ids splits
