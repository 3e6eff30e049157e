-- ===== src/ExpenseService/Splits.antt =====
-- The three splits of services/expense_service.py.
use expense_settlement_engin.Common.{
  ℕ, suc, ◌+◌, ◌-◌, ◌*◌, ◌/◌, ◌%◌, min, ◌≡◌, refl, sym, ap, ◌∙◌, subst, inl, inr, ◌⊎◌, true, false,
  Bool, Option, none, some, List, [], ◌∷◌, map, String, ◌==◌, arith, length, if◌then◌else◌, ltb,
  All, Bool-cases, Option-cases,
}
use native.Mathlib.Nat.{mul-suc, mul-zero, mod-lt, div-add-mod'}
use expense_settlement_engin.Common.Int.{
  ℤ, pos, negsuc, ◌+ℤ◌, ◌-ℤ◌, ltb_ℤ, eqb_ℤ, eqb_ℤ→eq, sum_by, int_laws,
}
use expense_settlement_engin.DebtSimplifier.{Split}
use expense_settlement_engin.ExpenseService.{
  Checked, valid, invalid, Portion, cents, nan, overflow, prepend, equal_from, split_equal,
  split_exact, split_percentage, read_all, to_split, Floats, percentage_from, amount_of, SplitInput,
  ExpenseArgs, choose_splits, checked_splits, with_input, group_has_no_members, payer_not_member,
  percentages_not_hundred, unknown_split_type,
}
use expense_settlement_engin.Store.{InMemoryStore, member, get_group}

abbrev pub user_of : Split → String
user_of s = s.user_id

sum_by-equal_from :
    (b r i : ℕ) (l : List String)
    → sum_by amount_of (equal_from (pos b) r i l) ≡ pos (b * length l + min (r - i) (length l))
unfolding equal_from sum_by ◌+ℤ◌
sum_by-equal_from b r i [] = rw mul-zero (ground arith)
sum_by-equal_from b r i (u ∷ l) =
    rw (sum_by-equal_from b r (suc i) l, mul-suc b (length l)) (ground arith)

-- Of `b` cents, or of one more.
abbrev pub IsShare : ℕ → Split → Type 0
IsShare b s = (s.amount_cents ≡ pos b) ⊎ (s.amount_cents ≡ pos (suc b))

module _ (b r : ℕ) where
  equal_from-IsShare : (i : ℕ) (l : List String) → All (IsShare b) (equal_from (pos b) r i l)
  unfolding equal_from
  equal_from-IsShare i [] = tt
  equal_from-IsShare i (u ∷ l) = (
    elim (Bool-cases (ltb i r)) [
      | inl more ↦ inr (rw more (omega int_laws))
      | inr base ↦ inl (rw base (omega int_laws))
    ],
    equal_from-IsShare (suc i) l,
  )

  equal_from-users : (i : ℕ) (l : List String) → map user_of (equal_from (pos b) r i l) ≡ l
  unfolding equal_from
  equal_from-users i [] = refl
  equal_from-users i (u ∷ l) = ap (λ t. u ∷ t) (equal_from-users (suc i) l)

-- `_split_equal` of at least 0 cents over at least one user gives each user, in order, one share;
-- the shares add up to the total, and any two of them differ by at most one cent.
pub split_equal_fair :
    (t : ℕ) (u : String) (us : List String)
    → (splits : List Split) × (split_equal (pos t) (u ∷ us) ≡ valid splits)
      × (map user_of splits ≡ u ∷ us)
      × (sum_by amount_of splits ≡ pos t)
      × All (IsShare (t / length (u ∷ us))) splits
unfolding split_equal
split_equal_fair t u us =
    let n = length (u ∷ us) in
    (
      equal_from (pos (t / n)) (t % n) 0 (u ∷ us),
      refl,
      equal_from-users (t / n) (t % n) 0 (u ∷ us),
      sum_by-equal_from (t / n) (t % n) 0 (u ∷ us)
          ∙ ap pos (omega (arith, div-add-mod' t n, mod-lt t {m = n} (omega arith))),
      equal_from-IsShare (t / n) (t % n) 0 (u ∷ us),
    )

minus_zero : (t : ℤ) → t -ℤ pos 0 ≡ t
minus_zero t = omega int_laws

-- Splits that were found valid add up to the total.
AddsUp : ℤ → Checked (List Split) → Type 0
AddsUp total (valid splits) = sum_by amount_of splits ≡ total
AddsUp total (invalid _) = Unit

prepend-AddsUp :
    (rest total : ℤ) (s : Split) (c : Checked (List Split))
    → s.amount_cents +ℤ rest ≡ total
    → AddsUp rest c
    → AddsUp total (prepend s c)
unfolding AddsUp sum_by
prepend-AddsUp rest total s (valid splits) e h = rw h e
prepend-AddsUp rest total s (invalid _) e h = tt

pub Portion-cases : (p : Portion) → ((c : ℤ) × (p ≡ cents c)) ⊎ ((p ≡ nan) ⊎ (p ≡ overflow))
Portion-cases (cents c) = inl (c, refl)
Portion-cases nan = inr (inl refl)
Portion-cases overflow = inr (inr refl)

module _ {F : Type 0} (floats : Floats F) (total : ℤ) where
  percentage_from-AddsUp :
      (allocated : ℤ) (p : String × F) (l : List (String × F))
      → AddsUp (total -ℤ allocated) (percentage_from floats total allocated (p ∷ l))
  unfolding percentage_from sum_by AddsUp
  percentage_from-AddsUp allocated p [] = omega int_laws
  percentage_from-AddsUp allocated p (q ∷ l) = elim (Portion-cases (floats.portion total p.1)) [
    | inl (c, found) ↦
        rw (found, percentage_from)
          (prepend-AddsUp (total -ℤ (allocated +ℤ c)) (total -ℤ allocated)
            (record { user_id = p.0; amount_cents = c })
            (percentage_from floats total (allocated +ℤ c) (q ∷ l)) (omega int_laws)
            (percentage_from-AddsUp (allocated +ℤ c) q l))
    | inr (inl bad) ↦ rw (bad, percentage_from) tt
    | inr (inr bad) ↦ rw (bad, percentage_from) tt
  ]

split_equal-AddsUp :
    (t : ℤ) (l : List String) → ltb_ℤ t (pos 1) ≡ false → AddsUp t (split_equal t l)
unfolding split_equal AddsUp
split_equal-AddsUp t [] h = tt
split_equal-AddsUp (pos t) (u ∷ us) h =
    let (splits, e, _, total, _) = split_equal_fair t u us in subst (AddsUp (pos t)) (sym e) total
split_equal-AddsUp (negsuc t) (u ∷ us) h = absurd (ground arith)

AddsUp-if :
    (total : ℤ) (b : Bool) (x y : Checked (List Split))
    → (b ≡ true → AddsUp total x)
    → (b ≡ false → AddsUp total y)
    → AddsUp total (if b then x else y)
AddsUp-if total true x y yes_ no_ = yes_ refl
AddsUp-if total false x y yes_ no_ = no_ refl

module _ {F : Type 0} (l : List (SplitInput F)) (t : ℤ) where
  split_exact-AddsUp : AddsUp t (split_exact l t)
  unfolding split_exact AddsUp
  split_exact-AddsUp = elim (Option-cases (read_all (λ d. d.amount_cents) l)) [
    | inl missing ↦ rw (missing, split_exact) tt
    | inr (ds, found) ↦
        let given = sum_by amount_of (map to_split ds) in
        rw (found, split_exact)
          (AddsUp-if t (eqb_ℤ given t) _ _ (λ same. eqb_ℤ→eq given t same) (λ _. tt))
  ]

module _ {F : Type 0} where
  read_all-nonempty :
      (d : SplitInput F) (l : List (SplitInput F)) (ps : List (String × F))
      → read_all (λ d. d.percentage) (d ∷ l) ≡ some ps
      → (p : String × F) × (ps' : List (String × F)) × (ps ≡ p ∷ ps')
  unfolding read_all
  read_all-nonempty d l [] e = absurd (ground arith)
  read_all-nonempty d l (p ∷ ps) e = (p, ps, refl)

module _ {F : Type 0} (floats : Floats F) where
  split_percentage-AddsUp :
      (t : ℤ) (d : SplitInput F) (l : List (SplitInput F))
      → AddsUp t (split_percentage floats (d ∷ l) t)
  unfolding split_percentage AddsUp
  split_percentage-AddsUp t d l = elim (Option-cases (read_all (λ d. d.percentage) (d ∷ l))) [
    | inl missing ↦ rw (missing, split_percentage) tt
    | inr (ps, found) ↦
        let (p, ps', e) = read_all-nonempty d l ps found in
        rw (found, split_percentage)
          (AddsUp-if t (floats.not_hundred (floats.sum (map (λ p. p.1) ps)))
            (invalid percentages_not_hundred) (percentage_from floats t (pos 0) ps) (λ _. tt)
            (λ _. rw e (
              subst (λ n. AddsUp n (percentage_from floats t (pos 0) (p ∷ ps'))) (minus_zero t)
                (percentage_from-AddsUp floats t (pos 0) p ps'))))
  ]

  with_input-AddsUp :
      (t : ℤ) (f : List (SplitInput F) → Checked (List Split)) (o : Option (List (SplitInput F)))
      → ((d : SplitInput F) (l : List (SplitInput F)) → AddsUp t (f (d ∷ l)))
      → AddsUp t (with_input floats f o)
  unfolding AddsUp
  with_input-AddsUp t f none h = tt
  with_input-AddsUp t f (some []) h = tt
  with_input-AddsUp t f (some (d ∷ l)) h = h d l

  module _ (a : ExpenseArgs F) where
    choose_splits-AddsUp :
        (members : List String)
        → ltb_ℤ a.total_cents (pos 1) ≡ false
        → AddsUp a.total_cents (choose_splits floats a members)
    unfolding choose_splits AddsUp
    choose_splits-AddsUp members h =
        let t = a.total_cents in
        elim (Bool-cases (a.split_type == "EQUAL")) [
          | inl equal ↦ rw (equal, choose_splits) (split_equal-AddsUp t members h)
          | inr other ↦ elim (Bool-cases (a.split_type == "EXACT")) [
            | inl exact ↦
                rw (other, exact, choose_splits)
                  (with_input-AddsUp t (λ l. split_exact l t) a.splits_input
                    (λ d l. split_exact-AddsUp (d ∷ l) t))
            | inr more ↦
                rw (other, more, choose_splits)
                  (AddsUp-if t (a.split_type == "PERCENTAGE")
                    (with_input floats (λ l. split_percentage floats l t) a.splits_input)
                    (invalid unknown_split_type)
                    (λ _.
                      with_input-AddsUp t (λ l. split_percentage floats l t) a.splits_input
                        (λ d l. split_percentage-AddsUp t d l))
                    (λ _. tt))
          ]
        ]

    group_splits-AddsUp :
        (ms members : List String)
        → ltb_ℤ a.total_cents (pos 1) ≡ false
        → AddsUp a.total_cents (elim ms [
          | [] ↦ invalid group_has_no_members
          | _ ∷ _ ↦
              if member a.payer_id members
              then choose_splits floats a members
              else invalid payer_not_member
        ])
    unfolding AddsUp
    group_splits-AddsUp [] members h = tt
    group_splits-AddsUp (_ ∷ _) members h =
        AddsUp-if a.total_cents (member a.payer_id members) (choose_splits floats a members)
          (invalid payer_not_member) (λ _. choose_splits-AddsUp members h) (λ _. tt)

    checked_splits-AddsUp :
        (store : InMemoryStore) → AddsUp a.total_cents (checked_splits floats a store)
    unfolding checked_splits AddsUp
    checked_splits-AddsUp store = elim (Bool-cases (ltb_ℤ a.total_cents (pos 1))) [
      | inl small ↦ rw (small, checked_splits) tt
      | inr fine ↦ elim (Option-cases (get_group a.group_id store)) [
        | inl missing ↦ rw (fine, missing, checked_splits) tt
        | inr (g, found) ↦
            rw (fine, found, checked_splits) (group_splits-AddsUp g.member_ids g.member_ids fine)
      ]
    ]

    -- The splits that pass the checks of `create_expense`, whatever their type, add up to the total.
    pub checked_splits_sum :
        (store : InMemoryStore) (splits : List Split)
        → checked_splits floats a store ≡ valid splits
        → sum_by amount_of splits ≡ a.total_cents
    unfolding AddsUp
    checked_splits_sum store splits fine =
        subst (AddsUp a.total_cents) fine (checked_splits-AddsUp store)
