-- ===== src/ExpenseService/Conditions/Checks.antt =====
-- The checks of `create_expense` of services/expense_service.py pass on what the description admits,
-- and only on that.
use expense_settlement_engin.Common.{
  ℕ, ◌≡◌, refl, sym, ap, ◌∙◌, subst, inl, inr, true, false, List, [], ◌∷◌, String, ◌==◌, eq_iff,
  arith, Bool-cases, Option-cases, List-cases,
}
use expense_settlement_engin.Common.Int.{ℤ, pos, negsuc, ◌≤ℤ◌, ltb_ℤ, int_laws}
use expense_settlement_engin.DebtSimplifier.{Split}
use expense_settlement_engin.ExpenseService.{
  Checked, valid, invalid, split_equal, split_exact, split_percentage, Floats, ExpenseArgs,
  choose_splits, with_input, unknown_split_type, checked_splits, total_too_small, group_not_found,
  group_has_no_members, payer_not_member,
}
use expense_settlement_engin.Store.{InMemoryStore, get_group, member}
use expense_settlement_engin.ExpenseService.Conditions.{
  equal_shares, IsSplit, equally, exactly, by_percentage, IsAmong, IsProper,
}
use expense_settlement_engin.ExpenseService.Conditions.Shares.{
  valid_injective, split_equal_shares, Reads-split_exact, split_exact-Reads,
  IsPercentage-split_percentage, split_percentage-IsPercentage, with_input_valid,
}

not_below : (t : ℤ) → pos 1 ≤ℤ t → ltb_ℤ t (pos 1) ≡ false
not_below t h = ground arith

above_one : (t : ℤ) → ltb_ℤ t (pos 1) ≡ false → pos 1 ≤ℤ t
above_one t h = ground arith

above_zero : (t : ℤ) → pos 1 ≤ℤ t → (n : ℕ) × (t ≡ pos n)
above_zero (pos n) h = (n, refl)
above_zero (negsuc n) h = absurd (omega (int_laws, h))

module _ {F : Type 0} (floats : Floats F) (a : ExpenseArgs F) (m : String) (ms : List String) where
  when_equal :
      a.split_type ≡ "EQUAL" → choose_splits floats a (m ∷ ms) ≡ split_equal a.total_cents (m ∷ ms)
  unfolding choose_splits
  when_equal kind = rw (ap (λ s. s == "EQUAL") kind, choose_splits) refl

  when_exact :
      a.split_type ≡ "EXACT"
      → choose_splits floats a (m ∷ ms)
        ≡ with_input floats (λ l. split_exact l a.total_cents) a.splits_input
  unfolding choose_splits
  when_exact kind =
      rw (ap (λ s. s == "EQUAL") kind, ap (λ s. s == "EXACT") kind, choose_splits) refl

  when_percentage :
      a.split_type ≡ "PERCENTAGE"
      → choose_splits floats a (m ∷ ms)
        ≡ with_input floats (λ l. split_percentage floats l a.total_cents) a.splits_input
  unfolding choose_splits
  when_percentage kind =
      rw
        (
          ap (λ s. s == "EQUAL") kind,
          ap (λ s. s == "EXACT") kind,
          ap (λ s. s == "PERCENTAGE") kind,
          choose_splits,
        )
        refl

  pub IsSplit-choose_splits :
      (splits : List Split)
      → IsSplit floats a (m ∷ ms) splits
      → choose_splits floats a (m ∷ ms) ≡ valid splits
  IsSplit-choose_splits _ (equally t kind total) =
      when_equal kind ∙ ap (λ n. split_equal n (m ∷ ms)) total ∙ split_equal_shares t m ms
  IsSplit-choose_splits _ (exactly d l ds kind input reads sum) =
      when_exact kind
      ∙ ap (with_input floats (λ l. split_exact l a.total_cents)) input
      ∙ Reads-split_exact (d ∷ l) a.total_cents ds reads sum
  IsSplit-choose_splits splits (by_percentage d l ps _ kind input reads hundred rounded) =
      when_percentage kind
      ∙ ap (with_input floats (λ l. split_percentage floats l a.total_cents)) input
      ∙ IsPercentage-split_percentage floats (d ∷ l) a.total_cents ps splits
          (reads, hundred, rounded)

  pub choose_splits-IsSplit :
      (splits : List Split)
      → pos 1 ≤ℤ a.total_cents
      → choose_splits floats a (m ∷ ms) ≡ valid splits
      → IsSplit floats a (m ∷ ms) splits
  unfolding choose_splits
  choose_splits-IsSplit splits enough e = elim (Bool-cases (a.split_type == "EQUAL")) [
    | inl equal ↦
        let kind = (eq_iff a.split_type "EQUAL").0 equal in
        let (t, total) = above_zero a.total_cents enough in
        let shares =
          sym (IsSplit-choose_splits (equal_shares t (m ∷ ms)) (equally t kind total)) ∙ e in
        subst (IsSplit floats a (m ∷ ms)) (valid_injective _ _ shares) (equally t kind total)
    | inr not_equal ↦ elim (Bool-cases (a.split_type == "EXACT")) [
      | inl exact ↦
          let kind = (eq_iff a.split_type "EXACT").0 exact in
          let (d, l, input, fine) =
            with_input_valid floats (λ l. split_exact l a.total_cents) a.splits_input splits
              (sym (when_exact kind) ∙ e) in
          let (ds, reads, sum, same) = split_exact-Reads (d ∷ l) a.total_cents splits fine in
          subst (IsSplit floats a (m ∷ ms)) (sym same) (exactly d l ds kind input reads sum)
      | inr not_exact ↦ elim (Bool-cases (a.split_type == "PERCENTAGE")) [
        | inl percentage ↦
            let kind = (eq_iff a.split_type "PERCENTAGE").0 percentage in
            let (d, l, input, fine) =
              with_input_valid floats (λ l. split_percentage floats l a.total_cents) a.splits_input
                splits (sym (when_percentage kind) ∙ e) in
            let (ps, (reads, hundred, rounded)) =
              split_percentage-IsPercentage floats (d ∷ l) a.total_cents splits fine in
            by_percentage d l ps splits kind input reads hundred rounded
        | inr other ↦
            let never : Path (Checked (List Split)) (invalid unknown_split_type) (valid splits) =
              rw (not_equal, not_exact, other, choose_splits) at e in
            cc
      ]
    ]
  ]

member-IsAmong : (x : String) (l : List String) → member x l ≡ true → IsAmong x l
unfolding member
member-IsAmong x [] h = cc
member-IsAmong x (y ∷ ys) h = elim (Bool-cases (y == x)) [
  | inl here ↦ inl ((eq_iff y x).0 here)
  | inr elsewhere ↦ inr (member-IsAmong x ys (rw (elsewhere, member) at h))
]

IsAmong-member : (x : String) (l : List String) → IsAmong x l → member x l ≡ true
unfolding member
IsAmong-member x [] h = absurd h
IsAmong-member x (y ∷ ys) (inl here) = rw ((eq_iff y x).1 here, member) refl
IsAmong-member x (y ∷ ys) (inr there) = ground (arith, IsAmong-member x ys there)

module _ {F : Type 0} (floats : Floats F) (a : ExpenseArgs F) (store : InMemoryStore) where
  pub IsProper-checked_splits :
      (splits : List Split)
      → IsProper floats a store splits
      → checked_splits floats a store ≡ valid splits
  unfolding checked_splits
  IsProper-checked_splits splits p =
      let big : ltb_ℤ a.total_cents (pos 1) ≡ false = not_below a.total_cents p.enough in
      let here = IsAmong-member a.payer_id p.group.member_ids p.among in
      elim (List-cases p.group.member_ids) [
        | inl empty ↦ absurd (subst (IsAmong a.payer_id) empty p.among)
        | inr (m, ms, full) ↦
            let chosen =
              IsSplit-choose_splits floats a m ms splits
                (subst (λ l. IsSplit floats a l splits) full p.shares) in
            rw (big, p.exists, checked_splits)
              (rw full (
                rw (here, subst (λ l. choose_splits floats a l ≡ valid splits) (sym full) chosen)
                  refl))
      ]

  pub checked_splits-IsProper :
      (splits : List Split)
      → checked_splits floats a store ≡ valid splits
      → IsProper floats a store splits
  unfolding checked_splits
  checked_splits-IsProper splits e = elim (Bool-cases (ltb_ℤ a.total_cents (pos 1))) [
    | inl small ↦
        let never : Path (Checked (List Split)) (invalid (total_too_small a.total_cents))
            (valid splits) =
          rw (small, checked_splits) at e in
        cc
    | inr big ↦ elim (Option-cases (get_group a.group_id store)) [
      | inl missing ↦
          let never : Path (Checked (List Split)) (invalid group_not_found) (valid splits) =
            rw (big, missing, checked_splits) at e in
          cc
      | inr (g, exists) ↦ elim (List-cases g.member_ids) [
        | inl empty ↦
            let never : Path (Checked (List Split)) (invalid group_has_no_members) (valid splits) =
              rw (big, exists, empty, checked_splits) at e in
            cc
        | inr (m, ms, full) ↦ elim (Bool-cases (member a.payer_id g.member_ids)) [
          | inr stranger ↦
              let never : Path (Checked (List Split)) (invalid payer_not_member) (valid splits) =
                rw (stranger) at (rw full at (rw (big, exists, checked_splits) at e)) in
              cc
          | inl here ↦ record {
            enough = above_one a.total_cents big;
            group = g;
            exists = exists;
            among = member-IsAmong a.payer_id g.member_ids here;
            shares =
                subst (λ l. IsSplit floats a l splits) (sym full)
                  (choose_splits-IsSplit floats a m ms splits (above_one a.total_cents big) (
                    subst (λ l. choose_splits floats a l ≡ valid splits) full
                      (rw here at (rw full at (rw (big, exists, checked_splits) at e)))));
          }
        ]
      ]
    ]
  ]
