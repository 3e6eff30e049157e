-- ===== src/ExpenseService/Conditions/Shares.antt =====
-- The three splits of services/expense_service.py give the shares of their description, and only those.
use expense_settlement_engin.Common.{
  ℕ, zero, suc, ◌-◌, ◌/◌, ◌%◌, ◌≡◌, refl, sym, ap, ◌∙◌, subst, inl, inr, false, Option, none, some,
  List, [], ◌∷◌, ◌++◌, map, String, arith, length, take, drop, ltb, Bool-cases, Option-cases,
}
use mathlib.Core.Option.{some-injective}
use expense_settlement_engin.Common.Int.{ℤ, pos, ◌+ℤ◌, eqb_ℤ, eqb_ℤ→eq, eq→eqb_ℤ, sum_by, int_laws}
use expense_settlement_engin.DebtSimplifier.{Split}
use expense_settlement_engin.ExpenseService.{
  Checked, valid, invalid, prepend, equal_from, split_equal, split_exact, split_percentage,
  read_all, to_split, Floats, percentage_from, amount_of, SplitInput, with_input, not_a_number,
  number_too_large, key_error, exact_sum_differs, percentages_not_hundred,
}
use expense_settlement_engin.ExpenseService.Splits.{Portion-cases}
use expense_settlement_engin.ExpenseService.Conditions.{share, equal_shares, Reads, IsRounded}

pub valid_injective : {A : Type 0} (s t : A) → Path (Checked A) (valid s) (valid t) → s ≡ t
valid_injective s t e = ap (λ c. elim c [ valid r ↦ r | invalid _ ↦ s ]) e

plus_one : (b : ℕ) → pos b +ℤ pos 1 ≡ pos (suc b)
plus_one b = omega int_laws

plus_zero : (b : ℕ) → pos b +ℤ pos 0 ≡ pos b
plus_zero b = omega int_laws

no_shares : (b n : ℕ) → map (share (suc b)) (take n []) ++ map (share b) (drop n []) ≡ []
no_shares b zero = refl
no_shares b (suc n) = refl

equal_from-shares :
    (b r i : ℕ) (l : List String)
    → equal_from (pos b) r i l
      ≡ map (share (suc b)) (take (r - i) l) ++ map (share b) (drop (r - i) l)
unfolding equal_from
equal_from-shares b r i [] = sym (no_shares b (r - i))
equal_from-shares b r i (u ∷ l) = elim (Bool-cases (ltb i r)) [
  | inl more ↦
      let left : r - i ≡ suc (r - suc i) = ground arith in
      let rest = map (share (suc b)) (take (r - suc i) l) ++ map (share b) (drop (r - suc i) l) in
      rw (more, left, equal_from-shares b r (suc i) l)
        (ap (λ z. record { user_id = u; amount_cents = z } ∷ rest) (plus_one b))
  | inr over ↦
      let left : r - i ≡ 0 = ground arith in
      let less : r - suc i ≡ 0 = ground arith in
      let rest : equal_from (pos b) r (suc i) l ≡ map (share b) l =
        equal_from-shares b r (suc i) l ∙ rw less refl in
      rw (over, left, rest)
        (ap (λ z. record { user_id = u; amount_cents = z } ∷ map (share b) l) (plus_zero b))
]

prepend_valid :
    (s : Split) (c : Checked (List Split)) (splits : List Split)
    → prepend s c ≡ valid splits
    → (others : List Split) × (c ≡ valid others) × (splits ≡ s ∷ others)
prepend_valid s (valid others) splits e = (others, refl, sym (valid_injective _ _ e))
prepend_valid s (invalid x) splits e = cc

module _ {F A : Type 0} (field : SplitInput F → Option A) where
  read_all-Reads :
      (l : List (SplitInput F)) (ds : List (String × A))
      → read_all field l ≡ some ds
      → Reads field l ds
  unfolding read_all Reads
  read_all-Reads [] [] e = tt
  read_all-Reads [] (x ∷ ds) e = cc
  read_all-Reads (d ∷ l) ds e = elim (Option-cases (field d)) [
    | inl missing ↦
        let bad : Path (Option (List (String × A))) none (some ds) = rw (missing, read_all) at e in
        cc
    | inr (a, found) ↦ elim (Option-cases (read_all field l)) [
      | inl missing ↦
          let bad : Path (Option (List (String × A))) none (some ds) =
            rw (found, missing, read_all) at e in
          cc
      | inr (items, rest) ↦
          let same : Path (Option (List (String × A))) (some ((d.user_id, a) ∷ items)) (some ds) =
            rw (found, rest, read_all) at e in
          subst (Reads field (d ∷ l)) (some-injective _ _ same)
            (refl, found, read_all-Reads l items rest)
    ]
  ]

  Reads-read_all :
      (l : List (SplitInput F)) (ds : List (String × A))
      → Reads field l ds
      → read_all field l ≡ some ds
  unfolding read_all Reads
  Reads-read_all [] [] h = refl
  Reads-read_all [] (x ∷ ds) h = absurd h
  Reads-read_all (d ∷ l) [] h = absurd h
  Reads-read_all (d ∷ l) ((u, a) ∷ ds) h =
      let rest = Reads-read_all l ds h.2 in rw (h.1, rest, read_all) (rw h.0 refl)

module _ {F : Type 0} (floats : Floats F) (total : ℤ) where
  percentage_from-IsRounded :
      (allocated : ℤ) (ps : List (String × F)) (splits : List Split)
      → percentage_from floats total allocated ps ≡ valid splits
      → IsRounded floats total allocated ps splits
  unfolding percentage_from IsRounded
  percentage_from-IsRounded allocated [] splits e = sym (valid_injective _ _ e)
  percentage_from-IsRounded allocated (p ∷ []) splits e = sym (valid_injective _ _ e)
  percentage_from-IsRounded allocated (p ∷ q ∷ l) splits e =
      elim (Portion-cases (floats.portion total p.1)) [
        | inl (c, found) ↦
            let s : Split = record { user_id = p.0; amount_cents = c } in
            let (others, rest, all) =
              prepend_valid s (percentage_from floats total (allocated +ℤ c) (q ∷ l)) splits
                (rw (found, percentage_from) at e) in
            (c, others, found, all, percentage_from-IsRounded (allocated +ℤ c) (q ∷ l) others rest)
        | inr (inl bad) ↦
            let never : Path (Checked (List Split)) (invalid not_a_number) (valid splits) =
              rw (bad, percentage_from) at e in
            cc
        | inr (inr bad) ↦
            let never : Path (Checked (List Split)) (invalid number_too_large) (valid splits) =
              rw (bad, percentage_from) at e in
            cc
      ]

  IsRounded-percentage_from :
      (allocated : ℤ) (ps : List (String × F)) (splits : List Split)
      → IsRounded floats total allocated ps splits
      → percentage_from floats total allocated ps ≡ valid splits
  unfolding percentage_from IsRounded
  IsRounded-percentage_from allocated [] splits e = ap valid (sym e)
  IsRounded-percentage_from allocated (p ∷ []) splits e = ap valid (sym e)
  IsRounded-percentage_from allocated (p ∷ q ∷ l) splits (c, others, found, all, rest) =
      let tail = IsRounded-percentage_from (allocated +ℤ c) (q ∷ l) others rest in
      rw (found, percentage_from) (rw (tail, all) refl)

pub split_equal_shares :
    (t : ℕ) (m : String) (ms : List String)
    → split_equal (pos t) (m ∷ ms) ≡ valid (equal_shares t (m ∷ ms))
unfolding split_equal
split_equal_shares t m ms =
    let n = length (m ∷ ms) in
    let zero_less : t % n - 0 ≡ t % n = omega arith in
    ap valid (
      equal_from-shares (t / n) (t % n) 0 (m ∷ ms)
      ∙ ap
          (λ r.
            map (share (suc (t / n))) (take r (m ∷ ms)) ++ map (share (t / n)) (drop r (m ∷ ms)))
          zero_less)

module _ {F : Type 0} (l : List (SplitInput F)) (total : ℤ) where
  pub Reads-split_exact :
      (ds : List (String × ℤ))
      → Reads (λ d. d.amount_cents) l ds
      → sum_by amount_of (map to_split ds) ≡ total
      → split_exact l total ≡ valid (map to_split ds)
  unfolding split_exact
  Reads-split_exact ds reads sum =
      rw (Reads-read_all (λ d. d.amount_cents) l ds reads, split_exact)
        (rw (eq→eqb_ℤ (sum_by amount_of (map to_split ds)) total sum) refl)

  pub split_exact-Reads :
      (splits : List Split)
      → split_exact l total ≡ valid splits
      → (ds : List (String × ℤ)) × Reads (λ d. d.amount_cents) l ds
        × (sum_by amount_of (map to_split ds) ≡ total)
        × (splits ≡ map to_split ds)
  unfolding split_exact
  split_exact-Reads splits e = elim (Option-cases (read_all (λ d. d.amount_cents) l)) [
    | inl missing ↦
        let never : Path (Checked (List Split)) (invalid (key_error "amount_cents"))
            (valid splits) =
          rw (missing, split_exact) at e in
        cc
    | inr (ds, found) ↦
        let given = sum_by amount_of (map to_split ds) in
        elim (Bool-cases (eqb_ℤ given total)) [
          | inl same ↦
              let fine : Path (Checked (List Split)) (valid (map to_split ds)) (valid splits) =
                rw (found, same, split_exact) at e in
              (
                ds,
                read_all-Reads (λ d. d.amount_cents) l ds found,
                eqb_ℤ→eq given total same,
                sym (valid_injective _ _ fine),
              )
          | inr differs ↦
              let never : Path (Checked (List Split)) (invalid (exact_sum_differs given total))
                  (valid splits) =
                rw (found, differs, split_exact) at e in
              cc
        ]
  ]

module _ {F : Type 0} (floats : Floats F) where
  -- Percentages are read, their sum passes the test, and the shares are rounded from them.
  abbrev pub IsPercentage : List (SplitInput F) → ℤ → List (String × F) → List Split → Type 0
  IsPercentage l total ps splits =
      Reads (λ d. d.percentage) l ps
      × (floats.not_hundred (floats.sum (map (λ p. p.1) ps)) ≡ false)
      × IsRounded floats total (pos 0) ps splits

  pub IsPercentage-split_percentage :
      (l : List (SplitInput F)) (total : ℤ) (ps : List (String × F)) (splits : List Split)
      → IsPercentage l total ps splits
      → split_percentage floats l total ≡ valid splits
  unfolding split_percentage
  IsPercentage-split_percentage l total ps splits (reads, hundred, rounded) =
      rw (Reads-read_all (λ d. d.percentage) l ps reads, split_percentage)
        (rw hundred (IsRounded-percentage_from floats total (pos 0) ps splits rounded))

  pub split_percentage-IsPercentage :
      (l : List (SplitInput F)) (total : ℤ) (splits : List Split)
      → split_percentage floats l total ≡ valid splits
      → (ps : List (String × F)) × IsPercentage l total ps splits
  unfolding split_percentage
  split_percentage-IsPercentage l total splits e =
      elim (Option-cases (read_all (λ d. d.percentage) l)) [
        | inl missing ↦
            let never : Path (Checked (List Split)) (invalid (key_error "percentage"))
                (valid splits) =
              rw (missing, split_percentage) at e in
            cc
        | inr (ps, found) ↦
            elim (Bool-cases (floats.not_hundred (floats.sum (map (λ p. p.1) ps)))) [
              | inl bad ↦
                  let never : Path (Checked (List Split)) (invalid percentages_not_hundred)
                      (valid splits) =
                    rw (found, bad, split_percentage) at e in
                  cc
              | inr hundred ↦ (
                ps,
                (
                  read_all-Reads (λ d. d.percentage) l ps found,
                  hundred,
                  percentage_from-IsRounded floats total (pos 0) ps splits
                      (rw (found, hundred, split_percentage) at e),
                ),
              )
            ]
      ]

  pub with_input_valid :
      (f : List (SplitInput F) → Checked (List Split)) (o : Option (List (SplitInput F)))
      (splits : List Split)
      → with_input floats f o ≡ valid splits
      → (d : SplitInput F) × (l : List (SplitInput F)) × (o ≡ some (d ∷ l))
        × (f (d ∷ l) ≡ valid splits)
  with_input_valid f none splits e = cc
  with_input_valid f (some []) splits e = cc
  with_input_valid f (some (d ∷ l)) splits e = (d, l, refl, e)
