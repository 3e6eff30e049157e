-- ===== src/DebtSimplifier/Simplify.antt =====
-- `DebtSimplifier.simplify` of core/debt_simplifier.py as a whole.
use expense_settlement_engin.Common.{
  ℕ, ◌-◌, ◌≤◌, ◌≡◌, ◌≢◌, ◌↔◌, refl, ap, ◌∙◌, inl, inr, true, some, List, [], arith, String, length,
  All, All-map, Bool-cases, Option-cases,
}
use expense_settlement_engin.Common.Int.{
  ℤ, pos, ◌≤ℤ◌, eqb_ℤ, eqb_ℤ→eq, eq→eqb_ℤ, sum_by, parts_of_eq, int_laws,
}
use expense_settlement_engin.Common.Dict.{Dict, get_or, HasDistinctKeys}
use expense_settlement_engin.DebtSimplifier.Round.{IsBalanced, Between, net_received, position}
use expense_settlement_engin.DebtSimplifier.Loop.{Settles, run_settles}
use expense_settlement_engin.DebtSimplifier.Build.{
  IsBuilt, build_heaps-IsBuilt, surplus-build_heaps, position-build_heaps, length-build_heaps,
  build_settlements, sum_entries, IsCreditor, IsDebtor, entries-IsKnown,
}
use expense_settlement_engin.DebtSimplifier.{
  Settlement, Matching, build_heaps, heaps_of, match_loop, enough, amount, DebtSimplifierResult,
  zero_sum_violation, done, report, simplify,
}

abbrev pub empty : Matching
empty = record { creditors = []; debtors = []; settlements = [] }

module _ (d : Dict ℤ) (distinct : HasDistinctKeys d) where
  built : IsBuilt (IsCreditor d) (IsDebtor d) (build_heaps d empty)
  built =
      build_heaps-IsBuilt (IsCreditor d) (IsDebtor d) d empty (entries-IsKnown d distinct) (record {
        creditors_negative = tt;
        debtors_negative = tt;
        creditors_known = tt;
        debtors_known = tt;
      })

  module _ (zero_sum : sum_by amount d ≡ pos 0) where
    balanced : IsBalanced (build_heaps d empty)
    unfolding sum_by
    balanced = record {
      creditors_negative = built.creditors_negative;
      debtors_negative = built.debtors_negative;
      same_sum =
          omega (int_laws, parts_of_eq _ _ (surplus-build_heaps d empty), parts_of_eq _ _ zero_sum);
    }

    loop_settles :
        (out : List Settlement) × (match_loop (enough (heaps_of d)) (heaps_of d) ≡ some out)
        × Settles (IsCreditor d) (IsDebtor d) (build_heaps d empty) out
    unfolding heaps_of
    loop_settles =
        let m = build_heaps d empty in
        run_settles (IsCreditor d) (IsDebtor d) (enough m) m.creditors m.debtors m.settlements
          (omega arith) balanced built.creditors_known built.debtors_known

    pub position-start : (u : String) → position u (build_heaps d empty) ≡ get_or u (pos 0) d
    unfolding sum_by
    position-start u =
        position-build_heaps u d empty ∙ rw (sum_entries u d distinct) (omega int_laws)

    module _ (sha256 : String → String) (original : ℕ) where
      pub simplify-report :
          (out : List Settlement) × (simplify sha256 d original
            ≡ done (report sha256 d original out))
          × Settles (IsCreditor d) (IsDebtor d) (build_heaps d empty) out
      unfolding simplify
      simplify-report =
          let (out, ends, s) = loop_settles in (out, rw (eq→eqb_ℤ _ _ zero_sum, ends), s)

no_overlap : (d : Dict ℤ) (u v : String) → u ≡ v → IsDebtor d u → IsCreditor d v → ⊥
no_overlap d u v e p q = let q' : IsCreditor d u = rw e q in omega arith

module _ (sha256 : String → String) (d : Dict ℤ) (original : ℕ) where
  no_violation :
      eqb_ℤ (sum_by amount d) (pos 0) ≡ true
      → simplify sha256 d original ≢ zero_sum_violation (sum_by amount d)
  unfolding simplify
  no_violation zero_sum e = elim (Option-cases (match_loop (enough (heaps_of d)) (heaps_of d))) [
    | inl ran_out ↦ cc (rw (zero_sum, ran_out, simplify) at e)
    | inr (out, ends) ↦ cc (rw (zero_sum, ends, simplify) at e)
  ]

  -- On balances with distinct keys that sum to zero, `simplify` returns (the loop ends), and its
  -- settlements pay every user exactly the net balance: what the user receives less what the user
  -- pays is the balance of the user, zero for a user who is not in the dict.
  pub simplify-settles :
      HasDistinctKeys d
      → sum_by amount d ≡ pos 0
      → (r : DebtSimplifierResult) × (simplify sha256 d original ≡ done r)
        × ((u : String) → sum_by (net_received u) r.settlements ≡ get_or u (pos 0) d)
  unfolding report
  simplify-settles distinct zero_sum =
      let (out, ends, s) = simplify-report d distinct zero_sum sha256 original in
      (report sha256 d original out, ends, λ u. s.pays u ∙ position-start d distinct zero_sum u)

  -- Balances that sum to zero are the only ones that `simplify` does not reject: it raises
  -- `ZeroSumViolationError`, with the sum, exactly when the sum is not zero.
  pub simplify-raises :
      (simplify sha256 d original ≡ zero_sum_violation (sum_by amount d))
      ↔ (sum_by amount d ≢ pos 0)
  unfolding simplify
  simplify-raises = elim (Bool-cases (eqb_ℤ (sum_by amount d) (pos 0))) [
    | inl zero_sum ↦ (λ e _. no_violation zero_sum e, λ n. absurd (n (eqb_ℤ→eq _ _ zero_sum)))
    | inr other ↦ (λ e zero_sum. cc (eq→eqb_ℤ _ _ zero_sum), λ n. rw other)
  ]

  module _ {r : DebtSimplifierResult} where
    returned_sum : simplify sha256 d original ≡ done r → sum_by amount d ≡ pos 0
    unfolding simplify
    returned_sum e = elim (Bool-cases (eqb_ℤ (sum_by amount d) (pos 0))) [
      | inl zero_sum ↦ eqb_ℤ→eq _ _ zero_sum
      | inr other ↦ cc (rw other at e)
    ]

    returned :
        (distinct : HasDistinctKeys d)
        → simplify sha256 d original ≡ done r
        → (out : List Settlement) × (r ≡ report sha256 d original out)
          × Settles (IsCreditor d) (IsDebtor d) (build_heaps d empty) out
    returned distinct e =
        let (out, ends, s) = simplify-report d distinct (returned_sum e) sha256 original in
        (out, cc, s)

    -- Every settlement that `simplify` returns is of at least one cent, from a user whose balance
    -- is negative to a user whose balance is positive, so never from a user to the same user.
    pub simplify_sound :
        HasDistinctKeys d
        → simplify sha256 d original ≡ done r
        → All
            (λ s.
              IsDebtor d s.payer_id
              × IsCreditor d s.payee_id
              × (pos 1 ≤ℤ s.amount_cents)
              × (s.payer_id ≢ s.payee_id))
            r.settlements
    unfolding report
    simplify_sound distinct e =
        let (out, same, s) = returned distinct e in
        rw same (
          All-map (Between (IsCreditor d) (IsDebtor d)) _ out
            (λ x b. (b.0, b.1, b.2, λ e. absurd (no_overlap d x.payer_id x.payee_id e b.0 b.1)))
            (s.between (rw (build_settlements d empty) tt)))

    -- `simplify` returns fewer settlements than there are users, and reports their number.
    pub simplify_count :
        HasDistinctKeys d
        → simplify sha256 d original ≡ done r
        → (r.simplified_transaction_count ≡ length r.settlements)
          × (r.simplified_transaction_count ≤ length d - 1)
    unfolding report
    simplify_count distinct e =
        let (out, same, s) = returned distinct e in
        rw same (
          refl,
          omega (arith, s.count, length-build_heaps d empty, ap length (build_settlements d empty)),
        )
