-- ===== src/Ledger/Journals.antt =====
-- `post_expense_journal` and `post_settlement_journal` of core/ledger_engine.py.
use expense_settlement_engin.Common.{
  ℕ, suc, ◌≡◌, sym, ap, ◌∙◌, inl, inr, ◌⊎◌, true, false, List, [], ◌∷◌, arith, String, ◌==◌, All,
  All-append, All-append_left, Bool-cases, Option-cases,
}
use expense_settlement_engin.Common.Int.{ℤ, pos, ◌+ℤ◌, ◌≤ℤ◌, ◌<ℤ◌, ltb_ℤ, sum_by, int_laws}
use expense_settlement_engin.DebtSimplifier.{Split}
use expense_settlement_engin.DebtSimplifier.Balances.{due}
use expense_settlement_engin.Ledger.Accounts.{expense_clearing-ne-wallet}
use expense_settlement_engin.Ledger.Posting.{
  first_bad_none, first_bad_of_All, first_bad_bound, Posted, new_journal, with_posting,
  post_balanced, post_bad_amount, post_returned,
}
use expense_settlement_engin.Ledger.Wallets.{
  debtor_part, expense_specs_balanced, expense_posted, expense_posted_other, balance-posting,
}
use expense_settlement_engin.Ledger.Specs.{
  wallet, expense_clearing_id, debtors_total, debtor_specs, closing_specs, expense_specs,
  post_expense_journal,
}
use expense_settlement_engin.Ledger.{
  Journal, LedgerEngine, EntrySpec, Runtime, Outcome, returned, raised, value_error,
  first_bad_amount, get_account_balance,
}

-- A share of another user than the payer is at least one cent.
abbrev pub OwesCent : String → Split → Type 0
OwesCent payer s = (s.user_id == payer) ≡ false → pos 1 ≤ℤ s.amount_cents

abbrev IsCent : EntrySpec → Type 0
IsCent s = pos 1 ≤ℤ s.amount_cents

pos_of_test : (t : ℤ) → ltb_ℤ (pos 0) t ≡ true → pos 1 ≤ℤ t
pos_of_test t h = ground arith

module _ (clearing payer description : String) where
  debtor_specs-IsCent :
      (l : List Split)
      → All (OwesCent payer) l
      → All IsCent (debtor_part clearing payer description l)
  unfolding debtor_specs
  debtor_specs-IsCent [] h = tt
  debtor_specs-IsCent (s ∷ l) h = elim (Bool-cases (s.user_id == payer)) [
    | inl own ↦ rw own (debtor_specs-IsCent l h.1)
    | inr owes ↦ rw owes (h.0 owes, (h.0 owes, debtor_specs-IsCent l h.1))
  ]

  specs-OwesCent :
      (l : List Split)
      → All IsCent (debtor_part clearing payer description l)
      → All (OwesCent payer) l
  unfolding debtor_specs
  specs-OwesCent [] h = tt
  specs-OwesCent (s ∷ l) h = elim (Bool-cases (s.user_id == payer)) [
    | inl own ↦ ((λ owes. cc (own, owes)), specs-OwesCent l (rw own at h))
    | inr owes ↦ let h' = rw owes at h in ((λ _. h'.0), specs-OwesCent l h'.1.1)
  ]

  debtors_first :
      (l : List Split)
      → All IsCent (expense_specs clearing payer description l)
      → All IsCent (debtor_part clearing payer description l)
  unfolding expense_specs
  debtors_first l h = All-append_left IsCent (debtor_part clearing payer description l) _ h

  closing_specs-IsCent : (t : ℤ) → All IsCent (closing_specs clearing payer description t)
  unfolding closing_specs
  closing_specs-IsCent t = elim (Bool-cases (ltb_ℤ (pos 0) t)) [
    | inl more ↦ rw more (pos_of_test t more, (pos_of_test t more, tt))
    | inr settled ↦ rw settled tt
  ]

  expense_specs-IsCent :
      (l : List Split)
      → All (OwesCent payer) l
      → All IsCent (expense_specs clearing payer description l)
  unfolding expense_specs
  expense_specs-IsCent l h =
      All-append IsCent (debtor_part clearing payer description l) _ (debtor_specs-IsCent l h)
        (closing_specs-IsCent (debtors_total payer l))

module _ (rt : Runtime) (ids : ℕ → String) (now : ℕ) (description : String)
    (ledger : LedgerEngine) where
  module _ (payer : String) (splits : List Split) where
    abbrev specs : List EntrySpec
    specs = expense_specs (expense_clearing_id (ids 0)) payer description splits

    abbrev outcome : Outcome Journal × LedgerEngine
    outcome = post_expense_journal rt ids now payer splits description ledger

    posted :
        All (OwesCent payer) splits
        → outcome ≡ (
          returned (new_journal rt (λ i. ids (suc i)) now description specs ledger),
          with_posting rt (λ i. ids (suc i)) now description specs ledger,
        )
    unfolding post_expense_journal
    posted h =
        post_balanced rt (λ i. ids (suc i)) now description specs ledger
          (expense_specs-IsCent (expense_clearing_id (ids 0)) payer description splits h)
          (expense_specs_balanced (expense_clearing_id (ids 0)) payer description splits)

    -- An expense journal is posted when every share of another user than the payer is at least
    -- one cent. When one is not, `ValueError` is raised with an amount below one cent, and the
    -- ledger is as before. It is never found out of balance.
    pub expense_journal_outcome :
        (All (OwesCent payer) splits
          × ((j : Journal) × (after : LedgerEngine) × (outcome ≡ (returned j, after))))
        ⊎ ((¬ All (OwesCent payer) splits)
            × ((a : ℤ) × (a <ℤ pos 1) × (outcome ≡ (raised (value_error a), ledger))))
    unfolding post_expense_journal
    expense_journal_outcome = elim (Option-cases (first_bad_amount specs)) [
      | inl fine ↦
          let h = specs-OwesCent (expense_clearing_id (ids 0)) payer description splits (
            debtors_first (expense_clearing_id (ids 0)) payer description splits
              (first_bad_none specs fine)) in
          inl (h, (_, _, posted h))
      | inr (a, bad) ↦ inr (
        (λ h. cc (
          first_bad_of_All specs
              (expense_specs-IsCent (expense_clearing_id (ids 0)) payer description splits h),
          bad,
        )),
        (
          a,
          first_bad_bound specs a bad,
          post_bad_amount rt (λ i. ids (suc i)) now description specs ledger a bad,
        ),
      )
    ]

    module _ (j : Journal) (after : LedgerEngine) (e : outcome ≡ (returned j, after)) where
      outcome-Posted : Posted rt (λ i. ids (suc i)) now description specs ledger outcome
      unfolding post_expense_journal
      outcome-Posted = post_returned rt (λ i. ids (suc i)) now description specs ledger j after e

      after-eq : after ≡ with_posting rt (λ i. ids (suc i)) now description specs ledger
      after-eq = ap (λ r. r.1) (sym e ∙ outcome-Posted.result)

      -- A posted expense journal moves the balance of every user's wallet by exactly what the
      -- splits make the user due: up by what others owe a payer, down by what a user owes.
      pub expense_journal_wallets :
          (u : String)
          → get_account_balance (wallet u) after
            ≡ get_account_balance (wallet u) ledger +ℤ sum_by (due u payer) splits
      expense_journal_wallets u =
          ap (get_account_balance (wallet u)) after-eq
          ∙ balance-posting rt (λ i. ids (suc i)) now description specs ledger (wallet u)
          ∙ ap (λ t. get_account_balance (wallet u) ledger +ℤ t)
              (expense_posted (expense_clearing_id (ids 0)) payer description u splits
                (expense_clearing-ne-wallet (ids 0) u) outcome-Posted.amounts)

      -- A posted expense journal leaves the balance of every account that is nobody's wallet as
      -- it was; the clearing account, which gets as much as it gives, is one.
      pub expense_journal_clears :
          (a : String)
          → ((u : String) → (wallet u == a) ≡ false)
          → get_account_balance a after ≡ get_account_balance a ledger
      expense_journal_clears a other =
          ap (get_account_balance a) after-eq
          ∙ balance-posting rt (λ i. ids (suc i)) now description specs ledger a
          ∙ ap (λ t. get_account_balance a ledger +ℤ t)
              (expense_posted_other (expense_clearing_id (ids 0)) payer description a splits other
                outcome-Posted.amounts)
          ∙ omega int_laws
