-- ===== src/Ledger/Specs.antt =====
-- The journals of core/ledger_engine.py for an expense and for a settlement.
use expense_settlement_engin.Common.{ℕ, suc, some, List, [], ◌∷◌, ◌++◌, String, if◌then◌else◌, ◌==◌}
use expense_settlement_engin.Common.Int.{ℤ, pos, ◌+ℤ◌, ltb_ℤ}
use expense_settlement_engin.Common.Text.{◌⧺◌}
use expense_settlement_engin.DebtSimplifier.{Split}
use expense_settlement_engin.Ledger.{
  AccountType, user_wallet, expense_clearing, settlement_clearing, EntryType, debit, credit,
  EntrySpec, Journal, LedgerEngine, Runtime, Outcome, post_journal,
}

-- `f"USER_WALLET:{uid}"`
abbrev pub wallet : String → String
wallet uid = "USER_WALLET:" ⧺ uid

abbrev pub spec_of : String → AccountType → EntryType → ℤ → String → EntrySpec
spec_of account account_type entry_type amount description = record {
  account_id = account;
  account_type = account_type;
  entry_type = entry_type;
  amount_cents = amount;
  description = some description;
}

-- The loop over `splits` in `post_expense_journal`: `total`, and `specs`.
unfoldable pub debtors_total : String → List Split → ℤ
debtors_total payer [] = pos 0
debtors_total payer (s ∷ l) =
    if s.user_id == payer then debtors_total payer l else s.amount_cents +ℤ debtors_total payer l

unfoldable pub debtor_specs : String → String → String → List Split → List EntrySpec
debtor_specs clearing payer description [] = []
debtor_specs clearing payer description (s ∷ l) =
    let rest = debtor_specs clearing payer description l in
    if s.user_id == payer
    then rest
    else spec_of (wallet s.user_id) user_wallet debit s.amount_cents ("Owes " ⧺ description)
      ∷ spec_of clearing expense_clearing credit s.amount_cents ("Expense clearing: " ⧺ description)
      ∷ rest

-- `if total > 0`: the two lines that close the clearing account.
unfoldable pub closing_specs : String → String → String → ℤ → List EntrySpec
closing_specs clearing payer description total =
    if ltb_ℤ (pos 0) total
    then spec_of clearing expense_clearing debit total ("Close clearing: " ⧺ description)
      ∷ spec_of (wallet payer) user_wallet credit total ("Paid for: " ⧺ description)
      ∷ []
    else []

unfoldable pub expense_specs : String → String → String → List Split → List EntrySpec
unfolding debtors_total debtor_specs closing_specs
expense_specs clearing payer description splits =
    debtor_specs clearing payer description splits
    ++ closing_specs clearing payer description (debtors_total payer splits)

abbrev pub expense_clearing_id : String → String
expense_clearing_id uuid = "EXPENSE_CLEARING:" ⧺ uuid

abbrev pub settlement_clearing_id : String → String
settlement_clearing_id uuid = "SETTLEMENT_CLEARING:" ⧺ uuid

-- `ids` is shifted: the clearing account drew the first.
unfoldable pub post_expense_journal :
    Runtime
    → (ℕ → String)
    → ℕ
    → String
    → List Split
    → String
    → LedgerEngine
    → Outcome Journal × LedgerEngine
post_expense_journal rt ids now payer_id splits description =
    post_journal rt (λ i. ids (suc i)) now description
      (expense_specs (expense_clearing_id (ids 0)) payer_id description splits)

unfoldable pub settlement_specs : String → String → String → ℤ → List EntrySpec
settlement_specs clearing payer payee amount =
    spec_of (wallet payer) user_wallet debit amount ("Settlement payment to " ⧺ payee)
    ∷ spec_of clearing settlement_clearing credit amount "Settlement clearing"
    ∷ spec_of clearing settlement_clearing debit amount "Settlement clearing close"
    ∷ spec_of (wallet payee) user_wallet credit amount ("Settlement received from " ⧺ payer)
    ∷ []

unfoldable pub post_settlement_journal :
    Runtime
    → (ℕ → String)
    → ℕ
    → String
    → String
    → ℤ
    → String
    → LedgerEngine
    → Outcome Journal × LedgerEngine
post_settlement_journal rt ids now payer_id payee_id amount_cents description =
    post_journal rt (λ i. ids (suc i)) now description
      (settlement_specs (settlement_clearing_id (ids 0)) payer_id payee_id amount_cents)
