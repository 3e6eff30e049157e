-- ===== src/Tests/Journals.antt =====
-- core/ledger_engine.py on a few journals.
use expense_settlement_engin.Common.{
  ℕ, ◌≡◌, ◌≢◌, ◌↔◌, ◌⊎◌, refl, true, false, List, [], ◌∷◌, arith, String, All, eq_iff,
}
use expense_settlement_engin.Common.Int.{ℤ, pos, negsuc, ◌+ℤ◌, ◌-ℤ◌, ◌<ℤ◌, sum_by}
use expense_settlement_engin.Common.Dict.{lookup, get_or, insert}
use expense_settlement_engin.Common.Text.{str_ℤ, join}
use expense_settlement_engin.DebtSimplifier.{Split, Settlement}
use expense_settlement_engin.Ledger.Posting.{of_spec, debited, credited, new_entries}
use expense_settlement_engin.Ledger.Journals.{OwesCent, expense_journal_outcome}
use expense_settlement_engin.Ledger.Chain.{heads_after, empty-IsIntact}
use expense_settlement_engin.Ledger.Exact.{AllChained, verify_iff}
use expense_settlement_engin.Ledger.Run.{Call, expense, settlement}
use expense_settlement_engin.Ledger.Imbalance.{imbalance_breaks_chain}
use expense_settlement_engin.Ledger.Audit.{audit_report, verify_chain_integrity}
use expense_settlement_engin.Ledger.Specs.{
  spec_of, wallet, expense_specs, debtor_specs, closing_specs, debtors_total, post_expense_journal,
  settlement_specs, post_settlement_journal,
}
use expense_settlement_engin.Ledger.{
  EntrySpec, debit, credit, expense_clearing, Journal, LedgerEngine, empty_ledger, Runtime, Outcome,
  returned, raised, value_error, ledger_imbalance, genesis, make_hash, make_entry, make_entries,
  commit, first_bad_amount, post_journal, get_account_balance, balance_from,
}

program : Unit {0}
unfolding str_ℤ join make_hash make_entry make_entries commit first_bad_amount post_journal
    expense_specs debtor_specs closing_specs debtors_total post_expense_journal settlement_specs
    post_settlement_journal get_account_balance balance_from verify_chain_integrity audit_report
    lookup insert sum_by ◌+ℤ◌ ◌-ℤ◌
program = tt

-- A hash that keeps its text, and one digit for a time.
abbrev plain : Runtime
plain = record { sha256 = λ s. s; str_time = λ t. "t" }

abbrev draw : ℕ → String
draw n = str_ℤ (pos n)

abbrev splits : List Split
splits =
    record { user_id = "ann"; amount_cents = pos 5 }
    ∷ record { user_id = "bob"; amount_cents = pos 5 }
    ∷ []

abbrev dinner : Outcome Journal × LedgerEngine
dinner = post_expense_journal plain draw 3 "ann" splits "dinner" empty_ledger

dinner_balances :
    (get_account_balance (wallet "ann") dinner.1 ≡ pos 5)
    × (get_account_balance (wallet "bob") dinner.1 ≡ negsuc 4)
    × (get_account_balance "EXPENSE_CLEARING:0" dinner.1 ≡ pos 0)
unfolding program
dinner_balances = (refl, refl, refl)

dinner_journal : Journal
unfolding program
dinner_journal = elim dinner.0 [
  | returned j ↦ j
  | raised _ ↦ record { journal_id = ""; entries = []; description = ""; created_at = 0 }
]

dinner-returned : dinner ≡ (returned dinner_journal, dinner.1)
unfolding program dinner_journal
dinner-returned = refl

expense_journal_outcome_example :
    (All (OwesCent "ann") splits
      × ((j : Journal) × (after : LedgerEngine) × (dinner ≡ (returned j, after))))
    ⊎ ((¬ All (OwesCent "ann") splits)
        × ((a : ℤ) × (a <ℤ pos 1) × (dinner ≡ (raised (value_error a), empty_ledger))))
expense_journal_outcome_example =
    expense_journal_outcome plain draw 3 "dinner" empty_ledger "ann" splits

abbrev house : String
house = "HOUSE"

abbrev paid : Settlement
paid = record { payer_id = "bob"; payee_id = "ann"; amount_cents = pos 5 }

verify_iff_example : ((verify_chain_integrity plain dinner.1).0 ≡ true) ↔ AllChained plain dinner.1
verify_iff_example = verify_iff plain dinner.1

abbrev calls : List Call
calls =
    record { ids = draw; now = 3; request = expense "ann" splits "dinner" }
    ∷ record { ids = draw; now = 4; request = settlement "bob" "ann" (pos 0) "nothing" }
    ∷ record { ids = draw; now = 5; request = settlement "bob" "ann" (pos 5) "settle" }
    ∷ []

abbrev lopsided : List EntrySpec
lopsided = spec_of house expense_clearing debit (pos 5) "" ∷ []

abbrev left : LedgerEngine
left = (post_journal plain draw 1 "" lopsided empty_ledger).1

abbrev opening : EntrySpec
opening = spec_of house expense_clearing debit (pos 2) ""

abbrev closing : List EntrySpec
closing = spec_of house expense_clearing credit (pos 2) "" ∷ []

abbrev next : Outcome Journal × LedgerEngine
next = post_journal plain draw 2 "" (opening ∷ closing) left

next_journal : Journal
unfolding program
next_journal = elim next.0 [
  | returned j ↦ j
  | raised _ ↦ record { journal_id = ""; entries = []; description = ""; created_at = 0 }
]

next-returned : next ≡ (returned next_journal, next.1)
unfolding program next_journal
next-returned = refl

head_moved :
    get_or house genesis (heads_after [] (new_entries plain draw 1 "" lopsided empty_ledger))
    ≢ get_or house genesis empty_ledger.account_heads
unfolding program heads_after
head_moved e = cc ((eq_iff _ _).1 e)

lopsided_differs : sum_by (of_spec debited) lopsided ≢ sum_by (of_spec credited) lopsided
unfolding program
lopsided_differs e = cc

imbalance_breaks_chain_example :
    (post_journal plain draw 1 "" lopsided empty_ledger ≡ (
      raised (
          ledger_imbalance
            (sum_by (of_spec debited) lopsided)
            (sum_by (of_spec credited) lopsided)),
      record empty_ledger {
        account_heads = heads_after [] (new_entries plain draw 1 "" lopsided empty_ledger);
      },
    ))
    × ((verify_chain_integrity plain next.1).0 ≡ false)
imbalance_breaks_chain_example =
    imbalance_breaks_chain plain draw draw 0 1 2 "" "" lopsided opening closing empty_ledger
      next_journal next.1 (empty-IsIntact plain 0) (omega arith) (omega arith) lopsided_differs
      head_moved next-returned
