-- ===== src/ExpenseService/Create.antt =====
-- `create_expense` of services/expense_service.py: when it returns, and what it leaves behind.
use expense_settlement_engin.Common.{◌≡◌, refl, sym, ap, ◌∙◌, subst, inl, inr, ◌⊎◌, List, All}
use expense_settlement_engin.Common.Int.{ℤ}
use expense_settlement_engin.DebtSimplifier.{Split}
use expense_settlement_engin.Ledger.{
  Journal, LedgerEngine, Runtime, Outcome, returned, raised, value_error,
}
use expense_settlement_engin.Ledger.Specs.{post_expense_journal}
use expense_settlement_engin.Ledger.Journals.{OwesCent, expense_journal_outcome}
use expense_settlement_engin.Store.{ExpenseRecord}
use expense_settlement_engin.ExpenseService.Service.{
  Engine, Draws, Created, created, rejected, store_expense, create_expense,
}
use expense_settlement_engin.ExpenseService.Conditions.{IsProper}
use expense_settlement_engin.ExpenseService.Conditions.Shares.{valid_injective}
use expense_settlement_engin.ExpenseService.Conditions.Checks.{
  IsProper-checked_splits, checked_splits-IsProper,
}
use expense_settlement_engin.ExpenseService.{
  Checked, valid, invalid, Floats, ExpenseArgs, ExpenseError, ledger_refused, checked_splits,
}

pub valid-cases :
    (c : Checked (List Split))
    → ((s : List Split) × (c ≡ valid s)) ⊎ ((x : ExpenseError) × (c ≡ invalid x))
valid-cases (valid s) = inl (s, refl)
valid-cases (invalid x) = inr (x, refl)

pub Created-cases :
    (c : Created)
    → ((x : ExpenseRecord) × (c ≡ created x)) ⊎ ((x : ExpenseError) × (c ≡ rejected x))
Created-cases (created x) = inl (x, refl)
Created-cases (rejected x) = inr (x, refl)

module _ {F : Type 0} (floats : Floats F) (rt : Runtime) (draws : Draws) (a : ExpenseArgs F)
    (e : Engine) where
  abbrev pub call : Created × Engine
  call = create_expense floats rt draws a e

  abbrev pub posting : List Split → Outcome Journal × LedgerEngine
  posting splits =
      post_expense_journal rt draws.journal_ids draws.journal_now a.payer_id splits a.title e.ledger

  -- The arguments are proper for some shares, and each of another user than the payer is at least
  -- one cent.
  unfoldable pub Accepts : Type 0
  Accepts =
      (splits : List Split) × IsProper floats a e.store splits × All (OwesCent a.payer_id) splits

  call_invalid :
      (x : ExpenseError) → checked_splits floats a e.store ≡ invalid x → call ≡ (rejected x, e)
  unfolding create_expense
  call_invalid x bad = rw (bad, create_expense)

  module _ (splits : List Split) (fine : checked_splits floats a e.store ≡ valid splits) where
    call_refused :
        (z : ℤ)
        → posting splits ≡ (raised (value_error z), e.ledger)
        → call ≡ (rejected (ledger_refused (value_error z)), e)
    unfolding create_expense
    call_refused z p = rw (fine, create_expense) (rw (ap (λ r. r.0) p, ap (λ r. r.1) p))

    pub call_posted :
        (j : Journal) (ledger : LedgerEngine)
        → posting splits ≡ (returned j, ledger)
        → call ≡ store_expense draws a splits j ledger e
    unfolding create_expense
    call_posted j ledger p = rw (fine, create_expense) (rw (ap (λ r. r.0) p, ap (λ r. r.1) p))

    Accepts_splits : Accepts → All (OwesCent a.payer_id) splits
    unfolding Accepts
    Accepts_splits (s, proper, owes) =
        let v = IsProper-checked_splits floats a e.store s proper in
        subst (All (OwesCent a.payer_id)) (valid_injective s splits (sym v ∙ fine)) owes

  -- `create_expense` returns an expense exactly when the total is at least one cent, the group exists
  -- and has the payer among its members, the arguments describe shares (equal ones; or amounts in
  -- every dict of the input, which is not empty, that sum to the total; or percentages in every dict,
  -- whose sum passes the test and whose portions but the last are integers), and every share of
  -- another user than the payer is at least one cent. Otherwise it raises, and then nothing has
  -- changed: not the store, not the ledger, not the outbox.
  pub create_expense_outcome :
      (Accepts × ((x : ExpenseRecord) × (after : Engine) × (call ≡ (created x, after))))
      ⊎ ((¬ Accepts) × ((x : ExpenseError) × (call ≡ (rejected x, e))))
  unfolding Accepts store_expense
  create_expense_outcome = elim (valid-cases (checked_splits floats a e.store)) [
    | inr (x, bad) ↦ inr (
      (λ h.
          let v = IsProper-checked_splits floats a e.store h.0 h.1 in
          let never : Path (Checked (List Split)) (invalid x) (valid h.0) = sym bad ∙ v in cc),
      (x, call_invalid x bad),
    )
    | inl (splits, fine) ↦
        elim (expense_journal_outcome rt draws.journal_ids draws.journal_now a.title e.ledger
          a.payer_id splits) [
            | inl (owes, (j, ledger, p)) ↦ inl (
              (splits, checked_splits-IsProper floats a e.store splits fine, owes),
              (_, _, call_posted splits fine j ledger p),
            )
            | inr (bad, (z, below, p)) ↦
                inr ((λ h. bad (Accepts_splits splits fine h)), (_, call_refused splits fine z p))
          ]
  ]
