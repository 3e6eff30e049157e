-- ===== src/ExpenseService/Consistency.antt =====
-- services/expense_service.py: the wallets of the ledger and the stored expenses.
use expense_settlement_engin.Common.{
  suc, ◌≡◌, refl, sym, ap, ◌∙◌, inl, inr, false, none, some, List, [], ◌∷◌, String, arith, length,
  length-append, ◌==◌, All, Bool-cases,
}
use mathlib.Core.Option.{some-injective}
use expense_settlement_engin.Common.Int.{ℤ, ◌+ℤ◌, sum_by, int_laws}
use expense_settlement_engin.Common.Dict.{Dict, lookup, contains, insert, values, insert-insert}
use expense_settlement_engin.DebtSimplifier.{Split}
use expense_settlement_engin.DebtSimplifier.Balances.{due}
use expense_settlement_engin.Ledger.{Journal, LedgerEngine, Runtime, returned, get_account_balance}
use expense_settlement_engin.Ledger.Specs.{wallet}
use expense_settlement_engin.Ledger.Journals.{
  OwesCent, expense_journal_outcome, expense_journal_wallets,
}
use expense_settlement_engin.Store.{
  ExpenseRecord, InMemoryStore, ExpenseData, new_expense, existing_expense, truthy,
}
use expense_settlement_engin.Store
use expense_settlement_engin.Messaging.{append}
use expense_settlement_engin.ExpenseService.Conditions.Checks.{IsProper-checked_splits}
use expense_settlement_engin.ExpenseService.Create.{
  posting, Accepts, call_posted, create_expense_outcome,
}
use expense_settlement_engin.ExpenseService.Service.{
  Engine, Draws, stored_data, store_expense, create_expense,
}
use expense_settlement_engin.ExpenseService.{valid, Floats, ExpenseArgs, checked_splits}

-- What an expense makes the user due.
abbrev pub due_by : String → ExpenseRecord → ℤ
due_by u e = sum_by (due u e.payer_id) e.splits

abbrev pub expenses_due : String → InMemoryStore → ℤ
expenses_due u store = sum_by (due_by u) (values store.expenses)

-- Every wallet holds what the stored expenses make its user due.
unfoldable pub IsConsistent : Engine → Type 0
IsConsistent e = (u : String) → get_account_balance (wallet u) e.ledger ≡ expenses_due u e.store

module _ {V : Type 0} (f : V → ℤ) (k : String) (v : V) where
  sum_by-insert_new :
      (d : Dict V)
      → contains k d ≡ false
      → sum_by f (values (insert k v d)) ≡ sum_by f (values d) +ℤ f v
  unfolding sum_by values insert lookup
  sum_by-insert_new [] h = omega int_laws
  sum_by-insert_new ((j, w) ∷ d) h = elim (Bool-cases (j == k)) [
    | inl here ↦ absurd (ground arith)
    | inr elsewhere ↦ rw elsewhere (rw (sum_by-insert_new d (ground arith)) (omega int_laws))
  ]

  sum_by-insert_same :
      (w : V) (d : Dict V)
      → lookup k d ≡ some w
      → f v ≡ f w
      → sum_by f (values (insert k v d)) ≡ sum_by f (values d)
  unfolding sum_by values insert lookup
  sum_by-insert_same w [] h same = cc
  sum_by-insert_same w ((j, x) ∷ d) h same = elim (Bool-cases (j == k)) [
    | inl here ↦ rw here (rw (same, sym (some-injective x w (rw here at h))))
    | inr elsewhere ↦
        rw elsewhere (ap (λ t. f x +ℤ t) (sum_by-insert_same w d (rw elsewhere at h) same))
  ]

module _ {F : Type 0} (draws : Draws) (a : ExpenseArgs F) (splits : List Split) (j : Journal)
    (ledger : LedgerEngine) (e : Engine) where
  abbrev pub after : Engine
  after = (store_expense draws a splits j ledger e).1

  abbrev fresh : ExpenseRecord
  fresh = new_expense draws.expense_uuid draws.expense_now (stored_data a splits)

  pub after-ledger : after.ledger ≡ ledger
  unfolding store_expense
  after-ledger = refl

  after-due_new :
      (u : String)
      → existing_expense a.idempotency_key e.store ≡ none
      → contains draws.expense_uuid e.store.expenses ≡ false
      → expenses_due u after.store ≡ expenses_due u e.store +ℤ sum_by (due u a.payer_id) splits
  unfolding store_expense Store.create_expense
  after-due_new u new free =
      rw (new, Store.create_expense)
        (ap (λ d. sum_by (due_by u) (values d))
            (insert-insert draws.expense_uuid fresh _ e.store.expenses)
          ∙ sum_by-insert_new (due_by u) draws.expense_uuid _ e.store.expenses free)

  after-due_existing :
      (u : String) (x : ExpenseRecord)
      → existing_expense a.idempotency_key e.store ≡ some x
      → lookup x.id e.store.expenses ≡ some x
      → expenses_due u after.store ≡ expenses_due u e.store
  unfolding store_expense Store.create_expense
  after-due_existing u x found own =
      rw (found, Store.create_expense)
        (sum_by-insert_same (due_by u) x.id _ x e.store.expenses own refl)

  after-events : length after.outbox.events ≡ suc (length e.outbox.events)
  unfolding store_expense append
  after-events = omega (arith, length-append e.outbox.events _)

module _ {F : Type 0} (floats : Floats F) (rt : Runtime) (draws : Draws) (a : ExpenseArgs F)
    (e : Engine) where
  abbrev pub result : Engine
  result = (create_expense floats rt draws a e).1

  -- A call that was accepted, with its splits and its journal.
  pub record IsAccepted : Type 0 where
    pub splits : List Split
    pub journal : Journal
    pub ledger : LedgerEngine
    pub posted : posting floats rt draws a e splits ≡ (returned journal, ledger)
    pub stored : result ≡ after draws a splits journal ledger e

  pub Accepts-IsAccepted :
      (splits : List Split)
      → checked_splits floats a e.store ≡ valid splits
      → All (OwesCent a.payer_id) splits
      → (k : IsAccepted) × (k.splits ≡ splits)
  Accepts-IsAccepted splits fine owes =
      elim (expense_journal_outcome rt draws.journal_ids draws.journal_now a.title e.ledger
        a.payer_id splits) [
          | inl (_, (j, ledger, p)) ↦ (
            record {
              splits = splits;
              journal = j;
              ledger = ledger;
              posted = p;
              stored = ap (λ r. r.1) (call_posted floats rt draws a e splits fine j ledger p);
            },
            refl,
          )
          | inr (bad, _) ↦ absurd (bad owes)
        ]

  accepted-wallet :
      (k : IsAccepted) (u : String)
      → get_account_balance (wallet u) result.ledger
        ≡ get_account_balance (wallet u) e.ledger +ℤ sum_by (due u a.payer_id) k.splits
  accepted-wallet k u =
      ap (λ s. get_account_balance (wallet u) s.ledger) k.stored
      ∙ ap (get_account_balance (wallet u)) (after-ledger draws a k.splits k.journal k.ledger e)
      ∙ expense_journal_wallets rt draws.journal_ids draws.journal_now a.title e.ledger a.payer_id
          k.splits k.journal k.ledger k.posted u

  -- When every wallet holds what the stored expenses make its user due, this still holds after
  -- `create_expense`, whether it returned or raised, for a key that stands for no stored expense
  -- and a uuid that is not in use.
  pub create_expense-IsConsistent :
      existing_expense a.idempotency_key e.store ≡ none
      → contains draws.expense_uuid e.store.expenses ≡ false
      → IsConsistent e
      → IsConsistent result
  unfolding IsConsistent Accepts
  create_expense-IsConsistent new free h u = elim (create_expense_outcome floats rt draws a e) [
    | inr (_, (x, raised_)) ↦ rw (ap (λ r. r.1) raised_) (h u)
    | inl ((splits, proper, owes), _) ↦
        let fine = IsProper-checked_splits floats a e.store splits proper in
        let k = (Accepts-IsAccepted splits fine owes).0 in
        accepted-wallet k u
        ∙ ap (λ t. t +ℤ sum_by (due u a.payer_id) k.splits) (h u)
        ∙ sym (
            ap (λ s. expenses_due u s.store) k.stored
            ∙ after-due_new draws a k.splits k.journal k.ledger e u new free)
  ]

  -- For a key that stands for a stored expense, an accepted call posts its journal all the same:
  -- the wallets move by the splits of the call and one more event is in the outbox, although the
  -- stored expenses make everyone due what they did before.
  pub repeated_key_posts_again :
      (splits : List Split) (x : ExpenseRecord)
      → checked_splits floats a e.store ≡ valid splits
      → All (OwesCent a.payer_id) splits
      → existing_expense a.idempotency_key e.store ≡ some x
      → lookup x.id e.store.expenses ≡ some x
      → ((u : String)
          → (get_account_balance (wallet u) result.ledger
              ≡ get_account_balance (wallet u) e.ledger +ℤ sum_by (due u a.payer_id) splits)
            × (expenses_due u result.store ≡ expenses_due u e.store))
        × (length result.outbox.events ≡ suc (length e.outbox.events))
  repeated_key_posts_again splits x fine owes found own =
      let (k, same) = Accepts-IsAccepted splits fine owes in
      (
        (λ u. (
          accepted-wallet k u
              ∙ ap (λ l. get_account_balance (wallet u) e.ledger +ℤ sum_by (due u a.payer_id) l)
                  same,
          ap (λ s. expenses_due u s.store) k.stored
              ∙ after-due_existing draws a k.splits k.journal k.ledger e u x found own,
        )),
        ap (λ s. length s.outbox.events) k.stored
            ∙ after-events draws a k.splits k.journal k.ledger e,
      )
