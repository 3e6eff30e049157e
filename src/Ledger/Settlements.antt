-- ===== src/Ledger/Settlements.antt =====
-- `post_settlement_journal` of core/ledger_engine.py.
use expense_settlement_engin.Common.{
  ℕ, suc, ◌≡◌, ◌∙◌, ap, Bool, true, false, some, List, arith, String, if◌then◌else◌, ◌==◌, All,
}
use expense_settlement_engin.Common.Int.{ℤ, pos, ◌+ℤ◌, ◌-ℤ◌, ◌≤ℤ◌, ◌<ℤ◌, ltb_ℤ, sum_by, int_laws}
use expense_settlement_engin.DebtSimplifier.{Settlement}
use expense_settlement_engin.DebtSimplifier.Round.{net_received}
use expense_settlement_engin.Ledger.Accounts.{wallet_same, settlement_clearing-ne-wallet}
use expense_settlement_engin.Ledger.Posting.{
  of_spec, debited, credited, posted_to, post_balanced, post_bad_amount,
}
use expense_settlement_engin.Ledger.Wallets.{balance-posting}
use expense_settlement_engin.Ledger.Specs.{
  wallet, settlement_clearing_id, settlement_specs, post_settlement_journal,
}
use expense_settlement_engin.Ledger.{
  Journal, LedgerEngine, EntrySpec, Runtime, Outcome, returned, raised, value_error,
  first_bad_amount, get_account_balance,
}

if_step :
    (p q : Bool) (x : ℤ)
    → (if p then pos 0 -ℤ x else pos 0) +ℤ (pos 0 +ℤ (pos 0 +ℤ ((if q then x else pos 0) +ℤ pos 0)))
      ≡ (if q then x else pos 0) -ℤ (if p then x else pos 0)
if_step true q x = omega int_laws
if_step false q x = omega int_laws

module _ (clearing payer payee : String) (amount : ℤ) where
  abbrev specs : List EntrySpec
  specs = settlement_specs clearing payer payee amount

  settlement_specs-IsCent : pos 1 ≤ℤ amount → All (λ s. pos 1 ≤ℤ s.amount_cents) specs
  unfolding settlement_specs
  settlement_specs-IsCent p = (p, (p, (p, (p, tt))))

  settlement_specs_balanced : sum_by (of_spec debited) specs ≡ sum_by (of_spec credited) specs
  unfolding settlement_specs sum_by
  settlement_specs_balanced = omega int_laws

  settlement_specs_bad : ltb_ℤ amount (pos 1) ≡ true → first_bad_amount specs ≡ some amount
  unfolding settlement_specs first_bad_amount
  settlement_specs_bad h = rw h

  settlement_posted :
      (u : String)
      → (clearing == wallet u) ≡ false
      → sum_by (of_spec (posted_to (wallet u))) specs
        ≡ net_received u (record { payer_id = payer; payee_id = payee; amount_cents = amount })
  unfolding settlement_specs sum_by
  settlement_posted u other =
      rw (wallet_same payer u, wallet_same payee u, other)
        (if_step (payer == u) (payee == u) amount)

module _ (rt : Runtime) (ids : ℕ → String) (now : ℕ) (s : Settlement) (description : String)
    (ledger : LedgerEngine) where
  abbrev pub settle : Outcome Journal × LedgerEngine
  settle =
      post_settlement_journal rt ids now s.payer_id s.payee_id s.amount_cents description ledger

  -- The journal of a settlement of at least one cent is posted, and moves the balance of every
  -- user's wallet by what the settlement brings to the user: up for the payee, down for the payer
  -- (and not at all for somebody who is both).
  pub settlement_journal_wallets :
      pos 1 ≤ℤ s.amount_cents
      → (j : Journal) × (after : LedgerEngine) × (settle ≡ (returned j, after))
        × ((u : String)
            → get_account_balance (wallet u) after
              ≡ get_account_balance (wallet u) ledger +ℤ net_received u s)
  unfolding post_settlement_journal
  settlement_journal_wallets p =
      let c = settlement_clearing_id (ids 0) in
      let specs = settlement_specs c s.payer_id s.payee_id s.amount_cents in
      let drawn = λ (i : ℕ). ids (suc i) in
      (
        _,
        _,
        post_balanced rt drawn now description specs ledger
            (settlement_specs-IsCent c s.payer_id s.payee_id s.amount_cents p)
            (settlement_specs_balanced c s.payer_id s.payee_id s.amount_cents),
        λ u.
            balance-posting rt drawn now description specs ledger (wallet u)
            ∙ ap (λ t. get_account_balance (wallet u) ledger +ℤ t)
                (settlement_posted c s.payer_id s.payee_id s.amount_cents u
                  (settlement_clearing-ne-wallet (ids 0) u)),
      )

  -- A settlement of less than one cent is refused with its amount, and changes nothing.
  pub settlement_journal_refused :
      s.amount_cents <ℤ pos 1 → settle ≡ (raised (value_error s.amount_cents), ledger)
  unfolding post_settlement_journal
  settlement_journal_refused p =
      post_bad_amount rt (λ i. ids (suc i)) now description
        (settlement_specs (settlement_clearing_id (ids 0)) s.payer_id s.payee_id s.amount_cents)
        ledger s.amount_cents
        (settlement_specs_bad _ s.payer_id s.payee_id s.amount_cents (ground arith))
