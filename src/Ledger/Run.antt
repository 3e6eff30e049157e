-- ===== src/Ledger/Run.antt =====
-- Sequences of expense and settlement journals, as the services and the worker post them, on a
-- new `LedgerEngine` of core/ledger_engine.py.
use expense_settlement_engin.Common.{
  ℕ, suc, ◌≤◌, ◌≡◌, refl, sym, ap, ◌∙◌, subst, inl, inr, true, List, [], ◌∷◌, arith, String,
  All-map,
}
use expense_settlement_engin.Common.Int.{ℤ, pos, ltb_ℤ, sum_by, sum_by-append, eq→eqb_ℤ}
use expense_settlement_engin.Common.{Bool-cases}
use expense_settlement_engin.DebtSimplifier.{Split, Settlement}
use expense_settlement_engin.Ledger.Posting.{
  debited, credited, new_entries, post_returned, sum_by-make_entries,
}
use expense_settlement_engin.Ledger.Journals.{expense_journal_outcome}
use expense_settlement_engin.Ledger.Settlements.{
  settlement_journal_wallets, settlement_journal_refused,
}
use expense_settlement_engin.Ledger.Chain.{IsIntact, By, empty-IsIntact, with_posting-IsIntact}
use expense_settlement_engin.Ledger.Verify.{verify-IsIntact}
use expense_settlement_engin.Ledger.Audit.{audit_report}
use expense_settlement_engin.Ledger.Specs.{
  post_expense_journal, expense_specs, expense_clearing_id, settlement_specs,
  settlement_clearing_id, post_settlement_journal,
}
use expense_settlement_engin.Ledger.{
  Journal, LedgerEngine, empty_ledger, EntrySpec, Runtime, returned, debits, credits, post_journal,
}

-- A call of one of the two methods that post journals.
pub data Request : Type 0 where
  expense : String → List Split → String → Request
  settlement : String → String → ℤ → String → Request

-- With what the call draws: the uuids, and the time.
pub record Call : Type 0 where
  pub ids : ℕ → String
  pub now : ℕ
  pub request : Request

-- The ledger after the call, whether it returned or raised.
abbrev pub perform : Runtime → (ℕ → String) → ℕ → Request → LedgerEngine → LedgerEngine
perform rt ids now (expense payer splits d) ledger =
    (post_expense_journal rt ids now payer splits d ledger).1
perform rt ids now (settlement payer payee amount d) ledger =
    (post_settlement_journal rt ids now payer payee amount d ledger).1

pub run : Runtime → List Call → LedgerEngine → LedgerEngine
run rt [] ledger = ledger
run rt (c ∷ calls) ledger = run rt calls (perform rt c.ids c.now c.request ledger)

-- The clock does not go back between the calls.
abbrev pub ClockFrom : ℕ → List Call → Type 0
ClockFrom t [] = Unit
ClockFrom t (c ∷ calls) = (t ≤ c.now) × ClockFrom c.now calls

module _ (rt : Runtime) where
  -- A ledger that the audit passes, with no entry after a time.
  pub record IsSound (now : ℕ) (ledger : LedgerEngine) : Type 0 where
    pub intact : IsIntact rt now ledger
    pub balanced : debits ledger.entries ≡ credits ledger.entries

  pub later-IsSound :
      {t now : ℕ} {ledger : LedgerEngine} → t ≤ now → IsSound t ledger → IsSound now ledger
  later-IsSound {t} {now} {ledger} le s = record {
    intact = record {
      linked = s.intact.linked;
      heads = s.intact.heads;
      in_order = s.intact.in_order;
      by_now = All-map (By t) (By now) ledger.entries (λ e b. omega arith) s.intact.by_now;
    };
    balanced = s.balanced;
  }

  module _ (ids : ℕ → String) (t now : ℕ) (d : String) (specs : List EntrySpec)
      (ledger : LedgerEngine) where
    posted-IsSound :
        (j : Journal) (after : LedgerEngine)
        → t ≤ now
        → IsSound t ledger
        → post_journal rt ids now d specs ledger ≡ (returned j, after)
        → IsSound now after
    posted-IsSound j after le s e =
        let p = post_returned rt ids now d specs ledger j after e in
        let es = new_entries rt ids now d specs ledger in
        subst (IsSound now) (ap (λ r. r.1) (sym p.result ∙ e)) (record {
          intact = with_posting-IsIntact rt ids t now d specs ledger le s.intact;
          balanced = rw (
            sum_by-append _ ledger.entries es,
            sum_by-append _ ledger.entries es,
            s.balanced,
            sum_by-make_entries rt ids now d debited 0 specs ledger.account_heads,
            sum_by-make_entries rt ids now d credited 0 specs ledger.account_heads,
            p.balanced,
          );
        })

  pub perform-IsSound :
      (ids : ℕ → String) (t now : ℕ) (q : Request) (ledger : LedgerEngine)
      → t ≤ now
      → IsSound t ledger
      → IsSound now (perform rt ids now q ledger)
  unfolding post_expense_journal post_settlement_journal
  perform-IsSound ids t now (expense payer splits d) ledger le s =
      let specs = expense_specs (expense_clearing_id (ids 0)) payer d splits in
      elim (expense_journal_outcome rt ids now d ledger payer splits) [
        | inl (fine, (j, after, e)) ↦
            subst (IsSound now) (sym (ap (λ r. r.1) e))
              (posted-IsSound (λ i. ids (suc i)) t now d specs ledger j after le s e)
        | inr (bad, (a, below, e)) ↦
            subst (IsSound now) (sym (ap (λ r. r.1) e)) (later-IsSound le s)
      ]
  perform-IsSound ids t now (settlement payer payee amount d) ledger le s =
      let specs = settlement_specs (settlement_clearing_id (ids 0)) payer payee amount in
      let x : Settlement = record { payer_id = payer; payee_id = payee; amount_cents = amount } in
      elim (Bool-cases (ltb_ℤ amount (pos 1))) [
        | inl bad ↦
            subst (IsSound now)
              (sym
                (ap (λ r. r.1) (settlement_journal_refused rt ids now x d ledger (ground arith))))
              (later-IsSound le s)
        | inr fine ↦
            let (j, after, e, _) =
              settlement_journal_wallets rt ids now x d ledger (ground arith) in
            subst (IsSound now) (sym (ap (λ r. r.1) e))
              (posted-IsSound (λ i. ids (suc i)) t now d specs ledger j after le s e)
      ]

  run-IsSound :
      (t : ℕ) (calls : List Call) (ledger : LedgerEngine)
      → ClockFrom t calls
      → IsSound t ledger
      → (now : ℕ) × IsSound now (run rt calls ledger)
  unfolding run
  run-IsSound t [] ledger clock s = (t, s)
  run-IsSound t (c ∷ calls) ledger clock s =
      run-IsSound c.now calls (perform rt c.ids c.now c.request ledger) clock.1
        (perform-IsSound c.ids t c.now c.request ledger clock.0 s)

  pub empty-IsSound : IsSound 0 empty_ledger
  unfolding sum_by
  empty-IsSound = record { intact = empty-IsIntact rt 0; balanced = refl }

  -- The audit of the ledger finds nothing wrong.
  abbrev pub PassesAudit : LedgerEngine → Type 0
  PassesAudit ledger =
      let report = audit_report rt ledger in
      (report.is_balanced ≡ true) × (report.chain_integrity_ok ≡ true) × (report.chain_errors ≡ [])

  pub IsSound-PassesAudit :
      (now : ℕ) (ledger : LedgerEngine) → IsSound now ledger → PassesAudit ledger
  unfolding audit_report
  IsSound-PassesAudit now ledger s =
      let verified = verify-IsIntact rt now ledger s.intact in
      (eq→eqb_ℤ _ _ s.balanced, ap (λ v. v.0) verified, ap (λ v. v.1) verified)

  -- After any sequence of expense and settlement journals, some of which may have raised, on a new
  -- ledger, with a clock that does not go back: the audit finds the debits equal to the credits,
  -- every hash chain intact, and no error.
  pub audit_after_run :
      (calls : List Call)
      → ClockFrom 0 calls
      → let report = audit_report rt (run rt calls empty_ledger) in
        (report.is_balanced ≡ true)
        × (report.chain_integrity_ok ≡ true)
        × (report.chain_errors ≡ [])
  audit_after_run calls clock =
      let (now, s) = run-IsSound 0 calls empty_ledger clock empty-IsSound in
      IsSound-PassesAudit now (run rt calls empty_ledger) s
