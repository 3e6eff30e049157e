-- ===== src/Ledger/Audit.antt =====
-- The audit of core/ledger_engine.py: `verify_chain_integrity` and `audit_report`.
use expense_settlement_engin.Common.{
  ℕ, Bool, true, false, List, [], ◌∷◌, ◌++◌, String, length, if◌then◌else◌, ◌==◌, leb,
}
use expense_settlement_engin.Common.Int.{ℤ, eqb_ℤ}
use expense_settlement_engin.Common.Dict.{Dict, get_or, insert}
use expense_settlement_engin.Ledger.{
  LedgerEntry, LedgerEngine, Runtime, debits, credits, genesis, expected_hash,
}

-- A line of `errors`, with the values that its text shows.
pub data ChainError : Type 0 where
  chain_broken : String → String → String → String → ChainError
  hash_mismatch : String → ChainError

-- `by_account.setdefault(entry.account_id, []).append(entry)`, over the entries.
unfoldable pub group : List LedgerEntry → Dict (List LedgerEntry) → Dict (List LedgerEntry)
group [] by_account = by_account
group (e ∷ es) by_account =
    group es (insert e.account_id (get_or e.account_id [] by_account ++ e ∷ []) by_account)

-- `entries.sort(key=lambda e: e.created_at)`, which is stable.
unfoldable pub insert_by_time : LedgerEntry → List LedgerEntry → List LedgerEntry
insert_by_time e [] = e ∷ []
insert_by_time e (f ∷ l) =
    if leb e.created_at f.created_at then e ∷ f ∷ l else f ∷ insert_by_time e l

unfoldable pub sort_by_time : List LedgerEntry → List LedgerEntry
unfolding insert_by_time
sort_by_time [] = []
sort_by_time (e ∷ l) = insert_by_time e (sort_by_time l)

pub record AuditReport : Type 0 where
  pub total_entries : ℕ
  pub total_journals : ℕ
  pub total_debits_cents : ℤ
  pub total_credits_cents : ℤ
  pub is_balanced : Bool
  pub chain_integrity_ok : Bool
  pub chain_errors : List ChainError

module _ (rt : Runtime) where
  -- What one entry adds to `errors`.
  unfoldable pub entry_errors : String → String → LedgerEntry → List ChainError
  entry_errors account prev e =
      (if e.prev_hash == prev then [] else chain_broken e.entry_id account prev e.prev_hash ∷ [])
      ++ (if expected_hash rt e == e.entry_hash then [] else hash_mismatch e.entry_id ∷ [])

  unfoldable pub chain_errors : String → String → List LedgerEntry → List ChainError
  unfolding entry_errors
  chain_errors account prev [] = []
  chain_errors account prev (e ∷ es) =
      entry_errors account prev e ++ chain_errors account e.entry_hash es

  unfoldable pub all_errors : Dict (List LedgerEntry) → List ChainError
  unfolding sort_by_time chain_errors
  all_errors [] = []
  all_errors ((account, es) ∷ d) = chain_errors account genesis (sort_by_time es) ++ all_errors d

  unfoldable pub verify_chain_integrity : LedgerEngine → Bool × List ChainError
  unfolding group all_errors
  verify_chain_integrity ledger =
      let errors = all_errors (group ledger.entries []) in
      (elim errors [ [] ↦ true | _ ∷ _ ↦ false ], errors)

  unfoldable pub audit_report : LedgerEngine → AuditReport
  unfolding verify_chain_integrity
  audit_report ledger =
      let (ok, errs) = verify_chain_integrity ledger in
      record {
        total_entries = length ledger.entries;
        total_journals = length ledger.journals;
        total_debits_cents = debits ledger.entries;
        total_credits_cents = credits ledger.entries;
        is_balanced = eqb_ℤ (debits ledger.entries) (credits ledger.entries);
        chain_integrity_ok = ok;
        chain_errors = errs;
      }
