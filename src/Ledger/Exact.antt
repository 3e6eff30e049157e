-- ===== src/Ledger/Exact.antt =====
-- `verify_chain_integrity` of core/ledger_engine.py, against a description of chains.

use expense_settlement_engin.Common.{
  ◌≡◌, ◌↔◌, refl, sym, ◌∙◌, subst, inl, inr, Bool, true, false, some, List, [], ◌∷◌, ◌++◌, arith,
  String, eq_iff, All, All-map, Option-cases,
}
use expense_settlement_engin.Common.Dict.{
  Dict, lookup, get_or, get_or_found, get_or_absent, All-lookup, lookup-entries,
}
use expense_settlement_engin.Ledger.Verify.{account_entries, grouped}
use expense_settlement_engin.Ledger.Audit.{
  ChainError, group, sort_by_time, entry_errors, chain_errors, all_errors, verify_chain_integrity,
}
use expense_settlement_engin.Ledger.{LedgerEntry, LedgerEngine, Runtime, genesis, expected_hash}

append-eq-nil {ℓ} : {A : Type ℓ} (xs ys : List A) → xs ++ ys ≡ [] → (xs ≡ []) × (ys ≡ [])
append-eq-nil [] ys e = (refl, e)
append-eq-nil (x ∷ xs) ys e = cc

eq-nil_of_test :
    (xs : List ChainError)
    → (let ok : Bool = elim xs [ [] ↦ true | _ ∷ _ ↦ false ] in ok) ≡ true
    → xs ≡ []
eq-nil_of_test [] h = refl
eq-nil_of_test (x ∷ xs) h = cc

module _ (rt : Runtime) where
  -- The entries link from `prev` on, and each has the hash that its fields call for.
  abbrev pub IsChain : String → List LedgerEntry → Type 0
  IsChain prev [] = Unit
  IsChain prev (e ∷ es) =
      (e.prev_hash ≡ prev) × (e.entry_hash ≡ expected_hash rt e) × IsChain e.entry_hash es

  entry_errors_iff :
      (a prev : String) (e : LedgerEntry)
      → (entry_errors rt a prev e ≡ [])
        ↔ ((e.prev_hash ≡ prev) × (e.entry_hash ≡ expected_hash rt e))
  unfolding entry_errors
  entry_errors_iff a prev e = (
    (λ none. ground (arith, eq_iff e.prev_hash prev, eq_iff (expected_hash rt e) e.entry_hash)),
    (λ ok. ground (arith, eq_iff e.prev_hash prev, eq_iff (expected_hash rt e) e.entry_hash)),
  )

  chain_errors-IsChain :
      (a prev : String) (es : List LedgerEntry) → chain_errors rt a prev es ≡ [] → IsChain prev es
  unfolding chain_errors
  chain_errors-IsChain a prev [] h = tt
  chain_errors-IsChain a prev (e ∷ es) h =
      let (here, rest) = append-eq-nil (entry_errors rt a prev e) _ h in
      let ok = (entry_errors_iff a prev e).0 here in
      (ok.0, ok.1, chain_errors-IsChain a e.entry_hash es rest)

  IsChain-chain_errors :
      (a prev : String) (es : List LedgerEntry) → IsChain prev es → chain_errors rt a prev es ≡ []
  unfolding chain_errors
  IsChain-chain_errors a prev [] h = refl
  IsChain-chain_errors a prev (e ∷ es) h =
      rw ((entry_errors_iff a prev e).1 (h.0, h.1), IsChain-chain_errors a e.entry_hash es h.2)

  abbrev Sound : String × List LedgerEntry → Type 0
  Sound g = IsChain genesis (sort_by_time g.1)

  all_errors-All : (d : Dict (List LedgerEntry)) → all_errors rt d ≡ [] → All Sound d
  unfolding all_errors
  all_errors-All [] h = tt
  all_errors-All ((a, es) ∷ d) h =
      let (here, rest) = append-eq-nil (chain_errors rt a genesis (sort_by_time es)) _ h in
      (chain_errors-IsChain a genesis (sort_by_time es) here, all_errors-All d rest)

  All-all_errors : (d : Dict (List LedgerEntry)) → All Sound d → all_errors rt d ≡ []
  unfolding all_errors
  All-all_errors [] h = refl
  All-all_errors ((a, es) ∷ d) h =
      rw (IsChain-chain_errors a genesis (sort_by_time es) h.0, All-all_errors d h.1)

  module _ (ledger : LedgerEngine) where
    abbrev groups : Dict (List LedgerEntry)
    groups = group ledger.entries []

    -- Each account's entries, by time, link from the genesis hash, and each has its fields' hash.
    abbrev pub AllChained : Type 0
    AllChained = (a : String) → IsChain genesis (sort_by_time (account_entries a ledger.entries))

    held : (a : String) → get_or a [] groups ≡ account_entries a ledger.entries
    held = (grouped ledger.entries).holds

    group-IsChain :
        (a : String) → All Sound groups → IsChain genesis (sort_by_time (get_or a [] groups))
    unfolding sort_by_time
    group-IsChain a all = elim (Option-cases (lookup a groups)) [
      | inl absent ↦
          subst (λ l. IsChain genesis (sort_by_time l)) (sym (get_or_absent a [] groups absent)) tt
      | inr (l, found) ↦
          subst (λ l. IsChain genesis (sort_by_time l)) (sym (get_or_found a [] groups found))
            (All-lookup (λ l. IsChain genesis (sort_by_time l)) a groups all found)
    ]

    AllChained-All : AllChained → All Sound groups
    AllChained-All h =
        All-map (λ e. lookup e.0 groups ≡ some e.1) Sound groups
          (λ e found.
            let same : get_or e.0 [] groups ≡ e.1 = get_or_found e.0 [] groups found in
            subst (λ l. IsChain genesis (sort_by_time l)) (sym (held e.0) ∙ same) (h e.0))
          (lookup-entries groups (grouped ledger.entries).distinct)

    -- `verify_chain_integrity` returns true exactly when, for every account, the entries of the
    -- account in the order of their time stamps name each the hash of the one before (the first
    -- the genesis hash), and every entry has the hash that its fields call for.
    pub verify_iff : ((verify_chain_integrity rt ledger).0 ≡ true) ↔ AllChained
    unfolding verify_chain_integrity
    verify_iff = (
      (λ h a.
          subst (λ l. IsChain genesis (sort_by_time l)) (held a)
            (group-IsChain a (all_errors-All groups (eq-nil_of_test (all_errors rt groups) h)))),
      (λ h. rw (All-all_errors groups (AllChained-All h), verify_chain_integrity)),
    )
