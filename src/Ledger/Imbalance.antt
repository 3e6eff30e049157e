-- ===== src/Ledger/Imbalance.antt =====
-- Journals that `post_journal` of core/ledger_engine.py finds out of balance.

use expense_settlement_engin.Common.{
  ℕ, ◌≤◌, ◌≡◌, ◌≢◌, refl, sym, ap, ◌∙◌, subst, inl, inr, true, false, List, [], ◌∷◌, ◌++◌, String,
  ◌==◌, eq_iff, All, Bool-cases,
}
use expense_settlement_engin.Common.Int.{pos, ◌≤ℤ◌, sum_by}
use expense_settlement_engin.Common.Dict.{Dict, lookup, get_or, insert, get_or-insert}
use expense_settlement_engin.Ledger.Posting.{
  of_spec, debited, credited, new_entries, new_heads, with_posting, post_imbalanced, post_returned,
}
use expense_settlement_engin.Ledger.Chain.{
  heads_after, make_entries-heads, IsIntact, with_posting-InOrder,
}
use expense_settlement_engin.Ledger.Verify.{
  account_entries, account_entries-InOrder, sort_by_time-InOrder,
}
use expense_settlement_engin.Ledger.Exact.{IsChain, verify_iff}
use expense_settlement_engin.Ledger.Audit.{verify_chain_integrity, sort_by_time}
use expense_settlement_engin.Ledger.{
  LedgerEntry, Journal, LedgerEngine, EntrySpec, Runtime, returned, raised, ledger_imbalance,
  genesis, make_entry, make_entries, post_journal,
}

module _ (rt : Runtime) where
  -- In a chain an account's next entry names the head that the entries before it leave.
  next_prev :
      (a : String) (h : Dict String) (es : List LedgerEntry) (e : LedgerEntry)
      (rest : List LedgerEntry)
      → e.account_id ≡ a
      → IsChain rt (get_or a genesis h) (account_entries a (es ++ e ∷ rest))
      → e.prev_hash ≡ get_or a genesis (heads_after h es)
  unfolding account_entries heads_after
  next_prev a h [] e rest same c =
      let here : (e.account_id == a) ≡ true = (eq_iff e.account_id a).1 same in (rw here at c).0
  next_prev a h (f ∷ es) e rest same c =
      let head = get_or-insert f.account_id a f.entry_hash genesis h in
      elim (Bool-cases (f.account_id == a)) [
        | inl here ↦
            next_prev a (insert f.account_id f.entry_hash h) es e rest same
              (rw (head, here) (rw here at c).2)
        | inr elsewhere ↦
            next_prev a (insert f.account_id f.entry_hash h) es e rest same
              (rw (head, elsewhere) (rw elsewhere at c))
      ]

  module _ (ids ids' : ℕ → String) (t now now' : ℕ) (d d' : String) (specs : List EntrySpec)
      (s : EntrySpec) (specs' : List EntrySpec) (ledger : LedgerEngine) where
    abbrev pub failed : LedgerEngine
    failed = record ledger { account_heads = new_heads rt ids now d specs ledger }

    abbrev later : LedgerEngine
    later = with_posting rt ids' now' d' (s ∷ specs') failed

    broken :
        IsIntact rt t ledger
        → t ≤ now'
        → get_or s.account_id genesis failed.account_heads
          ≢ get_or s.account_id genesis ledger.account_heads
        → (verify_chain_integrity rt later).0 ≡ false
    unfolding make_entries make_entry lookup
    broken v le moved = elim (Bool-cases (verify_chain_integrity rt later).0) [
      | inl ok ↦
          let a = s.account_id in
          let sorted : sort_by_time (account_entries a later.entries)
              ≡ account_entries a later.entries =
            sort_by_time-InOrder _ (
              account_entries-InOrder a later.entries (
                with_posting-InOrder rt ids' t now' d' (s ∷ specs') failed le v.in_order
                  v.by_now)) in
          let chain : IsChain rt genesis (account_entries a later.entries) =
            subst (IsChain rt genesis) sorted ((verify_iff rt later).0 ok a) in
          absurd (
            moved
              (next_prev a [] ledger.entries _ _ refl chain ∙ ap (get_or a genesis) (sym v.heads)))
      | inr bad ↦ bad
    ]

    -- `post_journal` raises `LedgerImbalanceError` on specs of at least one cent each whose debits and
    -- credits differ, and stores no entry, but leaves the heads of their accounts moved to the hashes
    -- of the entries that it made. On an intact ledger, when on some account the last of those hashes
    -- is another than the head was, the next journal that is posted, at a time that is not before
    -- those of the entries, and whose first spec is on that account, makes `verify_chain_integrity`
    -- report a broken chain, though nothing was tampered with.
    pub imbalance_breaks_chain :
        (j : Journal) (after : LedgerEngine)
        → IsIntact rt t ledger
        → t ≤ now'
        → All (λ x. pos 1 ≤ℤ x.amount_cents) specs
        → sum_by (of_spec debited) specs ≢ sum_by (of_spec credited) specs
        → get_or s.account_id genesis
            (heads_after ledger.account_heads (new_entries rt ids now d specs ledger))
          ≢ get_or s.account_id genesis ledger.account_heads
        → post_journal rt ids' now' d' (s ∷ specs') (post_journal rt ids now d specs ledger).1
          ≡ (returned j, after)
        → (post_journal rt ids now d specs ledger ≡ (
          raised
              (ledger_imbalance (sum_by (of_spec debited) specs) (sum_by (of_spec credited) specs)),
          record ledger {
            account_heads =
                heads_after ledger.account_heads (new_entries rt ids now d specs ledger);
          },
        ))
          × ((verify_chain_integrity rt after).0 ≡ false)
    imbalance_breaks_chain j after v le amounts differ moved e =
        let rejects = post_imbalanced rt ids now d specs ledger amounts differ in
        let fails : (post_journal rt ids now d specs ledger).1 ≡ failed = ap (λ r. r.1) rejects in
        let heads = make_entries-heads rt ids now d 0 specs ledger.account_heads in
        let e' =
          subst (λ l. post_journal rt ids' now' d' (s ∷ specs') l ≡ (returned j, after)) fails e in
        let p = post_returned rt ids' now' d' (s ∷ specs') failed j after e' in
        (
          rejects
              ∙ ap
                  (λ h. (
                    raised (
                        ledger_imbalance (sum_by (of_spec debited) specs)
                          (sum_by (of_spec credited) specs)),
                    record ledger { account_heads = h },
                  ))
                  heads,
          subst (λ l. (verify_chain_integrity rt l).0 ≡ false) (ap (λ r. r.1) (sym p.result ∙ e'))
              (broken v le (
                subst
                  (λ h.
                    get_or s.account_id genesis h
                    ≢ get_or s.account_id genesis ledger.account_heads)
                  (sym heads) moved)),
        )
