-- ===== src/Ledger/Chain.antt =====
-- The hash chains of core/ledger_engine.py: what posting keeps true of them.
use expense_settlement_engin.Common.{
  ℕ, suc, ◌≤◌, ◌≡◌, refl, sym, ap, ◌∙◌, subst, List, [], ◌∷◌, ◌++◌, arith, String, All, All-append,
  All-map,
}
use expense_settlement_engin.Common.Dict.{Dict, get_or, insert}
use expense_settlement_engin.Ledger.Posting.{new_entries, with_posting, post_returned}
use expense_settlement_engin.Ledger.{
  LedgerEntry, Journal, LedgerEngine, empty_ledger, EntrySpec, Runtime, returned, post_journal,
  genesis, expected_hash, make_entry, make_entries,
}

-- The heads after some entries are the hashes of the last entry of each account.
unfoldable pub heads_after : Dict String → List LedgerEntry → Dict String
heads_after heads [] = heads
heads_after heads (e ∷ es) = heads_after (insert e.account_id e.entry_hash heads) es

heads_after-append :
    (h : Dict String) (xs ys : List LedgerEntry)
    → heads_after h (xs ++ ys) ≡ heads_after (heads_after h xs) ys
unfolding heads_after
heads_after-append h [] ys = refl
heads_after-append h (x ∷ xs) ys = heads_after-append (insert x.account_id x.entry_hash h) xs ys

-- Every entry is no later than those that follow it.
abbrev pub InOrder : List LedgerEntry → Type 0
InOrder [] = Unit
InOrder (e ∷ es) = All (λ f. e.created_at ≤ f.created_at) es × InOrder es

abbrev pub By : ℕ → LedgerEntry → Type 0
By t e = e.created_at ≤ t

InOrder-append :
    (t : ℕ) (xs ys : List LedgerEntry)
    → All (By t) xs
    → All (λ f. t ≤ f.created_at) ys
    → InOrder xs
    → InOrder ys
    → InOrder (xs ++ ys)
InOrder-append t [] ys b l p q = q
InOrder-append t (x ∷ xs) ys b l p q = (
  All-append (λ f. x.created_at ≤ f.created_at) xs ys p.0
      (All-map (λ f. t ≤ f.created_at) (λ f. x.created_at ≤ f.created_at) ys (λ f h. omega arith)
        l),
  InOrder-append t xs ys b.1 l p.1 q,
)

module _ (rt : Runtime) where
  -- Every entry names the hash of the one before it on its account, and has the hash that its own
  -- fields call for.
  abbrev pub Linked : Dict String → List LedgerEntry → Type 0
  Linked heads [] = Unit
  Linked heads (e ∷ es) =
      (e.prev_hash ≡ get_or e.account_id genesis heads)
      × (e.entry_hash ≡ expected_hash rt e)
      × Linked (insert e.account_id e.entry_hash heads) es

  Linked-append :
      (h : Dict String) (xs ys : List LedgerEntry)
      → Linked h xs
      → Linked (heads_after h xs) ys
      → Linked h (xs ++ ys)
  unfolding heads_after
  Linked-append h [] ys p q = q
  Linked-append h (x ∷ xs) ys p q =
      (p.0, p.1, Linked-append (insert x.account_id x.entry_hash h) xs ys p.2 q)

  module _ (ids : ℕ → String) (now : ℕ) (d : String) where
    make_entries-Linked :
        (i : ℕ) (specs : List EntrySpec) (h : Dict String)
        → Linked h (make_entries rt ids now d i specs h).0
    unfolding make_entries make_entry
    make_entries-Linked i [] h = tt
    make_entries-Linked i (s ∷ specs) h = (refl, refl, make_entries-Linked (suc i) specs _)

    pub make_entries-heads :
        (i : ℕ) (specs : List EntrySpec) (h : Dict String)
        → (make_entries rt ids now d i specs h).1
          ≡ heads_after h (make_entries rt ids now d i specs h).0
    unfolding make_entries make_entry heads_after
    make_entries-heads i [] h = refl
    make_entries-heads i (s ∷ specs) h = make_entries-heads (suc i) specs _

    make_entries-All :
        (P : ℕ → Type 0) (i : ℕ) (specs : List EntrySpec) (h : Dict String)
        → P now
        → All (λ e. P e.created_at) (make_entries rt ids now d i specs h).0
    unfolding make_entries make_entry
    make_entries-All P i [] h p = tt
    make_entries-All P i (s ∷ specs) h p = (p, make_entries-All P (suc i) specs _ p)

    make_entries-InOrder :
        (i : ℕ) (specs : List EntrySpec) (h : Dict String)
        → InOrder (make_entries rt ids now d i specs h).0
    unfolding make_entries make_entry
    make_entries-InOrder i [] h = tt
    make_entries-InOrder i (s ∷ specs) h = (
      make_entries-All (λ t. now ≤ t) (suc i) specs _ (omega arith),
      make_entries-InOrder (suc i) specs _,
    )

  -- The invariant of a ledger whose clock has not gone past `now`.
  pub record IsIntact (now : ℕ) (ledger : LedgerEngine) : Type 0 where
    pub linked : Linked [] ledger.entries
    pub heads : ledger.account_heads ≡ heads_after [] ledger.entries
    pub in_order : InOrder ledger.entries
    pub by_now : All (By now) ledger.entries

  pub empty-IsIntact : (now : ℕ) → IsIntact now empty_ledger
  unfolding heads_after
  empty-IsIntact now = record { linked = tt; heads = refl; in_order = tt; by_now = tt }

  pub with_posting-InOrder :
      (ids : ℕ → String) (t now : ℕ) (d : String) (specs : List EntrySpec) (ledger : LedgerEngine)
      → t ≤ now
      → InOrder ledger.entries
      → All (By t) ledger.entries
      → InOrder (with_posting rt ids now d specs ledger).entries
  with_posting-InOrder ids t now d specs ledger le order by =
      let h = ledger.account_heads in
      InOrder-append now ledger.entries (new_entries rt ids now d specs ledger)
        (All-map (By t) (By now) ledger.entries (λ e b. omega arith) by)
        (make_entries-All ids now d (λ x. now ≤ x) 0 specs h (omega arith)) order
        (make_entries-InOrder ids now d 0 specs h)

  pub with_posting-IsIntact :
      (ids : ℕ → String) (t now : ℕ) (d : String) (specs : List EntrySpec) (ledger : LedgerEngine)
      → t ≤ now
      → IsIntact t ledger
      → IsIntact now (with_posting rt ids now d specs ledger)
  with_posting-IsIntact ids t now d specs ledger le v =
      let h = ledger.account_heads in
      let es = new_entries rt ids now d specs ledger in
      let earlier : All (By now) ledger.entries =
        All-map (By t) (By now) ledger.entries (λ e b. omega arith) v.by_now in
      record {
        linked =
            Linked-append [] ledger.entries es v.linked
              (rw (← v.heads) (make_entries-Linked ids now d 0 specs h));
        heads =
            make_entries-heads ids now d 0 specs h
            ∙ ap (λ x. heads_after x es) v.heads
            ∙ sym (heads_after-append [] ledger.entries es);
        in_order = with_posting-InOrder ids t now d specs ledger le v.in_order v.by_now;
        by_now =
            All-append (By now) ledger.entries es earlier
              (make_entries-All ids now d (λ x. x ≤ now) 0 specs h (omega arith));
      }

  -- A ledger with intact chains stays so when `post_journal` returns, if the clock does not go back.
  pub post_journal-IsIntact :
      (ids : ℕ → String) (t now : ℕ) (d : String) (specs : List EntrySpec) (ledger : LedgerEngine)
      (j : Journal) (after : LedgerEngine)
      → t ≤ now
      → IsIntact t ledger
      → post_journal rt ids now d specs ledger ≡ (returned j, after)
      → IsIntact now after
  post_journal-IsIntact ids t now d specs ledger j after le v e =
      let posted = post_returned rt ids now d specs ledger j after e in
      subst (IsIntact now) (ap (λ r. r.1) (sym posted.result ∙ e))
        (with_posting-IsIntact ids t now d specs ledger le v)
