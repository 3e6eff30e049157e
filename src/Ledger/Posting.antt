-- ===== src/Ledger/Posting.antt =====
-- `LedgerEngine.post_journal` of core/ledger_engine.py: its three outcomes, and its effect on sums
-- over the entries.
use expense_settlement_engin.Common.{
  ℕ, suc, ◌≡◌, ◌≢◌, refl, sym, ap, ◌∙◌, inl, inr, ◌⊎◌, true, none, some, List, [], ◌∷◌, ◌++◌, arith,
  String, if◌then◌else◌, ◌==◌, All, Bool-cases, Option-cases,
}
use expense_settlement_engin.Common.Int.{ℤ, pos, ◌≤ℤ◌, ◌<ℤ◌, eqb_ℤ, eqb_ℤ→eq, eq→eqb_ℤ, sum_by}
use expense_settlement_engin.Common.Dict.{Dict, insert}
use expense_settlement_engin.Ledger.{
  LedgerEntry, Journal, LedgerEngine, EntrySpec, EntryType, Runtime, debit_part, credit_part,
  debits, credits, is_balanced, first_bad_amount, LedgerError, Outcome, returned, raised,
  value_error, ledger_imbalance, make_entry, make_entries, commit, post_journal, signed,
}

pub Outcome-cases :
    {A : Type 0} (o : Outcome A)
    → ((a : A) × (o ≡ returned a)) ⊎ ((x : LedgerError) × (o ≡ raised x))
Outcome-cases (returned a) = inl (a, refl)
Outcome-cases (raised x) = inr (x, refl)

-- A measure of what is posted: by account, side and amount.
abbrev pub Measure : Type 0
Measure = String → EntryType → ℤ → ℤ

abbrev pub of_entry : Measure → LedgerEntry → ℤ
of_entry g e = g e.account_id e.entry_type e.amount_cents

abbrev pub of_spec : Measure → EntrySpec → ℤ
of_spec g s = g s.account_id s.entry_type s.amount_cents

abbrev pub debited : Measure
debited _ t amount = debit_part t amount

abbrev pub credited : Measure
credited _ t amount = credit_part t amount

-- What is posted to one account.
abbrev pub posted_to : String → Measure
posted_to account a t amount = if a == account then signed t amount else pos 0

pub first_bad_none :
    (specs : List EntrySpec)
    → first_bad_amount specs ≡ none
    → All (λ s. pos 1 ≤ℤ s.amount_cents) specs
unfolding first_bad_amount
first_bad_none [] h = tt
first_bad_none (s ∷ specs) h = ground (arith, first_bad_none specs)

pub first_bad_of_All :
    (specs : List EntrySpec)
    → All (λ s. pos 1 ≤ℤ s.amount_cents) specs
    → first_bad_amount specs ≡ none
unfolding first_bad_amount
first_bad_of_All [] h = refl
first_bad_of_All (s ∷ specs) h = ground (arith, first_bad_of_All specs h.1)

pair_path : {A B : Type 0} {a a' : A} {b b' : B} → a ≡ a' → b ≡ b' → Path (A × B) (a, b) (a', b')
pair_path p q = λ i. (p i, q i)

pub first_bad_bound :
    (specs : List EntrySpec) (a : ℤ) → first_bad_amount specs ≡ some a → a <ℤ pos 1
unfolding first_bad_amount
first_bad_bound [] a h = cc
first_bad_bound (s ∷ specs) a h = ground (arith, first_bad_bound specs a)

module _ (rt : Runtime) (ids : ℕ → String) (now : ℕ) (description : String) where
  pub sum_by-make_entries :
      (g : Measure) (i : ℕ) (specs : List EntrySpec) (heads : Dict String)
      → sum_by (of_entry g) (make_entries rt ids now description i specs heads).0
        ≡ sum_by (of_spec g) specs
  unfolding make_entries make_entry sum_by
  sum_by-make_entries g i [] heads = refl
  sum_by-make_entries g i (s ∷ specs) heads = rw (sum_by-make_entries g (suc i) specs _)

  module _ (specs : List EntrySpec) (ledger : LedgerEngine) where
    abbrev pub new_entries : List LedgerEntry
    new_entries = (make_entries rt ids now description 0 specs ledger.account_heads).0

    abbrev pub new_heads : Dict String
    new_heads = (make_entries rt ids now description 0 specs ledger.account_heads).1

    abbrev pub new_journal : Journal
    new_journal = record {
      journal_id = ids 0;
      entries = new_entries;
      description = description;
      created_at = now;
    }

    abbrev pub with_posting : LedgerEngine
    with_posting = record {
      entries = ledger.entries ++ new_entries;
      account_heads = new_heads;
      journals = insert (ids 0) new_journal ledger.journals;
    }

    abbrev pub spec_debits : ℤ
    spec_debits = sum_by (of_spec debited) specs

    abbrev pub spec_credits : ℤ
    spec_credits = sum_by (of_spec credited) specs

    same_debits : debits new_entries ≡ spec_debits
    same_debits = sum_by-make_entries debited 0 specs ledger.account_heads

    same_credits : credits new_entries ≡ spec_credits
    same_credits = sum_by-make_entries credited 0 specs ledger.account_heads

    abbrev pub outcome : Outcome Journal × LedgerEngine
    outcome = post_journal rt ids now description specs ledger

    -- Amounts of at least one cent whose debits equal their credits are posted.
    pub post_balanced :
        All (λ s. pos 1 ≤ℤ s.amount_cents) specs
        → spec_debits ≡ spec_credits
        → outcome ≡ (returned new_journal, with_posting)
    unfolding post_journal commit
    post_balanced p b =
        let test : is_balanced new_entries ≡ true =
          eq→eqb_ℤ _ _ (same_debits ∙ b ∙ sym same_credits) in
        rw (first_bad_of_All specs p, post_journal) (rw (test, commit))

    pub post_imbalanced :
        All (λ s. pos 1 ≤ℤ s.amount_cents) specs
        → spec_debits ≢ spec_credits
        → outcome ≡ (
          raised (ledger_imbalance spec_debits spec_credits),
          record ledger { account_heads = new_heads },
        )
    unfolding post_journal commit
    post_imbalanced p b = elim (Bool-cases (is_balanced new_entries)) [
      | inl same ↦ absurd (b (sym same_debits ∙ eqb_ℤ→eq _ _ same ∙ same_credits))
      | inr other ↦
          rw (first_bad_of_All specs p, post_journal)
            (rw (other, commit)
              (ap
                (λ x.
                  (raised (ledger_imbalance x.0 x.1), record ledger { account_heads = new_heads }))
                (pair_path same_debits same_credits)))
    ]

    pub post_bad_amount :
        (a : ℤ) → first_bad_amount specs ≡ some a → outcome ≡ (raised (value_error a), ledger)
    unfolding post_journal
    post_bad_amount a e = rw (e, post_journal)

    -- A journal that is returned was checked, and is in the ledger.
    pub record Posted (r : Outcome Journal × LedgerEngine) : Type 0 where
      pub amounts : All (λ s. pos 1 ≤ℤ s.amount_cents) specs
      pub balanced : spec_debits ≡ spec_credits
      pub result : r ≡ (returned new_journal, with_posting)

    pub post_returned :
        (j : Journal) (after : LedgerEngine) → outcome ≡ (returned j, after) → Posted outcome
    post_returned j after e = elim (Option-cases (first_bad_amount specs)) [
      | inr (a, bad) ↦ absurd (cc (post_bad_amount a bad, e))
      | inl fine ↦ elim (Bool-cases (eqb_ℤ spec_debits spec_credits)) [
        | inl same ↦
            let p = first_bad_none specs fine in
            let b = eqb_ℤ→eq _ _ same in
            record { amounts = p; balanced = b; result = post_balanced p b }
        | inr other ↦
            absurd (
              cc (post_imbalanced (first_bad_none specs fine) (λ b. cc (other, eq→eqb_ℤ _ _ b)), e))
      ]
    ]
