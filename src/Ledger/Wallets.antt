-- ===== src/Ledger/Wallets.antt =====
-- What an expense journal and a settlement journal of core/ledger_engine.py do to the balances.
use expense_settlement_engin.Common.{
  ℕ, ◌≡◌, refl, sym, ◌∙◌, inl, inr, true, false, List, [], ◌∷◌, arith, String, if◌then◌else◌, ◌==◌,
  All, All-append_left, Bool, Bool-cases,
}
use expense_settlement_engin.Common.Int.{
  ℤ, pos, ◌+ℤ◌, ◌-ℤ◌, ◌≤ℤ◌, ltb_ℤ, sum_by, sum_by-append, parts_of_eq, int_laws,
}
use expense_settlement_engin.DebtSimplifier.{Split}
use expense_settlement_engin.DebtSimplifier.Balances.{due}
use expense_settlement_engin.Ledger.Accounts.{wallet_same}
use expense_settlement_engin.Ledger.Posting.{
  of_entry, of_spec, debited, credited, posted_to, sum_by-make_entries, with_posting,
}
use expense_settlement_engin.Ledger.Specs.{
  wallet, debtors_total, debtor_specs, closing_specs, expense_specs,
}
use expense_settlement_engin.Ledger.{
  LedgerEntry, LedgerEngine, EntrySpec, Runtime, signed, balance_from, get_account_balance,
}

balance_from-eq-sum :
    (a : String) (b : ℤ) (es : List LedgerEntry)
    → balance_from a b es ≡ b +ℤ sum_by (of_entry (posted_to a)) es
unfolding balance_from sum_by
balance_from-eq-sum a b [] = omega int_laws
balance_from-eq-sum a b (e ∷ es) = elim (Bool-cases (e.account_id == a)) [
  | inl here ↦
      rw (here, balance_from-eq-sum a (b +ℤ signed e.entry_type e.amount_cents) es) (omega int_laws)
  | inr elsewhere ↦ rw (elsewhere, balance_from-eq-sum a b es) (omega int_laws)
]

pub balance-eq-sum :
    (a : String) (ledger : LedgerEngine)
    → get_account_balance a ledger ≡ sum_by (of_entry (posted_to a)) ledger.entries
unfolding get_account_balance
balance-eq-sum a ledger = balance_from-eq-sum a (pos 0) ledger.entries ∙ omega int_laws

-- A posted journal changes a balance by what its specs post to the account.
pub balance-posting :
    (rt : Runtime) (ids : ℕ → String) (now : ℕ) (d : String) (specs : List EntrySpec)
    (ledger : LedgerEngine) (a : String)
    → get_account_balance a (with_posting rt ids now d specs ledger)
      ≡ get_account_balance a ledger +ℤ sum_by (of_spec (posted_to a)) specs
balance-posting rt ids now d specs ledger a = rw (
  balance-eq-sum a (with_posting rt ids now d specs ledger),
  balance-eq-sum a ledger,
  sum_by-append,
  sum_by-make_entries rt ids now d (posted_to a) 0 specs ledger.account_heads,
)

posted_step :
    (p q : Bool) (x t post d : ℤ)
    → post +ℤ (if p then t else pos 0) ≡ d
    → (if q then pos 0 -ℤ x else pos 0) +ℤ (pos 0 +ℤ post) +ℤ (if p then x +ℤ t else pos 0)
      ≡ (if p then x else pos 0) -ℤ (if q then x else pos 0) +ℤ d
posted_step true true x t post d e = omega (int_laws, parts_of_eq _ _ e)
posted_step true false x t post d e = omega (int_laws, parts_of_eq _ _ e)
posted_step false true x t post d e = omega (int_laws, parts_of_eq _ _ e)
posted_step false false x t post d e = omega (int_laws, parts_of_eq _ _ e)

zero_of_not-pos : (t : ℤ) → pos 0 ≤ℤ t → ltb_ℤ (pos 0) t ≡ false → t ≡ pos 0
zero_of_not-pos t p h = ground arith

zero_if : (p : Bool) (t : ℤ) → t ≡ pos 0 → pos 0 ≡ (if p then t else pos 0)
zero_if true t e = sym e
zero_if false t e = refl

credit_step :
    (p : Bool) (x t : ℤ)
    → pos 0 +ℤ ((if p then x else pos 0) +ℤ (if p then t else pos 0))
      ≡ (if p then x +ℤ t else pos 0)
credit_step true x t = omega int_laws
credit_step false x t = omega int_laws

if_cancel :
    (p : Bool) (t : ℤ) → (if p then t else pos 0) +ℤ (if p then pos 0 -ℤ t else pos 0) ≡ pos 0
if_cancel true t = omega int_laws
if_cancel false t = omega int_laws

module _ (clearing payer description : String) where
  abbrev pub debtor_part : List Split → List EntrySpec
  debtor_part = debtor_specs clearing payer description

  debtors_debited :
      (l : List Split) → sum_by (of_spec debited) (debtor_part l) ≡ debtors_total payer l
  unfolding debtor_specs debtors_total sum_by
  debtors_debited [] = refl
  debtors_debited (s ∷ l) = grind (int_laws, debtors_debited l)

  debtors_credited :
      (l : List Split) → sum_by (of_spec credited) (debtor_part l) ≡ debtors_total payer l
  unfolding debtor_specs debtors_total sum_by
  debtors_credited [] = refl
  debtors_credited (s ∷ l) = grind (int_laws, debtors_credited l)

  closing_balanced :
      (t : ℤ)
      → sum_by (of_spec debited) (closing_specs clearing payer description t)
        ≡ sum_by (of_spec credited) (closing_specs clearing payer description t)
  unfolding closing_specs sum_by
  closing_balanced t = grind int_laws

  -- Whatever the amounts, the debits of an expense journal equal its credits.
  pub expense_specs_balanced :
      (l : List Split)
      → let specs = expense_specs clearing payer description l in
        sum_by (of_spec debited) specs ≡ sum_by (of_spec credited) specs
  unfolding expense_specs
  expense_specs_balanced l = rw (
    sum_by-append (of_spec debited) (debtor_part l),
    sum_by-append (of_spec credited) (debtor_part l),
    debtors_debited,
    debtors_credited,
    closing_balanced,
  )

  debtors_posted :
      (u : String) (l : List Split)
      → (clearing == wallet u) ≡ false
      → sum_by (of_spec (posted_to (wallet u))) (debtor_part l)
          +ℤ (if payer == u then debtors_total payer l else pos 0)
        ≡ sum_by (due u payer) l
  unfolding debtor_specs debtors_total sum_by
  debtors_posted u [] other = grind int_laws
  debtors_posted u (s ∷ l) other = elim (Bool-cases (s.user_id == payer)) [
    | inl own ↦ rw (own, debtors_posted u l other) (omega int_laws)
    | inr owes ↦
        rw (owes, wallet_same s.user_id u, other)
          (posted_step (payer == u) (s.user_id == u) s.amount_cents _ _ _
            (debtors_posted u l other))
  ]

  closing_posted :
      (u : String) (t : ℤ)
      → pos 0 ≤ℤ t
      → (clearing == wallet u) ≡ false
      → sum_by (of_spec (posted_to (wallet u))) (closing_specs clearing payer description t)
        ≡ (if payer == u then t else pos 0)
  unfolding closing_specs sum_by
  closing_posted u t p other = elim (Bool-cases (ltb_ℤ (pos 0) t)) [
    | inl more ↦ rw (more, other, wallet_same payer u) (omega int_laws)
    | inr settled ↦ rw settled (zero_if (payer == u) t (zero_of_not-pos t p settled))
  ]

  total_nonneg :
      (l : List Split)
      → All (λ s. pos 1 ≤ℤ s.amount_cents) (debtor_part l)
      → pos 0 ≤ℤ debtors_total payer l
  unfolding debtor_specs debtors_total
  total_nonneg [] h = omega arith
  total_nonneg (s ∷ l) h = elim (Bool-cases (s.user_id == payer)) [
    | inl own ↦ rw own (total_nonneg l (rw own at h))
    | inr owes ↦ let h' = rw owes at h in rw owes (omega (int_laws, h'.0, total_nonneg l h'.1.1))
  ]

  -- An expense journal posts to a user's wallet what the expense makes the user due.
  pub expense_posted :
      (u : String) (l : List Split)
      → (clearing == wallet u) ≡ false
      → All (λ s. pos 1 ≤ℤ s.amount_cents) (expense_specs clearing payer description l)
      → sum_by (of_spec (posted_to (wallet u))) (expense_specs clearing payer description l)
        ≡ sum_by (due u payer) l
  unfolding expense_specs
  expense_posted u l other h =
      let p = total_nonneg l (All-append_left _ (debtor_part l) _ h) in
      rw
        (
          sum_by-append (of_spec (posted_to (wallet u))) (debtor_part l),
          closing_posted u (debtors_total payer l) p other,
        )
        (debtors_posted u l other)

  debtors_posted_other :
      (a : String) (l : List Split)
      → ((u : String) → (wallet u == a) ≡ false)
      → sum_by (of_spec (posted_to a)) (debtor_part l)
        ≡ (if clearing == a then debtors_total payer l else pos 0)
  unfolding debtor_specs debtors_total sum_by
  debtors_posted_other a [] other = zero_if (clearing == a) (pos 0) refl
  debtors_posted_other a (s ∷ l) other = elim (Bool-cases (s.user_id == payer)) [
    | inl own ↦ rw own (debtors_posted_other a l other)
    | inr owes ↦
        rw (owes, other s.user_id, debtors_posted_other a l other)
          (credit_step (clearing == a) s.amount_cents _)
  ]

  closing_posted_other :
      (a : String) (t : ℤ)
      → pos 0 ≤ℤ t
      → ((u : String) → (wallet u == a) ≡ false)
      → sum_by (of_spec (posted_to a)) (closing_specs clearing payer description t)
        ≡ (if clearing == a then pos 0 -ℤ t else pos 0)
  unfolding closing_specs sum_by
  closing_posted_other a t p other = elim (Bool-cases (ltb_ℤ (pos 0) t)) [
    | inl more ↦ rw (more, other payer) (omega int_laws)
    | inr settled ↦
        rw settled
          (zero_if (clearing == a) (pos 0 -ℤ t) (rw (zero_of_not-pos t p settled) (omega int_laws)))
  ]

  -- An account that is nobody's wallet gains nothing: what the clearing account gets it gives.
  pub expense_posted_other :
      (a : String) (l : List Split)
      → ((u : String) → (wallet u == a) ≡ false)
      → All (λ s. pos 1 ≤ℤ s.amount_cents) (expense_specs clearing payer description l)
      → sum_by (of_spec (posted_to a)) (expense_specs clearing payer description l) ≡ pos 0
  unfolding expense_specs
  expense_posted_other a l other h =
      let p = total_nonneg l (All-append_left _ (debtor_part l) _ h) in
      rw
        (
          sum_by-append (of_spec (posted_to a)) (debtor_part l),
          debtors_posted_other a l other,
          closing_posted_other a (debtors_total payer l) p other,
        )
        (if_cancel (clearing == a) (debtors_total payer l))
