-- ===== src/Ledger/Accounts.antt =====
-- The names of accounts that core/ledger_engine.py builds are told apart by their prefix.
use Prim.Native.Char.{code}
use expense_settlement_engin.Common.{
  ℕ, ◌≡◌, ◌≢◌, ap, inl, inr, false, arith, String, ◌==◌, eq_iff, eq_refl, Bool-cases,
}
use text.Mathlib.TextLemmas.{append_cancel_left, cons-append}
use expense_settlement_engin.Ledger.Specs.{wallet, expense_clearing_id, settlement_clearing_id}

eq_false : (s t : String) → s ≢ t → (s == t) ≡ false
eq_false s t n = elim (Bool-cases (s == t)) [
  | inl same ↦ absurd (n ((eq_iff s t).0 same))
  | inr other ↦ other
]

pub wallet_same : (u v : String) → (wallet u == wallet v) ≡ (u == v)
wallet_same u v = elim (Bool-cases (u == v)) [
  | inl same ↦ rw ((eq_iff u v).0 same, eq_refl (wallet v), eq_refl v)
  | inr other ↦ rw other (
      eq_false (wallet u) (wallet v)
        (λ e. absurd (cc (other, (eq_iff u v).1 (append_cancel_left "USER_WALLET:" u v e)))))
]

-- The code of a text's first character.
abbrev first : String → ℕ
first String.[] = 0
first (String.◌∷◌ c s) = code c

first-wallet : (u : String) → first (wallet u) ≡ b'U'
first-wallet u = ap first (cons-append _ "SER_WALLET:" u)

first_expense : (c : String) → first (expense_clearing_id c) ≡ b'E'
first_expense c = ap first (cons-append _ "XPENSE_CLEARING:" c)

first_settlement : (c : String) → first (settlement_clearing_id c) ≡ b'S'
first_settlement c = ap first (cons-append _ "ETTLEMENT_CLEARING:" c)

pub expense_clearing-ne-wallet : (c u : String) → (expense_clearing_id c == wallet u) ≡ false
expense_clearing-ne-wallet c u =
    eq_false _ _ (λ e. absurd (omega (arith, ap first e, first_expense c, first-wallet u)))

pub settlement_clearing-ne-wallet : (c u : String) → (settlement_clearing_id c == wallet u) ≡ false
settlement_clearing-ne-wallet c u =
    eq_false _ _ (λ e. absurd (omega (arith, ap first e, first_settlement c, first-wallet u)))

pub wallet-ne-expense_clearing : (u c : String) → (wallet u == expense_clearing_id c) ≡ false
wallet-ne-expense_clearing u c =
    eq_false _ _ (λ e. absurd (omega (arith, ap first e, first_expense c, first-wallet u)))
