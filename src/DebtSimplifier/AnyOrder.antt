-- ===== src/DebtSimplifier/AnyOrder.antt =====
-- `compute_net_balances`, then `simplify`, of core/debt_simplifier.py, on the same transactions in
-- another order.
use expense_settlement_engin.Common.{
  ◌≡◌, refl, ◌∙◌, inl, inr, Bool, true, false, List, [], ◌∷◌, arith, String, if◌then◌else◌, ◌==◌,
  eq_iff, Bool-cases, ℕ, sym,
}
use expense_settlement_engin.Common.Int.{ℤ, pos}
use expense_settlement_engin.Common.Dict.{
  Dict, lookup, get_or, contains, insert, set_default, lookup-insert,
}
use expense_settlement_engin.Common.Reordered.{
  Reordered, done_, keep, swap, via, sum_by-Reordered, same_lookups-Reordered,
}
use expense_settlement_engin.DebtSimplifier.Balances.{
  due_from, net_balances-HasDistinctKeys, net_balance-eq-due,
}
use expense_settlement_engin.DebtSimplifier.Order.{simplify-Reordered}
use expense_settlement_engin.DebtSimplifier.{
  Split, Transaction, apply_split, apply_splits, apply_transactions, compute_net_balances, simplify,
}

-- Whether splits that `payer` paid for give user `u` an entry.
named_in_splits : String → String → List Split → Bool
named_in_splits u payer [] = false
named_in_splits u payer (s ∷ l) =
    if payer == u then true else if s.user_id == u then true else named_in_splits u payer l

named : String → List Transaction → Bool
named u [] = false
named u (tx ∷ txs) = if named_in_splits u tx.payer_id tx.splits then true else named u txs

contains-insert_iff :
    (u k : String) (v : ℤ) (d : Dict ℤ)
    → contains u (insert k v d) ≡ (if k == u then true else contains u d)
contains-insert_iff u k v d = ground (arith, lookup-insert k u v d)

contains-set_default :
    (u k : String) (v : ℤ) (d : Dict ℤ)
    → contains u (set_default k v d) ≡ (if k == u then true else contains u d)
contains-set_default u k v d = ground (arith, eq_iff k u, contains-insert_iff u k v d)

contains-apply_split :
    (u payer : String) (s : Split) (b : Dict ℤ)
    → contains u (apply_split payer s b)
      ≡ (if payer == u then true else if s.user_id == u then true else contains u b)
unfolding apply_split
contains-apply_split u payer s b = elim (Bool-cases (s.user_id == payer)) [
  | inl own ↦
      rw (own, contains-set_default, contains-set_default) (ground (arith, eq_iff s.user_id payer))
  | inr other ↦
      rw
        (
          other, contains-insert_iff, contains-insert_iff, contains-set_default,
          contains-set_default,
        )
        (ground arith)
]

contains-apply_splits :
    (u payer : String) (l : List Split) (b : Dict ℤ)
    → contains u (apply_splits payer l b)
      ≡ (if named_in_splits u payer l then true else contains u b)
unfolding apply_splits named_in_splits
contains-apply_splits u payer [] b = refl
contains-apply_splits u payer (s ∷ l) b = ground (
  arith,
  contains-apply_splits u payer l (apply_split payer s b),
  contains-apply_split u payer s b,
)

contains-apply_transactions :
    (u : String) (txs : List Transaction) (b : Dict ℤ)
    → contains u (apply_transactions txs b) ≡ (if named u txs then true else contains u b)
unfolding apply_transactions named
contains-apply_transactions u [] b = refl
contains-apply_transactions u (tx ∷ txs) b = ground (
  arith,
  contains-apply_transactions u txs (apply_splits tx.payer_id tx.splits b),
  contains-apply_splits u tx.payer_id tx.splits b,
)

named-Reordered :
    (u : String) {txs txs' : List Transaction} → Reordered txs txs' → named u txs ≡ named u txs'
unfolding named
named-Reordered u done_ = refl
named-Reordered u (keep x r) = rw (named-Reordered u r)
named-Reordered u (swap x y d) = ground arith
named-Reordered u (via r s) = named-Reordered u r ∙ named-Reordered u s

-- A dict of numbers finds what its keys and its values with a default of zero say.
lookup-parts :
    (u : String) (d e : Dict ℤ)
    → contains u d ≡ contains u e
    → get_or u (pos 0) d ≡ get_or u (pos 0) e
    → lookup u d ≡ lookup u e
lookup-parts u d e h k = ground arith

module _ {txs txs' : List Transaction} (r : Reordered txs txs') where
  contains-Reordered :
      (u : String) → contains u (compute_net_balances txs) ≡ contains u (compute_net_balances txs')
  unfolding compute_net_balances lookup
  contains-Reordered u = rw (
    contains-apply_transactions u txs [],
    contains-apply_transactions u txs' [],
    named-Reordered u r,
  )

  balances-Reordered : Reordered (compute_net_balances txs) (compute_net_balances txs')
  balances-Reordered =
      same_lookups-Reordered _ _ (net_balances-HasDistinctKeys txs)
        (net_balances-HasDistinctKeys txs')
        (λ u. lookup-parts u _ _ (contains-Reordered u) (
          net_balance-eq-due txs u
          ∙ sum_by-Reordered (due_from u) r
          ∙ sym (net_balance-eq-due txs' u)))

-- The settlements do not depend on the order of the transactions: on the net balances of the same
-- transactions in any other order `simplify` returns the very same result, settlements in the same
-- order and checksum included.
pub simplify_any_order :
    (sha256 : String → String) (original : ℕ) (txs txs' : List Transaction)
    → Reordered txs txs'
    → simplify sha256 (compute_net_balances txs) original
      ≡ simplify sha256 (compute_net_balances txs') original
simplify_any_order sha256 original txs txs' r =
    simplify-Reordered sha256 original _ _ (balances-Reordered r)
