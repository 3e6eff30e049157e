-- ===== src/DebtSimplifier/Balances.antt =====
-- `compute_net_balances` of core/debt_simplifier.py: sums and single balances.
use expense_settlement_engin.Common.{
  ◌≡◌, refl, ◌∙◌, inl, inr, Bool, true, false, List, [], ◌∷◌, arith, String, if◌then◌else◌, ◌==◌,
  eq_iff, Bool-cases,
}
use expense_settlement_engin.Common.Int.{ℤ, pos, ◌+ℤ◌, ◌-ℤ◌, sum_by, parts_of_eq, int_laws}
use expense_settlement_engin.Common.Dict.{
  Dict, lookup, get_or, insert, set_default, HasDistinctKeys, lookup-insert, insert-HasDistinctKeys,
  lookup-set_default,
}
use expense_settlement_engin.DebtSimplifier.{
  Split, Transaction, amount, add_to, apply_split, apply_splits, apply_transactions,
  compute_net_balances,
}

-- An update adds to the sum what it adds to its key.
sum_by-insert :
    (k : String) (v : ℤ) (d : Dict ℤ)
    → sum_by amount (insert k v d) +ℤ get_or k (pos 0) d ≡ sum_by amount d +ℤ v
unfolding sum_by insert lookup
sum_by-insert k v [] = omega int_laws
sum_by-insert k v ((j, w) ∷ d) = grind (int_laws, sum_by-insert k v d)

sum_by-add_to :
    (k : String) (v : ℤ) (d : Dict ℤ) → sum_by amount (add_to k v d) ≡ sum_by amount d +ℤ v
sum_by-add_to k v d =
    omega (int_laws, parts_of_eq _ _ (sum_by-insert k (get_or k (pos 0) d +ℤ v) d))

sum_by-set_default :
    (k : String) (d : Dict ℤ) → sum_by amount (set_default k (pos 0) d) ≡ sum_by amount d
sum_by-set_default k d = grind (int_laws, sum_by-insert k (pos 0) d)

get_or-add_to :
    (u k : String) (v : ℤ) (d : Dict ℤ)
    → get_or u (pos 0) (add_to k v d) ≡ get_or u (pos 0) d +ℤ (if k == u then v else pos 0)
get_or-add_to u k v d = grind (int_laws, eq_iff k u, lookup-insert k u (get_or k (pos 0) d +ℤ v) d)

get_or-set_default :
    (u k : String) (d : Dict ℤ) → get_or u (pos 0) (set_default k (pos 0) d) ≡ get_or u (pos 0) d
get_or-set_default u k d = grind (arith, eq_iff k u, lookup-set_default k u (pos 0) d)

add_to-HasDistinctKeys :
    (k : String) (v : ℤ) (d : Dict ℤ) → HasDistinctKeys d → HasDistinctKeys (add_to k v d)
add_to-HasDistinctKeys k v d h = insert-HasDistinctKeys k (get_or k (pos 0) d +ℤ v) d h

set_default-HasDistinctKeys :
    (k : String) (v : ℤ) (d : Dict ℤ) → HasDistinctKeys d → HasDistinctKeys (set_default k v d)
set_default-HasDistinctKeys k v d h = ground (arith, insert-HasDistinctKeys k v d h)

-- What one split changes for a user: the payer is owed it, its user owes it, and a payer's own
-- share changes nothing.
abbrev pub due : String → String → Split → ℤ
due u payer s =
    if s.user_id == payer
    then pos 0
    else (if payer == u then s.amount_cents else pos 0)
      -ℤ (if s.user_id == u then s.amount_cents else pos 0)

abbrev pub due_from : String → Transaction → ℤ
due_from u tx = sum_by (due u tx.payer_id) tx.splits

due_sum :
    (p q : Bool) (b x : ℤ)
    → b +ℤ (if p then x else pos 0) +ℤ (if q then pos 0 -ℤ x else pos 0)
      ≡ b +ℤ ((if p then x else pos 0) -ℤ (if q then x else pos 0))
due_sum p true b x = omega int_laws
due_sum p false b x = omega int_laws

module _ (payer : String) (s : Split) (d : Dict ℤ) where
  apply_split-HasDistinctKeys : HasDistinctKeys d → HasDistinctKeys (apply_split payer s d)
  unfolding apply_split
  apply_split-HasDistinctKeys h =
      let there = set_default s.user_id (pos 0) (set_default payer (pos 0) d) in
      let k =
        set_default-HasDistinctKeys s.user_id (pos 0) _
          (set_default-HasDistinctKeys payer (pos 0) d h) in
      elim (Bool-cases (s.user_id == payer)) [
        | inl own ↦ rw own k
        | inr other ↦
            rw other (add_to-HasDistinctKeys s.user_id _ _ (add_to-HasDistinctKeys payer _ there k))
      ]

  sum_by-apply_split : sum_by amount (apply_split payer s d) ≡ sum_by amount d
  unfolding apply_split
  sum_by-apply_split = elim (Bool-cases (s.user_id == payer)) [
    | inl own ↦ rw (own, sum_by-set_default, sum_by-set_default)
    | inr other ↦
        rw (other, sum_by-add_to, sum_by-add_to, sum_by-set_default, sum_by-set_default)
          (omega int_laws)
  ]

  get_or-apply_split :
      (u : String) → get_or u (pos 0) (apply_split payer s d) ≡ get_or u (pos 0) d +ℤ due u payer s
  unfolding apply_split
  get_or-apply_split u = elim (Bool-cases (s.user_id == payer)) [
    | inl own ↦ rw (own, get_or-set_default, get_or-set_default) (omega int_laws)
    | inr other ↦
        rw (other, get_or-add_to, get_or-add_to, get_or-set_default, get_or-set_default)
          (due_sum (payer == u) (s.user_id == u) (get_or u (pos 0) d) s.amount_cents)
  ]

-- What holds of balances from `b` on, after some splits that change the balance of `u` by `change u`.
record Moves (b : Dict ℤ) (change : String → ℤ) (b' : Dict ℤ) : Type 0 where
  distinct : HasDistinctKeys b → HasDistinctKeys b'
  same_sum : sum_by amount b' ≡ sum_by amount b
  moved : (u : String) → get_or u (pos 0) b' ≡ get_or u (pos 0) b +ℤ change u

apply_splits-Moves :
    (payer : String) (l : List Split) (b : Dict ℤ)
    → Moves b (λ u. sum_by (due u payer) l) (apply_splits payer l b)
unfolding apply_splits sum_by
apply_splits-Moves payer [] b = record {
  distinct = λ h. h;
  same_sum = refl;
  moved = λ u. omega int_laws;
}
apply_splits-Moves payer (s ∷ l) b =
    let m = apply_splits-Moves payer l (apply_split payer s b) in
    record {
      distinct = λ h. m.distinct (apply_split-HasDistinctKeys payer s b h);
      same_sum = m.same_sum ∙ sum_by-apply_split payer s b;
      moved = λ u. rw (m.moved u, get_or-apply_split) (omega int_laws);
    }

apply_transactions-Moves :
    (txs : List Transaction) (b : Dict ℤ)
    → Moves b (λ u. sum_by (due_from u) txs) (apply_transactions txs b)
unfolding apply_transactions sum_by
apply_transactions-Moves [] b = record {
  distinct = λ h. h;
  same_sum = refl;
  moved = λ u. omega int_laws;
}
apply_transactions-Moves (tx ∷ txs) b =
    let m = apply_transactions-Moves txs (apply_splits tx.payer_id tx.splits b) in
    let f = apply_splits-Moves tx.payer_id tx.splits b in
    record {
      distinct = λ h. m.distinct (f.distinct h);
      same_sum = m.same_sum ∙ f.same_sum;
      moved = λ u. rw (m.moved u, f.moved u) (omega int_laws);
    }

module _ (txs : List Transaction) where
  pub net_balances-HasDistinctKeys : HasDistinctKeys (compute_net_balances txs)
  unfolding compute_net_balances HasDistinctKeys
  net_balances-HasDistinctKeys = (apply_transactions-Moves txs []).distinct tt

  -- Whatever the transactions, the net balances sum to zero: money is conserved.
  pub net_balances_zero_sum : sum_by amount (compute_net_balances txs) ≡ pos 0
  unfolding compute_net_balances sum_by
  net_balances_zero_sum = (apply_transactions-Moves txs []).same_sum

  -- The net balance of a user is the sum, over all splits of other users than the payer, of what
  -- the user is owed as the payer less what the user owes; a user who is in no split has none.
  pub net_balance-eq-due :
      (u : String) → get_or u (pos 0) (compute_net_balances txs) ≡ sum_by (due_from u) txs
  unfolding compute_net_balances lookup
  net_balance-eq-due u = rw ((apply_transactions-Moves txs []).moved u) (omega int_laws)
