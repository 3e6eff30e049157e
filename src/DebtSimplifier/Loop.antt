-- ===== src/DebtSimplifier/Loop.antt =====
-- The matching loop of core/debt_simplifier.py and its fuel.
use expense_settlement_engin.Common.{
  ℕ, zero, suc, ◌+◌, ◌-◌, ◌≤◌, ◌<◌, ◌≡◌, ◌≢◌, ◌∙◌, refl, sym, some, List, [], ◌∷◌, arith, String,
  length, All,
}
use expense_settlement_engin.Common.Int.{pos, ◌<ℤ◌, sum_by, parts_of_eq, int_laws}
use expense_settlement_engin.DebtSimplifier.Heapq.{Item, Heap}
use expense_settlement_engin.DebtSimplifier.Round.{
  heap_amount, IsNegative, IsBalanced, Between, net_received, position, match_pair-IsBalanced,
  position-match_pair, match_pair_counts, match_pair-All,
}
use expense_settlement_engin.DebtSimplifier.{Settlement, Matching, match_pair, match_loop}

sum_negative : (e : Item) (h : Heap) → All IsNegative (e ∷ h) → sum_by heap_amount (e ∷ h) <ℤ pos 0
unfolding sum_by
sum_negative e [] n = omega (int_laws, n.0)
sum_negative e (x ∷ h) n = omega (int_laws, n.0, sum_negative x h n.1)

-- What a run that began at `m` returns.
pub record Settles (C D : String → Type 0) (m : Matching) (out : List Settlement) : Type 0 where
  pub pays : (u : String) → sum_by (net_received u) out ≡ position u m
  pub between : All (Between C D) m.settlements → All (Between C D) out
  pub count : length out ≤ length m.settlements + (length m.creditors + length m.debtors - 1)

abbrev pub state : Heap → Heap → List Settlement → Matching
state cs ds acc = record { creditors = cs; debtors = ds; settlements = acc }

-- One heap is empty only if both are.
not_one_sided : (e : Item) (h : Heap) → All IsNegative (e ∷ h) → sum_by heap_amount (e ∷ h) ≢ pos 0
not_one_sided e h n s = absurd (omega (int_laws, sum_negative e h n, parts_of_eq _ _ s))

position-done :
    (u : String) (acc : List Settlement)
    → sum_by (net_received u) acc ≡ position u (state [] [] acc)
unfolding sum_by
position-done u acc = omega int_laws

module _ (C D : String → Type 0) where
  pub run_settles :
      (fuel : ℕ) (cs ds : Heap) (acc : List Settlement)
      → length cs + length ds < fuel
      → IsBalanced (state cs ds acc)
      → All (λ e. C e.1) cs
      → All (λ e. D e.1) ds
      → (out : List Settlement) × (match_loop fuel (state cs ds acc) ≡ some out)
        × Settles C D (state cs ds acc) out
  unfolding match_loop sum_by
  run_settles zero cs ds acc lt b hc hd = absurd (omega arith)
  run_settles (suc fuel) [] [] acc lt b hc hd =
      (acc, refl, record { pays = λ u. position-done u acc; between = λ h. h; count = omega arith })
  run_settles (suc fuel) [] (d ∷ ds) acc lt b hc hd =
      absurd (not_one_sided d ds b.debtors_negative (sym b.same_sum))
  run_settles (suc fuel) (c ∷ cs) [] acc lt b hc hd =
      absurd (not_one_sided c cs b.creditors_negative b.same_sum)
  run_settles (suc fuel) ((x, cid) ∷ cs) ((y, did) ∷ ds) acc lt b hc hd =
      let p = b.creditors_negative.0 in
      let q = b.debtors_negative.0 in
      let m = match_pair x cid y did cs ds acc in
      let counts = match_pair_counts x cid y did cs ds acc p q in
      let keeps = match_pair-All x cid y did cs ds acc p q C D hc hd in
      let (out, ends, s) =
        run_settles fuel m.creditors m.debtors m.settlements (omega (arith, counts.1))
          (match_pair-IsBalanced x cid y did cs ds acc p q b) keeps.0 keeps.1 in
      (
        out,
        ends,
        record {
          pays = λ u. s.pays u ∙ position-match_pair x cid y did cs ds acc p q u;
          between = λ h. s.between (keeps.2 h);
          count = omega (arith, s.count, counts.0, counts.1);
        },
      )
