-- ===== src/DebtSimplifier/Order.antt =====
-- `simplify` of core/debt_simplifier.py on the same balances in another order.
use expense_settlement_engin.Common.{
  ℕ, ◌≡◌, refl, sym, ap, ◌∙◌, inl, inr, true, false, some, none, List, [], ◌∷◌, arith, String,
  if◌then◌else◌, Bool-cases,
}
use expense_settlement_engin.Common.Int.{ℤ, pos, ◌-ℤ◌, eqb_ℤ, eq_of_parts, sum_by}
use expense_settlement_engin.Common.Dict.{Dict}
use expense_settlement_engin.Common.Reordered.{
  Reordered, done_, keep, swap, via, sum_by-Reordered, length-Reordered,
}
use expense_settlement_engin.Common.Order.{ltb_str_asym, ltb_str_trans, ltb_str_total}
use expense_settlement_engin.DebtSimplifier.Heapq.{Item, Heap, ltb_item, heappush}
use expense_settlement_engin.DebtSimplifier.Simplify.{empty}
use expense_settlement_engin.DebtSimplifier.{
  Settlement, DebtSimplifierResult, Simplified, out_of_fuel, done, zero_sum_violation, match_loop,
  enough, Matching, push_balance, build_heaps, heaps_of, amount, report, simplify,
}

-- Tuples are in a strict total order.
item_asym : (x y : Item) → ltb_item x y ≡ true → ltb_item y x ≡ false
unfolding ltb_item
item_asym (a, s) (b, t) h = ground (arith, ltb_str_asym s t)

item_trans : (x y z : Item) → ltb_item x y ≡ true → ltb_item y z ≡ true → ltb_item x z ≡ true
unfolding ltb_item
item_trans (a, s) (b, t) (c, u) h k = ground (arith, ltb_str_trans s t u)

item_total : (x y : Item) → ltb_item x y ≡ false → ltb_item y x ≡ false → x ≡ y
unfolding ltb_item
item_total (a, s) (b, t) h k =
    let same : a ≡ b = eq_of_parts a b (ground arith) in
    let texts : s ≡ t = ltb_str_total s t (ground arith) (ground arith) in cc (same, texts)

-- Where a tuple stands does not depend on the order of the pushes.
heappush-heappush : (x y : Item) (h : Heap) → heappush x (heappush y h) ≡ heappush y (heappush x h)
unfolding heappush
heappush-heappush x y [] = elim (Bool-cases (ltb_item x y)) [
  | inl xy ↦ rw (xy, item_asym x y xy)
  | inr not_xy ↦ elim (Bool-cases (ltb_item y x)) [
    | inl yx ↦ rw (not_xy, yx)
    | inr not_yx ↦ rw (item_total x y not_xy not_yx)
  ]
]
heappush-heappush x y (z ∷ h) = ground (
  arith,
  item_asym x y,
  item_asym y x,
  item_total x y,
  item_trans x y z,
  item_trans y x z,
  item_asym y z,
  item_asym x z,
  item_trans x z y,
  item_trans y z x,
  heappush-heappush x y h,
)

push-push :
    (u v : String) (a b : ℤ) (m : Matching)
    → push_balance u a (push_balance v b m) ≡ push_balance v b (push_balance u a m)
unfolding push_balance
push-push u v a b m = ground (
  arith,
  heappush-heappush (pos 0 -ℤ a, u) (pos 0 -ℤ b, v) m.creditors,
  heappush-heappush (a, u) (b, v) m.debtors,
)

build-Reordered :
    {d e : Dict ℤ} → Reordered d e → (m : Matching) → build_heaps d m ≡ build_heaps e m
unfolding build_heaps
build-Reordered done_ m = refl
build-Reordered (keep x r) m = build-Reordered r (push_balance x.0 x.1 m)
build-Reordered (swap x y d) m = ap (build_heaps d) (push-push y.0 x.0 y.1 x.1 m)
build-Reordered (via r s) m = build-Reordered r m ∙ build-Reordered s m

-- `simplify`, on what it reads of its balances.
abbrev from_heaps : ℤ → Matching → (List Settlement → DebtSimplifierResult) → Simplified
from_heaps total heaps report_ =
    if eqb_ℤ total (pos 0)
    then elim (match_loop (enough heaps) heaps) [
      | none ↦ out_of_fuel
      | some settlements ↦ done (report_ settlements)
    ]
    else zero_sum_violation total

module _ (sha256 : String → String) (original : ℕ) where
  simplify-from_heaps :
      (d : Dict ℤ)
      → simplify sha256 d original
        ≡ from_heaps (sum_by amount d) (heaps_of d) (report sha256 d original)
  unfolding simplify
  simplify-from_heaps d = refl

  report-Reordered :
      {d e : Dict ℤ} (r : Reordered d e) (settlements : List Settlement)
      → report sha256 d original settlements ≡ report sha256 e original settlements
  unfolding report
  report-Reordered r settlements = rw (length-Reordered r)

  -- `simplify` does not depend on the order of the users: on the same balances in any other order it
  -- raises the same error or returns the very same result, settlements in the same order and
  -- checksum included.
  pub simplify-Reordered :
      (d e : Dict ℤ) → Reordered d e → simplify sha256 d original ≡ simplify sha256 e original
  unfolding heaps_of
  simplify-Reordered d e r =
      let heaps : heaps_of d ≡ heaps_of e = build-Reordered r empty in
      let total = sum_by-Reordered amount r in
      simplify-from_heaps d
      ∙ (λ i. from_heaps (total i) (heaps i) (λ s. report-Reordered r s i))
      ∙ sym (simplify-from_heaps e)
