-- ===== src/Tests/Debts.antt =====
-- core/debt_simplifier.py on a trip of three friends.
use expense_settlement_engin.Common.{
  ℕ, ◌-◌, ◌≤◌, ◌≡◌, ◌≢◌, refl, List, [], ◌∷◌, String, length, All,
}
use expense_settlement_engin.Common.Int.{ℤ, pos, negsuc, ◌+ℤ◌, ◌-ℤ◌, ◌≤ℤ◌, sum_by}
use expense_settlement_engin.Common.Dict.{Dict, lookup, get_or, insert, HasDistinctKeys}
use expense_settlement_engin.DebtSimplifier.Heapq.{ltb_item, heappush}
use expense_settlement_engin.DebtSimplifier.Round.{net_received}
use expense_settlement_engin.DebtSimplifier.Balances.{due_from}
use expense_settlement_engin.DebtSimplifier.Build.{IsCreditor, IsDebtor}
use expense_settlement_engin.DebtSimplifier.Simplify.{
  simplify-settles, simplify_sound, simplify_count,
}
use expense_settlement_engin.Common.Reordered.{keep, swap, via}
use expense_settlement_engin.DebtSimplifier.AnyOrder.{simplify_any_order}
use expense_settlement_engin.DebtSimplifier.Settle.{simplify_transactions}
use expense_settlement_engin.DebtSimplifier.{
  Settlement, DebtSimplifierResult, amount, simplify, done, Split, Transaction,
  compute_net_balances, push_residual,
}

program : Unit {0}
unfolding ltb_item heappush push_residual simplify compute_net_balances lookup insert ◌+ℤ◌ ◌-ℤ◌
    sum_by
program = tt

abbrev same : String → String
same s = s

abbrev split : String → ℕ → Split
split u n = record { user_id = u; amount_cents = pos n }

abbrev trip : List Transaction
trip =
    record { payer_id = "ann"; splits = split "ann" 30 ∷ split "bob" 30 ∷ split "cat" 30 ∷ [] }
    ∷ record { payer_id = "bob"; splits = split "bob" 10 ∷ split "cat" 10 ∷ [] }
    ∷ []

abbrev net : Dict ℤ
net = ("ann", pos 60) ∷ ("bob", negsuc 19) ∷ ("cat", negsuc 39) ∷ []

trip-net : compute_net_balances trip ≡ net
unfolding program
trip-net = refl

abbrev pay : String → String → ℕ → Settlement
pay payer payee n = record { payer_id = payer; payee_id = payee; amount_cents = pos n }

abbrev result : DebtSimplifierResult
result = record {
  settlements = pay "cat" "ann" 40 ∷ pay "bob" "ann" 20 ∷ [];
  original_transaction_count = 3;
  simplified_transaction_count = 2;
  checksum = "bob:ann:20|cat:ann:40";
}

trip_result : simplify same net 0 ≡ done result
unfolding program
trip_result = refl

net-HasDistinctKeys : HasDistinctKeys net
unfolding HasDistinctKeys lookup
net-HasDistinctKeys = (refl, (refl, (refl, tt)))

net_zero : sum_by amount net ≡ pos 0
unfolding program
net_zero = refl

simplify-settles_example :
    (r : DebtSimplifierResult) × (simplify same net 0 ≡ done r)
    × ((u : String) → sum_by (net_received u) r.settlements ≡ get_or u (pos 0) net)
simplify-settles_example = simplify-settles same net 0 net-HasDistinctKeys net_zero

simplify_sound_example :
    All
      (λ s.
        IsDebtor net s.payer_id
        × IsCreditor net s.payee_id
        × (pos 1 ≤ℤ s.amount_cents)
        × (s.payer_id ≢ s.payee_id))
      result.settlements
simplify_sound_example = simplify_sound same net 0 net-HasDistinctKeys trip_result

simplify_count_example : (2 ≡ length result.settlements) × (2 ≤ length net - 1)
simplify_count_example = simplify_count same net 0 net-HasDistinctKeys trip_result

simplify_transactions_example :
    (r : DebtSimplifierResult) × (simplify same (compute_net_balances trip) 0 ≡ done r)
    × ((u : String) → sum_by (net_received u) r.settlements ≡ sum_by (due_from u) trip)
simplify_transactions_example = simplify_transactions same trip 0

abbrev lunch : Transaction
lunch = record { payer_id = "ann"; splits = split "ann" 30 ∷ split "bob" 30 ∷ split "cat" 30 ∷ [] }

abbrev ride : Transaction
ride = record { payer_id = "bob"; splits = split "bob" 10 ∷ split "cat" 10 ∷ [] }

simplify_any_order_example :
    simplify same (compute_net_balances (lunch ∷ ride ∷ ride ∷ [])) 3
    ≡ simplify same (compute_net_balances (ride ∷ ride ∷ lunch ∷ [])) 3
simplify_any_order_example =
    simplify_any_order same 3 (lunch ∷ ride ∷ ride ∷ []) (ride ∷ ride ∷ lunch ∷ [])
      (via (swap lunch ride (ride ∷ [])) (keep ride (swap lunch ride [])))
