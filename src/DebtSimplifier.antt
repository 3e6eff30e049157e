-- ===== src/DebtSimplifier.antt =====
-- core/debt_simplifier.py: the greedy matching of creditors with debtors, and the net balances.
-- Amounts are Python's unbounded integers, users are texts. The clock readings, which only fill
-- `execution_time_us`, and the text `algorithm_complexity` are left out.
pub mod Heapq
pub mod Round
pub mod Loop
pub mod Build
pub mod Simplify
pub mod Balances
pub mod Settle
pub mod Order
pub mod AnyOrder
use expense_settlement_engin.Common.{
  ℕ, zero, suc, ◌+◌, ◌-◌, ◌*◌, ◌/◌, max, ltb, Bool, true, false, Option, none, some, List, [], ◌∷◌,
  ◌++◌, map, String, length, if◌then◌else◌, ◌==◌,
}
use expense_settlement_engin.Common.Int.{ℤ, pos, ◌+ℤ◌, ◌-ℤ◌, ltb_ℤ, eqb_ℤ, min_ℤ, sum_by}
use expense_settlement_engin.Common.Dict.{Dict, get_or, insert, set_default}
use expense_settlement_engin.Common.Text.{ltb_str, str_ℤ, join, ◌⧺◌}
use Heapq.{Heap, heappush, heappop}

-- A payment that settles debt.
pub record Settlement : Type 0 where
  pub payer_id : String
  pub payee_id : String
  pub amount_cents : ℤ

-- The variables of the matching loop.
pub record Matching : Type 0 where
  pub creditors : Heap
  pub debtors : Heap
  pub settlements : List Settlement

-- The body of the loop over `net_balances.items()`.
unfoldable pub push_balance : String → ℤ → Matching → Matching
push_balance uid net m =
    if ltb_ℤ (pos 0) net
    then record m { creditors = heappush (pos 0 -ℤ net, uid) m.creditors }
    else if ltb_ℤ net (pos 0)
    then record m { debtors = heappush (net, uid) m.debtors }
    else m

unfoldable pub build_heaps : Dict ℤ → Matching → Matching
build_heaps [] m = m
build_heaps ((uid, net) ∷ d) m = build_heaps d (push_balance uid net m)

-- `if residual > 0: heappush(heap, (-residual, uid))`
unfoldable pub push_residual : ℤ → String → Heap → Heap
push_residual residual uid heap =
    if ltb_ℤ (pos 0) residual then heappush (pos 0 -ℤ residual, uid) heap else heap

-- The body of the matching loop, after both tuples have been popped.
unfoldable pub match_pair : ℤ → String → ℤ → String → Heap → Heap → List Settlement → Matching
match_pair neg_credit creditor_id neg_debt debtor_id creditors debtors settlements =
    let credit_amount = pos 0 -ℤ neg_credit in
    let debt_amount = pos 0 -ℤ neg_debt in
    let settled = min_ℤ credit_amount debt_amount in
    if ltb_ℤ settled (pos 1)
    then record { creditors = creditors; debtors = debtors; settlements = settlements }
    else record {
      creditors = push_residual (credit_amount -ℤ settled) creditor_id creditors;
      debtors = push_residual (debt_amount -ℤ settled) debtor_id debtors;
      settlements =
          settlements
          ++ record { payer_id = debtor_id; payee_id = creditor_id; amount_cents = settled } ∷ [];
    }

-- `while creditors and debtors`, on fuel; `none` means that the fuel ran out.
unfoldable pub match_loop : ℕ → Matching → Option (List Settlement)
match_loop zero m = none
match_loop (suc fuel) m = elim (heappop m.creditors) [
  | none ↦ some m.settlements
  | some (c, creditors) ↦ elim (heappop m.debtors) [
    | none ↦ some m.settlements
    | some (d, debtors) ↦
        match_loop fuel (match_pair c.0 c.1 d.0 d.1 creditors debtors m.settlements)
  ]
]

unfoldable pub heaps_of : Dict ℤ → Matching
unfolding push_balance build_heaps
heaps_of net_balances =
    build_heaps net_balances (record { creditors = []; debtors = []; settlements = [] })

-- Each round takes at least one tuple off the heaps for good.
abbrev pub enough : Matching → ℕ
enough m = suc (length m.creditors + length m.debtors)

abbrev pub amount : String × ℤ → ℤ
amount e = e.1

-- `sorted(settlements, key=lambda s: (s.payer_id, s.payee_id))`, which is stable.
unfoldable pub ltb_pair : Settlement → Settlement → Bool
ltb_pair s t =
    if ltb_str s.payer_id t.payer_id
    then true
    else if s.payer_id == t.payer_id
    then ltb_str s.payee_id t.payee_id
    else false

unfoldable pub insert_sorted : Settlement → List Settlement → List Settlement
unfolding ltb_pair
insert_sorted s [] = s ∷ []
insert_sorted s (t ∷ l) = if ltb_pair t s then t ∷ insert_sorted s l else s ∷ t ∷ l

unfoldable pub sort_settlements : List Settlement → List Settlement
unfolding insert_sorted
sort_settlements [] = []
sort_settlements (s ∷ l) = insert_sorted s (sort_settlements l)

unfoldable pub checksum_input : List Settlement → String
unfolding sort_settlements str_ℤ join
checksum_input settlements = join "|" (
    map (λ s. s.payer_id ⧺ ":" ⧺ s.payee_id ⧺ ":" ⧺ str_ℤ s.amount_cents)
      (sort_settlements settlements))

-- The ratio `1.0 - simplified / original` is kept as the two counts.
pub record DebtSimplifierResult : Type 0 where
  pub settlements : List Settlement
  pub original_transaction_count : ℕ
  pub simplified_transaction_count : ℕ
  pub checksum : String

-- What `simplify` does: it raises, it returns, or it would not have ended within the fuel.
pub data Simplified : Type 0 where
  zero_sum_violation : ℤ → Simplified
  done : DebtSimplifierResult → Simplified
  out_of_fuel : Simplified

-- `sha256` is `hashlib.sha256(text.encode()).hexdigest()`.
unfoldable pub report : (String → String) → Dict ℤ → ℕ → List Settlement → DebtSimplifierResult
unfolding checksum_input
report sha256 net_balances original_tx_count settlements =
    let n = length net_balances in
    record {
      settlements = settlements;
      original_transaction_count =
          if ltb 0 original_tx_count then original_tx_count else max 1 (n * (n - 1) / 2);
      simplified_transaction_count = length settlements;
      checksum = sha256 (checksum_input settlements);
    }

unfoldable pub simplify : (String → String) → Dict ℤ → ℕ → Simplified
unfolding heaps_of match_pair match_loop sum_by report
simplify sha256 net_balances original_tx_count =
    let total = sum_by amount net_balances in
    let heaps = heaps_of net_balances in
    if eqb_ℤ total (pos 0)
    then elim (match_loop (enough heaps) heaps) [
      | none ↦ out_of_fuel
      | some settlements ↦ done (report sha256 net_balances original_tx_count settlements)
    ]
    else zero_sum_violation total

-- One user's share of an expense.
pub record Split : Type 0 where
  pub user_id : String
  pub amount_cents : ℤ

pub record Transaction : Type 0 where
  pub payer_id : String
  pub splits : List Split

-- `balances[uid] += delta`, on a key that is there.
abbrev pub add_to : String → ℤ → Dict ℤ → Dict ℤ
add_to uid delta balances = insert uid (get_or uid (pos 0) balances +ℤ delta) balances

-- The body of the loop over `tx["splits"]`.
unfoldable pub apply_split : String → Split → Dict ℤ → Dict ℤ
apply_split payer split balances =
    let uid = split.user_id in
    let there = set_default uid (pos 0) (set_default payer (pos 0) balances) in
    if uid == payer
    then there
    else add_to uid (pos 0 -ℤ split.amount_cents) (add_to payer split.amount_cents there)

unfoldable pub apply_splits : String → List Split → Dict ℤ → Dict ℤ
unfolding apply_split
apply_splits payer [] balances = balances
apply_splits payer (s ∷ l) balances = apply_splits payer l (apply_split payer s balances)

unfoldable pub apply_transactions : List Transaction → Dict ℤ → Dict ℤ
unfolding apply_splits
apply_transactions [] balances = balances
apply_transactions (tx ∷ txs) balances =
    apply_transactions txs (apply_splits tx.payer_id tx.splits balances)

unfoldable pub compute_net_balances : List Transaction → Dict ℤ
unfolding apply_transactions
compute_net_balances transactions = apply_transactions transactions []
