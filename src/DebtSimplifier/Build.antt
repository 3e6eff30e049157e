-- ===== src/DebtSimplifier/Build.antt =====
-- The heaps that core/debt_simplifier.py builds from the net balances.
use expense_settlement_engin.Common.{
  suc, ◌+◌, ◌≤◌, ◌≡◌, refl, ◌∙◌, inl, inr, false, some, [], ◌∷◌, arith, String, length,
  if◌then◌else◌, ◌==◌, eq_iff, All, All-map, Bool-cases,
}
use expense_settlement_engin.Common.Int.{ℤ, pos, ◌+ℤ◌, ◌-ℤ◌, ◌<ℤ◌, ltb_ℤ, sum_by, int_laws}
use expense_settlement_engin.Common.Dict.{
  Dict, lookup, get_or, contains, HasDistinctKeys, lookup-entries,
}
use expense_settlement_engin.DebtSimplifier.Heapq.{length-heappush, sum_by-heappush, All-heappush}
use expense_settlement_engin.DebtSimplifier.Round.{share_of, heap_amount, IsNegative, position}
use expense_settlement_engin.DebtSimplifier.{Matching, push_balance, build_heaps, amount}

abbrev pub entry_of : String → String × ℤ → ℤ
entry_of u e = if e.0 == u then e.1 else pos 0

module _ (C D : String → Type 0) where
  -- What the heaps hold, at any point of the loop that builds them.
  pub record IsBuilt (m : Matching) : Type 0 where
    pub creditors_negative : All IsNegative m.creditors
    pub debtors_negative : All IsNegative m.debtors
    pub creditors_known : All (λ e. C e.1) m.creditors
    pub debtors_known : All (λ e. D e.1) m.debtors

  push_balance-IsBuilt :
      (uid : String) (net : ℤ) (m : Matching)
      → (pos 0 <ℤ net → C uid)
      → (net <ℤ pos 0 → D uid)
      → IsBuilt m
      → IsBuilt (push_balance uid net m)
  unfolding push_balance
  push_balance-IsBuilt uid net m c d b = elim (Bool-cases (ltb_ℤ (pos 0) net)) [
    | inl more ↦ rw more (record {
      creditors_negative =
          All-heappush IsNegative _ m.creditors (grind int_laws) b.creditors_negative;
      debtors_negative = b.debtors_negative;
      creditors_known =
          All-heappush (λ e. C e.1) _ m.creditors (c (ground arith)) b.creditors_known;
      debtors_known = b.debtors_known;
    })
    | inr not_more ↦ rw not_more (elim (Bool-cases (ltb_ℤ net (pos 0))) [
      | inl less ↦ rw less (record {
        creditors_negative = b.creditors_negative;
        debtors_negative = All-heappush IsNegative _ m.debtors (ground arith) b.debtors_negative;
        creditors_known = b.creditors_known;
        debtors_known = All-heappush (λ e. D e.1) _ m.debtors (d (ground arith)) b.debtors_known;
      })
      | inr settled ↦ rw settled b
    ])
  ]

  abbrev IsKnown : String × ℤ → Type 0
  IsKnown e = (pos 0 <ℤ e.1 → C e.0) × (e.1 <ℤ pos 0 → D e.0)

  pub build_heaps-IsBuilt :
      (d : Dict ℤ) (m : Matching) → All IsKnown d → IsBuilt m → IsBuilt (build_heaps d m)
  unfolding build_heaps
  build_heaps-IsBuilt [] m k b = b
  build_heaps-IsBuilt ((uid, net) ∷ d) m k b =
      build_heaps-IsBuilt d (push_balance uid net m) k.1
        (push_balance-IsBuilt uid net m k.0.0 k.0.1 b)

abbrev surplus : Matching → ℤ
surplus m = sum_by heap_amount m.debtors -ℤ sum_by heap_amount m.creditors

surplus-push_balance :
    (uid : String) (net : ℤ) (m : Matching) → surplus (push_balance uid net m) ≡ surplus m +ℤ net
unfolding push_balance
surplus-push_balance uid net m = grind (
  int_laws,
  sum_by-heappush heap_amount (pos 0 -ℤ net, uid) m.creditors,
  sum_by-heappush heap_amount (net, uid) m.debtors,
)

position-push_balance :
    (u uid : String) (net : ℤ) (m : Matching)
    → position u (push_balance uid net m) ≡ position u m +ℤ entry_of u (uid, net)
unfolding push_balance
position-push_balance u uid net m = grind (
  int_laws,
  sum_by-heappush (share_of u) (pos 0 -ℤ net, uid) m.creditors,
  sum_by-heappush (share_of u) (net, uid) m.debtors,
)

length-push_balance :
    (uid : String) (net : ℤ) (m : Matching)
    → let m' = push_balance uid net m in
      length m'.creditors + length m'.debtors ≤ suc (length m.creditors + length m.debtors)
unfolding push_balance
length-push_balance uid net m =
    ground
      (arith, length-heappush (pos 0 -ℤ net, uid) m.creditors, length-heappush (net, uid) m.debtors)

pub surplus-build_heaps :
    (d : Dict ℤ) (m : Matching) → surplus (build_heaps d m) ≡ surplus m +ℤ sum_by amount d
unfolding build_heaps sum_by
surplus-build_heaps [] m = omega int_laws
surplus-build_heaps ((uid, net) ∷ d) m =
    rw (surplus-build_heaps d (push_balance uid net m), surplus-push_balance) (omega int_laws)

pub position-build_heaps :
    (u : String) (d : Dict ℤ) (m : Matching)
    → position u (build_heaps d m) ≡ position u m +ℤ sum_by (entry_of u) d
unfolding build_heaps sum_by
position-build_heaps u [] m = omega int_laws
position-build_heaps u ((uid, net) ∷ d) m =
    rw (position-build_heaps u d (push_balance uid net m), position-push_balance) (omega int_laws)

pub length-build_heaps :
    (d : Dict ℤ) (m : Matching)
    → let m' = build_heaps d m in
      length m'.creditors + length m'.debtors ≤ length d + (length m.creditors + length m.debtors)
unfolding build_heaps
length-build_heaps [] m = omega arith
length-build_heaps ((uid, net) ∷ d) m =
    omega (arith, length-build_heaps d (push_balance uid net m), length-push_balance uid net m)

push_settlements :
    (uid : String) (net : ℤ) (m : Matching) → (push_balance uid net m).settlements ≡ m.settlements
unfolding push_balance
push_settlements uid net m = ground arith

pub build_settlements : (d : Dict ℤ) (m : Matching) → (build_heaps d m).settlements ≡ m.settlements
unfolding build_heaps
build_settlements [] m = refl
build_settlements ((uid, net) ∷ d) m =
    build_settlements d (push_balance uid net m) ∙ push_settlements uid net m

sum_entries_absent :
    (u : String) (d : Dict ℤ) → contains u d ≡ false → sum_by (entry_of u) d ≡ pos 0
unfolding lookup sum_by
sum_entries_absent u [] h = refl
sum_entries_absent u ((k, v) ∷ d) h = grind (int_laws, sum_entries_absent u d)

pub sum_entries :
    (u : String) (d : Dict ℤ) → HasDistinctKeys d → sum_by (entry_of u) d ≡ get_or u (pos 0) d
unfolding lookup sum_by HasDistinctKeys
sum_entries u [] h = refl
sum_entries u ((k, v) ∷ d) h =
    grind (int_laws, eq_iff k u, sum_entries u d h.1, sum_entries_absent u d)

-- A creditor's balance is above zero, a debtor's below.
abbrev pub IsCreditor : Dict ℤ → String → Type 0
IsCreditor d u = pos 0 <ℤ get_or u (pos 0) d

abbrev pub IsDebtor : Dict ℤ → String → Type 0
IsDebtor d u = get_or u (pos 0) d <ℤ pos 0

pub entries-IsKnown : (d : Dict ℤ) → HasDistinctKeys d → All (IsKnown (IsCreditor d) (IsDebtor d)) d
entries-IsKnown d h =
    All-map (λ e. lookup e.0 d ≡ some e.1) _ d
      (λ e found. (λ more. rw (found, get_or) more, λ less. rw (found, get_or) less))
      (lookup-entries d h)
