-- ===== src/DebtSimplifier/Round.antt =====
-- One round of the matching loop of core/debt_simplifier.py: what `match_pair` keeps.
use expense_settlement_engin.Common.{
  suc, ◌+◌, ◌≤◌, ◌≡◌, ◌⊎◌, inl, inr, Bool, true, false, List, [], ◌∷◌, ◌++◌, arith, String, length,
  length-append, if◌then◌else◌, ◌==◌, All, All-append, Bool-cases,
}
use expense_settlement_engin.Common.Int.{
  ℤ, pos, ◌+ℤ◌, ◌-ℤ◌, ◌≤ℤ◌, ◌<ℤ◌, ltb_ℤ, min_ℤ, sum_by, sum_by-append, parts_of_eq, int_laws,
}
use expense_settlement_engin.DebtSimplifier.Heapq.{
  Item, Heap, length-heappush, sum_by-heappush, All-heappush,
}
use expense_settlement_engin.DebtSimplifier.{Settlement, Matching, push_residual, match_pair}

-- The amount that a user has in a heap.
abbrev pub share_of : String → Item → ℤ
share_of u e = if e.1 == u then e.0 else pos 0

-- What a settlement brings to a user.
abbrev pub net_received : String → Settlement → ℤ
net_received u s =
    (if s.payee_id == u then s.amount_cents else pos 0)
    -ℤ (if s.payer_id == u then s.amount_cents else pos 0)

-- What the user is still owed, and what the settlements so far brought.
abbrev pub position : String → Matching → ℤ
position u m =
    sum_by (share_of u) m.debtors
    -ℤ sum_by (share_of u) m.creditors
    +ℤ sum_by (net_received u) m.settlements

abbrev pub heap_amount : Item → ℤ
heap_amount e = e.0

-- Both heaps hold negative amounts, with the same sum.
abbrev pub IsNegative : Item → Type 0
IsNegative e = e.0 <ℤ pos 0

pub record IsBalanced (m : Matching) : Type 0 where
  pub creditors_negative : All IsNegative m.creditors
  pub debtors_negative : All IsNegative m.debtors
  pub same_sum : sum_by heap_amount m.creditors ≡ sum_by heap_amount m.debtors

-- A payment of at least one cent, from a user of `D` to a user of `C`.
abbrev pub Between : (String → Type 0) → (String → Type 0) → Settlement → Type 0
Between C D s = D s.payer_id × C s.payee_id × (pos 1 ≤ℤ s.amount_cents)

module _ (r : ℤ) (uid : String) (h : Heap) where
  sum_amount-push_residual :
      pos 0 ≤ℤ r → sum_by heap_amount (push_residual r uid h) +ℤ r ≡ sum_by heap_amount h
  unfolding push_residual
  sum_amount-push_residual p = grind (int_laws, sum_by-heappush heap_amount (pos 0 -ℤ r, uid) h)

  sum_share-push_residual :
      (u : String)
      → pos 0 ≤ℤ r
      → sum_by (share_of u) (push_residual r uid h) +ℤ (if uid == u then r else pos 0)
        ≡ sum_by (share_of u) h
  unfolding push_residual
  sum_share-push_residual u p = grind (int_laws, sum_by-heappush (share_of u) (pos 0 -ℤ r, uid) h)

  push_residual-IsNegative : All IsNegative h → All IsNegative (push_residual r uid h)
  unfolding push_residual
  push_residual-IsNegative k = elim (Bool-cases (ltb_ℤ (pos 0) r)) [
    | inl more ↦ rw more (All-heappush IsNegative (pos 0 -ℤ r, uid) h (grind int_laws) k)
    | inr settled ↦ rw settled k
  ]

  All-push_residual :
      (P : Item → Type 0) → ((a : ℤ) → P (a, uid)) → All P h → All P (push_residual r uid h)
  unfolding push_residual
  All-push_residual P p k = elim (Bool-cases (ltb_ℤ (pos 0) r)) [
    | inl more ↦ rw more (All-heappush P (pos 0 -ℤ r, uid) h (p _) k)
    | inr settled ↦ rw settled k
  ]

  length-push_residual :
      length (push_residual r uid h) ≡ (if ltb_ℤ (pos 0) r then suc (length h) else length h)
  unfolding push_residual
  length-push_residual = ground (arith, length-heappush (pos 0 -ℤ r, uid) h)

-- The amount that a round settles.
abbrev pub settled_of : ℤ → ℤ → ℤ
settled_of a b = min_ℤ (pos 0 -ℤ a) (pos 0 -ℤ b)

settled_bounds :
    (a b : ℤ)
    → a <ℤ pos 0
    → b <ℤ pos 0
    → (pos 1 ≤ℤ settled_of a b)
      × (settled_of a b ≤ℤ pos 0 -ℤ a)
      × (settled_of a b ≤ℤ pos 0 -ℤ b)
      × ((settled_of a b ≡ pos 0 -ℤ a) ⊎ (settled_of a b ≡ pos 0 -ℤ b))
settled_bounds a b p q = grind int_laws

settled_test : (a b : ℤ) → a <ℤ pos 0 → b <ℤ pos 0 → ltb_ℤ (settled_of a b) (pos 1) ≡ false
settled_test a b p q = grind (arith, settled_bounds a b p q)

if_split :
    (t : Bool) (a s : ℤ)
    → (if t then pos 0 -ℤ a -ℤ s else pos 0) +ℤ (if t then s else pos 0) +ℤ (if t then a else pos 0)
      ≡ pos 0
if_split true a s = omega int_laws
if_split false a s = omega int_laws

regroup :
    (d c d' c' paid xc xd pc pd ac bd : ℤ)
    → c' +ℤ xc ≡ c
    → d' +ℤ xd ≡ d
    → xc +ℤ pc +ℤ ac ≡ pos 0
    → xd +ℤ pd +ℤ bd ≡ pos 0
    → d' -ℤ c' +ℤ (paid +ℤ (pc -ℤ pd +ℤ pos 0)) ≡ (bd +ℤ d) -ℤ (ac +ℤ c) +ℤ paid
regroup d c d' c' paid xc xd pc pd ac bd e f g h =
    omega (int_laws, parts_of_eq _ _ e, parts_of_eq _ _ f, parts_of_eq _ _ g, parts_of_eq _ _ h)

module _ (a : ℤ) (cid : String) (b : ℤ) (did : String) (cs ds : Heap) (acc : List Settlement) where
  abbrev before : Matching
  before = record { creditors = (a, cid) ∷ cs; debtors = (b, did) ∷ ds; settlements = acc }

  abbrev after : Matching
  after = match_pair a cid b did cs ds acc

  abbrev payment : Settlement
  payment = record { payer_id = did; payee_id = cid; amount_cents = settled_of a b }

  module _ (p : a <ℤ pos 0) (q : b <ℤ pos 0) where
    -- A round of two positive amounts takes the second branch.
    pub match_pair-pays : after ≡ record {
      creditors = push_residual (pos 0 -ℤ a -ℤ settled_of a b) cid cs;
      debtors = push_residual (pos 0 -ℤ b -ℤ settled_of a b) did ds;
      settlements = acc ++ payment ∷ [];
    }
    unfolding match_pair
    match_pair-pays = rw (settled_test a b p q)

    pub match_pair-IsBalanced : IsBalanced before → IsBalanced after
    unfolding sum_by
    match_pair-IsBalanced h = rw match_pair-pays (record {
      creditors_negative = push_residual-IsNegative _ cid cs h.creditors_negative.1;
      debtors_negative = push_residual-IsNegative _ did ds h.debtors_negative.1;
      same_sum = grind (
        int_laws,
        settled_bounds a b p q,
        sum_amount-push_residual (pos 0 -ℤ a -ℤ settled_of a b) cid cs,
        sum_amount-push_residual (pos 0 -ℤ b -ℤ settled_of a b) did ds,
        h.same_sum,
      );
    })

    pub position-match_pair : (u : String) → position u after ≡ position u before
    unfolding sum_by
    position-match_pair u =
        let s = settled_of a b in
        let credit = pos 0 -ℤ a -ℤ s in
        let debt = pos 0 -ℤ b -ℤ s in
        rw (match_pair-pays, sum_by-append (net_received u) acc (payment ∷ []))
          (regroup _ _ _ _ _ _ _ _ _ _ _
            (sum_share-push_residual credit cid cs u (grind (int_laws, settled_bounds a b p q)))
            (sum_share-push_residual debt did ds u (grind (int_laws, settled_bounds a b p q)))
            (if_split (cid == u) a s) (if_split (did == u) b s))

    -- A payment settles one side of the round at least: what is left on the heaps, with the
    -- payments made, counts no more than before.
    pub match_pair_counts :
        (length after.settlements ≡ suc (length acc))
        × (length after.creditors + length after.debtors ≤ suc (length cs + length ds))
    match_pair_counts = rw match_pair-pays (
      omega (arith, length-append acc (payment ∷ [])),
      grind (
        int_laws,
        settled_bounds a b p q,
        length-push_residual (pos 0 -ℤ a -ℤ settled_of a b) cid cs,
        length-push_residual (pos 0 -ℤ b -ℤ settled_of a b) did ds,
      ),
    )

    -- Who is on the heaps stays there or leaves, and the payment is between two of them.
    pub match_pair-All :
        (C D : String → Type 0)
        → All (λ e. C e.1) before.creditors
        → All (λ e. D e.1) before.debtors
        → All (λ e. C e.1) after.creditors
          × All (λ e. D e.1) after.debtors
          × (All (Between C D) acc → All (Between C D) after.settlements)
    match_pair-All C D hc hd = rw match_pair-pays (
      All-push_residual _ cid cs (λ e. C e.1) (λ _. hc.0) hc.1,
      All-push_residual _ did ds (λ e. D e.1) (λ _. hd.0) hd.1,
      λ h.
          All-append (Between C D) acc (payment ∷ []) h
            ((hd.0, hc.0, (settled_bounds a b p q).0), tt),
    )
