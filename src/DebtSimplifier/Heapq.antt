-- ===== src/DebtSimplifier/Heapq.antt =====
-- What core/debt_simplifier.py uses of `heapq`. A heap gives back its least tuple, whatever the
-- order of its array: it is kept here as the list of its tuples in their order.
use expense_settlement_engin.Common.{
  suc, ◌≡◌, refl, Bool, true, false, Option, none, some, List, [], ◌∷◌, arith, String, length,
  if◌then◌else◌, All,
}
use expense_settlement_engin.Common.Int.{ℤ, ◌+ℤ◌, ◌≤ℤ◌, ltb_ℤ, eqb_ℤ, sum_by, int_laws}
use expense_settlement_engin.Common.Text.{ltb_str}

-- An amount and a user.
abbrev pub Item : Type 0
Item = ℤ × String

abbrev pub Heap : Type 0
Heap = List Item

-- `a < b` on tuples.
unfoldable pub ltb_item : Item → Item → Bool
ltb_item (a, s) (b, t) = if ltb_ℤ a b then true else if eqb_ℤ a b then ltb_str s t else false

-- `heapq.heappush`
unfoldable pub heappush : Item → Heap → Heap
heappush e [] = e ∷ []
heappush e (x ∷ h) = if ltb_item e x then e ∷ x ∷ h else x ∷ heappush e h

-- `heapq.heappop`; `none` on an empty heap.
abbrev pub heappop : Heap → Option (Item × Heap)
heappop [] = none
heappop (e ∷ h) = some (e, h)

pub length-heappush : (e : Item) (h : Heap) → length (heappush e h) ≡ suc (length h)
unfolding heappush
length-heappush e [] = refl
length-heappush e (x ∷ h) = ground (arith, length-heappush e h)

pub sum_by-heappush :
    (f : Item → ℤ) (e : Item) (h : Heap) → sum_by f (heappush e h) ≡ f e +ℤ sum_by f h
unfolding heappush sum_by
sum_by-heappush f e [] = refl
sum_by-heappush f e (x ∷ h) = grind (int_laws, sum_by-heappush f e h)

pub All-heappush {κ} :
    (P : Item → Type κ) (e : Item) (h : Heap) → P e → All P h → All P (heappush e h)
unfolding heappush
All-heappush P e [] p k = (p, tt)
All-heappush P e (x ∷ h) p k = ground (arith, All-heappush P e h p k.1)

-- Every tuple of the heap has an amount of at least `a`.
abbrev AtLeast : ℤ → Heap → Type 0
AtLeast a = All (λ e. a ≤ℤ e.0)

-- The amounts of a heap's list go up, so `heappop` returns the least.
pub IsHeap : Heap → Type 0
IsHeap [] = Unit
IsHeap (e ∷ h) = AtLeast e.0 h × IsHeap h
