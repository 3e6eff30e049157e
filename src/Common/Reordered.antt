-- ===== src/Common/Reordered.antt =====
-- Lists in another order, and dicts that find the same values: they list the same entries.
use expense_settlement_engin.Common.Tests.{Bool-cases}
use expense_settlement_engin.Common.Lists.{length}
use expense_settlement_engin.Common.Int.{ℤ, ◌+ℤ◌, sum_by, int_laws}
use expense_settlement_engin.Common.Dict.{
  Dict, lookup, contains, erase, HasDistinctKeys, lookup-erase,
}
use Prim.Native.Nat.{suc}
use Prim.Native.String.{String}
use mathlib.Core.Path.{◌≡◌, Path, refl, sym, ◌∙◌, ap, subst}
use mathlib.Core.Logic.{inl, inr}
use mathlib.Core.Bool.{false}
use mathlib.Core.Option.{none, some, some-injective}
use mathlib.Core.List.{List, [], ◌∷◌}
use native.Mathlib.Omega.{arith}
use text.Mathlib.Text.{◌==◌}
use text.Mathlib.TextEquality.{eq_iff}
use text.Mathlib.TextPositions.{eq_refl}

-- Two lists with the same elements as often, one an order of the other.
pub data Reordered {ℓ} {A : Type ℓ} : List A → List A → Type ℓ where
  done_ : Reordered [] []
  keep : (x : A) {d e : List A} → Reordered d e → Reordered (x ∷ d) (x ∷ e)
  swap : (x y : A) (d : List A) → Reordered (x ∷ y ∷ d) (y ∷ x ∷ d)
  via : {c d e : List A} → Reordered c d → Reordered d e → Reordered c e

module _ {ℓ} {A : Type ℓ} where
  as_is : (d : List A) → Reordered d d
  as_is [] = done_
  as_is (x ∷ d) = keep x (as_is d)

  pub sum_by-Reordered : (f : A → ℤ) {d e : List A} → Reordered d e → sum_by f d ≡ sum_by f e
  unfolding sum_by
  sum_by-Reordered f done_ = refl
  sum_by-Reordered f (keep x r) = ap (λ t. f x +ℤ t) (sum_by-Reordered f r)
  sum_by-Reordered f (swap x y d) = omega int_laws
  sum_by-Reordered f (via r s) = sum_by-Reordered f r ∙ sum_by-Reordered f s

  pub length-Reordered : {d e : List A} → Reordered d e → length d ≡ length e
  length-Reordered done_ = refl
  length-Reordered (keep x r) = ap suc (length-Reordered r)
  length-Reordered (swap x y d) = refl
  length-Reordered (via r s) = length-Reordered r ∙ length-Reordered s

module _ {ℓ} {V : Type ℓ} where
  erase_absent : (k : String) (d : Dict V) → contains k d ≡ false → erase k d ≡ d
  unfolding lookup erase
  erase_absent k [] h = refl
  erase_absent k ((j, w) ∷ d) h = ground (arith, erase_absent k d)

  contains-erase :
      (k j : String) (d : Dict V) → contains j d ≡ false → contains j (erase k d) ≡ false
  contains-erase k j d h = ground (arith, lookup-erase k j d)

  erase-HasDistinctKeys :
      (k : String) (d : Dict V) → HasDistinctKeys d → HasDistinctKeys (erase k d)
  unfolding erase HasDistinctKeys
  erase-HasDistinctKeys k [] h = tt
  erase-HasDistinctKeys k ((j, w) ∷ d) h = elim (Bool-cases (j == k)) [
    | inl here ↦ rw here (erase-HasDistinctKeys k d h.1)
    | inr elsewhere ↦ rw elsewhere (contains-erase k j d h.0, erase-HasDistinctKeys k d h.1)
  ]

  -- An entry that is found can be moved to the front.
  front-Reordered :
      (k : String) (v : V) (e : Dict V)
      → HasDistinctKeys e
      → lookup k e ≡ some v
      → Reordered ((k, v) ∷ erase k e) e
  unfolding lookup erase HasDistinctKeys
  front-Reordered k v [] h found = cc
  front-Reordered k v ((j, w) ∷ e) h found = elim (Bool-cases (j == k)) [
    | inl here ↦
        let key : j ≡ k = ground (arith, eq_iff j k) in
        let value : w ≡ v = some-injective w v (rw here at found) in
        let absent : contains k e ≡ false = subst (λ i. contains i e ≡ false) key h.0 in
        let same : Path (Dict V) ((j, w) ∷ e) ((k, v) ∷ erase k e) =
          (λ i. (key i, value i) ∷ sym (erase_absent k e absent) i) in
        rw here (subst (λ l. Reordered ((k, v) ∷ erase k e) l) (sym same) (as_is _))
    | inr elsewhere ↦ rw elsewhere (
        via (swap (k, v) (j, w) (erase k e))
          (keep (j, w) (front-Reordered k v e h.1 (rw elsewhere at found))))
  ]

  -- Dicts that find the same values list the same entries, in some order.
  pub same_lookups-Reordered :
      (d e : Dict V)
      → HasDistinctKeys d
      → HasDistinctKeys e
      → ((u : String) → lookup u d ≡ lookup u e)
      → Reordered d e
  unfolding lookup HasDistinctKeys
  same_lookups-Reordered [] [] h k same = done_
  same_lookups-Reordered [] ((j, w) ∷ e) h k same =
      let none_found : none ≡ some w = same j ∙ rw (eq_refl j) in cc
  same_lookups-Reordered ((j, v) ∷ d) e h k same =
      let found : lookup j e ≡ some v = sym (same j) ∙ rw (eq_refl j) in
      via
        (keep (j, v)
          (same_lookups-Reordered d (erase j e) h.1 (erase-HasDistinctKeys j e k)
            (λ u. ground (arith, same u, lookup-erase j u e, h.0, eq_iff j u))))
        (front-Reordered j v e k found)
