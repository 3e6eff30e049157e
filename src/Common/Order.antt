-- ===== src/Common/Order.antt =====
-- The order of texts is a strict total order.
use Prim.Native.Nat.{ℕ, Ordering}
use Prim.Native.Nat
use Prim.Native.Char.{Char, code}
use Prim.Native.String
use Prim.Native.String.{String}
use mathlib.Core.Path.{◌≡◌, refl, sym, ◌∙◌}
use mathlib.Core.Bool.{true, false}
use native.Mathlib.Omega.{arith}
use text.Mathlib.TextEquality.{path_by_compare}
use expense_settlement_engin.Common.Text.{ltb_str}

-- Texts compare by their first code points, and then by the rest.
compare-cons :
    (c d : Char) (s t : String)
    → String.compare (String.◌∷◌ c s) (String.◌∷◌ d t)
      ≡ String.then (Nat.compare (code c) (code d)) (String.compare s t)
compare-cons c d s t = λ i. String.compare.cons-cons c d s t i

abbrev flip : Ordering → Ordering
flip Ordering.lt = Ordering.gt
flip Ordering.eq = Ordering.eq
flip Ordering.gt = Ordering.lt

flip_ℕ : (a b : ℕ) → Nat.compare b a ≡ flip (Nat.compare a b)
flip_ℕ a b = ground arith

nil-cons : (d : Char) (t : String) → String.compare String.[] (String.◌∷◌ d t) ≡ Ordering.lt
nil-cons d t = λ i. String.compare.nil-cons d t i

cons-nil : (c : Char) (s : String) → String.compare (String.◌∷◌ c s) String.[] ≡ Ordering.gt
cons-nil c s = λ i. String.compare.cons-nil c s i

flip-then : (o p : Ordering) → flip (String.then o p) ≡ String.then (flip o) (flip p)
flip-then Ordering.lt p = refl
flip-then Ordering.eq p = refl
flip-then Ordering.gt p = refl

flip_str : (s t : String) → String.compare t s ≡ flip (String.compare s t)
flip_str String.[] String.[] = refl
flip_str String.[] (String.◌∷◌ d t) = rw (nil-cons d t, cons-nil d t)
flip_str (String.◌∷◌ c s) String.[] = rw (nil-cons c s, cons-nil c s)
flip_str (String.◌∷◌ c s) (String.◌∷◌ d t) =
    rw (compare-cons c d s t, compare-cons d c t s, flip_ℕ (code c) (code d), flip_str s t)
      (sym (flip-then _ _))

trans_str :
    (s t u : String)
    → String.compare s t ≡ Ordering.lt
    → String.compare t u ≡ Ordering.lt
    → String.compare s u ≡ Ordering.lt
trans_str String.[] String.[] u h k = k
trans_str String.[] (String.◌∷◌ d t) String.[] h k = cc (k, cons-nil d t)
trans_str String.[] (String.◌∷◌ d t) (String.◌∷◌ e u) h k = nil-cons e u
trans_str (String.◌∷◌ c s) String.[] u h k = cc (h, cons-nil c s)
trans_str (String.◌∷◌ c s) (String.◌∷◌ d t) String.[] h k = cc (k, cons-nil d t)
trans_str (String.◌∷◌ c s) (String.◌∷◌ d t) (String.◌∷◌ e u) h k =
    let h' = sym (compare-cons c d s t) ∙ h in
    let k' = sym (compare-cons d e t u) ∙ k in
    rw (compare-cons c e s u) (ground (arith, trans_str s t u))

pub ltb_str_asym : (s t : String) → ltb_str s t ≡ true → ltb_str t s ≡ false
ltb_str_asym s t h = ground (arith, flip_str s t)

pub ltb_str_trans : (s t u : String) → ltb_str s t ≡ true → ltb_str t u ≡ true → ltb_str s u ≡ true
ltb_str_trans s t u h k = ground (arith, trans_str s t u)

pub ltb_str_total : (s t : String) → ltb_str s t ≡ false → ltb_str t s ≡ false → s ≡ t
ltb_str_total s t h k = path_by_compare s t (ground (arith, flip_str s t))
