-- ===== src/Common/Text.antt =====
-- Python's `str` of an integer, `"|".join`, and the order of texts.
use Prim.Native.Nat.{ℕ, zero, suc, ◌/◌, ◌%◌, Ordering}
use Prim.Native.String
use Prim.Native.String.{String}
use mathlib.Core.Bool.{Bool, true, false}
use mathlib.Core.List.{List, [], ◌∷◌}
use expense_settlement_engin.Common.Tests.{ltb, eqb, if◌then◌else◌}
use expense_settlement_engin.Common.Int.{ℤ, pos, negsuc}

infixr 65 ◌⧺◌
abbrev pub ◌⧺◌ : String → String → String
◌⧺◌ = String.◌++◌

-- `a < b` on texts: by code points.
abbrev pub ltb_str : String → String → Bool
ltb_str a b = elim (String.compare a b) [ Ordering.lt ↦ true | _ ↦ false ]

digit : ℕ → String
digit n =
    if eqb n 0
    then "0"
    else if eqb n 1
    then "1"
    else if eqb n 2
    then "2"
    else if eqb n 3
    then "3"
    else if eqb n 4
    then "4"
    else if eqb n 5
    then "5"
    else if eqb n 6
    then "6"
    else if eqb n 7
    then "7"
    else if eqb n 8
    then "8"
    else "9"

decimal : ℕ → ℕ → String → String
decimal zero n rest = rest
decimal (suc fuel) n rest =
    let more = decimal fuel (n / 10) (digit (n % 10) ⧺ rest) in
    if ltb n 10 then digit n ⧺ rest else more

-- `str(n)`; a number has at most as many digits as one more than itself.
unfoldable pub str_ℤ : ℤ → String
unfolding digit decimal
str_ℤ (pos n) = decimal (suc n) n ""
str_ℤ (negsuc n) = "-" ⧺ decimal (suc (suc n)) (suc n) ""

-- `sep.join(parts)`
unfoldable pub join : String → List String → String
join sep [] = ""
join sep (s ∷ []) = s
join sep (s ∷ t ∷ ts) = s ⧺ sep ⧺ join sep (t ∷ ts)
