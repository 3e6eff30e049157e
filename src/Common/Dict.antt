-- ===== src/Common/Dict.antt =====
-- A Python dict keyed by texts, in insertion order: an update keeps the place of its key.
use expense_settlement_engin.Common.Tests.{if◌then◌else◌, Bool-cases}
use expense_settlement_engin.Common.Lists.{All, All-map, All-pair}
use Prim.Native.String.{String}
use mathlib.Core.Path.{◌≡◌, refl, subst}
use mathlib.Core.Logic.{inl, inr}
use mathlib.Core.Bool.{Bool, true, false}
use mathlib.Core.Option.{Option, none, some, some-injective}
use mathlib.Core.List.{List, [], ◌∷◌}
use native.Mathlib.Omega.{arith}
use text.Mathlib.Text.{◌==◌}
use text.Mathlib.TextEquality.{eq_iff}
use text.Mathlib.TextPositions.{eq_refl}

abbrev pub Dict {ℓ} : Type ℓ → Type ℓ
Dict V = List (String × V)

module _ {ℓ} {V : Type ℓ} where
  -- `d.get(k)`
  unfoldable pub lookup : String → Dict V → Option V
  lookup k [] = none
  lookup k ((j, v) ∷ d) = if j == k then some v else lookup k d

  -- `d.get(k, default)`
  abbrev pub get_or : String → V → Dict V → V
  get_or k v d = elim (lookup k d) [ none ↦ v | some w ↦ w ]

  -- `k in d`
  abbrev pub contains : String → Dict V → Bool
  contains k d = elim (lookup k d) [ none ↦ false | some _ ↦ true ]

  -- `d[k] = v`
  unfoldable pub insert : String → V → Dict V → Dict V
  insert k v [] = (k, v) ∷ []
  insert k v ((j, w) ∷ d) = if j == k then (j, v) ∷ d else (j, w) ∷ insert k v d

  -- `del d[k]`, `d.pop(k, None)`
  unfoldable pub erase : String → Dict V → Dict V
  erase k [] = []
  erase k ((j, w) ∷ d) = if j == k then erase k d else (j, w) ∷ erase k d

  -- `d.setdefault(k, v)`
  abbrev pub set_default : String → V → Dict V → Dict V
  set_default k v d = if contains k d then d else insert k v d

  -- `list(d.values())`
  unfoldable pub values : Dict V → List V
  values [] = []
  values ((k, v) ∷ d) = v ∷ values d

  -- No key is listed twice.
  unfoldable pub HasDistinctKeys : Dict V → Type 0
  HasDistinctKeys [] = Unit
  HasDistinctKeys ((k, v) ∷ d) = (contains k d ≡ false) × HasDistinctKeys d

  pub lookup-insert :
      (k j : String) (v : V) (d : Dict V)
      → lookup j (insert k v d) ≡ (if k == j then some v else lookup j d)
  unfolding lookup insert
  lookup-insert k j v [] = refl
  lookup-insert k j v ((i, w) ∷ d) =
      ground (arith, eq_iff k j, eq_iff i k, eq_iff i j, lookup-insert k j v d)

  pub lookup-insert_self : (k : String) (v : V) (d : Dict V) → lookup k (insert k v d) ≡ some v
  lookup-insert_self k v d = simp (lookup-insert, eq_refl)

  pub insert-insert : (k : String) (v w : V) (d : Dict V) → insert k w (insert k v d) ≡ insert k w d
  unfolding insert
  insert-insert k v w [] = rw (eq_refl k)
  insert-insert k v w ((i, x) ∷ d) = ground (arith, insert-insert k v w d)

  pub insert-HasDistinctKeys :
      (k : String) (v : V) (d : Dict V) → HasDistinctKeys d → HasDistinctKeys (insert k v d)
  unfolding lookup insert HasDistinctKeys
  insert-HasDistinctKeys k v [] h = (refl, tt)
  insert-HasDistinctKeys k v ((i, w) ∷ d) h =
      ground (arith, eq_iff i k, eq_iff k i, lookup-insert k i v d, insert-HasDistinctKeys k v d)

  pub get_or-insert :
      (k j : String) (v w : V) (d : Dict V)
      → get_or j w (insert k v d) ≡ (if k == j then v else get_or j w d)
  get_or-insert k j v w d = ground (arith, lookup-insert k j v d)

  pub get_or_found :
      (k : String) (w : V) (d : Dict V) {v : V} → lookup k d ≡ some v → get_or k w d ≡ v
  get_or_found k w d e = rw (e, get_or)

  pub get_or_absent : (k : String) (w : V) (d : Dict V) → lookup k d ≡ none → get_or k w d ≡ w
  get_or_absent k w d e = rw (e, get_or)

  pub contains_found : (k : String) (d : Dict V) {v : V} → lookup k d ≡ some v → contains k d ≡ true
  contains_found k d e = rw (e, contains)

  pub contains_absent : (k : String) (d : Dict V) → lookup k d ≡ none → contains k d ≡ false
  contains_absent k d e = rw (e, contains)

  absent_keys : (k : String) (d : Dict V) → contains k d ≡ false → All (λ e. (e.0 == k) ≡ false) d
  unfolding lookup
  absent_keys k [] h = tt
  absent_keys k ((i, w) ∷ d) h = ground (arith, absent_keys k d)

  -- In a dict every entry is the one that its key finds.
  pub lookup-entries : (d : Dict V) → HasDistinctKeys d → All (λ e. lookup e.0 d ≡ some e.1) d
  unfolding lookup HasDistinctKeys
  lookup-entries [] h = tt
  lookup-entries ((k, v) ∷ d) h = (
    rw (eq_refl k),
    All-map (λ e. ((e.0 == k) ≡ false) × (lookup e.0 d ≡ some e.1)) _ d
        (λ e both. ground (arith, both.0, both.1, eq_iff k e.0, eq_iff e.0 k))
        (All-pair _ _ d (absent_keys k d h.0) (lookup-entries d h.1)),
  )

  pub lookup-set_default :
      (k j : String) (v : V) (d : Dict V)
      → lookup j (set_default k v d)
        ≡ (if contains k d then lookup j d else if k == j then some v else lookup j d)
  lookup-set_default k j v d = ground (arith, lookup-insert k j v d)

  -- What holds of every value holds of one that is found.
  pub All-lookup {κ} :
      (P : V → Type κ) (k : String) (d : Dict V) {v : V}
      → All (λ e. P e.1) d
      → lookup k d ≡ some v
      → P v
  unfolding lookup
  All-lookup P k [] h e = cc
  All-lookup P k ((j, w) ∷ d) {v} h e = elim (Bool-cases (j == k)) [
    | inl here ↦ subst P (some-injective w v (rw here at e)) h.0
    | inr elsewhere ↦ All-lookup P k d h.1 (rw elsewhere at e)
  ]

  pub All-insert {κ} :
      (P : V → Type κ) (k : String) (v : V) (d : Dict V)
      → P v
      → All (λ e. P e.1) d
      → All (λ e. P e.1) (insert k v d)
  unfolding insert
  All-insert P k v [] p h = (p, tt)
  All-insert P k v ((j, w) ∷ d) p h = elim (Bool-cases (j == k)) [
    | inl here ↦ rw here (p, h.1)
    | inr elsewhere ↦ rw elsewhere (h.0, All-insert P k v d p h.1)
  ]

  pub contains-insert :
      (k j : String) (v : V) (d : Dict V) → contains j d ≡ true → contains j (insert k v d) ≡ true
  contains-insert k j v d h = ground (arith, lookup-insert k j v d)

  pub lookup-erase :
      (k j : String) (d : Dict V) → lookup j (erase k d) ≡ (if k == j then none else lookup j d)
  unfolding lookup erase
  lookup-erase k j [] = ground arith
  lookup-erase k j ((i, w) ∷ d) =
      ground (arith, eq_iff k j, eq_iff i k, eq_iff i j, lookup-erase k j d)
