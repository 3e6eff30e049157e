-- ===== src/Occ.antt =====
-- core/occ.py: retries on a conflict, the versioned entity and the balance store.
-- The retried function is an argument; its state holds all that it reads and writes. Of the delays
-- only the cap on the exponential part is here: the jitter is floating-point arithmetic on a random
-- number, and the sleep changes no state.
pub mod Retry
pub mod Interleaving
use expense_settlement_engin.Common.{
  ℕ, zero, suc, ◌+◌, ◌*◌, ◌^◌, min, Bool, true, false, Option, none, some, List, [], ◌∷◌, String,
  eqb, if◌then◌else◌,
}
use expense_settlement_engin.Common.Int.{ℤ, pos, ◌+ℤ◌}
use expense_settlement_engin.Common.Dict.{Dict, lookup, insert}

-- How one call of the decorated function ends.
pub data Attempt {ℓ} (A E : Type ℓ) : Type ℓ where
  success : A → Attempt A E
  conflict : Attempt A E
  failure : E → Attempt A E

-- How the wrapper ends. `fell_through` is the end of the loop with no `return`.
pub data Retried {ℓ} (A E : Type ℓ) : Type ℓ where
  returned : A → Retried A E
  raised : E → Retried A E
  max_retries_exceeded : Retried A E
  fell_through : Retried A E

abbrev pub occ_max_retries : ℕ
occ_max_retries = 5

-- `min(base_ms * (2 ** attempt), max_ms)`
unfoldable pub raw_backoff : ℕ → ℕ → ℕ → ℕ
raw_backoff attempt base_ms max_ms = min (base_ms * 2 ^ attempt) max_ms

module _ {ℓ} {A E S : Type ℓ} (max_retries : ℕ) (func : S → Attempt A E × S) where
  -- `for attempt in range(max_retries + 1)`, with the rounds that are left.
  unfoldable pub retry_loop : ℕ → ℕ → S → Retried A E × S
  retry_loop zero attempt s = (fell_through, s)
  retry_loop (suc rounds) attempt s =
      let (r, s') = func s in
      let next = retry_loop rounds (suc attempt) s' in
      elim r [
        | success a ↦ (returned a, s')
        | failure e ↦ (raised e, s')
        | conflict ↦ if eqb attempt max_retries then (max_retries_exceeded, s') else next
      ]

  unfoldable pub occ_retry : S → Retried A E × S
  unfolding retry_loop
  occ_retry = retry_loop (suc max_retries) 0

-- `OCCVersionedEntity`
pub record Entity {ℓ} (V : Type ℓ) : Type ℓ where
  pub entity_id : String
  pub version : ℕ
  pub value : V

unfoldable pub new_entity {ℓ} : {V : Type ℓ} → String → V → Entity V
new_entity entity_id value = record { entity_id = entity_id; version = 0; value = value }

abbrev pub read {ℓ} : {V : Type ℓ} → Entity V → V × ℕ
read e = (e.value, e.version)

-- `compare_and_swap`, under the entity's lock: the new version, or `none` for the conflict.
unfoldable pub compare_and_swap {ℓ} : {V : Type ℓ} → ℕ → V → Entity V → Option ℕ × Entity V
compare_and_swap expected_version new_value e =
    if eqb e.version expected_version
    then (some (e.version + 1), record e { value = new_value; version = e.version + 1 })
    else (none, e)

-- `OCCBalanceStore`
abbrev pub BalanceStore : Type 0
BalanceStore = Dict (Entity ℤ)

unfoldable pub get_or_create : String → ℤ → BalanceStore → Entity ℤ × BalanceStore
unfolding new_entity
get_or_create user_id initial_cents store = elim (lookup user_id store) [
  | some e ↦ (e, store)
  | none ↦ let e = new_entity user_id initial_cents in (e, insert user_id e store)
]

-- `apply_delta` with no other task in between.
unfoldable pub apply_delta : String → ℤ → ℕ → BalanceStore → Option ℕ × BalanceStore
unfolding get_or_create compare_and_swap
apply_delta user_id delta_cents expected_version store =
    let (entity, store') = get_or_create user_id (pos 0) store in
    let (result, entity') =
      compare_and_swap expected_version (entity.value +ℤ delta_cents) entity in
    (result, insert user_id entity' store')
