-- ===== src/Tests/Caches.antt =====
-- cache/redis_client.py and cache/idempotency.py: a key that is set, answered and expires.
use expense_settlement_engin.Common.{
  ℕ, ◌≤◌, ◌≡◌, refl, true, none, some, [], ◌∷◌, String, arith, if◌then◌else◌, ◌==◌,
}
use expense_settlement_engin.Common.Dict.{lookup}
use expense_settlement_engin.Cache.{InMemoryCache, empty_cache, is_expired, set}
use expense_settlement_engin.Cache.View.{live, is_free, lasting, set-live}
use expense_settlement_engin.Idempotency.{Json, acquired, duplicate, make_key, check_and_lock}
use expense_settlement_engin.Idempotency.Protocol.{lock_excludes}

program : Unit {0}
unfolding lookup is_expired live
program = tt

-- The key stands for the value until time 9.
abbrev warm : InMemoryCache
warm = record { store = ("k", "v") ∷ []; expiry = ("k", 9) ∷ [] }

set-live_example :
    let (answer, after) = set 1 5 "k" "w" (some 3) true warm in
    (answer ≡ is_free true (live 5 "k" warm))
    × ((t : ℕ) (j : String)
        → 5 ≤ t
        → live t j after ≡ (
            if is_free true (live 5 "k" warm)
            then if "k" == j then lasting 1 5 (some 3) t "w" else live t j warm
            else live t j warm))
set-live_example = set-live 1 5 "k" "w" (some 3) true warm

warm-found : lookup "k" warm.store ≡ some "v"
unfolding program
warm-found = refl

warm-is_expired : is_expired 12 "k" warm ≡ true
unfolding program
warm-is_expired = refl

abbrev texts : Json String
texts = record { dumps = λ r. r; loads = λ s. some s }

new-entry : live 1 (make_key "k") empty_cache ≡ none
unfolding program
new-entry = refl

lock_excludes_example :
    let (answer, after) = check_and_lock texts 1 1 1 "k" empty_cache in
    (answer ≡ acquired) × ((check_and_lock texts 1 20 21 "k" after).0 ≡ duplicate none)
lock_excludes_example =
    lock_excludes texts 1 "k" 1 1 20 21 empty_cache new-entry (omega arith) (omega arith)
      (omega arith)
