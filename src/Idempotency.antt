-- ===== src/Idempotency.antt =====
-- cache/idempotency.py: idempotency keys over the in-memory cache.
-- `json` is an argument. A method that calls the cache twice reads the clock twice.
pub mod Protocol
use expense_settlement_engin.Common.{
  ℕ, Bool, true, false, Option, none, some, String, if◌then◌else◌, ◌==◌,
}
use expense_settlement_engin.Common.Text.{◌⧺◌}
use expense_settlement_engin.Cache.{InMemoryCache, get, set, delete}

-- `json.dumps`, and `json.loads`, where `none` is the `JSONDecodeError`.
pub record Json (R : Type 0) : Type 0 where
  pub dumps : R → String
  pub loads : String → Option R

abbrev pub idempotency_ttl_seconds : ℕ
idempotency_ttl_seconds = 86400

abbrev pub processing : String
processing = "PROCESSING"

-- `_make_key`
abbrev pub make_key : String → String
make_key idempotency_key = "idempotency:" ⧺ idempotency_key

-- How `check_and_lock` ends: it returns true, or raises `DuplicateRequestError`.
pub data Lock (R : Type 0) : Type 0 where
  acquired : Lock R
  duplicate : Option R → Lock R

module _ {R : Type 0} (json : Json R) where
  -- The response in what the cache holds: neither nothing, nor empty, nor the sentinel.
  unfoldable pub cached_response : Option String → Option R
  cached_response none = none
  cached_response (some raw) =
      if raw == "" then none else if raw == processing then none else json.loads raw

  unfoldable pub check_and_lock : ℕ → ℕ → ℕ → String → InMemoryCache → Lock R × InMemoryCache
  unfolding get set cached_response
  check_and_lock ticks now later key cache =
      let (ok, locked) =
        set ticks now (make_key key) processing (some idempotency_ttl_seconds) true cache in
      let (raw, read_cache) = get later (make_key key) locked in
      if ok then (acquired, locked) else (duplicate (cached_response raw), read_cache)

  unfoldable pub store_response : ℕ → ℕ → String → R → InMemoryCache → InMemoryCache
  unfolding set
  store_response ticks now key response_body cache =
      (set ticks now (make_key key) (json.dumps response_body) (some idempotency_ttl_seconds) false
        cache).1

  unfoldable pub get_cached_response : ℕ → String → InMemoryCache → Option R × InMemoryCache
  unfolding get cached_response
  get_cached_response now key cache =
      let (raw, after) = get now (make_key key) cache in (cached_response raw, after)

unfoldable pub release : String → InMemoryCache → InMemoryCache
unfolding delete
release key cache = (delete (make_key key) cache).1
