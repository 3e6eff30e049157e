-- ===== src/Cache.antt =====
-- cache/redis_client.py: `InMemoryCache`. Every method runs under one lock, so it is one step.
-- A time is a number of ticks, `ticks` of them in a second; `now` is the reading of the clock.
pub mod View
use expense_settlement_engin.Common.{
  ℕ, ◌+◌, ◌-◌, ◌*◌, ◌/◌, Bool, true, false, not, Option, none, some, List, [], ◌∷◌, ◌++◌, String,
  if◌then◌else◌, ltb, leb, ◌==◌,
}
use expense_settlement_engin.Common.Dict.{Dict, lookup, contains, insert, erase}

pub record InMemoryCache : Type 0 where
  pub store : Dict String
  pub expiry : Dict ℕ

abbrev pub empty_cache : InMemoryCache
empty_cache = record { store = []; expiry = [] }

-- `_is_expired`
unfoldable pub is_expired : ℕ → String → InMemoryCache → Bool
is_expired now key c = elim (lookup key c.expiry) [ none ↦ false | some exp ↦ ltb exp now ]

-- What `_evict_if_expired` and `delete` drop.
abbrev pub drop_key : String → InMemoryCache → InMemoryCache
drop_key key c = record { store = erase key c.store; expiry = erase key c.expiry }

-- `_evict_if_expired`; it answers whether the key was expired.
unfoldable pub evict_if_expired : ℕ → String → InMemoryCache → InMemoryCache
unfolding is_expired
evict_if_expired now key c = if is_expired now key c then drop_key key c else c

unfoldable pub get : ℕ → String → InMemoryCache → Option String × InMemoryCache
unfolding evict_if_expired
get now key c =
    let c' = evict_if_expired now key c in
    (if is_expired now key c then none else lookup key c'.store, c')

module _ (ticks : ℕ) where
  -- The time of expiry that `set` stores.
  abbrev pub new_expiry : ℕ → String → Option ℕ → Dict ℕ → Dict ℕ
  new_expiry now key none expiry = erase key expiry
  new_expiry now key (some ex) expiry = insert key (now + ex * ticks) expiry

  unfoldable pub set : ℕ → String → String → Option ℕ → Bool → InMemoryCache → Bool × InMemoryCache
  unfolding evict_if_expired
  set now key value ex nx c =
      let c' = evict_if_expired now key c in
      if (if nx then contains key c'.store else false) then (false, c') else (
        true,
        record { store = insert key value c'.store; expiry = new_expiry now key ex c'.expiry },
      )

  unfoldable pub expire : ℕ → String → ℕ → InMemoryCache → Bool × InMemoryCache
  expire now key seconds c =
      if contains key c.store
      then (true, record c { expiry = insert key (now + seconds * ticks) c.expiry })
      else (false, c)

  -- `none` is the answer -1; the subtraction stops at 0 as `max` does.
  unfoldable pub ttl : ℕ → String → InMemoryCache → Option ℕ
  ttl now key c = elim (lookup key c.expiry) [ none ↦ none | some exp ↦ some ((exp - now) / ticks) ]

unfoldable pub delete : String → InMemoryCache → ℕ × InMemoryCache
delete key c = (if contains key c.store then 1 else 0, drop_key key c)

unfoldable pub exists_key : ℕ → String → InMemoryCache → ℕ × InMemoryCache
unfolding evict_if_expired
exists_key now key c =
    let c' = evict_if_expired now key c in
    (if is_expired now key c then 0 else if contains key c'.store then 1 else 0, c')

-- The two lists of `keys`.
unfoldable pub live_keys : ℕ → Dict ℕ → List String
live_keys now [] = []
live_keys now ((k, exp) ∷ d) = if leb now exp then k ∷ live_keys now d else live_keys now d

unfoldable pub lasting_keys : Dict ℕ → Dict String → List String
lasting_keys expiry [] = []
lasting_keys expiry ((k, v) ∷ d) =
    if contains k expiry then lasting_keys expiry d else k ∷ lasting_keys expiry d

unfoldable pub matching : (String → Bool) → List String → List String
matching fits [] = []
matching fits (k ∷ l) = if fits k then k ∷ matching fits l else matching fits l

-- `fnmatch k pattern` is `fnmatch.fnmatch(k, pattern)`.
unfoldable pub keys : (String → String → Bool) → ℕ → String → InMemoryCache → List String
unfolding live_keys lasting_keys matching
keys fnmatch now pattern_ c =
    let all_keys = live_keys now c.expiry ++ lasting_keys c.expiry c.store in
    if pattern_ == "*" then all_keys else matching (λ k. fnmatch k pattern_) all_keys
