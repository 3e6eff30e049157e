-- ===== src/Cache/View.antt =====
-- cache/redis_client.py: what a key stands for at a time, and how the methods change it.
use expense_settlement_engin.Common.{
  ℕ, ◌+◌, ◌*◌, ◌≤◌, ◌≡◌, refl, sym, ap, ◌∙◌, subst, inl, inr, Bool, true, false, Option, none, some,
  String, arith, if◌then◌else◌, ltb, ◌==◌, eq_iff, eq_refl, Bool-cases,
}
use expense_settlement_engin.Common.Dict.{
  lookup, contains, insert, lookup-insert, lookup-insert_self, lookup-erase,
}
use expense_settlement_engin.Cache.{
  InMemoryCache, is_expired, drop_key, evict_if_expired, get, new_expiry, set, expire,
}

-- What the key stands for at a time: the abstract view, in which an expired key is gone.
unfoldable pub live : ℕ → String → InMemoryCache → Option String
unfolding is_expired
live t key c = if is_expired t key c then none else lookup key c.store

-- Dropping a key leaves what every other key stands for.
pub live-drop_key :
    (t : ℕ) (k j : String) (c : InMemoryCache)
    → live t j (drop_key k c) ≡ (if k == j then none else live t j c)
unfolding live
live-drop_key t k j c = ground (arith, lookup-erase k j c.store, lookup-erase k j c.expiry)

-- An expired key stays expired.
live-expired :
    (now t : ℕ) (k : String) (c : InMemoryCache)
    → now ≤ t
    → is_expired now k c ≡ true
    → live t k c ≡ none
unfolding live
live-expired now t k c le gone = ground arith

live-evict :
    (now t : ℕ) (k j : String) (c : InMemoryCache)
    → now ≤ t
    → live t j (evict_if_expired now k c) ≡ live t j c
unfolding evict_if_expired
live-evict now t k j c le = elim (Bool-cases (is_expired now k c)) [
  | inr kept ↦ rw (kept, evict_if_expired)
  | inl gone ↦
      rw (gone, evict_if_expired, live-drop_key)
        (elim (Bool-cases (k == j)) [
          | inr other ↦ rw other
          | inl same ↦ rw same (
              sym (
                subst (λ i. live t i c ≡ none) ((eq_iff k j).0 same)
                  (live-expired now t k c le gone)))
        ])
]

-- `get` answers what the key stands for, and what any key stands for at that time or later stays
-- as it was: what the eviction drops was gone.
pub get-live :
    (now : ℕ) (k : String) (c : InMemoryCache)
    → let (answer, after) = get now k c in
      (answer ≡ live now k c) × ((t : ℕ) (j : String) → now ≤ t → live t j after ≡ live t j c)
unfolding get live evict_if_expired
get-live now k c = (ground arith, λ t j le. live-evict now t k j c le)

-- What a value that was set at `now` is worth at `t`.
abbrev pub lasting : ℕ → ℕ → Option ℕ → ℕ → String → Option String
lasting ticks now none t v = some v
lasting ticks now (some ex) t v = if ltb (now + ex * ticks) t then none else some v

-- Whether `set` is let through.
abbrev pub is_free : Bool → Option String → Bool
is_free nx none = true
is_free nx (some _) = if nx then false else true

-- The test of `nx`, on the store after the eviction.
abbrev is_taken : Bool → ℕ → String → InMemoryCache → Bool
is_taken nx now k c = if nx then contains k (evict_if_expired now k c).store else false

taken-is_free :
    (nx : Bool) (now : ℕ) (k : String) (c : InMemoryCache)
    → is_free nx (live now k c) ≡ (if is_taken nx now k c then false else true)
unfolding evict_if_expired live
taken-is_free false now k c = ground arith
taken-is_free true now k c = elim (Bool-cases (is_expired now k c)) [
  | inr kept ↦ rw (kept, evict_if_expired) (ground arith)
  | inl gone ↦ rw (gone, evict_if_expired) (ground (arith, eq_refl k, lookup-erase k k c.store))
]

abbrev stored : ℕ → ℕ → String → String → Option ℕ → InMemoryCache → InMemoryCache
stored ticks now k v ex c = record {
  store = insert k v c.store;
  expiry = new_expiry ticks now k ex c.expiry;
}

live-stored :
    (ticks now : ℕ) (k v : String) (ex : Option ℕ) (t : ℕ) (j : String) (c : InMemoryCache)
    → live t j (stored ticks now k v ex c)
      ≡ (if k == j then lasting ticks now ex t v else live t j c)
unfolding live
live-stored ticks now k v none t j c =
    ground (arith, lookup-insert k j v c.store, lookup-erase k j c.expiry)
live-stored ticks now k v (some ex) t j c =
    ground (arith, lookup-insert k j v c.store, lookup-insert k j (now + ex * ticks) c.expiry)

module _ (ticks now : ℕ) (k v : String) (ex : Option ℕ) (nx : Bool) (c : InMemoryCache) where
  set_refused :
      is_taken nx now k c ≡ true → set ticks now k v ex nx c ≡ (false, evict_if_expired now k c)
  unfolding set
  set_refused taken = rw (taken, set)

  set_accepted :
      is_taken nx now k c ≡ false
      → set ticks now k v ex nx c ≡ (true, stored ticks now k v ex (evict_if_expired now k c))
  unfolding set
  set_accepted free = rw (free, set)

  -- `set` is refused exactly when `nx` is asked for and the key stands for something. Then every
  -- key stands for what it stood for; otherwise this key stands for the value until its time is
  -- up, and every other key for what it stood for.
  pub set-live :
      let (answer, after) = set ticks now k v ex nx c in
      (answer ≡ is_free nx (live now k c))
      × ((t : ℕ) (j : String)
          → now ≤ t
          → live t j after ≡ (
              if is_free nx (live now k c)
              then if k == j then lasting ticks now ex t v else live t j c
              else live t j c))
  set-live = elim (Bool-cases (is_taken nx now k c)) [
    | inl taken ↦
        rw (set_refused taken, taken-is_free, taken) (refl, λ t j le. live-evict now t k j c le)
    | inr free ↦
        rw (set_accepted free, taken-is_free, free)
          (
            refl,
            λ t j le.
                live-stored ticks now k v ex t j (evict_if_expired now k c)
                ∙ ap (λ x. if k == j then lasting ticks now ex t v else x)
                    (live-evict now t k j c le),
          )
  ]

-- `expire` on a key that has expired but was not evicted brings its old value back: the key stood
-- for nothing, and stands for the value again.
pub expire_revives :
    (ticks now : ℕ) (k v : String) (seconds : ℕ) (c : InMemoryCache)
    → lookup k c.store ≡ some v
    → is_expired now k c ≡ true
    → (live now k c ≡ none)
      × ((expire ticks now k seconds c).0 ≡ true)
      × ((get now k (expire ticks now k seconds c).1).0 ≡ some v)
unfolding live expire get evict_if_expired
expire_revives ticks now k v seconds c found gone = (
  rw gone,
  ground arith,
  (get-live now k (expire ticks now k seconds c).1).0
      ∙ ground (arith, lookup-insert_self k (now + seconds * ticks) c.expiry),
)
