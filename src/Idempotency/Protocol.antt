-- ===== src/Idempotency/Protocol.antt =====
-- cache/idempotency.py: one request per key, from the lock to the answer or the release.
use expense_settlement_engin.Common.{
  ℕ, ◌+◌, ◌*◌, ◌≤◌, ◌≡◌, refl, ap, ◌∙◌, inl, inr, ◌⊎◌, Bool, true, false, Option, none, some,
  String, arith, if◌then◌else◌, ◌==◌, eq_refl,
}
use expense_settlement_engin.Cache.{InMemoryCache, set, delete}
use expense_settlement_engin.Cache.View.{live, live-drop_key, get-live, is_free, lasting, set-live}
use expense_settlement_engin.Idempotency.{
  Json, Lock, idempotency_ttl_seconds, processing, make_key, acquired, duplicate, cached_response,
  check_and_lock, store_response, release,
}

pub Lock-cases : {R : Type 0} (l : Lock R) → (l ≡ acquired) ⊎ ((o : Option R) × (l ≡ duplicate o))
Lock-cases acquired = inl refl
Lock-cases (duplicate o) = inr (o, refl)

module _ {R : Type 0} (json : Json R) (ticks : ℕ) (key : String) where
  abbrev pub ttl_ticks : ℕ
  ttl_ticks = idempotency_ttl_seconds * ticks

  -- What the key stands for in the cache.
  abbrev pub entry : ℕ → InMemoryCache → Option String
  entry t cache = live t (make_key key) cache

  module _ (now later : ℕ) (cache : InMemoryCache) where
    abbrev pub locked : Bool × InMemoryCache
    locked = set ticks now (make_key key) processing (some idempotency_ttl_seconds) true cache

    locked-free : locked.0 ≡ is_free true (entry now cache)
    locked-free = (set-live ticks now (make_key key) processing _ true cache).0

    locked-entry :
        (t : ℕ)
        → now ≤ t
        → entry t locked.1 ≡ (
            if is_free true (entry now cache)
            then lasting ticks now (some idempotency_ttl_seconds) t processing
            else entry t cache)
    locked-entry t le =
        (set-live ticks now (make_key key) processing _ true cache).1 t (make_key key) le
        ∙ rw (eq_refl (make_key key))

    pub check_free :
        entry now cache ≡ none
        → check_and_lock json ticks now later key cache ≡ (acquired, locked.1)
    unfolding check_and_lock
    check_free e = rw (locked-free, e)

    -- A key that stands for something is refused, with the response that it stands for.
    check_taken :
        (raw : String)
        → now ≤ later
        → entry now cache ≡ some raw
        → entry later cache ≡ some raw
        → (check_and_lock json ticks now later key cache).0
          ≡ duplicate (cached_response json (some raw))
    unfolding check_and_lock
    check_taken raw le e e' =
        rw (locked-free, e)
          (ap (λ o. duplicate (cached_response json o)) {y = some raw}
            ((get-live later (make_key key) locked.1).0 ∙ locked-entry later le ∙ rw (e, e')))

    -- A key that stood for nothing is held by the sentinel for the time to live.
    locked_holds :
        entry now cache ≡ none
        → (t : ℕ) → now ≤ t
        → t ≤ now + ttl_ticks
        → entry t locked.1 ≡ some processing
    locked_holds e t from til = rw (locked-entry t from, e) (ground arith)

  -- The first request with a key that stands for nothing takes the lock; any other request with
  -- the key is refused, without a response, until the time to live is over, if nothing else is
  -- done with the key.
  pub lock_excludes :
      (now later now' later' : ℕ) (cache : InMemoryCache)
      → entry now cache ≡ none
      → now ≤ now'
      → now' ≤ later'
      → later' ≤ now + ttl_ticks
      → let (answer, after) = check_and_lock json ticks now later key cache in
        (answer ≡ acquired) × ((check_and_lock json ticks now' later' key after).0 ≡ duplicate none)
  unfolding cached_response
  lock_excludes now later now' later' cache e le le' fits =
      let held = locked_holds now later cache e in
      rw (check_free now later cache e) (
        refl,
        check_taken now' later' (locked now later cache).1 processing le'
            (held now' le (omega arith)) (held later' (omega arith) fits),
      )

  response_holds :
      (now : ℕ) (r : R) (cache : InMemoryCache) (t : ℕ)
      → now ≤ t
      → t ≤ now + ttl_ticks
      → entry t (store_response json ticks now key r cache) ≡ some (json.dumps r)
  unfolding store_response
  response_holds now r cache t from til =
      rw
        (
          (set-live ticks now (make_key key) (json.dumps r) (some idempotency_ttl_seconds) false
                cache).1
              t (make_key key) from,
          eq_refl (make_key key),
        )
        (ground arith)

  -- Once the response of a request is stored, any other request with the key gets that response,
  -- until the time to live is over, if nothing else is done with the key.
  pub response_replayed :
      (now now' later' : ℕ) (r : R) (cache : InMemoryCache)
      → (json.dumps r == "") ≡ false
      → (json.dumps r == processing) ≡ false
      → json.loads (json.dumps r) ≡ some r
      → now ≤ now'
      → now' ≤ later'
      → later' ≤ now + ttl_ticks
      → (check_and_lock json ticks now' later' key (store_response json ticks now key r cache)).0
        ≡ duplicate (some r)
  unfolding store_response cached_response
  response_replayed now now' later' r cache nonempty other parses le le' fits =
      let held = response_holds now r cache in
      check_taken now' later' (store_response json ticks now key r cache) (json.dumps r) le'
        (held now' le (omega arith)) (held later' (omega arith) fits)
      ∙ rw (nonempty, other, parses)

  -- Once a key is released, the next request with it takes the lock again.
  pub release_unlocks :
      (now later : ℕ) (cache : InMemoryCache)
      → (check_and_lock json ticks now later key (release key cache)).0 ≡ acquired
  unfolding release delete
  release_unlocks now later cache =
      ap (λ r. r.0)
        (check_free now later (release key cache)
          (live-drop_key now (make_key key) (make_key key) cache ∙ rw (eq_refl (make_key key))))
