-- ===== src/Routes/Balances/Staleness.antt =====
-- `get_balances` of api/routes/groups.py: the answer in the cache, beside expenses and settlements.
use expense_settlement_engin.Common.{
  ℕ, ◌+◌, ◌*◌, ◌≤◌, ◌≡◌, refl, ap, ◌∙◌, false, true, Option, none, some, List, ◌∷◌, arith, String,
  ◌==◌, eq_refl, inl, inr,
}
use expense_settlement_engin.Common.Dict.{lookup}
use expense_settlement_engin.Common.Text.{◌⧺◌}
use expense_settlement_engin.Ledger.{Runtime}
use expense_settlement_engin.Store.{GroupRecord, ExpenseRecord, truthy, get_expenses_for_group}
use expense_settlement_engin.Cache.{InMemoryCache, get, set, delete}
use expense_settlement_engin.Cache.View.{live, live-drop_key, get-live, set-live}
use expense_settlement_engin.Idempotency.{Json}
use expense_settlement_engin.ExpenseService.Create.{Created-cases}
use expense_settlement_engin.ExpenseService.{Floats, ExpenseArgs}
use expense_settlement_engin.ExpenseService.Service.{Engine, create_expense}
use expense_settlement_engin.Worker.{WorkerState, WorkerDraws, handle_settlement}
use expense_settlement_engin.Worker.Settle.{dropped, handle-drops}
use expense_settlement_engin.Routes.{
  CreateExpenseRequest, ExpenseResponse, AppState, RequestDraws, service_args, serve,
  create_expense_route,
}
use expense_settlement_engin.Routes.Responses.{responded, GroupBalancesResponse}
use expense_settlement_engin.Routes.Balances.{
  balances_key, balances_ttl, balances_result, cached_answer, fresh_answer, get_balances,
}

module _ (json : Json GroupBalancesResponse) (ticks : ℕ) (group_id : String) where
  -- What the balances of the group stand for in the cache.
  abbrev pub remembered : ℕ → InMemoryCache → Option String
  remembered t cache = live t (balances_key group_id) cache

  module _ (now later : ℕ) (st : AppState) where
    abbrev looked_up : AppState
    looked_up = record st { cache = (get now (balances_key group_id) st.cache).1 }

    balances_cached :
        (raw : String)
        → truthy (remembered now st.cache) ≡ some raw
        → (get_balances json ticks now later group_id st).0 ≡ cached_answer json ticks raw
    unfolding get_balances
    balances_cached raw e = rw ((get-live now (balances_key group_id) st.cache).0, e, get_balances)

    balances_fresh :
        truthy (remembered now st.cache) ≡ none
        → get_balances json ticks now later group_id st
          ≡ fresh_answer json ticks later group_id looked_up
    unfolding get_balances
    balances_fresh e = rw ((get-live now (balances_key group_id) st.cache).0, e, get_balances)

    fresh_found :
        (g : GroupRecord)
        → lookup group_id st.engine.store.groups ≡ some g
        → let r = balances_result group_id st.engine.store in
          fresh_answer json ticks later group_id st ≡ (
            responded r,
            record st {
              cache =
                  (set ticks later
                    (balances_key group_id)
                    (json.dumps r)
                    (some balances_ttl)
                    false
                    st.cache).1;
            },
          )
    unfolding fresh_answer
    fresh_found g found = rw (found, fresh_answer)

  -- An answer just computed is what the key stands for until its time is up.
  remembered_fresh :
      (later : ℕ) (value : String) (cache : InMemoryCache) (t : ℕ)
      → later ≤ t
      → t ≤ later + balances_ttl * ticks
      → remembered t
          (set ticks later (balances_key group_id) value (some balances_ttl) false cache).1
        ≡ some value
  remembered_fresh later value cache t from til =
      rw
        (
          (set-live ticks later (balances_key group_id) value (some balances_ttl) false cache).1 t
              (balances_key group_id) from,
          eq_refl (balances_key group_id),
        )
        (ground arith)

  module _ (now later : ℕ) (st : AppState) (g : GroupRecord)
      (found : lookup group_id st.engine.store.groups ≡ some g)
      (missed : truthy (remembered now st.cache) ≡ none) where
    abbrev answer : GroupBalancesResponse
    answer = balances_result group_id st.engine.store

    abbrev kept : AppState
    kept = record st {
      cache =
          (set ticks later (balances_key group_id) (json.dumps answer) (some balances_ttl) false
            (looked_up now later st).cache).1;
    }

    pub first_answer : get_balances json ticks now later group_id st ≡ (responded answer, kept)
    first_answer =
        balances_fresh now later st missed ∙ fresh_found now later (looked_up now later st) g found

    replayed :
        (now' later' : ℕ) (engine : Engine)
        → (json.dumps answer == "") ≡ false
        → json.loads (json.dumps answer) ≡ some answer
        → later ≤ now'
        → now' ≤ later + balances_ttl * ticks
        → (get_balances json ticks now' later' group_id (record kept { engine = engine })).0
          ≡ responded (record answer { cached = true })
    unfolding cached_answer
    replayed now' later' engine filled parses from til =
        balances_cached now' later' (record kept { engine = engine }) (json.dumps answer)
          (ap truthy (
              remembered_fresh later (json.dumps answer) (looked_up now later st).cache now' from
                til)
            ∙ rw filled)
        ∙ rw (parses, cached_answer)

  -- A refreshed cache: the answers on the group are dropped, so the next answer is the true one.
  dropped-missed :
      (rt : Runtime) (draws : WorkerDraws) (w : WorkerState) (t : ℕ)
      → truthy (remembered t (dropped rt draws group_id w)) ≡ none
  unfolding delete
  dropped-missed rt draws w t =
      let key = balances_key group_id in
      let without = (delete key w.cache).1 in
      let gone : live t key without ≡ none = live-drop_key t key key w.cache ∙ rw (eq_refl key) in
      let still : live t key (dropped rt draws group_id w) ≡ none =
        live-drop_key t ("group:" ⧺ group_id ⧺ ":debts") key without ∙ rw gone (ground arith) in
      rw still

module _ {F : Type 0} (floats : Floats F) (rt : Runtime) (expense_json : Json ExpenseResponse)
    (json : Json GroupBalancesResponse) (ticks : ℕ) where
  serve_engine :
      (draws : RequestDraws) (a : ExpenseArgs F) (st : AppState)
      → (serve floats rt expense_json ticks draws a st).1
        ≡ record st { engine = (create_expense floats rt draws.service a st.engine).1 }
  unfolding serve
  serve_engine draws a st =
      let called = create_expense floats rt draws.service a st.engine in
      elim (Created-cases called.0) [
        | inl (x, made) ↦ rw (made, serve)
        | inr (x, refused) ↦ rw (refused, serve)
      ]

  -- A request without a key leaves the cache alone.
  route_engine :
      (group_id : String) (draws : RequestDraws) (header : Option String)
      (body : CreateExpenseRequest F) (st : AppState)
      → truthy (service_args group_id header body).idempotency_key ≡ none
      → let a = service_args group_id header body in
        (create_expense_route floats rt expense_json ticks draws group_id header body st).1
        ≡ record st { engine = (create_expense floats rt draws.service a st.engine).1 }
  unfolding create_expense_route
  route_engine group_id draws header body st no_key =
      rw (no_key, create_expense_route) (serve_engine draws (service_args group_id header body) st)

  -- When no answer is in the cache, `get_balances` on a group that exists answers with the balances
  -- of the stored expenses. After a request that creates an expense without an idempotency key,
  -- whatever the service does with it, `get_balances` still gives that first answer, marked as
  -- cached, until 60 seconds are over.
  pub new_expense_unseen :
      (now later now' later' : ℕ) (group_id : String) (st : AppState) (g : GroupRecord)
      (draws : RequestDraws) (header : Option String) (body : CreateExpenseRequest F)
      → lookup group_id st.engine.store.groups ≡ some g
      → truthy (remembered json ticks group_id now st.cache) ≡ none
      → truthy (service_args group_id header body).idempotency_key ≡ none
      → let r = balances_result group_id st.engine.store in
        (json.dumps r == "") ≡ false
        → json.loads (json.dumps r) ≡ some r
        → later ≤ now'
        → now' ≤ later + balances_ttl * ticks
        → let (first, kept) = get_balances json ticks now later group_id st in
          let (_, after) =
            create_expense_route floats rt expense_json ticks draws group_id header body kept in
          (first ≡ responded r)
          × ((get_balances json ticks now' later' group_id after).0
              ≡ responded (record r { cached = true }))
  new_expense_unseen now later now' later' group_id st g draws header body found missed no_key
        filled parses from til =
      let first = first_answer json ticks group_id now later st g found missed in
      let after = kept json ticks group_id now later st g found missed in
      let served = route_engine group_id draws header body after no_key in
      rw (first, served)
        (
          refl,
          replayed json ticks group_id now later st g found missed now' later' _ filled parses from
              til,
        )

-- Once the worker has handled a settlement request for a group with an expense, `get_balances`
-- does not answer from the cache: on a group that exists its answer is made of the expenses that
-- are stored then, whatever was in the cache before.
pub settlement_refreshes :
    (json : Json GroupBalancesResponse) (ticks : ℕ) (rt : Runtime) (draws : WorkerDraws)
    (group_id : String) (w : WorkerState) (x : ExpenseRecord) (l : List ExpenseRecord)
    (now later : ℕ) (engine : Engine) (g : GroupRecord)
    → (group_id == "") ≡ false
    → get_expenses_for_group group_id w.store ≡ x ∷ l
    → lookup group_id engine.store.groups ≡ some g
    → let after = (handle_settlement rt draws group_id w).1 in
      (get_balances json ticks now later group_id
        (record { engine = engine; cache = after.cache })).0
      ≡ responded (balances_result group_id engine.store)
settlement_refreshes json ticks rt draws group_id w x l now later engine g named some_ found =
    rw (handle-drops rt draws group_id w x l named some_) (
      ap (λ r. r.0)
        (first_answer json ticks group_id now later
          (record { engine = engine; cache = dropped rt draws group_id w }) g found
          (dropped-missed json ticks group_id rt draws w now)))
