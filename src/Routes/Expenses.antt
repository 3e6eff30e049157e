-- ===== src/Routes/Expenses.antt =====
-- `create_expense` of api/routes/expenses.py: the same key twice, and a request that failed.
use expense_settlement_engin.Common.{
  ℕ, ◌+◌, ◌≤◌, ◌≡◌, refl, sym, ap, ◌∙◌, inl, inr, false, Option, none, some, String, ◌==◌,
}
use expense_settlement_engin.Ledger.{Runtime}
use expense_settlement_engin.Store.{ExpenseRecord, truthy}
use expense_settlement_engin.Idempotency.{
  Json, processing, acquired, duplicate, check_and_lock, store_response, release,
}
use expense_settlement_engin.Idempotency.Protocol.{
  entry, ttl_ticks, locked, check_free, response_replayed, release_unlocks,
}
use expense_settlement_engin.ExpenseService.Service.{Engine, created, rejected, create_expense}
use expense_settlement_engin.ExpenseService.{Floats, ExpenseArgs, ExpenseError}
use expense_settlement_engin.ExpenseService.Create.{create_expense_outcome}
use expense_settlement_engin.Routes.{
  CreateExpenseRequest, ExpenseResponse, fmt_expense, AppState, replied, bad_request, RequestDraws,
  service_args, serve_locked, gate, create_expense_route,
}

module _ {F : Type 0} (floats : Floats F) (rt : Runtime) (json : Json ExpenseResponse)
    (ticks : ℕ) where
  module _ (draws : RequestDraws) (key : String) (a : ExpenseArgs F) (st : AppState) where
    gate_acquired :
        (check_and_lock json ticks draws.lock_now draws.lock_later key st.cache).0 ≡ acquired
        → gate floats rt json ticks draws key a st
          ≡ serve_locked floats rt json ticks draws key a (record st {
            cache = (check_and_lock json ticks draws.lock_now draws.lock_later key st.cache).1;
          })
    unfolding gate
    gate_acquired e = rw (e, gate)

    gate_duplicate :
        (r : ExpenseResponse)
        → (check_and_lock json ticks draws.lock_now draws.lock_later key st.cache).0
          ≡ duplicate (some r)
        → ((gate floats rt json ticks draws key a st).0 ≡ replied r)
          × ((gate floats rt json ticks draws key a st).1.engine ≡ st.engine)
    unfolding gate
    gate_duplicate r e = rw (e, gate) (refl, refl)

    served_created :
        (x : ExpenseRecord) (after : Engine)
        → create_expense floats rt draws.service a st.engine ≡ (created x, after)
        → serve_locked floats rt json ticks draws key a st ≡ (
          replied (fmt_expense x),
          record {
            engine = after;
            cache = store_response json ticks draws.store_now key (fmt_expense x) st.cache;
          },
        )
    unfolding serve_locked
    served_created x after e = rw (ap (λ r. r.0) e, ap (λ r. r.1) e, serve_locked)

    served_rejected :
        (x : ExpenseError) (after : Engine)
        → create_expense floats rt draws.service a st.engine ≡ (rejected x, after)
        → serve_locked floats rt json ticks draws key a st
          ≡ (bad_request x, record { engine = after; cache = release key st.cache })
    unfolding serve_locked
    served_rejected x after e = rw (ap (λ r. r.0) e, ap (λ r. r.1) e, serve_locked)

    -- A rejected call of the service changes nothing.
    rejected_keeps :
        (x : ExpenseError) (after : Engine)
        → create_expense floats rt draws.service a st.engine ≡ (rejected x, after)
        → after ≡ st.engine
    rejected_keeps x after e = elim (create_expense_outcome floats rt draws.service a st.engine) [
      | inl (_, (y, z, made)) ↦ cc (ap (λ r. r.0) e, ap (λ r. r.0) made)
      | inr (_, (y, same)) ↦ sym (ap (λ r. r.1) e) ∙ ap (λ r. r.1) same
    ]

  module _ (group_id : String) (header : Option String) (body : CreateExpenseRequest F)
      (key : String) (draws : RequestDraws) (st : AppState) where
    abbrev args : ExpenseArgs F
    args = service_args group_id header body

    route-gate :
        truthy args.idempotency_key ≡ some key
        → create_expense_route floats rt json ticks draws group_id header body st
          ≡ gate floats rt json ticks draws key args st
    unfolding create_expense_route
    route-gate e = rw (e, create_expense_route)

    -- A first request with a free key is what the service makes of it under the lock.
    route_first :
        truthy args.idempotency_key ≡ some key
        → entry json ticks key draws.lock_now st.cache ≡ none
        → create_expense_route floats rt json ticks draws group_id header body st
          ≡ serve_locked floats rt json ticks draws key args (record st {
            cache = (locked json ticks key draws.lock_now draws.lock_later st.cache).1;
          })
    route_first e free =
        let locks = check_free json ticks key draws.lock_now draws.lock_later st.cache free in
        route-gate e
        ∙ gate_acquired draws key args st (ap (λ r. r.0) locks)
        ∙ ap (λ r. serve_locked floats rt json ticks draws key args (record st { cache = r.1 }))
            locks

  -- When the service accepts the first request with a free key, that request gets the new expense.
  -- Any other request with the same key, whatever else it says, gets the very same response and
  -- changes neither store nor ledger nor outbox, until the time to live of the response is over,
  -- if nothing else is done with the key.
  pub same_key_replays :
      (group_id group_id' : String) (header header' : Option String)
      (body body' : CreateExpenseRequest F) (key : String) (draws draws' : RequestDraws)
      (st : AppState) (x : ExpenseRecord) (after : Engine)
      → truthy (service_args group_id header body).idempotency_key ≡ some key
      → truthy (service_args group_id' header' body').idempotency_key ≡ some key
      → entry json ticks key draws.lock_now st.cache ≡ none
      → create_expense floats rt draws.service (service_args group_id header body) st.engine
        ≡ (created x, after)
      → (json.dumps (fmt_expense x) == "") ≡ false
      → (json.dumps (fmt_expense x) == processing) ≡ false
      → json.loads (json.dumps (fmt_expense x)) ≡ some (fmt_expense x)
      → draws.store_now ≤ draws'.lock_now
      → draws'.lock_now ≤ draws'.lock_later
      → draws'.lock_later ≤ draws.store_now + ttl_ticks json ticks key
      → let (first, then_) =
          create_expense_route floats rt json ticks draws group_id header body st in
        let (second, last) =
          create_expense_route floats rt json ticks draws' group_id' header' body' then_ in
        (first ≡ replied (fmt_expense x))
        × (then_.engine ≡ after)
        × (second ≡ replied (fmt_expense x))
        × (last.engine ≡ after)
  same_key_replays group_id group_id' header header' body body' key draws draws' st x after e e'
        free made full other parses le le' fits =
      let a = service_args group_id header body in
      let cache = (locked json ticks key draws.lock_now draws.lock_later st.cache).1 in
      let first =
        route_first group_id header body key draws st e free
        ∙ served_created draws key a (record st { cache = cache }) x after made in
      let then_ : AppState = record {
        engine = after;
        cache = store_response json ticks draws.store_now key (fmt_expense x) cache;
      } in
      let again =
        gate_duplicate draws' key (service_args group_id' header' body') then_ (fmt_expense x) (
          response_replayed json ticks key draws.store_now draws'.lock_now draws'.lock_later
            (fmt_expense x) cache full other parses le le' fits) in
      rw (first, route-gate group_id' header' body' key draws' then_ e')
        (refl, refl, again.0, again.1)

  -- When the service rejects the first request with a free key, the answer is 400, neither store
  -- nor ledger nor outbox has changed, and the key can be locked again at once.
  pub rejected_can_retry :
      (group_id : String) (header : Option String) (body : CreateExpenseRequest F) (key : String)
      (draws : RequestDraws) (st : AppState) (error : ExpenseError) (after : Engine)
      → truthy (service_args group_id header body).idempotency_key ≡ some key
      → entry json ticks key draws.lock_now st.cache ≡ none
      → create_expense floats rt draws.service (service_args group_id header body) st.engine
        ≡ (rejected error, after)
      → let (answer, then_) =
          create_expense_route floats rt json ticks draws group_id header body st in
        (answer ≡ bad_request error)
        × (then_.engine ≡ st.engine)
        × ((now later : ℕ) → (check_and_lock json ticks now later key then_.cache).0 ≡ acquired)
  rejected_can_retry group_id header body key draws st error after e free failed =
      let a = service_args group_id header body in
      let cache = (locked json ticks key draws.lock_now draws.lock_later st.cache).1 in
      let under_lock : AppState = record st { cache = cache } in
      rw
        (route_first group_id header body key draws st e free
          ∙ served_rejected draws key a under_lock error after failed)
        (
          refl,
          rejected_keeps draws key a under_lock error after failed,
          λ now later. release_unlocks json ticks key now later cache,
        )
