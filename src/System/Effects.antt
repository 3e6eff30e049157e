-- ===== src/System/Effects.antt =====
-- What a request of api/routes/expenses.py does to the engine that the parts share.
use expense_settlement_engin.Common.{
  ℕ, ◌≡◌, refl, sym, ap, subst, inl, inr, ◌⊎◌, none, some, Option, String, Option-cases,
}
use expense_settlement_engin.Ledger.{Runtime}
use expense_settlement_engin.Store.{InMemoryStore, truthy}
use expense_settlement_engin.Messaging.Log.{IsAppended}
use expense_settlement_engin.Idempotency.{Json, check_and_lock}
use expense_settlement_engin.Idempotency.Protocol.{Lock-cases}
use expense_settlement_engin.ExpenseService.{Floats, ExpenseArgs}
use expense_settlement_engin.ExpenseService.Conditions.Checks.{IsProper-checked_splits}
use expense_settlement_engin.ExpenseService.Create.{Accepts, create_expense_outcome, Created-cases}
use expense_settlement_engin.ExpenseService.Consistency.{IsAccepted, Accepts-IsAccepted, after}
use expense_settlement_engin.ExpenseService.Service.{Engine, Draws, store_expense, create_expense}
use expense_settlement_engin.GroupService.{Answer, ok, error, GroupError}
use expense_settlement_engin.GroupService
use expense_settlement_engin.Store
use expense_settlement_engin.Cache.{get}
use expense_settlement_engin.Routes.Responses.{GroupBalancesResponse}
use expense_settlement_engin.Routes.Groups.{create_group, add_member, settle_group}
use expense_settlement_engin.Routes.Users.{create_user}
use expense_settlement_engin.Routes.Balances.{balances_key, fresh_answer, get_balances}
use expense_settlement_engin.Routes.{
  CreateExpenseRequest, ExpenseResponse, AppState, RequestDraws, service_args, serve, serve_locked,
  gate, create_expense_route,
}

module _ {F : Type 0} (floats : Floats F) (rt : Runtime) where
  -- A call of the service leaves all as it was, or stores an accepted expense.
  pub create_expense-effect :
      (draws : Draws) (a : ExpenseArgs F) (e : Engine)
      → ((create_expense floats rt draws a e).1 ≡ e) ⊎ IsAccepted floats rt draws a e
  unfolding Accepts
  create_expense-effect draws a e = elim (create_expense_outcome floats rt draws a e) [
    | inr (_, (x, refused)) ↦ inl (ap (λ r. r.1) refused)
    | inl ((splits, proper, owes), _) ↦
        let fine = IsProper-checked_splits floats a e.store splits proper in
        inr (Accepts-IsAccepted floats rt draws a e splits fine owes).0
  ]

  accepted-IsAppended :
      (draws : Draws) (a : ExpenseArgs F) (e : Engine) (k : IsAccepted floats rt draws a e)
      → IsAppended e.outbox (after draws a k.splits k.journal k.ledger e).outbox
  unfolding IsAppended store_expense
  accepted-IsAppended draws a e k = inr (_, _, _, _, _, refl)

  pub create_expense-IsAppended :
      (draws : Draws) (a : ExpenseArgs F) (e : Engine)
      → IsAppended e.outbox (create_expense floats rt draws a e).1.outbox
  unfolding IsAppended
  create_expense-IsAppended draws a e = elim (create_expense-effect draws a e) [
    | inl same ↦ inl (ap (λ s. s.outbox) same)
    | inr k ↦
        subst (IsAppended e.outbox) (ap (λ s. s.outbox) (sym k.stored))
          (accepted-IsAppended draws a e k)
  ]

  module _ (json : Json ExpenseResponse) (ticks : ℕ) (draws : RequestDraws) where
    -- The engine as it was, or as the service leaves it.
    abbrev pub IsServed : ExpenseArgs F → AppState → AppState → Type 0
    IsServed a st after =
        (after.engine ≡ st.engine)
        ⊎ (after.engine ≡ (create_expense floats rt draws.service a st.engine).1)

    serve-IsServed :
        (a : ExpenseArgs F) (st : AppState)
        → IsServed a st (serve floats rt json ticks draws a st).1
    unfolding serve
    serve-IsServed a st =
        elim (Created-cases (create_expense floats rt draws.service a st.engine).0) [
          | inl (x, e) ↦ rw (e, serve) (inr refl)
          | inr (x, e) ↦ rw (e, serve) (inr refl)
        ]

    locked-IsServed :
        (key : String) (a : ExpenseArgs F) (st : AppState)
        → IsServed a st (serve_locked floats rt json ticks draws key a st).1
    unfolding serve_locked
    locked-IsServed key a st =
        elim (Created-cases (create_expense floats rt draws.service a st.engine).0) [
          | inl (x, e) ↦ rw (e, serve_locked) (inr refl)
          | inr (x, e) ↦ rw (e, serve_locked) (inr refl)
        ]

    gate-IsServed :
        (key : String) (a : ExpenseArgs F) (st : AppState)
        → IsServed a st (gate floats rt json ticks draws key a st).1
    unfolding gate
    gate-IsServed key a st =
        let lock = check_and_lock json ticks draws.lock_now draws.lock_later key st.cache in
        elim (Lock-cases lock.0) [
          | inl e ↦ rw (e, gate) (locked-IsServed key a (record st { cache = lock.1 }))
          | inr (none, e) ↦ rw (e, gate) (inl refl)
          | inr (some r, e) ↦ rw (e, gate) (inl refl)
        ]

    pub route-IsServed :
        (group_id : String) (header : Option String) (body : CreateExpenseRequest F) (st : AppState)
        → IsServed
            (service_args group_id header body)
            st
            (create_expense_route floats rt json ticks draws group_id header body st).1
    unfolding create_expense_route
    route-IsServed group_id header body st =
        let a = service_args group_id header body in
        elim (Option-cases (truthy a.idempotency_key)) [
          | inl none_ ↦ rw (none_, create_expense_route) (serve-IsServed a st)
          | inr (key, e) ↦ rw (e, create_expense_route) (gate-IsServed key a st)
        ]

-- A request that only works on the store, with the store that it leaves.
pub record OnlyStore (before after : Engine) (store : InMemoryStore) : Type 0 where
  pub store_is : after.store ≡ store
  pub outbox : after.outbox ≡ before.outbox
  pub ledger : after.ledger ≡ before.ledger

pub create_user-OnlyStore :
    (uuid : String) (now : ℕ) (name email : String) (e : Engine)
    → OnlyStore e
        (create_user uuid now name email e).1
        (Store.create_user uuid now name email e.store).1
unfolding create_user
create_user-OnlyStore uuid now name email e =
    elim (Option-cases (Store.create_user uuid now name email e.store).0) [
      | inl taken ↦
          rw (taken, create_user) (record { store_is = refl; outbox = refl; ledger = refl })
      | inr (u, made) ↦
          rw (made, create_user) (record { store_is = refl; outbox = refl; ledger = refl })
    ]

pub create_group-OnlyStore :
    (uuid : String) (now : ℕ) (name : String) (e : Engine)
    → OnlyStore e (create_group uuid now name e).1 (Store.create_group uuid now name e.store).1
unfolding create_group
create_group-OnlyStore uuid now name e = record { store_is = refl; outbox = refl; ledger = refl }

Answer-cases :
    {A : Type 0} (x : Answer A) → ((a : A) × (x ≡ ok a)) ⊎ ((r : GroupError) × (x ≡ error r))
Answer-cases (ok a) = inl (a, refl)
Answer-cases (error r) = inr (r, refl)

pub add_member-OnlyStore :
    (group_id user_id : String) (e : Engine)
    → OnlyStore e
        (add_member group_id user_id e).1
        (GroupService.add_member group_id user_id e.store).1
unfolding add_member
add_member-OnlyStore group_id user_id e =
    elim (Answer-cases (GroupService.add_member group_id user_id e.store).0) [
      | inl (a, fine) ↦
          rw (fine, add_member) (record { store_is = refl; outbox = refl; ledger = refl })
      | inr (r, bad) ↦
          rw (bad, add_member) (record { store_is = refl; outbox = refl; ledger = refl })
    ]

pub settle_group-effect :
    (uuid : String) (now : ℕ) (group_id by : String) (e : Engine)
    → let after = (settle_group uuid now group_id by e).1 in
      IsAppended e.outbox after.outbox × (after.ledger ≡ e.ledger) × (after.store ≡ e.store)
unfolding IsAppended settle_group
settle_group-effect uuid now group_id by e =
    elim (Option-cases (Store.get_group group_id e.store)) [
      | inl missing ↦ rw (missing, settle_group) (inl refl, refl, refl)
      | inr (g, found) ↦ rw (found, settle_group) (inr (_, _, _, _, _, refl), refl, refl)
    ]

pub get_balances-engine :
    (json : Json GroupBalancesResponse) (ticks now later : ℕ) (group_id : String) (st : AppState)
    → (get_balances json ticks now later group_id st).1.engine ≡ st.engine
unfolding get_balances fresh_answer
get_balances-engine json ticks now later group_id st =
    elim (Option-cases (truthy (get now (balances_key group_id) st.cache).0)) [
      | inr (raw, hit) ↦ rw (hit, get_balances)
      | inl miss ↦
          rw (miss, get_balances)
            (elim (Option-cases (Store.get_group group_id st.engine.store)) [
              | inl missing ↦ rw (missing, fresh_answer)
              | inr (g, found) ↦ rw (found, fresh_answer)
            ])
    ]
