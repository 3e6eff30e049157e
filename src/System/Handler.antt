-- ===== src/System/Handler.antt =====
-- What the handler of worker/worker.py does to the store, the outbox and the ledger of the worker.
use expense_settlement_engin.Common.{
  ℕ, suc, ◌≤◌, ◌≡◌, refl, inl, inr, ◌⊎◌, List, [], ◌∷◌, String, length, Bool-cases, Option-cases,
  ◌==◌, map,
}
use expense_settlement_engin.Common.Int.{ℤ}
use expense_settlement_engin.Common.Text.{◌⧺◌}
use expense_settlement_engin.DebtSimplifier.{
  Settlement, DebtSimplifierResult, Simplified, zero_sum_violation, done, out_of_fuel, simplify,
  compute_net_balances,
}
use expense_settlement_engin.Ledger.{LedgerEngine, Runtime}
use expense_settlement_engin.Ledger.Posting.{Outcome-cases}
use expense_settlement_engin.Ledger.Run.{settlement, IsSound, later-IsSound, perform-IsSound}
use expense_settlement_engin.Ledger.Specs.{post_settlement_journal}
use expense_settlement_engin.Store.{ExpenseRecord, get_expenses_for_group}
use expense_settlement_engin.Messaging.{
  EventType, expense_created, settlement_requested, ledger_posted, settlement_completed,
  settlement_failed,
}
use expense_settlement_engin.Messaging.Log.{IsAppended}
use expense_settlement_engin.ExpenseService.Service.{raw_transaction}
use expense_settlement_engin.Worker.Loop.{handle_event}
use expense_settlement_engin.Worker.{
  WorkerState, WorkerDraws, post_all, finish_settlement, settle_result, settle_expenses,
  handle_settlement,
}

Simplified-cases :
    (s : Simplified)
    → ((r : DebtSimplifierResult) × (s ≡ done r))
      ⊎ ((x : ℤ) × (s ≡ zero_sum_violation x))
      ⊎ (s ≡ out_of_fuel)
Simplified-cases (done r) = inl (r, refl)
Simplified-cases (zero_sum_violation x) = inr (inl (x, refl))
Simplified-cases out_of_fuel = inr (inr refl)

module _ (rt : Runtime) (draws : WorkerDraws) where
  -- Journals posted at times from `since` on, until `now`, keep a ledger sound.
  post_all-IsSound :
      (i t now : ℕ) (l : List Settlement) (ledger : LedgerEngine)
      → t ≤ draws.journal_now i
      → t ≤ now
      → ((j : ℕ) → draws.journal_now j ≤ draws.journal_now (suc j))
      → ((j : ℕ) → draws.journal_now j ≤ now)
      → IsSound rt t ledger
      → IsSound rt now (post_all rt draws i l ledger).1
  unfolding post_all
  post_all-IsSound i t now [] ledger le le' onward ends s = later-IsSound rt le' s
  post_all-IsSound i t now (x ∷ l) ledger le le' onward ends s =
      let d = "Settlement: " ⧺ x.payer_id ⧺ " -> " ⧺ x.payee_id in
      let ids = draws.journal_ids i in
      let at = draws.journal_now i in
      let called =
        post_settlement_journal rt ids at x.payer_id x.payee_id x.amount_cents d ledger in
      let first =
        perform-IsSound rt ids t at (settlement x.payer_id x.payee_id x.amount_cents d) ledger le
          s in
      elim (Outcome-cases called.0) [
        | inl (j, e) ↦
            rw (e, post_all)
              (post_all-IsSound (suc i) at now l called.1 (onward i) (ends i) onward ends first)
        | inr (z, e) ↦ rw (e, post_all) (later-IsSound rt (ends i) first)
      ]

  -- The store, the outbox and the ledger after the handler.
  pub record IsHandled (since now : ℕ) (w after : WorkerState) : Type 0 where
    pub appends : IsAppended w.outbox after.outbox
    pub sound : IsSound rt since w.ledger → IsSound rt now after.ledger
    pub groups : after.store.groups ≡ w.store.groups
    pub users : after.store.users ≡ w.store.users

  module _ (since now : ℕ) (starts : since ≤ draws.journal_now 0) (later : since ≤ now)
      (onward : (j : ℕ) → draws.journal_now j ≤ draws.journal_now (suc j))
      (ends : (j : ℕ) → draws.journal_now j ≤ now) (group_id : String) (w : WorkerState) where
    idle-IsHandled : IsHandled since now w w
    unfolding IsAppended
    idle-IsHandled = record {
      appends = inl refl;
      sound = λ s. later-IsSound rt later s;
      groups = refl;
      users = refl;
    }

    result-IsHandled :
        (result : DebtSimplifierResult)
        → IsHandled since now w (settle_result rt draws group_id result w).1
    unfolding IsAppended settle_result finish_settlement
    result-IsHandled result =
        let posted = post_all rt draws 0 result.settlements w.ledger in
        let sound = λ (s : IsSound rt since w.ledger).
          post_all-IsSound 0 since now result.settlements w.ledger starts later onward ends s in
        elim (Option-cases posted.0) [
          | inl fine ↦
              rw (fine, settle_result)
                (record {
                  appends = inr (_, _, _, _, _, refl);
                  sound = sound;
                  groups = refl;
                  users = refl;
                })
          | inr (z, bad) ↦
              rw (bad, settle_result)
                (record { appends = inl refl; sound = sound; groups = refl; users = refl })
        ]

    expenses-IsHandled :
        (expenses : List ExpenseRecord)
        → IsHandled since now w (settle_expenses rt draws group_id expenses w).1
    unfolding settle_expenses
    expenses-IsHandled [] = idle-IsHandled
    expenses-IsHandled (x ∷ expenses) =
        let net = compute_net_balances (map raw_transaction (x ∷ expenses)) in
        elim (Simplified-cases (simplify rt.sha256 net (length (x ∷ expenses)))) [
          | inl (r, e) ↦ rw (e, settle_expenses) (result-IsHandled r)
          | inr (inl (z, e)) ↦ rw (e, settle_expenses) idle-IsHandled
          | inr (inr e) ↦ rw (e, settle_expenses) idle-IsHandled
        ]

    handle-IsHandled : IsHandled since now w (handle_settlement rt draws group_id w).1
    unfolding handle_settlement
    handle-IsHandled = elim (Bool-cases (group_id == "")) [
      | inl nameless ↦ rw (nameless, handle_settlement) idle-IsHandled
      | inr named ↦
          rw (named, handle_settlement)
            (expenses-IsHandled (get_expenses_for_group group_id w.store))
    ]

    -- Whatever the message asks for.
    pub dispatch-IsHandled :
        (t : EventType) → IsHandled since now w (handle_event rt draws t group_id w).1
    unfolding handle_event
    dispatch-IsHandled settlement_requested = handle-IsHandled
    dispatch-IsHandled expense_created = idle-IsHandled
    dispatch-IsHandled ledger_posted = idle-IsHandled
    dispatch-IsHandled settlement_completed = idle-IsHandled
    dispatch-IsHandled settlement_failed = idle-IsHandled
