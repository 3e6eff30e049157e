-- ===== src/System/Ledgers.antt =====
-- The two ledgers of the running program: the one of services/expense_service.py and the one of
-- worker/worker.py.
use expense_settlement_engin.Common.{
  List-cases, ℕ, ◌≤◌, ◌≡◌, refl, sym, ap, ◌∙◌, subst, inl, inr, Option, [], String, true,
}
use expense_settlement_engin.Ledger.{Runtime}
use expense_settlement_engin.Ledger.Run.{
  expense, IsSound, later-IsSound, perform-IsSound, empty-IsSound, PassesAudit, IsSound-PassesAudit,
}
use expense_settlement_engin.ExpenseService.{Floats, ExpenseArgs}
use expense_settlement_engin.ExpenseService.Service.{Engine, Draws, create_expense}
use expense_settlement_engin.ExpenseService.Consistency.{after-ledger}
use expense_settlement_engin.Worker.{WorkerDraws}
use expense_settlement_engin.Worker.Loop.{group_of, run_round, round-handles, round_idle}
use expense_settlement_engin.Routes.{
  CreateExpenseRequest, RequestDraws, service_args, create_expense_route,
}
use expense_settlement_engin.Routes.Users.{audit_ledger}
use expense_settlement_engin.System.Effects.{
  create_expense-effect, route-IsServed, create_user-OnlyStore, create_group-OnlyStore,
  add_member-OnlyStore, settle_group-effect, get_balances-engine,
}
use expense_settlement_engin.System.Handler.{dispatch-IsHandled}
use expense_settlement_engin.System.{
  System, World, worker_view, from_worker, Step, Reachable, user_created, group_created,
  member_added, expense_requested, balances_read, settlement_asked, relayed, event_taken,
  event_published, worked, at_start, and_then, IsTimed,
}

-- A call of the service at a time keeps its ledger sound.
create_expense-IsSound :
    {F : Type 0} (floats : Floats F) (rt : Runtime) (draws : Draws) (a : ExpenseArgs F) (e : Engine)
    (t : ℕ)
    → t ≤ draws.journal_now
    → IsSound rt t e.ledger
    → IsSound rt draws.journal_now (create_expense floats rt draws a e).1.ledger
create_expense-IsSound floats rt draws a e t le s =
    elim (create_expense-effect floats rt draws a e) [
      | inl same ↦
          subst (IsSound rt draws.journal_now) (ap (λ x. x.ledger) (sym same))
            (later-IsSound rt le s)
      | inr k ↦
          subst (IsSound rt draws.journal_now)
            (ap (λ r. r.1) k.posted
              ∙ sym (after-ledger draws a k.splits k.journal k.ledger e)
              ∙ ap (λ x. x.ledger) (sym k.stored))
            (perform-IsSound rt draws.journal_ids t draws.journal_now
              (expense a.payer_id k.splits a.title) e.ledger le s)
    ]

module _ {F : Type 0} (w : World F) where
  -- Both ledgers are sound at the time of the system.
  record AreSound (s : System) : Type 0 where
    service : IsSound w.rt s.clock s.app.engine.ledger
    worker : IsSound w.rt s.clock s.worker_ledger

  kept-AreSound :
      (s t : System)
      → t.app.engine.ledger ≡ s.app.engine.ledger
      → t.worker_ledger ≡ s.worker_ledger
      → t.clock ≡ s.clock
      → AreSound s
      → AreSound t
  kept-AreSound s t e f c h = record { service = rw (c, e) h.service; worker = rw (c, f) h.worker }

  round-AreSound :
      (draws : WorkerDraws) (now : ℕ) (s : System)
      → IsTimed s.clock now draws.journal_now
      → AreSound s
      → AreSound (from_worker now (run_round w.rt draws (worker_view s)) s)
  round-AreSound draws now s timed h = record {
    service = later-IsSound w.rt timed.later h.service;
    worker = elim (List-cases s.queue.queue) [
      | inl empty ↦
          subst (IsSound w.rt now)
            (sym (ap (λ t. t.worker.ledger) (round_idle w.rt draws (worker_view s) empty)))
            (later-IsSound w.rt timed.later h.worker)
      | inr (m, rest, first) ↦
          subst (IsSound w.rt now)
            (sym
              (ap (λ t. t.worker.ledger) (round-handles w.rt draws m rest (worker_view s) first)))
            ((dispatch-IsHandled w.rt draws s.clock now timed.starts timed.later timed.onward
                timed.ends (group_of m.payload) (worker_view s).worker m.event_type).sound
              h.worker)
    ];
  }

  expense-AreSound :
      (draws : RequestDraws) (group_id : String) (header : Option String)
      (body : CreateExpenseRequest F) (s t : System)
      → s.clock ≤ draws.service.journal_now
      → t.app
        ≡ (create_expense_route w.floats w.rt w.expense_json w.ticks draws group_id header body
            s.app).1
      → t.worker_ledger ≡ s.worker_ledger
      → t.clock ≡ draws.service.journal_now
      → AreSound s
      → AreSound t
  expense-AreSound draws group_id header body s t le e f c h =
      let ledger = ap (λ a. a.engine.ledger) e in
      record {
        service =
            elim (route-IsServed w.floats w.rt w.expense_json w.ticks draws group_id header body
              s.app) [
                | inl same ↦ rw (c, ledger, same) (later-IsSound w.rt le h.service)
                | inr served ↦
                    rw (c, ledger, served)
                      (create_expense-IsSound w.floats w.rt draws.service
                        (service_args group_id header body) s.app.engine s.clock le h.service)
              ];
        worker = rw (c, f) (later-IsSound w.rt le h.worker);
      }

  Step-AreSound : {s t : System} → Step w s t → AreSound s → AreSound t
  Step-AreSound (user_created uuid now name email s) h =
      kept-AreSound s _ (create_user-OnlyStore uuid now name email s.app.engine).ledger refl refl h
  Step-AreSound (group_created uuid now name s) h =
      kept-AreSound s _ (create_group-OnlyStore uuid now name s.app.engine).ledger refl refl h
  Step-AreSound (member_added group_id user_id s) h =
      kept-AreSound s _ (add_member-OnlyStore group_id user_id s.app.engine).ledger refl refl h
  Step-AreSound (expense_requested draws group_id header body s le) h =
      expense-AreSound draws group_id header body s _ le refl refl refl h
  Step-AreSound (balances_read now later group_id s) h =
      kept-AreSound s _
        (ap (λ e. e.ledger) (get_balances-engine w.balances_json w.ticks now later group_id s.app))
        refl refl h
  Step-AreSound (settlement_asked uuid now group_id by s) h =
      kept-AreSound s _ (settle_group-effect uuid now group_id by s.app.engine).1 refl refl h
  Step-AreSound (relayed (event_taken i pending s free first)) h =
      kept-AreSound s _ refl refl refl h
  Step-AreSound (relayed (event_published uuid now i e q s held found done)) h =
      kept-AreSound s _ refl refl refl h
  Step-AreSound (worked draws now s timed) h = round-AreSound draws now s timed h

  Reachable-AreSound : {s : System} → Reachable w s → AreSound s
  Reachable-AreSound at_start = record { service = empty-IsSound w.rt; worker = empty-IsSound w.rt }
  Reachable-AreSound (and_then r step) = Step-AreSound step (Reachable-AreSound r)

  -- In every state that the program can reach, by any steps in any order with a clock that does not
  -- go back, the route of the audit reports debits equal to credits, every hash chain intact and no
  -- error, and the audit of the worker's own ledger would report the same.
  pub audits_pass :
      (s : System)
      → Reachable w s
      → let r = audit_ledger w.rt s.app.engine in
        ((r.is_balanced ≡ true) × (r.chain_integrity_ok ≡ true) × (r.chain_errors ≡ []))
        × PassesAudit w.rt s.worker_ledger
  unfolding audit_ledger
  audits_pass s r =
      let h = Reachable-AreSound r in
      (
        IsSound-PassesAudit w.rt s.clock s.app.engine.ledger h.service,
        IsSound-PassesAudit w.rt s.clock s.worker_ledger h.worker,
      )
