-- ===== src/System/Events.antt =====
-- The events of the running program: from the outbox through the relay and the queue to the worker.
use expense_settlement_engin.Common.{
  ℕ, ◌+◌, ◌≡◌, refl, sym, ap, ◌∙◌, subst, inl, inr, Option, none, some, List, [], ◌∷◌, ◌++◌, String,
  arith, length, length-append, List-cases,
}
use mathlib.Core.List.{append_assoc}
use expense_settlement_engin.Messaging.{
  Payload, Message, OutboxEvent, InMemoryQueue, event_at, mark_published, publish, put,
}
use expense_settlement_engin.Messaging.Relay.{
  ArePositions, pending_payloads, payloads, all_payloads,
}
use expense_settlement_engin.Messaging.Log.{
  IsAppended, unpublished, append_held, mark_published_lem, publish_put,
}
use expense_settlement_engin.Worker.{WorkerDraws}
use expense_settlement_engin.Worker.Loop.{group_of, run_round, round-handles, round_idle}
use expense_settlement_engin.Routes.{
  CreateExpenseRequest, RequestDraws, service_args, create_expense_route,
}
use expense_settlement_engin.System.Effects.{
  create_expense-IsAppended, route-IsServed, create_user-OnlyStore, create_group-OnlyStore,
  add_member-OnlyStore, settle_group-effect, get_balances-engine,
}
use expense_settlement_engin.System.Handler.{dispatch-IsHandled}
use expense_settlement_engin.System.{
  System, World, worker_view, from_worker, with_outbox, Step, Reachable, user_created,
  group_created, member_added, expense_requested, balances_read, settlement_asked, relayed,
  event_taken, event_published, worked, at_start, and_then, IsTimed,
}

-- Every event that was ever appended has been taken by the worker, is in the queue, is in the hand of
-- the relay, or is pending, in this order.
pub record IsLogged (s : System) : Type 0 where
  pub positions :
      ArePositions s.app.engine.outbox.events (unpublished s.hand s.app.engine.outbox.pending)
  pub taken : List Payload
  pub counted : length taken ≡ s.processed
  pub in_order :
      all_payloads s.app.engine.outbox.events
      ≡ taken
        ++ payloads s.queue.queue
        ++ pending_payloads s.app.engine.outbox.events
            (unpublished s.hand s.app.engine.outbox.pending)
  pub no_failure : s.failed ≡ 0

-- A step that may append an event, and leaves the queue and the counters.
appended-IsLogged :
    (s t : System)
    → IsAppended s.app.engine.outbox t.app.engine.outbox
    → t.hand ≡ s.hand
    → t.queue.queue ≡ s.queue.queue
    → t.processed ≡ s.processed
    → t.failed ≡ s.failed
    → IsLogged s
    → IsLogged t
unfolding IsAppended
appended-IsLogged s t (inl same) g q p f l = record {
  positions = rw (same, g) l.positions;
  taken = l.taken;
  counted = l.counted ∙ sym p;
  in_order = rw (same, g, q) l.in_order;
  no_failure = f ∙ l.no_failure;
}
appended-IsLogged s t (inr (uuid, now, e, aggregate, x, more)) g q p f l =
    let a = append_held s.hand uuid now e aggregate x s.app.engine.outbox l.positions in
    record {
      positions = rw (more, g) a.0;
      taken = l.taken;
      counted = l.counted ∙ sym p;
      in_order = rw (more, g, q, a.1, a.2, l.in_order) (simp append_assoc);
      no_failure = f ∙ l.no_failure;
    }

-- The worker took the first message of the queue.
taken-IsLogged :
    (s t : System) (m : Message) (rest : List Message)
    → s.queue.queue ≡ m ∷ rest
    → t.app.engine.outbox ≡ s.app.engine.outbox
    → t.hand ≡ s.hand
    → t.queue.queue ≡ rest
    → t.processed ≡ s.processed + 1
    → t.failed ≡ s.failed
    → IsLogged s
    → IsLogged t
taken-IsLogged s t m rest first same g q p f l = record {
  positions = rw (same, g) l.positions;
  taken = l.taken ++ m.payload ∷ [];
  counted = omega (arith, length-append l.taken (m.payload ∷ []), l.counted, p);
  in_order = rw (same, g, q) (l.in_order ∙ rw first (simp append_assoc));
  no_failure = f ∙ l.no_failure;
}

-- The relay has taken the first event that is pending.
event_taken-IsLogged :
    (i : ℕ) (pending : List ℕ) (s : System)
    → s.hand ≡ none
    → s.app.engine.outbox.pending ≡ i ∷ pending
    → IsLogged s
    → IsLogged (
        with_outbox (record s.app.engine.outbox { pending = pending }) (record s { hand = some i }))
event_taken-IsLogged i pending s free first l =
    let o = s.app.engine.outbox in
    let same : unpublished s.hand o.pending ≡ i ∷ pending = rw (free, first) refl in
    record {
      positions = subst (ArePositions o.events) same l.positions;
      taken = l.taken;
      counted = l.counted;
      in_order =
          l.in_order
          ∙ ap (λ p. l.taken ++ payloads s.queue.queue ++ pending_payloads o.events p) same;
      no_failure = l.no_failure;
    }

-- The relay has published the event in its hand.
event_published-IsLogged :
    (uuid : String) (now i : ℕ) (e : OutboxEvent) (q : InMemoryQueue) (s : System)
    → s.hand ≡ some i
    → event_at i s.app.engine.outbox.events ≡ some e
    → publish uuid now e.event_type e.payload s.queue ≡ put q
    → IsLogged s
    → IsLogged (
        with_outbox
          (record s.app.engine.outbox { events = mark_published i s.app.engine.outbox.events })
          (record s { queue = q; hand = none }))
event_published-IsLogged uuid now i e q s held found done l =
    let o = s.app.engine.outbox in
    let same : unpublished s.hand o.pending ≡ i ∷ o.pending = rw held refl in
    let m =
      mark_published_lem i e o.events o.pending found
        (subst (ArePositions o.events) same l.positions) in
    record {
      positions = m.0;
      taken = l.taken;
      counted = l.counted;
      in_order =
          m.1
          ∙ l.in_order
          ∙ rw (same, m.2, publish_put uuid now e.event_type e.payload s.queue q done)
              (simp append_assoc);
      no_failure = l.no_failure;
    }

module _ {F : Type 0} (w : World F) where
  unchanged-IsLogged :
      (s t : System)
      → (t.app.engine.outbox ≡ s.app.engine.outbox)
      → t.hand ≡ s.hand
      → t.queue.queue ≡ s.queue.queue
      → t.processed ≡ s.processed
      → t.failed ≡ s.failed
      → IsLogged s
      → IsLogged t
  unfolding IsAppended
  unchanged-IsLogged s t same g q p f l = appended-IsLogged s t (inl same) g q p f l

  round-IsLogged :
      (draws : WorkerDraws) (now : ℕ) (s : System)
      → IsTimed s.clock now draws.journal_now
      → IsLogged s
      → IsLogged (from_worker now (run_round w.rt draws (worker_view s)) s)
  round-IsLogged draws now s timed l =
      let round = run_round w.rt draws (worker_view s) in
      elim (List-cases s.queue.queue) [
        | inl empty ↦
            let idle = round_idle w.rt draws (worker_view s) empty in
            unchanged-IsLogged s (from_worker now round s) (ap (λ t. t.worker.outbox) idle) refl
              (ap (λ t. t.queue.queue) idle) (ap (λ t. t.processed) idle) (ap (λ t. t.failed) idle)
              l
        | inr (m, rest, first) ↦
            let handles = round-handles w.rt draws m rest (worker_view s) first in
            let h =
              dispatch-IsHandled w.rt draws s.clock now timed.starts timed.later timed.onward
                timed.ends (group_of m.payload) (worker_view s).worker m.event_type in
            let between : System = record s {
              queue = record s.queue { queue = rest };
              processed = s.processed + 1;
            } in
            appended-IsLogged between (from_worker now round s)
              (subst (IsAppended s.app.engine.outbox) (sym (ap (λ t. t.worker.outbox) handles))
                h.appends)
              refl (ap (λ t. t.queue.queue) handles) (ap (λ t. t.processed) handles)
              (ap (λ t. t.failed) handles)
              (taken-IsLogged s between m rest first refl refl refl refl refl l)
      ]

  expense-IsLogged :
      (draws : RequestDraws) (group_id : String) (header : Option String)
      (body : CreateExpenseRequest F) (s t : System)
      → t.app
        ≡ (create_expense_route w.floats w.rt w.expense_json w.ticks draws group_id header body
            s.app).1
      → t.hand ≡ s.hand
      → t.queue.queue ≡ s.queue.queue
      → t.processed ≡ s.processed
      → t.failed ≡ s.failed
      → IsLogged s
      → IsLogged t
  expense-IsLogged draws group_id header body s t e g q p f l =
      let outbox = ap (λ a. a.engine.outbox) e in
      elim (route-IsServed w.floats w.rt w.expense_json w.ticks draws group_id header body s.app) [
        | inl same ↦ unchanged-IsLogged s t (outbox ∙ ap (λ x. x.outbox) same) g q p f l
        | inr served ↦
            appended-IsLogged s t
              (subst (IsAppended s.app.engine.outbox) (sym (outbox ∙ ap (λ x. x.outbox) served)) (
                create_expense-IsAppended w.floats w.rt draws.service
                  (service_args group_id header body) s.app.engine))
              g q p f l
      ]

  Step-IsLogged : {s t : System} → Step w s t → IsLogged s → IsLogged t
  Step-IsLogged (user_created uuid now name email s) l =
      unchanged-IsLogged s _ (create_user-OnlyStore uuid now name email s.app.engine).outbox refl
        refl refl refl l
  Step-IsLogged (group_created uuid now name s) l =
      unchanged-IsLogged s _ (create_group-OnlyStore uuid now name s.app.engine).outbox refl refl
        refl refl l
  Step-IsLogged (member_added group_id user_id s) l =
      unchanged-IsLogged s _ (add_member-OnlyStore group_id user_id s.app.engine).outbox refl refl
        refl refl l
  Step-IsLogged (expense_requested draws group_id header body s le) l =
      expense-IsLogged draws group_id header body s _ refl refl refl refl refl l
  Step-IsLogged (balances_read now later group_id s) l =
      unchanged-IsLogged s _
        (ap (λ e. e.outbox) (get_balances-engine w.balances_json w.ticks now later group_id s.app))
        refl refl refl refl l
  Step-IsLogged (settlement_asked uuid now group_id by s) l =
      appended-IsLogged s _ (settle_group-effect uuid now group_id by s.app.engine).0 refl refl refl
        refl l
  Step-IsLogged (relayed (event_taken i pending s free first)) l =
      event_taken-IsLogged i pending s free first l
  Step-IsLogged (relayed (event_published uuid now i e q s held found done)) l =
      event_published-IsLogged uuid now i e q s held found done l
  Step-IsLogged (worked draws now s timed) l = round-IsLogged draws now s timed l

  pub Reachable-IsLogged : {s : System} → Reachable w s → IsLogged s
  unfolding all_payloads pending_payloads
  Reachable-IsLogged at_start = record {
    positions = tt;
    taken = [];
    counted = refl;
    in_order = refl;
    no_failure = refl;
  }
  Reachable-IsLogged (and_then r step) = Step-IsLogged step (Reachable-IsLogged r)

  -- In every state that the program can reach, by any steps in any order, also while the relay waits
  -- on a full queue, no event is lost and none is handled twice: the payloads of all events ever
  -- appended are, in the order in which they were appended, those that the worker has taken, as many
  -- as it counts as processed, then those in the queue, then that of the event in the hand of the
  -- relay, if any, and those that are pending. The worker has counted no failure.
  pub no_event_lost :
      (s : System)
      → Reachable w s
      → (taken : List Payload) × (length taken ≡ s.processed)
        × (all_payloads s.app.engine.outbox.events
            ≡ taken
              ++ payloads s.queue.queue
              ++ pending_payloads s.app.engine.outbox.events
                  (unpublished s.hand s.app.engine.outbox.pending))
        × (s.failed ≡ 0)
  no_event_lost s r = let l = Reachable-IsLogged r in (l.taken, l.counted, l.in_order, l.no_failure)
