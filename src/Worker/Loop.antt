-- ===== src/Worker/Loop.antt =====
-- The consume loop of worker/worker.py, over the in-memory queue.
use expense_settlement_engin.Common.{
  ℕ, zero, suc, ◌+◌, ◌≡◌, refl, ap, ◌∙◌, inl, inr, none, some, List, [], ◌∷◌, String, arith, length,
  ◌==◌, Bool-cases,
}
use expense_settlement_engin.Ledger.{Runtime}
use expense_settlement_engin.Messaging.{
  EventType, expense_created, settlement_requested, ledger_posted, settlement_completed,
  settlement_failed, Payload, of_expense, of_request, of_settlement, Message, InMemoryQueue,
  consume_one,
}
use expense_settlement_engin.Worker.{
  WorkerState, WorkerDraws, Handled, handled, journal_refused, endless, handle_settlement,
}
use expense_settlement_engin.Worker.Settle.{handle_settlement_pays}

-- The worker with its counters, and the queue.
pub record LoopState : Type 0 where
  pub worker : WorkerState
  pub queue : InMemoryQueue
  pub processed : ℕ
  pub failed : ℕ

-- `payload.get("group_id", "")`
unfoldable pub group_of : Payload → String
group_of (of_expense e) = e.group_id
group_of (of_request group_id requested_by net) = group_id
group_of (of_settlement e) = e.group_id

module _ (rt : Runtime) where
  -- The handler that the type of the event asks for; the others change nothing.
  unfoldable pub handle_event :
      WorkerDraws → EventType → String → WorkerState → Handled × WorkerState
  unfolding handle_settlement
  handle_event draws settlement_requested group_id w = handle_settlement rt draws group_id w
  handle_event draws expense_created group_id w = (handled, w)
  handle_event draws ledger_posted group_id w = (handled, w)
  handle_event draws settlement_completed group_id w = (handled, w)
  handle_event draws settlement_failed group_id w = (handled, w)

  abbrev pub dispatch : WorkerDraws → Message → WorkerState → Handled × WorkerState
  dispatch draws message w = handle_event draws message.event_type (group_of message.payload) w

  -- One round of `_run_loop`. An error of the handler is counted and logged, and the loop goes on.
  unfoldable pub run_round : WorkerDraws → LoopState → LoopState
  unfolding consume_one handle_event group_of
  run_round draws s = elim (consume_one s.queue).0 [
    | none ↦ s
    | some message ↦
        let queue = (consume_one s.queue).1 in
        let (answer, w) = dispatch draws message s.worker in
        elim answer [
          | handled ↦ record s { worker = w; queue = queue; processed = s.processed + 1 }
          | journal_refused _ ↦ record s { worker = w; queue = queue; failed = s.failed + 1 }
          | endless ↦ s
        ]
  ]

  unfoldable pub run_rounds : (ℕ → WorkerDraws) → ℕ → LoopState → LoopState
  unfolding run_round
  run_rounds draws zero s = s
  run_rounds draws (suc n) s = run_rounds draws n (run_round (draws n) s)

  module _ (draws : WorkerDraws) where
    handle-answer :
        (group_id : String) (w : WorkerState) → (handle_settlement rt draws group_id w).0 ≡ handled
    unfolding handle_settlement
    handle-answer group_id w = elim (Bool-cases (group_id == "")) [
      | inl nameless ↦ rw (nameless, handle_settlement)
      | inr named ↦ (handle_settlement_pays rt draws group_id w named).0
    ]

    handle_event-answer :
        (t : EventType) (group_id : String) (w : WorkerState)
        → (handle_event draws t group_id w).0 ≡ handled
    unfolding handle_event
    handle_event-answer settlement_requested group_id w = handle-answer group_id w
    handle_event-answer expense_created group_id w = refl
    handle_event-answer ledger_posted group_id w = refl
    handle_event-answer settlement_completed group_id w = refl
    handle_event-answer settlement_failed group_id w = refl

    consumed :
        (m : Message) (rest : List Message) (q : InMemoryQueue)
        → q.queue ≡ m ∷ rest
        → consume_one q ≡ (some m, record q { queue = rest })
    unfolding consume_one
    consumed m rest q e = rw (e, consume_one)

    pub round-handles :
        (m : Message) (rest : List Message) (s : LoopState)
        → s.queue.queue ≡ m ∷ rest
        → run_round draws s ≡ record {
          worker = (dispatch draws m s.worker).1;
          queue = record s.queue { queue = rest };
          processed = s.processed + 1;
          failed = s.failed;
        }
    unfolding run_round
    round-handles m rest s e =
        let c = consumed m rest s.queue e in
        rw
          (
            ap (λ r. r.0) c,
            handle_event-answer m.event_type (group_of m.payload) s.worker,
            run_round,
          )
          (rw (ap (λ r. r.1) c))

  -- Whatever messages are in the queue, as many rounds take each of them and handle it without a
  -- failure: the queue is empty then, and every message is counted as processed.
  pub worker_drains_queue :
      (draws : ℕ → WorkerDraws) (messages : List Message) (s : LoopState)
      → s.queue.queue ≡ messages
      → let after = run_rounds draws (length messages) s in
        (after.queue.queue ≡ [])
        × (after.processed ≡ s.processed + length messages)
        × (after.failed ≡ s.failed)
  unfolding run_rounds
  worker_drains_queue draws [] s e = (e, omega arith, refl)
  worker_drains_queue draws (m ∷ messages) s e =
      let round = round-handles (draws (length messages)) m messages s e in
      let h =
        worker_drains_queue draws messages (run_round (draws (length messages)) s)
          (ap (λ t. t.queue.queue) round) in
      (h.0, h.1 ∙ rw round (omega arith), h.2 ∙ ap (λ t. t.failed) round)

module _ (rt : Runtime) (draws : WorkerDraws) where
  -- A round on an empty queue waits for a message and changes nothing.
  pub round_idle : (s : LoopState) → s.queue.queue ≡ [] → run_round rt draws s ≡ s
  unfolding run_round consume_one
  round_idle s e = rw (e, consume_one)
