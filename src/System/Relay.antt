-- ===== src/System/Relay.antt =====
-- `relay_all_pending` of messaging/outbox.py as steps of the running program.
use expense_settlement_engin.Common.{
  ℕ, suc, ◌+◌, ◌≤◌, ◌≡◌, refl, sym, subst, none, List, [], ◌∷◌, ◌++◌, String, arith, length,
  length-append,
}
use expense_settlement_engin.Messaging.{
  Message, OutboxEvent, InMemoryQueue, queue_capacity, mark_published, Relayed, relay_loop,
  relay_all_pending,
}
use expense_settlement_engin.Messaging.Relay.{
  ArePositions, publish_room, loop, loop-step, event_at_found, relay_delivers,
}
use expense_settlement_engin.Messaging.Log.{unpublished, mark_published_lem}
use expense_settlement_engin.System.Events.{Reachable-IsLogged}
use expense_settlement_engin.System.{
  System, World, relay, from_relay, Reachable, RelayStep, relayed, event_taken, event_published,
  and_then,
}

-- So many events, one after the other, each taken from what is pending and then published.
pub data Relays : ℕ → System → System → Type 0 where
  at_end : (s : System) → Relays 0 s s
  one_more :
      {n : ℕ} {s t u v : System} → RelayStep s t → RelayStep t u → Relays n u v → Relays (suc n) s v

module _ {F : Type 0} (w : World F) where
  -- Such a run is one of the whole program.
  pub Relays-Reachable : {n : ℕ} {s t : System} → Relays n s t → Reachable w s → Reachable w t
  Relays-Reachable (at_end s) r = r
  Relays-Reachable (one_more taken published rest) r =
      Relays-Reachable rest (and_then (and_then r (relayed taken)) (relayed published))

module _ (uuids : ℕ → String) (times : ℕ → ℕ) where
  -- The system after a relay, with nothing in its hand.
  abbrev idle : Relayed InMemoryQueue → System → System
  idle r s = record (from_relay r s) { hand = none }

  -- The state in which the loop is about to test whether anything is pending.
  abbrev at_test : ℕ → List ℕ → List OutboxEvent → InMemoryQueue → System → System
  at_test count pending events q s =
      idle
        (record {
          count = count;
          outbox = record { events = events; pending = pending };
          queue = q;
        })
        s

  loop-Relays :
      (count : ℕ) (pending : List ℕ) (events : List OutboxEvent) (q : InMemoryQueue) (s : System)
      → ArePositions events pending
      → length q.queue + length pending ≤ queue_capacity
      → Relays
          (length pending)
          (at_test count pending events q s)
          (idle (loop uuids times count pending events q) s)
  unfolding relay_loop
  loop-Relays count [] events q s at room = at_end (at_test count [] events q s)
  loop-Relays count (i ∷ pending) events q s at room =
      let (e, found) = event_at_found i events at.0 in
      let message : Message = record {
        id = uuids count;
        event_type = e.event_type;
        payload = e.payload;
        created_at = times count;
      } in
      let q' : InMemoryQueue = record q { queue = q.queue ++ message ∷ [] } in
      let published =
        publish_room (uuids count) (times count) e.event_type e.payload q (omega arith) in
      let before = at_test count (i ∷ pending) events q s in
      subst (λ t. Relays (suc (length pending)) before (idle t s))
        (sym (loop-step uuids times count i pending events q q' e found published))
        (one_more (event_taken i pending before refl refl)
          (event_published (uuids count) (times count) i e q' _ refl found published)
          (loop-Relays (count + 1) pending (mark_published i events) q' s
            (mark_published_lem i e events pending found at).0
            (omega (arith, length-append q.queue (message ∷ [])))))

module _ {F : Type 0} (w : World F) (uuids : ℕ → String) (times : ℕ → ℕ) where
  -- In a state that the program can reach, with nothing in the relay's hand and with room in the
  -- queue for all that is pending, the whole of `relay_all_pending` is a sequence of the relay's
  -- steps: it takes and publishes as many events as are pending, one after the other, and nothing is
  -- pending then.
  pub relay_runs :
      (s : System)
      → Reachable w s
      → s.hand ≡ none
      → length s.queue.queue + length s.app.engine.outbox.pending ≤ queue_capacity
      → let after = from_relay (relay uuids times s) s in
        Relays (length s.app.engine.outbox.pending) s after × (after.app.engine.outbox.pending ≡ [])
  unfolding relay_all_pending
  relay_runs s r free room =
      let same : s ≡ record s { hand = none } = λ i. record s { hand = free i } in
      let o = s.app.engine.outbox in
      let positions : ArePositions o.events o.pending =
        subst (λ h. ArePositions o.events (unpublished h o.pending)) free
          (Reachable-IsLogged w r).positions in
      (
        subst (λ t. Relays (length o.pending) t (from_relay (relay uuids times s) t)) (sym same)
            (loop-Relays uuids times 0 o.pending o.events s.queue s positions room),
        (relay_delivers uuids times o s.queue positions room).1,
      )
