-- ===== src/Tests/Running.antt =====
-- api/, messaging/ and worker/: the program from its start, with one expense that is settled.
use expense_settlement_engin.Common.{
  ℕ, ◌+◌, ◌≤◌, ◌≡◌, refl, true, none, List, [], ◌∷◌, ◌++◌, String, length, arith, All,
}
use expense_settlement_engin.Common.Int.{pos, ◌+ℤ◌, ◌-ℤ◌, sum_by}
use expense_settlement_engin.Common.Dict.{lookup, insert, contains}
use expense_settlement_engin.Common.Text.{str_ℤ, join}
use expense_settlement_engin.Ledger.{
  make_hash, make_entry, make_entries, commit, first_bad_amount, post_journal, get_account_balance,
}
use expense_settlement_engin.Ledger.Specs.{
  post_expense_journal, expense_specs, debtor_specs, debtors_total, closing_specs, wallet,
}
use expense_settlement_engin.Ledger.Run.{PassesAudit}
use expense_settlement_engin.Store.{member, keyed_expense, get_expenses_for_group}
use expense_settlement_engin.Store
use expense_settlement_engin.GroupService
use expense_settlement_engin.GroupService.Members.{ListedOnce}
use expense_settlement_engin.Messaging.{Payload, append, queue_capacity, relay_all_pending, publish}
use expense_settlement_engin.Messaging.Log.{unpublished}
use expense_settlement_engin.Messaging.Relay.{pending_payloads, payloads, all_payloads}
use expense_settlement_engin.ExpenseService.{equal_from, split_equal, choose_splits, checked_splits}
use expense_settlement_engin.ExpenseService.Service.{store_expense, create_expense}
use expense_settlement_engin.ExpenseService.Consistency.{due_by}
use expense_settlement_engin.Worker.{WorkerDraws}
use expense_settlement_engin.Worker.Loop.{run_round}
use expense_settlement_engin.Routes.{resolve_key, service_args, serve, create_expense_route}
use expense_settlement_engin.Routes.Responses.{responded, GroupResponse, fmt_group}
use expense_settlement_engin.Routes.Users.{create_user, audit_ledger}
use expense_settlement_engin.Routes.Groups.{
  create_group, get_group, add_member, list_members, settle_group,
}
use expense_settlement_engin.System.{
  System, started, World, with_engine, worker_view, from_worker, relay, from_relay, Reachable,
  user_created, group_created, member_added, expense_requested, settlement_asked, worked, at_start,
  and_then,
}
use expense_settlement_engin.System.Relay.{Relays, Relays-Reachable, relay_runs}
use expense_settlement_engin.System.Events.{no_event_lost}
use expense_settlement_engin.System.Ledgers.{audits_pass}
use expense_settlement_engin.System.Groups.{members_are_users}
use expense_settlement_engin.System.Pipeline.{settled, asked_settlement_is_paid}
use expense_settlement_engin.Tests.Requests.{plain, whole, house, at_once}
use expense_settlement_engin.Tests.Messages.{draws}
use expense_settlement_engin.Tests.Balances.{one_answer, one_expense, lunch, dined}

abbrev world : World ℕ
world = record {
  floats = whole;
  rt = plain;
  expense_json = one_expense;
  balances_json = one_answer;
  ticks = 1;
}

abbrev with_bob : System
with_bob = with_engine (create_user "bob" 0 "Bob" "bob@x" started.app.engine).1 started

abbrev with_house : System
with_house = with_engine (create_group "g" 0 "House" with_bob.app.engine).1 with_bob

abbrev with_member : System
with_member = with_engine (add_member "g" "bob" with_house.app.engine).1 with_house

abbrev with_lunch : System
with_lunch = record with_member {
  app = (create_expense_route whole plain one_expense 1 at_once "g" none lunch with_member.app).1;
  clock = 1;
}

abbrev with_request : System
with_request = with_engine (settle_group "r" 2 "g" "bob" with_lunch.app.engine).1 with_lunch

abbrev uuids : ℕ → String
uuids n = str_ℤ (pos n)

abbrev times : ℕ → ℕ
times n = n

abbrev with_messages : System
with_messages = from_relay (relay uuids times with_request) with_request

abbrev slowly : WorkerDraws
slowly = record draws { journal_now = λ i. 5 }

abbrev with_round : System
with_round = from_worker 5 (run_round plain slowly (worker_view with_messages)) with_messages

program : Unit {0}
unfolding str_ℤ join make_hash make_entry make_entries commit first_bad_amount post_journal
    expense_specs debtor_specs closing_specs debtors_total post_expense_journal lookup insert sum_by
    ◌+ℤ◌ ◌-ℤ◌ member keyed_expense Store.create_expense append equal_from split_equal choose_splits
    checked_splits store_expense create_expense resolve_key service_args Store.create_user
    Store.email_taken Store.create_group Store.add_member GroupService.add_member create_user
    create_group add_member settle_group serve create_expense_route relay_all_pending publish
program = tt

room :
    length with_request.queue.queue + length with_request.app.engine.outbox.pending ≤ queue_capacity
unfolding program
room = omega arith

asked : Reachable world with_request
asked =
    and_then
      (and_then
        (and_then
          (and_then (and_then at_start (user_created "bob" 0 "Bob" "bob@x" started))
            (group_created "g" 0 "House" with_bob))
          (member_added "g" "bob" with_house))
        (expense_requested at_once "g" none lunch with_member (omega arith)))
      (settlement_asked "r" 2 "g" "bob" with_lunch)

ran : Reachable world with_round
ran =
    and_then
      (Relays-Reachable world (relay_runs world uuids times with_request asked refl room).0 asked)
      (worked slowly 5 with_messages (record {
        starts = omega arith;
        onward = λ i. omega arith;
        ends = λ i. omega arith;
        later = omega arith;
      }))

-- The run appends two events, for the lunch and for the request, and one of them is taken.
two-events :
    (length with_request.app.engine.outbox.events ≡ 2)
    × (length with_request.app.engine.outbox.pending ≡ 2)
unfolding program
two-events = (refl, refl)

relay_runs_example :
    let after = from_relay (relay uuids times with_request) with_request in
    Relays (length with_request.app.engine.outbox.pending) with_request after
    × (after.app.engine.outbox.pending ≡ [])
relay_runs_example = relay_runs world uuids times with_request asked refl room

no_event_lost_example :
    (taken : List Payload) × (length taken ≡ with_round.processed)
    × (all_payloads with_round.app.engine.outbox.events
        ≡ taken
          ++ payloads with_round.queue.queue
          ++ pending_payloads with_round.app.engine.outbox.events
              (unpublished with_round.hand with_round.app.engine.outbox.pending))
    × (with_round.failed ≡ 0)
no_event_lost_example = no_event_lost world with_round ran

audits_pass_example :
    let r = audit_ledger plain with_round.app.engine in
    ((r.is_balanced ≡ true) × (r.chain_integrity_ok ≡ true) × (r.chain_errors ≡ []))
    × PassesAudit plain with_round.worker_ledger
audits_pass_example = audits_pass world with_round ran

abbrev house_response : GroupResponse
house_response = record {
  id = "g";
  name = "House";
  version = 1;
  member_ids = "bob" ∷ [];
  created_at = 0;
}

house-shown : get_group "g" with_member.app.engine ≡ responded house_response
unfolding program get_group fmt_group
house-shown = refl

members_are_users_example :
    ListedOnce house_response.member_ids
    × All (λ m. contains m with_member.app.engine.store.users ≡ true) house_response.member_ids
    × (length (list_members "g" with_member.app.engine) ≡ length house_response.member_ids)
    × (house_response.version ≡ length house_response.member_ids)
members_are_users_example =
    members_are_users world with_member "g" house_response
      (and_then
        (and_then (and_then at_start (user_created "bob" 0 "Bob" "bob@x" started))
          (group_created "g" 0 "House" with_bob))
        (member_added "g" "bob" with_house))
      house-shown

abbrev quiet : System
quiet = with_engine dined started

asked_settlement_is_paid_example :
    let after = settled plain "r" 2 "g" "bob" uuids times draws 9 quiet in
    ((settle_group "r" 2 "g" "bob" dined).0
      ≡ responded (record { group_id = "g"; status = "QUEUED"; settlements = []; checksum = "" }))
    × ((u : String)
        → get_account_balance (wallet u) after.worker_ledger
          ≡ get_account_balance (wallet u) quiet.worker_ledger
            +ℤ sum_by (due_by u) (get_expenses_for_group "g" dined.store))
    × (after.queue.queue ≡ [])
    × (after.processed ≡ 1)
    × (after.failed ≡ 0)
unfolding lookup
asked_settlement_is_paid_example =
    asked_settlement_is_paid plain "r" 2 "g" "bob" uuids times draws 9 quiet house refl refl refl
      refl
