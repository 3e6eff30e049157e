-- ===== src/System/Groups.antt =====
-- The groups of the running program: services/group_service.py and database/store.py under the
-- routes of api/.
use expense_settlement_engin.Common.{
  List-cases, ℕ, ◌≡◌, refl, sym, ap, ◌∙◌, subst, inl, inr, [], String, true, length, All, All-map,
  Bool-cases, Option-cases,
}
use expense_settlement_engin.Common.{length-map}
use expense_settlement_engin.Common.Dict.{
  lookup, contains, insert, All-insert, All-lookup, contains-insert,
}
use expense_settlement_engin.Ledger.{Runtime}
use expense_settlement_engin.Store.{
  UserRecord, GroupRecord, InMemoryStore, email_taken, existing_expense, ExpenseData,
}
use expense_settlement_engin.Store
use expense_settlement_engin.GroupService.{get_members}
use expense_settlement_engin.GroupService.Members.{
  ListedOnce, IsGroup, AllGroups, add_member-AllGroups, get_members-length,
}
use expense_settlement_engin.ExpenseService.{Floats, ExpenseArgs}
use expense_settlement_engin.ExpenseService.Service.{
  Engine, Draws, store_expense, stored_data, create_expense,
}
use expense_settlement_engin.ExpenseService.Consistency.{after}
use expense_settlement_engin.Worker.{WorkerDraws}
use expense_settlement_engin.Worker.Loop.{group_of, run_round, round-handles, round_idle}
use expense_settlement_engin.Routes.{service_args}
use expense_settlement_engin.Routes.Responses.{
  responded, http_error, no_answer, GroupResponse, fmt_user, fmt_group,
}
use expense_settlement_engin.Routes.Groups.{get_group, list_members}
use expense_settlement_engin.System.Effects.{
  create_user-OnlyStore, create_group-OnlyStore, add_member-OnlyStore, settle_group-effect,
  create_expense-effect, route-IsServed, get_balances-engine,
}
use expense_settlement_engin.System.Handler.{dispatch-IsHandled}
use expense_settlement_engin.System.{
  System, World, worker_view, from_worker, Step, Reachable, user_created, group_created,
  member_added, expense_requested, balances_read, settlement_asked, relayed, event_taken,
  event_published, worked, at_start, and_then, IsTimed,
}

-- Two stores with the same users and groups.
abbrev SameGroups : InMemoryStore → InMemoryStore → Type 0
SameGroups before after = (after.groups ≡ before.groups) × (after.users ≡ before.users)

same-AllGroups : (s t : InMemoryStore) → SameGroups s t → AllGroups s → AllGroups t
unfolding AllGroups
same-AllGroups s t same h = rw (same.0, same.1) h

-- More users leave the groups well formed.
more_users-AllGroups :
    (uuid : String) (u : UserRecord) (s : InMemoryStore)
    → AllGroups s
    → AllGroups (record s { users = insert uuid u s.users })
unfolding AllGroups
more_users-AllGroups uuid u s h =
    All-map _ _ s.groups
      (λ e g. record {
        once = g.once;
        counted = g.counted;
        known = All-map _ _ e.1.member_ids (λ m k. contains-insert uuid m u s.users k) g.known;
      })
      h

create_user-AllGroups :
    (uuid : String) (now : ℕ) (name email : String) (s : InMemoryStore)
    → AllGroups s
    → AllGroups (Store.create_user uuid now name email s).1
unfolding Store.create_user
create_user-AllGroups uuid now name email s h = elim (Bool-cases (email_taken email s.users)) [
  | inl taken ↦ rw (taken, Store.create_user) h
  | inr free ↦ rw (free, Store.create_user) (more_users-AllGroups uuid _ s h)
]

create_group-AllGroups :
    (uuid : String) (now : ℕ) (name : String) (s : InMemoryStore)
    → AllGroups s
    → AllGroups (Store.create_group uuid now name s).1
unfolding AllGroups Store.create_group
create_group-AllGroups uuid now name s h =
    let group : GroupRecord = record {
      id = uuid;
      name = name;
      version = 0;
      created_at = now;
      member_ids = [];
    } in
    All-insert (IsGroup s.users) uuid group s.groups
      (record { once = tt; counted = refl; known = tt }) h

-- An expense is stored without a change of users or groups.
create_expense-SameGroups :
    (uuid : String) (now : ℕ) (d : ExpenseData) (s : InMemoryStore)
    → SameGroups s (Store.create_expense uuid now d s).1
unfolding Store.create_expense
create_expense-SameGroups uuid now d s =
    elim (Option-cases (existing_expense d.idempotency_key s)) [
      | inl fresh ↦ rw (fresh, Store.create_expense) (refl, refl)
      | inr (x, found) ↦ rw (found, Store.create_expense) (refl, refl)
    ]

accepted-SameGroups :
    {F : Type 0} (floats : Floats F) (rt : Runtime) (draws : Draws) (a : ExpenseArgs F) (e : Engine)
    → SameGroups e.store (create_expense floats rt draws a e).1.store
unfolding store_expense
accepted-SameGroups floats rt draws a e = elim (create_expense-effect floats rt draws a e) [
  | inl same ↦ rw same (refl, refl)
  | inr k ↦ rw k.stored (
      create_expense-SameGroups draws.expense_uuid draws.expense_now (stored_data a k.splits)
        e.store)
]

answered : {A : Type 0} (x y : A) → responded x ≡ responded y → x ≡ y
answered x y e = ap (λ h. elim h [ responded a ↦ a | http_error _ ↦ x | no_answer ↦ x ]) e

refused : {A : Type 0} (y : A) → http_error 404 ≡ responded y → ⊥
refused y e = cc e

module _ {F : Type 0} (w : World F) where
  abbrev HasGroups : System → Type 0
  HasGroups s = AllGroups s.app.engine.store

  round-HasGroups :
      (draws : WorkerDraws) (now : ℕ) (s : System)
      → IsTimed s.clock now draws.journal_now
      → HasGroups s
      → HasGroups (from_worker now (run_round w.rt draws (worker_view s)) s)
  round-HasGroups draws now s timed h =
      let store = s.app.engine.store in
      elim (List-cases s.queue.queue) [
        | inl empty ↦
            subst AllGroups
              (sym (ap (λ t. t.worker.store) (round_idle w.rt draws (worker_view s) empty))) h
        | inr (m, rest, first) ↦
            let d =
              dispatch-IsHandled w.rt draws s.clock now timed.starts timed.later timed.onward
                timed.ends (group_of m.payload) (worker_view s).worker m.event_type in
            subst AllGroups
              (sym
                (ap (λ t. t.worker.store) (round-handles w.rt draws m rest (worker_view s) first)))
              (same-AllGroups store _ (d.groups, d.users) h)
      ]

  Step-HasGroups : {s t : System} → Step w s t → HasGroups s → HasGroups t
  Step-HasGroups (user_created uuid now name email s) h =
      subst AllGroups (sym (create_user-OnlyStore uuid now name email s.app.engine).store_is)
        (create_user-AllGroups uuid now name email s.app.engine.store h)
  Step-HasGroups (group_created uuid now name s) h =
      subst AllGroups (sym (create_group-OnlyStore uuid now name s.app.engine).store_is)
        (create_group-AllGroups uuid now name s.app.engine.store h)
  Step-HasGroups (member_added group_id user_id s) h =
      subst AllGroups (sym (add_member-OnlyStore group_id user_id s.app.engine).store_is)
        (add_member-AllGroups group_id user_id s.app.engine.store h).0
  Step-HasGroups (expense_requested draws group_id header body s le) h =
      elim (route-IsServed w.floats w.rt w.expense_json w.ticks draws group_id header body s.app) [
        | inl same ↦ subst AllGroups (ap (λ e. e.store) (sym same)) h
        | inr served ↦ subst AllGroups (ap (λ e. e.store) (sym served)) (
            same-AllGroups s.app.engine.store _
              (accepted-SameGroups w.floats w.rt draws.service (service_args group_id header body)
                s.app.engine)
              h)
      ]
  Step-HasGroups (balances_read now later group_id s) h =
      subst AllGroups
        (ap (λ e. e.store)
          (sym (get_balances-engine w.balances_json w.ticks now later group_id s.app)))
        h
  Step-HasGroups (settlement_asked uuid now group_id by s) h =
      subst AllGroups (sym (settle_group-effect uuid now group_id by s.app.engine).2) h
  Step-HasGroups (relayed (event_taken i pending s free first)) h = h
  Step-HasGroups (relayed (event_published uuid now i e q s held found done)) h = h
  Step-HasGroups (worked draws now s timed) h = round-HasGroups draws now s timed h

  Reachable-HasGroups : {s : System} → Reachable w s → HasGroups s
  unfolding AllGroups
  Reachable-HasGroups at_start = tt
  Reachable-HasGroups (and_then r step) = Step-HasGroups step (Reachable-HasGroups r)

  -- In every state that the program can reach, by any steps in any order: whenever `get_group`
  -- answers with a group, each member is listed once and is a user, and `list_members` shows as
  -- many users as the group lists and as its version counts.
  pub members_are_users :
      (s : System) (group_id : String) (r : GroupResponse)
      → Reachable w s
      → get_group group_id s.app.engine ≡ responded r
      → ListedOnce r.member_ids
        × All (λ m. contains m s.app.engine.store.users ≡ true) r.member_ids
        × (length (list_members group_id s.app.engine) ≡ length r.member_ids)
        × (r.version ≡ length r.member_ids)
  unfolding AllGroups get_group list_members fmt_group
  members_are_users s group_id r reach e =
      elim (Option-cases (lookup group_id s.app.engine.store.groups)) [
        | inl missing ↦ absurd (refused r (sym (rw (missing, get_group)) ∙ e))
        | inr (g, found) ↦
            let h = Reachable-HasGroups reach in
            let is = All-lookup (IsGroup s.app.engine.store.users) group_id _ h found in
            let same : fmt_group g ≡ r = answered _ r (sym (rw (found, get_group)) ∙ e) in
            subst
              (λ r.
                ListedOnce r.member_ids
                × All (λ m. contains m s.app.engine.store.users ≡ true) r.member_ids
                × (length (list_members group_id s.app.engine) ≡ length r.member_ids)
                × (r.version ≡ length r.member_ids))
              same
              (
                is.once,
                is.known,
                length-map (get_members group_id s.app.engine.store) fmt_user
                    ∙ get_members-length group_id s.app.engine.store g h found
                    ∙ is.counted,
                is.counted,
              )
      ]
