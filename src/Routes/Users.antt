-- ===== src/Routes/Users.antt =====
-- api/routes/users.py, and the audit and health routes of api/routes/ledger.py.
use expense_settlement_engin.Common.{ℕ, none, some, List, map, String}
use expense_settlement_engin.Ledger.{Runtime}
use expense_settlement_engin.Ledger.Audit.{audit_report}
use expense_settlement_engin.Messaging.{qsize}
use expense_settlement_engin.Store.{list_users}
use expense_settlement_engin.Store
use expense_settlement_engin.ExpenseService.Service.{Engine}
use expense_settlement_engin.Worker.Loop.{LoopState}
use expense_settlement_engin.Routes.Responses.{
  Http, responded, http_error, UserResponse, fmt_user, LedgerAuditResponse,
}

-- `create_user`; the `ValueError` of a taken email is 409.
unfoldable pub create_user : String → ℕ → String → String → Engine → Http UserResponse × Engine
unfolding Store.create_user fmt_user
create_user uuid now name email e =
    let (user, store) = Store.create_user uuid now name email e.store in
    elim user [
      | none ↦ (http_error 409, record e { store = store })
      | some u ↦ (responded (fmt_user u), record e { store = store })
    ]

unfoldable pub list_users_route : Engine → List UserResponse
unfolding fmt_user
list_users_route e = map fmt_user (Store.list_users e.store)

unfoldable pub get_user : String → Engine → Http UserResponse
unfolding fmt_user
get_user user_id e = elim (Store.get_user user_id e.store) [
  | none ↦ http_error 404
  | some user ↦ responded (fmt_user user)
]

-- `audit_ledger`, on the ledger of the service, which `get_shared_ledger` returns.
unfoldable pub audit_ledger : Runtime → Engine → LedgerAuditResponse
unfolding audit_report
audit_ledger rt e =
    let report = audit_report rt e.ledger in
    record {
      total_entries = report.total_entries;
      total_journals = report.total_journals;
      total_debits_cents = report.total_debits_cents;
      total_credits_cents = report.total_credits_cents;
      is_balanced = report.is_balanced;
      chain_integrity_ok = report.chain_integrity_ok;
      chain_errors = report.chain_errors;
    }

-- The answer of `health_check`, less its constants.
pub record HealthResponse : Type 0 where
  pub processed : ℕ
  pub failed : ℕ
  pub queue_size : ℕ

unfoldable pub health_check : LoopState → HealthResponse
health_check s = record { processed = s.processed; failed = s.failed; queue_size = qsize s.queue }
