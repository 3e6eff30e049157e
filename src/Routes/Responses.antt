-- ===== src/Routes/Responses.antt =====
-- The responses of api/schemas/schemas.py, less the amounts in dollars and the texts for display,
-- and the errors that a route answers. A time stands for its text.
use expense_settlement_engin.Common.{ℕ, Bool, List, [], ◌∷◌, String}
use expense_settlement_engin.Common.Int.{ℤ}
use expense_settlement_engin.DebtSimplifier.{Settlement}
use expense_settlement_engin.Ledger.Audit.{ChainError}
use expense_settlement_engin.Store.{UserRecord, GroupRecord}

-- What a request ends with: a response, an `HTTPException` or the handler of api/main.py for
-- another exception, with the code, or nothing, when a loop does not end.
pub data Http (A : Type 0) : Type 0 where
  responded : A → Http A
  http_error : ℕ → Http A
  no_answer : Http A

pub record UserResponse : Type 0 where
  pub id : String
  pub name : String
  pub email : String
  pub version : ℕ
  pub created_at : ℕ

pub record GroupResponse : Type 0 where
  pub id : String
  pub name : String
  pub version : ℕ
  pub member_ids : List String
  pub created_at : ℕ

-- `_fmt_user`
unfoldable pub fmt_user : UserRecord → UserResponse
fmt_user u = record {
  id = u.id;
  name = u.name;
  email = u.email;
  version = u.version;
  created_at = u.created_at;
}

-- `_fmt_group`
unfoldable pub fmt_group : GroupRecord → GroupResponse
fmt_group g = record {
  id = g.id;
  name = g.name;
  version = g.version;
  member_ids = g.member_ids;
  created_at = g.created_at;
}

-- The user and the group that the message of `add_member` names.
pub record AddedMember : Type 0 where
  pub user_id : String
  pub group_id : String

pub record BalanceEntry : Type 0 where
  pub user_id : String
  pub net_cents : ℤ
  pub role : String

pub record GroupBalancesResponse : Type 0 where
  pub group_id : String
  pub member_balances : List BalanceEntry
  pub total_creditors : ℕ
  pub total_debtors : ℕ
  pub is_settled : Bool
  pub cached : Bool

pub record SettlementItem : Type 0 where
  pub payer_id : String
  pub payee_id : String
  pub amount_cents : ℤ

unfoldable pub settlement_items : List Settlement → List SettlementItem
settlement_items [] = []
settlement_items (s ∷ settlements) =
    record { payer_id = s.payer_id; payee_id = s.payee_id; amount_cents = s.amount_cents }
    ∷ settlement_items settlements

pub record SimplifyResponse : Type 0 where
  pub group_id : String
  pub settlements : List SettlementItem
  pub original_transaction_count : ℕ
  pub simplified_transaction_count : ℕ
  pub checksum : String

pub record SettleResponse : Type 0 where
  pub group_id : String
  pub status : String
  pub settlements : List SettlementItem
  pub checksum : String

pub record LedgerAuditResponse : Type 0 where
  pub total_entries : ℕ
  pub total_journals : ℕ
  pub total_debits_cents : ℤ
  pub total_credits_cents : ℤ
  pub is_balanced : Bool
  pub chain_integrity_ok : Bool
  pub chain_errors : List ChainError
