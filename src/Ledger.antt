-- ===== src/Ledger.antt =====
-- core/ledger_engine.py: the double-entry ledger, its journals and its hash chains.
-- What the code draws from outside is an argument: the texts of `uuid.uuid4()` that one call draws,
-- in order, and the reading of `time.time()`. Time stamps are only compared and printed: they are
-- numbers of ticks. A method returns its outcome beside the ledger that it leaves, also on a raise.
pub mod Specs
pub mod Audit
pub mod Accounts
pub mod Posting
pub mod Wallets
pub mod Journals
pub mod Settlements
pub mod Chain
pub mod Verify
pub mod Exact
pub mod Run
pub mod Imbalance
use expense_settlement_engin.Common.{
  ℕ, zero, suc, ◌+◌, Bool, true, false, not, Option, none, some, List, [], ◌∷◌, ◌++◌, map, String,
  length, if◌then◌else◌, ◌==◌, leb,
}
use expense_settlement_engin.Common.Int.{ℤ, pos, ◌+ℤ◌, ◌-ℤ◌, ltb_ℤ, eqb_ℤ, sum_by}
use expense_settlement_engin.Common.Dict.{Dict, get_or, insert}
use expense_settlement_engin.Common.Text.{str_ℤ, join, ◌⧺◌}
use expense_settlement_engin.DebtSimplifier.{Split}

pub data AccountType : Type 0 where
  user_wallet expense_clearing settlement_clearing income_control : AccountType

pub data EntryType : Type 0 where
  debit credit : EntryType

pub record LedgerEntry : Type 0 where
  pub entry_id : String
  pub journal_id : String
  pub account_id : String
  pub account_type : AccountType
  pub entry_type : EntryType
  pub amount_cents : ℤ
  pub description : String
  pub created_at : ℕ
  pub prev_hash : String
  pub entry_hash : String

pub record Journal : Type 0 where
  pub journal_id : String
  pub entries : List LedgerEntry
  pub description : String
  pub created_at : ℕ

pub record LedgerEngine : Type 0 where
  pub entries : List LedgerEntry
  pub account_heads : Dict String
  pub journals : Dict Journal

abbrev pub empty_ledger : LedgerEngine
empty_ledger = record { entries = []; account_heads = []; journals = [] }

-- One dict of `entries_spec`.
pub record EntrySpec : Type 0 where
  pub account_id : String
  pub account_type : AccountType
  pub entry_type : EntryType
  pub amount_cents : ℤ
  pub description : Option String

-- `hashlib.sha256(text.encode()).hexdigest()` and `str` of a time stamp.
pub record Runtime : Type 0 where
  pub sha256 : String → String
  pub str_time : ℕ → String

pub data LedgerError : Type 0 where
  value_error : ℤ → LedgerError
  ledger_imbalance : ℤ → ℤ → LedgerError

pub data Outcome (A : Type 0) : Type 0 where
  returned : A → Outcome A
  raised : LedgerError → Outcome A

abbrev pub debit_part : EntryType → ℤ → ℤ
debit_part debit amount = amount
debit_part credit amount = pos 0

abbrev pub credit_part : EntryType → ℤ → ℤ
credit_part debit amount = pos 0
credit_part credit amount = amount

-- The two sums over `entries`.
abbrev pub debits : List LedgerEntry → ℤ
debits = sum_by (λ e. debit_part e.entry_type e.amount_cents)

abbrev pub credits : List LedgerEntry → ℤ
credits = sum_by (λ e. credit_part e.entry_type e.amount_cents)

-- `Journal.is_balanced`
abbrev pub is_balanced : List LedgerEntry → Bool
is_balanced entries = eqb_ℤ (debits entries) (credits entries)

-- `"0" * 64`
abbrev pub genesis : String
genesis = "0000000000000000000000000000000000000000000000000000000000000000"

abbrev entry_type_value : EntryType → String
entry_type_value debit = "DEBIT"
entry_type_value credit = "CREDIT"

-- The first amount that `post_journal` rejects.
unfoldable pub first_bad_amount : List EntrySpec → Option ℤ
first_bad_amount [] = none
first_bad_amount (s ∷ specs) =
    if ltb_ℤ s.amount_cents (pos 1) then some s.amount_cents else first_bad_amount specs

module _ (rt : Runtime) where
  -- `_make_hash`
  unfoldable pub make_hash : String → String → String → EntryType → ℤ → ℕ → String → String
  unfolding str_ℤ join
  make_hash entry_id journal_id account_id entry_type amount_cents created_at prev_hash =
      rt.sha256 (
        join "|" (
          entry_id
          ∷ journal_id
          ∷ account_id
          ∷ entry_type_value entry_type
          ∷ str_ℤ amount_cents
          ∷ rt.str_time created_at
          ∷ prev_hash
          ∷ []))

  -- The hash that the fields of an entry call for.
  abbrev pub expected_hash : LedgerEntry → String
  expected_hash e =
      make_hash e.entry_id e.journal_id e.account_id e.entry_type e.amount_cents e.created_at
        e.prev_hash

  module _ (ids : ℕ → String) (now : ℕ) (description : String) where
    -- One round of the loop that builds the entries; the journal drew `ids 0`.
    unfoldable pub make_entry : ℕ → EntrySpec → Dict String → LedgerEntry
    make_entry i spec heads =
        let prev = get_or spec.account_id genesis heads in
        record {
          entry_id = ids (suc i);
          journal_id = ids 0;
          account_id = spec.account_id;
          account_type = spec.account_type;
          entry_type = spec.entry_type;
          amount_cents = spec.amount_cents;
          description = elim spec.description [ none ↦ description | some d ↦ d ];
          created_at = now;
          prev_hash = prev;
          entry_hash =
              make_hash (ids (suc i)) (ids 0) spec.account_id spec.entry_type spec.amount_cents now
                prev;
        }

    unfoldable pub make_entries : ℕ → List EntrySpec → Dict String → List LedgerEntry × Dict String
    make_entries i [] heads = ([], heads)
    make_entries i (spec ∷ specs) heads =
        let e = make_entry i spec heads in
        let (es, heads') = make_entries (suc i) specs (insert spec.account_id e.entry_hash heads) in
        (e ∷ es, heads')

    -- Everything after the check of the amounts.
    unfoldable pub commit : List EntrySpec → LedgerEngine → Outcome Journal × LedgerEngine
    commit specs ledger =
        let (entries, heads) = make_entries 0 specs ledger.account_heads in
        let journal : Journal = record {
          journal_id = ids 0;
          entries = entries;
          description = description;
          created_at = now;
        } in
        if is_balanced entries
        then (
          returned journal,
          record {
            entries = ledger.entries ++ entries;
            account_heads = heads;
            journals = insert (ids 0) journal ledger.journals;
          },
        )
        else (
          raised (ledger_imbalance (debits entries) (credits entries)),
          record ledger { account_heads = heads },
        )

    unfoldable pub post_journal : List EntrySpec → LedgerEngine → Outcome Journal × LedgerEngine
    post_journal specs ledger = elim (first_bad_amount specs) [
      | some amount ↦ (raised (value_error amount), ledger)
      | none ↦ commit specs ledger
    ]

-- `get_account_balance`
abbrev pub signed : EntryType → ℤ → ℤ
signed credit amount = amount
signed debit amount = pos 0 -ℤ amount

unfoldable pub balance_from : String → ℤ → List LedgerEntry → ℤ
balance_from account balance [] = balance
balance_from account balance (e ∷ es) =
    balance_from account
      (if e.account_id == account then balance +ℤ signed e.entry_type e.amount_cents else balance)
      es

unfoldable pub get_account_balance : String → LedgerEngine → ℤ
unfolding balance_from
get_account_balance account ledger = balance_from account (pos 0) ledger.entries
