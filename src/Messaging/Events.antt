-- ===== src/Messaging/Events.antt =====
-- messaging/events.py: the events as dataclasses, and their JSON form. An instance is the dict of
-- its fields, as `asdict` gives it; as in Python, a field may hold any value.
pub mod Forms
use expense_settlement_engin.Common.{
  ℕ, Bool, true, false, Option, none, some, List, [], ◌∷◌, ◌++◌, String, if◌then◌else◌,
}
use expense_settlement_engin.Common.Int.{ℤ, pos}
use expense_settlement_engin.Common.Dict.{Dict, get_or, contains}
use expense_settlement_engin.Idempotency.{Json}

-- The classes.
pub data EventClass : Type 0 where
  base expense_created settlement_requested ledger_posted settlement_completed : EventClass

-- The JSON values that are defaults.
pub record Defaults (V : Type 0) : Type 0 where
  pub text : String → V
  pub number : ℤ → V
  pub empty_list : V
  pub empty_dict : V
  pub null : V

module _ {V : Type 0} (values : Defaults V) where
  -- The fields of `BaseEvent`, which come first, with the default of `event_type` that a class has.
  unfoldable pub base_fields : String → String → V → Dict V
  base_fields event_type uuid now =
      ("event_id", values.text uuid)
      ∷ ("event_type", values.text event_type)
      ∷ ("created_at", now)
      ∷ ("version", values.number (pos 1))
      ∷ []

  -- The fields that a class adds, with their defaults.
  unfoldable pub own_fields : EventClass → Dict V
  own_fields base = []
  own_fields expense_created =
      ("expense_id", values.text "")
      ∷ ("group_id", values.text "")
      ∷ ("payer_id", values.text "")
      ∷ ("total_cents", values.number (pos 0))
      ∷ ("title", values.text "")
      ∷ ("splits", values.empty_list)
      ∷ ("idempotency_key", values.null)
      ∷ []
  own_fields settlement_requested =
      ("group_id", values.text "")
      ∷ ("requested_by", values.text "")
      ∷ ("net_balances", values.empty_dict)
      ∷ []
  own_fields ledger_posted =
      ("journal_id", values.text "")
      ∷ ("expense_id", values.text "")
      ∷ ("group_id", values.text "")
      ∷ ("total_cents", values.number (pos 0))
      ∷ []
  own_fields settlement_completed =
      ("group_id", values.text "")
      ∷ ("settlement_count", values.number (pos 0))
      ∷ ("total_settled_cents", values.number (pos 0))
      ∷ ("algorithm", values.text "MaxHeap-O(NlogN)")
      ∷ ("checksum", values.text "")
      ∷ []

  unfoldable pub default_type : EventClass → String
  default_type base = "EXPENSE_CREATED"
  default_type expense_created = "EXPENSE_CREATED"
  default_type settlement_requested = "SETTLEMENT_REQUESTED"
  default_type ledger_posted = "LEDGER_POSTED"
  default_type settlement_completed = "SETTLEMENT_COMPLETED"

  -- The fields of a class with their defaults; the uuid and the time are drawn.
  unfoldable pub fields_of : EventClass → String → V → Dict V
  unfolding base_fields own_fields default_type
  fields_of c uuid now = base_fields (default_type c) uuid now ++ own_fields c

-- `cls(**kwargs)`: a key that is no field is a `TypeError`, a field that is left out has its default.
unfoldable pub knows_all : {V : Type 0} → Dict V → Dict V → Bool
knows_all defaults [] = true
knows_all defaults ((k, v) ∷ kwargs) =
    if contains k defaults then knows_all defaults kwargs else false

unfoldable pub fill : {V : Type 0} → Dict V → Dict V → Dict V
fill [] kwargs = []
fill ((k, v) ∷ defaults) kwargs = (k, get_or k v kwargs) ∷ fill defaults kwargs

unfoldable pub construct : {V : Type 0} → Dict V → Dict V → Option (Dict V)
unfolding knows_all fill
construct defaults kwargs = if knows_all defaults kwargs then some (fill defaults kwargs) else none

module _ {V : Type 0} (json : Json (Dict V)) where
  unfoldable pub to_json : Dict V → String
  to_json event = json.dumps event

  -- `none` is a `TypeError` or a `JSONDecodeError`.
  unfoldable pub from_json : Dict V → String → Option (Dict V)
  unfolding construct
  from_json defaults data_ = elim (json.loads data_) [
    | none ↦ none
    | some kwargs ↦ construct defaults kwargs
  ]
