-- ===== src/Messaging/Events/Forms.antt =====
-- The JSON form of the events of messaging/events.py.
use expense_settlement_engin.Common.{
  ◌≡◌, refl, sym, ap, ◌∙◌, inl, inr, Bool, true, false, none, some, [], ◌∷◌, String, if◌then◌else◌,
  ◌==◌, All, All-map, Bool-cases,
}
use expense_settlement_engin.Common.Dict.{
  Dict, lookup, get_or_found, contains, contains_found, HasDistinctKeys, lookup-entries,
}
use expense_settlement_engin.Idempotency.{Json}
use expense_settlement_engin.Messaging.Events.{
  EventClass, base, expense_created, settlement_requested, ledger_posted, settlement_completed,
  Defaults, fields_of, knows_all, fill, construct, to_json, from_json,
}

module _ {V : Type 0} where
  -- Two dicts with the same keys, in the same order.
  unfoldable pub SameKeys : Dict V → Dict V → Type 0
  SameKeys [] [] = Unit
  SameKeys [] (x ∷ e) = ⊥
  SameKeys (x ∷ d) [] = ⊥
  SameKeys ((k, v) ∷ d) ((j, w) ∷ e) = (k ≡ j) × SameKeys d e

  same_contains : (k : String) (d e : Dict V) → SameKeys d e → contains k d ≡ contains k e
  unfolding SameKeys lookup
  same_contains k [] [] h = refl
  same_contains k [] (x ∷ e) h = absurd h
  same_contains k (x ∷ d) [] h = absurd h
  same_contains k ((i, v) ∷ d) ((j, w) ∷ e) h =
      let rest = same_contains k d e h.1 in
      rw (h.0) (elim (Bool-cases (j == k)) [
        | inl here ↦ rw (here, contains)
        | inr elsewhere ↦ rw (elsewhere, contains) rest
      ])

  same-HasDistinctKeys : (d e : Dict V) → SameKeys d e → HasDistinctKeys d → HasDistinctKeys e
  unfolding SameKeys HasDistinctKeys
  same-HasDistinctKeys [] [] h distinct = tt
  same-HasDistinctKeys [] (x ∷ e) h distinct = absurd h
  same-HasDistinctKeys (x ∷ d) [] h distinct = absurd h
  same-HasDistinctKeys ((k, v) ∷ d) ((j, w) ∷ e) h distinct = (
    sym (same_contains j d e h.1) ∙ ap (λ i. contains i d) (sym h.0) ∙ distinct.0,
    same-HasDistinctKeys d e h.1 distinct.1,
  )

  -- A dict that has each entry fills in the entries.
  fill-same :
      (full d e : Dict V) → SameKeys d e → All (λ x. lookup x.0 full ≡ some x.1) e → fill d full ≡ e
  unfolding fill SameKeys
  fill-same full [] [] h all = refl
  fill-same full [] (x ∷ e) h all = absurd h
  fill-same full (x ∷ d) [] h all = absurd h
  fill-same full ((k, v) ∷ d) ((j, w) ∷ e) h all =
      rw (h.0, get_or_found j v full all.0, fill-same full d e h.1 all.1)

  knows_all-same : (d e : Dict V) → All (λ x. contains x.0 d ≡ true) e → knows_all d e ≡ true
  unfolding knows_all
  knows_all-same d [] all = refl
  knows_all-same d ((k, v) ∷ e) all = rw (all.0, knows_all) (knows_all-same d e all.1)

  construct-same : (d e : Dict V) → SameKeys d e → HasDistinctKeys e → construct d e ≡ some e
  unfolding construct
  construct-same d e h distinct =
      let entries = lookup-entries e distinct in
      let known =
        All-map _ (λ x. contains x.0 d ≡ true) e
          (λ x found. same_contains x.0 d e h ∙ contains_found x.0 e found) entries in
      rw (knows_all-same d e known, fill-same e d e h entries)

-- A test of `HasDistinctKeys`.
distinct_test : {V : Type 0} → Dict V → Bool
distinct_test [] = true
distinct_test ((k, v) ∷ d) = if contains k d then false else distinct_test d

distinct_sound : {V : Type 0} (d : Dict V) → distinct_test d ≡ true → HasDistinctKeys d
unfolding distinct_test HasDistinctKeys
distinct_sound [] h = tt
distinct_sound ((k, v) ∷ d) h = elim (Bool-cases (contains k d)) [
  | inl twice ↦ cc (rw twice at h)
  | inr once ↦ (once, distinct_sound d (rw once at h))
]

fields-HasDistinctKeys :
    {V : Type 0} (values : Defaults V) (c : EventClass) (uuid : String) (now : V)
    → HasDistinctKeys (fields_of values c uuid now)
unfolding fields_of distinct_test lookup
fields-HasDistinctKeys values base uuid now = distinct_sound _ refl
fields-HasDistinctKeys values expense_created uuid now = distinct_sound _ refl
fields-HasDistinctKeys values settlement_requested uuid now = distinct_sound _ refl
fields-HasDistinctKeys values ledger_posted uuid now = distinct_sound _ refl
fields-HasDistinctKeys values settlement_completed uuid now = distinct_sound _ refl

knows_all-keys :
    {V : Type 0} (defaults d e : Dict V)
    → SameKeys d e
    → knows_all defaults d ≡ knows_all defaults e
unfolding knows_all SameKeys
knows_all-keys defaults [] [] h = refl
knows_all-keys defaults [] (x ∷ e) h = absurd h
knows_all-keys defaults (x ∷ d) [] h = absurd h
knows_all-keys defaults ((k, v) ∷ d) ((j, w) ∷ e) h = rw (h.0, knows_all-keys defaults d e h.1)

-- Whether a class has fields of its own.
abbrev pub is_subclass : EventClass → Bool
is_subclass base = false
is_subclass _ = true

base_knows :
    {V : Type 0} (values : Defaults V) (c : EventClass) (uuid uuid' : String) (now now' : V)
    → knows_all (fields_of values base uuid' now') (fields_of values c uuid now)
      ≡ (if is_subclass c then false else true)
unfolding fields_of knows_all lookup
base_knows values base uuid uuid' now now' = refl
base_knows values expense_created uuid uuid' now now' = refl
base_knows values settlement_requested uuid uuid' now now' = refl
base_knows values ledger_posted uuid uuid' now now' = refl
base_knows values settlement_completed uuid uuid' now now' = refl

-- An instance of any class of events, whatever its fields hold, whose JSON text can be read back to
-- the dict: `from_json` of its class gives back the very instance, and none of the defaults that it
-- draws. `from_json` of `BaseEvent` raises on the text of every other class.
pub event_roundtrip :
    {V : Type 0} (values : Defaults V) (json : Json (Dict V)) (c : EventClass) (uuid uuid' : String)
    (now now' : V) (e : Dict V)
    → SameKeys (fields_of values c uuid now) e
    → json.loads (json.dumps e) ≡ some e
    → (from_json json (fields_of values c uuid now) (to_json json e) ≡ some e)
      × (is_subclass c ≡ true
          → from_json json (fields_of values base uuid' now') (to_json json e) ≡ none)
unfolding from_json to_json construct
event_roundtrip values json c uuid uuid' now now' e keys parses =
    let fields = fields_of values c uuid now in
    let distinct = same-HasDistinctKeys fields e keys (fields-HasDistinctKeys values c uuid now) in
    let known : knows_all (fields_of values base uuid' now') e
        ≡ (if is_subclass c then false else true) =
      sym (knows_all-keys (fields_of values base uuid' now') fields e keys)
      ∙ base_knows values c uuid uuid' now now' in
    (
      rw (parses, from_json) (construct-same fields e keys distinct),
      λ sub. rw (parses, from_json) (rw (known, sub)),
    )
