-- ===== src/Ledger/Verify.antt =====
-- `verify_chain_integrity` of core/ledger_engine.py on intact ledgers and on wrong hashes.
use expense_settlement_engin.Common.{
  ℕ, ◌≤◌, ◌≡◌, refl, sym, ap, ◌∙◌, subst, inl, inr, true, Option, none, some, List, [], ◌∷◌, ◌++◌,
  arith, String, if◌then◌else◌, ◌==◌, eq_iff, All, All-map, Bool-cases,
}
use expense_settlement_engin.Common.Dict.{
  Dict, lookup, get_or, insert, HasDistinctKeys, get_or-insert, insert-HasDistinctKeys,
  lookup-entries,
}
use mathlib.Core.List.{append-nil, append_assoc}
use expense_settlement_engin.Ledger.Chain.{InOrder, Linked, IsIntact}
use expense_settlement_engin.Ledger.Audit.{
  group, insert_by_time, sort_by_time, entry_errors, chain_errors, all_errors,
  verify_chain_integrity,
}
use expense_settlement_engin.Ledger.{LedgerEntry, LedgerEngine, Runtime, genesis, expected_hash}

-- The entries of one account.
unfoldable pub account_entries : String → List LedgerEntry → List LedgerEntry
account_entries a [] = []
account_entries a (e ∷ es) =
    if e.account_id == a then e ∷ account_entries a es else account_entries a es

pub account_entries-All :
    (P : LedgerEntry → Type 0) (a : String) (es : List LedgerEntry)
    → All P es
    → All P (account_entries a es)
unfolding account_entries
account_entries-All P a [] h = tt
account_entries-All P a (e ∷ es) h = elim (Bool-cases (e.account_id == a)) [
  | inl here ↦ rw here (h.0, account_entries-All P a es h.1)
  | inr elsewhere ↦ rw elsewhere (account_entries-All P a es h.1)
]

pub account_entries-InOrder :
    (a : String) (es : List LedgerEntry) → InOrder es → InOrder (account_entries a es)
unfolding account_entries
account_entries-InOrder a [] h = tt
account_entries-InOrder a (e ∷ es) h = elim (Bool-cases (e.account_id == a)) [
  | inl here ↦ rw here (
    account_entries-All (λ f. e.created_at ≤ f.created_at) a es h.0,
    account_entries-InOrder a es h.1,
  )
  | inr elsewhere ↦ rw elsewhere (account_entries-InOrder a es h.1)
]

pub account_entries-snoc :
    (a : String) (es : List LedgerEntry) (e : LedgerEntry)
    → account_entries a (es ++ e ∷ [])
      ≡ account_entries a es ++ (if e.account_id == a then e ∷ [] else [])
unfolding account_entries
account_entries-snoc a [] e = refl
account_entries-snoc a (f ∷ es) e = ground (arith, account_entries-snoc a es e)

insert_by_time_first :
    (e : LedgerEntry) (l : List LedgerEntry)
    → All (λ f. e.created_at ≤ f.created_at) l
    → insert_by_time e l ≡ e ∷ l
unfolding insert_by_time
insert_by_time_first e [] h = refl
insert_by_time_first e (f ∷ l) h = ground arith

-- A list in order is sorted already.
pub sort_by_time-InOrder : (l : List LedgerEntry) → InOrder l → sort_by_time l ≡ l
unfolding sort_by_time
sort_by_time-InOrder [] h = refl
sort_by_time-InOrder (e ∷ l) h = rw (sort_by_time-InOrder l h.1) (insert_by_time_first e l h.0)

-- The groups hold, under each account, the entries of the account.
pub record IsGrouped (es : List LedgerEntry) (d : Dict (List LedgerEntry)) : Type 0 where
  pub distinct : HasDistinctKeys d
  pub holds : (a : String) → get_or a [] d ≡ account_entries a es

group_step :
    (done : List LedgerEntry) (e : LedgerEntry) (d : Dict (List LedgerEntry))
    → IsGrouped done d
    → (a : String)
    → get_or a [] (insert e.account_id (get_or e.account_id [] d ++ e ∷ []) d)
      ≡ account_entries a (done ++ e ∷ [])
group_step done e d g a =
    get_or-insert e.account_id a (get_or e.account_id [] d ++ e ∷ []) [] d
    ∙ elim (Bool-cases (e.account_id == a)) [
      | inl here ↦
          let same : e.account_id ≡ a = (eq_iff e.account_id a).0 here in
          rw (account_entries-snoc a done e, here, same, g.holds a)
      | inr elsewhere ↦ rw (account_entries-snoc a done e, elsewhere, append-nil, g.holds a)
    ]

group-IsGrouped :
    (es done : List LedgerEntry) (d : Dict (List LedgerEntry))
    → IsGrouped done d
    → IsGrouped (done ++ es) (group es d)
unfolding group
group-IsGrouped [] done d g = rw (append-nil done) g
group-IsGrouped (e ∷ es) done d g =
    let l = get_or e.account_id [] d ++ e ∷ [] in
    rw (← append_assoc done (e ∷ []) es) (
      group-IsGrouped es (done ++ e ∷ []) (insert e.account_id l d) (record {
        distinct = insert-HasDistinctKeys e.account_id l d g.distinct;
        holds = group_step done e d g;
      }))

pub grouped : (es : List LedgerEntry) → IsGrouped es (group es [])
unfolding lookup HasDistinctKeys account_entries
grouped es = group-IsGrouped es [] [] (record { distinct = tt; holds = λ a. refl })

module _ (rt : Runtime) where
  entry_errors_none :
      (a prev : String) (e : LedgerEntry)
      → e.prev_hash ≡ prev
      → e.entry_hash ≡ expected_hash rt e
      → entry_errors rt a prev e ≡ []
  unfolding entry_errors
  entry_errors_none a prev e p h =
      rw ((eq_iff e.prev_hash prev).1 p, (eq_iff (expected_hash rt e) e.entry_hash).1 (sym h))

  chain_errors-Linked :
      (a : String) (h : Dict String) (es : List LedgerEntry)
      → Linked rt h es
      → chain_errors rt a (get_or a genesis h) (account_entries a es) ≡ []
  unfolding chain_errors account_entries
  chain_errors-Linked a h [] k = refl
  chain_errors-Linked a h (e ∷ es) k =
      let ih = chain_errors-Linked a (insert e.account_id e.entry_hash h) es k.2 in
      let head = get_or-insert e.account_id a e.entry_hash genesis h in
      elim (Bool-cases (e.account_id == a)) [
        | inl here ↦
            let same : e.account_id ≡ a = (eq_iff e.account_id a).0 here in
            rw
              (
                here,
                entry_errors_none a (get_or a genesis h) e
                    (subst (λ x. e.prev_hash ≡ get_or x genesis h) same k.0) k.1,
              )
              (rw (head, here) at ih)
        | inr elsewhere ↦ rw elsewhere (rw (head, elsewhere) at ih)
      ]

  all_errors_none :
      (d : Dict (List LedgerEntry))
      → All (λ e. chain_errors rt e.0 genesis (sort_by_time e.1) ≡ []) d
      → all_errors rt d ≡ []
  unfolding all_errors
  all_errors_none [] h = refl
  all_errors_none ((a, es) ∷ d) h = rw (h.0, all_errors_none d h.1)

  -- Of a ledger with intact chains `verify_chain_integrity` reports no error.
  pub verify-IsIntact :
      (now : ℕ) (ledger : LedgerEngine)
      → IsIntact rt now ledger
      → verify_chain_integrity rt ledger ≡ (true, [])
  unfolding verify_chain_integrity lookup
  verify-IsIntact now ledger v =
      let es = ledger.entries in
      let d = group es [] in
      let g = grouped es in
      let fine : all_errors rt d ≡ [] = all_errors_none d (
        All-map (λ e. lookup e.0 d ≡ some e.1)
          (λ e. chain_errors rt e.0 genesis (sort_by_time e.1) ≡ []) d
          (λ e found.
            let held : e.1 ≡ account_entries e.0 es =
              sym (ap (λ (o : Option (List LedgerEntry)). elim o [ none ↦ [] | some w ↦ w ]) found)
              ∙ g.holds e.0 in
            rw (held, sort_by_time-InOrder _ (account_entries-InOrder e.0 es v.in_order))
              (chain_errors-Linked e.0 [] es v.linked))
          (lookup-entries d g.distinct)) in
      rw fine
