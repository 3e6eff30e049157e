-- ===== src/Routes/Schemas/Replies.antt =====
-- The errors of services/expense_service.py that are left when the total and the split type are
-- those that api/schemas/schemas.py lets through.
use expense_settlement_engin.Common.{
  ℕ, ◌≡◌, refl, inl, inr, Bool, true, false, Option, none, some, List, [], ◌∷◌, String, arith,
  eq_iff, ◌==◌, Bool-cases, Option-cases, List-cases, map,
}
use expense_settlement_engin.Common.Int.{ℤ, pos, ◌+ℤ◌, ltb_ℤ, eqb_ℤ, sum_by}
use expense_settlement_engin.DebtSimplifier.{Split}
use expense_settlement_engin.Ledger.{Runtime}
use expense_settlement_engin.Store.{InMemoryStore, get_group, member, truthy}
use expense_settlement_engin.Idempotency.{Json, check_and_lock}
use expense_settlement_engin.ExpenseService.{
  Floats, SplitInput, ExpenseArgs, ExpenseError, total_too_small, unknown_split_type, Checked,
  valid, invalid, split_equal, read_all, to_split, amount_of, split_exact, split_percentage,
  percentage_from, prepend, with_input, choose_splits, checked_splits,
}
use expense_settlement_engin.ExpenseService.Splits.{Portion-cases}
use expense_settlement_engin.ExpenseService.Create.{valid-cases, posting, Created-cases}
use expense_settlement_engin.Ledger.Posting.{Outcome-cases}
use expense_settlement_engin.ExpenseService.Service.{
  Engine, Draws, Created, created, rejected, store_expense, create_expense,
}
use expense_settlement_engin.Idempotency.Protocol.{Lock-cases}
use expense_settlement_engin.Routes.{
  CreateExpenseRequest, ExpenseResponse, AppState, Reply, bad_request, RequestDraws, service_args,
  serve, serve_locked, gate, create_expense_route,
}

-- The two errors of the service that the schema is there to prevent.
unfoldable pub is_schema_error : ExpenseError → Bool
is_schema_error (total_too_small _) = true
is_schema_error unknown_split_type = true
is_schema_error _ = false

abbrev Avoids : {A : Type 0} → Checked A → Type 0
Avoids (valid _) = Unit
Avoids (invalid x) = is_schema_error x ≡ false

abbrev pub is_allowed : String → Bool
is_allowed v = member v ("EQUAL" ∷ "EXACT" ∷ "PERCENTAGE" ∷ [])

split_equal-Avoids : (total : ℤ) (l : List String) → Avoids (split_equal total l)
unfolding split_equal is_schema_error
split_equal-Avoids total [] = refl
split_equal-Avoids total (x ∷ l) = tt

prepend-Avoids : (s : Split) (c : Checked (List Split)) → Avoids c → Avoids (prepend s c)
prepend-Avoids s (valid _) h = tt
prepend-Avoids s (invalid x) h = h

module _ {F : Type 0} where
  split_exact-Avoids : (l : List (SplitInput F)) (total : ℤ) → Avoids (split_exact l total)
  unfolding split_exact is_schema_error
  split_exact-Avoids l total = elim (Option-cases (read_all (λ d. d.amount_cents) l)) [
    | inl missing ↦ rw (missing, split_exact) refl
    | inr (ds, read) ↦
        rw (read, split_exact)
          (elim (Bool-cases (eqb_ℤ (sum_by amount_of (map to_split ds)) total)) [
            | inl same ↦ rw same tt
            | inr differs ↦ rw differs refl
          ])
  ]

  module _ (floats : Floats F) where
    percentage_from-Avoids :
        (total allocated : ℤ) (ps : List (String × F))
        → Avoids (percentage_from floats total allocated ps)
    unfolding percentage_from is_schema_error
    percentage_from-Avoids total allocated [] = tt
    percentage_from-Avoids total allocated (p ∷ []) = tt
    percentage_from-Avoids total allocated (p ∷ q ∷ l) =
        elim (Portion-cases (floats.portion total p.1)) [
          | inl (c, found) ↦
              rw (found, percentage_from)
                (prepend-Avoids (record { user_id = p.0; amount_cents = c })
                  (percentage_from floats total (allocated +ℤ c) (q ∷ l))
                  (percentage_from-Avoids total (allocated +ℤ c) (q ∷ l)))
          | inr (inl bad) ↦ rw (bad, percentage_from) refl
          | inr (inr bad) ↦ rw (bad, percentage_from) refl
        ]

    split_percentage-Avoids :
        (l : List (SplitInput F)) (total : ℤ) → Avoids (split_percentage floats l total)
    unfolding split_percentage is_schema_error
    split_percentage-Avoids l total = elim (Option-cases (read_all (λ d. d.percentage) l)) [
      | inl missing ↦ rw (missing, split_percentage) refl
      | inr (ps, read) ↦
          rw (read, split_percentage)
            (elim (Bool-cases (floats.not_hundred (floats.sum (map (λ p. p.1) ps)))) [
              | inl bad ↦ rw bad refl
              | inr fine ↦ rw fine (percentage_from-Avoids total (pos 0) ps)
            ])
    ]

    with_input-Avoids :
        (f : List (SplitInput F) → Checked (List Split)) (o : Option (List (SplitInput F)))
        → ((l : List (SplitInput F)) → Avoids (f l))
        → Avoids (with_input floats f o)
    unfolding is_schema_error
    with_input-Avoids f none h = refl
    with_input-Avoids f (some []) h = refl
    with_input-Avoids f (some (d ∷ l)) h = h (d ∷ l)

    choose_splits-Avoids :
        (a : ExpenseArgs F) (l : List String)
        → is_allowed a.split_type ≡ true
        → Avoids (choose_splits floats a l)
    unfolding choose_splits member
    choose_splits-Avoids a l allowed = elim (Bool-cases (a.split_type == "EQUAL")) [
      | inl equal ↦ rw (equal, choose_splits) (split_equal-Avoids a.total_cents l)
      | inr not_equal ↦ elim (Bool-cases (a.split_type == "EXACT")) [
        | inl exact ↦
            rw (not_equal, exact, choose_splits)
              (with_input-Avoids _ a.splits_input (λ m. split_exact-Avoids m a.total_cents))
        | inr not_exact ↦ elim (Bool-cases (a.split_type == "PERCENTAGE")) [
          | inl percentage ↦
              rw (not_equal, not_exact, percentage, choose_splits)
                (with_input-Avoids _ a.splits_input (λ m. split_percentage-Avoids m a.total_cents))
          | inr other ↦ absurd (
              ground (
                arith,
                eq_iff "EQUAL" a.split_type,
                eq_iff a.split_type "EQUAL",
                eq_iff "EXACT" a.split_type,
                eq_iff a.split_type "EXACT",
                eq_iff "PERCENTAGE" a.split_type,
                eq_iff a.split_type "PERCENTAGE",
              ))
        ]
      ]
    ]

    checked_splits-Avoids :
        (a : ExpenseArgs F) (store : InMemoryStore)
        → ltb_ℤ a.total_cents (pos 1) ≡ false
        → is_allowed a.split_type ≡ true
        → Avoids (checked_splits floats a store)
    unfolding checked_splits is_schema_error
    checked_splits-Avoids a store enough allowed =
        rw (enough, checked_splits)
          (elim (Option-cases (get_group a.group_id store)) [
            | inl missing ↦ rw missing refl
            | inr (g, found) ↦ rw found (elim (List-cases g.member_ids) [
              | inl empty ↦ rw empty refl
              | inr (m, ms, members) ↦
                  rw members (elim (Bool-cases (member a.payer_id g.member_ids)) [
                    | inl there ↦ rw there (choose_splits-Avoids a g.member_ids allowed)
                    | inr stranger ↦ rw stranger refl
                  ])
            ])
          ])

    module _ (rt : Runtime) where
      abbrev AvoidsCreated : Created → Type 0
      AvoidsCreated (created _) = Unit
      AvoidsCreated (rejected x) = is_schema_error x ≡ false

      create_expense-Avoids :
          (draws : Draws) (a : ExpenseArgs F) (e : Engine)
          → Avoids (checked_splits floats a e.store)
          → AvoidsCreated (create_expense floats rt draws a e).0
      unfolding create_expense is_schema_error store_expense
      create_expense-Avoids draws a e h = elim (valid-cases (checked_splits floats a e.store)) [
        | inr (x, bad) ↦ rw (bad, create_expense) (rw bad at h)
        | inl (splits, fine) ↦
            rw (fine, create_expense)
              (elim (Outcome-cases (posting floats rt draws a e splits).0) [
                | inl (j, posted) ↦ rw posted tt
                | inr (z, refused) ↦ rw refused refl
              ])
      ]

      module _ (json : Json ExpenseResponse) (ticks : ℕ) (draws : RequestDraws) where
        abbrev pub AvoidsReply : Reply → Type 0
        AvoidsReply (bad_request x) = is_schema_error x ≡ false
        AvoidsReply _ = Unit

        module _ (a : ExpenseArgs F) (st : AppState)
            (h : AvoidsCreated (create_expense floats rt draws.service a st.engine).0) where
          abbrev called : Created
          called = (create_expense floats rt draws.service a st.engine).0

          serve-Avoids : AvoidsReply (serve floats rt json ticks draws a st).0
          unfolding serve
          serve-Avoids = elim (Created-cases called) [
            | inl (x, e) ↦ rw (e, serve) tt
            | inr (x, e) ↦ rw (e, serve) (rw e at h)
          ]

          locked-Avoids :
              (key : String) → AvoidsReply (serve_locked floats rt json ticks draws key a st).0
          unfolding serve_locked
          locked-Avoids key = elim (Created-cases called) [
            | inl (x, e) ↦ rw (e, serve_locked) tt
            | inr (x, e) ↦ rw (e, serve_locked) (rw e at h)
          ]

        gate-Avoids :
            (key : String) (a : ExpenseArgs F) (st : AppState)
            → AvoidsCreated (create_expense floats rt draws.service a st.engine).0
            → AvoidsReply (gate floats rt json ticks draws key a st).0
        unfolding gate
        gate-Avoids key a st h =
            let lock = check_and_lock json ticks draws.lock_now draws.lock_later key st.cache in
            elim (Lock-cases lock.0) [
              | inl e ↦ rw (e, gate) (locked-Avoids a (record st { cache = lock.1 }) h key)
              | inr (none, e) ↦ rw (e, gate) tt
              | inr (some r, e) ↦ rw (e, gate) tt
            ]

        pub route-Avoids :
            (group_id : String) (header : Option String) (body : CreateExpenseRequest F)
            (st : AppState)
            → ltb_ℤ body.total_cents (pos 1) ≡ false
            → is_allowed body.split_type ≡ true
            → AvoidsReply
                (create_expense_route floats rt json ticks draws group_id header body st).0
        unfolding create_expense_route service_args
        route-Avoids group_id header body st enough allowed =
            let a = service_args group_id header body in
            let h =
              create_expense-Avoids draws.service a st.engine
                (checked_splits-Avoids a st.engine.store enough allowed) in
            elim (Option-cases (truthy a.idempotency_key)) [
              | inl none_ ↦ rw (none_, create_expense_route) (serve-Avoids a st h)
              | inr (key, e) ↦ rw (e, create_expense_route) (gate-Avoids key a st h)
            ]

        -- A reply that avoids the errors of the schema is none of them.
        pub not_schema :
            {reply : Reply} (x : ExpenseError)
            → AvoidsReply reply
            → is_schema_error x ≡ true
            → reply ≡ bad_request x
            → ⊥
        not_schema {reply} x h bad e =
            let h' : AvoidsReply (bad_request x) = rw e at h in cc (h', bad)
