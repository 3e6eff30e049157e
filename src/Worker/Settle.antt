-- ===== src/Worker/Settle.antt =====
-- `_handle_settlement` of worker/worker.py: what it does to the ledger of the worker.
use expense_settlement_engin.Common.{
  ℕ, suc, ◌≡◌, refl, ap, ◌∙◌, false, none, List, [], ◌∷◌, map, String, length, ◌==◌, All, All-map,
}
use expense_settlement_engin.Common.Int.{ℤ, pos, ◌+ℤ◌, ◌≤ℤ◌, sum_by, int_laws}
use expense_settlement_engin.Common.Dict.{values}
use expense_settlement_engin.Common.Text.{◌⧺◌}
use expense_settlement_engin.DebtSimplifier.{Settlement, DebtSimplifierResult, compute_net_balances}
use expense_settlement_engin.DebtSimplifier.Round.{net_received}
use expense_settlement_engin.DebtSimplifier.Balances.{net_balances-HasDistinctKeys}
use expense_settlement_engin.DebtSimplifier.Simplify.{simplify_sound}
use expense_settlement_engin.DebtSimplifier.Settle.{simplify_transactions}
use expense_settlement_engin.Ledger.{Journal, LedgerEngine, Runtime, returned, get_account_balance}
use expense_settlement_engin.Ledger.Specs.{wallet, post_settlement_journal}
use expense_settlement_engin.Ledger.Settlements.{settlement_journal_wallets}
use expense_settlement_engin.Store.{ExpenseRecord, InMemoryStore, of_group, get_expenses_for_group}
use expense_settlement_engin.ExpenseService.Service.{raw_transaction}
use expense_settlement_engin.ExpenseService.Consistency.{due_by}
use expense_settlement_engin.ExpenseService.Debts.{sum_by-raw_transaction}
use expense_settlement_engin.Cache.{InMemoryCache, delete}
use expense_settlement_engin.Worker.{
  WorkerState, WorkerDraws, Handled, handled, post_all, finish_settlement, settle_result,
  settle_expenses, handle_settlement,
}

abbrev IsCent : Settlement → Type 0
IsCent s = pos 1 ≤ℤ s.amount_cents

module _ (rt : Runtime) (draws : WorkerDraws) where
  post_all-returned :
      (i : ℕ) (s : Settlement) (l : List Settlement) (ledger : LedgerEngine) (j : Journal)
      (after : LedgerEngine)
      → post_settlement_journal rt
          (draws.journal_ids i)
          (draws.journal_now i)
          s.payer_id
          s.payee_id
          s.amount_cents
          ("Settlement: " ⧺ s.payer_id ⧺ " -> " ⧺ s.payee_id)
          ledger
        ≡ (returned j, after)
      → post_all rt draws i (s ∷ l) ledger ≡ post_all rt draws (suc i) l after
  unfolding post_all
  post_all-returned i s l ledger j after e = rw (ap (λ r. r.0) e, ap (λ r. r.1) e, post_all)

  -- Settlements of at least one cent are all posted, and move the wallets by their amounts.
  post_all-wallets :
      (i : ℕ) (l : List Settlement) (ledger : LedgerEngine)
      → All IsCent l
      → (after : LedgerEngine) × (post_all rt draws i l ledger ≡ (none, after))
        × ((u : String)
            → get_account_balance (wallet u) after
              ≡ get_account_balance (wallet u) ledger +ℤ sum_by (net_received u) l)
  unfolding post_all sum_by
  post_all-wallets i [] ledger h = (ledger, refl, λ u. omega int_laws)
  post_all-wallets i (s ∷ l) ledger h =
      let (j, first, e, moved) =
        settlement_journal_wallets rt (draws.journal_ids i) (draws.journal_now i) s
          ("Settlement: " ⧺ s.payer_id ⧺ " -> " ⧺ s.payee_id) ledger h.0 in
      let (after, rest, moved_on) = post_all-wallets (suc i) l first h.1 in
      (
        after,
        post_all-returned i s l ledger j first e ∙ rest,
        λ u. rw (moved_on u, moved u) (omega int_laws),
      )

  module _ (group_id : String) (w : WorkerState) where
    -- The worker has posted settlements that bring the users what `change` says.
    record HasPaid (change : String → ℤ) (cache : InMemoryCache) (r : Handled × WorkerState)
        : Type 0 where
      answer : r.0 ≡ handled
      moved :
          (u : String)
          → get_account_balance (wallet u) r.1.ledger
            ≡ get_account_balance (wallet u) w.ledger +ℤ change u
      expenses : r.1.store.expenses ≡ w.store.expenses
      drops : r.1.cache ≡ cache

    -- The cache without the answers on the group.
    abbrev pub dropped : InMemoryCache
    dropped =
        (delete ("group:" ⧺ group_id ⧺ ":debts")
          (delete ("group:" ⧺ group_id ⧺ ":balances") w.cache).1).1

    abbrev cache_after : List ExpenseRecord → InMemoryCache
    cache_after [] = w.cache
    cache_after (_ ∷ _) = dropped

    settle_result-HasPaid :
        (result : DebtSimplifierResult)
        → All IsCent result.settlements
        → HasPaid
            (λ u. sum_by (net_received u) result.settlements)
            dropped
            (settle_result rt draws group_id result w)
    unfolding settle_result finish_settlement
    settle_result-HasPaid result cents =
        let (after, e, moved) = post_all-wallets 0 result.settlements w.ledger cents in
        rw (ap (λ r. r.0) e, ap (λ r. r.1) e, settle_result)
          (record { answer = refl; moved = moved; expenses = refl; drops = refl })

    settle_expenses-HasPaid :
        (expenses : List ExpenseRecord)
        → HasPaid
            (λ u. sum_by (due_by u) expenses)
            (cache_after expenses)
            (settle_expenses rt draws group_id expenses w)
    unfolding settle_expenses sum_by
    settle_expenses-HasPaid [] = record {
      answer = refl;
      moved = λ u. omega int_laws;
      expenses = refl;
      drops = refl;
    }
    settle_expenses-HasPaid (x ∷ expenses) =
        let txs = map raw_transaction (x ∷ expenses) in
        let (r, ends, pays) = simplify_transactions rt.sha256 txs (length (x ∷ expenses)) in
        let p = settle_result-HasPaid r (
          All-map _ IsCent r.settlements (λ s b. b.2)
            (simplify_sound rt.sha256 (compute_net_balances txs) (length (x ∷ expenses))
              (net_balances-HasDistinctKeys txs) ends)) in
        rw (ends, settle_expenses)
          (record {
            answer = p.answer;
            moved = λ u.
                p.moved u
                ∙ ap (λ t. get_account_balance (wallet u) w.ledger +ℤ t)
                    (pays u ∙ sum_by-raw_transaction u (x ∷ expenses));
            expenses = p.expenses;
            drops = p.drops;
          })

    handle-HasPaid :
        (group_id == "") ≡ false
        → HasPaid
            (λ u. sum_by (due_by u) (get_expenses_for_group group_id w.store))
            (cache_after (get_expenses_for_group group_id w.store))
            (handle_settlement rt draws group_id w)
    unfolding handle_settlement
    handle-HasPaid named =
        rw (named, handle_settlement)
          (settle_expenses-HasPaid (get_expenses_for_group group_id w.store))

    -- A request for a group with an expense drops the cached answers on the group.
    pub handle-drops :
        (x : ExpenseRecord) (l : List ExpenseRecord)
        → (group_id == "") ≡ false
        → get_expenses_for_group group_id w.store ≡ x ∷ l
        → (handle_settlement rt draws group_id w).1.cache ≡ dropped
    handle-drops x l named some_ = (handle-HasPaid named).drops ∙ ap cache_after some_

    -- A request that names its group is always handled to its end: no error leaves the handler,
    -- and the wallets of the worker's ledger move by exactly what the expenses of the group make
    -- their users due. The expenses stay as they are.
    pub handle_settlement_pays :
        (group_id == "") ≡ false
        → let (answer, after) = handle_settlement rt draws group_id w in
          (answer ≡ handled)
          × ((u : String)
              → get_account_balance (wallet u) after.ledger
                ≡ get_account_balance (wallet u) w.ledger
                  +ℤ sum_by (due_by u) (get_expenses_for_group group_id w.store))
          × (after.store.expenses ≡ w.store.expenses)
    handle_settlement_pays named = let p = handle-HasPaid named in (p.answer, p.moved, p.expenses)

same_expenses :
    (group_id : String) (s s' : InMemoryStore)
    → s'.expenses ≡ s.expenses
    → get_expenses_for_group group_id s' ≡ get_expenses_for_group group_id s
unfolding get_expenses_for_group
same_expenses group_id s s' e = ap (λ d. of_group group_id (values d)) e

-- A second request for the same group, with no expense in between, pays the same debts again.
pub second_request_pays_again :
    (rt : Runtime) (draws draws' : WorkerDraws) (group_id : String) (w : WorkerState)
    → (group_id == "") ≡ false
    → let first = (handle_settlement rt draws group_id w).1 in
      let second = (handle_settlement rt draws' group_id first).1 in
      (u : String)
      → let owed = sum_by (due_by u) (get_expenses_for_group group_id w.store) in
        get_account_balance (wallet u) second.ledger
        ≡ get_account_balance (wallet u) w.ledger +ℤ (owed +ℤ owed)
second_request_pays_again rt draws draws' group_id w named u =
    let first = (handle_settlement rt draws group_id w).1 in
    let p = handle-HasPaid rt draws group_id w named in
    let p' = handle-HasPaid rt draws' group_id first named in
    rw (p'.moved u, same_expenses group_id w.store first.store p.expenses, p.moved u)
      (omega int_laws)
