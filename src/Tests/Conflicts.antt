-- ===== src/Tests/Conflicts.antt =====
-- core/occ.py: a function that conflicts twice, and two calls of `apply_delta` that overlap.
use expense_settlement_engin.Common.{
  ℕ, zero, suc, ◌+◌, ◌<◌, ◌≡◌, refl, none, some, [], ◌∷◌, String, length, arith, eqb, if◌then◌else◌,
}
use expense_settlement_engin.Common.Int.{ℤ, pos, negsuc, ◌+ℤ◌, sum_by}
use expense_settlement_engin.Occ.{
  Attempt, success, conflict, returned, occ_max_retries, occ_retry, Entity, compare_and_swap,
}
use expense_settlement_engin.Occ.Retry.{after_calls, call, occ_retry_ends}
use expense_settlement_engin.Occ.Interleaving.{
  Pending, World, start, called, compute, IsSeen, IsSeenStep, commit, Reach, here, next, finish,
  self, no_lost_update,
}

-- The state counts the calls; the third one succeeds.
abbrev third_time : ℕ → Attempt String String × ℕ
third_time n = (if eqb n 2 then success "done" else conflict, suc n)

third_time_conflicts : (i : ℕ) → i < 2 → call third_time i 0 ≡ conflict
unfolding after_calls
third_time_conflicts zero h = refl
third_time_conflicts (suc zero) h = refl
third_time_conflicts (suc (suc i)) h = absurd (omega arith)

occ_retry_ends_example :
    occ_retry occ_max_retries third_time 0 ≡ (returned "done", after_calls third_time 3 0)
unfolding after_calls
occ_retry_ends_example =
    occ_retry_ends occ_max_retries third_time 2 0 (returned "done") (omega arith)
      third_time_conflicts refl

abbrev never : ℕ → Attempt String String × ℕ
never n = (conflict, suc n)

abbrev wallet : Entity ℤ
wallet = record { entity_id = "ann"; version = 0; value = pos 10 }

abbrev ready : ℤ → ℤ → Pending
ready delta new_val = record { delta = delta; expected_version = 0; computed = some new_val }

abbrev fresh : ℤ → Pending
fresh delta = record { delta = delta; expected_version = 0; computed = none }

-- Both calls take version 0 and read the value; the second to commit is refused.
abbrev overlap : World
overlap =
    finish
      (finish
        (record {
          entity = wallet;
          pending = ready (pos 5) (pos 15) ∷ ready (negsuc 2) (pos 7) ∷ [];
          committed = [];
        })
        (ready (pos 5) (pos 15)) (ready (negsuc 2) (pos 7) ∷ []) (pos 15))
      (ready (negsuc 2) (pos 7)) [] (pos 7)

overlap-reached : Reach (start wallet) overlap
unfolding finish compare_and_swap ◌+ℤ◌
overlap-reached =
    next
      (next
        (next
          (next (next (next here (called (negsuc 2) 0)) (called (pos 5) 0))
            (compute [] (fresh (pos 5)) (fresh (negsuc 2) ∷ []) refl))
          (compute (ready (pos 5) (pos 15) ∷ []) (fresh (negsuc 2)) [] refl))
        (commit [] (ready (pos 5) (pos 15)) (ready (negsuc 2) (pos 7) ∷ []) (pos 15) refl refl))
      (commit [] (ready (negsuc 2) (pos 7)) [] (pos 7) refl refl)

overlap-IsSeen : IsSeen overlap-reached
unfolding IsSeen IsSeenStep overlap-reached
overlap-IsSeen = ((((((tt, omega arith), omega arith), tt), tt), tt), tt)

no_lost_update_example :
    (overlap.entity.value ≡ pos 10 +ℤ sum_by self overlap.committed)
    × (overlap.entity.version ≡ 0 + length overlap.committed)
no_lost_update_example = no_lost_update wallet overlap-reached overlap-IsSeen
