-- ===== src/Occ/Retry.antt =====
-- `occ_retry` of core/occ.py: how often the function is called, and how the wrapper ends.
use expense_settlement_engin.Common.{
  ℕ, zero, suc, ◌+◌, ◌≤◌, ◌<◌, ◌≡◌, refl, ◌∙◌, inl, inr, ◌⊎◌, Option, none, some, true, false,
  arith, eqb,
}
use mathlib.Core.Option.{some-injective}
use expense_settlement_engin.Occ.{
  Attempt, success, conflict, failure, Retried, returned, raised, max_retries_exceeded, retry_loop,
  occ_retry,
}

-- How an attempt that is no conflict ends the wrapper.
abbrev pub ending {ℓ} : {A E : Type ℓ} → Attempt A E → Option (Retried A E)
ending (success a) = some (returned a)
ending conflict = none
ending (failure e) = some (raised e)

module _ {ℓ} {A E S : Type ℓ} (func : S → Attempt A E × S) where
  -- The state after `k` calls in a row, and the result of the call after them.
  unfoldable pub after_calls : ℕ → S → S
  after_calls zero s = s
  after_calls (suc k) s = after_calls k (func s).1

  abbrev pub call : ℕ → S → Attempt A E
  call k s = (func (after_calls k s)).0

ending-cases {ℓ} :
    {A E : Type ℓ} (x : Attempt A E) (r : Retried A E)
    → ending x ≡ some r
    → ((a : A) × (x ≡ success a) × (returned a ≡ r)) ⊎ ((e : E) × (x ≡ failure e) × (raised e ≡ r))
ending-cases (success a) r h = inl (a, refl, some-injective (returned a) r h)
ending-cases conflict r h = cc
ending-cases (failure e) r h = inr (e, refl, some-injective (raised e) r h)

module _ {ℓ} {A E S : Type ℓ} (max_retries : ℕ) (func : S → Attempt A E × S) where
  abbrev loop : ℕ → ℕ → S → Retried A E × S
  loop = retry_loop max_retries func

  module _ (attempt rounds : ℕ) (s : S) where
    round_ends :
        (r : Retried A E)
        → ending (func s).0 ≡ some r
        → loop (suc rounds) attempt s ≡ (r, (func s).1)
    unfolding retry_loop
    round_ends r e = elim (ending-cases (func s).0 r e) [
      | inl (a, ok, same) ↦ rw (ok, retry_loop) (rw same)
      | inr (x, failed, same) ↦ rw (failed, retry_loop) (rw same)
    ]

    round_retries :
        (func s).0 ≡ conflict
        → eqb attempt max_retries ≡ false
        → loop (suc rounds) attempt s ≡ loop rounds (suc attempt) (func s).1
    unfolding retry_loop
    round_retries c more = rw (c, retry_loop) (rw more)

    round_gives_up :
        (func s).0 ≡ conflict
        → eqb attempt max_retries ≡ true
        → loop (suc rounds) attempt s ≡ (max_retries_exceeded, (func s).1)
    unfolding retry_loop
    round_gives_up c last = rw (c, retry_loop) (rw last)

  loop_ends :
      (k attempt rounds : ℕ) (s : S) (r : Retried A E)
      → attempt + rounds ≡ suc max_retries
      → k < rounds
      → ((i : ℕ) → i < k → call func i s ≡ conflict)
      → ending (call func k s) ≡ some r
      → loop rounds attempt s ≡ (r, after_calls func (suc k) s)
  unfolding after_calls
  loop_ends k attempt zero s r total lt c e = absurd (omega arith)
  loop_ends zero attempt (suc rounds) s r total lt c e = round_ends attempt rounds s r e
  loop_ends (suc k) attempt (suc rounds) s r total lt c e =
      round_retries attempt rounds s (c 0 (omega arith)) (ground arith)
      ∙ loop_ends k (suc attempt) rounds (func s).1 r (omega arith) (omega arith)
          (λ i h. c (suc i) (omega arith)) e

  loop_exhausts :
      (attempt rounds : ℕ) (s : S)
      → attempt + suc rounds ≡ suc max_retries
      → ((i : ℕ) → i ≤ rounds → call func i s ≡ conflict)
      → loop (suc rounds) attempt s ≡ (max_retries_exceeded, after_calls func (suc rounds) s)
  unfolding after_calls
  loop_exhausts attempt zero s total c =
      round_gives_up attempt zero s (c 0 (omega arith)) (ground arith)
  loop_exhausts attempt (suc rounds) s total c =
      round_retries attempt (suc rounds) s (c 0 (omega arith)) (ground arith)
      ∙ loop_exhausts (suc attempt) rounds (func s).1 (omega arith) (λ i h. c (suc i) (omega arith))

  -- If the first `k` calls end in a conflict and the next does not, where `k` is at most the number
  -- of retries, the wrapper makes exactly `k + 1` calls and ends as the last of them: it returns the
  -- value or raises the error.
  pub occ_retry_ends :
      (k : ℕ) (s : S) (r : Retried A E)
      → k ≤ max_retries
      → ((i : ℕ) → i < k → call func i s ≡ conflict)
      → ending (call func k s) ≡ some r
      → occ_retry max_retries func s ≡ (r, after_calls func (suc k) s)
  unfolding occ_retry
  occ_retry_ends k s r le c e = loop_ends k 0 (suc max_retries) s r (omega arith) (omega arith) c e

  -- If the first call and all the retries end in a conflict, the wrapper raises
  -- `MaxRetriesExceededError` after exactly `max_retries + 1` calls.
  pub occ_retry_exhausts :
      (s : S)
      → ((i : ℕ) → i ≤ max_retries → call func i s ≡ conflict)
      → occ_retry max_retries func s ≡ (max_retries_exceeded, after_calls func (suc max_retries) s)
  unfolding occ_retry
  occ_retry_exhausts s c = loop_exhausts 0 max_retries s (omega arith) c
