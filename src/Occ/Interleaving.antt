-- ===== src/Occ/Interleaving.antt =====
-- Tasks that call `OCCBalanceStore.apply_delta` of core/occ.py on one entity, in any interleaving.
-- The version is an argument of the call; `apply_delta` reads the value, and later swaps. Between any
-- two of these steps other tasks may run.
use expense_settlement_engin.Common.{
  ℕ, ◌+◌, ◌≤◌, ◌≡◌, sym, subst, inl, inr, Option, none, some, List, [], ◌∷◌, ◌++◌, arith, length,
  eqb, All, All-append, All-append_left, All-append_right, All-map, Bool-cases,
}
use mathlib.Core.Option.{some-injective}
use expense_settlement_engin.Common.Int.{ℤ, ◌+ℤ◌, sum_by, parts_of_eq, int_laws}
use expense_settlement_engin.Occ.{Entity, read, compare_and_swap}

-- A call under way: `computed` is `new_val`, once the value was read.
pub record Pending : Type 0 where
  pub delta : ℤ
  pub expected_version : ℕ
  pub computed : Option ℤ

-- `committed` lists the deltas whose swap succeeded, the last first.
pub record World : Type 0 where
  pub entity : Entity ℤ
  pub pending : List Pending
  pub committed : List ℤ

abbrev pub start : Entity ℤ → World
start e = record { entity = e; pending = []; committed = [] }

-- The rest of `apply_delta`, once the swap has answered.
unfoldable pub finish : World → Pending → List Pending → ℤ → World
unfolding compare_and_swap
finish w p others new_val =
    let (result, e) = compare_and_swap p.expected_version new_val w.entity in
    record {
      entity = e;
      pending = others;
      committed = elim result [ none ↦ w.committed | some _ ↦ p.delta ∷ w.committed ];
    }

pub data Step (w : World) : World → Type 0 where
  called :
      (delta : ℤ) (expected_version : ℕ)
      → Step w (record w {
        pending =
            record { delta = delta; expected_version = expected_version; computed = none }
            ∷ w.pending;
      })
  compute :
      (before : List Pending) (p : Pending) (behind : List Pending)
      → w.pending ≡ before ++ p ∷ behind
      → Step w (record w {
        pending = before ++ record p { computed = some ((read w.entity).0 +ℤ p.delta) } ∷ behind;
      })
  commit :
      (before : List Pending) (p : Pending) (behind : List Pending) (new_val : ℤ)
      → w.pending ≡ before ++ p ∷ behind
      → p.computed ≡ some new_val
      → Step w (finish w p (before ++ behind) new_val)

pub data Reach (w : World) : World → Type 0 where
  here : Reach w w
  next : {u v : World} → Reach w u → Step u v → Reach w v

-- The version of the call is not ahead of the entity, as one that was read from it.
unfoldable pub IsSeenStep : {w w' : World} → Step w w' → Type 0
IsSeenStep {w} (called delta expected_version) = expected_version ≤ w.entity.version
IsSeenStep (compute before p behind at) = Unit
IsSeenStep (commit before p behind new_val at found) = Unit

-- No call of the run was made with a version ahead of the entity.
unfoldable pub IsSeen : {w w' : World} → Reach w w' → Type 0
unfolding IsSeenStep
IsSeen here = Unit
IsSeen (next r s) = IsSeen r × IsSeenStep s

-- A call that read the value at its expected version has the right new value.
pub record IsCurrent (e : Entity ℤ) (p : Pending) : Type 0 where
  pub past : p.expected_version ≤ e.version
  pub right :
      (v : ℤ) → p.computed ≡ some v → p.expected_version ≡ e.version → v ≡ e.value +ℤ p.delta

abbrev pub self : ℤ → ℤ
self x = x

pub record IsConsistent (e : Entity ℤ) (w : World) : Type 0 where
  pub value : w.entity.value ≡ e.value +ℤ sum_by self w.committed
  pub version : w.entity.version ≡ e.version + length w.committed
  pub current : All (IsCurrent w.entity) w.pending

module _ (e : Entity ℤ) where
  finish-IsConsistent :
      (w : World) (p : Pending) (others : List Pending) (v : ℤ)
      → IsConsistent e w
      → IsCurrent w.entity p
      → All (IsCurrent w.entity) others
      → p.computed ≡ some v
      → IsConsistent e (finish w p others v)
  unfolding finish compare_and_swap sum_by
  finish-IsConsistent w p others v h c o found =
      elim (Bool-cases (eqb w.entity.version p.expected_version)) [
        | inl same ↦
            rw (same, finish)
              (record {
                value =
                    let current = c.right v found (ground arith) in
                    omega (int_laws, parts_of_eq _ _ current, parts_of_eq _ _ h.value);
                version = omega (arith, h.version);
                current =
                    All-map (IsCurrent w.entity) _ others
                      (λ q k. record {
                        past = omega (arith, k.past);
                        right = λ v f s. absurd (omega (arith, k.past));
                      })
                      o;
              })
        | inr other ↦
            rw (other, finish) (record { value = h.value; version = h.version; current = o })
      ]

  Step-IsConsistent :
      {w w' : World} (s : Step w w') → IsSeenStep s → IsConsistent e w → IsConsistent e w'
  unfolding IsSeenStep
  Step-IsConsistent {w} (called delta expected_version) seen h = record {
    value = h.value;
    version = h.version;
    current = (record { past = seen; right = λ v f s. cc }, h.current);
  }
  Step-IsConsistent {w} (compute before p behind at) seen h =
      let all = subst (All (IsCurrent w.entity)) at h.current in
      let rest = All-append_right (IsCurrent w.entity) before (p ∷ behind) all in
      record {
        value = h.value;
        version = h.version;
        current =
            All-append (IsCurrent w.entity) before _
              (All-append_left (IsCurrent w.entity) before (p ∷ behind) all)
              (record { past = rest.0.past; right = λ v f s. sym (some-injective _ _ f) }, rest.1);
      }
  Step-IsConsistent {w} (commit before p behind v at found) seen h =
      let all = subst (All (IsCurrent w.entity)) at h.current in
      let rest = All-append_right (IsCurrent w.entity) before (p ∷ behind) all in
      finish-IsConsistent w p (before ++ behind) v h rest.0
        (All-append (IsCurrent w.entity) before behind
          (All-append_left (IsCurrent w.entity) before (p ∷ behind) all) rest.1)
        found

  Reach-IsConsistent : {w : World} (r : Reach (start e) w) → IsSeen r → IsConsistent e w
  unfolding sum_by IsSeen
  Reach-IsConsistent here seen = record {
    value = omega int_laws;
    version = omega arith;
    current = tt;
  }
  Reach-IsConsistent (next r s) seen = Step-IsConsistent s seen.1 (Reach-IsConsistent r seen.0)

  -- No update is lost: however the calls interleave, when each was made with an expected version that
  -- is not ahead of the entity's at the time of the call, the value is the first value plus the
  -- deltas of exactly the calls whose swap succeeded, and the version has grown by their number.
  pub no_lost_update :
      {w : World} (r : Reach (start e) w)
      → IsSeen r
      → (w.entity.value ≡ e.value +ℤ sum_by self w.committed)
        × (w.entity.version ≡ e.version + length w.committed)
  no_lost_update r seen = let h = Reach-IsConsistent r seen in (h.value, h.version)
