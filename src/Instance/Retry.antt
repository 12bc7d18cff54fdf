-- ===== src/Instance/Retry.antt =====
-- The loop of `Instance.Create` in provider/instance.go that tries again after an error.
pub mod Success
pub mod Locks
use terraform_provider_nixos.Base.{
  ℕ, zero, suc, ◌≤◌, ◌<◌, ◌≡◌, refl, ap, ◌∙◌, ◌⊎◌, inl, inr, Outcome, ok, err, panic, arith,
}
use terraform_provider_nixos.Base.Int.{ℤ, pos_part}
use mathlib.Core.Path.{subst}
use terraform_provider_nixos.System.{World, slept, M, inspect, emit, pure, crash, ◌>>◌}

-- how often `retry > 0` holds while `retry` is decremented
unfoldable pub retries : ℤ → ℕ
retries n = pos_part n

-- what follows an attempt, with the rest of the loop
again : M Unit → Outcome (Unit {0}) → M Unit
again rest (ok a) = pure a
again rest (err e) = rest
again rest (panic p) = crash p

-- the loop, with the seconds to wait and the number of retries that are left
unfoldable pub retrying : ℕ → M Unit → ℕ → M Unit
unfolding again
retrying wait m zero = m
retrying wait m (suc n) = inspect m (again (emit (slept wait) >> retrying wait m n))

abbrev pub IsError : Outcome (Unit {0}) → Type 0
IsError (ok a) = ⊥
IsError (err e) = Unit
IsError (panic p) = ⊥

-- the state before an attempt, by its number from 0: all those before it have run, each followed by
-- the wait
unfoldable pub before : ℕ → M Unit → World → ℕ → World
before wait m w zero = w
before wait m w (suc k) = before wait m (emit (slept wait) (m w).1).1 k

-- The attempt by this number is the last: those before it fail, and it is the last that is
-- allowed, or does not fail.
pub record IsLast (wait : ℕ) (m : M Unit) (n : ℕ) (w : World) (k : ℕ) : Type 0 where
  pub allowed : k ≤ n
  pub failed : (j : ℕ) → j < k → IsError (m (before wait m w j)).0
  pub ended : (k ≡ n) ⊎ ¬ IsError (m (before wait m w k)).0

again-error :
    (rest : M Unit) (o : Outcome (Unit {0})) (v : World) → IsError o → again rest o v ≡ rest v
unfolding again
again-error rest (ok a) v h = absurd h
again-error rest (err e) v h = refl
again-error rest (panic p) v h = absurd h

module _ (wait : ℕ) (m : M Unit) where
  IsLast-at_zero : (n : ℕ) (w : World) → (zero ≡ n) ⊎ ¬ IsError (m w).0 → IsLast wait m n w zero
  unfolding before
  IsLast-at_zero n w h = record {
    allowed = omega arith;
    failed = λ j l. absurd (omega arith);
    ended = h;
  }

  failed_suc :
      (w : World) (k : ℕ)
      → IsError (m w).0
      → ((j : ℕ) → j < k → IsError (m (before wait m (emit (slept wait) (m w).1).1 j)).0)
      → (j : ℕ) → j < suc k
      → IsError (m (before wait m w j)).0
  unfolding before
  failed_suc w k e h zero l = e
  failed_suc w k e h (suc j) l = h j (omega arith)

  IsLast-suc :
      (n : ℕ) (w : World) (k : ℕ)
      → IsError (m w).0
      → IsLast wait m n (emit (slept wait) (m w).1).1 k
      → IsLast wait m (suc n) w (suc k)
  IsLast-suc n w k e h = record {
    allowed = omega (arith, h.allowed);
    failed = failed_suc w k e h.failed;
    ended = unfold before in elim h.ended [ inl q ↦ inl (ap suc q) | inr q ↦ inr q ];
  }

  step :
      (n : ℕ) (w : World) (o : Outcome (Unit {0})) (v : World)
      → m w ≡ (o, v)
      → ((u : World)
          → (k : ℕ) × IsLast wait m n u k × (retrying wait m n u ≡ m (before wait m u k)))
      → (k : ℕ) × IsLast wait m (suc n) w k × (retrying wait m (suc n) w ≡ m (before wait m w k))
  unfolding retrying before again
  step n w (ok a) v h ih =
      (0, IsLast-at_zero (suc n) w (inr λ e. subst IsError (ap (λ q. q.0) h) e), rw h refl)
  step n w (err e) v h ih =
      let next = ih (emit (slept wait) (m w).1).1 in
      (
        suc next.0,
        IsLast-suc n w next.0 (rw h tt) next.1,
        again-error _ (m w).0 (m w).1 (rw h tt) ∙ next.2,
      )
  step n w (panic p) v h ih =
      (0, IsLast-at_zero (suc n) w (inr λ e. subst IsError (ap (λ q. q.0) h) e), rw h refl)

  -- However the attempts end, the loop ends with the outcome and the state of one of them, the
  -- last: at most `n` attempts came before it, each of them failed and was followed by the wait,
  -- and it is the attempt after `n` retries or it did not fail.
  pub retrying-IsLast :
      (n : ℕ) (w : World)
      → (k : ℕ) × IsLast wait m n w k × (retrying wait m n w ≡ m (before wait m w k))
  unfolding retrying before
  retrying-IsLast zero w = (0, IsLast-at_zero 0 w (inl refl), refl)
  retrying-IsLast (suc n) w = step n w (m w).0 (m w).1 refl (retrying-IsLast n)
