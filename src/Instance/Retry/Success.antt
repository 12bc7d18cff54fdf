-- ===== src/Instance/Retry/Success.antt =====
-- The loop of `Instance.Create` in provider/instance.go succeeds if an allowed attempt does.
use terraform_provider_nixos.Base.{ℕ, ◌≤◌, ◌<◌, ◌≡◌, sym, inl, inr, Outcome, ok, err, panic, arith}
use mathlib.Core.Path.{subst}
use native.Mathlib.Decide.{dec_lt}
use terraform_provider_nixos.System.{World, M}
use terraform_provider_nixos.Instance.Retry.{retrying, before, IsError, IsLast, retrying-IsLast}

abbrev pub IsSuccess : Outcome (Unit {0}) → Type 0
IsSuccess (ok a) = Unit
IsSuccess (err e) = ⊥
IsSuccess (panic p) = ⊥

abbrev pub IsPanic : Outcome (Unit {0}) → Type 0
IsPanic (ok a) = ⊥
IsPanic (err e) = ⊥
IsPanic (panic p) = Unit

IsSuccess-or : (o : Outcome (Unit {0})) → ¬ IsError o → ¬ IsPanic o → IsSuccess o
IsSuccess-or (ok a) h p = tt
IsSuccess-or (err e) h p = h tt
IsSuccess-or (panic q) h p = p tt

IsError-not : (o : Outcome (Unit {0})) → IsSuccess o → ¬ IsError o
IsError-not (ok a) s e = e
IsError-not (err e) s f = s
IsError-not (panic q) s e = s

module _ (wait : ℕ) (m : M Unit) (n k : ℕ) (w : World) where
  -- the last attempt succeeds, whether it is this one or one before it
  last-IsSuccess :
      (last : ℕ)
      → IsLast wait m n w last
      → k ≤ n
      → IsSuccess (m (before wait m w k)).0
      → ((j : ℕ) → j < k → ¬ IsPanic (m (before wait m w j)).0)
      → IsSuccess (m (before wait m w last)).0
  last-IsSuccess last l h s p = elim (dec_lt last k) [
    | yes e ↦ IsSuccess-or _ (elim l.ended [ inl q ↦ absurd (omega arith) | inr q ↦ q ]) (p last e)
    | no e ↦ elim (dec_lt k last) [
      | yes f ↦ absurd (IsError-not _ s (l.failed k f))
      | no f ↦
          let q : k ≡ last = omega arith in subst (λ i. IsSuccess (m (before wait m w i)).0) q s
    ]
  ]

  -- If one of the first `n + 1` attempts succeeds and none before it panics, the loop of `n` retries
  -- succeeds.
  pub retrying-IsSuccess :
      k ≤ n
      → IsSuccess (m (before wait m w k)).0
      → ((j : ℕ) → j < k → ¬ IsPanic (m (before wait m w j)).0)
      → IsSuccess (retrying wait m n w).0
  retrying-IsSuccess h s p =
      let r = retrying-IsLast wait m n w in
      subst (λ x. IsSuccess x.0) (sym r.2) (last-IsSuccess r.0 r.1 h s p)
