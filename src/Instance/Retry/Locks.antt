-- ===== src/Instance/Retry/Locks.antt =====
-- The loop of `Instance.Create` in provider/instance.go and the locked buffers.
use terraform_provider_nixos.Base.{ℕ, zero, suc, Outcome, ok, err, panic}
use terraform_provider_nixos.System.{M, slept}
use terraform_provider_nixos.System.Locks.{
  SameLocks-refl, KeepsLocks, KeepsLocks-pure, KeepsLocks-then, KeepsLocks-inspect, KeepsLocks-emit,
}
use terraform_provider_nixos.Instance.Retry.{retrying, again}

again-KeepsLocks :
    (rest : M Unit) (o : Outcome (Unit {0})) → KeepsLocks rest → KeepsLocks (again rest o)
unfolding again
again-KeepsLocks rest (ok a) k = KeepsLocks-pure a
again-KeepsLocks rest (err e) k = k
again-KeepsLocks rest (panic p) k = record { keeps = SameLocks-refl }

pub retrying-KeepsLocks :
    (wait : ℕ) (m : M Unit) (n : ℕ) → KeepsLocks m → KeepsLocks (retrying wait m n)
unfolding retrying
retrying-KeepsLocks wait m zero k = k
retrying-KeepsLocks wait m (suc n) k = KeepsLocks-inspect m _ k λ o.
    again-KeepsLocks _ o
      (KeepsLocks-then _ _ (KeepsLocks-emit (slept wait)) (retrying-KeepsLocks wait m n k))
