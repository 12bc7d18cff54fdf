-- ===== src/System/Locks.antt =====
-- Actions that lock no buffer and destroy none; they may create and remove files.
use terraform_provider_nixos.Base.{
  ◌≡◌, refl, ◌∙◌, Error, Panic, Outcome, ok, err, panic, Bool, true, false, if◌then◌else◌,
}
use terraform_provider_nixos.System.{
  World, Event, Attempt, M, pure, fail, crash, lift, attempt, inspect, emit, get_world, continue,
  ◌>>=◌, ◌>>◌,
}
use terraform_provider_nixos.System.Same.{IsQuiet}

-- The two states have the same locked buffers, and the same number for the next one.
pub record SameLocks (v w : World) : Type 0 where
  pub locked_eq : w.locked ≡ v.locked
  pub next_eq : w.next_buffer ≡ v.next_buffer

pub SameLocks-refl : (w : World) → SameLocks w w
SameLocks-refl w = record { locked_eq = refl; next_eq = refl }

pub SameLocks-trans : {u v w : World} → SameLocks u v → SameLocks v w → SameLocks u w
SameLocks-trans p q = record {
  locked_eq = q.locked_eq ∙ p.locked_eq;
  next_eq = q.next_eq ∙ p.next_eq;
}

-- Whatever its outcome, the action ends with the locked buffers that it began with.
pub record KeepsLocks {A : Type 0} (m : M A) : Type 0 where
  pub keeps : (w : World) → SameLocks w (m w).1

pub KeepsLocks-IsQuiet : {A : Type 0} (m : M A) → IsQuiet m → KeepsLocks m
KeepsLocks-IsQuiet m q = record {
  keeps = λ w. record { locked_eq = (q.same w).locked_eq; next_eq = (q.same w).next_eq };
}

pub KeepsLocks-pure : {A : Type 0} (a : A) → KeepsLocks (pure a)
KeepsLocks-pure a = record { keeps = SameLocks-refl }

pub KeepsLocks-fail : {A : Type 0} (e : Error) → KeepsLocks (fail {A = A} e)
KeepsLocks-fail e = record { keeps = SameLocks-refl }

pub KeepsLocks-crash : {A : Type 0} (p : Panic) → KeepsLocks (crash {A = A} p)
KeepsLocks-crash p = record { keeps = SameLocks-refl }

pub KeepsLocks-lift : {A : Type 0} (o : Outcome A) → KeepsLocks (lift o)
KeepsLocks-lift o = record { keeps = SameLocks-refl }

pub KeepsLocks-get_world : KeepsLocks get_world
KeepsLocks-get_world = record { keeps = SameLocks-refl }

pub KeepsLocks-emit : (e : Event) → KeepsLocks (emit e)
KeepsLocks-emit e = record { keeps = λ w. record { locked_eq = refl; next_eq = refl } }

attempt-SameLocks : {A : Type 0} (o : Attempt A) (w : World) → SameLocks w (attempt o w).1
attempt-SameLocks (Attempt.done a) w = SameLocks-refl w
attempt-SameLocks (Attempt.refused e) w = SameLocks-refl w

pub KeepsLocks-attempt : {A : Type 0} (o : Attempt A) → KeepsLocks (attempt o)
KeepsLocks-attempt o = record { keeps = attempt-SameLocks o }

-- an action that leaves the buffers alone on its way
continue-SameLocks :
    {A B : Type 0} (f : A → M B) (o : Outcome A) (w : World)
    → ((a : A) → KeepsLocks (f a))
    → SameLocks w (continue f o w).1
continue-SameLocks f (ok a) w k = (k a).keeps w
continue-SameLocks f (err e) w k = SameLocks-refl w
continue-SameLocks f (panic p) w k = SameLocks-refl w

pub KeepsLocks-bind :
    {A B : Type 0} (m : M A) (f : A → M B)
    → KeepsLocks m
    → ((a : A) → KeepsLocks (f a))
    → KeepsLocks (m >>= f)
KeepsLocks-bind m f q k = record {
  keeps = λ w. SameLocks-trans (q.keeps w) (continue-SameLocks f (m w).0 (m w).1 k);
}

pub KeepsLocks-then :
    {A B : Type 0} (m : M A) (n : M B) → KeepsLocks m → KeepsLocks n → KeepsLocks (m >> n)
KeepsLocks-then m n q k = KeepsLocks-bind m (λ _. n) q (λ _. k)

pub KeepsLocks-inspect :
    {A B : Type 0} (m : M A) (f : Outcome A → M B)
    → KeepsLocks m
    → ((o : Outcome A) → KeepsLocks (f o))
    → KeepsLocks (inspect m f)
KeepsLocks-inspect m f q k = record {
  keeps = λ w. SameLocks-trans (q.keeps w) ((k (m w).0).keeps (m w).1);
}

pub KeepsLocks-if :
    {A : Type 0} (b : Bool) (m n : M A)
    → KeepsLocks m
    → KeepsLocks n
    → KeepsLocks (if b then m else n)
KeepsLocks-if true m n p q = p
KeepsLocks-if false m n p q = q

pub ruleset lock_rules = (
  KeepsLocks-pure, KeepsLocks-fail, KeepsLocks-crash, KeepsLocks-lift, KeepsLocks-get_world,
  KeepsLocks-emit, KeepsLocks-attempt, KeepsLocks-bind, KeepsLocks-then, KeepsLocks-inspect,
  KeepsLocks-if,
)
