-- ===== src/System/Same.antt =====
-- Actions that leave the process's own state alone: they run subprocesses and write to the log.
use terraform_provider_nixos.Base.{
  ◌≡◌, refl, ◌∙◌, Error, Panic, Outcome, ok, err, panic, Bool, true, false, if◌then◌else◌,
}
use terraform_provider_nixos.System.{
  World, Event, Attempt, done, refused, M, pure, fail, crash, attempt, inspect, emit, get_world,
  continue, ◌>>=◌,
}

-- The two states agree but for the log.
pub record Same (v w : World) : Type 0 where
  pub memo_eq : w.memo ≡ v.memo
  pub files_eq : w.files ≡ v.files
  pub locked_eq : w.locked ≡ v.locked
  pub next_eq : w.next_buffer ≡ v.next_buffer

pub Same-refl : (w : World) → Same w w
Same-refl w = record { memo_eq = refl; files_eq = refl; locked_eq = refl; next_eq = refl }

pub Same-trans : {u v w : World} → Same u v → Same v w → Same u w
Same-trans p q = record {
  memo_eq = q.memo_eq ∙ p.memo_eq;
  files_eq = q.files_eq ∙ p.files_eq;
  locked_eq = q.locked_eq ∙ p.locked_eq;
  next_eq = q.next_eq ∙ p.next_eq;
}

-- From every state the action ends in one that agrees with it but for the log.
pub record IsQuiet {A : Type 0} (m : M A) : Type 0 where
  pub same : (w : World) → Same w (m w).1

pub IsQuiet-pure : {A : Type 0} (a : A) → IsQuiet (pure a)
IsQuiet-pure a = record { same = Same-refl }

pub IsQuiet-fail : {A : Type 0} (e : Error) → IsQuiet (fail {A = A} e)
IsQuiet-fail e = record { same = Same-refl }

pub IsQuiet-crash : {A : Type 0} (p : Panic) → IsQuiet (crash {A = A} p)
IsQuiet-crash p = record { same = Same-refl }

pub IsQuiet-get_world : IsQuiet get_world
IsQuiet-get_world = record { same = Same-refl }

pub IsQuiet-emit : (e : Event) → IsQuiet (emit e)
IsQuiet-emit e = record {
  same = λ w. record { memo_eq = refl; files_eq = refl; locked_eq = refl; next_eq = refl };
}

attempt-Same : {A : Type 0} (o : Attempt A) (w : World) → Same w (attempt o w).1
attempt-Same (done a) w = Same-refl w
attempt-Same (refused e) w = Same-refl w

pub IsQuiet-attempt : {A : Type 0} (o : Attempt A) → IsQuiet (attempt o)
IsQuiet-attempt o = record { same = attempt-Same o }

continue-Same :
    {A B : Type 0} (f : A → M B) (o : Outcome A) (w : World)
    → ((a : A) → IsQuiet (f a))
    → Same w (continue f o w).1
continue-Same f (ok a) w k = (k a).same w
continue-Same f (err e) w k = Same-refl w
continue-Same f (panic p) w k = Same-refl w

pub IsQuiet-bind :
    {A B : Type 0} (m : M A) (f : A → M B)
    → IsQuiet m
    → ((a : A) → IsQuiet (f a))
    → IsQuiet (m >>= f)
IsQuiet-bind m f q k = record {
  same = λ w. Same-trans (q.same w) (continue-Same f (m w).0 (m w).1 k);
}

pub IsQuiet-inspect :
    {A B : Type 0} (m : M A) (f : Outcome A → M B)
    → IsQuiet m
    → ((o : Outcome A) → IsQuiet (f o))
    → IsQuiet (inspect m f)
IsQuiet-inspect m f q k = record { same = λ w. Same-trans (q.same w) ((k (m w).0).same (m w).1) }

pub IsQuiet-if :
    {A : Type 0} (b : Bool) (m n : M A) → IsQuiet m → IsQuiet n → IsQuiet (if b then m else n)
IsQuiet-if true m n p q = p
IsQuiet-if false m n p q = q

pub ruleset quiet_rules = (
  IsQuiet-pure, IsQuiet-fail, IsQuiet-crash, IsQuiet-get_world, IsQuiet-emit, IsQuiet-attempt,
  IsQuiet-bind, IsQuiet-inspect, IsQuiet-if,
)
