-- ===== src/System/Run.antt =====
-- Facts about chains of actions.
use terraform_provider_nixos.Base.{◌≡◌, refl, ◌⊎◌, inl, inr, Error, Outcome, ok, err, panic}
use terraform_provider_nixos.System.{M, World, Attempt, done, refused, continue, ◌>>=◌, pure}

-- A predicate of states that an action keeps, whether it returns, fails or panics.
pub record Keeps {A : Type 0} (P : World → Type 0) (m : M A) : Type 0 where
  pub at : (w : World) → P w → P (m w).1

continue-Keeps :
    {A B : Type 0} {P : World → Type 0} (f : A → M B) (o : Outcome A) (w : World)
    → ((a : A) → Keeps P (f a))
    → P w
    → P (continue f o w).1
continue-Keeps f (ok a) w k h = (k a).at w h
continue-Keeps f (err e) w k h = h
continue-Keeps f (panic p) w k h = h

pub Keeps-bind :
    {A B : Type 0} {P : World → Type 0} (m : M A) (f : A → M B)
    → Keeps P m
    → ((a : A) → Keeps P (f a))
    → Keeps P (m >>= f)
Keeps-bind m f km kf = record { at = λ w h. continue-Keeps f (m w).0 (m w).1 kf (km.at w h) }

pub Keeps-pure : {A : Type 0} {P : World → Type 0} (a : A) → Keeps P (pure a)
Keeps-pure a = record { at = λ w h. h }

-- A split on an answer of the system that keeps the equation.
pub Attempt-cases {ℓ} :
    {A : Type ℓ} (o : Attempt A) → ((a : A) × (o ≡ done a)) ⊎ ((e : Error) × (o ≡ refused e))
Attempt-cases (done a) = inl (a, refl)
Attempt-cases (refused e) = inr (e, refl)
