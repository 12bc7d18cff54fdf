-- ===== src/Provider/Objects/Secrets/Fresh.antt =====
-- `NewSecrets` of provider/provider.go returns secrets that are not fetched yet.
use terraform_provider_nixos.Base
use terraform_provider_nixos.Base.{◌≡◌, refl, Option, none, Outcome, ok, err, panic}
use mathlib.Core.Path.{subst}
use terraform_provider_nixos.System.{System}
use terraform_provider_nixos.Settings.{ResourceBox, value_of}
use terraform_provider_nixos.Secrets.{Secrets, new_secrets}
use terraform_provider_nixos.Provider.{Provider, as_string, secrets_settings, secrets_set}
use terraform_provider_nixos.Provider.Objects.Secrets.{
  provider_secrets, choose_provider, descriptions,
}

-- The outcome is an error or a panic, or the value fits.
Fits : {A : Type 0} → (A → Type 0) → Outcome A → Type 0
Fits P (ok a) = P a
Fits P (err e) = Unit
Fits P (panic p) = Unit

Fits-bind :
    {A B : Type 0} (P : B → Type 0) (o : Outcome A) (f : A → Outcome B)
    → ((a : A) → Fits P (f a))
    → Fits P (Base.◌>>=◌ o f)
unfolding Fits
Fits-bind P (ok a) f h = h a
Fits-bind P (err e) f h = tt
Fits-bind P (panic p) f h = tt

provider_secrets-Fits :
    {IP IPNet : Type 0} (sys : System) (p : Provider IP IPNet) (r : Option ResourceBox)
    → Fits (λ s. s.data_cache ≡ none) (provider_secrets sys p r)
unfolding provider_secrets Fits new_secrets
provider_secrets-Fits sys p r =
    let P : Secrets → Type 0 = λ s. s.data_cache ≡ none in
    Fits-bind P (secrets_settings p r) _ λ fs.
      Fits-bind P (as_string (value_of "provider" fs)) _ λ name.
        Fits-bind P (choose_provider sys p r name) _ λ provider.
          Fits-bind P (secrets_set p r) _ λ blocks. Fits-bind P (descriptions blocks) _ λ ds. refl

pub provider_secrets-new :
    {IP IPNet : Type 0} (sys : System) (p : Provider IP IPNet) (r : Option ResourceBox)
    (s : Secrets)
    → provider_secrets sys p r ≡ ok s
    → s.data_cache ≡ none
unfolding Fits
provider_secrets-new sys p r s e =
    subst (Fits (λ t. t.data_cache ≡ none)) e (provider_secrets-Fits sys p r)
