-- ===== src/Instance/Diff.antt =====
-- `Instance.Diff` of provider/instance.go: which computed values terraform has to compute again.
pub mod Unchanged
pub mod Buffers
use terraform_provider_nixos.Base.{
  String, Bool, true, false, List, [], ◌∷◌, ◌++◌, Option, none, some, ◌=ₛ◌, if◌then◌else◌,
}
use terraform_provider_nixos.System.{System, M, pure, lift, ◌>>=◌}
use terraform_provider_nixos.Settings.{ResourceBox, Fields}
use terraform_provider_nixos.Nix.Derivation
use terraform_provider_nixos.Nix.Derivation.{Derivation}
use terraform_provider_nixos.Secrets.{load}
use terraform_provider_nixos.Provider.{Network, Provider}
use terraform_provider_nixos.Provider.Objects.Secrets.{provider_secrets}
use terraform_provider_nixos.Provider.Actions.{build}
use terraform_provider_nixos.Instance.{Libraries, schema_to_derivations}
use terraform_provider_nixos.Instance.Fingerprint.{schema_to_secret_fingerprint, is_unchanged}

-- `schema.ResourceDiff`; a value of another type than expected is `none`
pub record ResourceDiff (V : Type 0) : Type 0 where
  pub has_change : String → Bool
  pub box : ResourceBox
  pub fingerprint : Option Fields
  pub derivations : Option (List V)

-- the key, unless the condition holds
unless : Bool → String → List String
unless true key = []
unless false key = key ∷ []

module _ {V : Type 0} (net : Network) (sys : System) (lib : Libraries V) where
  open net use {IP, IPNet}

  -- the comparison of the secrets; they are loaded again, and stay in their buffers
  check_fingerprint : Provider IP IPNet → ResourceDiff V → Option Fields → M (List String)
  unfolding unless
  check_fingerprint p r none = pure []
  check_fingerprint p r (some schema) = do
    f ← lift (schema_to_secret_fingerprint schema)
    secrets ← lift (provider_secrets sys p (some r.box))
    s ← load sys secrets
    pure (unless (is_unchanged lib.crypto s.1 f) "secret_fingerprint")

  -- the comparison of the derivations; the configuration is built again
  check_derivations : Provider IP IPNet → ResourceDiff V → Option (List V) → M (List String)
  unfolding unless
  check_derivations p r none = pure []
  check_derivations p r (some schema) = do
    old ← lift (schema_to_derivations lib.decode_derivation schema)
    new ← build sys lib.decode p r.box
    pure (
        unless (Derivation.hash_all lib.crypto old =ₛ Derivation.hash_all lib.crypto new)
          "derivations")

  -- the keys for which `SetNewComputed` is called
  unfoldable pub diff : Provider IP IPNet → ResourceDiff V → M (List String)
  unfolding check_fingerprint check_derivations
  diff p r = do
    secrets ←
        if r.has_change "secret_fingerprint"
        then pure ("secret_fingerprint" ∷ [])
        else check_fingerprint p r r.fingerprint
    derivations ←
        if r.has_change "derivations"
        then pure ("derivations" ∷ [])
        else check_derivations p r r.derivations
    pure (secrets ++ derivations)
