-- ===== src/Provider/Actions.antt =====
-- `Build`, `CopySecrets`, `Push` and `Switch` of provider/provider.go.
pub mod Deploy
pub mod Laws
pub mod Locks
use terraform_provider_nixos.Base.{
  String, Bool, true, false, List, [], ◌∷◌, ◌++◌, Option, none, some, Outcome, Error, errorf, wrapf,
  last?, index_out_of_range, nil_dereference, ◌=ₛ◌, if◌then◌else◌,
}
use terraform_provider_nixos.Base.Hex.{Bytes}
use terraform_provider_nixos.Base.Assoc.{Map, lookup}
use terraform_provider_nixos.System.{
  System, World, Attempt, done, refused, M, pure, fail, crash, lift, attempt, inspect, get_world,
  ◌>>=◌, ◌>>◌,
}
use terraform_provider_nixos.Files
use terraform_provider_nixos.Files.{File, new_nix_wrapper_file}
use terraform_provider_nixos.Command.{
  CommandLine, execute_command, command_from_string, remote_command,
}
use terraform_provider_nixos.Settings.{ResourceBox, Fields, value_of}
use terraform_provider_nixos.Ssh
use terraform_provider_nixos.Ssh.{Ssh, option_host}
use terraform_provider_nixos.Nix
use terraform_provider_nixos.Nix.{Nix}
use terraform_provider_nixos.Nix.Build
use terraform_provider_nixos.Nix.Build.{
  NixBuildCommand, NixBuildCommandOption, option_file, option_arg_str, option_json, option_no_link,
  option_memoize,
}
use terraform_provider_nixos.Nix.Copy
use terraform_provider_nixos.Nix.Copy.{protocol_ssh, option_to, option_path}
use terraform_provider_nixos.Nix.Profile
use terraform_provider_nixos.Nix.Profile.{option_profile, option_derivation}
use terraform_provider_nixos.Nix.Derivation.{Derivation}
use terraform_provider_nixos.Secrets.{Secrets}
use terraform_provider_nixos.Secrets.Archive.{Writer}
use terraform_provider_nixos.Provider.{Network, Provider, as_string, string_or_empty, nix_settings}
use terraform_provider_nixos.Provider.Objects.{provider_nix}

-- `defer x.Close()` for an object that the first action makes.
abbrev pub using : {A B : Type 0} → M A → (A → World → World) → (A → M B) → M B
using make close body = make >>= λ a w. ((body a w).0, close a (body a w).1)

-- the options of the build command
unfoldable pub build_options : File → String → String → String → List NixBuildCommandOption
build_options wrapper system settings configuration =
    option_file wrapper
    ∷ option_arg_str "system" system
    ∷ option_arg_str "settings" settings
    ∷ option_arg_str "configuration" configuration
    ∷ option_json
    ∷ option_no_link
    ∷ option_memoize configuration
    ∷ []

abs_failed : String → Attempt String → M String
abs_failed configuration (done path) = pure path
abs_failed configuration (refused e) =
    fail (wrapf e "failed to determine absolute path for configuration %q" (configuration ∷ []))

-- exactly one derivation, or an error
unfoldable pub single : String → Option (List Derivation) → M (List Derivation)
single configuration none = pure []
single configuration (some []) =
    fail (errorf "no derivations was build for %q configuration" (configuration ∷ []))
single configuration (some (d ∷ [])) = pure (d ∷ [])
single configuration (some (d ∷ e ∷ ds)) = fail (
    errorf "multiple derivations was build for %q configuration (expecting single derivation)"
      (configuration ∷ []))

module _ (sys : System) (decode : Bytes → Outcome (List Derivation)) where
  -- the build command is run, unless the context is done
  run_build : String → NixBuildCommand → M (List Derivation)
  unfolding single
  run_build configuration command = do
    w ← get_world
    if sys.cancelled w
        then pure []
        else (Build.execute decode sys command (some []) >>= single configuration)

  -- `Build` with the wrapper file
  build_with : ResourceBox → String → Nix → File → M (List Derivation)
  unfolding run_build abs_failed build_options
  build_with resource system nix wrapper = do
    configuration ← lift (as_string (resource "configuration"))
    absolute ← abs_failed configuration (sys.abs configuration)
    settings ← lift (as_string (resource "settings"))
    run_build configuration (Build.build nix (build_options wrapper system settings absolute))

  -- `Build` with the nix command
  build_nix : {IP IPNet : Type 0} → Provider IP IPNet → ResourceBox → Nix → M (List Derivation)
  unfolding build_with
  build_nix p resource nix = do
    system ← lift (as_string (resource "system"))
    settings ← lift (nix_settings p (some resource))
    using (new_nix_wrapper_file sys (string_or_empty (value_of "build_wrapper" settings)))
        (Files.close sys) (build_with resource system nix)

  unfoldable pub build : {IP IPNet : Type 0} → Provider IP IPNet → ResourceBox → M (List Derivation)
  unfolding build_nix
  build p resource =
      using (provider_nix sys p (some resource)) (Nix.close sys) (build_nix p resource)
