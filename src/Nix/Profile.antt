-- ===== src/Nix/Profile.antt =====
-- `NixProfileCommand` and `NixProfileInstallCommand` of provider/nix.go: setting a profile, by
-- `nix profile install` or, in the compatibility mode, by `nix-env --set`.
use terraform_provider_nixos.Base.{String, List, [], ◌∷◌, ◌++◌, ◌==◌, if◌then◌else◌}
use terraform_provider_nixos.System.{System, M}
use terraform_provider_nixos.Command.{CommandLine, execute_command}
use terraform_provider_nixos.Nix
use terraform_provider_nixos.Nix.{Nix, mode_compat}

pub record NixProfileCommand : Type 0 where
  pub nix : Nix
  pub arguments : List String

pub record NixProfileInstallCommand : Type 0 where
  pub profile : NixProfileCommand
  pub arguments : List String

-- `Nix.Profile`; the program has no option of this command
unfoldable pub profile : Nix → NixProfileCommand
profile n = record { nix = n; arguments = [] }

unfoldable pub profile_command : NixProfileCommand → CommandLine
unfolding Nix.command
profile_command n = record {
  name = (Nix.command n.nix).name;
  arguments = ((Nix.command n.nix).arguments ++ "profile" ∷ []) ++ n.arguments;
  options = (Nix.command n.nix).options;
}

unfoldable pub profile_execute : System → NixProfileCommand → M Unit
unfolding profile_command
profile_execute sys n = execute_command sys (profile_command n)

-- The option functions, by their names.
pub data NixProfileInstallCommandOption : Type 0 where
  option_profile option_derivation : String → NixProfileInstallCommandOption

abbrev append_arguments : List String → NixProfileInstallCommand → NixProfileInstallCommand
append_arguments words n = record n { arguments = n.arguments ++ words }

unfoldable pub apply_option :
    NixProfileInstallCommandOption → NixProfileInstallCommand → NixProfileInstallCommand
apply_option (option_profile location) n = append_arguments ("--profile" ∷ location ∷ []) n
apply_option (option_derivation path) n =
    if n.profile.nix.mode == mode_compat
    then append_arguments ("--set" ∷ path ∷ []) n
    else append_arguments ("--derivation" ∷ path ∷ []) n

unfoldable pub apply_options :
    List NixProfileInstallCommandOption → NixProfileInstallCommand → NixProfileInstallCommand
unfolding apply_option
apply_options [] n = n
apply_options (option ∷ options) n = apply_options options (apply_option option n)

-- `NixProfileCommand.Install`
unfoldable pub install :
    NixProfileCommand → List NixProfileInstallCommandOption → NixProfileInstallCommand
unfolding apply_options
install n options = apply_options options (record { profile = n; arguments = [] })

unfoldable pub command : NixProfileInstallCommand → CommandLine
unfolding profile_command
command n =
    let c = profile_command n.profile in
    if n.profile.nix.mode == mode_compat
    then record { name = "nix-env"; arguments = n.arguments; options = c.options }
    else record {
      name = c.name;
      arguments = (c.arguments ++ "install" ∷ []) ++ n.arguments;
      options = c.options;
    }

unfoldable pub execute : System → NixProfileInstallCommand → M Unit
unfolding command
execute sys n = execute_command sys (command n)
