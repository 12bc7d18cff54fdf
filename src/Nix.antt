-- ===== src/Nix.antt =====
-- `Nix` of provider/nix.go: the nix command with its mode, arguments, environment and ssh command.
pub mod Build
pub mod Copy
pub mod Profile
pub mod Derivation
pub mod Laws
use terraform_provider_nixos.Base.{
  ℕ, String, Bool, true, false, List, [], ◌∷◌, ◌++◌, Option, none, some, Outcome, ok, panic,
  nil_dereference, is_empty, if◌then◌else◌, ◌==◌,
}
use terraform_provider_nixos.Base.Int.{ℤ}
use terraform_provider_nixos.Base.Text.{join}
use terraform_provider_nixos.Base.Decimal.{itoa}
use terraform_provider_nixos.System.{System, World, M}
use terraform_provider_nixos.Environment.{Environment, add, copy}
use terraform_provider_nixos.Command.{CommandOption, option_env, CommandLine, execute_command}
use terraform_provider_nixos.Ssh
use terraform_provider_nixos.Ssh.{Ssh}

-- `NixModeCompat` and `NixModeDefault`; a `NixMode` is a byte, and any but the first is the default
abbrev pub mode_compat : ℕ
mode_compat = 0

abbrev pub mode_default : ℕ
mode_default = 1

abbrev pub feature_command : String
feature_command = "nix-command"

abbrev pub environment_ssh_opts : String
environment_ssh_opts = "NIX_SSHOPTS"

pub record Nix : Type 0 where
  pub mode : ℕ
  pub arguments : List String
  pub command_options : List CommandOption
  pub environment : Environment
  pub ssh : Option Ssh

-- The option functions, by their names.
pub data NixOption : Type 0 where
  option_ssh : Ssh → NixOption
  option_ssh_opts : List String → NixOption
  option_mode : ℕ → NixOption
  option_with_command_options : List CommandOption → NixOption
  option_experimental_features : List String → NixOption
  option_show_trace : NixOption
  option_cores : ℤ → NixOption
  option_use_substitutes : NixOption

abbrev append_arguments : List String → Nix → Nix
append_arguments words n = record n { arguments = n.arguments ++ words }

-- `NixOptionSshOpts`
unfoldable pub ssh_opts : List String → Nix → Nix
ssh_opts opts n = record n { environment = add environment_ssh_opts opts n.environment }

-- `NixOptionExperimentalFeatures`: only the compatibility mode has the flag
unfoldable pub experimental_features : List String → Nix → Nix
experimental_features feature n =
    if n.mode == mode_compat
    then append_arguments ("--extra-experimental-features" ∷ join feature "," ∷ []) n
    else n

-- `NixOptionMode`
unfoldable pub set_mode : ℕ → Nix → Nix
unfolding experimental_features
set_mode mode n =
    let n' = record n { mode = mode } in
    if mode == mode_compat then experimental_features (feature_command ∷ []) n' else n'

unfoldable pub apply_option : NixOption → Nix → Nix
unfolding ssh_opts set_mode experimental_features
apply_option (option_ssh s) n = ssh_opts (Ssh.command s).arguments (record n { ssh = some s })
apply_option (option_ssh_opts opts) n = ssh_opts opts n
apply_option (option_mode mode) n = set_mode mode n
apply_option (option_with_command_options options) n = record n {
  command_options = n.command_options ++ options;
}
apply_option (option_experimental_features feature) n = experimental_features feature n
apply_option option_show_trace n = append_arguments ("--show-trace" ∷ []) n
apply_option (option_cores num) n = append_arguments ("--cores" ∷ itoa num ∷ []) n
apply_option option_use_substitutes n = append_arguments ("--builders-use-substitutes" ∷ []) n

-- the loop over `options`
unfoldable pub apply_options : List NixOption → Nix → Nix
unfolding apply_option
apply_options [] n = n
apply_options (option ∷ options) n = apply_options options (apply_option option n)

-- `Nix.With`: the mode and the command options are not copied, and a nil `Ssh` is dereferenced
unfoldable pub with : List NixOption → Nix → Outcome Nix
unfolding apply_options
with options n = elim n.ssh [
  | none ↦ panic nil_dereference
  | some s ↦ ok (
      apply_options options (record {
        mode = mode_compat;
        arguments = n.arguments;
        command_options = [];
        environment = copy n.environment;
        ssh = some s;
      }))
]

abbrev blank : Nix
blank = record {
  mode = mode_compat;
  arguments = [];
  command_options = [];
  environment = [];
  ssh = none;
}

unfoldable pub new_nix : List NixOption → Nix
unfolding apply_options
new_nix options = apply_options options blank

unfoldable pub command : Nix → CommandLine
command n = record {
  name = "nix";
  arguments = n.arguments;
  options =
      n.command_options ++ (if is_empty n.environment then [] else option_env n.environment ∷ []);
}

unfoldable pub execute : System → Nix → M Unit
unfolding command
execute sys n = execute_command sys (command n)

-- `Close`
unfoldable pub close : System → Nix → World → World
close sys n w = elim n.ssh [ none ↦ w | some s ↦ Ssh.close sys s w ]
