-- ===== src/Nix/Build.antt =====
-- `NixBuildCommand` and `Memo` of provider/nix.go: a build, whose output may be remembered for the
-- life of the process under a key.
pub mod Memo
pub mod Locks
use terraform_provider_nixos.Base.{
  String, Bool, true, false, List, [], ◌∷◌, ◌++◌, Option, none, some, Outcome, if◌then◌else◌,
}
use terraform_provider_nixos.Base.Hex.{Bytes}
use terraform_provider_nixos.Base.Assoc.{lookup, put}
use terraform_provider_nixos.System.{System, World, M, pure, lift, get_world, ◌>>=◌, ◌>>◌}
use terraform_provider_nixos.Files.{File, name}
use terraform_provider_nixos.Command.{
  CommandLine, Unmarshaler, json, command_execute, unmarshal_result,
}
use terraform_provider_nixos.Nix
use terraform_provider_nixos.Nix.{Nix}

pub record NixBuildCommand : Type 0 where
  pub nix : Nix
  pub arguments : List String
  pub memoize : Bool
  pub memo_key : String
  pub unmarshaler : Option Unmarshaler

-- The option functions, by their names.
pub data NixBuildCommandOption : Type 0 where
  option_file : File → NixBuildCommandOption
  option_arg : String → String → NixBuildCommandOption
  option_arg_str : String → String → NixBuildCommandOption
  option_no_link option_json : NixBuildCommandOption
  option_memoize : String → NixBuildCommandOption

abbrev append_arguments : List String → NixBuildCommand → NixBuildCommand
append_arguments words n = record n { arguments = n.arguments ++ words }

unfoldable pub apply_option : NixBuildCommandOption → NixBuildCommand → NixBuildCommand
apply_option (option_file fd) n = append_arguments ("-f" ∷ name fd ∷ []) n
apply_option (option_arg key expr) n = append_arguments ("--arg" ∷ key ∷ expr ∷ []) n
apply_option (option_arg_str key value) n = append_arguments ("--argstr" ∷ key ∷ value ∷ []) n
apply_option option_no_link n = append_arguments ("--no-link" ∷ []) n
apply_option option_json n = record n {
  arguments = n.arguments ++ "--json" ∷ [];
  unmarshaler = some json;
}
apply_option (option_memoize key) n = record n { memoize = true; memo_key = key }

unfoldable pub apply_options : List NixBuildCommandOption → NixBuildCommand → NixBuildCommand
unfolding apply_option
apply_options [] n = n
apply_options (option ∷ options) n = apply_options options (apply_option option n)

-- `Nix.Build`
unfoldable pub build : Nix → List NixBuildCommandOption → NixBuildCommand
unfolding apply_options
build n options =
    apply_options options
      (record { nix = n; arguments = []; memoize = false; memo_key = ""; unmarshaler = none })

unfoldable pub command : NixBuildCommand → CommandLine
unfolding Nix.command
command n = record {
  name = (Nix.command n.nix).name;
  arguments = ((Nix.command n.nix).arguments ++ "build" ∷ []) ++ n.arguments;
  options = (Nix.command n.nix).options;
}

-- `Memo.Get` and `Memo.Set`, each under the lock of the memo
unfoldable pub memo_get : String → World → Option Bytes
memo_get key w = lookup key w.memo

unfoldable pub memo_set : String → Bytes → World → World
memo_set key value w = record w { memo = put key value w.memo }

set_if : Bool → String → Bytes → M Unit
unfolding memo_set
set_if false key r w = (Outcome.ok tt, w)
set_if true key r w = (Outcome.ok tt, memo_set key r w)

-- the build itself, and its output remembered
build_output : System → NixBuildCommand → M Bytes
unfolding command set_if
build_output sys n = do
  let c = command n
  r ← command_execute sys c.name c.arguments c.options
  set_if n.memoize n.memo_key r
  pure r

-- what the memo has for this command
remembered : NixBuildCommand → World → Option Bytes
unfolding memo_get
remembered n w = if n.memoize then memo_get n.memo_key w else none

output_of : System → NixBuildCommand → Option Bytes → M Bytes
unfolding build_output
output_of sys n (some r) = pure r
output_of sys n none = build_output sys n

module _ {R : Type 0} (decode : Bytes → Outcome R) where
  -- `NixBuildCommand.Execute`, with the cell that the result points to
  unfoldable pub execute : System → NixBuildCommand → Option R → M (Option R)
  unfolding remembered output_of
  execute sys n result = do
    w ← get_world
    r ← output_of sys n (remembered n w)
    lift (unmarshal_result decode n.unmarshaler r result)
