-- ===== src/Nix/Copy.antt =====
-- `NixCopyCommand` and `NixCopyProtocol` of provider/nix.go: copying store paths to another store.
use Prim.Native.Char.{code}
use terraform_provider_nixos.Base.{
  String, ◌⧺◌, Bool, true, false, List, [], ◌∷◌, ◌++◌, ◌==◌, if◌then◌else◌,
}
use terraform_provider_nixos.Base.Text.{is_nonempty}
use terraform_provider_nixos.System.{System, M}
use terraform_provider_nixos.Command.{CommandLine, execute_command}
use terraform_provider_nixos.Nix
use terraform_provider_nixos.Nix.{Nix}

abbrev pub protocol_none : String
protocol_none = ""

abbrev pub protocol_ssh : String
protocol_ssh = "ssh"

abbrev pub protocol_s3 : String
protocol_s3 = "s3"

abbrev pub protocol_file : String
protocol_file = "file"

-- a colon before the first slash
colon_in_first_segment : String → Bool
colon_in_first_segment String.[] = false
colon_in_first_segment (String.◌∷◌ c s) =
    if code c == b'/' then false else if code c == b':' then true else colon_in_first_segment s

-- `NixCopyProtocol.Path`: `url.URL.String` of a scheme and a path, with its escaping of the path
unfoldable pub protocol_path : (String → String) → String → String → String
unfolding colon_in_first_segment
protocol_path escape protocol path =
    let escaped = escape path in
    if is_nonempty protocol
    then protocol ⧺ (":" ⧺ ((if is_nonempty path then "//" else "") ⧺ escaped))
    else (if colon_in_first_segment escaped then "./" ⧺ escaped else escaped)

pub record NixCopyCommand : Type 0 where
  pub nix : Nix
  pub arguments : List String

-- The option functions, by their names.
pub data NixCopyCommandOption : Type 0 where
  option_to option_from : String → String → NixCopyCommandOption
  option_path : String → NixCopyCommandOption
  option_use_substitutes : NixCopyCommandOption

abbrev append_arguments : List String → NixCopyCommand → NixCopyCommand
append_arguments words n = record n { arguments = n.arguments ++ words }

unfoldable pub apply_option :
    (String → String) → NixCopyCommandOption → NixCopyCommand → NixCopyCommand
unfolding protocol_path
apply_option escape (option_to protocol to) n =
    append_arguments ("--to" ∷ protocol_path escape protocol to ∷ []) n
apply_option escape (option_from protocol from) n =
    append_arguments ("--from" ∷ protocol_path escape protocol from ∷ []) n
apply_option escape (option_path path) n = append_arguments (path ∷ []) n
apply_option escape option_use_substitutes n = append_arguments ("--use-substitutes" ∷ []) n

unfoldable pub apply_options :
    (String → String) → List NixCopyCommandOption → NixCopyCommand → NixCopyCommand
unfolding apply_option
apply_options escape [] n = n
apply_options escape (option ∷ options) n =
    apply_options escape options (apply_option escape option n)

-- `Nix.Copy`
unfoldable pub copy : (String → String) → Nix → List NixCopyCommandOption → NixCopyCommand
unfolding apply_options
copy escape n options = apply_options escape options (record { nix = n; arguments = [] })

unfoldable pub command : NixCopyCommand → CommandLine
unfolding Nix.command
command n = record {
  name = (Nix.command n.nix).name;
  arguments = ((Nix.command n.nix).arguments ++ "copy" ∷ []) ++ n.arguments;
  options = (Nix.command n.nix).options;
}

unfoldable pub execute : System → NixCopyCommand → M Unit
unfolding command
execute sys n = execute_command sys (command n)
