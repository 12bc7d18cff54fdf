-- ===== src/Tar.antt =====
-- provider/tar.go: the tar command.
use terraform_provider_nixos.Base.{String, List, [], ◌∷◌, ◌++◌}
use terraform_provider_nixos.System.{System, M}
use terraform_provider_nixos.Command.{CommandOption, CommandLine, execute_command}

pub record Tar : Type 0 where
  pub command_options : List CommandOption
  pub arguments : List String

-- The option functions, by their names.
pub data TarOption : Type 0 where
  option_command_options : List CommandOption → TarOption
  option_create option_extract option_gzip : TarOption
  option_file : String → TarOption
  option_ch_dir : String → TarOption
  option_paths : List String → TarOption

abbrev append_arguments : List String → Tar → Tar
append_arguments words t = record t { arguments = t.arguments ++ words }

unfoldable pub apply_option : TarOption → Tar → Tar
apply_option (option_command_options options) t = record t {
  command_options = t.command_options ++ options;
}
apply_option option_create t = append_arguments ("-c" ∷ []) t
apply_option option_extract t = append_arguments ("-x" ∷ []) t
apply_option option_gzip t = append_arguments ("-z" ∷ []) t
apply_option (option_file path) t = append_arguments ("-f" ∷ path ∷ []) t
apply_option (option_ch_dir path) t = append_arguments ("-C" ∷ path ∷ []) t
apply_option (option_paths paths) t = append_arguments paths t

apply_options : List TarOption → Tar → Tar
unfolding apply_option
apply_options [] t = t
apply_options (option ∷ options) t = apply_options options (apply_option option t)

unfoldable pub new_tar : List TarOption → Tar
unfolding apply_options
new_tar options = apply_options options (record { command_options = []; arguments = [] })

unfoldable pub command : Tar → CommandLine
command t = record { name = "tar"; arguments = t.arguments; options = t.command_options }

unfoldable pub execute : System → Tar → M Unit
unfolding command
execute sys t = execute_command sys (command t)
