-- ===== src/Ssh.antt =====
-- provider/ssh.go: an ssh command with its arguments and its finalizers, which close the temporary
-- files that its options created.
pub mod ConfigMap
pub mod Laws
pub mod Locks
pub mod Count
use terraform_provider_nixos.Base.{
  String, ◌⧺◌, List, [], ◌∷◌, ◌++◌, Error, Panic, raised, Outcome, Option, none,
}
use terraform_provider_nixos.System.{System, World, M, pure, crash, inspect, defer, ◌>>=◌, ◌>>◌}
use terraform_provider_nixos.Files.{close_temp, create_temp, write}
use terraform_provider_nixos.Command.{CommandLine, execute_command}
use terraform_provider_nixos.Ssh.ConfigMap.{SshConfigMap, pairs, ssh_serialize_config}

-- A finalizer closes the temporary file of this name, and drops the error of doing so.
pub record Ssh : Type 0 where
  pub arguments : List String
  pub finalizers : List String

-- The option functions, by their names; `config_file` takes the name of its file.
pub data SshOption : Type 0 where
  option_config : String → SshOption
  option_config_file : String → SshOption
  option_config_map : SshConfigMap → SshOption
  option_host : String → SshOption
  option_command : String → SshOption
  option_non_interactive : SshOption
  option_io_redirection : String → String → SshOption

abbrev pub append_arguments : List String → Ssh → Ssh
append_arguments words s = record s { arguments = s.arguments ++ words }

-- `SshFinalizerFile`
unfoldable pub finalizer_file : String → Ssh → Ssh
finalizer_file fd s = record s { finalizers = s.finalizers ++ fd ∷ [] }

panic_on_error : {A : Type 0} → Outcome A → M A
panic_on_error (Outcome.ok a) = pure a
panic_on_error (Outcome.err e) = crash (raised e)
panic_on_error (Outcome.panic p) = crash p

-- a call whose caller panics on its error
unfoldable pub or_panic : {A : Type 0} → M A → M A
unfolding panic_on_error
or_panic m = inspect m panic_on_error

unfoldable pub apply_option : System → SshOption → Ssh → M Ssh
unfolding finalizer_file or_panic
apply_option sys (option_config path) s = pure (append_arguments ("-F" ∷ path ∷ []) s)
apply_option sys (option_config_file fd) s = pure (append_arguments ("-F" ∷ fd ∷ []) s)
apply_option sys (option_config_map m) s = do
  fd ← or_panic (create_temp sys "ssh_config.*")
  or_panic (write sys fd (ssh_serialize_config (pairs m)))
  pure (append_arguments ("-F" ∷ fd ∷ []) (finalizer_file fd s))
apply_option sys (option_host host) s = pure (append_arguments (host ∷ []) s)
apply_option sys (option_command cmd) s = pure (append_arguments (cmd ∷ []) s)
apply_option sys option_non_interactive s = pure (append_arguments ("-N" ∷ []) s)
apply_option sys (option_io_redirection host port) s =
    pure (append_arguments ("-W" ∷ (host ⧺ (":" ⧺ port)) ∷ []) s)

-- the loop over `options`
unfoldable pub apply_options : System → List SshOption → Ssh → M Ssh
apply_options sys [] s = pure s
apply_options sys (option ∷ options) s = do
  s' ← apply_option sys option s
  apply_options sys options s'

-- `Ssh.With`: the options are applied to a copy
unfoldable pub with : System → List SshOption → Ssh → M Ssh
with sys options s =
    apply_options sys options (record { arguments = s.arguments; finalizers = s.finalizers })

unfoldable pub new_ssh : System → List SshOption → M Ssh
new_ssh sys options = apply_options sys options (record { arguments = []; finalizers = [] })

unfoldable pub command : Ssh → CommandLine
command s = record { name = "ssh"; arguments = s.arguments; options = [] }

-- the loop of `Finalize`
unfoldable pub finalize_files : System → List String → World → World
finalize_files sys [] w = w
finalize_files sys (fd ∷ fds) w = finalize_files sys fds (close_temp sys fd w).1

unfoldable pub finalize : System → Ssh → World → Ssh × World
finalize sys s w = (record s { finalizers = [] }, finalize_files sys s.finalizers w)

-- `Close` returns nil
unfoldable pub close : System → Ssh → World → World
unfolding finalize
close sys s w = (finalize sys s w).1

unfoldable pub execute : System → Ssh → M Unit
execute sys s = defer (close sys s) (execute_command sys (command s))
