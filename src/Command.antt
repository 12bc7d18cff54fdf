-- ===== src/Command.antt =====
-- provider/command.go: subprocesses with their options, results and environment; the commands that
-- are run as they are or through ssh; and the unmarshalers of provider/marshaling.go.
-- The copies of a command's output that `CommandOptionTflogTee` sends to the log are not modelled,
-- its hook before the run is.
pub mod Readln
pub mod Process
pub mod Quiet
pub mod Runs
use terraform_provider_nixos.Base.{
  String, ◌⧺◌, Bool, true, false, Option, none, some, List, [], ◌∷◌, ◌++◌, Outcome, ok, wrapf,
  if◌then◌else◌,
}
use terraform_provider_nixos.Base.Text.{join}
use terraform_provider_nixos.Base.Hex.{Bytes}
use terraform_provider_nixos.Base.Assoc.{has}
use terraform_provider_nixos.System.{
  System, World, Event, Invocation, Exit, success, failure, ran, logged, M, pure, fail, lift, emit,
  get_world, ◌>>=◌, ◌>>◌,
}
use terraform_provider_nixos.Environment.{Environment, with, slice, new_environment}
use terraform_provider_nixos.Environment.Lines.{key_of}

-- a hook of `Cmd.PreRunHooks`: the one that `CommandOptionTflogTee` adds
pub data Hook : Type 0 where
  log_command : Hook

pub record Cmd : Type 0 where
  pub command : String
  pub arguments : List String
  pub stdin : Option Bytes
  pub pre_run_hooks : List Hook
  pub env : Environment

-- The option functions, by their names: `CommandOptionStdin`, `CommandOptionEnv`,
-- `CommandOptionTflogTee`.
pub data CommandOption : Type 0 where
  option_stdin : Bytes → CommandOption
  option_env : Environment → CommandOption
  option_tflog_tee : CommandOption

unfoldable pub apply_option : CommandOption → Cmd → Cmd
apply_option (option_stdin stdin) cmd = record cmd { stdin = some stdin }
apply_option (option_env env) cmd = record cmd { env = with cmd.env env }
apply_option option_tflog_tee cmd = record cmd {
  pre_run_hooks = cmd.pre_run_hooks ++ log_command ∷ [];
}

-- the loop over `options`
unfoldable pub apply_options : List CommandOption → Cmd → Cmd
unfolding apply_option
apply_options [] cmd = cmd
apply_options (option ∷ options) cmd = apply_options options (apply_option option cmd)

-- `cmd.String()`
unfoldable pub command_line : Cmd → String
command_line cmd = join (cmd.command ∷ cmd.arguments) " "

-- the loop over `os.Environ()`: a variable that the command sets is not inherited
unfoldable pub inherit : Environment → List String → List String → List String
inherit env lines [] = lines
inherit env lines (kv ∷ os) =
    inherit env (if has (key_of kv) env then lines else lines ++ kv ∷ []) os

-- The environment that the subprocess gets.
unfoldable pub process_environment : Environment → List String → List String
unfolding inherit
process_environment env os = inherit env (slice env) os

run_hooks : List Hook → Cmd → M Unit
unfolding command_line
run_hooks [] cmd = pure tt
run_hooks (log_command ∷ hooks) cmd =
    emit (logged ("running command: " ⧺ command_line cmd)) >> run_hooks hooks cmd

finish : Cmd → Exit → M Bytes
unfolding command_line
finish cmd (success stdout) = pure stdout
finish cmd (failure e stderr) =
    fail (wrapf e "subcommand %q exited with: %s" (command_line cmd ∷ stderr ∷ []))

-- the command before its options
abbrev pub new_cmd : String → List String → Cmd
new_cmd command arguments = record {
  command = command;
  arguments = arguments;
  stdin = none;
  pre_run_hooks = [];
  env = new_environment [];
}

module _ (sys : System) where
  abbrev pub invocation : Cmd → Invocation
  invocation cmd = record {
    command = cmd.command;
    arguments = cmd.arguments;
    environment = process_environment cmd.env sys.environ;
    stdin = cmd.stdin;
  }

  -- `Cmd.Run`, with the environment that `CommandExecute` has set; the log has the call of
  -- `exec.Cmd.Run`, which fails without a process if the system does not start the program
  unfoldable pub run : Cmd → M Bytes
  unfolding run_hooks finish
  run cmd = do
    run_hooks cmd.pre_run_hooks cmd
    w ← get_world
    emit (ran (invocation cmd))
    finish cmd (sys.run w (invocation cmd))

  unfoldable pub command_execute : String → List String → List CommandOption → M Bytes
  unfolding run
  command_execute command arguments options =
      run (apply_options options (new_cmd command arguments))

-- `UnmarshalerPassthrough` and `UnmarshalerJSON`
pub data Unmarshaler : Type 0 where
  passthrough json : Unmarshaler

-- A command of the `Command` interface, reduced to what its method `Command()` returns.
pub record CommandLine : Type 0 where
  pub name : String
  pub arguments : List String
  pub options : List CommandOption

-- Results are values that `encoding/json` decodes into, by the function that is given.
module _ {R : Type 0} (decode : Bytes → Outcome R) where
  -- `Unmarshal(buf, &result)` where `result` holds a pointer to a cell with the value `cell`.
  -- Passthrough stores the bytes in the local variable `result` itself, and the cell keeps its value.
  unfoldable pub unmarshal : Unmarshaler → Bytes → R → Outcome R
  unmarshal passthrough buf cell = ok cell
  unmarshal json buf cell = decode buf

  -- `if result != nil { … }`; no unmarshaler is the passthrough one
  unfoldable pub unmarshal_result : Option Unmarshaler → Bytes → Option R → Outcome (Option R)
  unfolding unmarshal
  unmarshal_result u buf none = ok none
  unmarshal_result none buf (some cell) = ok (some cell)
  unmarshal_result (some u) buf (some cell) = elim (unmarshal u buf cell) [
    | Outcome.ok r ↦ ok (some r)
    | Outcome.err e ↦ Outcome.err e
    | Outcome.panic p ↦ Outcome.panic p
  ]

  unfoldable pub command_execute_unmarshal :
      System → CommandLine → Option Unmarshaler → Option R → M (Option R)
  unfolding unmarshal_result
  command_execute_unmarshal sys c unmarshaler result = do
    output ← command_execute sys c.name c.arguments c.options
    lift (unmarshal_result unmarshaler output result)

-- Commands are mostly executed for their effect, with a nil result.
unfoldable pub execute_command : System → CommandLine → M Unit
execute_command sys c = command_execute sys c.name c.arguments c.options >> pure tt

-- `StringCommand`: `CommandFromString`
unfoldable pub command_from_string : String → List String → CommandLine
command_from_string command arguments = record {
  name = command;
  arguments = arguments;
  options = [];
}

-- `RemoteCommand.Execute`: the words of the command behind those of ssh, the options of both
unfoldable pub remote_command : CommandLine → CommandLine → CommandLine
remote_command ssh c = record {
  name = ssh.name;
  arguments = (ssh.arguments ++ c.name ∷ []) ++ c.arguments;
  options = ssh.options ++ c.options;
}
