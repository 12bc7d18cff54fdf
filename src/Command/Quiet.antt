-- ===== src/Command/Quiet.antt =====
-- The commands of provider/command.go and the process's own state.
use terraform_provider_nixos.Base.{String, List, [], ◌∷◌}
use terraform_provider_nixos.System.{System, Exit, success, failure}
use terraform_provider_nixos.System.Same.{
  IsQuiet, IsQuiet-pure, IsQuiet-fail, IsQuiet-bind, IsQuiet-emit, quiet_rules,
}
use terraform_provider_nixos.Command.{
  Cmd, CommandOption, CommandLine, Hook, log_command, run_hooks, finish, run, command_execute,
  execute_command, apply_options, new_cmd,
}

run_hooks-IsQuiet : (hooks : List Hook) (cmd : Cmd) → IsQuiet (run_hooks hooks cmd)
unfolding run_hooks
run_hooks-IsQuiet [] cmd = IsQuiet-pure tt
run_hooks-IsQuiet (log_command ∷ hooks) cmd =
    IsQuiet-bind _ _ (IsQuiet-emit _) (λ _. run_hooks-IsQuiet hooks cmd)

finish-IsQuiet : (cmd : Cmd) (e : Exit) → IsQuiet (finish cmd e)
unfolding finish
finish-IsQuiet cmd (success out) = IsQuiet-pure out
finish-IsQuiet cmd (failure e s) = IsQuiet-fail _

run-IsQuiet : (sys : System) (cmd : Cmd) → IsQuiet (run sys cmd)
unfolding run
run-IsQuiet sys cmd = search (quiet_rules, run_hooks-IsQuiet, finish-IsQuiet)

pub command_execute-IsQuiet :
    (sys : System) (c : String) (a : List String) (o : List CommandOption)
    → IsQuiet (command_execute sys c a o)
unfolding command_execute
command_execute-IsQuiet sys c a o = run-IsQuiet sys (apply_options o (new_cmd c a))

pub execute_command-IsQuiet : (sys : System) (c : CommandLine) → IsQuiet (execute_command sys c)
unfolding execute_command
execute_command-IsQuiet sys c =
    IsQuiet-bind _ _ (command_execute-IsQuiet sys c.name c.arguments c.options)
      (λ _. IsQuiet-pure tt)
