-- ===== src/Command/Runs.antt =====
-- The subprocesses that the commands of provider/command.go leave in the log.
use terraform_provider_nixos.Base.{ℕ, ◌≡◌, refl, List, [], ◌∷◌, Outcome, ok, err, panic}
use terraform_provider_nixos.System.{
  System, World, Event, ran, logged, slept, Invocation, Exit, success, failure, M, continue, pure,
}
use terraform_provider_nixos.Command.{
  Cmd, Hook, log_command, CommandLine, apply_options, new_cmd, run_hooks, finish, invocation, run,
  command_execute, execute_command,
}

-- the subprocesses in a log, the last first
unfoldable pub invocations : List Event → List Invocation
invocations [] = []
invocations (ran i ∷ log) = i ∷ invocations log
invocations (logged s ∷ log) = invocations log
invocations (slept n ∷ log) = invocations log

-- the subprocess of a command
abbrev pub issued : System → CommandLine → Invocation
issued sys c = invocation sys (apply_options c.options (new_cmd c.name c.arguments))

hooks_run :
    {A : Type 0} (hooks : List Hook) (cmd : Cmd) (f : M A) (w : World) (is : List Invocation)
    → ((v : World) → invocations v.log ≡ invocations w.log → invocations (f v).1.log ≡ is)
    → invocations (continue (λ _. f) (run_hooks hooks cmd w).0 (run_hooks hooks cmd w).1).1.log ≡ is
unfolding run_hooks invocations
hooks_run [] cmd f w is h = h w refl
hooks_run (log_command ∷ hooks) cmd f w is h = hooks_run hooks cmd f _ is h

finish_run : (cmd : Cmd) (e : Exit) (w : World) → (finish cmd e w).1 ≡ w
unfolding finish
finish_run cmd (success s) w = refl
finish_run cmd (failure e s) w = refl

run-invocations :
    (sys : System) (cmd : Cmd) (w : World)
    → invocations (run sys cmd w).1.log ≡ invocation sys cmd ∷ invocations w.log
unfolding run invocations
run-invocations sys cmd w = hooks_run cmd.pre_run_hooks cmd _ w _ λ v h. rw (finish_run cmd, h) refl

dropped_result :
    (o : Outcome (List ℕ)) (v : World)
    → (continue (λ (_ : List ℕ). pure {A = Unit {0}} tt) o v).1 ≡ v
dropped_result (ok b) v = refl
dropped_result (err e) v = refl
dropped_result (panic p) v = refl

-- Executing a command asks the system for its subprocess once, whatever comes of it.
pub execute_command-invocations :
    (sys : System) (c : CommandLine) (w : World)
    → invocations (execute_command sys c w).1.log ≡ issued sys c ∷ invocations w.log
unfolding execute_command command_execute
execute_command-invocations sys c w =
    rw (dropped_result)
      (run-invocations sys (apply_options c.options (new_cmd c.name c.arguments)) w)
