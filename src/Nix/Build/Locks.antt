-- ===== src/Nix/Build/Locks.antt =====
-- `NixBuildCommand.Execute` of provider/nix.go and the locked buffers.
use terraform_provider_nixos.Base.{refl, String, Bool, true, false, Option, none, some, Outcome}
use terraform_provider_nixos.Base.Hex.{Bytes}
use terraform_provider_nixos.System.{System}
use terraform_provider_nixos.System.Locks.{KeepsLocks, KeepsLocks-IsQuiet, lock_rules}
use terraform_provider_nixos.Command.Quiet.{command_execute-IsQuiet}
use terraform_provider_nixos.Nix.Build.{
  NixBuildCommand, memo_set, set_if, build_output, output_of, execute,
}

set_if-KeepsLocks : (b : Bool) (key : String) (r : Bytes) → KeepsLocks (set_if b key r)
unfolding set_if memo_set
set_if-KeepsLocks true key r = record { keeps = λ w. record { locked_eq = refl; next_eq = refl } }
set_if-KeepsLocks false key r = record { keeps = λ w. record { locked_eq = refl; next_eq = refl } }

output_of-KeepsLocks :
    (sys : System) (n : NixBuildCommand) (o : Option Bytes) → KeepsLocks (output_of sys n o)
unfolding output_of build_output
output_of-KeepsLocks sys n (some r) = search lock_rules
output_of-KeepsLocks sys n none =
    search (lock_rules, KeepsLocks-IsQuiet, command_execute-IsQuiet, set_if-KeepsLocks) depth 10

pub execute-KeepsLocks :
    {R : Type 0} (decode : Bytes → Outcome R) (sys : System) (n : NixBuildCommand)
    (result : Option R)
    → KeepsLocks (execute decode sys n result)
unfolding execute
execute-KeepsLocks decode sys n result = search (lock_rules, output_of-KeepsLocks) depth 10
