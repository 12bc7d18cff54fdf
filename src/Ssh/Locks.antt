-- ===== src/Ssh/Locks.antt =====
-- The ssh command and the locked buffers: its options and its `Close` touch only files.
use terraform_provider_nixos.Base.{String, List, [], ◌∷◌, Outcome, ok, err, panic}
use terraform_provider_nixos.System.{System, World}
use terraform_provider_nixos.System.Locks.{
  SameLocks, SameLocks-refl, SameLocks-trans, KeepsLocks, KeepsLocks-pure, KeepsLocks-bind,
  lock_rules,
}
use terraform_provider_nixos.Files.{close_temp}
use terraform_provider_nixos.Files.Locks.{
  create_temp-KeepsLocks, write-KeepsLocks, close_temp-SameLocks,
}
use terraform_provider_nixos.Ssh.{
  Ssh, SshOption, option_config, option_config_file, option_config_map, option_host, option_command,
  option_non_interactive, option_io_redirection, panic_on_error, apply_option, apply_options,
  finalize_files, new_ssh, with, close, finalize,
}

panic_on_error-KeepsLocks : {A : Type 0} (o : Outcome A) → KeepsLocks (panic_on_error o)
unfolding panic_on_error
panic_on_error-KeepsLocks (ok a) = record { keeps = SameLocks-refl }
panic_on_error-KeepsLocks (err e) = record { keeps = SameLocks-refl }
panic_on_error-KeepsLocks (panic p) = record { keeps = SameLocks-refl }

apply_option-KeepsLocks :
    (sys : System) (o : SshOption) (s : Ssh) → KeepsLocks (apply_option sys o s)
unfolding apply_option
apply_option-KeepsLocks sys (option_config path) s = search lock_rules
apply_option-KeepsLocks sys (option_config_file fd) s = search lock_rules
apply_option-KeepsLocks sys (option_config_map m) s =
    search (lock_rules, panic_on_error-KeepsLocks, create_temp-KeepsLocks, write-KeepsLocks) depth
      12
apply_option-KeepsLocks sys (option_host h) s = search lock_rules
apply_option-KeepsLocks sys (option_command c) s = search lock_rules
apply_option-KeepsLocks sys option_non_interactive s = search lock_rules
apply_option-KeepsLocks sys (option_io_redirection h p) s = search lock_rules

apply_options-KeepsLocks :
    (sys : System) (os : List SshOption) (s : Ssh) → KeepsLocks (apply_options sys os s)
unfolding apply_options
apply_options-KeepsLocks sys [] s = KeepsLocks-pure s
apply_options-KeepsLocks sys (o ∷ os) s =
    KeepsLocks-bind _ _ (apply_option-KeepsLocks sys o s) (apply_options-KeepsLocks sys os)

pub new_ssh-KeepsLocks : (sys : System) (os : List SshOption) → KeepsLocks (new_ssh sys os)
unfolding new_ssh
new_ssh-KeepsLocks sys os = apply_options-KeepsLocks sys os _

pub with-KeepsLocks : (sys : System) (os : List SshOption) (s : Ssh) → KeepsLocks (with sys os s)
unfolding with
with-KeepsLocks sys os s = apply_options-KeepsLocks sys os _

finalize_files-SameLocks :
    (sys : System) (fds : List String) (w : World) → SameLocks w (finalize_files sys fds w)
unfolding finalize_files
finalize_files-SameLocks sys [] w = SameLocks-refl w
finalize_files-SameLocks sys (fd ∷ fds) w =
    SameLocks-trans (close_temp-SameLocks sys fd w)
      (finalize_files-SameLocks sys fds (close_temp sys fd w).1)

pub close-SameLocks : (sys : System) (s : Ssh) (w : World) → SameLocks w (close sys s w)
unfolding close finalize
close-SameLocks sys s w = finalize_files-SameLocks sys s.finalizers w
