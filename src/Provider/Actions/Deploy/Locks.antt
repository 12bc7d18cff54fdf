-- ===== src/Provider/Actions/Deploy/Locks.antt =====
-- `CopySecrets`, `Push` and `Switch` of provider/provider.go and the locked buffers: where the secrets
-- are fetched already, they are left as they are.
use terraform_provider_nixos.Base.{
  ◌≡◌, String, true, false, List, [], ◌∷◌, some, Outcome, ok, err, panic,
}
use terraform_provider_nixos.Base.Assoc.{Map}
use terraform_provider_nixos.System.{System}
use terraform_provider_nixos.System.Locks.{
  SameLocks-refl, KeepsLocks, KeepsLocks-IsQuiet, KeepsLocks-pure, KeepsLocks-bind, KeepsLocks-then,
  KeepsLocks-if, KeepsLocks-lift, KeepsLocks-get_world, lock_rules,
}
use terraform_provider_nixos.Command.{CommandLine, execute_command}
use terraform_provider_nixos.Command.Quiet.{execute_command-IsQuiet}
use terraform_provider_nixos.Settings.{ResourceBox}
use terraform_provider_nixos.Ssh.Locks
use terraform_provider_nixos.Ssh.Locks.{with-KeepsLocks}
use terraform_provider_nixos.Nix.{Nix}
use terraform_provider_nixos.Nix.Copy
use terraform_provider_nixos.Nix.Copy.{NixCopyCommand}
use terraform_provider_nixos.Nix.Derivation.{Derivation}
use terraform_provider_nixos.Secrets.{Secrets, SecretData}
use terraform_provider_nixos.Secrets.Archive.{Writer}
use terraform_provider_nixos.Secrets.Archive.Locks.{copy-KeepsLocks}
use terraform_provider_nixos.Provider.{Network, Provider}
use terraform_provider_nixos.Provider.Objects.Locks.{
  provider_ssh-KeepsLocks, provider_nix-KeepsLocks, nix_close-SameLocks,
}
use terraform_provider_nixos.Provider.Actions.Locks.{KeepsLocks-using}
use terraform_provider_nixos.Provider.Actions.Deploy.{
  copied, push_outputs, push_all, install_and_activate, copy_secrets, push, switch_with, switch,
}

module _ (sys : System) where
  execute_command-KeepsLocks : (c : CommandLine) → KeepsLocks (execute_command sys c)
  execute_command-KeepsLocks c = KeepsLocks-IsQuiet _ (execute_command-IsQuiet sys c)

  copied-KeepsLocks : (s : Secrets) (o : Outcome CommandLine) → KeepsLocks (copied sys s o)
  unfolding copied
  copied-KeepsLocks s (ok c) = record { keeps = (execute_command-KeepsLocks c).keeps }
  copied-KeepsLocks s (err e) = record { keeps = SameLocks-refl }
  copied-KeepsLocks s (panic p) = record { keeps = SameLocks-refl }

  copy_execute-KeepsLocks : (c : NixCopyCommand) → KeepsLocks (Copy.execute sys c)
  unfolding Copy.execute
  copy_execute-KeepsLocks c = execute_command-KeepsLocks _

  push_outputs-KeepsLocks :
      (nix : Nix) (addr : String) (m : Map String) → KeepsLocks (push_outputs sys nix addr m)
  unfolding push_outputs
  push_outputs-KeepsLocks nix addr [] = KeepsLocks-pure true
  push_outputs-KeepsLocks nix addr ((k, v) ∷ m) = KeepsLocks-bind _ _ KeepsLocks-get_world λ w.
      KeepsLocks-if _ _ _ (KeepsLocks-pure false)
        (KeepsLocks-then _ _ (copy_execute-KeepsLocks _) (push_outputs-KeepsLocks nix addr m))

  push_all-KeepsLocks :
      (nix : Nix) (addr : String) (ds : List Derivation) → KeepsLocks (push_all sys nix addr ds)
  unfolding push_all
  push_all-KeepsLocks nix addr [] = KeepsLocks-pure tt
  push_all-KeepsLocks nix addr (d ∷ ds) =
      KeepsLocks-bind _ _ (push_outputs-KeepsLocks nix addr d.outputs)
        λ b. KeepsLocks-if b _ _ (push_all-KeepsLocks nix addr ds) (KeepsLocks-pure tt)

  install_and_activate-KeepsLocks :
      (i a : CommandLine) (action : String) → KeepsLocks (install_and_activate sys i a action)
  unfolding install_and_activate
  install_and_activate-KeepsLocks i a action =
      search (lock_rules, execute_command-KeepsLocks) depth 12

module _ (net : Network) (sys : System) where
  open net use {IP, IPNet}

  pub copy_secrets-KeepsLocks :
      (tw : Writer) (p : Provider IP IPNet) (r : ResourceBox) (s : Secrets) (ss : List SecretData)
      → s.data_cache ≡ some ss
      → KeepsLocks (copy_secrets net sys tw p r s)
  unfolding copy_secrets
  copy_secrets-KeepsLocks tw p r s ss e = KeepsLocks-bind _ _ (KeepsLocks-lift _) λ addr.
      KeepsLocks-bind _ _ (provider_ssh-KeepsLocks sys p (some r)) λ base.
        KeepsLocks-using _ _ _ (with-KeepsLocks sys _ base) (Locks.close-SameLocks sys) λ ssh.
          KeepsLocks-bind _ _ (copy-KeepsLocks sys s ss e tw ssh) λ c. copied-KeepsLocks sys c.0 c.1

  pub push-KeepsLocks :
      (p : Provider IP IPNet) (r : ResourceBox) (ds : List Derivation)
      → KeepsLocks (push net sys p r ds)
  unfolding push
  push-KeepsLocks p r ds =
      KeepsLocks-using _ _ _ (provider_nix-KeepsLocks sys p (some r)) (nix_close-SameLocks sys)
        λ nix. KeepsLocks-bind _ _ (KeepsLocks-lift _) λ addr. push_all-KeepsLocks sys nix _ ds

  switch_with-KeepsLocks :
      (p : Provider IP IPNet) (nix : Nix) (ds : List Derivation) (r : ResourceBox) (addr : String)
      → KeepsLocks (switch_with net sys p nix ds r addr)
  unfolding switch_with
  switch_with-KeepsLocks p nix ds r addr =
      search (lock_rules, with-KeepsLocks, install_and_activate-KeepsLocks) depth 24

  pub switch-KeepsLocks :
      (p : Provider IP IPNet) (r : ResourceBox) (ds : List Derivation)
      → KeepsLocks (switch net sys p r ds)
  unfolding switch
  switch-KeepsLocks p r ds = KeepsLocks-bind _ _ (KeepsLocks-lift _) λ addr.
      KeepsLocks-bind _ _ (provider_nix-KeepsLocks sys p (some r))
        λ nix. switch_with-KeepsLocks p nix ds r _
