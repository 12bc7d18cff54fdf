-- ===== src/Provider/Objects/Locks.antt =====
-- The ssh and nix objects of provider/provider.go and the locked buffers.
use terraform_provider_nixos.Base.{Option, none, some}
use terraform_provider_nixos.System.{System, World}
use terraform_provider_nixos.System.Locks.{SameLocks, SameLocks-refl, KeepsLocks, lock_rules}
use terraform_provider_nixos.Settings.{ResourceBox, Fields}
use terraform_provider_nixos.Ssh
use terraform_provider_nixos.Ssh.Locks
use terraform_provider_nixos.Ssh.Locks.{new_ssh-KeepsLocks}
use terraform_provider_nixos.Ssh.ConfigMap.{SshConfigMap}
use terraform_provider_nixos.Nix
use terraform_provider_nixos.Nix.{Nix}
use terraform_provider_nixos.Provider.{Provider}
use terraform_provider_nixos.Provider.Objects.{add_bastion, provider_ssh, provider_nix}

add_bastion-KeepsLocks :
    (sys : System) (fs : Fields) (m : SshConfigMap) → KeepsLocks (add_bastion sys fs m)
unfolding add_bastion
add_bastion-KeepsLocks sys fs m = search (lock_rules, new_ssh-KeepsLocks) depth 12

module _ {IP IPNet : Type 0} (sys : System) (p : Provider IP IPNet)
    (resource : Option ResourceBox) where
  pub provider_ssh-KeepsLocks : KeepsLocks (provider_ssh sys p resource)
  unfolding provider_ssh
  provider_ssh-KeepsLocks = search (lock_rules, add_bastion-KeepsLocks, new_ssh-KeepsLocks) depth 12

  pub provider_nix-KeepsLocks : KeepsLocks (provider_nix sys p resource)
  unfolding provider_nix
  provider_nix-KeepsLocks = search (lock_rules, provider_ssh-KeepsLocks)

pub nix_close-SameLocks : (sys : System) (n : Nix) (w : World) → SameLocks w (Nix.close sys n w)
unfolding Nix.close
nix_close-SameLocks sys n w =
    elim n.ssh as (λ o. SameLocks w (elim o [ none ↦ w | some s ↦ Ssh.close sys s w ])) [
      | none ↦ SameLocks-refl w
      | some s ↦ Ssh.Locks.close-SameLocks sys s w
    ]
