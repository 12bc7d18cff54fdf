-- ===== src/Secrets/Archive/Locks.antt =====
-- `Secrets.Tar` and `Secrets.Copy` of provider/secrets.go lock no buffer where the secrets are fetched.
use terraform_provider_nixos.Base.{◌≡◌, List, some}
use terraform_provider_nixos.System.{System}
use terraform_provider_nixos.System.Locks.{SameLocks-refl, KeepsLocks, lock_rules}
use terraform_provider_nixos.Ssh.{Ssh}
use terraform_provider_nixos.Secrets.{Secrets, SecretData, load}
use terraform_provider_nixos.Secrets.Buffers.{load_of_cached}
use terraform_provider_nixos.Secrets.Archive.{Writer, tar, copy}

module _ (sys : System) (s : Secrets) (ss : List SecretData) (e : s.data_cache ≡ some ss) where
  load-KeepsLocks : KeepsLocks (load sys s)
  load-KeepsLocks = record { keeps = λ w. rw (load_of_cached sys s ss w e) (SameLocks-refl w) }

  tar-KeepsLocks : (tw : Writer) → KeepsLocks (tar sys tw s)
  unfolding tar
  tar-KeepsLocks tw = search (lock_rules, load-KeepsLocks) depth 8

  pub copy-KeepsLocks : (tw : Writer) (ssh : Ssh) → KeepsLocks (copy sys tw ssh s)
  unfolding copy
  copy-KeepsLocks tw ssh = search (lock_rules, tar-KeepsLocks) depth 8
