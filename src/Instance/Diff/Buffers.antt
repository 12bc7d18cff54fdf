-- ===== src/Instance/Diff/Buffers.antt =====
-- `Instance.Diff` of provider/instance.go and the locked buffers: the secrets that it fetches are
-- not closed.
use terraform_provider_nixos.System.{System}
use terraform_provider_nixos.Secrets.{Secrets}
use terraform_provider_nixos.Provider.{Provider}
use terraform_provider_nixos.Instance.Fingerprint.{Fingerprint}
