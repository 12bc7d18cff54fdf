-- ===== src/Nix/Derivation.antt =====
-- `Derivation` of provider/nix.go: what a build yields, and the hashes by which it is compared.
use terraform_provider_nixos.Base.{String, List, [], ◌∷◌, ◌++◌}
use terraform_provider_nixos.Base.Assoc.{Map}
use terraform_provider_nixos.Base.Hex.{Bytes, encode_to_string}
use terraform_provider_nixos.Secrets.{Crypto}

pub record Derivation : Type 0 where
  pub path : String
  pub outputs : Map String

module _ (crypto : Crypto) where
  -- `Derivation.Hash`
  unfoldable pub hash : Derivation → String
  hash d = encode_to_string (crypto.sha1 (crypto.utf8 d.path))

  -- what the loop of `Derivations.Hash` writes
  unfoldable pub hash_input : List Derivation → Bytes
  unfolding hash
  hash_input [] = []
  hash_input (d ∷ ds) = crypto.utf8 (hash d) ++ hash_input ds

  -- `Derivations.Hash`
  unfoldable pub hash_all : List Derivation → String
  unfolding hash_input
  hash_all ds = encode_to_string (crypto.sha1 (hash_input ds))
