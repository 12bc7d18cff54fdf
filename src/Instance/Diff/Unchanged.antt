-- ===== src/Instance/Diff/Unchanged.antt =====
-- `Instance.Diff` of provider/instance.go behind a creation with the same secrets.
use terraform_provider_nixos.Base.{
  ◌≡◌, refl, ap, ◌∙◌, String, Bool, true, false, List, [], ◌∷◌, some, ok, ◌=ₛ◌, if◌then◌else◌,
}
use terraform_provider_nixos.Base.Int.{ℤ}
use terraform_provider_nixos.Base.Hex.{Bytes}
use terraform_provider_nixos.System.{System, World, done}
use terraform_provider_nixos.Settings.{Fields}
use terraform_provider_nixos.Nix.Derivation
use terraform_provider_nixos.Nix.Derivation.{Derivation}
use terraform_provider_nixos.Secrets.{Crypto, SecretData, Secrets, hash, hash_input, hash_all, load}
use terraform_provider_nixos.Provider.{Network, Provider}
use terraform_provider_nixos.Provider.Objects.Secrets.{provider_secrets}
use terraform_provider_nixos.Provider.Actions.{build}
use terraform_provider_nixos.Instance.{Resource, Libraries, schema_to_derivations}
use terraform_provider_nixos.Instance.Fingerprint.{
  Fingerprint, IsSound, schema_to_secret_fingerprint, equal, is_unchanged, fingerprint-unchanged,
}
use terraform_provider_nixos.Instance.Laws.{IsRecorded}
use terraform_provider_nixos.Instance.Diff.{
  ResourceDiff, unless, check_fingerprint, check_derivations, diff,
}

-- the bytes of the secrets, in whatever buffers they are
abbrev pub contents : List SecretData → List Bytes
contents [] = []
contents (s ∷ ss) = s.bytes ∷ contents ss

hash_input-contents :
    (crypto : Crypto) (a b : List SecretData) (salt : Bytes) (n : ℤ)
    → contents a ≡ contents b
    → hash_input crypto a salt n ≡ hash_input crypto b salt n
unfolding hash_input hash
hash_input-contents crypto [] [] salt n h = refl
hash_input-contents crypto [] (t ∷ b) salt n h = cc
hash_input-contents crypto (s ∷ a) [] salt n h = cc
hash_input-contents crypto (s ∷ a) (t ∷ b) salt n h =
    let first : s.bytes ≡ t.bytes = cc in rw (first, hash_input-contents crypto a b salt n cc) refl

is_unchanged-contents :
    (crypto : Crypto) (a b : List SecretData) (f : Fingerprint)
    → contents a ≡ contents b
    → is_unchanged crypto a f ≡ is_unchanged crypto b f
unfolding is_unchanged hash_all
is_unchanged-contents crypto a b f h =
    ap (λ i. equal (crypto.sha256 i) f.sum) (hash_input-contents crypto a b f.salt f.iterations h)

unless_cases : (b : Bool) (key : String) → unless b key ≡ (if b then [] else key ∷ [])
unfolding unless
unless_cases true key = refl
unless_cases false key = refl

-- the derivations' key, if they have to be computed again
abbrev pub changed : Crypto → List Derivation → List Derivation → List String
changed crypto old new =
    if Derivation.hash_all crypto old =ₛ Derivation.hash_all crypto new
    then []
    else "derivations" ∷ []

module _ {V : Type 0} (net : Network) (sys : System) (lib : Libraries V) where
  open net use {IP, IPNet}

  check_fingerprint-same :
      (p : Provider IP IPNet) (r : ResourceDiff V) (fields : Fields) (f : Fingerprint)
      (secrets : Secrets) (s : Secrets × List SecretData) (w v : World)
      → schema_to_secret_fingerprint fields ≡ ok f
      → is_unchanged lib.crypto s.1 f ≡ true
      → provider_secrets sys p (some r.box) ≡ ok secrets
      → load sys secrets w ≡ (ok s, v)
      → check_fingerprint net sys lib p r (some fields) w ≡ (ok [], v)
  unfolding check_fingerprint unless
  check_fingerprint-same p r fields f secrets s w v read same described loaded =
      rw (read, described) (rw loaded (rw same refl))

  check_derivations-changed :
      (p : Provider IP IPNet) (r : ResourceDiff V) (values : List V) (old new : List Derivation)
      (v u : World)
      → schema_to_derivations lib.decode_derivation values ≡ ok old
      → build sys lib.decode p r.box v ≡ (ok new, u)
      → check_derivations net sys lib p r (some values) v ≡ (ok (changed lib.crypto old new), u)
  unfolding check_derivations unless
  check_derivations-changed p r values old new v u decoded built =
      rw decoded (rw built (ap (λ l. (ok l, u)) (unless_cases _ "derivations")))

  -- If the values of a resource were recorded for some secrets and derivations, mapstructure decodes
  -- what it encoded, nothing changed in the configuration, and now secrets with the same contents
  -- are fetched and some derivations built, then `Diff` returns in the state of the build. It has
  -- the derivations computed again exactly if their hash differs, and never the fingerprint.
  pub diff-changed :
      (p : Provider IP IPNet) (r : ResourceDiff V) (created : Resource V) (old : List SecretData)
      (drvs new : List Derivation) (secrets : Secrets) (s : Secrets × List SecretData)
      (w v u : World)
      → IsSound lib.crypto lib.random
      → ((vs : List V)
          → lib.encode_derivations drvs ≡ done vs
          → schema_to_derivations lib.decode_derivation vs ≡ ok drvs)
      → IsRecorded lib old drvs created
      → r.fingerprint ≡ created.fingerprint
      → r.derivations ≡ created.derivations
      → r.has_change "secret_fingerprint" ≡ false
      → r.has_change "derivations" ≡ false
      → provider_secrets sys p (some r.box) ≡ ok secrets
      → load sys secrets w ≡ (ok s, v)
      → contents s.1 ≡ contents old
      → build sys lib.decode p r.box v ≡ (ok new, u)
      → diff net sys lib p r w ≡ (ok (changed lib.crypto drvs new), u)
  unfolding diff
  diff-changed p r created old drvs new secrets s w v u sound decode c fp ds n1 n2 described loaded
        same built =
      let f = fingerprint-unchanged lib.crypto lib.random old c.fields sound c.made in
      let first =
        check_fingerprint-same p r c.fields f.0 secrets s w v f.1
          (is_unchanged-contents lib.crypto s.1 old f.0 same ∙ f.2) described loaded in
      let second =
        check_derivations-changed p r c.values drvs new v u (decode c.values c.encoded) built in
      rw (n1, n2, fp ∙ c.fingerprint_eq, ds ∙ c.derivations_eq) (rw first (rw second refl))
