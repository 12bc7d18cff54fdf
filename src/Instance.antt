-- ===== src/Instance.antt =====
-- `Instance` of provider/instance.go: how terraform creates, updates, compares and deletes a server.
-- What the SDK keeps of a resource, and mapstructure's encoding of derivations, are parameters.
pub mod Retry
pub mod Fingerprint
pub mod Laws
pub mod Locks
pub mod Diff
use terraform_provider_nixos.Base.{
  ◌≡◌, refl, String, Bool, true, false, List, [], ◌∷◌, ◌++◌, Option, none, some, Outcome, ok, err,
  panic, raised, Error, not, ◌=ₛ◌, if◌then◌else◌,
}
use terraform_provider_nixos.Base.Int.{pos_part}
use terraform_provider_nixos.Base.Hex.{Bytes}
use terraform_provider_nixos.System.{
  System, World, Attempt, done, refused, M, pure, fail, crash, lift, attempt, inspect, defer, ◌>>=◌,
  ◌>>◌,
}
use terraform_provider_nixos.Settings.{ResourceBox, Value, Fields, as_map}
use terraform_provider_nixos.Nix.Derivation.{Derivation}
use terraform_provider_nixos.Nix.Derivation
use terraform_provider_nixos.Secrets.{Crypto, SecretData, Secrets, load, close}
use terraform_provider_nixos.Secrets.Archive.{Writer}
use terraform_provider_nixos.Provider.{Network, Provider, as_int}
use terraform_provider_nixos.Provider.Objects.Secrets.{provider_secrets}
use terraform_provider_nixos.Provider.Actions.{build}
use terraform_provider_nixos.Provider.Actions.Deploy.{copy_secrets, push, switch}
use terraform_provider_nixos.Instance.Retry.{retries, retrying}
use terraform_provider_nixos.Instance.Fingerprint.{
  Random, secrets_fingerprint_to_schema, schema_to_secret_fingerprint, is_unchanged,
}

-- `schema.ResourceData`: what is configured, and what this provider computes
pub record Resource (V : Type 0) : Type 0 where
  pub box : ResourceBox
  pub id : String
  pub fingerprint : Option Fields
  pub derivations : Option (List V)

-- The libraries that the instance calls.
pub record Libraries (V : Type 0) : Type 0 where
  pub crypto : Crypto
  pub random : Random
  pub writer : Writer
  -- `json.Unmarshal` into derivations
  pub decode : Bytes → Outcome (List Derivation)
  -- `mapstructure.Decode` of derivations into a slice, and of one value into a derivation
  pub encode_derivations : List Derivation → Attempt (List V)
  pub decode_derivation : V → Attempt Derivation
  -- `uuid.GenerateUUID`
  pub generate_uuid : Attempt String
  -- the schema's check of a value in `ResourceData.Set`
  pub accepts_fingerprint : Fields → Attempt (Unit {0})
  pub accepts_derivations : List V → Attempt (Unit {0})

-- `Instance.fail`: one diagnostic for the error
abbrev pub diagnostics : Error → List Error
diagnostics e = e ∷ []

module _ {V : Type 0} where
  -- an error ends the operation with its diagnostic, and the resource as it is
  unfoldable pub or_fail :
      {A : Type 0}
      → Resource V
      → (A → M (Resource V × List Error))
      → Outcome A
      → M (Resource V × List Error)
  or_fail r k (ok a) = k a
  or_fail r k (err e) = pure (r, diagnostics e)
  or_fail r k (panic p) = crash p

  -- `schemaToDerivations`
  unfoldable pub schema_to_derivations :
      (V → Attempt Derivation) → List V → Outcome (List Derivation)
  schema_to_derivations decode [] = ok []
  schema_to_derivations decode (v ∷ vs) =
      let rest = schema_to_derivations decode vs in
      elim (decode v) [
        | refused e ↦ err e
        | done d ↦ elim rest [ ok ds ↦ ok (d ∷ ds) | err e ↦ err e | panic p ↦ panic p ]
      ]

module _ {V : Type 0} (lib : Libraries V) where
  -- `generateId`, which panics without a source of randomness
  uuid_of : Attempt String → Outcome String
  uuid_of (done s) = ok s
  uuid_of (refused e) = panic (raised e)

  unfoldable pub generate_id : Outcome String
  unfolding uuid_of
  generate_id = uuid_of lib.generate_uuid

  -- `if resource.Id() == "" { resource.SetId(i.generateId()) }`
  unfoldable pub with_id : Resource V → M (Resource V)
  unfolding generate_id
  with_id r = if r.id =ₛ "" then (lift generate_id >>= λ i. pure (record r { id = i })) else pure r

  -- `resource.Set` of the two computed values, the fingerprint first
  set_computed : Fields → List V → Resource V → M (Resource V × List Error)
  unfolding or_fail
  set_computed fp ds r = inspect (attempt (lib.accepts_fingerprint fp)) (
      or_fail r λ _.
        let r' = record r { fingerprint = some fp } in
        inspect (attempt (lib.accepts_derivations ds))
          (or_fail r' λ _. pure (record r' { derivations = some ds }, [])))

  -- what follows `Switch`
  unfoldable pub record_result :
      List SecretData → List Derivation → Resource V → M (Resource V × List Error)
  unfolding with_id set_computed or_fail
  record_result secrets drvs resource = with_id resource >>= λ r.
      inspect (lift (secrets_fingerprint_to_schema lib.crypto lib.random secrets)) (
        or_fail r λ fp.
          inspect (attempt (lib.encode_derivations drvs)) (or_fail r λ ds. set_computed fp ds r))

module _ {V : Type 0} (net : Network) (sys : System) (lib : Libraries V) where
  open net use {IP, IPNet}

  -- one round of the loop. The data of the secrets is fetched already, so that `CopySecrets` leaves
  -- them as they are.
  unfoldable pub deploy : Provider IP IPNet → ResourceBox → Secrets → List Derivation → M Unit
  deploy p box secrets drvs =
      (copy_secrets net sys lib.writer p box secrets >>= λ r. lift r.1) >> push net sys p box drvs

  -- `Create` from its loop on
  unfoldable pub deploy_and_switch :
      Provider IP IPNet
      → Resource V
      → List Derivation
      → Secrets × List SecretData
      → M (Resource V × List Error)
  unfolding deploy or_fail record_result
  deploy_and_switch p r drvs s = lift (as_int (p.box "retry")) >>= λ retry.
      lift (as_int (p.box "retry_wait")) >>= λ wait.
      inspect (retrying (pos_part wait) (deploy p r.box s.0 drvs) (retries retry)) (
        or_fail r
          λ _. inspect (switch net sys p r.box drvs) (or_fail r λ _. record_result lib s.1 drvs r))

  unfoldable pub create : Provider IP IPNet → Resource V → M (Resource V × List Error)
  unfolding deploy_and_switch or_fail
  create p r = inspect (build sys lib.decode p r.box) (
      or_fail r λ drvs. inspect (lift (provider_secrets sys p (some r.box))) (
        or_fail r λ secrets.
          inspect (load sys secrets)
            (or_fail r λ s. defer (λ w. (close s.0 w).1) (deploy_and_switch p r drvs s))))

  -- `Update`
  unfoldable pub update : Provider IP IPNet → Resource V → M (Resource V × List Error)
  unfolding create
  update p r = create p r

-- `Read` and `Delete`: neither asks the server
unfoldable pub read : {V : Type 0} → Resource V → Resource V × List Error
read r = (r, [])

unfoldable pub delete : {V : Type 0} → Resource V → Resource V × List Error
delete r = (record r { id = "" }, [])
