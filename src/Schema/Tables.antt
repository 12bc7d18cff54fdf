-- ===== src/Schema/Tables.antt =====
-- provider/schema.go: the attributes of the provider and of its resource, but for their
-- descriptions. A table that is built by `SchemaWithDefaultFuncCtr` is an `Outcome`, since the
-- assertion of `DefaultMapFromSchema` runs when the package is initialised.
pub mod Blocks
pub mod Nix
use terraform_provider_nixos.Schema.Keys.{
  key_address, key_address_filter, key_address_priority, key_bastion, key_configuration,
  key_derivations, key_nix, key_retry, key_retry_wait, key_secret, key_secret_fingerprint,
  key_secrets, key_settings, key_ssh, key_system,
}
use terraform_provider_nixos.Base.{true, List, [], ◌∷◌, some, Outcome, ok, ◌>>=◌}
use terraform_provider_nixos.Base.Int.{pos}
use terraform_provider_nixos.Base.Assoc.{Map}
use terraform_provider_nixos.Settings.{int, str}
use terraform_provider_nixos.Schema.{
  Schema, schema, traits, no_elem, elem_schema, elem_resource, attributes_of, type_int, type_string,
  type_list, type_map, default_address_filter, default_address_priority,
}
use terraform_provider_nixos.Schema.Tables.Blocks.{
  of_kind, provider_schema_ssh, provider_schema_bastion, provider_schema_secrets,
  provider_schema_secret, provider_schema_secret_fingerprint,
}
use terraform_provider_nixos.Schema.Tables.Nix.{
  provider_schema_nix, provider_schema_derivations_computed_map,
}

abbrev pub provider_schema_map : Outcome (Map Schema)
provider_schema_map = do
  nix ← provider_schema_nix
  ssh ← provider_schema_ssh
  bastion ← provider_schema_bastion
  secrets ← provider_schema_secrets
  secret ← provider_schema_secret
  ok (
      (
        key_retry,
        schema (record (traits type_int) { optional = true; default = int (pos 5) }) no_elem,
      )
      ∷ (
        key_retry_wait,
        schema (record (traits type_int) { optional = true; default = int (pos 5) }) no_elem,
      )
      ∷ (
        key_address_filter,
        schema
            (record (traits type_list) {
              optional = true;
              default_func = some default_address_filter;
            })
            (of_kind type_string),
      )
      ∷ (
        key_address_priority,
        schema
            (record (traits type_map) {
              optional = true;
              default_func = some default_address_priority;
            })
            (of_kind type_int),
      )
      ∷ (key_nix, nix)
      ∷ (key_ssh, ssh)
      ∷ (key_bastion, bastion)
      ∷ (key_secrets, secrets)
      ∷ (key_secret, secret)
      ∷ [])

-- the attributes of `nixos_instance` in `ProviderResourceMap`
abbrev pub instance_schema_map : Outcome (Map Schema)
instance_schema_map = do
  nix ← provider_schema_nix
  ssh ← provider_schema_ssh
  bastion ← provider_schema_bastion
  secrets ← provider_schema_secrets
  secret ← provider_schema_secret
  ok (
      (key_address, schema (record (traits type_list) { required = true }) (of_kind type_string))
      ∷ (
        key_system,
        schema (record (traits type_string) { optional = true; default = str "x86_64-linux" })
            no_elem,
      )
      ∷ (
        key_settings,
        schema (record (traits type_string) { optional = true; default = str "{}" }) no_elem,
      )
      ∷ (key_configuration, schema (record (traits type_string) { required = true }) no_elem)
      ∷ (key_nix, nix)
      ∷ (key_ssh, ssh)
      ∷ (key_bastion, bastion)
      ∷ (key_secrets, secrets)
      ∷ (key_secret, secret)
      ∷ (key_secret_fingerprint, provider_schema_secret_fingerprint)
      ∷ (
        key_derivations,
        schema (record (traits type_list) { optional = true; computed = true })
            (elem_resource (attributes_of provider_schema_derivations_computed_map)),
      )
      ∷ [])
