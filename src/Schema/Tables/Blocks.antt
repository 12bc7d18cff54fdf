-- ===== src/Schema/Tables/Blocks.antt =====
-- provider/schema.go: the tables of ssh, of the bastion, and of the secrets.
use terraform_provider_nixos.Schema.Keys.{
  key_secret_destination, key_secret_group, key_secret_owner, key_secret_permissions,
  key_secret_source, key_secrets_provider, key_secrets_provider_command,
  key_secrets_provider_command_arguments, key_secrets_provider_command_environment,
  key_secrets_provider_command_name, key_secrets_provider_filesystem, key_secrets_provider_gopass,
  key_secrets_provider_gopass_store, key_ssh_config, key_ssh_host, key_ssh_port, key_ssh_user,
}
use terraform_provider_nixos.Base.{true, [], ◌∷◌, some, Outcome, ok, ◌>>=◌}
use terraform_provider_nixos.Base.Int.{pos}
use terraform_provider_nixos.Base.Assoc.{Map}
use terraform_provider_nixos.Settings.{int, str}
use terraform_provider_nixos.Schema.{
  Kind, Schema, Elem, schema, traits, no_elem, elem_schema, elem_resource, attributes_of, type_int,
  type_string, type_list, type_map, type_set, schema_map_extend, default_user, default_ssh_config,
  default_map_from_schema, schema_with_default_func_ctr,
}

-- `&schema.Schema{Type: kind}`
abbrev pub of_kind : Kind → Elem
of_kind kind = elem_schema (schema (traits kind) no_elem)

-- a string that need not be set and has no default
abbrev pub optional_string : Schema
optional_string = schema (record (traits type_string) { optional = true }) no_elem

abbrev pub required_string : Schema
required_string = schema (record (traits type_string) { required = true }) no_elem

abbrev pub provider_schema_ssh_map : Map Schema
provider_schema_ssh_map =
    (
      key_ssh_user,
      schema (record (traits type_string) { optional = true; default = str default_user }) no_elem,
    )
    ∷ (key_ssh_port, schema (record (traits type_int) { optional = true }) no_elem)
    ∷ (
      key_ssh_config,
      schema (record (traits type_map) { optional = true; default_func = some default_ssh_config })
          (of_kind type_string),
    )
    ∷ []

abbrev pub provider_schema_ssh : Outcome Schema
provider_schema_ssh = schema_with_default_func_ctr default_map_from_schema (
    schema (record (traits type_set) { max_items = 1; optional = true })
      (elem_resource (attributes_of provider_schema_ssh_map)))

abbrev pub provider_schema_bastion_map : Map Schema
provider_schema_bastion_map =
    schema_map_extend provider_schema_ssh_map ((key_ssh_host, optional_string) ∷ [])

abbrev pub provider_schema_bastion : Outcome Schema
provider_schema_bastion = schema_with_default_func_ctr default_map_from_schema (
    schema (record (traits type_set) { max_items = 1; optional = true })
      (elem_resource (attributes_of provider_schema_bastion_map)))

abbrev pub provider_schema_secrets_provider_filesystem : Outcome Schema
provider_schema_secrets_provider_filesystem = schema_with_default_func_ctr default_map_from_schema (
    schema (record (traits type_set) { min_items = 0; max_items = 1; optional = true })
      (elem_resource (attributes_of [])))

abbrev pub provider_schema_secrets_provider_command : Outcome Schema
provider_schema_secrets_provider_command = schema_with_default_func_ctr default_map_from_schema (
    schema (record (traits type_set) { min_items = 0; max_items = 1; optional = true })
      (elem_resource (
        attributes_of (
          (key_secrets_provider_command_name, required_string)
          ∷ (
            key_secrets_provider_command_arguments,
            schema (record (traits type_list) { optional = true }) (of_kind type_string),
          )
          ∷ (
            key_secrets_provider_command_environment,
            schema (record (traits type_map) { optional = true }) (of_kind type_string),
          )
          ∷ []))))

abbrev pub provider_schema_secrets_provider_gopass : Outcome Schema
provider_schema_secrets_provider_gopass = schema_with_default_func_ctr default_map_from_schema (
    schema (record (traits type_set) { min_items = 0; max_items = 1; optional = true })
      (elem_resource (attributes_of ((key_secrets_provider_gopass_store, optional_string) ∷ []))))

abbrev pub provider_schema_secrets_map : Outcome (Map Schema)
provider_schema_secrets_map = do
  filesystem ← provider_schema_secrets_provider_filesystem
  command ← provider_schema_secrets_provider_command
  gopass ← provider_schema_secrets_provider_gopass
  ok (
      (
        key_secrets_provider,
        schema (record (traits type_string) { optional = true; default = str "filesystem" })
            no_elem,
      )
      ∷ (key_secrets_provider_filesystem, filesystem)
      ∷ (key_secrets_provider_command, command)
      ∷ (key_secrets_provider_gopass, gopass)
      ∷ [])

abbrev pub provider_schema_secrets : Outcome Schema
provider_schema_secrets = do
  m ← provider_schema_secrets_map
  schema_with_default_func_ctr default_map_from_schema (
      schema (record (traits type_set) { min_items = 0; max_items = 1; optional = true })
        (elem_resource (attributes_of m)))

abbrev pub provider_schema_secret_fingerprint : Schema
provider_schema_secret_fingerprint =
    schema (record (traits type_map) { computed = true }) (of_kind type_string)

abbrev pub provider_schema_secret : Outcome Schema
provider_schema_secret = schema_with_default_func_ctr default_map_from_schema (
    schema (record (traits type_set) { min_items = 0; optional = true })
      (elem_resource (
        attributes_of (
          (key_secret_source, required_string)
          ∷ (key_secret_destination, required_string)
          ∷ (
            key_secret_owner,
            schema (record (traits type_string) { optional = true; default = str "root" }) no_elem,
          )
          ∷ (
            key_secret_group,
            schema (record (traits type_string) { optional = true; default = str "root" }) no_elem,
          )
          ∷ (
            key_secret_permissions,
            schema (record (traits type_int) { optional = true; default = int (pos 600) }) no_elem,
          )
          ∷ []))))
