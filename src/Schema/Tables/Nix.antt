-- ===== src/Schema/Tables/Nix.antt =====
-- provider/schema.go: the tables of nix and of the derivations.
use terraform_provider_nixos.Schema.Keys.{
  key_derivation_outputs, key_derivation_path, key_nix_activation_action, key_nix_activation_script,
  key_nix_build_wrapper, key_nix_cores, key_nix_mode, key_nix_output_name, key_nix_profile,
  key_nix_show_trace, key_nix_use_substitutes,
}
use terraform_provider_nixos.Base.{true, [], ◌∷◌, Outcome}
use terraform_provider_nixos.Base.Int.{pos}
use terraform_provider_nixos.Base.Assoc.{Map}
use terraform_provider_nixos.Settings.{bool, int, str}
use terraform_provider_nixos.Schema.{
  Schema, schema, traits, no_elem, elem_resource, attributes_of, type_bool, type_int, type_string,
  type_map, type_set, default_map_from_schema, schema_with_default_func_ctr,
}
use terraform_provider_nixos.Schema.Tables.Blocks.{of_kind, optional_string}

abbrev pub provider_schema_derivations_computed_map : Map Schema
provider_schema_derivations_computed_map =
    (
      key_derivation_path,
      schema (record (traits type_string) { optional = true; computed = true }) no_elem,
    )
    ∷ (
      key_derivation_outputs,
      schema (record (traits type_map) { optional = true; computed = true }) (of_kind type_string),
    )
    ∷ []

abbrev pub provider_schema_nix : Outcome Schema
provider_schema_nix = schema_with_default_func_ctr default_map_from_schema (
    schema (record (traits type_set) { max_items = 1; optional = true })
      (elem_resource (
        attributes_of (
          (
            key_nix_mode,
            schema (record (traits type_int) { optional = true; default = int (pos 0) }) no_elem,
          )
          ∷ (key_nix_build_wrapper, optional_string)
          ∷ (
            key_nix_profile,
            schema
                (record (traits type_string) {
                  optional = true;
                  default = str "/nix/var/nix/profiles/system";
                })
                no_elem,
          )
          ∷ (
            key_nix_output_name,
            schema (record (traits type_string) { optional = true; default = str "out" }) no_elem,
          )
          ∷ (
            key_nix_activation_script,
            schema
                (record (traits type_string) {
                  optional = true;
                  default = str "/nix/var/nix/profiles/system/bin/switch-to-configuration";
                })
                no_elem,
          )
          ∷ (
            key_nix_activation_action,
            schema (record (traits type_string) { optional = true; default = str "switch" })
                no_elem,
          )
          ∷ (
            key_nix_show_trace,
            schema (record (traits type_bool) { optional = true; default = bool true }) no_elem,
          )
          ∷ (key_nix_cores, schema (record (traits type_int) { optional = true }) no_elem)
          ∷ (
            key_nix_use_substitutes,
            schema (record (traits type_bool) { optional = true; default = bool true }) no_elem,
          )
          ∷ []))))
