-- ===== src/Schema/Keys.antt =====
-- provider/schema.go: the names of the attributes.
use terraform_provider_nixos.Base.{String}

abbrev pub key_address_filter : String
key_address_filter = "address_filter"

abbrev pub key_address_priority : String
key_address_priority = "address_priority"

abbrev pub key_nixos_instance : String
key_nixos_instance = "nixos_instance"

abbrev pub key_address : String
key_address = "address"

abbrev pub key_system : String
key_system = "system"

abbrev pub key_settings : String
key_settings = "settings"

abbrev pub key_configuration : String
key_configuration = "configuration"

abbrev pub key_retry : String
key_retry = "retry"

abbrev pub key_retry_wait : String
key_retry_wait = "retry_wait"

abbrev pub key_nix : String
key_nix = "nix"

abbrev pub key_nix_mode : String
key_nix_mode = "mode"

abbrev pub key_nix_build_wrapper : String
key_nix_build_wrapper = "build_wrapper"

abbrev pub key_nix_profile : String
key_nix_profile = "profile"

abbrev pub key_nix_output_name : String
key_nix_output_name = "output"

abbrev pub key_nix_activation_script : String
key_nix_activation_script = "activation_script"

abbrev pub key_nix_activation_action : String
key_nix_activation_action = "activation_action"

abbrev pub key_nix_show_trace : String
key_nix_show_trace = "show_trace"

abbrev pub key_nix_cores : String
key_nix_cores = "cores"

abbrev pub key_nix_use_substitutes : String
key_nix_use_substitutes = "use_substitutes"

abbrev pub key_ssh : String
key_ssh = "ssh"

abbrev pub key_ssh_host : String
key_ssh_host = "host"

abbrev pub key_ssh_user : String
key_ssh_user = "user"

abbrev pub key_ssh_port : String
key_ssh_port = "port"

abbrev pub key_ssh_config : String
key_ssh_config = "config"

abbrev pub key_bastion : String
key_bastion = "bastion"

abbrev pub key_secrets : String
key_secrets = "secrets"

abbrev pub key_secret_fingerprint : String
key_secret_fingerprint = "secret_fingerprint"

abbrev pub key_secret_fingerprint_sum : String
key_secret_fingerprint_sum = "sum"

abbrev pub key_secret_fingerprint_salt : String
key_secret_fingerprint_salt = "salt"

abbrev pub key_secret_fingerprint_kdf_iterations : String
key_secret_fingerprint_kdf_iterations = "kdf_iterations"

abbrev pub key_secrets_provider : String
key_secrets_provider = "provider"

abbrev pub key_secrets_provider_filesystem : String
key_secrets_provider_filesystem = "filesystem"

abbrev pub key_secrets_provider_command : String
key_secrets_provider_command = "command"

abbrev pub key_secrets_provider_command_name : String
key_secrets_provider_command_name = "name"

abbrev pub key_secrets_provider_command_arguments : String
key_secrets_provider_command_arguments = "arguments"

abbrev pub key_secrets_provider_command_environment : String
key_secrets_provider_command_environment = "environment"

abbrev pub key_secrets_provider_gopass : String
key_secrets_provider_gopass = "gopass"

abbrev pub key_secrets_provider_gopass_store : String
key_secrets_provider_gopass_store = "store"

abbrev pub key_secret : String
key_secret = "secret"

abbrev pub key_secret_source : String
key_secret_source = "source"

abbrev pub key_secret_destination : String
key_secret_destination = "destination"

abbrev pub key_secret_owner : String
key_secret_owner = "owner"

abbrev pub key_secret_group : String
key_secret_group = "group"

abbrev pub key_secret_permissions : String
key_secret_permissions = "permissions"

abbrev pub key_derivations : String
key_derivations = "derivations"

abbrev pub key_derivation_path : String
key_derivation_path = "path"

abbrev pub key_derivation_outputs : String
key_derivation_outputs = "outputs"
