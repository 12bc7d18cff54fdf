-- ===== src/Examples/Schemas.antt =====
-- The provider's attributes, with nothing configured but the two counters.
use terraform_provider_nixos.Base.{
  ℕ, ◌^◌, ◌-◌, ◌≡◌, refl, ◌=ₛ◌, if◌then◌else◌, [], ◌∷◌, some, ok, true, arith,
}
use terraform_provider_nixos.Base.Int.{ℤ, pos}
use terraform_provider_nixos.Base.Assoc.{lookup, put, put_all}
use terraform_provider_nixos.Base.Hex.{Bytes}
use terraform_provider_nixos.System.{done}
use terraform_provider_nixos.Settings.{ResourceBox, Items, int, list, set, map, none_left, end}
use terraform_provider_nixos.Secrets.{filesystem, new_secrets}
use terraform_provider_nixos.Schema.{
  type_set, schema_with_default_func_ctr, default_map_from_schema, default_ssh_config,
  default_address_filter, default_address_priority, schema_map_extend,
}
use terraform_provider_nixos.Schema.Kinds.{Yields}
use terraform_provider_nixos.Schema.Hashing.{bits32, hash_any, IsHashOf, hash_any-IsHashOf}
use terraform_provider_nixos.Provider.{Network, Provider}
use terraform_provider_nixos.Provider.Objects.Secrets.{provider_secrets}
use terraform_provider_nixos.Provider.Configure.{provider_data, IsDataOf, configure}
use terraform_provider_nixos.Provider.Configure.Defaults.{
  IsBare, provider_data-HasKind, provider_data_total, provider_secrets-default, configure-default,
}
use terraform_provider_nixos.Examples.{machine}

abbrev same : Items → Items
same items = items

abbrev bare : ResourceBox
bare key =
    if key =ₛ "retry"
    then int (pos 5)
    else if key =ₛ "retry_wait"
    then int (pos 5)
    else if key =ₛ "address_filter"
    then list none_left
    else if key =ₛ "address_priority"
    then map end
    else set none_left

bare-IsBare : IsBare bare
bare-IsBare = record { filter_eq = refl; priority_eq = refl; secrets_eq = refl; secret_eq = refl }

kind_example : Yields type_set (provider_data same bare "ssh")
unfolding lookup schema_with_default_func_ctr default_map_from_schema schema_map_extend put_all put
    default_ssh_config default_address_filter default_address_priority
kind_example =
    provider_data-HasKind same bare _ "ssh" _ refl
      (tt, (tt, (tt, (tt, (tt, (tt, (tt, (tt, (tt, tt))))))))) refl

-- the resource data of this box
bare_data : (d : ResourceBox) × IsDataOf same bare d
unfolding schema_with_default_func_ctr default_map_from_schema schema_map_extend put_all put
    default_ssh_config default_address_filter default_address_priority
bare_data =
    provider_data_total same bare _ refl (tt, (tt, (tt, (tt, (tt, (tt, (tt, (tt, (tt, tt)))))))))

abbrev network : Network
network = record {
  IP = ℕ;
  IPNet = ℕ;
  net_parse_cidr = λ s. if s =ₛ "::/0" then done (6, 60) else done (4, 40);
  parse_ip = λ s. 4;
  contains = λ n a. true;
  to_string = λ a. "::1";
  merge_blocks = λ less s. s;
}

abbrev provider : Provider ℕ ℕ
provider = record { box = bare_data.0; address_filter = []; address_priority = [] }

secrets_example : provider_secrets machine provider (some bare) ≡ ok (new_secrets filesystem [])
secrets_example =
    provider_secrets-default same (λ v. refl) bare bare_data.0 bare_data.1 bare-IsBare machine
      provider bare refl refl refl

configure_example :
    configure network bare_data.0
    ≡ ok (
      some (record {
        box = bare_data.0;
        address_filter = record { ip = 6; net = 60 } ∷ record { ip = 4; net = 40 } ∷ [];
        address_priority = (40, pos 1) ∷ (60, pos 0) ∷ [];
      }),
      [],
    )
configure_example =
    configure-default same (λ v. refl) bare bare_data.0 bare_data.1 bare-IsBare network 4 6 40 60
      refl refl

-- a checksum whose int of 32 bits is negative
hash_example :
    (h : ℤ) × (hash_any (λ (b : Bytes). done b) (λ b. 2 ^ 32 - 7) bits32 [] ≡ ok h)
    × IsHashOf bits32 (2 ^ 32 - 7) h
hash_example =
    hash_any-IsHashOf (λ (b : Bytes). done b) (λ b. 2 ^ 32 - 7) bits32 [] [] refl (omega arith)
