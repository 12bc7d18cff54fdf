-- ===== src/Provider/Configure/Defaults.antt =====
-- A provider whose blocks are not configured: what the defaults of provider/schema.go make of it.
use terraform_provider_nixos.Base.{◌≡◌, refl, sym, ap, ◌∙◌, String, [], ◌∷◌, some, ok, arith}
use mathlib.Core.Path.{subst}
use terraform_provider_nixos.Base.Int.{pos}
use terraform_provider_nixos.Base.Assoc.{Map, lookup, put, put_all}
use terraform_provider_nixos.System.{System, done}
use terraform_provider_nixos.Base.Text.{to_lower}
use terraform_provider_nixos.Settings.{
  items_of, int, str, field, put_field, get_field, value_of, ResourceBox, Value, Items, Fields,
  list, set, map, item, none_left, end, nil,
}
use terraform_provider_nixos.Net.{parse_cidr}
use terraform_provider_nixos.Secrets.{filesystem, new_secrets}
use terraform_provider_nixos.Schema.{
  Schema, traits_of, get, schema_with_default_func_ctr, default_map_from_schema, schema_map_extend,
  default_ssh_config, default_address_filter, default_address_priority,
}
use terraform_provider_nixos.Schema.Kinds.{AllSound, Conforms, Yields, get-HasKind, get_total}
use terraform_provider_nixos.Schema.Tables.{provider_schema_map}
use terraform_provider_nixos.Provider.{
  Network, Provider, new_provider, init, init_address_filter, init_address_priority, parse_filters,
  parse_priorities,
}
use terraform_provider_nixos.Provider.Objects.Secrets.{provider_secrets}
use terraform_provider_nixos.Settings.Blocks.{settings-one, settings-nested, settings_set-one}
use terraform_provider_nixos.Provider.Configure.{provider_data, IsDataOf, configure}

ok_eq : {A : Type 0} {a b : A} → ok a ≡ ok b → a ≡ b
ok_eq e = cc

provider_schema_map-AllSound : (m : Map Schema) → provider_schema_map ≡ ok m → AllSound m
unfolding schema_with_default_func_ctr default_map_from_schema schema_map_extend put_all put
    default_ssh_config default_address_filter default_address_priority
provider_schema_map-AllSound m e =
    subst AllSound (ok_eq e) (tt, (tt, (tt, (tt, (tt, (tt, (tt, (tt, (tt, tt)))))))))

-- For every attribute in the table of the provider, if the SDK's box holds a value of the
-- attribute's type for each attribute, the resource data returns a value of that type: it does not
-- panic, and a default block is a set as a configured one is.
pub provider_data-HasKind :
    (new_set : Items → Items) (box : ResourceBox) (m : Map Schema) (k : String) (s : Schema)
    → provider_schema_map ≡ ok m
    → Conforms m box
    → lookup k m ≡ some s
    → Yields (traits_of s).kind (provider_data new_set box k)
unfolding provider_data
provider_data-HasKind new_set box m k s e c h =
    rw e (get-HasKind new_set m box k s (provider_schema_map-AllSound m e) c h)

-- Such a box has resource data for every key.
pub provider_data_total :
    (new_set : Items → Items) (box : ResourceBox) (m : Map Schema)
    → provider_schema_map ≡ ok m
    → Conforms m box
    → (d : ResourceBox) × IsDataOf new_set box d
unfolding provider_data
provider_data_total new_set box m e c =
    let value = λ (k : String). get_total new_set m box k (provider_schema_map-AllSound m e) c in
    (λ k. (value k).0, λ k. rw e (value k).1)

-- The SDK's box of a provider without filters, priorities and blocks of secrets.
pub record IsBare (box : ResourceBox) : Type 0 where
  pub filter_eq : box "address_filter" ≡ list none_left
  pub priority_eq : box "address_priority" ≡ map end
  pub secrets_eq : box "secrets" ≡ set none_left
  pub secret_eq : box "secret" ≡ set none_left

-- the default blocks of `secrets` and `secret`
abbrev secrets_block : Fields
secrets_block = field "provider" (str "filesystem") (
    field "filesystem" (list (item (map end) none_left)) (
      field "command"
        (list (
          item (map (field "name" nil (field "arguments" nil (field "environment" nil end))))
            none_left))
        (field "gopass" (list (item (map (field "store" nil end)) none_left)) end)))

abbrev secret_block : Fields
secret_block = field "source" nil (
    field "destination" nil (
      field "owner" (str "root")
        (field "group" (str "root") (field "permissions" (int (pos 600)) end))))

-- What the resource data returns where nothing is configured.
record HasDefaults (d : ResourceBox) : Type 0 where
  pub filter : ok (d "address_filter") ≡ default_address_filter
  pub priority : ok (d "address_priority") ≡ default_address_priority
  pub secrets : d "secrets" ≡ set (item (map secrets_block) none_left)
  pub secret : d "secret" ≡ set (item (map secret_block) none_left)

module _ (new_set : Items → Items)
    (one : (v : Value) → new_set (item v none_left) ≡ item v none_left) (box d : ResourceBox)
    (h : IsDataOf new_set box d) (b : IsBare box) where
  data-HasDefaults : HasDefaults d
  unfolding provider_data schema_with_default_func_ctr default_map_from_schema schema_map_extend
      put_all put put_field default_ssh_config default_address_filter default_address_priority get
      lookup
  data-HasDefaults = record {
    filter = sym (h "address_filter") ∙ rw b.filter_eq refl;
    priority = sym (h "address_priority") ∙ rw b.priority_eq refl;
    secrets = ok_eq (sym (h "secrets") ∙ rw b.secrets_eq refl) ∙ ap set (one _);
    secret = ok_eq (sym (h "secret") ∙ rw b.secret_eq refl) ∙ ap set (one _);
  }

  -- If the SDK's box of the provider has no filters, priorities and blocks of secrets, the resource's
  -- box has no blocks of secrets either, and a set made of one item holds that item, then
  -- `NewSecrets` returns the filesystem provider without a secret: the default block of `secret`,
  -- which has no source, is left out.
  pub provider_secrets-default :
      {IP IPNet : Type 0} (sys : System) (p : Provider IP IPNet) (r : ResourceBox)
      → p.box ≡ d
      → r "secrets" ≡ set none_left
      → r "secret" ≡ set none_left
      → provider_secrets sys p (some r) ≡ ok (new_secrets filesystem [])
  unfolding provider_secrets value_of get_field to_lower
  provider_secrets-default sys p r q e f =
      let inner =
        settings-nested d r "secrets" secrets_block "filesystem" end data-HasDefaults.secrets refl
          e in
      let base = settings-one d r "secrets" secrets_block data-HasDefaults.secrets e in
      let blocks = settings_set-one d r "secret" secret_block data-HasDefaults.secret f in
      rw (q, base) (rw (inner, blocks) refl)

  -- If the SDK's box of the provider has no filters, priorities and blocks of secrets, a set made of
  -- one item holds that item, and the two default networks are parsed, then the provider is
  -- configured without a diagnostic: it filters by both networks, IPv6 first, and gives the IPv4
  -- network the weight 1 and the IPv6 network the weight 0.
  pub configure-default :
      (net : Network) (ip4 ip6 : net.IP) (net4 net6 : net.IPNet)
      → net.net_parse_cidr "0.0.0.0/0" ≡ done (ip4, net4)
      → net.net_parse_cidr "::/0" ≡ done (ip6, net6)
      → configure net d
        ≡ ok (
          some (record {
            box = d;
            address_filter = record { ip = ip6; net = net6 } ∷ record { ip = ip4; net = net4 } ∷ [];
            address_priority = (net4, pos 1) ∷ (net6, pos 0) ∷ [];
          }),
          [],
        )
  unfolding configure new_provider init init_address_filter init_address_priority parse_filters
      parse_priorities parse_cidr items_of default_address_filter default_address_priority
  configure-default net ip4 ip6 net4 net6 four six =
      rw (ok_eq data-HasDefaults.filter, ok_eq data-HasDefaults.priority)
        (ground (arith, six, four))
