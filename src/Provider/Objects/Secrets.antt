-- ===== src/Provider/Objects/Secrets.antt =====
-- `Provider.NewSecrets`: the provider of the secrets and their descriptions.
pub mod Fresh
use terraform_provider_nixos.Base.{
  String, Bool, true, false, List, [], ◌∷◌, Option, Outcome, ok, err, panic, errorf, type_assertion,
  ◌>>=◌, ◌=ₛ◌, ◌&&◌, if◌then◌else◌,
}
use terraform_provider_nixos.Base.Assoc.{Map}
use terraform_provider_nixos.Base.Text.{to_lower}
use terraform_provider_nixos.System.{System}
use terraform_provider_nixos.Settings.{
  ResourceBox, Value, Fields, nil, map, end, field, value_of, settings,
}
use terraform_provider_nixos.Secrets.{
  Secrets, SecretDescription, SecretsProvider, filesystem, new_secrets_provider_command,
  new_secrets_provider_gopass, new_secrets,
}
use terraform_provider_nixos.Provider.{
  Provider, as_string, as_int, as_slice, string_or_empty, secrets_settings, secrets_set,
}

strings : List Value → Outcome (List String)
strings [] = ok []
strings (v ∷ vs) = do s ← as_string v; rest ← strings vs; ok (s ∷ rest)

string_map : Fields → Outcome (Map String)
string_map end = ok []
string_map (field k v fs) = do s ← as_string v; rest ← string_map fs; ok ((k, s) ∷ rest)

as_string_map : Value → Outcome (Map String)
unfolding string_map
as_string_map (map fs) = string_map fs
as_string_map v = panic type_assertion

-- the case of the command provider
command_provider : Fields → Outcome SecretsProvider
unfolding strings as_string_map
command_provider fs = do
  name ← as_string (value_of "name" fs)
  arguments_raw ← as_slice (value_of "arguments" fs)
  arguments ← strings arguments_raw
  environment ← as_string_map (value_of "environment" fs)
  ok (new_secrets_provider_command name arguments environment)

is_nil : Value → Bool
is_nil nil = true
is_nil v = false

description : Fields → Outcome SecretDescription
description fs = do
  source ← as_string (value_of "source" fs)
  destination ← as_string (value_of "destination" fs)
  owner ← as_string (value_of "owner" fs)
  group ← as_string (value_of "group" fs)
  permissions ← as_int (value_of "permissions" fs)
  ok (record {
    source = source;
    destination = destination;
    owner = owner;
    group = group;
    permissions = permissions;
  })

-- the loop over the blocks; one with neither source nor destination is the default block of a set
-- without any
unfoldable pub descriptions : List Fields → Outcome (List SecretDescription)
unfolding is_nil description
descriptions [] = ok []
descriptions (fs ∷ rest) =
    let others = descriptions rest in
    if is_nil (value_of "source" fs) && is_nil (value_of "destination" fs)
    then others
    else (do d ← description fs; ds ← others; ok (d ∷ ds))

module _ {IP IPNet : Type 0} (sys : System) (p : Provider IP IPNet)
    (resource : Option ResourceBox) where
  -- the switch on the name of the provider
  unfoldable pub choose_provider : String → Outcome SecretsProvider
  unfolding command_provider
  choose_provider name =
      if to_lower name =ₛ "filesystem"
      then (do _ ← settings p.box resource ("secrets" ∷ "filesystem" ∷ []); ok filesystem)
      else if to_lower name =ₛ "command"
      then (do fs ← settings p.box resource ("secrets" ∷ "command" ∷ []); command_provider fs)
      else if to_lower name =ₛ "gopass"
      then (do
        fs ← settings p.box resource ("secrets" ∷ "gopass" ∷ [])
        ok (new_secrets_provider_gopass sys (string_or_empty (value_of "store" fs))))
      else err (
          errorf "unsupported secrets provider %q, supported providers are: %v"
            (name ∷ "filesystem" ∷ "command" ∷ "gopass" ∷ []))

  unfoldable pub provider_secrets : Outcome Secrets
  unfolding choose_provider descriptions
  provider_secrets = do
    fs ← secrets_settings p resource
    name ← as_string (value_of "provider" fs)
    provider ← choose_provider name
    blocks ← secrets_set p resource
    ds ← descriptions blocks
    ok (new_secrets provider ds)
