-- ===== src/Examples/Objects.antt =====
-- Configuration maps, environments, settings, fingerprints and commands.
use terraform_provider_nixos.Base.{
  ◌≡◌, refl, sym, String, [], ◌∷◌, some, none, ok, true, arith, All, eq_iff,
}
use terraform_provider_nixos.Base.Int.{pos}
use terraform_provider_nixos.Base.Assoc.{lookup, put}
use terraform_provider_nixos.Base.Text.{to_lower, join}
use terraform_provider_nixos.System.{done}
use terraform_provider_nixos.Ssh.ConfigMap
use terraform_provider_nixos.Ssh.ConfigMap.{SshConfigMap, new_ssh_config_map}
use terraform_provider_nixos.Ssh.ConfigMap.Laws.{IsValid, position, set-put, store-copy}
use terraform_provider_nixos.Ssh.ConfigMap.Refinement.{
  wrote, asked, extended, copied, run, abstract_run, view, Refines, run-Refines,
}
use terraform_provider_nixos.Log.{join_lines, write, IsLine, write-lines}
use terraform_provider_nixos.Environment
use terraform_provider_nixos.Environment.Laws.{lookup-with}
use terraform_provider_nixos.Environment.Lines.{getenv}
use terraform_provider_nixos.Command.{process_environment}
use terraform_provider_nixos.Command.Process.{getenv-process_environment}
use terraform_provider_nixos.Settings.{get_field, put_field, Fields, str, int, end, field}
use terraform_provider_nixos.Settings.Merge.{merge, merge_loop}
use terraform_provider_nixos.Settings.Laws.{IsMerged, merge-IsMerged}
use terraform_provider_nixos.Secrets.{Crypto, hash_all}
use terraform_provider_nixos.Secrets.Octal.{from_octal, from_octal-octal, decimal, octal}
use terraform_provider_nixos.Instance.Fingerprint.{
  Random, Fingerprint, IsSound, fingerprint_fields, secrets_fingerprint_to_schema,
  schema_to_secret_fingerprint, is_unchanged, fingerprint-unchanged,
}
use terraform_provider_nixos.Schema.{
  Schema, schema, schema_map_extend, traits, type_string, type_set, no_elem, elem_resource,
  attribute, no_attributes, default_of, default_map_from_schema,
}
use terraform_provider_nixos.Schema.Laws.{
  lookup-schema_map_extend, IsDefaulted, default_map-default,
}
use terraform_provider_nixos.Nix
use terraform_provider_nixos.Nix.{Nix}
use terraform_provider_nixos.Nix.Profile
use terraform_provider_nixos.Nix.Laws.{install_modes}

-- a map with one pair
abbrev user_map : SshConfigMap
user_map = record { index = ("user", 0) ∷ []; store = ("user", "root") ∷ [] }

user_indexed : (k : String) → lookup k user_map.index ≡ position k user_map.store
unfolding lookup position
user_indexed k = ground (arith, eq_iff "user" k)

user_map-IsValid : IsValid user_map
unfolding lookup to_lower
user_map-IsValid = record { indexed = user_indexed; distinct = (refl, tt); lower = (refl, tt) }

set_example :
    (m : SshConfigMap) × (ConfigMap.set "User" "nix" user_map ≡ ok m)
    × (m.store ≡ ("user", "nix") ∷ [])
    × IsValid m
unfolding put to_lower
set_example = set-put "User" "nix" user_map user_map-IsValid

copy_example :
    (m : SshConfigMap) × (ConfigMap.copy user_map ≡ ok m)
    × IsValid m
    × (m.store ≡ ("user", "root") ∷ [])
copy_example = store-copy user_map user_map-IsValid

-- a key in another case is written, read and copied
calls_example :
    Refines (run (wrote "User" "nix" ∷ copied ∷ asked "USER" ∷ extended user_map ∷ []) user_map) (
      abstract_run
        (wrote "User" "nix" ∷ copied ∷ asked "USER" ∷ extended user_map ∷ [])
        (view user_map))
calls_example =
    run-Refines (wrote "User" "nix" ∷ copied ∷ asked "USER" ∷ extended user_map ∷ []) user_map
      user_map-IsValid (tt, (tt, (tt, (user_map-IsValid, tt))))

log_example :
    (join_lines (write (65 ∷ 10 ∷ 66 ∷ [])).0 ≡ 65 ∷ 10 ∷ 66 ∷ [])
    × All IsLine (write (65 ∷ 10 ∷ 66 ∷ [])).0
    × ((write (65 ∷ 10 ∷ 66 ∷ [])).1 ≡ 3)
log_example = write-lines (65 ∷ 10 ∷ 66 ∷ [])

with_example :
    lookup "A" (Environment.with (("A", "1" ∷ []) ∷ []) (("A", "2" ∷ []) ∷ []))
    ≡ some ("1" ∷ "2" ∷ [])
unfolding lookup
with_example = lookup-with "A" (("A", "1" ∷ []) ∷ []) (("A", "2" ∷ []) ∷ []) (refl, tt) (refl, tt)

environment_example :
    getenv "A" (process_environment (("A", "1" ∷ "2" ∷ []) ∷ []) ("A=0" ∷ [])) ≡ some "1 2"
unfolding lookup join
environment_example =
    getenv-process_environment "A" (("A", "1" ∷ "2" ∷ []) ∷ []) ("A=0" ∷ []) (refl, tt) (refl, tt)

-- a provider's block, and that of a resource
abbrev provider_fields : Fields
provider_fields = field "user" (str "root") (field "port" (int (pos 22)) end)

abbrev resource_fields : Fields
resource_fields = field "port" (int (pos 2222)) end

merge_example : IsMerged (some (int (pos 22))) (some (int (pos 2222))) (some (int (pos 2222)))
unfolding get_field merge merge_loop put_field
merge_example =
    merge-IsMerged provider_fields resource_fields
      (field "user" (str "root") (field "port" (int (pos 2222)) end)) "port" (refl, (refl, tt))
      (refl, tt) refl

octal_example : from_octal (pos 400) ≡ pos 256
unfolding decimal octal
octal_example = from_octal-octal (0 ∷ 0 ∷ 4 ∷ []) (omega arith, (omega arith, (omega arith, tt)))

abbrev crypto : Crypto
crypto = record {
  pbkdf2 = λ password salt n. password;
  sha256 = λ b. 7 ∷ [];
  sha1 = λ b. 9 ∷ [];
  utf8 = λ s. [];
}

abbrev random : Random
random = record { read = λ n. done (1 ∷ 2 ∷ []); intn = λ n. 0 }

done_eq : {A : Type 0} {a b : A} → done a ≡ done b → a ≡ b
done_eq h = cc

random-IsSound : IsSound crypto random
random-IsSound = record {
  hash_bytes = λ b. (omega arith, tt);
  salt_bytes = λ n b h. rw (sym (done_eq h)) (omega arith, (omega arith, tt));
  below = λ n h. h;
}

fingerprint_example :
    (f : Fingerprint) × (schema_to_secret_fingerprint
        (fingerprint_fields (7 ∷ []) (1 ∷ 2 ∷ []) (pos 0))
      ≡ ok f)
    × (is_unchanged crypto [] f ≡ true)
unfolding secrets_fingerprint_to_schema hash_all
fingerprint_example =
    fingerprint-unchanged crypto random [] (fingerprint_fields (7 ∷ []) (1 ∷ 2 ∷ []) (pos 0))
      random-IsSound refl

abbrev nix : Nix
nix = record {
  mode = 1;
  arguments = "--show-trace" ∷ [];
  command_options = [];
  environment = [];
  ssh = none;
}

install_example :
    Profile.command (
      Profile.install
        (Profile.profile nix)
        (Profile.option_profile "/p" ∷ Profile.option_derivation "/d" ∷ []))
    ≡ record {
      name = "nix";
      arguments =
          "--show-trace" ∷ "profile" ∷ "install" ∷ "--profile" ∷ "/p" ∷ "--derivation" ∷ "/d" ∷ [];
      options = [];
    }
unfolding Nix.command
install_example = install_modes nix "/p" "/d"

-- an attribute with both kinds of default
abbrev user_schema : Schema
user_schema =
    schema
      (record (traits type_string) {
        default = str "nobody";
        default_func = some (ok (str "root"));
      })
      no_elem

abbrev block_schema : Schema
block_schema = schema (traits type_set) (elem_resource (attribute "user" user_schema no_attributes))

abbrev other_schema : Schema
other_schema = schema (traits type_set) no_elem

extend_example :
    lookup "user" (
      schema_map_extend
        (("user", user_schema) ∷ ("host", user_schema) ∷ [])
        (("user", other_schema) ∷ []))
    ≡ some other_schema
unfolding lookup
extend_example =
    lookup-schema_map_extend "user" (("user", user_schema) ∷ ("host", user_schema) ∷ [])
      (("user", other_schema) ∷ []) (refl, (refl, tt)) (refl, tt)

default_example : IsDefaulted (some user_schema) (get_field "user" (field "user" (str "root") end))
unfolding lookup default_of default_map_from_schema put_field
default_example =
    default_map-default "user" block_schema (("user", user_schema) ∷ [])
      (field "user" (str "root") end) refl (refl, tt) refl
