-- ===== src/Examples/Creation.antt =====
-- The creation of a server.
use terraform_provider_nixos.Base.{
  ◌≡◌, ◌∙◌, ◌-◌, refl, sym, some, false, List, arith, ℕ, String, ◌=ₛ◌, true, if◌then◌else◌, [], ◌∷◌,
  none, ok,
}
use terraform_provider_nixos.Base.Int.{pos}
use terraform_provider_nixos.System.{done}
use terraform_provider_nixos.Files.Laws.{OnOk}
use terraform_provider_nixos.Settings.{
  Fields, Value, ResourceBox, nil, int, str, list, set, map, item, none_left, end, field,
}
use terraform_provider_nixos.Provider.{Network, Provider}
use terraform_provider_nixos.Nix.Derivation.{Derivation}
use terraform_provider_nixos.Secrets.{filesystem, new_secrets, hash_all}
use terraform_provider_nixos.Provider.Actions.{build}
use terraform_provider_nixos.Instance.{Resource, Libraries, schema_to_derivations, create}
use terraform_provider_nixos.Instance.Fingerprint.{
  IsSound, fingerprint_fields, secrets_fingerprint_to_schema,
}
use terraform_provider_nixos.Instance.Diff.{ResourceDiff, diff}
use terraform_provider_nixos.Instance.Diff.Unchanged.{changed, diff-changed}
use terraform_provider_nixos.Instance.Laws.{
  IsReported, IsRecorded, IsCreated, NamesAll, create-IsReported,
}
use terraform_provider_nixos.Instance.Locks.{create-Leaves}
use terraform_provider_nixos.Provider.Objects.Secrets.{provider_secrets}
use terraform_provider_nixos.Settings.{
  settings, resolve_settings, blocks, items_of, get_field, put_field, settings_set,
}
use terraform_provider_nixos.Settings.Merge.{merge, merge_loop}
use terraform_provider_nixos.Base.Text.{to_lower}
use terraform_provider_nixos.Secrets.{load}
use terraform_provider_nixos.Provider.Objects.{provider_nix, provider_ssh, ssh_config_map}
use terraform_provider_nixos.Base.Assoc.{lookup, put}
use terraform_provider_nixos.Command.{unmarshal_result, command_execute}
use terraform_provider_nixos.Files.{new_nix_wrapper_file}
use terraform_provider_nixos.Ssh.{new_ssh}
use terraform_provider_nixos.Nix.{new_nix}
use terraform_provider_nixos.Ssh.ConfigMap.{new_ssh_config_map}
use terraform_provider_nixos.Command
use terraform_provider_nixos.Environment
use terraform_provider_nixos.Nix
use terraform_provider_nixos.Nix.Build
use terraform_provider_nixos.Ssh
use terraform_provider_nixos.Ssh.ConfigMap
use terraform_provider_nixos.Examples.{start, machine}

abbrev network : Network
network = record {
  IP = ℕ;
  IPNet = ℕ;
  net_parse_cidr = λ s. done (1, 1);
  parse_ip = λ s. 1;
  contains = λ n a. true;
  to_string = λ a. "::1";
  merge_blocks = λ less s. s;
}

abbrev nix_block : Value
nix_block = set (
    item
      (map (
        field "profile" (str "/p") (
          field "output" (str "out") (
            field "activation_script" (str "/activate")
              (field "activation_action" (str "switch") end)))))
      none_left)

abbrev secrets_block : Value
secrets_block = set (item (map (field "provider" (str "filesystem") end)) none_left)

abbrev box : ResourceBox
box key =
    if key =ₛ "retry"
    then int (pos 2)
    else if key =ₛ "retry_wait"
    then int (pos 5)
    else if key =ₛ "address"
    then list (item (str "::1") none_left)
    else if key =ₛ "nix"
    then nix_block
    else if key =ₛ "secrets"
    then secrets_block
    else if key =ₛ "system"
    then str "x86_64-linux"
    else if key =ₛ "settings"
    then str "{}"
    else if key =ₛ "configuration"
    then str "./configuration.nix"
    else nil

abbrev provider : Provider network.IP network.IPNet
provider = record { box = box; address_filter = []; address_priority = [] }

abbrev libraries : Libraries String
libraries = record {
  crypto = record {
    pbkdf2 = λ password salt n. password;
    sha256 = λ b. 7 ∷ [];
    sha1 = λ b. 9 ∷ [];
    utf8 = λ s. [];
  };
  random = record { read = λ n. done (1 ∷ []); intn = λ n. n - 1 };
  writer = record { write_header = λ h. done []; write = λ b. done b; trailer = [] };
  decode = λ b. ok (record { path = "/d"; outputs = ("out", "/o") ∷ [] } ∷ []);
  encode_derivations = λ ds. done ("/d" ∷ []);
  decode_derivation = λ v. done (record { path = v; outputs = [] });
  generate_uuid = done "id";
  accepts_fingerprint = λ f. done tt;
  accepts_derivations = λ ds. done tt;
}

abbrev server : Resource String
server = record { box = box; id = ""; fingerprint = none; derivations = none }

done_eq : {A : Type 0} {a b : A} → done a ≡ done b → a ≡ b
done_eq h = cc

libraries_names : NamesAll libraries
libraries_names s h q = let e : "id" ≡ "" = done_eq h ∙ q in cc

create_example :
    OnOk
      (IsReported (IsCreated network machine libraries provider server start))
      (create network machine libraries provider server start)
create_example = create-IsReported network machine libraries libraries_names provider server start

locks_example : OnOk (λ _ v. v.locked ≡ []) (create network machine libraries provider server start)
locks_example = create-Leaves network machine libraries provider server start tt

abbrev recorded_derivations : List Derivation
recorded_derivations = record { path = "/d"; outputs = [] } ∷ []

abbrev recorded_fields : Fields
recorded_fields = fingerprint_fields (7 ∷ []) (1 ∷ []) (pos 64)

abbrev recorded_server : Resource String
recorded_server = record server {
  fingerprint = some recorded_fields;
  derivations = some ("/d" ∷ []);
}

abbrev planned : ResourceDiff String
planned = record {
  has_change = λ key. false;
  box = box;
  fingerprint = some recorded_fields;
  derivations = some ("/d" ∷ []);
}

recorded_server-IsRecorded : IsRecorded libraries [] recorded_derivations recorded_server
unfolding secrets_fingerprint_to_schema hash_all
recorded_server-IsRecorded = record {
  fields = recorded_fields;
  values = "/d" ∷ [];
  made = refl;
  encoded = refl;
  fingerprint_eq = refl;
  derivations_eq = refl;
}

libraries_decode :
    (vs : List String)
    → libraries.encode_derivations recorded_derivations ≡ done vs
    → schema_to_derivations libraries.decode_derivation vs ≡ ok recorded_derivations
unfolding schema_to_derivations
libraries_decode vs h = rw (sym (done_eq h)) refl

libraries-IsSound : IsSound libraries.crypto libraries.random
libraries-IsSound = record {
  hash_bytes = λ b. (omega arith, tt);
  salt_bytes = λ n b h. rw (sym (done_eq h)) (omega arith, tt);
  below = λ n h. omega arith;
}

diff_example : diff network machine libraries provider planned start ≡ (
  ok (
      changed libraries.crypto recorded_derivations
        (record { path = "/d"; outputs = ("out", "/o") ∷ [] } ∷ [])),
  (build machine libraries.decode provider box start).1,
)
unfolding provider_secrets settings resolve_settings blocks items_of merge merge_loop get_field
    put_field to_lower settings_set load new_secrets build provider_nix provider_ssh ssh_config_map
    machine lookup unmarshal_result ConfigMap.len Build.execute Environment.add new_nix_wrapper_file
    new_ssh put Command.apply_options Build.build new_nix Nix.close command_execute
    Ssh.apply_options new_ssh_config_map
diff_example =
    diff-changed network machine libraries provider planned recorded_server [] recorded_derivations
      (record { path = "/d"; outputs = ("out", "/o") ∷ [] } ∷ []) (new_secrets filesystem [])
      (record { provider = filesystem; secrets = []; data_cache = some [] }, []) start start _
      libraries-IsSound libraries_decode recorded_server-IsRecorded refl refl refl refl refl refl
      refl refl

-- a provider with a secret
abbrev secret_box : ResourceBox
secret_box key =
    if key =ₛ "secret"
    then set (
        item
          (map (
            field "source" (str "key") (
              field "destination" (str "/key") (
                field "owner" (str "root")
                  (field "group" (str "root") (field "permissions" (int (pos 600)) end))))))
          none_left)
    else box key

abbrev secret_provider : Provider network.IP network.IPNet
secret_provider = record { box = secret_box; address_filter = []; address_priority = [] }
