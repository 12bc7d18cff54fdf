-- ===== src/Provider/Objects.antt =====
-- `SshConfigMap`, `NewSsh`, `NewNix` and `NewSecrets` of provider/provider.go.
pub mod Secrets
pub mod Locks
pub mod Leftover
use terraform_provider_nixos.Base.{
  ℕ, ◌%◌, ◌-◌, String, ◌⧺◌, Bool, true, false, List, [], ◌∷◌, ◌++◌, Option, none, some, Outcome, ok,
  panic, type_assertion, ◌==◌, if◌then◌else◌, ◌>>=◌ as ◌then_do◌,
}
use terraform_provider_nixos.Base.Int.{ℤ, pos, negsuc, is_positive}
use terraform_provider_nixos.Base.Text.{join, is_nonempty}
use terraform_provider_nixos.Base.Decimal.{itoa}
use terraform_provider_nixos.System.{System, M, pure, lift, ◌>>=◌, ◌>>◌}
use terraform_provider_nixos.Command.{option_tflog_tee}
use terraform_provider_nixos.Settings.{
  ResourceBox, Value, Fields, nil, bool, int, str, map, end, field, value_of,
}
use terraform_provider_nixos.Ssh
use terraform_provider_nixos.Ssh.{
  Ssh, SshOption, option_config_map, option_non_interactive, option_io_redirection, option_host,
  new_ssh,
}
use terraform_provider_nixos.Ssh.ConfigMap
use terraform_provider_nixos.Ssh.ConfigMap.{SshConfigMap, SshConfigPairs, new_ssh_config_map}
use terraform_provider_nixos.Nix
use terraform_provider_nixos.Nix.{
  Nix, NixOption, option_with_command_options, option_mode, option_show_trace, option_cores,
  option_use_substitutes, option_ssh, new_nix,
}
use terraform_provider_nixos.Provider.{
  Provider, string_or_empty, as_string, nix_settings, ssh_settings, bastion_settings,
}

-- `if s, ok := v.(string); ok && len(s) > 0 { m.Set(key, s) }`
set_string : String → Value → SshConfigMap → Outcome SshConfigMap
set_string key (str s) m = if is_nonempty s then ConfigMap.set key s m else ok m
set_string key v m = ok m

set_port : Value → SshConfigMap → Outcome SshConfigMap
set_port (int n) m = if is_positive n then ConfigMap.set "port" (itoa n) m else ok m
set_port v m = ok m

-- the loop over the configuration of the user
set_fields : Fields → SshConfigMap → Outcome SshConfigMap
set_fields end m = ok m
set_fields (field k v fs) m = as_string v then_do λ s. ConfigMap.set k s m then_do set_fields fs

set_config : Value → SshConfigMap → Outcome SshConfigMap
unfolding set_fields
set_config (map fs) m = set_fields fs m
set_config v m = ok m

-- `Provider.SshConfigMap`
unfoldable pub ssh_config_map : Fields → Outcome SshConfigMap
unfolding set_string set_port set_config
ssh_config_map settings =
    set_string "host" (value_of "host" settings) new_ssh_config_map
    then_do set_string "user" (value_of "user" settings)
    then_do set_port (value_of "port" settings)
    then_do set_config (value_of "config" settings)

-- the command by which ssh reaches the server through the bastion
unfoldable pub proxy_command : Ssh → String
proxy_command bastion = let c = Ssh.command bastion in join (c.name ∷ c.arguments) " "

-- the options of the bastion's ssh command
unfoldable pub bastion_options : SshConfigMap → String → List SshOption
bastion_options m host =
    option_config_map m
    ∷ option_non_interactive
    ∷ option_io_redirection "%h" "%p"
    ∷ option_host host
    ∷ []

-- `if bastionHost != "" { … }`: the bastion's settings extend those of ssh
unfoldable pub add_bastion : System → Fields → SshConfigMap → M SshConfigMap
unfolding bastion_options proxy_command
add_bastion sys bastion_settings m =
    let host = string_or_empty (value_of "host" bastion_settings) in
    if is_nonempty host
    then (do
      own ← lift (ssh_config_map bastion_settings)
      base ← lift (ConfigMap.copy m)
      extended ← lift (ConfigMap.extend base own)
      bastion ← new_ssh sys (bastion_options extended host)
      lift (ConfigMap.set "proxyCommand" (proxy_command bastion) m))
    else pure m

-- an empty configuration needs no file
unfoldable pub config_options : SshConfigMap → List SshOption
config_options m = if ConfigMap.len m == 0 then [] else option_config_map m ∷ []

-- the conversion of an `int` to a `NixMode`, which is a `uint8`
unfoldable pub mode_of : ℤ → ℕ
mode_of (pos n) = n % 256
mode_of (negsuc n) = 255 - n % 256

mode_option : Value → List NixOption
unfolding mode_of
mode_option (int n) = option_mode (mode_of n) ∷ []
mode_option v = []

flag_option : NixOption → Value → List NixOption
flag_option o (bool true) = o ∷ []
flag_option o v = []

cores_option : Value → List NixOption
cores_option (int n) = if is_positive n then option_cores n ∷ [] else []
cores_option v = []

-- the options of `NewNix` before that of ssh
unfoldable pub nix_options : Fields → List NixOption
unfolding mode_option flag_option cores_option
nix_options settings =
    option_with_command_options (option_tflog_tee ∷ []) ∷ mode_option (value_of "mode" settings)
    ++ flag_option option_show_trace (value_of "show_trace" settings)
    ++ cores_option (value_of "cores" settings)
    ++ flag_option option_use_substitutes (value_of "use_substitutes" settings)

module _ {IP IPNet : Type 0} (sys : System) (p : Provider IP IPNet)
    (resource : Option ResourceBox) where
  -- `Provider.NewSsh`
  unfoldable pub provider_ssh : M Ssh
  unfolding config_options add_bastion
  provider_ssh = do
    settings ← lift (ssh_settings p resource)
    m ← lift (ssh_config_map settings)
    bastion ← lift (bastion_settings p resource)
    m' ← add_bastion sys bastion m
    new_ssh sys (config_options m')

  -- `Provider.NewNix`
  unfoldable pub provider_nix : M Nix
  unfolding nix_options
  provider_nix = do
    settings ← lift (nix_settings p resource)
    ssh ← provider_ssh
    pure (new_nix (nix_options settings ++ option_ssh ssh ∷ []))
