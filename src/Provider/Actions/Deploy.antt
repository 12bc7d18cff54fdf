-- ===== src/Provider/Actions/Deploy.antt =====
-- `CopySecrets`, `Push` and `Switch` of provider/provider.go: what is done to the server.
pub mod Locks
use terraform_provider_nixos.Base.{
  String, Bool, true, false, List, [], ◌∷◌, none, some, Outcome, ok, err, panic, errorf, last?,
  index_out_of_range, nil_dereference, ◌=ₛ◌, ◌||◌, if◌then◌else◌,
}
use terraform_provider_nixos.Base.Assoc.{Map, lookup}
use terraform_provider_nixos.System.{System, M, pure, fail, lift, get_world, ◌>>=◌, ◌>>◌}
use terraform_provider_nixos.Command.{
  CommandLine, execute_command, command_from_string, remote_command,
}
use terraform_provider_nixos.Settings.{ResourceBox, value_of}
use terraform_provider_nixos.Ssh
use terraform_provider_nixos.Ssh.{Ssh, option_host}
use terraform_provider_nixos.Nix
use terraform_provider_nixos.Nix.{Nix}
use terraform_provider_nixos.Nix.Copy
use terraform_provider_nixos.Nix.Copy.{protocol_ssh, option_to, option_path}
use terraform_provider_nixos.Nix.Profile
use terraform_provider_nixos.Nix.Profile.{option_profile, option_derivation}
use terraform_provider_nixos.Nix.Derivation.{Derivation}
use terraform_provider_nixos.Secrets.{Secrets}
use terraform_provider_nixos.Secrets.Archive
use terraform_provider_nixos.Secrets.Archive.{Writer}
use terraform_provider_nixos.Provider.{Network, Provider, as_string, nix_settings}
use terraform_provider_nixos.Provider.Address.{address}
use terraform_provider_nixos.Provider.Objects.{provider_nix, provider_ssh}
use terraform_provider_nixos.Provider.Actions.{using}

-- `drvs[len(drvs)-1].Outputs[outName]`, which is empty for a missing output
unfoldable pub output_path : List Derivation → String → Outcome String
output_path drvs name = elim (last? drvs) [
  | none ↦ panic index_out_of_range
  | some d ↦ ok (elim (lookup name d.outputs) [ none ↦ "" | some path ↦ path ])
]

ssh_of : Nix → Outcome Ssh
ssh_of nix = elim nix.ssh [ none ↦ panic nil_dereference | some s ↦ ok s ]

-- the cases of the switch on the activation action
unfoldable pub is_action : String → Bool
is_action a = a =ₛ "" || (a =ₛ "switch" || (a =ₛ "boot" || (a =ₛ "test" || a =ₛ "dry-activate")))

module _ (sys : System) where
  -- the secrets after `CopySecrets`, and its result
  copied : Secrets → Outcome CommandLine → M (Secrets × Outcome (Unit {0}))
  copied s (ok c) w = (ok (s, (execute_command sys c w).0), (execute_command sys c w).1)
  copied s (err e) w = (ok (s, err e), w)
  copied s (panic p) w = (panic p, w)

  -- the inner loop of `Push`, over the outputs of a derivation: `false` if the context is done
  unfoldable pub push_outputs : Nix → String → Map String → M Bool
  push_outputs nix addr [] = pure true
  push_outputs nix addr ((name, path) ∷ outputs) = do
    w ← get_world
    if sys.cancelled w
        then pure false
        else (Copy.execute sys
              (Copy.copy sys.escape_path nix (option_to protocol_ssh addr ∷ option_path path ∷ []))
            >> push_outputs nix addr outputs)

  -- the outer loop, over the derivations
  unfoldable pub push_all : Nix → String → List Derivation → M Unit
  unfolding push_outputs
  push_all nix addr [] = pure tt
  push_all nix addr (d ∷ ds) = do
    go_on ← push_outputs nix addr d.outputs
    if go_on then push_all nix addr ds else pure tt

  -- the profile is set, and then the configuration activated
  unfoldable pub install_and_activate : CommandLine → CommandLine → String → M Unit
  unfolding is_action
  install_and_activate install activation action =
      if is_action action
      then (execute_command sys install
          >> (if action =ₛ "" then pure tt else execute_command sys activation))
      else fail (errorf "unsupported activation action: %q" (action ∷ []))

module _ (net : Network) (sys : System) where
  open net use {IP, IPNet}

  -- `CopySecrets`, with the secrets, which may hold their data after it
  unfoldable pub copy_secrets :
      Writer → Provider IP IPNet → ResourceBox → Secrets → M (Secrets × Outcome (Unit {0}))
  unfolding copied
  copy_secrets tw p resource secrets = do
    addr ← lift (address net p (resource "address"))
    base ← provider_ssh sys p (some resource)
    using (Ssh.with sys (option_host (net.to_string addr) ∷ []) base) (Ssh.close sys)
        λ ssh. Archive.copy sys tw ssh secrets >>= λ r. copied sys r.0 r.1

  unfoldable pub push : Provider IP IPNet → ResourceBox → List Derivation → M Unit
  unfolding push_all
  push p resource drvs = using (provider_nix sys p (some resource)) (Nix.close sys) λ nix.
      lift (address net p (resource "address")) >>= λ addr.
      push_all sys nix (net.to_string addr) drvs

  unfoldable pub switch_with :
      Provider IP IPNet → Nix → List Derivation → ResourceBox → String → M Unit
  unfolding output_path ssh_of install_and_activate
  switch_with p nix drvs resource addr = do
    settings ← lift (nix_settings p (some resource))
    profile_path ← lift (as_string (value_of "profile" settings))
    out_name ← lift (as_string (value_of "output" settings))
    drv_path ← lift (output_path drvs out_name)
    base ← lift (ssh_of nix)
    ssh ← Ssh.with sys (option_host addr ∷ []) base
    script ← lift (as_string (value_of "activation_script" settings))
    action ← lift (as_string (value_of "activation_action" settings))
    install_and_activate sys
        (remote_command (Ssh.command ssh) (
          Profile.command (
            Profile.install (Profile.profile nix)
              (option_profile profile_path ∷ option_derivation drv_path ∷ []))))
        (remote_command (Ssh.command ssh) (command_from_string script (action ∷ []))) action

  unfoldable pub switch : Provider IP IPNet → ResourceBox → List Derivation → M Unit
  unfolding switch_with
  switch p resource drvs = do
    addr ← lift (address net p (resource "address"))
    nix ← provider_nix sys p (some resource)
    switch_with p nix drvs resource (net.to_string addr)
