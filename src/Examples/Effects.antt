-- ===== src/Examples/Effects.antt =====
-- Actions on the samples of machines.
use terraform_provider_nixos.Base.{
  ℕ, ◌≡◌, refl, true, false, List, [], ◌∷◌, some, none, Outcome, ok, err, external, arith,
}
use terraform_provider_nixos.Base.Int.{pos}
use terraform_provider_nixos.Base.Assoc.{lookup}
use terraform_provider_nixos.Base.Hex.{Bytes}
use terraform_provider_nixos.System.{Event, World, M, done}
use terraform_provider_nixos.Files.Laws.{OnOk}
use terraform_provider_nixos.Command.{
  CommandLine, execute_command, command_execute, apply_options, unmarshal_result, json,
}
use terraform_provider_nixos.Command.Readln.{Chunk, readln, readln-Reads}
use terraform_provider_nixos.Command.Runs.{invocations, issued}
use terraform_provider_nixos.Ssh
use terraform_provider_nixos.Ssh.{new_ssh, option_config_map, option_host}
use terraform_provider_nixos.Ssh.ConfigMap.{new_ssh_config_map}
use terraform_provider_nixos.Ssh.Laws.{new_ssh-close}
use terraform_provider_nixos.Nix.{Nix}
use terraform_provider_nixos.Nix.Build.{NixBuildCommand, execute}
use terraform_provider_nixos.Nix.Build.Memo.{executed, execute-same_key}
use terraform_provider_nixos.Nix.Derivation.{Derivation}
use terraform_provider_nixos.Secrets.{Secrets, SecretDescription, SecretData, get, load, filesystem}
use terraform_provider_nixos.Secrets.Buffers.{Restores, load-close, load_again}
use terraform_provider_nixos.Settings.{nil}
use terraform_provider_nixos.Provider.{Network, Provider}
use terraform_provider_nixos.Provider.Actions.Deploy.{is_action, install_and_activate, push_all}
use terraform_provider_nixos.Provider.Actions.Laws.{
  install_and_activate-invocations, push_all-copy_paths, copy_paths, all_paths,
}
use terraform_provider_nixos.Instance.Retry.{retrying, before, IsLast, retrying-IsLast}
use terraform_provider_nixos.Instance.Retry.Success.{IsSuccess, IsPanic, retrying-IsSuccess}
use terraform_provider_nixos.Examples.{start, machine, machine-IsFresh, machine-CanRemove}

close_example :
    OnOk
      (λ s w'. (Ssh.close machine s w').files ≡ [])
      (new_ssh machine (option_config_map new_ssh_config_map ∷ option_host "::1" ∷ []) start)
close_example =
    new_ssh-close machine (option_config_map new_ssh_config_map ∷ option_host "::1" ∷ []) start
      machine-IsFresh machine-CanRemove tt

-- an action that fails in the first state
flaky : M Unit
flaky w = elim w.log [ [] ↦ (err (external "connection refused"), w) | _ ↦ (ok tt, w) ]

retry_example :
    (k : ℕ) × IsLast 30 flaky 3 start k
    × (retrying 30 flaky 3 start ≡ flaky (before 30 flaky start k))
retry_example = retrying-IsLast 30 flaky 3 start

flaky_from :
    (l : List Event) (w : World)
    → ¬ IsPanic
        (elim l as (λ _. Outcome (Unit {0}) × World) [
          | [] ↦ (err (external "connection refused"), w)
          | _ ↦ (ok tt, w)
        ]).0
flaky_from [] w = λ h. h
flaky_from (e ∷ l) w = λ h. h

flaky_lem : (w : World) → ¬ IsPanic (flaky w).0
unfolding flaky
flaky_lem w = flaky_from w.log w

-- the second attempt succeeds
success_example : IsSuccess (retrying 30 flaky 3 start).0
unfolding before flaky
success_example =
    retrying-IsSuccess 30 flaky 3 1 start (omega arith) tt
      λ j l. flaky_lem (before 30 flaky start j)

-- a reader over a list of chunks
read_chunk : List Chunk → Chunk × List Chunk
read_chunk [] = (record { line = []; is_prefix = false; error = some (external "EOF") }, [])
read_chunk (c ∷ cs) = (c, cs)

abbrev first : Chunk
first = record { line = 1 ∷ 2 ∷ []; is_prefix = true; error = none }

abbrev second : Chunk
second = record { line = 3 ∷ []; is_prefix = false; error = none }

line_example : readln read_chunk 5 (first ∷ second ∷ []) ≡ some ((1 ∷ 2 ∷ 3 ∷ [], none), [])
unfolding read_chunk
line_example =
    readln-Reads read_chunk 5 (first ∷ second ∷ []) (first ∷ []) second [] (omega arith)
      ((refl, refl), tt) (λ p. cc (p.0)) (refl, (refl, refl))

abbrev install : CommandLine
install = record { name = "nix-env"; arguments = "--set" ∷ "/d" ∷ []; options = [] }

abbrev activation : CommandLine
activation = record { name = "activate"; arguments = "switch" ∷ []; options = [] }

activate_example :
    invocations (install_and_activate machine install activation "switch" start).1.log
    ≡ issued machine activation ∷ issued machine install ∷ []
unfolding execute_command invocations is_action command_execute apply_options machine
activate_example = install_and_activate-invocations machine install activation "switch" start

abbrev nix : Nix
nix = record { mode = 0; arguments = []; command_options = []; environment = []; ssh = none }

abbrev derivations : List Derivation
derivations = record { path = "/d"; outputs = ("out", "/o") ∷ ("dev", "/p") ∷ [] } ∷ []

push_example :
    push_all machine nix "::1" derivations start
    ≡ copy_paths machine nix "::1" ("/o" ∷ "/p" ∷ []) start
unfolding all_paths
push_example = push_all-copy_paths machine nix "::1" derivations start

abbrev description : SecretDescription
description = record {
  source = "key";
  destination = "/etc/key";
  owner = "root";
  group = "root";
  permissions = pos 400;
}

abbrev secrets : Secrets
secrets = record { provider = filesystem; secrets = description ∷ []; data_cache = none }

load_example : Restores [] (load machine secrets start)
load_example = load-close machine secrets start refl tt

abbrev build_command : NixBuildCommand
build_command = record {
  nix = nix;
  arguments = "--json" ∷ [];
  memoize = true;
  memo_key = "/etc/nixos";
  unmarshaler = some json;
}

-- a build of another configuration
abbrev other_command : NixBuildCommand
other_command = record build_command { memo_key = "/srv/nixos" }

abbrev decode : Bytes → Outcome ℕ
decode b = ok 5

after_build : World
unfolding execute
after_build = (execute decode machine build_command (some 0) start).1

memo_example :
    execute decode machine build_command
      (some 0)
      (executed decode machine ((other_command, none) ∷ []) after_build)
    ≡ (ok (some 5), executed decode machine ((other_command, none) ∷ []) after_build)
unfolding execute after_build lookup command_execute apply_options machine unmarshal_result
memo_example =
    execute-same_key decode machine build_command build_command (some 0) (some 5) start after_build
      ((other_command, none) ∷ []) refl refl refl refl refl

-- the secrets with what the first call of `Data` fetches, and the state after it
abbrev loaded : List SecretData
loaded = record { buffer = 0; bytes = 1 ∷ 2 ∷ []; description = description } ∷ []

abbrev loaded_secrets : Secrets
loaded_secrets = record secrets { data_cache = some loaded }

abbrev loaded_world : World
loaded_world = record start { locked = 0 ∷ []; next_buffer = 1 }

again_example : load machine loaded_secrets start ≡ (ok (loaded_secrets, loaded), start)
unfolding load machine get
again_example = load_again machine secrets loaded_secrets loaded start loaded_world start refl

abbrev network : Network
network = record {
  IP = ℕ;
  IPNet = ℕ;
  net_parse_cidr = λ s. done (1, 1);
  parse_ip = λ s. 1;
  contains = λ n a. true;
  to_string = λ a. "::1";
  merge_blocks = λ less s. s;
}

abbrev provider : Provider network.IP network.IPNet
provider = record { box = λ key. nil; address_filter = []; address_priority = [] }
