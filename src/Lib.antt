-- ===== src/Lib.antt =====
-- A model of the terraform provider for NixOS servers, package `provider/` of the repository.
--
-- The program builds a NixOS configuration with nix, copies secrets and store paths to a server over
-- ssh, and switches the server to the new system. Its parts, from the bottom up:
--
--   Environment    provider/command.go       variables of subprocesses
--   Command        provider/command.go, provider/marshaling.go   subprocesses and their results
--   Files          provider/os.go, provider/nix_conf_wrapper.go   temporary files
--   Ssh            provider/ssh.go           the ssh command; Ssh/ConfigMap is its ordered configuration
--   Tar            provider/tar.go           the tar command
--   Net            provider/net.go           filtering and sorting of addresses
--   Nix            provider/nix.go           the nix command; its children build, copy, set profiles
--   Secrets        provider/secrets.go, provider/enclave.go   secrets in locked buffers
--   Settings       provider/provider.go      settings blocks and how they are merged
--   Schema         provider/schema.go, provider/schema_defaults.go, provider/resource.go   the tables of
--                  attributes and their defaults; Schema/Hashing is the hash of set items
--   Provider       provider/provider.go      the objects for a resource, and the actions on a server;
--                  Provider/Configure is the configuration by `New` of provider/schema.go
--   Instance       provider/instance.go      what terraform calls: create, update, diff, read, delete
--   Log            provider/log.go           the writer that logs lines
--
-- A Go function keeps its name in snake case, a struct is a record, an option function `XOptionY` is
-- a constructor `option_y` with its effect in `apply_option`. `System` has the state of the process
-- (the memo of builds, temporary files, locked buffers, a log of what was run) and the answers of
-- the operating system, which are a parameter and may depend on the whole state. A function with
-- effects is of type `M A`: it returns, fails with an error or panics, and leaves a state.
-- A deferred call is `defer` or `using`; `inspect` is a test of `err`.
--
-- Maps are association lists; a `range` visits one in the order of its list, which stands for any
-- order. An `int` is a signed number without bound, except where it is parsed or converted.
-- `sort.SliceStable` is its insertion sort up to 20 elements, beyond which the merging of blocks is a
-- parameter.
-- The retry loop recurses on the number of retries that are left. The loop of `fromOctal` has fuel,
-- one more than the argument's magnitude, which suffices since it divides by 10 in every round. The
-- loop of `Readln` has fuel too, which suffices if it is the number of chunks of the line.
-- `strings.ToLower` folds ASCII letters only; option names of ssh have no others. A null buffer of
-- memguard, that of an empty secret, has a number and is not among the locked buffers. The log has
-- each call of `exec.Cmd.Run`, also one for which the system starts no process.
--
-- Parameters are: the operating system (also whether it removes a file), hashes, package `net`, `archive/tar`, JSON decoding,
-- mapstructure, and what the SDK does with sets and with computed values. Not modelled are the
-- descriptions in the tables of attributes, the copy of a command's output in the log, and the entry
-- point of the plugin.
mod Base
pub mod System
pub mod Environment
pub mod Command
pub mod Files
pub mod Ssh
pub mod Tar
pub mod Net
pub mod Nix
pub mod Secrets
pub mod Settings
pub mod Schema
pub mod Provider
pub mod Instance
pub mod Log
mod Examples
