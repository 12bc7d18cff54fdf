-- ===== src/Secrets/Archive.antt =====
-- `Secrets.Tar` and `Secrets.Copy` of provider/secrets.go: the secrets as a tar archive, and the
-- command that unpacks it on the server. The bytes that `archive/tar` writes are parameters.
pub mod Locks
use terraform_provider_nixos.Base.{
  ℕ, ◌≡◌, String, List, [], ◌∷◌, ◌++◌, Outcome, ok, err, panic, wrapf, length, append_assoc, ◌>>=◌,
  suc,
}
use terraform_provider_nixos.Base.Int.{ℤ}
use terraform_provider_nixos.Base.Hex.{Bytes}
use terraform_provider_nixos.System.{
  System, Attempt, done, refused, M, pure, fail, crash, get_world,
}
use terraform_provider_nixos.System
use terraform_provider_nixos.Command.{CommandLine, option_stdin, remote_command}
use terraform_provider_nixos.Ssh
use terraform_provider_nixos.Ssh.{Ssh}
use terraform_provider_nixos.Tar
use terraform_provider_nixos.Tar.{option_extract, option_ch_dir, option_command_options}
use terraform_provider_nixos.Secrets.{Secrets, SecretData, load}
use terraform_provider_nixos.Secrets.Octal.{from_octal}

-- `tar.Header`
pub record Header : Type 0 where
  pub name : String
  pub size : ℕ
  pub uname : String
  pub gname : String
  pub mode : ℤ
  pub mod_time : ℕ

-- `tar.Writer`
pub record Writer : Type 0 where
  pub write_header : Header → Attempt Bytes
  pub write : Bytes → Attempt Bytes
  pub trailer : Bytes

unfoldable pub header : SecretData → ℕ → Header
header s now = record {
  name = s.description.destination;
  size = length s.bytes;
  uname = s.description.owner;
  gname = s.description.group;
  mode = from_octal s.description.permissions;
  mod_time = now;
}

-- an error of the writer, with the message of its caller
wrapped : String → SecretData → Attempt Bytes → Outcome Bytes
wrapped message s (done b) = ok b
wrapped message s (refused e) = err (wrapf e message (s.description.source ∷ []))

-- the loop over the secrets, with the bytes in the buffer and the number of the entry
unfoldable pub write_all : Writer → (ℕ → ℕ) → ℕ → List SecretData → Bytes → Outcome Bytes
unfolding wrapped header
write_all tw clock i [] buf = ok buf
write_all tw clock i (s ∷ ss) buf = do
  h ← wrapped "failed to write tar header of %q" s (tw.write_header (header s (clock i)))
  c ← wrapped "failed to write contents of %q into tar writer" s (tw.write s.bytes)
  write_all tw clock (suc i) ss (buf ++ h ++ c)

-- the trailer that the deferred `Close` adds
close_archive : Writer → Outcome Bytes → Outcome Bytes
close_archive tw (ok buf) = ok (buf ++ tw.trailer)
close_archive tw (err e) = err e
close_archive tw (panic p) = panic p

unfoldable pub archive : Writer → (ℕ → ℕ) → List SecretData → Outcome Bytes
unfolding write_all close_archive
archive tw clock ss = close_archive tw (write_all tw clock 0 ss [])

-- `Secrets.Tar`: the secrets, which hold their data now, and the stream or the writer's error
unfoldable pub tar : System → Writer → Secrets → M (Secrets × Outcome Bytes)
tar sys tw s =
    System.◌>>=◌ (load sys s)
      λ r. System.◌>>=◌ get_world λ w. pure (r.0, archive tw (sys.now w) r.1)

-- the command that unpacks a stream at the root of the server
unfoldable pub unpack : Ssh → Bytes → CommandLine
unpack ssh stream = remote_command (Ssh.command ssh) (
    Tar.command (
      Tar.new_tar (
        option_extract
        ∷ option_ch_dir "/"
        ∷ option_command_options (option_stdin stream ∷ [])
        ∷ [])))

command_of : Ssh → Outcome Bytes → Outcome CommandLine
unfolding unpack
command_of ssh (ok stream) = ok (unpack ssh stream)
command_of ssh (err e) = err e
command_of ssh (panic p) = panic p

-- `Secrets.Copy`
unfoldable pub copy : System → Writer → Ssh → Secrets → M (Secrets × Outcome CommandLine)
unfolding tar command_of
copy sys tw ssh s = System.◌>>=◌ (tar sys tw s) λ r. pure (r.0, command_of ssh r.1)

-- The command runs `tar -x -C /` behind the arguments of ssh, with the archive as its input.
pub unpack_lem :
    (ssh : Ssh) (stream : Bytes)
    → unpack ssh stream ≡ record {
      name = "ssh";
      arguments = ssh.arguments ++ "tar" ∷ "-x" ∷ "-C" ∷ "/" ∷ [];
      options = option_stdin stream ∷ [];
    }
unfolding unpack remote_command Ssh.command Tar.command Tar.new_tar
unpack_lem ssh stream = rw append_assoc
