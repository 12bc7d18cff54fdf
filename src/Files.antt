-- ===== src/Files.antt =====
-- provider/os.go and provider/nix_conf_wrapper.go: temporary files, which exist from their creation
-- to their `Close`, and the wrapper file of a build. A file is known by its name.
pub mod Laws
pub mod Locks
use terraform_provider_nixos.Base.{String, ◌⧺◌, Outcome, Option, none, some, if◌then◌else◌}
use terraform_provider_nixos.Base.Text.{is_nonempty}
use terraform_provider_nixos.Base.Assoc.{Map, lookup, put, remove}
use terraform_provider_nixos.System.{
  System, World, Attempt, done, refused, M, pure, attempt, inspect, get_world, ◌>>=◌,
}

-- `TempFile.Close`: the descriptor is closed and the file removed, unless the system refuses
unfoldable pub close_temp : System → String → M Unit
close_temp sys name w = elim (sys.remove_file w name) [
  | done _ ↦ (Outcome.ok tt, record w { files = remove name w.files })
  | refused e ↦ (Outcome.err e, w)
]

-- what is already in a file
abbrev pub content : String → World → String
content name w = elim (lookup name w.files) [ none ↦ "" | some s ↦ s ]

-- A descriptor of the `File` interface: a temporary file, or a file of the user that was opened.
pub data File : Type 0 where
  temp : String → File
  opened : String → File

-- `fd.Name()`
abbrev pub name : File → String
name (temp n) = n
name (opened n) = n

-- `fd.Close()`, whose error is dropped: only a temporary file is removed
unfoldable pub close : System → File → World → World
unfolding close_temp
close sys (temp n) w = (close_temp sys n w).1
close sys (opened n) w = w

module _ (sys : System) where
  -- `CreateTemp`: the new file is empty
  unfoldable pub create_temp : String → M String
  create_temp pattern w = elim (sys.create_temp w pattern) [
    | done n ↦ (Outcome.ok n, record w { files = put n "" w.files })
    | refused e ↦ (Outcome.err e, w)
  ]

  -- `fd.Write`
  unfoldable pub write : String → String → M Unit
  write n s w = elim (sys.write w n) [
    | done _ ↦ (Outcome.ok tt, record w { files = put n (content n w ⧺ s) w.files })
    | refused e ↦ (Outcome.err e, w)
  ]

  after_write : String → Outcome (Unit {0}) → M File
  unfolding close_temp
  after_write n (Outcome.ok _) w = (Outcome.ok (temp n), w)
  after_write n (Outcome.err e) w = (Outcome.err e, (close_temp sys n w).1)
  after_write n (Outcome.panic p) w = (Outcome.panic p, w)

  -- `NewNixWrapperFile`: the embedded wrapper in a temporary file, or the file of the user
  unfoldable pub new_nix_wrapper_file : String → M File
  unfolding create_temp write after_write
  new_nix_wrapper_file path =
      if is_nonempty path
      then (do w ← get_world; _ ← attempt (sys.open_file w path); pure (opened path))
      else (do
        n ← create_temp "nix_wrapper.nix.*"
        inspect (write n sys.nix_wrapper) (after_write n))
