-- ===== src/System.antt =====
-- What the provider acts on: the state of its process and of the machine it runs on, the calls of
-- the operating system that it makes, and the monad of Go functions that read and change them.
-- The answers of the machine are a parameter, `System`; they may depend on all that has happened.
pub mod Run
pub mod Same
pub mod Locks
use terraform_provider_nixos.Base.{
  ℕ, String, Bool, true, false, Option, none, some, List, [], ◌∷◌, ◌++◌, Error, Panic, Outcome, ok,
  err, panic,
}
use terraform_provider_nixos.Base.Assoc.{Map}
use terraform_provider_nixos.Base.Hex.{Bytes}

-- A subprocess: its program and arguments, its environment as `KEY=VALUE` lines, its input.
pub record Invocation : Type 0 where
  pub command : String
  pub arguments : List String
  pub environment : List String
  pub stdin : Option Bytes

pub data Event : Type 0 where
  -- `exec.Cmd.Run` was called; the system may refuse to start the program
  ran : Invocation → Event
  logged : String → Event
  slept : ℕ → Event

pub record World : Type 0 where
  -- `nixBuildCommandMemo`, the build results of this process by their keys
  pub memo : Map Bytes
  -- the temporary files that exist, with their content
  pub files : Map String
  -- the locked buffers that are not destroyed, by their numbers, and the next number
  pub locked : List ℕ
  pub next_buffer : ℕ
  -- what was done, the last first
  pub log : List Event

pub data Attempt {ℓ} (A : Type ℓ) : Type ℓ where
  done : A → Attempt A
  refused : Error → Attempt A

-- How a subprocess ends: with its standard output, or with an error and its standard error.
pub data Exit : Type 0 where
  success : Bytes → Exit
  failure : Error → String → Exit

-- The answers of the operating system.
pub record System : Type 0 where
  pub run : World → Invocation → Exit
  -- `os.Environ()`, the environment of this process
  pub environ : List String
  -- `os.CreateTemp("", pattern)`: the name of the new file
  pub create_temp : World → String → Attempt String
  -- writing to an open file
  pub write : World → String → Attempt (Unit {0})
  -- `os.Remove` of a path
  pub remove_file : World → String → Attempt (Unit {0})
  -- `os.Open` of a path
  pub open_file : World → String → Attempt (Unit {0})
  -- `file.Stat().IsDir()` of an opened path
  pub is_dir : World → String → Attempt Bool
  -- `ioutil.ReadAll` of an opened path
  pub read_all : World → String → Attempt Bytes
  -- `filepath.Abs`
  pub abs : String → Attempt String
  -- `os.ExpandEnv`
  pub expand_env : String → String
  -- whether `ctx.Done()` is closed
  pub cancelled : World → Bool
  -- `net/url`'s escaping of a path
  pub escape_path : String → String
  -- `time.Now()`, at its readings in one state, by their numbers
  pub now : World → ℕ → ℕ
  -- the text of nix_conf_wrapper.nix, which the build embeds
  pub nix_wrapper : String

-- A Go function with effects: its outcome, and the state that it leaves.
abbrev pub M : Type 0 → Type 0
M A = World → Outcome A × World

abbrev pub pure : {A : Type 0} → A → M A
pure a w = (ok a, w)

abbrev pub fail : {A : Type 0} → Error → M A
fail e w = (err e, w)

abbrev pub crash : {A : Type 0} → Panic → M A
crash p w = (panic p, w)

abbrev pub lift : {A : Type 0} → Outcome A → M A
lift o w = (o, w)

abbrev pub attempt : {A : Type 0} → Attempt A → M A
attempt (done a) w = (ok a, w)
attempt (refused e) w = (err e, w)

abbrev pub continue : {A B : Type 0} → (A → M B) → Outcome A → M B
continue f (ok a) w = f a w
continue f (err e) w = (err e, w)
continue f (panic p) w = (panic p, w)

infixl 10 ◌>>=◌ ◌>>◌
abbrev pub ◌>>=◌ : {A B : Type 0} → M A → (A → M B) → M B
◌>>=◌ m f w = continue f (m w).0 (m w).1

abbrev pub ◌>>◌ : {A B : Type 0} → M A → M B → M B
m >> n = m >>= λ _. n

abbrev pub get_world : M World
get_world w = (ok w, w)

abbrev pub emit : Event → M (Unit {0})
emit e w = (ok tt, record w { log = e ∷ w.log })

-- What comes next looks at the outcome itself, `if err != nil`.
abbrev pub inspect : {A B : Type 0} → M A → (Outcome A → M B) → M B
inspect m k w = k (m w).0 (m w).1

-- A deferred call: `after` runs whatever the outcome of `m`, and its own outcome is dropped.
abbrev pub defer : {A : Type 0} → (World → World) → M A → M A
defer after m w = ((m w).0, after (m w).1)
