-- ===== src/Examples.antt =====
-- Concrete inputs for the tests, and the theorems applied to them.
mod Network
mod Objects
mod Effects
mod Creation
mod Schemas
mod Bastion
use terraform_provider_nixos.Base.{
  ℕ, ◌/◌, ◌==◌, String, ◌≡◌, refl, Bool, false, List, [], ◌∷◌, Option, none, some, Error, external,
}
use terraform_provider_nixos.Base.Assoc.{lookup}
use terraform_provider_nixos.System.{System, World, Attempt, done, refused, Exit, success}
use terraform_provider_nixos.Files.Laws.{IsFresh, CanRemove}

abbrev pub start : World
start = record { memo = []; files = []; locked = []; next_buffer = 0; log = [] }

-- Addresses are numbers, and a network holds ten of them.
abbrev pub contains : ℕ → ℕ → Bool
contains network address = address / 10 == network

-- one temporary file, if there is none yet
temp_name : Option String → Attempt String
temp_name none = done "ssh_config.1"
temp_name (some s) = refused (external "file exists")

abbrev pub machine : System
unfolding temp_name
machine = record {
  run = λ w i. success [];
  environ = "HOME=/root" ∷ [];
  create_temp = λ w pattern. temp_name (lookup "ssh_config.1" w.files);
  write = λ w n. done tt;
  open_file = λ w n. done tt;
  is_dir = λ w n. done false;
  read_all = λ w n. done (1 ∷ 2 ∷ []);
  remove_file = λ w n. done tt;
  abs = λ s. done s;
  expand_env = λ s. s;
  cancelled = λ w. false;
  escape_path = λ s. s;
  now = λ w i. 0;
  nix_wrapper = "";
}

temp_name_fresh :
    (o : Option String) (n : String) → temp_name o ≡ done n → (o ≡ none) × (n ≡ "ssh_config.1")
unfolding temp_name
temp_name_fresh none n h = (refl, cc)
temp_name_fresh (some s) n h = cc

pub machine-CanRemove : CanRemove machine
unfolding machine
machine-CanRemove = record { removes = λ w n. refl }

pub machine-IsFresh : IsFresh machine
unfolding machine
machine-IsFresh = record {
  fresh =
      λ w pattern n h. let f = temp_name_fresh (lookup "ssh_config.1" w.files) n h in rw f.1 f.0;
}
