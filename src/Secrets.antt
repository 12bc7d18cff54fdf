-- ===== src/Secrets.antt =====
-- provider/secrets.go: secrets, the providers that fetch them, and the locked buffers that hold them.
-- Of a locked buffer of memguard the model has its content, and which buffers are not destroyed.
pub mod Octal
pub mod Archive
pub mod Buffers
pub mod Growth
use terraform_provider_nixos.Base.{
  ℕ, suc, ◌+◌, ◌==◌, String, Bool, true, false, List, [], ◌∷◌, ◌++◌, Option, none, some, Outcome,
  ok, err, panic, Error, errorf, wrapf, keep, not, if◌then◌else◌,
}
use terraform_provider_nixos.Base.Int.{ℤ}
use terraform_provider_nixos.Base.Text.{join, is_nonempty}
use terraform_provider_nixos.Base.Hex.{Bytes, encode_to_string}
use terraform_provider_nixos.Base.Assoc.{Map}
use terraform_provider_nixos.System.{
  System, World, M, pure, fail, crash, attempt, inspect, get_world, ◌>>=◌, ◌>>◌,
}
use terraform_provider_nixos.Environment.{Environment, set, new_environment}
use terraform_provider_nixos.Command.{option_env, command_execute}

pub record SecretDescription : Type 0 where
  pub source : String
  pub destination : String
  pub owner : String
  pub group : String
  pub permissions : ℤ

-- A secret in memory: the number and the content of its locked buffer, and its description.
pub record SecretData : Type 0 where
  pub buffer : ℕ
  pub bytes : Bytes
  pub description : SecretDescription

pub data SecretsProvider : Type 0 where
  filesystem : SecretsProvider
  command : String → List String → Environment → SecretsProvider
  gopass : String → List String → Environment → SecretsProvider

pub record Secrets : Type 0 where
  pub provider : SecretsProvider
  pub secrets : List SecretDescription
  -- nil until the secrets are fetched
  pub data_cache : Option (List SecretData)

-- the hash functions of the program's libraries
pub record Crypto : Type 0 where
  -- `pbkdf2.Key(password, salt, iter, 32, sha256.New)`
  pub pbkdf2 : Bytes → Bytes → ℤ → Bytes
  pub sha256 : Bytes → Bytes
  pub sha1 : Bytes → Bytes
  -- `[]byte(s)`
  pub utf8 : String → Bytes

module _ (crypto : Crypto) where
  -- `SecretData.Hash`
  unfoldable pub hash : SecretData → Bytes → ℤ → Bytes
  hash s salt iter = crypto.pbkdf2 s.bytes salt iter

  -- what the loop of `SecretsData.Hash` writes
  unfoldable pub hash_input : List SecretData → Bytes → ℤ → Bytes
  unfolding hash
  hash_input [] salt iter = []
  hash_input (s ∷ ss) salt iter = hash s salt iter ++ hash_input ss salt iter

  -- `SecretsData.Hash`
  unfoldable pub hash_all : List SecretData → Bytes → ℤ → Bytes
  unfolding hash_input
  hash_all ss salt iter = crypto.sha256 (hash_input ss salt iter)

  unfoldable pub hash_string : List SecretData → Bytes → ℤ → String
  unfolding hash_all
  hash_string ss salt iter = encode_to_string (hash_all ss salt iter)

-- what memguard locks for the buffer of this number: nothing for no bytes
lock : Bytes → ℕ → List ℕ → List ℕ
lock [] n l = l
lock (b ∷ bs) n l = n ∷ l

-- `NewLockedBuffer`; for no bytes, the buffer is memguard's null buffer, which is not alive
unfoldable pub new_locked_buffer : Bytes → M ℕ
unfolding lock
new_locked_buffer buf w = (
  ok w.next_buffer,
  record w { locked = lock buf w.next_buffer w.locked; next_buffer = suc w.next_buffer },
)

-- `LockedBuffer.Destroy`
unfoldable pub destroy : ℕ → World → World
destroy n w = record w { locked = keep (λ m. not (m == n)) w.locked }

-- `SecretsData.Destroy`, and the same loop over `data[:n]`
unfoldable pub destroy_all : List SecretData → World → World
unfolding destroy
destroy_all [] w = w
destroy_all (s ∷ ss) w = destroy_all ss (destroy s.buffer w)

-- `Name()`; the gopass provider embeds the command provider, and its name with it
unfoldable pub provider_name : SecretsProvider → String
provider_name filesystem = "filesystem"
provider_name (command c a e) = "command"
provider_name (gopass c a e) = "command"

read_failed : String → Outcome Bytes → M Bytes
read_failed source (Outcome.err e) =
    fail (wrapf e "failed to read from file descriptor associated with %q" (source ∷ []))
read_failed source (Outcome.ok b) = pure b
read_failed source (Outcome.panic p) = crash p

-- `SecretsProviderFilesystem.Get`
unfoldable pub get_file : System → String → M Bytes
unfolding read_failed
get_file sys source = do
  w ← get_world
  _ ← attempt (sys.open_file w source)
  dir ← attempt (sys.is_dir w source)
  if dir
      then fail (errorf "got directory as secret at %q, this is not supported" (source ∷ []))
      else inspect (attempt (sys.read_all w source)) (read_failed source)

command_failed : String → String → List String → Outcome Bytes → M Bytes
command_failed source c a (Outcome.err e) =
    fail (wrapf e "failed to get content of %q using %q %v" (source ∷ c ∷ a))
command_failed source c a (Outcome.ok b) = pure b
command_failed source c a (Outcome.panic p) = crash p

-- `SecretsProviderCommand.Get`
unfoldable pub get_command : System → String → List String → Environment → String → M Bytes
unfolding command_failed
get_command sys c a env source =
    inspect (command_execute sys c (a ++ source ∷ []) (option_env env ∷ []))
      (command_failed source c a)

unfoldable pub get : System → SecretsProvider → String → M Bytes
unfolding get_file get_command
get sys filesystem source = get_file sys source
get sys (command c a env) source = get_command sys c a env source
get sys (gopass c a env) source = get_command sys c a env source

-- the loop of `NewSecretsProviderCommand`
set_words : Environment → Map String → Environment
unfolding set
set_words env [] = env
set_words env ((k, v) ∷ m) = set_words (set k (v ∷ []) env) m

unfoldable pub new_secrets_provider_command : String → List String → Map String → SecretsProvider
unfolding set_words
new_secrets_provider_command c a environment =
    command c a (set_words (new_environment []) environment)

unfoldable pub new_secrets_provider_gopass : System → String → SecretsProvider
unfolding set_words
new_secrets_provider_gopass sys store =
    let env = if is_nonempty store then ("PASSWORD_STORE_DIR", sys.expand_env store) ∷ [] else [] in
    gopass "gopass" ("show" ∷ "-n" ∷ []) (set_words (new_environment []) env)

unfoldable pub new_secrets : SecretsProvider → List SecretDescription → Secrets
new_secrets p s = record { provider = p; secrets = s; data_cache = none }

-- An error of `Get`: the buffers filled so far are destroyed.
fetch_failed : SecretsProvider → SecretDescription → List SecretData → Outcome Bytes → M Bytes
unfolding destroy_all
fetch_failed p secret so_far (Outcome.err e) w =
    fail (wrapf e "failed to get secret %q from provider %q" (secret.source ∷ provider_name p ∷ []))
      (destroy_all so_far w)
fetch_failed p secret so_far (Outcome.ok b) w = pure b w
fetch_failed p secret so_far (Outcome.panic q) w = crash q w

-- the loop of `Data`, with the secrets that are fetched already
unfoldable pub fetch :
    System → SecretsProvider → List SecretDescription → List SecretData → M (List SecretData)
unfolding fetch_failed new_locked_buffer
fetch sys p [] so_far = pure so_far
fetch sys p (secret ∷ rest) so_far = do
  buf ← inspect (get sys p secret.source) (fetch_failed p secret so_far)
  n ← new_locked_buffer buf
  fetch sys p rest (so_far ++ record { buffer = n; bytes = buf; description = secret } ∷ [])

keep_data : Secrets → List SecretData → Secrets × List SecretData
keep_data s ss = (record s { data_cache = some ss }, ss)

-- `Secrets.Data`, with the secrets after the call
unfoldable pub load : System → Secrets → M (Secrets × List SecretData)
unfolding keep_data fetch
load sys s = elim s.data_cache [
  | some ss ↦ pure (s, ss)
  | none ↦ fetch sys s.provider s.secrets [] >>= λ ss. pure (keep_data s ss)
]

-- `Secrets.Close`
unfoldable pub close : Secrets → World → Secrets × World
unfolding destroy_all
close s w = elim s.data_cache [
  | none ↦ (s, w)
  | some ss ↦ (record s { data_cache = none }, destroy_all ss w)
]
