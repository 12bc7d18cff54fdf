-- ===== src/Ssh/ConfigMap.antt =====
-- `SshConfigMap` of provider/ssh.go: an ordered dictionary whose keys are in lower case. `store`
-- holds the pairs in the order in which their keys were first set, `index` the position of each key.
-- The pair `(key, value)` stands for `SshConfigKeyValue`.
pub mod Laws
pub mod Refinement
use terraform_provider_nixos.Base.{
  ℕ, zero, suc, String, ◌⧺◌, Option, none, some, List, [], ◌∷◌, ◌++◌, Outcome, ok, panic,
  index_out_of_range, ◌>>=◌, length,
}
use terraform_provider_nixos.Base.Text.{to_lower}
use terraform_provider_nixos.Base.Assoc.{Map, lookup, put}

abbrev pub SshConfigPairs : Type 0
SshConfigPairs = List (String × String)

pub record SshConfigMap : Type 0 where
  pub index : Map ℕ
  pub store : SshConfigPairs

unfoldable pub new_ssh_config_map : SshConfigMap
new_ssh_config_map = record { index = []; store = [] }

-- `m.store[i].Value = value`
unfoldable pub set_value : SshConfigPairs → ℕ → String → Outcome SshConfigPairs
set_value [] i value = panic index_out_of_range
set_value ((k, v) ∷ s) zero value = ok ((k, value) ∷ s)
set_value ((k, v) ∷ s) (suc i) value = do s' ← set_value s i value; ok ((k, v) ∷ s')

-- `m.store[i].Value`
unfoldable pub value_at : SshConfigPairs → ℕ → Outcome String
value_at [] i = panic index_out_of_range
value_at ((k, v) ∷ s) zero = ok v
value_at ((k, v) ∷ s) (suc i) = value_at s i

unfoldable pub set : String → String → SshConfigMap → Outcome SshConfigMap
set key value m =
    let lkey = to_lower key in
    elim (lookup lkey m.index) [
      | some i ↦ do store ← set_value m.store i value; ok (record m { store = store })
      | none ↦ ok (record {
        index = put lkey (length m.store) m.index;
        store = m.store ++ (lkey, value) ∷ [];
      })
    ]

-- `none` is the result `"", false`
unfoldable pub get : String → SshConfigMap → Outcome (Option String)
get key m = elim (lookup (to_lower key) m.index) [
  | none ↦ ok none
  | some i ↦ do v ← value_at m.store i; ok (some v)
]

unfoldable pub pairs : SshConfigMap → SshConfigPairs
pairs m = m.store

unfoldable pub len : SshConfigMap → ℕ
len m = length m.store

-- the loop of `Extend`, and of every other `for k, v := range … { m.Set(k, v) }`
unfoldable pub set_all : SshConfigMap → SshConfigPairs → Outcome SshConfigMap
set_all m [] = ok m
set_all m ((k, v) ∷ ps) = do m' ← set k v m; set_all m' ps

unfoldable pub extend : SshConfigMap → SshConfigMap → Outcome SshConfigMap
unfolding set_all pairs
extend m em = set_all m (pairs em)

unfoldable pub copy : SshConfigMap → Outcome SshConfigMap
copy m = extend new_ssh_config_map m

-- `SshSerializeConfig`, with the text that is already in `config`
serialize_onto : String → SshConfigPairs → String
serialize_onto config [] = config
serialize_onto config ((k, v) ∷ ps) = serialize_onto (config ⧺ (k ⧺ (" " ⧺ (v ⧺ "\n")))) ps

unfoldable pub ssh_serialize_config : SshConfigPairs → String
unfolding serialize_onto
ssh_serialize_config ps = serialize_onto "" ps
