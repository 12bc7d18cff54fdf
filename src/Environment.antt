-- ===== src/Environment.antt =====
-- `Environment` of provider/command.go: environment variables with a list of words for each.
-- A `range` over an environment visits it in the order of its list, which stands for any order.
pub mod Laws
pub mod Lines
use terraform_provider_nixos.Base.{String, ◌⧺◌, Option, none, some, List, [], ◌∷◌, ◌++◌}
use terraform_provider_nixos.Base.Text.{join}
use terraform_provider_nixos.Base.Assoc.{Map, lookup, put, remove}

abbrev pub Environment : Type 0
Environment = Map (List String)

-- `e[key]`, nil where the key is missing
abbrev pub values : String → Environment → List String
values k e = elim (lookup k e) [ none ↦ [] | some v ↦ v ]

unfoldable pub set : String → List String → Environment → Environment
set key value e = put key value e

unfoldable pub add : String → List String → Environment → Environment
add key value e = put key (values key e ++ value) e

unfoldable pub del : String → Environment → Environment
del key e = remove key e

-- the loop of `Copy`
copy_into : Environment → Environment → Environment
copy_into xs [] = xs
copy_into xs ((k, v) ∷ e) = copy_into (put k v xs) e

unfoldable pub copy : Environment → Environment
unfolding copy_into
copy e = copy_into [] e

-- the loop of `With`
add_all : Environment → Environment → Environment
unfolding add
add_all xs [] = xs
add_all xs ((k, v) ∷ ee) = add_all (add k v xs) ee

unfoldable pub with : Environment → Environment → Environment
unfolding add_all copy
with e ee = add_all (copy e) ee

-- `k + "=" + strings.Join(e[k], " ")` for each key
unfoldable pub slice : Environment → List String
slice [] = []
slice ((k, v) ∷ e) = (k ⧺ ("=" ⧺ join v " ")) ∷ slice e

-- the loop of `NewEnvironment` over one of its maps
set_all : Environment → Environment → Environment
unfolding set
set_all e [] = e
set_all e ((k, v) ∷ vs) = set_all (set k v e) vs

set_each : Environment → List Environment → Environment
unfolding set_all
set_each e [] = e
set_each e (vs ∷ vars) = set_each (set_all e vs) vars

unfoldable pub new_environment : List Environment → Environment
unfolding set_each
new_environment vars = set_each [] vars
