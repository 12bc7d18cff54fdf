-- ===== src/Environment/Laws.antt =====
-- What a variable holds after the operations of an environment.
use terraform_provider_nixos.Base.{
  String, ◌≡◌, refl, Option, none, some, List, [], ◌∷◌, ◌++◌, arith, eq_iff,
}
use terraform_provider_nixos.Base.Assoc.{lookup, put, IsMap, lookup-put, lookup-put_all, put_all}
use terraform_provider_nixos.Environment.{Environment, values, add, copy, copy_into, with, add_all}

copy_into-put_all : (xs e : Environment) → copy_into xs e ≡ put_all xs e
unfolding copy_into put_all
copy_into-put_all xs [] = refl
copy_into-put_all xs ((k, v) ∷ e) = copy_into-put_all (put k v xs) e

-- A copy holds what the original holds.
pub lookup-copy : (j : String) (e : Environment) → IsMap e → lookup j (copy e) ≡ lookup j e
unfolding copy lookup
lookup-copy j e h = rw copy_into-put_all (ground (arith, lookup-put_all j [] e h))

-- What `With` makes of one variable: the words of both sides, the second's after the first's.
abbrev pub joined : Option (List String) → Option (List String) → Option (List String)
joined o none = o
joined none (some v) = some v
joined (some u) (some v) = some (u ++ v)

lookup-add_all :
    (j : String) (xs ee : Environment)
    → IsMap ee
    → lookup j (add_all xs ee) ≡ joined (lookup j xs) (lookup j ee)
unfolding add_all lookup
lookup-add_all j xs [] h = refl
lookup-add_all j xs ((k, v) ∷ ee) h =
    ground (
      arith,
      eq_iff k j,
      lookup-add_all j (add k v xs) ee h.1,
      lookup-put k j (values k xs ++ v) xs,
    )

-- In environments without double keys, `With` gives every variable its words followed by those of
-- the argument, whatever the order in which it visits the argument.
pub lookup-with :
    (j : String) (e ee : Environment)
    → IsMap e
    → IsMap ee
    → lookup j (with e ee) ≡ joined (lookup j e) (lookup j ee)
unfolding with
lookup-with j e ee h k = rw (lookup-add_all, lookup-copy j e h) refl
