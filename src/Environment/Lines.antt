-- ===== src/Environment/Lines.antt =====
-- The `KEY=VALUE` lines of a process environment, and how a variable is read from them.
use Prim.Native.Char.{code}
use text.Mathlib.TextLemmas.{nil-append, cons-append}
use terraform_provider_nixos.Base.{
  String, ◌⧺◌, ◌≡◌, refl, sym, Bool, true, false, Option, none, some, List, [], ◌∷◌, ◌++◌, arith,
  ◌==◌, ◌=ₛ◌, eq_iff, if◌then◌else◌,
}
use terraform_provider_nixos.Base.Text.{join}
use terraform_provider_nixos.Base.Assoc.{lookup, IsMap}
use terraform_provider_nixos.Environment.{Environment, slice}

-- `strings.SplitN(kv, "=", 2)[0]`: the text before the first `=`, or all of it
unfoldable pub key_of : String → String
key_of String.[] = ""
key_of (String.◌∷◌ c s) = if code c == b'=' then "" else String.◌∷◌ c (key_of s)

-- the text behind the first `=`
value_of : String → String
value_of String.[] = ""
value_of (String.◌∷◌ c s) = if code c == b'=' then s else value_of s

abbrev pub or_else : Option String → Option String → Option String
or_else none o = o
or_else (some v) o = some v

pub or_else-none : (o : Option String) → or_else o none ≡ o
or_else-none none = refl
or_else-none (some v) = refl

or_else_assoc : (o p q : Option String) → or_else (or_else o p) q ≡ or_else o (or_else p q)
or_else_assoc none p q = refl
or_else_assoc (some v) p q = refl

-- What a subprocess reads for a variable: of the lines that set it, os/exec passes on the last one.
unfoldable pub getenv : String → List String → Option String
unfolding key_of value_of
getenv k [] = none
getenv k (l ∷ ls) = or_else (getenv k ls) (if key_of l =ₛ k then some (value_of l) else none)

pub getenv-append :
    (k : String) (ls ms : List String) → getenv k (ls ++ ms) ≡ or_else (getenv k ms) (getenv k ls)
unfolding getenv
getenv-append k [] ms = sym (or_else-none (getenv k ms))
getenv-append k (l ∷ ls) ms = rw (getenv-append k ls ms) (or_else_assoc (getenv k ms) _ _)

-- A key without `=`, as the keys of an environment are.
abbrev pub is_key : String → Bool
is_key String.[] = true
is_key (String.◌∷◌ c s) = if code c == b'=' then false else is_key s

abbrev pub AllKeys : Environment → Type 0
AllKeys [] = Unit
AllKeys ((k, v) ∷ e) = (is_key k ≡ true) × AllKeys e

key_of-line : (k v : String) → is_key k ≡ true → key_of (k ⧺ ("=" ⧺ v)) ≡ k
unfolding key_of
key_of-line String.[] v h = rw (nil-append, cons-append)
key_of-line (String.◌∷◌ c k) v h = rw cons-append (ground (arith, key_of-line k v))

value_of-line : (k v : String) → is_key k ≡ true → value_of (k ⧺ ("=" ⧺ v)) ≡ v
unfolding value_of
value_of-line String.[] v h = rw (nil-append, cons-append) (nil-append v)
value_of-line (String.◌∷◌ c k) v h = rw cons-append (ground (arith, value_of-line k v))

abbrev pub words : Option (List String) → Option String
words none = none
words (some v) = some (join v " ")

-- The lines of an environment set each of its variables to its words, and no other.
pub getenv-slice :
    (j : String) (e : Environment) → AllKeys e → IsMap e → getenv j (slice e) ≡ words (lookup j e)
unfolding getenv slice lookup
getenv-slice j [] h m = refl
getenv-slice j ((k, v) ∷ e) h m = ground (
  arith,
  eq_iff k j,
  key_of-line k (join v " ") h.0,
  value_of-line k (join v " ") h.0,
  getenv-slice j e h.1 m.1,
)
