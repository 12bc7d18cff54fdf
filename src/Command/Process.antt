-- ===== src/Command/Process.antt =====
-- What a subprocess sees of its environment.
use terraform_provider_nixos.Base.{
  String, ◌≡◌, refl, none, true, false, inl, inr, Bool-cases, Option-cases, List, [], ◌∷◌, ◌++◌,
  arith, eq_iff, if◌then◌else◌, append-nil, append_assoc,
}
use terraform_provider_nixos.Base.Assoc.{lookup, has, IsMap}
use terraform_provider_nixos.Environment.{Environment}
use terraform_provider_nixos.Environment.Lines.{
  key_of, getenv, getenv-append, getenv-slice, words, or_else, or_else-none, AllKeys,
}
use terraform_provider_nixos.Command.{inherit, process_environment}

-- the lines of the parent that are inherited
inherited : Environment → List String → List String
inherited env [] = []
inherited env (kv ∷ os) = if has (key_of kv) env then inherited env os else kv ∷ inherited env os

inherit-inherited :
    (env : Environment) (lines os : List String) → inherit env lines os ≡ lines ++ inherited env os
unfolding inherit inherited
inherit-inherited env lines [] = rw append-nil
inherit-inherited env lines (kv ∷ os) = grind (
  arith,
  inherit-inherited env lines os,
  inherit-inherited env (lines ++ kv ∷ []) os,
  append_assoc,
)

-- A variable that the command does not set is inherited, and no other.
getenv-inherited :
    (j : String) (env : Environment) (os : List String)
    → getenv j (inherited env os) ≡ (if has j env then none else getenv j os)
unfolding getenv inherited
getenv-inherited j env [] = elim (Bool-cases (has j env)) [ inl h ↦ rw h | inr h ↦ rw h ]
getenv-inherited j env (kv ∷ os) = ground (arith, eq_iff (key_of kv) j, getenv-inherited j env os)

-- If no variable that the command sets has `=` in its name, and none is set twice, such a variable
-- reaches the subprocess with the command's words, whatever the parent's environment holds, although
-- of two lines for a variable the last one counts; every other variable reaches it as the parent has
-- it.
pub getenv-process_environment :
    (j : String) (env : Environment) (os : List String)
    → AllKeys env
    → IsMap env
    → getenv j (process_environment env os) ≡ or_else (words (lookup j env)) (getenv j os)
unfolding process_environment
getenv-process_environment j env os h m =
    rw (inherit-inherited, getenv-append, getenv-inherited, getenv-slice j env h m)
      (elim (Option-cases (lookup j env)) [
        | inl e ↦
            let unset : has j env ≡ false = ground arith in
            rw (unset, e) (or_else-none (getenv j os))
        | inr (v, e) ↦ let set : has j env ≡ true = ground arith in rw (set, e) refl
      ])
