-- ===== src/Ssh/ConfigMap/Refinement.antt =====
-- `SshConfigMap` of provider/ssh.go as an implementation of a dictionary that ignores case.
use terraform_provider_nixos.Base.{
  String, ◌≡◌, refl, ap, ◌∙◌, Option, none, some, List, [], ◌∷◌, ◌++◌, Outcome, ok, ◌>>=◌, ◌=ₛ◌,
  if◌then◌else◌, All,
}
use mathlib.Core.Path.{fun_ext}
use terraform_provider_nixos.Base.Text.{to_lower}
use terraform_provider_nixos.Base.Assoc.{lookup, lookup-put, lookup-put_all}
use terraform_provider_nixos.Ssh.ConfigMap.{SshConfigMap, set, get, pairs, extend, copy}
use terraform_provider_nixos.Ssh.ConfigMap.Laws.{
  IsValid, set-put, get-lookup, store-copy, set_all-put_lower, put_all_lower,
}

-- the abstract dictionary: what is held for a key in any case
abbrev pub Dictionary : Type 0
Dictionary = String → Option String

unfoldable pub write : String → String → Dictionary → Dictionary
write k v d j = if to_lower k =ₛ to_lower j then some v else d j

unfoldable pub over : Dictionary → Dictionary → Dictionary
over d e j = elim (e j) [ none ↦ d j | some v ↦ some v ]

unfoldable pub view : SshConfigMap → Dictionary
view m j = lookup (to_lower j) m.store

-- the calls of the methods; `copied` goes on with the copy
pub data Call : Type 0 where
  wrote : String → String → Call
  asked : String → Call
  extended : SshConfigMap → Call
  copied : Call

-- a call, and the answers of `Get`
step : Call → SshConfigMap → Outcome (List (Option String) × SshConfigMap)
step (wrote k v) m = do m' ← set k v m; ok ([], m')
step (asked k) m = do o ← get k m; ok (o ∷ [], m)
step (extended em) m = do m' ← extend m em; ok ([], m')
step copied m = do m' ← copy m; ok ([], m')

unfoldable pub run : List Call → SshConfigMap → Outcome (List (Option String) × SshConfigMap)
unfolding step
run [] m = ok ([], m)
run (c ∷ cs) m = do r ← step c m; s ← run cs r.1; ok (r.0 ++ s.0, s.1)

abstract_step : Call → Dictionary → List (Option String) × Dictionary
abstract_step (wrote k v) d = ([], write k v d)
abstract_step (asked k) d = (d k ∷ [], d)
abstract_step (extended em) d = ([], over d (view em))
abstract_step copied d = ([], d)

unfoldable pub abstract_run : List Call → Dictionary → List (Option String) × Dictionary
unfolding abstract_step
abstract_run [] d = ([], d)
abstract_run (c ∷ cs) d =
    let r = abstract_step c d in let s = abstract_run cs r.1 in (r.0 ++ s.0, s.1)

-- The maps that the calls extend by are valid.
abbrev pub IsProper : Call → Type 0
IsProper (extended em) = IsValid em
IsProper c = Unit

-- The result is the abstract one, with a valid map that shows the abstract dictionary.
pub record Refines (o : Outcome (List (Option String) × SshConfigMap))
    (r : List (Option String) × Dictionary) : Type 0 where
  pub result : SshConfigMap
  pub run_eq : o ≡ ok (r.0, result)
  pub valid : IsValid result
  pub view_eq : view result ≡ r.1

step-Refines :
    (c : Call) (m : SshConfigMap)
    → IsValid m
    → IsProper c
    → Refines (step c m) (abstract_step c (view m))
unfolding step abstract_step view write over extend pairs
step-Refines (wrote k v) m h p =
    let (m', e, s, h') = set-put k v m h in
    record {
      result = m';
      run_eq = rw e refl;
      valid = h';
      view_eq = fun_ext λ j. rw s (lookup-put (to_lower k) (to_lower j) v m.store);
    }
step-Refines (asked k) m h p = record {
  result = m;
  run_eq = rw (get-lookup k m h) refl;
  valid = h;
  view_eq = refl;
}
step-Refines (extended em) m h p =
    let (m', e, s, h') = set_all-put_lower m em.store h in
    record {
      result = m';
      run_eq = rw (e, extend, pairs) refl;
      valid = h';
      view_eq = fun_ext λ j.
          rw (s, put_all_lower m.store em.store p.lower)
            (lookup-put_all (to_lower j) m.store em.store p.distinct);
    }
step-Refines copied m h p =
    let (m', e, h', s) = store-copy m h in
    record {
      result = m';
      run_eq = rw e refl;
      valid = h';
      view_eq = fun_ext λ j. ap (lookup (to_lower j)) s;
    }

-- On a valid map, any sequence of calls of `Set`, `Get`, `Extend` and `Copy` with valid arguments
-- runs without a panic, and gives the answers of a dictionary from keys to values that ignores
-- case: `Set` writes a key, and `Extend` lets the argument win. The resulting map is valid and shows
-- the resulting dictionary.
pub run-Refines :
    (cs : List Call) (m : SshConfigMap)
    → IsValid m
    → All IsProper cs
    → Refines (run cs m) (abstract_run cs (view m))
unfolding run abstract_run
run-Refines [] m h p = record { result = m; run_eq = refl; valid = h; view_eq = refl }
run-Refines (c ∷ cs) m h p =
    let a = step-Refines c m h p.0 in
    let b = run-Refines cs a.result a.valid p.1 in
    record {
      result = b.result;
      run_eq = rw (a.run_eq, b.run_eq) (rw a.view_eq refl);
      valid = b.valid;
      view_eq = b.view_eq ∙ ap (λ d. (abstract_run cs d).1) a.view_eq;
    }
