-- ===== src/Nix/Build/Memo.antt =====
-- What the memo of the builds remembers.
use terraform_provider_nixos.Base.{
  String, ◌≡◌, ◌≢◌, refl, ap, sym, ◌∙◌, Bool, true, false, List, [], ◌∷◌, Option, none, some,
  Outcome, ok, err, panic, eq_iff, arith,
}
use mathlib.Core.Path.{subst}
use terraform_provider_nixos.Base.Assoc.{lookup, lookup-put}
use terraform_provider_nixos.Base.Hex.{Bytes}
use terraform_provider_nixos.System.{System, World, pure, lift, continue, ◌>>=◌}
use terraform_provider_nixos.Files.Laws.{OnOk, OnOk-bind, OnOk-then}
use terraform_provider_nixos.Command.{unmarshal_result, command_execute}
use terraform_provider_nixos.Command.Quiet.{command_execute-IsQuiet}
use terraform_provider_nixos.Nix.Build.{
  NixBuildCommand, command, memo_get, memo_set, set_if, build_output, remembered, output_of,
  execute,
}

-- The state remembers this output under the key.
abbrev pub IsRemembered : String → Bytes → World → Type 0
IsRemembered key r w = lookup key w.memo ≡ some r

module _ (sys : System) (n : NixBuildCommand) where
  after_build :
      (r : Bytes) (w : World)
      → n.memoize ≡ true
      → OnOk (IsRemembered n.memo_key) ((set_if n.memoize n.memo_key r >>= λ _. pure r) w)
  unfolding set_if memo_set
  after_build r w h =
      rw (h, set_if)
        (ground (arith, lookup-put n.memo_key n.memo_key r w.memo, eq_iff n.memo_key n.memo_key))

  build_output-IsRemembered :
      (w : World) → n.memoize ≡ true → OnOk (IsRemembered n.memo_key) (build_output sys n w)
  unfolding build_output
  build_output-IsRemembered w h =
      OnOk-then (IsRemembered n.memo_key)
        (command_execute sys (command n).name (command n).arguments (command n).options) _ w
        (λ r v. after_build r v h)

  output_of-IsRemembered :
      (w : World) (o : Option Bytes)
      → n.memoize ≡ true
      → remembered n w ≡ o
      → OnOk (IsRemembered n.memo_key) (output_of sys n o w)
  unfolding output_of remembered memo_get
  output_of-IsRemembered w (some r) h e = ground arith
  output_of-IsRemembered w none h e = build_output-IsRemembered w h

set_if-keeps :
    (memoize : Bool) (key' key : String) (r' r : Bytes) (w : World)
    → (memoize ≡ true → key' ≢ key)
    → IsRemembered key r w
    → IsRemembered key r ((set_if memoize key' r' >>= λ _. pure r') w).1
unfolding set_if memo_set
set_if-keeps false key' key r' r w other h = h
set_if-keeps true key' key r' r w other h =
    let o = other refl in ground (arith, lookup-put key' key r' w.memo, eq_iff key' key)

after_build-keeps :
    (n : NixBuildCommand) (key : String) (r : Bytes) (o : Outcome Bytes) (w : World)
    → (n.memoize ≡ true → n.memo_key ≢ key)
    → IsRemembered key r w
    → IsRemembered key r (continue (λ r'. set_if n.memoize n.memo_key r' >>= λ _. pure r') o w).1
after_build-keeps n key r (ok r') w other h = set_if-keeps n.memoize n.memo_key key r' r w other h
after_build-keeps n key r (err e) w other h = h
after_build-keeps n key r (panic p) w other h = h

-- A command that the memo has no output for writes under another key than one that it has.
other_key :
    (n : NixBuildCommand) (key : String) (r : Bytes) (w : World)
    → remembered n w ≡ none
    → IsRemembered key r w
    → n.memoize ≡ true
    → n.memo_key ≢ key
unfolding remembered memo_get
other_key n key r w q h m k = let e = ap (λ j. lookup j w.memo) k in ground arith

output_of-keeps :
    (sys : System) (n : NixBuildCommand) (key : String) (r : Bytes) (w : World) (o : Option Bytes)
    → remembered n w ≡ o
    → IsRemembered key r w
    → IsRemembered key r (output_of sys n o w).1
unfolding output_of build_output
output_of-keeps sys n key r w (some r') q h = h
output_of-keeps sys n key r w none q h =
    let c = command n in
    let quiet = (command_execute-IsQuiet sys c.name c.arguments c.options).same w in
    after_build-keeps n key r (command_execute sys c.name c.arguments c.options w).0
      (command_execute sys c.name c.arguments c.options w).1 (other_key n key r w q h)
      (ap (lookup key) quiet.memo_eq ∙ h)

lift_state :
    {A B : Type 0} (f : A → Outcome B) (o : Outcome A) (w : World)
    → (continue (λ a. lift (f a)) o w).1 ≡ w
lift_state f (ok a) w = refl
lift_state f (err e) w = refl
lift_state f (panic p) w = refl

module _ {R : Type 0} (decode : Bytes → Outcome R) (sys : System) where
  -- the output that a returned result was decoded from is remembered then
  abbrev IsDecoded : NixBuildCommand → Option R → Option R → World → Type 0
  IsDecoded n result x w =
      (r : Bytes) × IsRemembered n.memo_key r w
      × (unmarshal_result decode n.unmarshaler r result ≡ ok x)

  IsDecoded-lift :
      (n : NixBuildCommand) (result : Option R) (r : Bytes) (w : World) (o : Outcome (Option R))
      → unmarshal_result decode n.unmarshaler r result ≡ o
      → IsRemembered n.memo_key r w
      → OnOk (IsDecoded n result) (o, w)
  IsDecoded-lift n result r w (ok x) e h = (r, h, e)
  IsDecoded-lift n result r w (err x) e h = tt
  IsDecoded-lift n result r w (panic x) e h = tt

  execute-IsDecoded :
      (n : NixBuildCommand) (result : Option R) (w : World)
      → n.memoize ≡ true
      → OnOk (IsDecoded n result) (execute decode sys n result w)
  unfolding execute
  execute-IsDecoded n result w h =
      OnOk-bind (IsRemembered n.memo_key) (IsDecoded n result) (output_of sys n (remembered n w)) _
        w (output_of-IsRemembered sys n w _ h refl) (λ r v. IsDecoded-lift n result r v _ refl)

  execute_remembered :
      (n : NixBuildCommand) (result : Option R) (r : Bytes) (w : World)
      → n.memoize ≡ true
      → IsRemembered n.memo_key r w
      → execute decode sys n result w ≡ (unmarshal_result decode n.unmarshaler r result, w)
  unfolding execute remembered memo_get output_of
  execute_remembered n result r w h e =
      let q : remembered n w ≡ some r = ground arith in rw (q, output_of) refl

  -- build commands one after the other, each whatever the outcome of those before it
  pub executed : List (NixBuildCommand × Option R) → World → World
  executed [] w = w
  executed ((n, result) ∷ builds) w = executed builds (execute decode sys n result w).1

  execute-keeps :
      (key : String) (r : Bytes) (n : NixBuildCommand) (result : Option R) (w : World)
      → IsRemembered key r w
      → IsRemembered key r (execute decode sys n result w).1
  unfolding execute
  execute-keeps key r n result w h =
      subst (IsRemembered key r)
        (sym (lift_state (λ b. unmarshal_result decode n.unmarshaler b result) _ _))
        (output_of-keeps sys n key r w (remembered n w) refl h)

  executed-keeps :
      (key : String) (r : Bytes) (builds : List (NixBuildCommand × Option R)) (w : World)
      → IsRemembered key r w
      → IsRemembered key r (executed builds w)
  unfolding executed
  executed-keeps key r [] w h = h
  executed-keeps key r ((n, result) ∷ builds) w h =
      executed-keeps key r builds (execute decode sys n result w).1
        (execute-keeps key r n result w h)

  -- After a memoized build that returned, and any further build commands, memoized or not and
  -- whatever their outcomes, every memoized command with the key and unmarshaler of the first one
  -- returns the same result and leaves the state as it is, so that nothing is run, whatever its
  -- nix command and arguments are.
  pub execute-same_key :
      (n n' : NixBuildCommand) (result x : Option R) (w w' : World)
      (builds : List (NixBuildCommand × Option R))
      → n.memoize ≡ true
      → n'.memoize ≡ true
      → n'.memo_key ≡ n.memo_key
      → n'.unmarshaler ≡ n.unmarshaler
      → execute decode sys n result w ≡ (ok x, w')
      → execute decode sys n' result (executed builds w') ≡ (ok x, executed builds w')
  execute-same_key n n' result x w w' builds h h' k u e =
      let d : IsDecoded n result x w' =
        subst (OnOk (IsDecoded n result)) e (execute-IsDecoded n result w h) in
      let kept = executed-keeps n.memo_key d.0 builds w' d.1 in
      execute_remembered n' result d.0 (executed builds w') h' (rw k kept)
      ∙ rw u (ap (λ o. (o, executed builds w')) d.2)
